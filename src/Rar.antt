-- ===== src/Rar.antt =====
-- rar-cleanup-scripts: the audit of release folders and the remediation that deletes and extracts.
pub mod Names
pub mod Releases
pub mod Remediate
pub mod Run
pub mod Paths
pub mod DryRun
pub mod Keeps
pub mod Confined
pub mod Extraction
pub mod Sidecar
pub mod Listed
pub mod Deleted
pub mod Empty
pub mod Audit
pub mod Verified
mod Tests
