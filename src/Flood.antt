-- ===== src/Flood.antt =====
-- The two scripts of flood/scripts: flood-publish.py, which links finished media into the library, and
-- pinelake-stignore.py, which keeps the lists of what another house is sent.
pub mod Tree
pub mod Publish
pub mod Stignore
mod IgnoreTests
mod Tests
