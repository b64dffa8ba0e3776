-- ===== src/Rar/Extraction.antt =====
-- When rar-cleanup-scripts/remediate.py takes a release for extracted.
use podhaus.Files.{FilePath}
use podhaus.Rar.Releases.{size_matches}
use podhaus.Files.Disk.{Disk, node_at, is_file, size_of}
use podhaus.Rar.Remediate.{
  handle_never_extracted, Row, Outcome, extraction, ok, is_extracted, Unrar, clean_up,
  extract_failed_cleaned,
}
use podhaus.Rar.Run.{Extractor, is_ok}
use podhaus.Base.{true, ◌≡◌, arith, refl, inl, inr, false, Bool-cases, is_some, ℕ}
use podhaus.Rar.DryRun.{never_extracted_cases}

ok_refused : (o : Outcome) → is_ok o ≡ false → o ≡ ok → ⊥
ok_refused o refused e = ground arith

is_extracted_lem :
    (target : FilePath) (size : ℕ) (u : Unrar)
    → is_extracted target size u ≡ true
    → (is_file u.disk target ≡ true) × (size_matches (size_of u.disk target) size ≡ true)
unfolding is_extracted
is_extracted_lem target size u e = (ground arith, ground arith)

extraction-ok :
    (row : Row) (folder target : FilePath) (u : Unrar)
    → (extraction row folder target u).0 ≡ ok
    → (is_file u.disk target ≡ true)
      × (size_matches (size_of u.disk target) row.archive_expected_size ≡ true)
      × ((extraction row folder target u).1 ≡ clean_up folder u.disk)
unfolding extraction
extraction-ok row folder target u e =
    elim (Bool-cases (is_extracted target row.archive_expected_size u)) [
      | inr failed ↦ absurd (ok_refused extract_failed_cleaned refl (rw (failed, extraction) at e))
      | inl done ↦
          let (there, near) = is_extracted_lem target row.archive_expected_size u done in
          (there, near, rw (done, extraction) refl)
    ]

pub handle_never_extracted-ok :
    (unrar : Extractor) (row : Row) (folder : FilePath) (d : Disk)
    → (handle_never_extracted unrar row folder false d).0 ≡ ok
    → (archive : FilePath) × (target : FilePath) × (is_some (node_at d target) ≡ false)
      × (is_file (unrar d folder archive).disk target ≡ true)
      × (size_matches (size_of (unrar d folder archive).disk target) row.archive_expected_size
          ≡ true)
      × ((handle_never_extracted unrar row folder false d).1
          ≡ clean_up folder (unrar d folder archive).disk)
handle_never_extracted-ok unrar row folder d e =
    elim (never_extracted_cases unrar row folder false d) [
      | inl (o, refused, same) ↦ absurd (ok_refused o refused (rw same at e))
      | inr (archive, target, new, extracts) ↦
          let (there, near, left) =
            extraction-ok row folder target (unrar d folder archive) (rw extracts at e) in
          (archive, target, new, there, near, rw extracts left)
    ]
