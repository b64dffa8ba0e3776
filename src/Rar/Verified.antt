-- ===== src/Rar/Verified.antt =====
-- What rar-cleanup-scripts/audit.py promises to remediate.py.
use podhaus.Files.Laws.{find_below_each}
use podhaus.Files.{FilePath, base_name}
use podhaus.Base.Codes.{lower, Text}
use podhaus.Rar.Releases.{size_matches, is_video, find_primary_rar}
use podhaus.Rar.Remediate.{verify_match, Row, extracted, needs_review, relative}
use podhaus.Rar.Audit.{
  find_matches, classify_matches, match_of, Match, with_match, Confidence, confidence_of,
  classify_folder, collect_search_space, Archive, ArchiveEntry, review, parent_of,
  pick_primary_video,
}
use podhaus.Files.Disk.{find_below, Disk, is_file, size_of}
use podhaus.Base.{
  ℕ, List, Bool, All, ◌≡◌, true, some, ◌∷◌, [], Option-cases, inl, inr, ◌&&◌, arith, Option, none,
  if◌then◌else◌, refl, false, ◌==◌, sym, ltb, ◌||◌, All-append, length, ◌⊎◌, ◌+◌,
}

-- A match is a file of the size noted, near the size asked for.
abbrev IsMatch : ℕ → Disk → Match → Type 0
IsMatch size d m =
    (is_file d m.path ≡ true) × (m.size ≡ size_of d m.path) × (size_matches m.size size ≡ true)

some_lem : (r m : Match) → some r ≡ some m → r ≡ m
some_lem r m e = cc

pick :
    (size : ℕ) (d : Disk) (p : FilePath) (m : Match) (good : Bool) (o : Option Confidence)
    → (good ≡ true → size_matches (size_of d p) size ≡ true)
    → is_file d p ≡ true
    → (if good
        then elim o [
          | none ↦ none
          | some c ↦ some (record { path = p; size = size_of d p; confidence = c })
        ]
        else none)
      ≡ some m
    → IsMatch size d m
pick size d p m true none near f e = cc
pick size d p m true (some c) near f e =
    rw (sym (some_lem (record { path = p; size = size_of d p; confidence = c }) m e))
      (f, refl, near refl)
pick size d p m false o near f e = cc

match_of-IsMatch :
    (expected : Text) (size : ℕ) (d : Disk) (p : FilePath) (m : Match)
    → is_file d p ≡ true
    → match_of expected size d p ≡ some m
    → IsMatch size d m
unfolding match_of
match_of-IsMatch expected size d p m f e =
    pick size d p m (is_video p && size_matches (size_of d p) size)
      (confidence_of expected (base_name p) (size_of d p == size)) (λ h. ground arith) f e

with_match-All :
    (Q : Match → Type 0) (o : Option Match) (ms : List Match)
    → ((m : Match) → o ≡ some m → Q m)
    → All Q ms
    → All Q (with_match o ms)
unfolding with_match
with_match-All Q none ms h a = a
with_match-All Q (some m) ms h a = (h m refl, a)

find_matches-IsMatch :
    (expected : Text) (size : ℕ) (d : Disk) (ps : List FilePath)
    → All (λ p. is_file d p ≡ true) ps
    → All (IsMatch size d) (find_matches expected size d ps)
unfolding find_matches
find_matches-IsMatch expected size d [] a = tt
find_matches-IsMatch expected size d (p ∷ ps) a =
    with_match-All (IsMatch size d) (match_of expected size d p) (find_matches expected size d ps)
      (λ m found. match_of-IsMatch expected size d p m a.0 found)
      (find_matches-IsMatch expected size d ps a.1)

near_itself :
    (f : Bool) (m s x : ℕ)
    → f ≡ true
    → m ≡ s
    → size_matches m x ≡ true
    → (f && ((if ltb 0 m then m else x) == 0 || size_matches s (if ltb 0 m then m else x))) ≡ true
unfolding size_matches
near_itself f m s x a b c = ground arith

verified_lem :
    (row : Row) (m : Match) (d : Disk)
    → IsMatch row.archive_expected_size d m
    → verify_match
        (record row { match_path = m.path; match_size = m.size; classification = extracted })
        d
      ≡ true
unfolding verify_match
verified_lem row m d h =
    near_itself (is_file d m.path) m.size (size_of d m.path) row.archive_expected_size h.0 h.1 h.2

classify_matches-verified :
    (row : Row) (intact : Bool) (ms : List Match) (d : Disk)
    → All (IsMatch row.archive_expected_size d) ms
    → (classify_matches row intact ms).classification ≡ extracted
    → verify_match (classify_matches row intact ms) d ≡ true
unfolding classify_matches
classify_matches-verified row intact [] d a e = ground arith
classify_matches-verified row intact (m ∷ []) d a e = verified_lem row m d a.0
classify_matches-verified row intact (m ∷ k ∷ ks) d a e = cc

search_space-All :
    (folder parent : FilePath) (d : Disk)
    → All (λ p. is_file d p ≡ true) (collect_search_space folder parent d)
unfolding collect_search_space
search_space-All folder parent d =
    All-append (λ p. is_file d p ≡ true) (find_below folder (λ e. is_file d e.path) d)
      (find_below parent (λ e. length e.path == length parent + 1 && is_file d e.path) d)
      (find_below_each (λ p. is_file d p ≡ true) folder (λ e. is_file d e.path) d (λ e h. h))
      (find_below_each (λ p. is_file d p ≡ true) parent
        (λ e. length e.path == length parent + 1 && is_file d e.path) d (λ e h. ground arith))

-- The row before the matches, and the matches.
abbrev row_of : FilePath → ArchiveEntry → Row
row_of folder primary = record (review folder) {
  archive_expected_filename = relative primary.name;
  archive_expected_size = primary.size;
}

abbrev matches_of : FilePath → ArchiveEntry → Disk → List Match
matches_of folder primary d =
    find_matches (lower (base_name primary.name)) primary.size d
      (collect_search_space folder (parent_of folder) d)

classify_cases :
    (unrar : FilePath → Archive) (folder : FilePath) (d : Disk)
    → (classify_folder unrar folder d ≡ review folder)
      ⊎ ((archive : FilePath) × (primary : ArchiveEntry) × (classify_folder unrar folder d
            ≡ classify_matches
                (row_of folder primary)
                (unrar archive).intact
                (matches_of folder primary d)))
unfolding classify_folder
classify_cases unrar folder d = elim (Option-cases (find_primary_rar folder d)) [
  | inl missing ↦ inl (rw (missing, classify_folder) refl)
  | inr (archive, found) ↦ elim (Option-cases (unrar archive).listing) [
    | inl unread ↦ inl (rw (found, unread, classify_folder) refl)
    | inr (entries, listed) ↦ elim (Option-cases (pick_primary_video entries)) [
      | inl dull ↦ inl (rw (found, listed, dull, classify_folder) refl)
      | inr (primary, picked) ↦
          inr (archive, primary, rw (found, listed, picked, classify_folder) refl)
    ]
  ]
]

review_lem : needs_review ≡ extracted → ⊥
review_lem e = cc

-- A folder that the audit calls extracted passes the check that the remediation makes before it deletes
-- anything, as long as the tree has not changed.
pub classify_folder-verified :
    (unrar : FilePath → Archive) (folder : FilePath) (d : Disk)
    → (classify_folder unrar folder d).classification ≡ extracted
    → verify_match (classify_folder unrar folder d) d ≡ true
classify_folder-verified unrar folder d e = elim (classify_cases unrar folder d) [
  | inl same ↦ absurd (review_lem (rw same at e))
  | inr (archive, primary, is) ↦ rw is (
      classify_matches-verified (row_of folder primary) (unrar archive).intact
        (matches_of folder primary d) d
        (find_matches-IsMatch (lower (base_name primary.name)) primary.size d
          (collect_search_space folder (parent_of folder) d)
          (search_space-All folder (parent_of folder) d))
        (rw is at e))
]
