-- ===== src/Rar/Audit.antt =====
-- rar-cleanup-scripts/audit.py: the class that a release folder gets, and the row of it. What `unrar`
-- says of an archive is an argument. The notes and the confidence in the row are left out.
use podhaus.Files.{suffix, FilePath, base_name}
use podhaus.Base.Codes.{text_eq, contains, lower, Text}
use podhaus.Rar.Remediate.{Row, no_name, never_extracted, needs_review, relative, extracted}
use podhaus.Rar.Releases.{find_primary_rar, is_video, size_matches}
use podhaus.Files.Disk.{find_below, node_at, Disk, is_file, size_of}
use podhaus.Base.{
  ℕ, Bool, true, Option, List, ltb, length, none, keep, ◌∷◌, ◌||◌, if◌then◌else◌, [], leb, some,
  false, ◌==◌, not, ◌++◌, ◌&&◌, ◌+◌,
}

-- An entry that `unrar lt` lists as a file, with the parts of its name.
pub record ArchiveEntry : Type 0 where
  pub name : FilePath
  pub size : ℕ

pub data Confidence : Type 0 where
  high medium low : Confidence

pub record Match : Type 0 where
  pub path : FilePath
  pub size : ℕ
  pub confidence : Confidence

-- What `unrar_list` and `unrar_test` give for an archive.
pub record Archive : Type 0 where
  pub listing : Option (List ArchiveEntry)
  pub intact : Bool

-- `PurePath.stem`
unfoldable pub drop_end : ℕ → Text → Text
drop_end n [] = []
drop_end n (c ∷ cs) = let rest = drop_end n cs in if leb (length (c ∷ cs)) n then [] else c ∷ rest

unfoldable pub stem : Text → Text
unfolding suffix drop_end
stem name = drop_end (length (suffix name)) name

-- `max(..., key=...)`: the first of the largest
unfoldable pub largest : List ArchiveEntry → Option ArchiveEntry
largest [] = none
largest (e ∷ es) = elim (largest es) [
  | none ↦ some e
  | some f ↦ if ltb e.size f.size then some f else some e
]

unfoldable pub pick_primary_video : List ArchiveEntry → Option ArchiveEntry
unfolding largest is_video
pick_primary_video entries = largest (keep (λ e. is_video e.name) entries)

-- `os.walk` of the folder, then `os.scandir` of the one above it
unfoldable pub collect_search_space : FilePath → FilePath → Disk → List FilePath
unfolding find_below node_at
collect_search_space folder parent d =
    find_below folder (λ e. is_file d e.path) d
    ++ find_below parent (λ e. length e.path == length parent + 1 && is_file d e.path) d

is_blank : Text → Bool
is_blank [] = true
is_blank (_ ∷ _) = false

-- The confidence in a name, or none.
unfoldable pub confidence_of : Text → Text → Bool → Option Confidence
unfolding text_eq contains stem lower is_blank
confidence_of expected name same_size =
    if text_eq (lower name) expected
    then some (if same_size then high else medium)
    else if not (is_blank (stem expected)) && contains (stem expected) (lower (stem name))
    then some (if same_size then medium else low)
    else if not (is_blank (stem name)) && contains (lower (stem name)) (stem expected)
    then some low
    else none

unfoldable pub match_of : Text → ℕ → Disk → FilePath → Option Match
unfolding confidence_of is_video size_matches base_name node_at
match_of expected size d p =
    if is_video p && size_matches (size_of d p) size
    then elim (confidence_of expected (base_name p) (size_of d p == size)) [
      | none ↦ none
      | some c ↦ some (record { path = p; size = size_of d p; confidence = c })
    ]
    else none

unfoldable pub with_match : Option Match → List Match → List Match
with_match none ms = ms
with_match (some m) ms = m ∷ ms

unfoldable pub find_matches : Text → ℕ → Disk → List FilePath → List Match
unfolding match_of with_match
find_matches expected size d [] = []
find_matches expected size d (p ∷ ps) =
    with_match (match_of expected size d p) (find_matches expected size d ps)

-- `max` by confidence, then by size
abbrev pub rank : Confidence → ℕ
rank high = 2
rank medium = 1
rank low = 0

abbrev pub is_better : Match → Match → Bool
is_better m k =
    ltb (rank k.confidence) (rank m.confidence)
    || (rank k.confidence == rank m.confidence && ltb k.size m.size)

unfoldable pub best_of : Match → List Match → Match
best_of m [] = m
best_of m (k ∷ ks) = best_of (if is_better k m then k else m) ks

-- `PurePath.parent`
unfoldable pub parent_of : FilePath → FilePath
parent_of [] = []
parent_of (a ∷ []) = []
parent_of (a ∷ b ∷ bs) = a ∷ parent_of (b ∷ bs)

abbrev pub review : FilePath → Row
review folder = record {
  folder_path = folder;
  archive_expected_filename = no_name;
  archive_expected_size = 0;
  match_path = [];
  match_size = 0;
  classification = needs_review;
}

-- The row once the matches are known.
unfoldable pub classify_matches : Row → Bool → List Match → Row
unfolding best_of
classify_matches row intact [] = record row {
  classification = if intact then never_extracted else needs_review;
}
classify_matches row intact (m ∷ []) = record row {
  match_path = m.path;
  match_size = m.size;
  classification = extracted;
}
classify_matches row intact (m ∷ k ∷ ks) =
    let best = best_of m (k ∷ ks) in
    record row { match_path = best.path; match_size = best.size; classification = needs_review }

unfoldable pub classify_folder : (FilePath → Archive) → FilePath → Disk → Row
unfolding find_primary_rar pick_primary_video classify_matches find_matches collect_search_space
    lower base_name parent_of
classify_folder unrar folder d = elim (find_primary_rar folder d) [
  | none ↦ review folder
  | some archive ↦ elim (unrar archive).listing [
    | none ↦ review folder
    | some entries ↦ elim (pick_primary_video entries) [
      | none ↦ review folder
      | some primary ↦
          classify_matches
            (record (review folder) {
              archive_expected_filename = relative primary.name;
              archive_expected_size = primary.size;
            })
            (unrar archive).intact
            (find_matches (lower (base_name primary.name)) primary.size d
              (collect_search_space folder (parent_of folder) d))
    ]
  ]
]
