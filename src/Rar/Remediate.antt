-- ===== src/Rar/Remediate.antt =====
-- rar-cleanup-scripts/remediate.py: the deletions and extractions that the rows of the audit ask for.
-- The text of the lines printed and recorded is left out. What `unrar` leaves is an argument.
use podhaus.Files.{FilePath, path_text}
use podhaus.Files.Disk.{remove_dir, unlink, Disk, node_at, remove_tree, is_file, size_of}
use podhaus.Rar.Releases.{
  collect_empty_subdirs, collect_rar_pieces, find_primary_rar, size_matches, collect_scene_meta,
  collect_sample_dirs, collect_sample_videos,
}
use podhaus.Base.Codes.{starts_with, codes, Text}
use podhaus.Base.{
  ℕ, Bool, List, false, Option, if◌then◌else◌, ◌∷◌, [], any, ltb, none, some, ◌&&◌, ◌++◌, ◌==◌,
  ◌||◌, is_some,
}

-- A cell of the column; any other text is no class that is acted on.
pub data Classification : Type 0 where
  extracted never_extracted needs_review skip other_class : Classification

-- `archive_expected_filename`, as it joins a folder: no text, a relative or an absolute path
pub data FileName : Type 0 where
  no_name : FileName
  relative absolute : FilePath → FileName

-- A negative size in the table acts as 0.
pub record Row : Type 0 where
  pub folder_path : FilePath
  pub archive_expected_filename : FileName
  pub archive_expected_size : ℕ
  pub match_path : FilePath
  pub match_size : ℕ
  pub classification : Classification

pub data Outcome : Type 0 where
  skipped error resumed dry_run ok extract_failed_cleaned in_progress : Outcome

-- What a run of `unrar x` leaves: the tree, and the exit code unless it timed out or did not start.
pub record Unrar : Type 0 where
  pub disk : Disk
  pub returncode : Option ℕ

abbrev pub roots : List Text
roots = codes "/data/Movies/" ∷ codes "/data/TV/" ∷ codes "/data/Kids/" ∷ []

unfoldable pub path_allowed : FilePath → Bool
unfolding starts_with path_text
path_allowed folder = any (λ r. starts_with r (path_text folder)) roots

unfoldable pub verify_match : Row → Disk → Bool
unfolding size_matches node_at
verify_match row d =
    let expected = if ltb 0 row.match_size then row.match_size else row.archive_expected_size in
    is_file d row.match_path && (expected == 0 || size_matches (size_of d row.match_path) expected)

unfoldable pub do_delete : List FilePath → List FilePath → Disk → Disk
unfolding unlink remove_tree
do_delete [] [] d = d
do_delete [] (q ∷ qs) d = do_delete [] qs (remove_tree q d)
do_delete (p ∷ ps) dirs d = do_delete ps dirs (unlink p d)

unfoldable pub remove_dirs : List FilePath → Disk → Disk
unfolding remove_dir
remove_dirs [] d = d
remove_dirs (p ∷ ps) d = remove_dirs ps (remove_dir p d)

-- `remove_empty_subdirs`
unfoldable pub remove_empty_subdirs : FilePath → Disk → Disk
unfolding remove_dirs collect_empty_subdirs
remove_empty_subdirs folder d = remove_dirs (collect_empty_subdirs folder d) d

-- The files of `plan_deletions`.
unfoldable pub files_to_delete : FilePath → Disk → List FilePath
unfolding collect_rar_pieces collect_scene_meta collect_sample_videos
files_to_delete folder d =
    collect_rar_pieces folder d ++ (collect_scene_meta folder d ++ collect_sample_videos folder d)

-- `plan_deletions`, `do_delete` and `remove_empty_subdirs`, as they follow each other three times
unfoldable pub clean_up : FilePath → Disk → Disk
unfolding files_to_delete do_delete collect_sample_dirs remove_empty_subdirs
clean_up folder d =
    remove_empty_subdirs folder
      (do_delete (files_to_delete folder d) (collect_sample_dirs folder d) d)

unfoldable pub handle_extracted : Row → FilePath → Bool → Disk → Outcome × Disk
unfolding verify_match clean_up
handle_extracted row folder dry d =
    if verify_match row d
    then (if dry then (dry_run, d) else (ok, clean_up folder d))
    else (error, d)

-- `target`
unfoldable pub target_of : FilePath → FileName → Option FilePath
target_of folder no_name = none
target_of folder (relative parts) = some (folder ++ parts)
target_of folder (absolute parts) = some parts

-- Whether the extraction left what the row says.
unfoldable pub is_extracted : FilePath → ℕ → Unrar → Bool
unfolding size_matches node_at
is_extracted target size u = elim u.returncode [
  | none ↦ false
  | some code ↦ code == 0 && (is_file u.disk target && size_matches (size_of u.disk target) size)
]

-- A target that is a directory cannot be unlinked, and stays.
unfoldable pub drop_output : FilePath → Disk → Disk
unfolding unlink node_at
drop_output target d = if is_file d target then unlink target d else d

-- What `handle_never_extracted` does once `unrar` has run.
unfoldable pub extraction : Row → FilePath → FilePath → Unrar → Outcome × Disk
unfolding is_extracted drop_output clean_up
extraction row folder target u =
    if is_extracted target row.archive_expected_size u
    then (ok, clean_up folder u.disk)
    else (extract_failed_cleaned, clean_up folder (drop_output target u.disk))

unfoldable pub handle_never_extracted :
    (Disk → FilePath → FilePath → Unrar) → Row → FilePath → Bool → Disk → Outcome × Disk
unfolding find_primary_rar target_of extraction node_at
handle_never_extracted unrar row folder dry d = elim (find_primary_rar folder d) [
  | none ↦ (error, d)
  | some archive ↦ elim (target_of folder row.archive_expected_filename) [
    | none ↦ (error, d)
    | some target ↦
        if row.archive_expected_size == 0 || is_some (node_at d target)
        then (error, d)
        else if dry
        then (dry_run, d)
        else extraction row folder target (unrar d folder archive)
  ]
]
