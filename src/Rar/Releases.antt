-- ===== src/Rar/Releases.antt =====
-- What both scripts of rar-cleanup-scripts find in a release folder.
use podhaus.Files.{text_less, FilePath, suffix, base_name}
use podhaus.Files.Disk.{find_below, Disk, has_children, Entry, is_dir_node, is_file_node}
use podhaus.Rar.Names.{is_first_part, is_rar_suffix, is_rar_part, video_exts, scene_meta_exts}
use podhaus.Base.Codes.{is_one_of, text_eq, lower, contains, codes, Text}
use podhaus.Base.{
  ℕ, Bool, List, Option, ◌==◌, ◌||◌, ◌∷◌, some, [], none, leb, ◌++◌, if◌then◌else◌, ◌&&◌, length,
  not, ◌*◌, ◌-◌, ◌+◌, max,
}

-- `size_matches`, within one hundredth of the larger
unfoldable pub size_matches : ℕ → ℕ → Bool
size_matches a b = a == b || leb (100 * ((a - b) + (b - a))) (max a b)

unfoldable pub is_rar_piece : Entry → Bool
unfolding is_rar_suffix is_rar_part suffix base_name
is_rar_piece e =
    is_file_node e.node
    && (is_rar_suffix (suffix (base_name e.path)) || is_rar_part (base_name e.path))

unfoldable pub collect_rar_pieces : FilePath → Disk → List FilePath
unfolding find_below
collect_rar_pieces folder = find_below folder is_rar_piece

unfoldable pub is_scene_meta : Entry → Bool
unfolding is_one_of lower suffix base_name
is_scene_meta e =
    is_file_node e.node && is_one_of (lower (suffix (base_name e.path))) scene_meta_exts

unfoldable pub collect_scene_meta : FilePath → Disk → List FilePath
unfolding find_below
collect_scene_meta folder = find_below folder is_scene_meta

unfoldable pub is_sample_dir : Entry → Bool
unfolding is_one_of lower base_name
is_sample_dir e =
    is_dir_node e.node && is_one_of (lower (base_name e.path)) (codes "sample" ∷ codes "proof" ∷ [])

unfoldable pub collect_sample_dirs : FilePath → Disk → List FilePath
unfolding find_below
collect_sample_dirs folder = find_below folder is_sample_dir

unfoldable pub is_video : FilePath → Bool
unfolding is_one_of lower suffix base_name
is_video p = is_one_of (lower (suffix (base_name p))) video_exts

-- A sample video that many levels below the folder.
unfoldable pub is_sample_video : ℕ → FilePath → Entry → Bool
unfolding is_video lower contains base_name
is_sample_video levels folder e =
    length e.path == length folder + levels
    && (is_file_node e.node
        && (contains (codes "sample") (lower (base_name e.path)) && is_video e.path))

-- `glob("*")`, then `glob("*/*")`
unfoldable pub collect_sample_videos : FilePath → Disk → List FilePath
unfolding find_below
collect_sample_videos folder d =
    find_below folder (is_sample_video 1 folder) d ++ find_below folder (is_sample_video 2 folder) d

-- `sorted(..., key=lambda p: len(p.parts), reverse=True)`, which keeps the order of equals
unfoldable pub insert_deep : FilePath → List FilePath → List FilePath
insert_deep p [] = p ∷ []
insert_deep p (q ∷ qs) =
    let rest = insert_deep p qs in if leb (length q) (length p) then p ∷ q ∷ qs else q ∷ rest

unfoldable pub by_depth : List FilePath → List FilePath
unfolding insert_deep
by_depth [] = []
by_depth (p ∷ ps) = insert_deep p (by_depth ps)

unfoldable pub collect_empty_subdirs : FilePath → Disk → List FilePath
unfolding find_below by_depth has_children
collect_empty_subdirs folder d =
    by_depth (find_below folder (λ e. is_dir_node e.node && not (has_children d e.path)) d)

-- `sorted(...)[0]` of files in one folder
unfoldable pub first_of : List FilePath → Option FilePath
unfolding text_less base_name
first_of [] = none
first_of (p ∷ ps) = elim (first_of ps) [
  | none ↦ some p
  | some q ↦ if text_less (base_name q) (base_name p) then some q else some p
]

files_in : FilePath → (Text → Bool) → Disk → List FilePath
unfolding find_below base_name
files_in folder test =
    find_below folder
      (λ e. length e.path == length folder + 1 && (is_file_node e.node && test (base_name e.path)))

has_rar_suffix : Text → Bool
unfolding text_eq lower suffix
has_rar_suffix name = text_eq (lower (suffix name)) (codes ".rar")

or_else : Option FilePath → Option FilePath → Option FilePath
or_else (some p) q = some p
or_else none q = q

-- `find_primary_rar`, the same in both scripts
unfoldable pub find_primary_rar : FilePath → Disk → Option FilePath
unfolding first_of files_in has_rar_suffix or_else is_first_part is_rar_part
find_primary_rar folder d = or_else (first_of (files_in folder is_first_part d)) (
    or_else (first_of (files_in folder (λ n. has_rar_suffix n && not (is_rar_part n)) d))
      (first_of (files_in folder has_rar_suffix d)))
