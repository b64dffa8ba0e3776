-- ===== src/Streamfab.antt =====
-- streamfab-publish/scripts/streamfab-publish.py, which moves finished recordings into the library. The walk
-- lists the files before the first is moved; a directory has the size 0. Letters and digits are the ASCII ones.
use podhaus.Base.{
  List, Bool, ℕ, ◌∷◌, if◌then◌else◌, Option, length, [], true, false, some, not, any, is_some, ◌==◌,
  ◌++◌, suc, none, ◌||◌, ◌&&◌, zero, keep,
}
pub mod Kept
pub mod Moved
pub mod Finished
mod Tests
use podhaus.Files.{FilePath, is_below, base_name, parent, parts_behind, extension, stem, path_eq}
use podhaus.Files.Disk.{
  Disk, Node, node_at, size_of, unlink, has_children, find_below, is_dir, is_file_node, directory,
  is_dir_node,
}
use podhaus.Base.Codes.{Text, codes, lower, is_digit, search_in, is_one_of, starts_with}

abbrev pub download_root : FilePath
download_root = codes "data" ∷ codes "Downloads" ∷ []

abbrev pub tv_root : FilePath
tv_root = codes "data" ∷ codes "Kids" ∷ codes "TV" ∷ []

abbrev pub movie_root : FilePath
movie_root = codes "data" ∷ codes "Kids" ∷ codes "Movies" ∷ []

abbrev pub sentinel : FilePath
sentinel = codes "data" ∷ codes ".podhaus-share-mounted" ∷ []

abbrev pub skip_dirs : List Text
skip_dirs =
    codes "outputTemp" ∷ codes "mpd" ∷ codes "picture" ∷ codes "MetaPicture" ∷ codes "YouTube" ∷ []

abbrev pub video_exts : List Text
video_exts = codes ".mp4" ∷ codes ".mkv" ∷ codes ".m4v" ∷ []

-- `[Ee]\d{1,3}` at the front
unfoldable pub episode_at : Text → Bool
episode_at (e ∷ d ∷ _) = (e == b'E' || e == b'e') && is_digit d
episode_at _ = false

-- `SXXEXX` at the front
unfoldable pub sxxexx_at : Text → Bool
unfolding episode_at
sxxexx_at (s ∷ a ∷ b ∷ cs) =
    (s == b'S' || s == b's') && is_digit a && (episode_at (b ∷ cs) || (is_digit b && episode_at cs))
sxxexx_at _ = false

-- `\d*$` at the front
unfoldable pub digits_to_end : Text → Bool
digits_to_end [] = true
digits_to_end (c ∷ cs) =
    if is_digit c then digits_to_end cs else elim cs [ [] ↦ c == 10 | _ ∷ _ ↦ false ]

-- `NUMERIC_STEM.match`
unfoldable pub is_numeric : Text → Bool
unfolding digits_to_end
is_numeric [] = false
is_numeric (c ∷ cs) = is_digit c && digits_to_end cs

-- `classify`: where the file belongs, below which root
unfoldable pub classify : FilePath → Option FilePath
unfolding search_in sxxexx_at base_name
classify (a ∷ b ∷ c ∷ parts) =
    some (
      (if search_in sxxexx_at (base_name (c ∷ parts)) then tv_root else movie_root)
      ++ b ∷ c ∷ parts)
classify _ = none

-- `is_candidate`
unfoldable pub is_candidate : FilePath → Bool
unfolding base_name starts_with extension stem is_numeric is_one_of lower
is_candidate parts =
    not (any (λ p. is_one_of p skip_dirs) parts)
    && not (starts_with (codes "._") (base_name parts))
    && is_one_of (lower (extension (base_name parts))) video_exts
    && not (is_numeric (stem (base_name parts)))

-- `os.rmdir(p)`; none is the error
unfoldable pub rmdir : FilePath → Disk → Option Disk
unfolding has_children node_at path_eq
rmdir p d =
    if is_dir d p && not (has_children d p)
    then some (keep (λ e. not (path_eq p e.path && is_dir_node e.node)) d)
    else none

-- `prune_empty`, for at most so many turns
unfoldable pub prune_up : ℕ → FilePath → Disk → Disk
unfolding is_below rmdir parent
prune_up zero p d = d
prune_up (suc n) p d =
    if is_below download_root p
    then elim (rmdir p d) [ none ↦ d | some d' ↦ prune_up n (parent p) d' ]
    else d

unfoldable pub prune_empty : FilePath → Disk → Disk
unfolding prune_up
prune_empty p d = prune_up (length p) p d

-- `os.makedirs(todo, exist_ok=True)`, below what is already made
unfoldable pub make_parents : FilePath → FilePath → Disk → Disk
unfolding node_at
make_parents made [] d = d
make_parents made (a ∷ todo) d =
    make_parents (made ++ a ∷ []) todo (elim (node_at d (made ++ a ∷ [])) [
      | some _ ↦ d
      | none ↦ record { path = made ++ a ∷ []; node = directory } ∷ d
    ])

-- A file stands where the path would need a directory.
unfoldable pub needs_file : FilePath → Disk → Bool
unfolding is_below
needs_file p d = any (λ e. is_file_node e.node && is_below e.path p) d

-- `os.rename(src, dest)`
unfoldable pub rename : FilePath → FilePath → Disk → Disk
unfolding node_at unlink
rename src dest d = elim (node_at d src) [
  | none ↦ d
  | some n ↦ record { path = dest; node = n } ∷ unlink src d
]

-- `publish`, once the destination is known; an error leaves the tree as it is
unfoldable pub publish_to : FilePath → FilePath → Disk → Disk
unfolding node_at unlink needs_file rename make_parents prune_empty parent
publish_to src dest d =
    if is_some (node_at d dest)
    then (if size_of d dest == size_of d src then unlink src d else d)
    else if needs_file dest d
    then d
    else prune_empty (parent src) (rename src dest (make_parents [] (parent dest) d))

-- `publish`
unfoldable pub publish : FilePath → Disk → Disk
unfolding classify publish_to parts_behind
publish src d = elim (classify (parts_behind download_root src)) [
  | none ↦ d
  | some dest ↦ publish_to src dest d
]

-- The loop of `main` over what the walk finds.
unfoldable pub publish_files : List FilePath → Disk → Disk
unfolding publish is_candidate parts_behind
publish_files [] d = d
publish_files (src ∷ sources) d =
    publish_files sources
      (if is_candidate (parts_behind download_root src) then publish src d else d)

unfoldable pub walk : Disk → List FilePath
unfolding find_below
walk d = find_below download_root (λ e. is_file_node e.node) d

-- `main`, when the lock is free; none is the exit with an error
unfoldable pub main : Disk → Option Disk
unfolding publish_files walk node_at
main d = if is_some (node_at d sentinel) then some (publish_files (walk d) d) else none
