-- ===== src/Flood/Tree.antt =====
-- Files as the names of inodes, and the operations of flood/scripts/flood-publish.py on them. The tree
-- lists the entries in the order in which a walk finds them.
use podhaus.Base.{
  some, ℕ, List, Bool, Option, none, true, false, any, ◌==◌, if◌then◌else◌, ◌∷◌, [], ◌++◌, ◌&&◌,
  map, keep,
}
use podhaus.Files.{FilePath, path_eq, is_below, parent, base_name, extension}
use podhaus.Base.Codes.{Text, codes, lower, contains, is_one_of, starts_with}

pub data Place : Type 0 where
  inode : ℕ → Place
  folder : Place

abbrev pub Tree : Type 0
Tree = List (FilePath × Place)

unfoldable pub place_at : Tree → FilePath → Option Place
unfolding path_eq
place_at [] p = none
place_at ((q, x) ∷ t) p = if path_eq q p then some x else place_at t p

abbrev pub is_inode : Place → Bool
is_inode (inode _) = true
is_inode folder = false

abbrev pub is_inode_of : Option Place → Bool
is_inode_of none = false
is_inode_of (some x) = is_inode x

abbrev pub place_eq : Option Place → Option Place → Bool
place_eq (some (inode i)) (some (inode j)) = i == j
place_eq (some folder) (some folder) = true
place_eq none none = true
place_eq _ _ = false

abbrev pub media_exts : List Text
media_exts =
    codes ".mkv"
    ∷ codes ".mp4"
    ∷ codes ".avi"
    ∷ codes ".m4v"
    ∷ codes ".ts"
    ∷ codes ".m2ts"
    ∷ codes ".mov"
    ∷ codes ".wmv"
    ∷ codes ".mpg"
    ∷ codes ".mpeg"
    ∷ codes ".srt"
    ∷ codes ".ass"
    ∷ codes ".ssa"
    ∷ codes ".sub"
    ∷ codes ".idx"
    ∷ codes ".vtt"
    ∷ []

-- `is_media`
unfoldable pub is_media_name : Text → Bool
unfolding contains extension is_one_of lower
is_media_name name =
    if contains (codes "sample") name then false else is_one_of (extension name) media_exts

unfoldable pub is_media : FilePath → Bool
unfolding is_media_name base_name lower
is_media p = is_media_name (lower (base_name p))

-- `has_extract_marker`
unfoldable pub has_extract_marker : FilePath → Tree → Bool
unfolding path_eq parent base_name starts_with
has_extract_marker directory t =
    any (λ e. path_eq (parent e.0) directory && starts_with (codes "_unpackerred.") (base_name e.0))
      t

-- `os.makedirs(todo, exist_ok=True)`, below what is already made
unfoldable pub make_dirs : FilePath → FilePath → Tree → Tree
unfolding place_at
make_dirs made [] t = t
make_dirs made (a ∷ todo) t =
    make_dirs (made ++ a ∷ []) todo
      (elim (place_at t (made ++ a ∷ [])) [ some _ ↦ t | none ↦ (made ++ a ∷ [], folder) ∷ t ])

-- A file stands where the path would need a directory.
unfoldable pub is_blocked : FilePath → Tree → Bool
unfolding is_below
is_blocked p t = any (λ e. is_inode e.1 && is_below e.0 p) t

-- How `publish_file` ends; the last is the error of `os.makedirs`.
pub data Published : Type 0 where
  linked : Tree → Published
  present conflict refused : Published

-- `os.link(src, dest)`
unfoldable pub link : FilePath → FilePath → Tree → Published
unfolding place_at
link src dest t = elim (place_at t src) [ none ↦ refused | some x ↦ linked ((dest, x) ∷ t) ]

-- `publish_file`
unfoldable pub publish_file : FilePath → FilePath → Tree → Published
unfolding place_at make_dirs is_blocked link parent
publish_file src dest t = elim (place_at t dest) [
  | some y ↦ if place_eq (place_at t src) (some y) then present else conflict
  | none ↦ if is_blocked dest t then refused else link src dest (make_dirs [] (parent dest) t)
]

-- `_iter_files`
unfoldable pub iter_files : FilePath → Tree → List FilePath
unfolding place_at is_below
iter_files base t =
    if is_inode_of (place_at t base)
    then base ∷ []
    else map (λ e. e.0) (keep (λ e. is_inode e.1 && is_below base e.0) t)
