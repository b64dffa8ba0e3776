-- ===== src/Files/Disk.antt =====
-- A file tree, as the scripts on files see it: an entry for each file and directory, in the order
-- in which they are found. No entry is a symbolic link, and a change to the tree is permitted.
use podhaus.Files.{FilePath, path_eq, is_below}
use podhaus.Base.{
  ℕ, Bool, true, List, false, Option, keep, any, if◌then◌else◌, some, none, map, not, ◌||◌, ◌&&◌,
  ◌∷◌, [],
}

pub data Node : Type 0 where
  file : (size : ℕ) → Node
  directory : Node

pub record Entry : Type 0 where
  pub path : FilePath
  pub node : Node

abbrev pub Disk : Type 0
Disk = List Entry

abbrev pub is_file_node : Node → Bool
is_file_node (file _) = true
is_file_node directory = false

abbrev pub is_dir_node : Node → Bool
is_dir_node (file _) = false
is_dir_node directory = true

-- `stat`
unfoldable pub node_at : Disk → FilePath → Option Node
unfolding path_eq
node_at [] p = none
node_at (e ∷ d) p = if path_eq e.path p then some e.node else node_at d p

-- `Path.is_file`, `Path.is_dir`, `Path.exists`
abbrev pub is_file : Disk → FilePath → Bool
is_file d p = elim (node_at d p) [ none ↦ false | some n ↦ is_file_node n ]

abbrev pub is_dir : Disk → FilePath → Bool
is_dir d p = elim (node_at d p) [ none ↦ false | some n ↦ is_dir_node n ]

abbrev pub size_of : Disk → FilePath → ℕ
size_of d p = elim (node_at d p) [ some (file n) ↦ n | _ ↦ 0 ]

-- The paths below a folder whose entry passes a test (`rglob("*")`).
unfoldable pub find_below : FilePath → (Entry → Bool) → Disk → List FilePath
unfolding is_below
find_below folder test d = map (λ e. e.path) (keep (λ e. is_below folder e.path && test e) d)

-- `p.unlink()`; a file that is missing is passed over
unfoldable pub unlink : FilePath → Disk → Disk
unfolding path_eq
unlink p d = keep (λ e. not (path_eq p e.path)) d

-- `shutil.rmtree(p)`
unfoldable pub remove_tree : FilePath → Disk → Disk
unfolding path_eq is_below
remove_tree p d = keep (λ e. not (path_eq p e.path || is_below p e.path)) d

-- `any(p.iterdir())`
unfoldable pub has_children : Disk → FilePath → Bool
unfolding is_below
has_children d p = any (λ e. is_below p e.path) d

-- `p.rmdir()`: a directory that is not empty stays
unfoldable pub remove_dir : FilePath → Disk → Disk
unfolding has_children path_eq
remove_dir p d =
    if has_children d p then d else keep (λ e. not (path_eq p e.path && is_dir_node e.node)) d
