-- ===== src/Files.antt =====
-- Paths and file names, as Python's `pathlib` takes them apart. A path is the list of its parts below
-- the root. The scripts on files and volumes share them.
use podhaus.Base.Codes.{text_eq, Text}
pub mod Disk
pub mod Laws
use podhaus.Base.{
  ℕ, List, Option, Bool, ◌∷◌, [], none, false, ◌++◌, true, some, ltb, if◌then◌else◌, ◌&&◌, ◌||◌,
  ◌==◌, keep, not, take, length, ◌-◌,
}

abbrev pub FilePath : Type 0
FilePath = List Text

-- From the last full stop on.
unfoldable pub from_last_dot : Text → Option Text
from_last_dot [] = none
from_last_dot (c ∷ cs) = elim (from_last_dot cs) [
  | some s ↦ some s
  | none ↦ if c == b'.' then some (c ∷ cs) else none
]

-- `PurePath.suffix`: no suffix at the first character, and none that is a full stop alone
unfoldable pub suffix : Text → Text
unfolding from_last_dot
suffix [] = []
suffix (c ∷ cs) = elim (from_last_dot cs) [ none ↦ [] | some (d ∷ []) ↦ [] | some s ↦ s ]

-- `os.path.splitext(name)[1]`: full stops at the front begin no extension
unfoldable pub extension : Text → Text
unfolding from_last_dot
extension [] = []
extension (c ∷ cs) =
    if c == b'.' then extension cs else elim (from_last_dot cs) [ none ↦ [] | some s ↦ s ]

-- `os.path.splitext(name)[0]`
unfoldable pub stem : Text → Text
unfolding extension
stem name = take (length name - length (extension name)) name

unfoldable pub path_eq : FilePath → FilePath → Bool
unfolding text_eq
path_eq [] [] = true
path_eq [] (_ ∷ _) = false
path_eq (_ ∷ _) [] = false
path_eq (a ∷ as') (b ∷ bs) = text_eq a b && path_eq as' bs

-- The path is strictly below the folder.
unfoldable pub is_below : FilePath → FilePath → Bool
unfolding text_eq
is_below [] [] = false
is_below [] (_ ∷ _) = true
is_below (_ ∷ _) [] = false
is_below (a ∷ as') (b ∷ bs) = text_eq a b && is_below as' bs

-- `PurePath.name`
unfoldable pub base_name : FilePath → Text
base_name [] = []
base_name (a ∷ []) = a
base_name (a ∷ b ∷ bs) = base_name (b ∷ bs)

-- `str(path)`
unfoldable pub parts_text : FilePath → Text
parts_text [] = []
parts_text (a ∷ as') = b'/' ∷ (a ++ parts_text as')

unfoldable pub path_text : FilePath → Text
unfolding parts_text
path_text [] = b'/' ∷ []
path_text (a ∷ as') = parts_text (a ∷ as')

-- The order of names in `sorted`.
unfoldable pub text_less : Text → Text → Bool
text_less t [] = false
text_less [] (_ ∷ _) = true
text_less (a ∷ as') (b ∷ bs) = ltb a b || (a == b && text_less as' bs)

-- `os.path.dirname`, `PurePath.parent`
unfoldable pub parent : FilePath → FilePath
parent [] = []
parent (a ∷ []) = []
parent (a ∷ b ∷ bs) = a ∷ parent (b ∷ bs)

-- What a path has behind a folder's, for one at or below the folder.
unfoldable pub parts_behind : FilePath → FilePath → FilePath
parts_behind [] p = p
parts_behind (a ∷ as') [] = []
parts_behind (a ∷ as') (b ∷ bs) = parts_behind as' bs

-- `s.split(c)`
unfoldable pub split_on : ℕ → Text → List Text
split_on c [] = [] ∷ []
split_on c (d ∷ ds) =
    let rest = split_on c ds in
    if d == c then [] ∷ rest else elim rest [ [] ↦ (d ∷ []) ∷ [] | t ∷ ts ↦ (d ∷ t) ∷ ts ]

-- The parts that a text of a path has; an empty part and a full stop alone are none.
unfoldable pub path_of : Text → FilePath
unfolding split_on text_eq
path_of s = keep (λ part. not (text_eq part [] || text_eq part (b'.' ∷ []))) (split_on b'/' s)
