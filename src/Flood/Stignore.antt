-- ===== src/Flood/Stignore.antt =====
-- flood/scripts/pinelake-stignore.py. The content of a file is the text that Python reads of it, with its
-- line ends translated. A set is walked in an order that the argument `listing` gives.
pub mod Lines
pub mod Union
pub mod Positions
pub mod Cuts
pub mod Valid
pub mod Again
pub mod Reconciled
use podhaus.Base.{
  if◌then◌else◌, Bool, Option, List, ℕ, leb, take, false, ltb, keep, some, none, ◌∷◌, ◌&&◌, ◌++◌,
  [], true, length, not, ◌+◌, ◌||◌, ◌-◌, drop, ◌==◌, any, map,
}
use podhaus.Files.{FilePath, path_of, parts_text, text_less, path_eq}
use podhaus.Base.Codes.{Text, codes, lower, text_eq, starts_with, join_lines, split_lines}

-- `WHITELIST_MARKER`, `DENY_MARKER`, `TERMINAL_DENY`
abbrev pub whitelist_marker : Text
whitelist_marker = codes "// Selected media: exact !path entries live only in this slice"

abbrev pub deny_marker : Text
deny_marker = codes "// Deny all unselected content"

abbrev pub terminal_deny : Text
terminal_deny = codes "**"

unfoldable pub indexes : Text → ℕ → List Text → List ℕ
unfolding text_eq
indexes value i [] = []
indexes value i (line ∷ lines) =
    if text_eq line value then i ∷ indexes value (i + 1) lines else indexes value (i + 1) lines

-- `_single_index`
unfoldable pub single_index : Text → List Text → Option ℕ
unfolding indexes
single_index value lines = elim (indexes value 0 lines) [ (i ∷ []) ↦ some i | _ ↦ none ]

-- `lines[a:b]`
abbrev pub slice : ℕ → ℕ → List Text → List Text
slice a b lines = take (b - a) (drop a lines)

abbrev pub is_filled : Text → Bool
is_filled [] = false
is_filled (_ ∷ _) = true

unfoldable pub is_terminal : List Text → Bool
unfolding text_eq
is_terminal (line ∷ []) = text_eq line terminal_deny
is_terminal _ = false

-- The checks of `_validate` behind the two indexes.
unfoldable pub is_valid_at : List Text → ℕ → ℕ → Bool
unfolding text_eq starts_with is_terminal
is_valid_at lines whitelist deny =
    ltb whitelist deny
    && length (keep (λ line. text_eq line terminal_deny) lines) == 1
    && is_terminal (keep is_filled (drop (deny + 1) lines))
    && not (
        any (λ line. is_filled line && not (starts_with (codes "!") line))
          (slice (whitelist + 1) deny lines))

pub record IgnoreFile : Type 0 where
  pub lines : List Text
  pub whitelist_index : ℕ
  pub deny_index : ℕ

-- `IgnoreFile(path)` and `_validate`; none is the error
unfoldable pub validate : List Text → Option IgnoreFile
unfolding single_index is_valid_at
validate lines = elim (single_index whitelist_marker lines) [
  | none ↦ none
  | some w ↦ elim (single_index deny_marker lines) [
    | none ↦ none
    | some d ↦
        if is_valid_at lines w d
        then some (record { lines = lines; whitelist_index = w; deny_index = d })
        else none
  ]
]

-- `sorted(lines, key=str.casefold)`
unfoldable pub insert_folded : Text → List Text → List Text
unfolding text_less lower
insert_folded line [] = line ∷ []
insert_folded line (l ∷ lines) =
    if text_less (lower l) (lower line) then l ∷ insert_folded line lines else line ∷ l ∷ lines

unfoldable pub sort_folded : List Text → List Text
unfolding insert_folded
sort_folded [] = []
sort_folded (line ∷ lines) = insert_folded line (sort_folded lines)

abbrev pub padded : List Text → List Text
padded [] = [] ∷ []
padded (l ∷ lines) = [] ∷ (l ∷ lines) ++ [] ∷ []

-- `rendered_with`: its lines, and its text
unfoldable pub rendered_lines : (List Text → List Text) → IgnoreFile → List Text → List Text
unfolding sort_folded
rendered_lines listing f additions =
    let current = keep is_filled (slice (f.whitelist_index + 1) f.deny_index f.lines) in
    take (f.whitelist_index + 1) f.lines
    ++ (padded (sort_folded (listing (current ++ additions))) ++ drop f.deny_index f.lines)

unfoldable pub rendered_with : (List Text → List Text) → IgnoreFile → List Text → Text
unfolding rendered_lines join_lines
rendered_with listing f additions = join_lines (rendered_lines listing f additions ++ [] ∷ [])

pub record Share : Type 0 where
  pub name : Text
  pub root : FilePath

-- What `allow_line` gives: nothing, the error, or a line.
pub data Allowed : Type 0 where
  elsewhere broad : Allowed
  allows : Text → Allowed

-- `relative_to`
unfoldable pub relative_to : FilePath → FilePath → Option FilePath
unfolding text_eq
relative_to [] p = some p
relative_to (a ∷ as') [] = none
relative_to (a ∷ as') (b ∷ bs) = if text_eq a b then relative_to as' bs else none

-- A path whose root is `/`: two slashes at the front, and no third, are another root.
unfoldable pub is_rooted : Text → Bool
unfolding starts_with
is_rooted t =
    starts_with (codes "/") t && (not (starts_with (codes "//") t) || starts_with (codes "///") t)

abbrev pub line_of : Option FilePath → Allowed
line_of none = elsewhere
line_of (some []) = broad
line_of (some (a ∷ as')) = allows (b'!' ∷ parts_text (a ∷ as'))

-- `allow_line`
unfoldable pub allow_line : Share → Text → Allowed
unfolding is_rooted relative_to path_of parts_text
allow_line share published_path =
    if is_rooted published_path
    then line_of (relative_to share.root (path_of published_path))
    else elsewhere

-- `route`: the root of the share, and the line; none is the error
unfoldable pub route : List Share → Text → Option (FilePath × Text)
unfolding allow_line
route [] published_path = none
route (share ∷ shares) published_path = elim (allow_line share published_path) [
  | allows line ↦ some (share.root, line)
  | broad ↦ none
  | elsewhere ↦ route shares published_path
]

-- `Share.ignore_file`
abbrev pub ignore_file : FilePath → FilePath
ignore_file root = root ++ codes ".stignore" ∷ []

-- The files of all shares, if each can be read and is valid.
unfoldable pub layouts_of :
    (FilePath → Option Text) → List Share → Option (List (FilePath × IgnoreFile))
unfolding validate split_lines
layouts_of content_of [] = some []
layouts_of content_of (share ∷ shares) = elim (content_of (ignore_file share.root)) [
  | none ↦ none
  | some content ↦ elim (validate (split_lines content)) [
    | none ↦ none
    | some f ↦ elim (layouts_of content_of shares) [
      | none ↦ none
      | some others ↦ some ((share.root, f) ∷ others)
    ]
  ]
]

unfoldable pub routes_of : List Share → List Text → Option (List (FilePath × Text))
unfolding route
routes_of shares [] = some []
routes_of shares (path ∷ paths) = elim (route shares path) [
  | none ↦ none
  | some one ↦ elim (routes_of shares paths) [ none ↦ none | some others ↦ some (one ∷ others) ]
]

unfoldable pub additions_for : FilePath → List (FilePath × Text) → List Text
unfolding path_eq
additions_for root routed = map (λ r. r.1) (keep (λ r. path_eq r.0 root) routed)

-- `write`: nothing, if the file has the content
unfoldable pub write : Option Text → FilePath → Text → List (FilePath × Text)
unfolding text_eq
write none path content = (path, content) ∷ []
write (some current) path content = if text_eq current content then [] else (path, content) ∷ []

unfoldable pub writes_of :
    (List Text → List Text)
    → (FilePath → Option Text)
    → List (FilePath × Text)
    → List (FilePath × IgnoreFile)
    → List (FilePath × Text)
unfolding write rendered_with additions_for
writes_of listing content_of routed [] = []
writes_of listing content_of routed ((root, f) ∷ layouts) =
    write (content_of (ignore_file root)) (ignore_file root)
      (rendered_with listing f (additions_for root routed))
    ++ writes_of listing content_of routed layouts

-- `reconcile`: the files that it writes, in order; none is the error
unfoldable pub reconcile :
    (List Text → List Text)
    → (FilePath → Option Text)
    → List Share
    → List Text
    → Option (List (FilePath × Text))
unfolding layouts_of routes_of writes_of
reconcile listing content_of shares paths = elim (layouts_of content_of shares) [
  | none ↦ none
  | some layouts ↦ elim (routes_of shares paths) [
    | none ↦ none
    | some routed ↦ some (writes_of listing content_of routed layouts)
  ]
]

abbrev pub share_at : Text → Share
share_at name = record { name = name; root = codes "data" ∷ name ∷ [] }

-- `IgnoreReconciler().shares`
abbrev pub default_shares : List Share
default_shares =
    share_at (codes "Movies")
    ∷ share_at (codes "TV")
    ∷ share_at (codes "Kids")
    ∷ share_at (codes "Sports")
    ∷ []
