-- ===== src/Lumen.antt =====
-- lumen/image/gateway.py, which runs an indexer against the repositories that a registry names. What exists on
-- the disk, which worktrees there are and how a run ends are arguments.
use podhaus.Base.{
  ℕ, Option, List, ◌∷◌, ◌++◌, Bool, [], [], not, [], false, not, not, some, true, false, is_some,
  [], some, map, false, true, true, not, not, is_some, if◌then◌else◌, false, [], some, ◌&&◌, ◌&&◌,
  true, map, any, none, none, none, keep, ◌||◌, keep, any, ◌==◌, none, ◌||◌, ◌==◌,
}
pub mod Slots
pub mod Swept
mod Tests
use podhaus.Base.Codes.{Text, codes, text_eq, contains, starts_with, is_one_of}
use podhaus.Base.Json.{Value, Fields, text, field, end}
use podhaus.Files.{FilePath, path_of}
use podhaus.Flood.Stignore.{relative_to}
use podhaus.Lints.Compose.{lookup, keys_of_fields}

abbrev pub slot_root : FilePath
slot_root = codes "opt" ∷ codes "podhaus" ∷ codes "docs-sources" ∷ []

pub record Source : Type 0 where
  pub name : Text
  pub source : FilePath
  pub required_path : FilePath
  pub kind : Text

abbrev pub source_keys : List Text
source_keys = codes "name" ∷ codes "source" ∷ codes "required_path" ∷ codes "type" ∷ []

abbrev pub all_of : (Text → Bool) → List Text → Bool
all_of test ts = not (any (λ t. not (test t)) ts)

-- `set(value) == {...}`
unfoldable pub has_source_keys : Fields → Bool
unfolding keys_of_fields is_one_of
has_source_keys value =
    all_of (λ k. is_one_of k source_keys) (keys_of_fields value)
    && all_of (λ k. is_one_of k (keys_of_fields value)) source_keys

unfoldable pub is_bad_name : Text → Bool
unfolding starts_with contains text_eq
is_bad_name name =
    text_eq name []
    || starts_with (codes ".") name
    || contains (codes "/") name
    || contains (codes "\\") name

abbrev pub is_absolute : Text → Bool
is_absolute [] = false
is_absolute (c ∷ _) = c == b'/'

unfoldable pub is_bad_path : Text → Text → Bool
unfolding path_of is_one_of
is_bad_path source required =
    not (is_absolute source) || is_absolute required || is_one_of (codes "..") (path_of required)

-- The checks of `Source.parse` behind the one of the keys.
unfoldable pub source_of : Text → Text → Text → Text → Option Source
unfolding is_bad_name is_bad_path is_one_of path_of
source_of name source required kind =
    if not (is_one_of kind (codes "directory" ∷ codes "repository" ∷ []))
      || is_bad_name name
      || is_bad_path source required
    then none
    else some (record {
      name = name;
      source = path_of source;
      required_path = path_of required;
      kind = kind;
    })

abbrev pub text_at : Text → Fields → Option Text
text_at key value = elim (lookup key value) [ some (text s) ↦ some (codes s) | _ ↦ none ]

-- `Source.parse`; none is an error
unfoldable pub parse_source : Fields → Option Source
unfolding has_source_keys source_of lookup
parse_source value = elim (text_at (codes "name") value) [
  | none ↦ none
  | some name ↦ elim (text_at (codes "source") value) [
    | none ↦ none
    | some source ↦ elim (text_at (codes "required_path") value) [
      | none ↦ none
      | some required ↦ elim (text_at (codes "type") value) [
        | none ↦ none
        | some kind ↦ if has_source_keys value then source_of name source required kind else none
      ]
    ]
  ]
]

-- `Source.slot`
unfoldable pub slot : Source → FilePath
unfolding path_of
slot s = slot_root ++ path_of s.name

-- `check_available`: whether it does not raise
unfoldable pub is_available : (FilePath → Bool) → Source → Bool
unfolding slot
is_available exists s =
    not (exists (slot s ++ codes ".podhaus-source-unavailable" ∷ []))
    && exists (slot s ++ s.required_path)

unfoldable pub parse_sources : List Fields → Option (List Source)
unfolding parse_source
parse_sources [] = some []
parse_sources (value ∷ values) = elim (parse_source value) [
  | none ↦ none
  | some s ↦ elim (parse_sources values) [ none ↦ none | some ss ↦ some (s ∷ ss) ]
]

unfoldable pub are_unique : List Text → Bool
unfolding is_one_of
are_unique [] = true
are_unique (t ∷ ts) = not (is_one_of t ts) && are_unique ts

pub record Catalog : Type 0 where
  pub sources : List Source
  pub unavailable : List Text

abbrev pub is_filled_list : List Fields → Bool
is_filled_list [] = false
is_filled_list (_ ∷ _) = true

-- `Catalog(config)`, on the list in it; none is an error
unfoldable pub catalog_of : (FilePath → Bool) → List Fields → Option Catalog
unfolding parse_sources are_unique is_available
catalog_of exists values =
    if not (is_filled_list values) then none else elim (parse_sources values) [
      | none ↦ none
      | some ss ↦
          if are_unique (map (λ s. s.name) ss)
          then some (record {
            sources = keep (is_available exists) ss;
            unavailable = map (λ s. s.name) (keep (λ s. not (is_available exists s)) ss);
          })
          else none
    ]

-- `path.is_relative_to(folder)`
unfoldable pub is_relative_to : FilePath → FilePath → Bool
unfolding relative_to
is_relative_to path folder = is_some (relative_to folder path)

-- The first check of `Runtime.command`: whether it does not raise.
unfoldable pub may_run : Text → FilePath → List FilePath → Bool
unfolding is_one_of is_relative_to
may_run first cwd worktrees =
    is_one_of first (codes "stdio" ∷ codes "version" ∷ codes "help" ∷ codes "clean" ∷ [])
    || any (is_relative_to cwd) worktrees

-- What the engine gets to see: all of it read only.
pub record Mount : Type 0 where
  pub src : FilePath
  pub dst : FilePath

-- `Catalog.mounts`; none is an error
unfoldable pub source_mounts : (FilePath → Bool) → List Source → Option (List Mount)
unfolding is_available slot
source_mounts exists [] = some []
source_mounts exists (s ∷ ss) =
    let rest = source_mounts exists ss in
    if is_available exists s
    then elim rest [ none ↦ none | some ms ↦ some (record { src = slot s; dst = s.source } ∷ ms) ]
    else none

unfoldable pub worktree_mounts : List Source → List FilePath → List Mount
unfolding is_relative_to
worktree_mounts ss worktrees =
    map (λ p. record { src = p; dst = p })
      (keep (λ p. not (any (λ s. is_relative_to p s.source) ss)) worktrees)

-- `Runtime.command`: the mounts of the command; none is an error
unfoldable pub command_mounts :
    (FilePath → Bool) → Catalog → List FilePath → Text → FilePath → Option (List Mount)
unfolding may_run source_mounts worktree_mounts
command_mounts exists catalog worktrees first cwd =
    if may_run first cwd worktrees
    then elim (source_mounts exists catalog.sources) [
      | none ↦ none
      | some ms ↦ some (ms ++ worktree_mounts catalog.sources worktrees)
    ]
    else none

-- How one run of the indexer ends.
pub data Ended : Type 0 where
  exits : ℕ → Ended
  interrupted : Ended

-- A sweep: the worktrees that were run, what failed, and whether it broke off.
pub record Sweep : Type 0 where
  pub runs : List FilePath
  pub failures : List FilePath
  pub is_broken : Bool

-- The loop of `index_registered_worktrees`; its command raises where there is none.
unfoldable pub index_each :
    (FilePath → Option (List Mount)) → (FilePath → Ended) → List FilePath → Sweep
index_each command ends [] = record { runs = []; failures = []; is_broken = false }
index_each command ends (path ∷ paths) =
    let rest = index_each command ends paths in
    elim (command path) [
      | none ↦ record { runs = []; failures = []; is_broken = true }
      | some ms ↦ elim (ends path) [
        | interrupted ↦ record { runs = path ∷ []; failures = []; is_broken = true }
        | exits code ↦ record rest {
          runs = path ∷ rest.runs;
          failures = if code == 0 then rest.failures else path ∷ rest.failures;
        }
      ]
    ]

abbrev pub is_no_name : List Text → Bool
is_no_name [] = true
is_no_name (_ ∷ _) = false

abbrev pub is_no_path : List FilePath → Bool
is_no_path [] = true
is_no_path (_ ∷ _) = false

-- `index_registered_worktrees`: the sweep, and whether it returns without an error
unfoldable pub index_registered_worktrees :
    (FilePath → Bool) → (FilePath → Ended) → Catalog → List FilePath → Sweep × Bool
unfolding index_each command_mounts
index_registered_worktrees exists ends catalog worktrees =
    let sweep =
      index_each (λ p. command_mounts exists catalog worktrees (codes "index") p) ends worktrees in
    (sweep, not sweep.is_broken && is_no_name catalog.unavailable && is_no_path sweep.failures)
