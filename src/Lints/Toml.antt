-- ===== src/Lints/Toml.antt =====
-- tools/lint-stack-toml.py.
pub mod Verdict
use podhaus.Base.{
  Option, Bool, List, [], not, false, ℕ, ◌∷◌, if◌then◌else◌, ◌||◌, ◌++◌, ◌&&◌, some, none,
}
use podhaus.Base.Codes.{Text, codes, contains, is_one_of}
use podhaus.Lints.{Stack, StackFile, has_repo, Bool, Option, List}
use podhaus.Files.{FilePath, path_text}

-- `is_skipped`, on the absolute path
unfoldable pub is_skipped : FilePath → Bool
unfolding contains path_text
is_skipped path =
    contains (codes ".terraform") (path_text path)
    || contains (codes "node_modules") (path_text path)
    || contains (codes "kangaroo/periphery") (path_text path)

-- The two faults of a stack.
pub data Fault : Type 0 where
  untagged : FilePath → Fault
  deploys : FilePath → Fault

abbrev pub tags_of : Option (List Text) → List Text
tags_of none = []
tags_of (some tags) = tags

unfoldable pub is_untagged : Stack → Bool
unfolding is_one_of
is_untagged s = not (is_one_of (codes "podhaus") (tags_of s.tags)) && not (has_repo s)

abbrev pub is_deployed : Option Bool → Bool
is_deployed none = false
is_deployed (some b) = b

unfoldable pub stack_faults : FilePath → Stack → List Fault
unfolding is_untagged
stack_faults rel s =
    (if is_untagged s then untagged rel ∷ [] else [])
    ++ (if is_deployed s.deploy then deploys rel ∷ [] else [])

unfoldable pub stacks_faults : FilePath → List Stack → List Fault
unfolding stack_faults
stacks_faults rel [] = []
stacks_faults rel (s ∷ stacks) = stack_faults rel s ++ stacks_faults rel stacks

-- The loop of `main`.
unfoldable pub toml_errors : FilePath → List StackFile → List Fault
unfolding is_skipped stacks_faults is_one_of
toml_errors root [] = []
toml_errors root (f ∷ files) =
    (if is_skipped (root ++ f.rel) || is_one_of (codes "komodo-src") f.rel
      then []
      else stacks_faults f.rel f.stacks)
    ++ toml_errors root files

-- `main`: the exit code
unfoldable pub lint_toml : FilePath → List StackFile → ℕ
unfolding toml_errors
lint_toml root files = elim (toml_errors root files) [ [] ↦ 0 | _ ∷ _ ↦ 1 ]
