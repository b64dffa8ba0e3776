-- ===== src/Lints.antt =====
-- The lints of tools/ on the stacks of the repository, as functions of what they read: a stack's table in
-- its TOML file, and the text of its compose files.
use podhaus.Base.{none, some, ◌∷◌, [], true, false, Option, Bool, List}
pub mod Env
pub mod Toml
pub mod Compose
pub mod Hash
mod Tests
use podhaus.Base.Codes.{Text}
use podhaus.Files.{FilePath}

-- The keys of a `[[stack]]` table that the lints look at, if they are there. `config` is never absent but by
-- all of its keys.
pub record Stack : Type 0 where
  pub tags : Option (List Text)
  pub deploy : Option Bool
  pub environment : Option Text
  pub repo : Option Text
  pub file_paths : Option (List Text)

-- A stack.toml: its path from the root of the repository, and its stacks.
pub record StackFile : Type 0 where
  pub rel : FilePath
  pub stacks : List Stack

-- `config.get("repo")` as a condition
abbrev pub has_repo : Stack → Bool
has_repo s = elim s.repo [ none ↦ false | some [] ↦ false | some (_ ∷ _) ↦ true ]
