-- ===== src/Lumen/Tests.antt =====
-- A registry of two sources, and the theorems about the indexer.
use podhaus.Lumen.Swept.{index_registered_worktrees_complete}
use podhaus.Lumen.Slots.{IsSlotted, catalog_of-IsSlotted, catalog_of-IsSlotted}
use podhaus.Base.{
  Bool, List, String, All, ◌≡◌, ◌∷◌, ◌≡◌, [], [], none, [], false, none, [], false, some, refl,
  some,
}
use podhaus.Lumen.{
  catalog_of, is_available, Ended, Catalog, parse_source, exits, index_registered_worktrees,
  index_registered_worktrees, exits,
}
use podhaus.Base.Codes.{codes}
use podhaus.Base.Json.{Fields, field, text, end}
use podhaus.Files.{FilePath, path_of, path_eq}

abbrev entry : String → Fields
entry name = field "name" (text name) (
    field "source" (text "/home/x")
      (field "required_path" (text "a/b") (field "type" (text "directory") end)))

abbrev exists : FilePath → Bool
exists p = path_eq p (path_of (codes "/opt/podhaus/docs-sources/one/a/b"))

abbrev catalog : Catalog
catalog = record {
  sources =
      record {
        name = codes "one";
        source = codes "home" ∷ codes "x" ∷ [];
        required_path = codes "a" ∷ codes "b" ∷ [];
        kind = codes "directory";
      }
      ∷ [];
  unavailable = codes "two" ∷ [];
}

accepted : catalog_of exists (entry "one" ∷ entry "two" ∷ []) ≡ some catalog
unfolding catalog_of path_of path_eq
accepted = refl

-- A name that would leave the root is refused.
refuses : parse_source (entry "../x") ≡ none
unfolding parse_source
refuses = refl

catalog_of-IsSlotted_example : All IsSlotted catalog.sources
catalog_of-IsSlotted_example =
    catalog_of-IsSlotted exists (entry "one" ∷ entry "two" ∷ []) catalog accepted

abbrev works : FilePath → Ended
works p = exits 0

abbrev trees : List FilePath
trees = (codes "home" ∷ codes "x" ∷ codes "r" ∷ []) ∷ []

index_registered_worktrees_complete_example :
    ((index_registered_worktrees exists works catalog trees).0.runs ≡ trees)
    × ((index_registered_worktrees exists works catalog trees).1 ≡ false)
unfolding is_available path_of path_eq
index_registered_worktrees_complete_example =
    index_registered_worktrees_complete exists works catalog trees (refl, tt) (λ p e. cc)
