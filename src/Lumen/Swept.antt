-- ===== src/Lumen/Swept.antt =====
-- What a sweep of the indexer does.
use podhaus.Flood.Stignore.{relative_to}
use podhaus.Base.{
  ◌≢◌, Bool, Option, List, List, not, not, In, ◌==◌, In, true, is_some, is_some, true, ◌≡◌, ◌≡◌,
  keep, keep, false, false, ◌∷◌, [], refl, if◌then◌else◌, ap, some, any, ap, any, some, here, All,
  All, here, All, ◌||◌, later, arith, arith, later, none, none, none, In-cases, In-cases, ◌&&◌, inl,
  sym, sym, inr,
}
use podhaus.Lumen.{
  Ended, index_each, Bool, Option, interrupted, exits, interrupted, Mount, Mount, relative_to,
  is_relative_to, source_mounts, command_mounts, index_registered_worktrees, is_relative_to,
  command_mounts, index_registered_worktrees, source_mounts, Source, may_run, Catalog, may_run,
  Source, Catalog, is_available, is_available, is_available, is_no_name, is_no_name, is_no_path,
  is_no_path,
}
use podhaus.Base.Codes.{
  Text, codes, text_eq_refl, is_one_of, text_eq_refl, is_one_of, text_eq, text_eq,
}
use podhaus.Files.{FilePath}

-- A run ends without an interruption.
abbrev pub IsUninterrupted : (FilePath → Ended) → Type 0
IsUninterrupted ends = (p : FilePath) → ends p ≢ interrupted

abbrev pub has_failed : (FilePath → Ended) → FilePath → Bool
has_failed ends p = elim (ends p) [ exits code ↦ not (code == 0) | interrupted ↦ true ]

index_each_lem :
    (command : FilePath → Option (List Mount)) (ends : FilePath → Ended) (paths : List FilePath)
    → IsUninterrupted ends
    → ((p : FilePath) → In p paths → is_some (command p) ≡ true)
    → ((index_each command ends paths).runs ≡ paths)
      × ((index_each command ends paths).failures ≡ keep (has_failed ends) paths)
      × ((index_each command ends paths).is_broken ≡ false)
unfolding index_each
index_each_lem command ends [] h c = (refl, refl, refl)
index_each_lem command ends (path ∷ paths) h c =
    go (command path) (ends path) refl refl (c path here)
      (index_each_lem command ends paths h (λ p i. c p (later i)))
  where
    pick :
        (b : Bool) (xs ys : List FilePath)
        → xs ≡ ys
        → (if b then xs else path ∷ xs) ≡ (if not b then path ∷ ys else ys)
    pick true xs ys e = e
    pick false xs ys e = ap (λ t. path ∷ t) e

    not_some : false ≡ true → ⊥
    not_some c = cc

    go :
        (o : Option (List Mount)) (ended : Ended)
        → command path ≡ o
        → ends path ≡ ended
        → is_some (command path) ≡ true
        → ((index_each command ends paths).runs ≡ paths)
          × ((index_each command ends paths).failures ≡ keep (has_failed ends) paths)
          × ((index_each command ends paths).is_broken ≡ false)
        → ((index_each command ends (path ∷ paths)).runs ≡ path ∷ paths)
          × ((index_each command ends (path ∷ paths)).failures
              ≡ keep (has_failed ends) (path ∷ paths))
          × ((index_each command ends (path ∷ paths)).is_broken ≡ false)
    go none ended a b there rest = absurd (not_some (rw a at there))
    go (some ms) interrupted a b there rest = absurd (h path b)
    go (some ms) (exits code) a b there (runs, failures, broken) = (
      rw (index_each, a, b) (ap (λ t. path ∷ t) runs),
      rw (index_each, a, has_failed, b)
          (pick (code == 0) (index_each command ends paths).failures (keep (has_failed ends) paths)
            failures),
      rw (index_each, a, b) broken,
    )

relative_to_refl : (p : FilePath) → relative_to p p ≡ some []
unfolding relative_to
relative_to_refl [] = refl
relative_to_refl (a ∷ as') = rw (text_eq_refl a) (relative_to_refl as')

may_run-In :
    (first : Text) (p : FilePath) (worktrees : List FilePath)
    → In p worktrees
    → any (is_relative_to p) worktrees ≡ true
unfolding is_relative_to
may_run-In first p [] i = elim i [ ]
may_run-In first p (w ∷ worktrees) i = elim (In-cases i) [
  | inl same ↦ rw (sym same, relative_to_refl p) refl
  | inr more ↦ rw (may_run-In first p worktrees more) (or_true (is_relative_to p w))
]
  where
    or_true : (b : Bool) → (b || true) ≡ true
    or_true b = ground arith

source_mounts-some :
    (exists : FilePath → Bool) (ss : List Source)
    → All (λ s. is_available exists s ≡ true) ss
    → is_some (source_mounts exists ss) ≡ true
unfolding source_mounts
source_mounts-some exists [] a = refl
source_mounts-some exists (s ∷ ss) a =
    go (source_mounts exists ss) refl (source_mounts-some exists ss a.1)
  where
    go :
        (o : Option (List Mount))
        → source_mounts exists ss ≡ o
        → is_some (source_mounts exists ss) ≡ true
        → is_some (source_mounts exists (s ∷ ss)) ≡ true
    go none e there = absurd (not_some (rw e at there))
      where
        not_some : false ≡ true → ⊥
        not_some c = cc
    go (some ms) e there = rw (source_mounts, a.0, e) refl

command_mounts-some :
    (exists : FilePath → Bool) (catalog : Catalog) (worktrees : List FilePath) (p : FilePath)
    → All (λ s. is_available exists s ≡ true) catalog.sources
    → In p worktrees
    → is_some (command_mounts exists catalog worktrees (codes "index") p) ≡ true
unfolding command_mounts may_run is_one_of text_eq
command_mounts-some exists catalog worktrees p a i =
    go (source_mounts exists catalog.sources) refl (source_mounts-some exists catalog.sources a)
  where
    go :
        (o : Option (List Mount))
        → source_mounts exists catalog.sources ≡ o
        → is_some (source_mounts exists catalog.sources) ≡ true
        → is_some (command_mounts exists catalog worktrees (codes "index") p) ≡ true
    go none e there = absurd (not_some (rw e at there))
      where
        not_some : false ≡ true → ⊥
        not_some c = cc
    go (some ms) e there = rw (command_mounts, may_run-In (codes "index") p worktrees i, e) refl

-- While every source of the registry stays available and no run is interrupted, a sweep runs the indexer on
-- every worktree, once and in order, whatever the others' runs end with; and it returns without an error exactly
-- when no source was unavailable at the start and every run exits with 0.
pub index_registered_worktrees_complete :
    (exists : FilePath → Bool) (ends : FilePath → Ended) (catalog : Catalog)
    (worktrees : List FilePath)
    → All (λ s. is_available exists s ≡ true) catalog.sources
    → IsUninterrupted ends
    → ((index_registered_worktrees exists ends catalog worktrees).0.runs ≡ worktrees)
      × ((index_registered_worktrees exists ends catalog worktrees).1
          ≡ (is_no_name catalog.unavailable && is_no_path (keep (has_failed ends) worktrees)))
unfolding index_registered_worktrees
index_registered_worktrees_complete exists ends catalog worktrees a h =
    let (runs, failures, broken) =
      index_each_lem (λ p. command_mounts exists catalog worktrees (codes "index") p) ends worktrees
        h (λ p i. command_mounts-some exists catalog worktrees p a i) in
    (runs, rw (index_registered_worktrees, broken, failures) refl)
