-- ===== src/Rar/Paths.antt =====
-- The order of the deletions and the allowed roots of rar-cleanup-scripts/remediate.py.
use podhaus.Files.Laws.{path_text-below}
use podhaus.Files.{FilePath, is_below, path_text}
use podhaus.Rar.Remediate.{path_allowed, roots}
use podhaus.Base.Codes.{starts_with}
use podhaus.Rar.Releases.{insert_deep, by_depth}
use podhaus.Base.{List, ◌≡◌, true, All, ◌∷◌, [], Bool-cases, leb, length, inl, inr, any_mono}

insert_deep-All :
    (Q : FilePath → Type 0) (p : FilePath) (ps : List FilePath)
    → Q p
    → All Q ps
    → All Q (insert_deep p ps)
unfolding insert_deep
insert_deep-All Q p [] q a = (q, tt)
insert_deep-All Q p (x ∷ xs) q a = elim (Bool-cases (leb (length x) (length p))) [
  | inl deep ↦ rw deep (q, a)
  | inr flat ↦ rw flat (a.0, insert_deep-All Q p xs q a.1)
]

pub by_depth-All : (Q : FilePath → Type 0) (ps : List FilePath) → All Q ps → All Q (by_depth ps)
unfolding by_depth
by_depth-All Q [] a = tt
by_depth-All Q (p ∷ ps) a = insert_deep-All Q p (by_depth ps) a.0 (by_depth-All Q ps a.1)

pub path_allowed-below :
    (folder p : FilePath)
    → is_below folder p ≡ true
    → path_allowed folder ≡ true
    → path_allowed p ≡ true
unfolding path_allowed
path_allowed-below [] p b e = cc
path_allowed-below (a ∷ as') p b e =
    any_mono (λ r. starts_with r (path_text (a ∷ as'))) (λ r. starts_with r (path_text p)) roots
      (λ r. path_text-below a as' p r b) e
