-- ===== src/Flood/Publish/Steps.antt =====
-- The changes that flood-publish.py may make to the tree, one at a time.
use podhaus.Base.{
  List, ◌≡◌, length, none, some, true, ◌<◌, ◌∷◌, ◌+◌, Bool-cases, arith, false, ◌++◌, [], ap, inl,
  sym, length-append, inr, ◌∙◌, Option-cases,
}
use podhaus.Files.{FilePath, path_eq}
use podhaus.Files.Laws.{path_eq-eq}
use podhaus.Flood.Tree.{Tree, Place, folder, place_at, make_dirs, has_extract_marker}
use podhaus.Flood.Publish.{Member, is_done}

-- A directory is made, or a path is linked to what another names, where nothing is.
pub data Reaches (Q : FilePath → FilePath → Tree → Type 0) (t : Tree) : Tree → Type 0 where
  rests : Reaches Q t t
  makes :
      {u : Tree} (q : FilePath)
      → Reaches Q t u
      → place_at u q ≡ none
      → Reaches Q t ((q, folder) ∷ u)
  links :
      {u : Tree} (src dest : FilePath) (x : Place)
      → Reaches Q t u
      → place_at u dest ≡ none
      → place_at u src ≡ some x
      → Q src dest u
      → Reaches Q t ((dest, x) ∷ u)

pub Reaches-trans :
    {Q : FilePath → FilePath → Tree → Type 0} {t u v : Tree}
    → Reaches Q t u
    → Reaches Q u v
    → Reaches Q t v
Reaches-trans r rests = r
Reaches-trans r (makes q s e) = makes q (Reaches-trans r s) e
Reaches-trans r (links src dest x s e f h) = links src dest x (Reaches-trans r s) e f h

pub Reaches-mono :
    {P Q : FilePath → FilePath → Tree → Type 0} {t u : Tree}
    → ((src dest : FilePath) (v : Tree) → P src dest v → Q src dest v)
    → Reaches P t u
    → Reaches Q t u
Reaches-mono h rests = rests
Reaches-mono h (makes q s e) = makes q (Reaches-mono h s) e
Reaches-mono h (links src dest x s e f p) = links src dest x (Reaches-mono h s) e f (h src dest _ p)

pub place_at-add :
    (q : FilePath) (y : Place) (t : Tree) (p : FilePath) (x : Place)
    → place_at t q ≡ none
    → place_at t p ≡ some x
    → place_at ((q, y) ∷ t) p ≡ some x
unfolding place_at
place_at-add q y t p x free e = elim (Bool-cases (path_eq q p)) [
  | inl same ↦ absurd_place (sym (rw (path_eq-eq q p same) at free) ∙ e)
  | inr apart ↦ rw apart e
]
  where
    absurd_place : none ≡ some x → place_at ((q, y) ∷ t) p ≡ some x
    absurd_place c = cc

pub Reaches-keeps :
    {Q : FilePath → FilePath → Tree → Type 0} {t u : Tree} (p : FilePath) (x : Place)
    → Reaches Q t u
    → place_at t p ≡ some x
    → place_at u p ≡ some x
Reaches-keeps p x rests e = e
Reaches-keeps p x (makes {u} q s free) e = place_at-add q folder u p x free (Reaches-keeps p x s e)
Reaches-keeps p x (links {u} src dest y s free f h) e =
    place_at-add dest y u p x free (Reaches-keeps p x s e)

is_done-add :
    (members : List Member) (src : FilePath) (e : FilePath × Place) (t : Tree)
    → is_done members src t ≡ true
    → is_done members src (e ∷ t) ≡ true
unfolding is_done has_extract_marker
is_done-add members src e t done = ground arith

pub Reaches-is_done :
    {Q : FilePath → FilePath → Tree → Type 0} {t u : Tree} (members : List Member) (src : FilePath)
    → Reaches Q t u
    → is_done members src t ≡ true
    → is_done members src u ≡ true
Reaches-is_done members src rests e = e
Reaches-is_done members src (makes {u} q s free) e =
    is_done-add members src (q, folder) u (Reaches-is_done members src s e)
Reaches-is_done members src (links {u} s d y r free f h) e =
    is_done-add members src (d, y) u (Reaches-is_done members src r e)

pub make_dirs-Reaches :
    {Q : FilePath → FilePath → Tree → Type 0} (made todo : FilePath) (t : Tree)
    → Reaches Q t (make_dirs made todo t)
unfolding make_dirs
make_dirs-Reaches made [] t = rests
make_dirs-Reaches {Q} made (a ∷ todo) t = elim (Option-cases (place_at t (made ++ a ∷ []))) [
  | inr (x, e) ↦ rw (make_dirs, e) (make_dirs-Reaches (made ++ a ∷ []) todo t)
  | inl e ↦
      rw (make_dirs, e)
        (Reaches-trans (makes (made ++ a ∷ []) rests e)
          (make_dirs-Reaches (made ++ a ∷ []) todo ((made ++ a ∷ [], folder) ∷ t)))
]

path_eq-longer : (q p : FilePath) → length q < length p → path_eq q p ≡ false
path_eq-longer q p l = elim (Bool-cases (path_eq q p)) [
  | inr apart ↦ apart
  | inl same ↦ absurd (lt_irrefl q p l (path_eq-eq q p same))
]
  where
    lt_irrefl : (q p : FilePath) → length q < length p → q ≡ p → ⊥
    lt_irrefl q p l e = omega (arith, l, ap length e)

-- Only paths no longer than the one asked for are made.
pub make_dirs-longer :
    (made todo : FilePath) (t : Tree) (p : FilePath)
    → length made + length todo < length p
    → place_at t p ≡ none
    → place_at (make_dirs made todo t) p ≡ none
unfolding make_dirs place_at
make_dirs-longer made [] t p l e = e
make_dirs-longer made (a ∷ todo) t p l e = elim (Option-cases (place_at t (made ++ a ∷ []))) [
  | inr (x, f) ↦
      rw (make_dirs, f)
        (make_dirs-longer (made ++ a ∷ []) todo t p (omega (arith, length-append made (a ∷ []))) e)
  | inl f ↦
      rw (make_dirs, f)
        (make_dirs-longer (made ++ a ∷ []) todo ((made ++ a ∷ [], folder) ∷ t) p
          (omega (arith, length-append made (a ∷ [])))
          (rw (path_eq-longer (made ++ a ∷ []) p (omega (arith, length-append made (a ∷ [])))) e))
]
