-- ===== src/Files/Laws.antt =====
-- Equality of paths, the order "below", and what an operation on a tree does to the node at one path.
use podhaus.Files.{path_eq, is_below, FilePath, path_text, parts_text, parent}
use podhaus.Base.Codes.{text_eq_refl, text_eq-eq, starts_with, Text}
use podhaus.Files.Disk.{node_at, find_below, Entry, Disk}
use podhaus.Base.{
  ◌≡◌, true, Bool, All, ◌∷◌, [], arith, keep, Bool-cases, ◌&&◌, refl, if◌then◌else◌, none, inl, inr,
  ◌++◌, ap, sym, length, ◌<◌,
}

pub path_eq_refl : (p : FilePath) → path_eq p p ≡ true
unfolding path_eq
path_eq_refl [] = refl
path_eq_refl (a ∷ as') = rw (text_eq_refl a) (path_eq_refl as')

pub path_eq-eq : (p q : FilePath) → path_eq p q ≡ true → p ≡ q
unfolding path_eq
path_eq-eq [] [] e = refl
path_eq-eq [] (b ∷ bs) e = cc
path_eq-eq (a ∷ as') [] e = cc
path_eq-eq (a ∷ as') (b ∷ bs) e = ground (arith, text_eq-eq a b, path_eq-eq as' bs)

-- What a test on paths keeps of the tree.
pub node_at-keep :
    (test : Entry → Bool) (q : Bool) (p : FilePath) (d : Disk)
    → ((e : Entry) → path_eq e.path p ≡ true → test e ≡ q)
    → node_at (keep test d) p ≡ (if q then node_at d p else none)
unfolding node_at
node_at-keep test q p [] h = ground arith
node_at-keep test q p (e ∷ d) h = ground (arith, node_at-keep test q p d h, h e)

pub is_below_trans :
    (a b c : FilePath) → is_below a b ≡ true → is_below b c ≡ true → is_below a c ≡ true
unfolding is_below
is_below_trans [] [] c ab bc = cc
is_below_trans [] (y ∷ ys) [] ab bc = cc
is_below_trans [] (y ∷ ys) (z ∷ zs) ab bc = refl
is_below_trans (x ∷ xs) [] c ab bc = cc
is_below_trans (x ∷ xs) (y ∷ ys) [] ab bc = cc
is_below_trans (x ∷ xs) (y ∷ ys) (z ∷ zs) ab bc =
    ground (
      arith,
      text_eq-eq x y,
      text_eq-eq y z,
      text_eq_refl z,
      text_eq_refl x,
      is_below_trans xs ys zs,
    )

pub find_below-All :
    (folder : FilePath) (test : Entry → Bool) (d : Disk)
    → All (λ p. is_below folder p ≡ true) (find_below folder test d)
unfolding find_below
find_below-All folder test [] = tt
find_below-All folder test (e ∷ d) = elim (Bool-cases (is_below folder e.path && test e)) [
  | inl found ↦ rw found (ground arith, find_below-All folder test d)
  | inr other ↦ rw other (find_below-All folder test d)
]

-- Every path found has what the test gives.
pub find_below_each :
    (Q : FilePath → Type 0) (folder : FilePath) (test : Entry → Bool) (d : Disk)
    → ((e : Entry) → test e ≡ true → Q e.path)
    → All Q (find_below folder test d)
unfolding find_below
find_below_each Q folder test [] h = tt
find_below_each Q folder test (e ∷ d) h = elim (Bool-cases (is_below folder e.path && test e)) [
  | inl found ↦ rw found (h e (ground arith), find_below_each Q folder test d h)
  | inr other ↦ rw other (find_below_each Q folder test d h)
]

starts_with-append : (r t u : Text) → starts_with r t ≡ true → starts_with r (t ++ u) ≡ true
unfolding starts_with
starts_with-append [] t u e = refl
starts_with-append (c ∷ r) [] u e = cc
starts_with-append (c ∷ r) (d ∷ t) u e = ground (arith, starts_with-append r t u)

append_assoc : (a b c : Text) → (a ++ b) ++ c ≡ a ++ (b ++ c)
append_assoc [] b c = refl
append_assoc (x ∷ a) b c = ap (λ t. x ∷ t) (append_assoc a b c)

-- The text of a path goes on with that of a path below it, below the root.
parts_text-below :
    (folder p : FilePath)
    → is_below folder p ≡ true
    → (u : Text) × (parts_text p ≡ parts_text folder ++ u)
unfolding is_below parts_text
parts_text-below [] p b = (parts_text p, refl)
parts_text-below (a ∷ as') [] b = cc
parts_text-below (a ∷ as') (c ∷ cs) b =
    let (u, e) = parts_text-below as' cs (ground arith) in
    (
      u,
      rw (sym (text_eq-eq a c (ground arith)), e)
          (ap (λ t. b'/' ∷ t) (sym (append_assoc a (parts_text as') u))),
    )

-- A path below another begins with all that the other's text begins with.
pub path_text-below :
    (a : Text) (as' : FilePath) (p : FilePath) (r : Text)
    → is_below (a ∷ as') p ≡ true
    → starts_with r (path_text (a ∷ as')) ≡ true
    → starts_with r (path_text p) ≡ true
unfolding path_text is_below
path_text-below a as' [] r b s = cc
path_text-below a as' (c ∷ cs) r b s =
    let (u, e) = parts_text-below (a ∷ as') (c ∷ cs) b in
    rw e (starts_with-append r (parts_text (a ∷ as')) u s)

pub length-parent : (a : Text) (as' : FilePath) → length (parent (a ∷ as')) < length (a ∷ as')
unfolding parent
length-parent a [] = omega arith
length-parent a (b ∷ bs) = omega (arith, length-parent b bs)
