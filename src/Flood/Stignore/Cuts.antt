-- ===== src/Flood/Stignore/Cuts.antt =====
-- Cutting lists at a length, and what is absent from a part.
use podhaus.Base.{
  List, Bool, ℕ, take, drop, keep, All, any, ◌≡◌, ◌≤◌, ◌++◌, length, false, ◌∷◌, [], ap, Bool-cases,
  or_false, suc, zero, arith, refl, inl, inr,
}
use podhaus.Base.Codes.{Text, text_eq, is_one_of}

pub take_cut : (xs ys : List Text) → take (length xs) (xs ++ ys) ≡ xs
take_cut [] ys = refl
take_cut (x ∷ xs) ys = ap (λ t. x ∷ t) (take_cut xs ys)

pub drop_cut : (xs ys : List Text) → drop (length xs) (xs ++ ys) ≡ ys
drop_cut [] ys = refl
drop_cut (x ∷ xs) ys = drop_cut xs ys

pub lines_assoc : (a b c : List Text) → (a ++ b) ++ c ≡ a ++ (b ++ c)
lines_assoc [] b c = refl
lines_assoc (x ∷ a) b c = ap (λ t. x ∷ t) (lines_assoc a b c)

pub is_one_of-drop :
    (v : Text) (n : ℕ) (xs : List Text) → is_one_of v xs ≡ false → is_one_of v (drop n xs) ≡ false
unfolding is_one_of
is_one_of-drop v zero xs e = e
is_one_of-drop v (suc n) [] e = refl
is_one_of-drop v (suc n) (x ∷ xs) e =
    is_one_of-drop v n xs (or_false {a = text_eq v x} {b = is_one_of v xs} e).1

pub is_one_of-take :
    (v : Text) (m n : ℕ) (xs : List Text)
    → m ≤ n
    → is_one_of v (take n xs) ≡ false
    → is_one_of v (take m xs) ≡ false
unfolding is_one_of
is_one_of-take v zero n xs le e = refl
is_one_of-take v (suc m) zero xs le e = absurd (no_le m le)
  where
    no_le : (m : ℕ) → suc m ≤ 0 → ⊥
    no_le m le = omega (arith, le)
is_one_of-take v (suc m) (suc n) [] le e = refl
is_one_of-take v (suc m) (suc n) (x ∷ xs) le e =
    let (apart, absent) = or_false {a = text_eq v x} {b = is_one_of v (take n xs)} e in
    rw (apart, is_one_of-take v m n xs (omega (arith, le)) absent) refl

pub keep-append :
    (test : Text → Bool) (xs ys : List Text) → keep test (xs ++ ys) ≡ keep test xs ++ keep test ys
keep-append test [] ys = refl
keep-append test (x ∷ xs) ys = elim (Bool-cases (test x)) [
  | inl kept ↦ rw (kept, keep-append test xs ys) refl
  | inr dropped ↦ rw (dropped, keep-append test xs ys) refl
]

-- A test that no entry passes keeps none.
pub keep_none :
    (test : Text → Bool) (xs : List Text) → All (λ t. test t ≡ false) xs → keep test xs ≡ []
keep_none test [] a = refl
keep_none test (x ∷ xs) a = rw (a.0, keep_none test xs a.1) refl

pub any-All :
    (test : Text → Bool) (xs : List Text) → any test xs ≡ false → All (λ t. test t ≡ false) xs
any-All test [] e = tt
any-All test (x ∷ xs) e =
    let (apart, absent) = or_false {a = test x} {b = any test xs} e in
    (apart, any-All test xs absent)

pub All-any :
    (test : Text → Bool) (xs : List Text) → All (λ t. test t ≡ false) xs → any test xs ≡ false
All-any test [] a = refl
All-any test (x ∷ xs) a = rw (a.0, All-any test xs a.1) refl
