-- ===== src/Flood/Stignore/Lines.antt =====
-- Lines and sets of lines: reading back what is joined, and what a cut, a sorting or a listing holds.
use podhaus.Flood.Stignore.{insert_folded, sort_folded, is_filled, slice, padded}
use podhaus.Base.{
  Bool, List, ℕ, any, take, drop, not, ◌≡◌, ◌++◌, ◌∷◌, ◌≤◌, true, false, [], ◌+◌, ◌∙◌, ◌||◌, suc,
  arith, keep, ap, or_false, refl, ◌-◌, zero, sym, All, Bool-cases, inl, inr,
}
use podhaus.Base.Codes.{
  Text, text_eq, is_one_of, text_eq_refl, text_eq-eq, split_lines, join_lines, is_break,
}

abbrev pub has_break : Text → Bool
has_break line = any is_break line

-- Each line of the list passes the test.
abbrev pub Each : (Text → Bool) → List Text → Type 0
Each test lines = (line : Text) → is_one_of line lines ≡ true → test line ≡ true

-- A set may be walked in any order.
abbrev pub IsListing : (List Text → List Text) → Type 0
IsListing listing =
    (line : Text) (lines : List Text) → is_one_of line (listing lines) ≡ is_one_of line lines

pub is_one_of-append :
    (line : Text) (xs ys : List Text)
    → is_one_of line (xs ++ ys) ≡ (is_one_of line xs || is_one_of line ys)
unfolding is_one_of
is_one_of-append line [] ys = refl
is_one_of-append line (x ∷ xs) ys = ground (arith, is_one_of-append line xs ys)

is_one_of-insert_folded :
    (line x : Text) (xs : List Text)
    → is_one_of line (insert_folded x xs) ≡ (text_eq line x || is_one_of line xs)
unfolding is_one_of insert_folded
is_one_of-insert_folded line x [] = refl
is_one_of-insert_folded line x (y ∷ ys) = ground (arith, is_one_of-insert_folded line x ys)

pub is_one_of-sort_folded :
    (line : Text) (xs : List Text) → is_one_of line (sort_folded xs) ≡ is_one_of line xs
unfolding is_one_of sort_folded
is_one_of-sort_folded line [] = refl
is_one_of-sort_folded line (x ∷ xs) =
    is_one_of-insert_folded line x (sort_folded xs) ∙ rw (is_one_of-sort_folded line xs) refl

pub is_one_of-keep :
    (line : Text) (xs : List Text)
    → is_filled line ≡ true
    → is_one_of line (keep is_filled xs) ≡ is_one_of line xs
unfolding is_one_of text_eq
is_one_of-keep line [] e = refl
is_one_of-keep [] (x ∷ xs) e = cc
is_one_of-keep (c ∷ cs) ([] ∷ xs) e = is_one_of-keep (c ∷ cs) xs e
is_one_of-keep (c ∷ cs) ((d ∷ ds) ∷ xs) e = rw (is_one_of-keep (c ∷ cs) xs e) refl

pub is_one_of-padded :
    (line : Text) (xs : List Text)
    → is_filled line ≡ true
    → is_one_of line (padded xs) ≡ is_one_of line xs
unfolding is_one_of text_eq
is_one_of-padded [] xs e = cc
is_one_of-padded (c ∷ cs) [] e = refl
is_one_of-padded (c ∷ cs) (x ∷ xs) e =
    rw (is_one_of-append (c ∷ cs) (x ∷ xs) ([] ∷ [])) (ground arith)

take-drop : (n : ℕ) (xs : List Text) → take n xs ++ drop n xs ≡ xs
take-drop zero xs = refl
take-drop (suc n) [] = refl
take-drop (suc n) (x ∷ xs) = ap (λ t. x ∷ t) (take-drop n xs)

pub drop-drop : (m n : ℕ) (xs : List Text) → drop m (drop n xs) ≡ drop (n + m) xs
drop-drop m zero xs = rw (zero_plus m) refl
  where
    zero_plus : (m : ℕ) → 0 + m ≡ m
    zero_plus m = omega arith
drop-drop m (suc n) [] = drop_nil m ∙ sym (drop_nil (suc n + m))
  where
    drop_nil : (m : ℕ) → drop {A = Text} m [] ≡ []
    drop_nil zero = refl
    drop_nil (suc m) = refl
drop-drop m (suc n) (x ∷ xs) = drop-drop m n xs ∙ sym (rw (suc_plus n m) refl)
  where
    suc_plus : (n m : ℕ) → suc n + m ≡ suc (n + m)
    suc_plus n m = omega arith

-- A list is what stands before, between and behind two indexes.
pub three_cuts : (a b : ℕ) (xs : List Text) → a ≤ b → take a xs ++ (slice a b xs ++ drop b xs) ≡ xs
three_cuts a b xs le =
    rw (sym (rw (sum_to a b le) at (drop-drop (b - a) a xs)), take-drop (b - a) (drop a xs))
      (take-drop a xs)
  where
    sum_to : (a b : ℕ) → a ≤ b → a + (b - a) ≡ b
    sum_to a b le = omega (arith, le)

-- A line that is joined is read back.
split_lines-line :
    (t rest : Text) → has_break t ≡ false → split_lines (t ++ 10 ∷ rest) ≡ t ∷ split_lines rest
unfolding split_lines
split_lines-line [] rest e = refl
split_lines-line (c ∷ cs) rest e =
    let (first, others) = or_false {a = is_break c} {b = any is_break cs} e in
    rw (first, split_lines-line cs rest others) refl

join_lines-cons :
    (t : Text) (ts : List Text)
    → join_lines (t ∷ ts ++ [] ∷ []) ≡ t ++ 10 ∷ join_lines (ts ++ [] ∷ [])
unfolding join_lines
join_lines-cons t [] = refl
join_lines-cons t (u ∷ ts) = refl

pub split_lines-join_lines :
    (ts : List Text)
    → Each (λ t. not (has_break t)) ts
    → split_lines (join_lines (ts ++ [] ∷ [])) ≡ ts
unfolding is_one_of join_lines split_lines
split_lines-join_lines [] e = refl
split_lines-join_lines (t ∷ ts) e = rw (join_lines-cons t ts) (
    split_lines-line t (join_lines (ts ++ [] ∷ []))
      (not_true (has_break t) (e t (rw (text_eq_refl t) refl)))
    ∙ ap (λ r. t ∷ r)
        (split_lines-join_lines ts (λ line one. e line (or_right (text_eq line t) one))))
  where
    not_true : (b : Bool) → not b ≡ true → b ≡ false
    not_true b h = ground arith

    or_right : (a : Bool) {b : Bool} → b ≡ true → (a || b) ≡ true
    or_right a h = ground arith

pub Each-All :
    (test : Text → Bool) (lines : List Text) → All (λ t. test t ≡ true) lines → Each test lines
unfolding is_one_of
Each-All test [] a line one = cc
Each-All test (t ∷ ts) a line one = elim (Bool-cases (text_eq line t)) [
  | inl same ↦ rw (text_eq-eq line t same) a.0
  | inr apart ↦ Each-All test ts a.1 line (rw apart at one)
]

first_line-All :
    (c : ℕ) (lines : List Text)
    → is_break c ≡ false
    → All (λ t. not (has_break t) ≡ true) lines
    → All
        (λ t. not (has_break t) ≡ true)
        (elim lines [ [] ↦ (c ∷ []) ∷ [] | t ∷ ts ↦ (c ∷ t) ∷ ts ])
first_line-All c [] plain a = (rw plain refl, tt)
first_line-All c (t ∷ ts) plain a = (rw plain a.0, a.1)

-- No line that is read has a break in it.
pub split_lines-All : (t : Text) → All (λ line. not (has_break line) ≡ true) (split_lines t)
unfolding split_lines
split_lines-All [] = tt
split_lines-All (c ∷ cs) = elim (Bool-cases (is_break c)) [
  | inl breaks ↦ rw breaks (refl, split_lines-All cs)
  | inr plain ↦ rw plain (first_line-All c (split_lines cs) plain (split_lines-All cs))
]
