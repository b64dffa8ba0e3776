-- ===== src/Lints/Env/Referenced.antt =====
-- What it takes to pass the lint of the environments.
use podhaus.Base.{
  none, some, ◌≡◌, Bool, ◌++◌, true, [], ◌∷◌, Bool-cases, false, ap, ℕ, ◌⊎◌, ◌||◌, inl, arith, ◌==◌,
  refl, inr, sym, ◌∙◌, ◌&&◌,
}
use podhaus.Lints.Env.{search_lines, search_behind}
use podhaus.Base.Codes.{Text, search_in, after_prefix}
use podhaus.Lints.{Bool}

-- What a search finds: a place in the text from which the pattern matches.
abbrev pub IsFound : (Text → Bool) → Text → Type 0
IsFound at content =
    (before : Text) × (after : Text) × (content ≡ before ++ after) × (at after ≡ true)

pub search_in-IsFound :
    (at : Text → Bool) (content : Text) → search_in at content ≡ true → IsFound at content
unfolding search_in
search_in-IsFound at [] e = ([], [], refl, e)
search_in-IsFound at (c ∷ cs) e = elim (Bool-cases (at (c ∷ cs))) [
  | inl here' ↦ ([], c ∷ cs, refl, here')
  | inr further ↦
      let (before, after, splits, found) = search_in-IsFound at cs (rw further at e) in
      (c ∷ before, after, ap (λ t. c ∷ t) splits, found)
]

pub search_in-at :
    (at : Text → Bool) (before after : Text)
    → at after ≡ true
    → search_in at (before ++ after) ≡ true
unfolding search_in
search_in-at at [] [] e = e
search_in-at at [] (c ∷ cs) e = rw e refl
search_in-at at (c ∷ before) after e =
    rw (search_in-at at before after e) (or_true (at (c ∷ before ++ after)))
  where
    or_true : (b : Bool) → (b || true) ≡ true
    or_true b = ground arith

-- The place is the start of a line.
abbrev pub IsLineStart : Text → Type 0
IsLineStart before = (before ≡ []) ⊎ ((b : Text) × (before ≡ b ++ 10 ∷ []))

abbrev pub IsFoundOnLine : (Text → Bool) → Text → Type 0
IsFoundOnLine at content =
    (before : Text) × (after : Text) × (content ≡ before ++ after)
    × IsLineStart before
    × (at after ≡ true)

search_behind-IsFound :
    (at : Text → Bool) (content : Text)
    → search_behind at content ≡ true
    → (b : Text) × (after : Text) × (content ≡ b ++ 10 ∷ after) × (at after ≡ true)
unfolding search_behind
search_behind-IsFound at [] e = absurd (clash e)
  where
    clash : false ≡ true → ⊥
    clash c = cc
search_behind-IsFound at (c ∷ cs) e = elim (Bool-cases (c == 10 && at cs)) [
  | inl here' ↦ ([], cs, ap (λ d. d ∷ cs) (is_ten c cs here'), second c cs here')
  | inr further ↦
      let (b, after, splits, found) = search_behind-IsFound at cs (rw further at e) in
      (c ∷ b, after, ap (λ t. c ∷ t) splits, found)
]
  where
    is_ten : (c : ℕ) (cs : Text) → (c == 10 && at cs) ≡ true → c ≡ 10
    is_ten c cs h = ground arith

    second : (c : ℕ) (cs : Text) → (c == 10 && at cs) ≡ true → at cs ≡ true
    second c cs h = ground arith

search_behind-at :
    (at : Text → Bool) (b after : Text)
    → at after ≡ true
    → search_behind at (b ++ 10 ∷ after) ≡ true
unfolding search_behind
search_behind-at at [] after e = rw e refl
search_behind-at at (c ∷ b) after e =
    rw (search_behind-at at b after e) (or_true (c == 10 && at (b ++ 10 ∷ after)))
  where
    or_true : (b : Bool) → (b || true) ≡ true
    or_true b = ground arith

ten_assoc : (b after : Text) → b ++ 10 ∷ after ≡ (b ++ 10 ∷ []) ++ after
ten_assoc [] after = refl
ten_assoc (c ∷ b) after = ap (λ t. c ∷ t) (ten_assoc b after)

pub search_lines-IsFound :
    (at : Text → Bool) (content : Text) → search_lines at content ≡ true → IsFoundOnLine at content
unfolding search_lines
search_lines-IsFound at content e = elim (Bool-cases (at content)) [
  | inl first ↦ ([], content, refl, inl refl, first)
  | inr further ↦
      let (b, after, splits, found) =
        search_behind-IsFound at content (rw (search_lines, further) at e) in
      (b ++ 10 ∷ [], after, splits ∙ ten_assoc b after, inr (b, refl), found)
]

pub search_lines-at :
    (at : Text → Bool) (content : Text) → IsFoundOnLine at content → search_lines at content ≡ true
unfolding search_lines
search_lines-at at content (before, after, splits, inl top, found) =
    rw (splits, top, search_lines) (rw found refl)
search_lines-at at content (before, after, splits, inr (b, ends), found) =
    rw (splits, ends, sym (ten_assoc b after), search_lines, search_behind-at at b after found)
      (or_true (at (b ++ 10 ∷ after)))
  where
    or_true : (b : Bool) → (b || true) ≡ true
    or_true b = ground arith

pub after_prefix-eq : (p cs rest : Text) → after_prefix p cs ≡ some rest → cs ≡ p ++ rest
unfolding after_prefix
after_prefix-eq [] cs rest e = some_text cs rest e
  where
    some_text : (a b : Text) → some a ≡ some b → a ≡ b
    some_text a b e = ap (λ o. elim o [ none ↦ a | some t ↦ t ]) e
after_prefix-eq (c ∷ p) [] rest e = absurd (clash e)
  where
    clash : none ≡ some rest → ⊥
    clash c = cc
after_prefix-eq (c ∷ p) (d ∷ ds) rest e = elim (Bool-cases (c == d)) [
  | inl same ↦
      rw (sym (same_code c d same)) (ap (λ t. c ∷ t) (after_prefix-eq p ds rest (rw same at e)))
  | inr apart ↦ absurd (clash (rw apart at e))
]
  where
    same_code : (c d : ℕ) → (c == d) ≡ true → c ≡ d
    same_code c d h = ground arith

    clash : none ≡ some rest → ⊥
    clash c = cc

pub after_prefix-append : (p rest : Text) → after_prefix p (p ++ rest) ≡ some rest
unfolding after_prefix
after_prefix-append [] rest = refl
after_prefix-append (c ∷ p) rest = rw (same_code c) (after_prefix-append p rest)
  where
    same_code : (c : ℕ) → (c == c) ≡ true
    same_code c = ground arith
