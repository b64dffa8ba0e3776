-- ===== src/Flood/Stignore/Positions.antt =====
-- Where a line stands in a list: the index that is found is that of the one place.
use podhaus.Flood.Stignore.{single_index, indexes}
use podhaus.Base.{
  ◌≡◌, List, ℕ, false, [], some, ◌++◌, ◌∷◌, length, arith, or_false, ◌+◌, suc, Bool-cases, ◌||◌,
  refl, inl, ◌∙◌, ap, inr, drop, none,
}
use podhaus.Base.Codes.{Text, text_eq, is_one_of, text_eq-eq, text_eq_refl}

-- The one place of a line.
pub record Stands (value : Text) (lines : List Text) (i : ℕ) : Type 0 where
  pub front : List Text
  pub back : List Text
  pub splits : lines ≡ front ++ value ∷ back
  pub measures : length front ≡ i
  pub not_before : is_one_of value front ≡ false
  pub not_behind : is_one_of value back ≡ false

text_eq_sym_false : (t u : Text) → text_eq t u ≡ false → text_eq u t ≡ false
unfolding text_eq
text_eq_sym_false [] [] e = e
text_eq_sym_false [] (d ∷ ds) e = refl
text_eq_sym_false (c ∷ cs) [] e = refl
text_eq_sym_false (c ∷ cs) (d ∷ ds) e = ground (arith, text_eq_sym_false cs ds)

indexes-append :
    (value : Text) (i : ℕ) (xs ys : List Text)
    → is_one_of value xs ≡ false
    → indexes value i (xs ++ ys) ≡ indexes value (i + length xs) ys
unfolding indexes is_one_of
indexes-append value i [] ys e = rw (plus_zero i) refl
  where
    plus_zero : (i : ℕ) → i + 0 ≡ i
    plus_zero i = omega arith
indexes-append value i (x ∷ xs) ys e =
    let (apart, absent) = or_false {a = text_eq value x} {b = is_one_of value xs} e in
    rw (text_eq_sym_false value x apart)
      (indexes-append value (i + 1) xs ys absent ∙ rw (shift i (length xs)) refl)
  where
    shift : (i n : ℕ) → i + 1 + n ≡ i + suc n
    shift i n = omega arith

indexes-absent :
    (value : Text) (i : ℕ) (lines : List Text)
    → is_one_of value lines ≡ false
    → indexes value i lines ≡ []
unfolding indexes is_one_of
indexes-absent value i [] e = refl
indexes-absent value i (line ∷ lines) e =
    let (apart, absent) = or_false {a = text_eq value line} {b = is_one_of value lines} e in
    rw (text_eq_sym_false value line apart) (indexes-absent value (i + 1) lines absent)

absent-indexes :
    (value : Text) (i : ℕ) (lines : List Text)
    → indexes value i lines ≡ []
    → is_one_of value lines ≡ false
unfolding indexes is_one_of
absent-indexes value i [] e = refl
absent-indexes value i (line ∷ lines) e = elim (Bool-cases (text_eq line value)) [
  | inl same ↦ no_index (rw (indexes, same) at e)
  | inr apart ↦
      rw (text_eq_sym_false line value apart)
        (absent-indexes value (i + 1) lines (rw (indexes, apart) at e))
]
  where
    no_index :
        i ∷ indexes value (i + 1) lines ≡ [] → (text_eq value line || is_one_of value lines) ≡ false
    no_index c = cc

nil_cons : (k : ℕ) → [] ≡ k ∷ [] → ⊥
nil_cons k e = cc

indexes-Stands :
    (value : Text) (i k : ℕ) (lines : List Text)
    → indexes value i lines ≡ k ∷ []
    → (front : List Text) × (back : List Text) × (lines ≡ front ++ value ∷ back)
      × (i + length front ≡ k)
      × (is_one_of value front ≡ false)
      × (is_one_of value back ≡ false)
unfolding indexes is_one_of
indexes-Stands value i k [] e = absurd (nil_cons k e)
indexes-Stands value i k (line ∷ lines) e = elim (Bool-cases (text_eq line value)) [
  | inl same ↦
      let f = rw (indexes, same) at e in
      (
        [],
        lines,
        ap (λ v. v ∷ lines) (text_eq-eq line value same),
        ap (λ ks. elim ks [ [] ↦ i + 0 | k ∷ _ ↦ k + 0 ]) f ∙ omega arith,
        refl,
        absent-indexes value (i + 1) lines (ap (λ ks. drop 1 ks) f),
      )
  | inr apart ↦
      let (front, back, splits, measures, before, behind) =
        indexes-Stands value (i + 1) k lines (rw (indexes, apart) at e) in
      (
        line ∷ front,
        back,
        ap (λ ls. line ∷ ls) splits,
        omega (arith, measures),
        rw (text_eq_sym_false line value apart) before,
        behind,
      )
]

some_inj : (j k : ℕ) → some j ≡ some k → j ≡ k
some_inj j k e = cc

pub single_index-Stands :
    (value : Text) (lines : List Text) (k : ℕ)
    → single_index value lines ≡ some k
    → Stands value lines k
unfolding single_index
single_index-Stands value lines k e = go (indexes value 0 lines) refl
  where
    none_index : none ≡ some k → Stands value lines k
    none_index c = cc

    go : (ks : List ℕ) → indexes value 0 lines ≡ ks → Stands value lines k
    go [] f = none_index (rw (single_index, f) at e)
    go (j ∷ i ∷ ks) f = none_index (rw (single_index, f) at e)
    go (j ∷ []) f =
        let (front, back, splits, measures, before, behind) = indexes-Stands value 0 j lines f in
        record {
          front = front;
          back = back;
          splits = splits;
          measures = omega (arith, measures, some_inj j k (rw (single_index, f) at e));
          not_before = before;
          not_behind = behind;
        }

indexes-at :
    (value : Text) (n k : ℕ) (back : List Text)
    → n ≡ k
    → is_one_of value back ≡ false
    → indexes value n (value ∷ back) ≡ k ∷ []
unfolding indexes
indexes-at value n k back e absent =
    rw (text_eq_refl value)
      (ap (λ ks. n ∷ ks) (indexes-absent value (n + 1) back absent) ∙ ap (λ j. j ∷ []) e)

pub Stands-single_index :
    (value : Text) (lines : List Text) (k : ℕ)
    → Stands value lines k
    → single_index value lines ≡ some k
unfolding single_index
Stands-single_index value lines k s = rw (single_index, found) refl
  where
    found : indexes value 0 lines ≡ k ∷ []
    found =
        ap (indexes value 0) s.splits
        ∙ indexes-append value 0 s.front (value ∷ s.back) s.not_before
        ∙ indexes-at value (0 + length s.front) k s.back (omega (arith, s.measures)) s.not_behind
