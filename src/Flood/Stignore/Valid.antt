-- ===== src/Flood/Stignore/Valid.antt =====
-- That a file which pinelake-stignore.py writes passes its checks.
use podhaus.Flood.Stignore.Cuts.{
  is_one_of-drop, drop_cut, is_one_of-take, All-any, take_cut, lines_assoc, any-All,
}
use podhaus.Flood.Stignore.Lines.{is_one_of-append, drop-drop}
use podhaus.Flood.Stignore.Positions.{Stands}
use podhaus.Flood.Stignore.{
  terminal_deny, is_valid_at, whitelist_marker, deny_marker, is_filled, is_terminal, slice,
}
use podhaus.Base.{
  List, Bool, All, ℕ, ◌≡◌, ◌&&◌, not, false, true, ◌+◌, keep, arith, take, length, drop, ◌++◌, ◌≤◌,
  ◌==◌, refl, ◌∷◌, Bool-cases, [], ltb, length-append, ap, sym, ◌-◌, ◌∙◌, any, inr, inl,
}
use podhaus.Base.Codes.{Text, text_eq, is_one_of, starts_with, codes, text_eq-eq}

-- What no line between the markers may be.
abbrev pub is_bad : Text → Bool
is_bad line = is_filled line && not (starts_with (codes "!") line)

abbrev pub AreGood : List Text → Type 0
AreGood lines = All (λ t. is_bad t ≡ false) lines

marker_bad : is_bad whitelist_marker ≡ true
unfolding starts_with
marker_bad = refl

deny_bad : is_bad deny_marker ≡ true
unfolding starts_with
deny_bad = refl

pub terminal_bad : is_bad terminal_deny ≡ true
unfolding starts_with
terminal_bad = refl

pub bad_absent :
    (v : Text) (lines : List Text) → is_bad v ≡ true → AreGood lines → is_one_of v lines ≡ false
unfolding is_one_of
bad_absent v [] bad a = refl
bad_absent v (x ∷ xs) bad a = elim (Bool-cases (text_eq v x)) [
  | inr apart ↦ rw apart (bad_absent v xs bad a.1)
  | inl same ↦ absurd (clash (sym (ap is_bad (text_eq-eq v x same) ∙ a.0) ∙ bad))
]
  where
    clash : false ≡ true → ⊥
    clash c = cc

pub keep_good :
    (v : Text) (lines : List Text)
    → is_bad v ≡ true
    → AreGood lines
    → keep (λ line. text_eq line v) lines ≡ []
keep_good v [] bad a = refl
keep_good v (x ∷ xs) bad a = elim (Bool-cases (text_eq x v)) [
  | inr apart ↦ rw apart (keep_good v xs bad a.1)
  | inl same ↦ absurd (clash (sym (ap is_bad (sym (text_eq-eq x v same)) ∙ a.0) ∙ bad))
]
  where
    clash : false ≡ true → ⊥
    clash c = cc

-- The four checks of `_validate`.
pub record Checks (lines : List Text) (w d : ℕ) : Type 0 where
  pub in_order : w + 1 ≤ d
  pub one_terminal : length (keep (λ line. text_eq line terminal_deny) lines) ≡ 1
  pub ends : is_terminal (keep is_filled (drop (d + 1) lines)) ≡ true
  pub middle : AreGood (slice (w + 1) d lines)

four_tests :
    (a b c d : Bool)
    → (a && b && c && not d) ≡ true
    → (a ≡ true) × (b ≡ true) × (c ≡ true) × (d ≡ false)
four_tests a b c d h = (ground arith, ground arith, ground arith, ground arith)

pub is_valid_at-Checks :
    (lines : List Text) (w d : ℕ) → is_valid_at lines w d ≡ true → Checks lines w d
unfolding is_valid_at
is_valid_at-Checks lines w d e =
    let (order, one, terminal, good) =
      four_tests (ltb w d) (length (keep (λ line. text_eq line terminal_deny) lines) == 1)
        (is_terminal (keep is_filled (drop (d + 1) lines))) (any is_bad (slice (w + 1) d lines))
        e in
    record {
      in_order = ground (arith, order);
      one_terminal = equal_one _ one;
      ends = terminal;
      middle = any-All is_bad (slice (w + 1) d lines) good;
    }
  where
    equal_one : (n : ℕ) → (n == 1) ≡ true → n ≡ 1
    equal_one n h = ground arith

pub Checks-is_valid_at :
    (lines : List Text) (w d : ℕ) → Checks lines w d → is_valid_at lines w d ≡ true
unfolding is_valid_at
Checks-is_valid_at lines w d c =
    rw
      (
        is_valid_at,
        before w d c.in_order,
        c.one_terminal,
        c.ends,
        All-any is_bad (slice (w + 1) d lines) c.middle,
      )
      refl
  where
    before : (w d : ℕ) → w + 1 ≤ d → ltb w d ≡ true
    before w d h = ground arith

-- The new lines, with any good slice between the markers.
module _ (lines : List Text) (w d : ℕ) (at_w : Stands whitelist_marker lines w)
    (at_d : Stands deny_marker lines d) (c : Checks lines w d) (new : List Text)
    (good : AreGood new) where
  abbrev pub relined : List Text
  relined = take (w + 1) lines ++ (new ++ drop d lines)

  abbrev pub w_front : List Text
  w_front = at_w.front ++ whitelist_marker ∷ []

  lines_w : lines ≡ w_front ++ at_w.back
  lines_w = at_w.splits ∙ sym (lines_assoc at_w.front (whitelist_marker ∷ []) at_w.back)

  pub length-w_front : length w_front ≡ w + 1
  length-w_front = length-append at_w.front (whitelist_marker ∷ []) ∙ omega (arith, at_w.measures)

  pub take_w : take (w + 1) lines ≡ w_front
  take_w =
      ap (take (w + 1)) lines_w
      ∙ ap (λ n. take n (w_front ++ at_w.back)) (sym length-w_front)
      ∙ take_cut w_front at_w.back

  drop_w : drop (w + 1) lines ≡ at_w.back
  drop_w =
      ap (drop (w + 1)) lines_w
      ∙ ap (λ n. drop n (w_front ++ at_w.back)) (sym length-w_front)
      ∙ drop_cut w_front at_w.back

  pub drop_d : drop d lines ≡ deny_marker ∷ at_d.back
  drop_d =
      ap (drop d) at_d.splits
      ∙ ap (λ n. drop n (at_d.front ++ deny_marker ∷ at_d.back)) (sym at_d.measures)
      ∙ drop_cut at_d.front (deny_marker ∷ at_d.back)

  take_d : take d lines ≡ at_d.front
  take_d =
      ap (take d) at_d.splits
      ∙ ap (λ n. take n (at_d.front ++ deny_marker ∷ at_d.back)) (sym at_d.measures)
      ∙ take_cut at_d.front (deny_marker ∷ at_d.back)

  relined_w : relined ≡ at_w.front ++ whitelist_marker ∷ (new ++ drop d lines)
  relined_w =
      ap (λ t. t ++ (new ++ drop d lines)) take_w
      ∙ lines_assoc at_w.front (whitelist_marker ∷ []) (new ++ drop d lines)

  pub relined_d : relined ≡ (take (w + 1) lines ++ new) ++ deny_marker ∷ at_d.back
  relined_d =
      sym (lines_assoc (take (w + 1) lines) new (drop d lines))
      ∙ ap (λ t. (take (w + 1) lines ++ new) ++ t) drop_d

  drop_far : drop d lines ≡ drop (d - (w + 1)) at_w.back
  drop_far =
      ap (λ n. drop n lines) (sum_to (w + 1) d c.in_order)
      ∙ sym (drop-drop (d - (w + 1)) (w + 1) lines)
      ∙ ap (drop (d - (w + 1))) drop_w
    where
      sum_to : (a b : ℕ) → a ≤ b → b ≡ a + (b - a)
      sum_to a b le = omega (arith, le)

  pub relined-Stands_w : Stands whitelist_marker relined w
  relined-Stands_w = record {
    front = at_w.front;
    back = new ++ drop d lines;
    splits = relined_w;
    measures = at_w.measures;
    not_before = at_w.not_before;
    not_behind =
        is_one_of-append whitelist_marker new (drop d lines)
        ∙ rw
            (
              bad_absent whitelist_marker new marker_bad good,
              ap (is_one_of whitelist_marker) drop_far
                  ∙ is_one_of-drop whitelist_marker (d - (w + 1)) at_w.back at_w.not_behind,
            )
            refl;
  }

  pub relined-Stands_d : Stands deny_marker relined (w + 1 + length new)
  relined-Stands_d = record {
    front = take (w + 1) lines ++ new;
    back = at_d.back;
    splits = relined_d;
    measures =
        length-append (take (w + 1) lines) new
        ∙ ap (λ n. n + length new) (ap length take_w ∙ length-w_front);
    not_before =
        is_one_of-append deny_marker (take (w + 1) lines) new
        ∙ rw
            (
              is_one_of-take deny_marker (w + 1) d lines c.in_order
                  (ap (is_one_of deny_marker) take_d ∙ at_d.not_before),
              bad_absent deny_marker new deny_bad good,
            )
            refl;
    not_behind = at_d.not_behind;
  }
