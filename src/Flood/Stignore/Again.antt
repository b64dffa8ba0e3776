-- ===== src/Flood/Stignore/Again.antt =====
-- That the next run of pinelake-stignore.py accepts what a run wrote.
use podhaus.Flood.Stignore.Union.{
  Each-either, is_one_of-whitelist, validate_parts, split_lines-rendered_lines,
}
use podhaus.Flood.Stignore.Lines.{three_cuts, IsListing, drop-drop, Each, has_break, Each-All}
use podhaus.Flood.Stignore.Cuts.{keep-append, drop_cut, take_cut, lines_assoc}
use podhaus.Flood.Stignore.Valid.{
  Checks, AreGood, relined, take_w, length-w_front, keep_good, relined-Stands_w, terminal_bad,
  relined-Stands_d, Checks-is_valid_at, is_bad, is_valid_at-Checks,
}
use podhaus.Flood.Stignore.{
  whitelist_marker, deny_marker, slice, validate, terminal_deny, is_terminal, is_filled, IgnoreFile,
  padded, sort_folded, rendered_with, rendered_lines, single_index, is_valid_at,
}
use podhaus.Flood.Stignore.Positions.{Stands, Stands-single_index, single_index-Stands}
use podhaus.Base.{
  List, ℕ, length, drop, Bool, keep, ◌+◌, take, arith, ◌≡◌, ap, some, ◌-◌, ◌++◌, ◌∙◌, sym, subst,
  refl, length-append, true, All, false, not, All-mono, ◌∷◌, ◌||◌, [], ◌&&◌,
}
use podhaus.Base.Codes.{Text, text_eq, is_one_of, starts_with, codes, text_eq_refl, split_lines}

module _ (lines : List Text) (w d : ℕ) (at_w : Stands whitelist_marker lines w)
    (at_d : Stands deny_marker lines d) (c : Checks lines w d) (new : List Text)
    (good : AreGood new) where
  abbrev lined : List Text
  lined = relined lines w d at_w at_d c new good

  length-front : length (take (w + 1) lines) ≡ w + 1
  length-front =
      ap length (take_w lines w d at_w at_d c new good)
      ∙ length-w_front lines w d at_w at_d c new good

  -- Behind the deny marker stands what stood there.
  drop-lined : drop (w + 1 + length new + 1) lined ≡ drop (d + 1) lines
  drop-lined =
      sym (drop-drop 1 (w + 1 + length new) lined)
      ∙ ap (drop 1) (
          ap (drop (w + 1 + length new)) (sym (lines_assoc (take (w + 1) lines) new (drop d lines)))
          ∙ ap (λ n. drop n ((take (w + 1) lines ++ new) ++ drop d lines)) (sym length-both)
          ∙ drop_cut (take (w + 1) lines ++ new) (drop d lines))
      ∙ drop-drop 1 d lines
    where
      length-both : length (take (w + 1) lines ++ new) ≡ w + 1 + length new
      length-both = length-append (take (w + 1) lines) new ∙ ap (λ n. n + length new) length-front

  slice-lined : slice (w + 1) (w + 1 + length new) lined ≡ new
  slice-lined =
      ap (λ n. take n (drop (w + 1) lined)) (rest_of (w + 1) (length new))
      ∙ ap (take (length new)) (
          ap (λ n. drop n lined) (sym length-front)
          ∙ drop_cut (take (w + 1) lines) (new ++ drop d lines))
      ∙ take_cut new (drop d lines)
    where
      rest_of : (a b : ℕ) → a + b - a ≡ b
      rest_of a b = omega arith

  abbrev is_terminal_line : Text → Bool
  is_terminal_line line = text_eq line terminal_deny

  keep-lined : keep is_terminal_line lined ≡ keep is_terminal_line lines
  keep-lined =
      three new good
      ∙ sym (three (slice (w + 1) d lines) c.middle)
      ∙ ap (keep is_terminal_line) (three_cuts (w + 1) d lines c.in_order)
    where
      three :
          (m : List Text)
          → AreGood m
          → keep is_terminal_line (take (w + 1) lines ++ (m ++ drop d lines))
            ≡ keep is_terminal_line (take (w + 1) lines) ++ keep is_terminal_line (drop d lines)
      three m a =
          keep-append is_terminal_line (take (w + 1) lines) (m ++ drop d lines)
          ∙ ap (λ k. keep is_terminal_line (take (w + 1) lines) ++ k)
              (keep-append is_terminal_line m (drop d lines)
                ∙ rw (keep_good terminal_deny m terminal_bad a) refl)

  lined-Checks : Checks lined w (w + 1 + length new)
  lined-Checks = record {
    in_order = omega arith;
    one_terminal = ap length keep-lined ∙ c.one_terminal;
    ends = ap (λ ls. is_terminal (keep is_filled ls)) drop-lined ∙ c.ends;
    middle = subst AreGood (sym slice-lined) good;
  }

  pub lined-validate :
      validate lined
      ≡ some (record { lines = lined; whitelist_index = w; deny_index = w + 1 + length new })
  unfolding validate
  lined-validate =
      rw
        (
          validate,
          Stands-single_index whitelist_marker lined w
              (relined-Stands_w lines w d at_w at_d c new good),
          Stands-single_index deny_marker lined (w + 1 + length new)
              (relined-Stands_d lines w d at_w at_d c new good),
          Checks-is_valid_at lined w (w + 1 + length new) lined-Checks,
        )
        refl

Each-list :
    (test : Text → Bool) (all lines : List Text)
    → ((line : Text) → is_one_of line lines ≡ true → is_one_of line all ≡ true)
    → Each (λ t. not (test t)) all
    → All (λ t. test t ≡ false) lines
unfolding is_one_of
Each-list test all [] sub e = tt
Each-list test all (x ∷ xs) sub e = (
  not_true (test x) (e x (sub x (rw (text_eq_refl x) refl))),
  Each-list test all xs (λ line one. sub line (or_right (text_eq line x) one)) e,
)
  where
    not_true : (b : Bool) → not b ≡ true → b ≡ false
    not_true b h = ground arith

    or_right : (a : Bool) {b : Bool} → b ≡ true → (a || b) ≡ true
    or_right a h = ground arith

not-All :
    (test : Text → Bool) (lines : List Text)
    → All (λ t. test t ≡ false) lines
    → All (λ t. not (test t) ≡ true) lines
not-All test lines a = All-mono lines (λ t h. rw h refl) a

-- The slice that is rendered is good, if the old one and the additions are.
whitelist-AreGood :
    (listing : List Text → List Text) (middle additions : List Text)
    → IsListing listing
    → AreGood middle
    → AreGood additions
    → AreGood (padded (sort_folded (listing (keep is_filled middle ++ additions))))
whitelist-AreGood listing middle additions h old new =
    let whitelist = padded (sort_folded (listing (keep is_filled middle ++ additions))) in
    Each-list is_bad whitelist whitelist (λ line one. one)
      (Each-either (λ t. not (is_bad t)) whitelist middle additions
        (λ line filled. is_one_of-whitelist listing middle additions line h filled) refl
        (Each-All (λ t. not (is_bad t)) middle (not-All is_bad middle old))
        (Each-All (λ t. not (is_bad t)) additions (not-All is_bad additions new)))

-- A file that is written passes the checks of the next run, which reads back the lines that were rendered,
-- with the first marker where it was; given that each addition begins with an exclamation mark, as every
-- line of a share does, and has no line break in it.
pub rendered_with-validate :
    (listing : List Text → List Text) (content : Text) (f : IgnoreFile) (additions : List Text)
    → IsListing listing
    → validate (split_lines content) ≡ some f
    → All (λ t. not (has_break t) ≡ true) additions
    → All (λ t. starts_with (codes "!") t ≡ true) additions
    → (d : ℕ) × (validate (split_lines (rendered_with listing f additions))
        ≡ some (record {
          lines = rendered_lines listing f additions;
          whitelist_index = f.whitelist_index;
          deny_index = d;
        }))
unfolding rendered_lines
rendered_with-validate listing content f additions h valid whole marked =
    let (same, found_w, found_d, valid_at) = validate_parts (split_lines content) f valid in
    let w = f.whitelist_index in
    let d = f.deny_index in
    let at_w =
      single_index-Stands whitelist_marker f.lines w
        (ap (single_index whitelist_marker) same ∙ found_w) in
    let at_d =
      single_index-Stands deny_marker f.lines d (ap (single_index deny_marker) same ∙ found_d) in
    let checks = is_valid_at-Checks f.lines w d (ap (λ ls. is_valid_at ls w d) same ∙ valid_at) in
    let middle = slice (w + 1) d f.lines in
    let new = padded (sort_folded (listing (keep is_filled middle ++ additions))) in
    let good =
      whitelist-AreGood listing middle additions h checks.middle
        (All-mono additions (λ t m. rw m (filled_not (is_filled t))) marked) in
    (
      w + 1 + length new,
      ap validate (split_lines-rendered_lines listing content f additions h valid whole)
          ∙ lined-validate f.lines w d at_w at_d checks new good,
    )
  where
    filled_not : (b : Bool) → (b && not true) ≡ false
    filled_not b = ground arith
