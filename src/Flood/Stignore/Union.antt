-- ===== src/Flood/Stignore/Union.antt =====
-- What pinelake-stignore.py writes.
use podhaus.Flood.Stignore.Lines.{
  IsListing, is_one_of-append, is_one_of-padded, is_one_of-sort_folded, is_one_of-keep, three_cuts,
  Each, has_break, split_lines-join_lines, Each-All, split_lines-All,
}
use podhaus.Flood.Stignore.{
  rendered_lines, validate, is_valid_at, IgnoreFile, is_filled, slice, padded, sort_folded,
  rendered_with, single_index, whitelist_marker, deny_marker,
}
use podhaus.Base.{
  Bool, List, ◌||◌, ◌≡◌, some, true, ◌+◌, ◌⊎◌, inl, ◌≤◌, inr, false, arith, keep, refl, take, drop,
  ◌++◌, ◌∙◌, ap, sym, none, [], ℕ, All, ◌∷◌, ltb, not, Option-cases, Bool-cases, subst, ⊤,
}
use podhaus.Base.Codes.{Text, is_one_of, split_lines}

is_valid_at-order : (lines : List Text) (w d : ℕ) → is_valid_at lines w d ≡ true → w + 1 ≤ d
unfolding is_valid_at
is_valid_at-order lines w d e = elim (Bool-cases (ltb w d)) [
  | inl ordered ↦ ground (arith, ordered)
  | inr other ↦ absurd_order (rw (is_valid_at, other) at e)
]
  where
    absurd_order : false ≡ true → w + 1 ≤ d
    absurd_order c = cc

-- A valid file is the one that was checked, with the places of its markers.
pub validate_parts :
    (lines : List Text) (f : IgnoreFile)
    → validate lines ≡ some f
    → (f.lines ≡ lines)
      × (single_index whitelist_marker lines ≡ some f.whitelist_index)
      × (single_index deny_marker lines ≡ some f.deny_index)
      × (is_valid_at lines f.whitelist_index f.deny_index ≡ true)
unfolding validate
validate_parts lines f e = elim (Option-cases (single_index whitelist_marker lines)) [
  | inl lacks ↦ absurd (none_file (rw (validate, lacks) at e))
  | inr (w, at_w) ↦ elim (Option-cases (single_index deny_marker lines)) [
    | inl lacks ↦ absurd (none_file (rw (validate, at_w, lacks) at e))
    | inr (d, at_d) ↦ elim (Bool-cases (is_valid_at lines w d)) [
      | inr malformed ↦ absurd (none_file (rw (validate, at_w, at_d, malformed) at e))
      | inl valid ↦
          subst
            (λ o. elim o [
              | none ↦ ⊤
              | some g ↦
                  (g.lines ≡ lines)
                  × (single_index whitelist_marker lines ≡ some g.whitelist_index)
                  × (single_index deny_marker lines ≡ some g.deny_index)
                  × (is_valid_at lines g.whitelist_index g.deny_index ≡ true)
            ])
            (rw (validate, at_w, at_d, valid) at e) (refl, at_w, at_d, valid)
    ]
  ]
]
  where
    none_file : none ≡ some f → ⊥
    none_file c = cc

validate_lem :
    (lines : List Text) (f : IgnoreFile)
    → validate lines ≡ some f
    → (f.lines ≡ lines) × (f.whitelist_index + 1 ≤ f.deny_index)
validate_lem lines f e =
    let (same, _, _, valid) = validate_parts lines f e in
    (same, is_valid_at-order lines f.whitelist_index f.deny_index valid)

or_cases : (a b : Bool) → (a || b) ≡ true → (a ≡ true) ⊎ (b ≡ true)
or_cases true b e = inl refl
or_cases false b e = inr e

-- The new slice holds the filled lines of the old one and the additions.
pub is_one_of-whitelist :
    (listing : List Text → List Text) (middle additions : List Text) (line : Text)
    → IsListing listing
    → is_filled line ≡ true
    → is_one_of line (padded (sort_folded (listing (keep is_filled middle ++ additions))))
      ≡ (is_one_of line middle || is_one_of line additions)
is_one_of-whitelist listing middle additions line h e =
    is_one_of-padded line (sort_folded (listing (keep is_filled middle ++ additions))) e
    ∙ is_one_of-sort_folded line (listing (keep is_filled middle ++ additions))
    ∙ h line (keep is_filled middle ++ additions)
    ∙ is_one_of-append line (keep is_filled middle) additions
    ∙ ap (λ b. b || is_one_of line additions) (is_one_of-keep line middle e)

-- The lines that are rendered hold those of the file and the additions, and no other.
pub is_one_of-rendered_lines :
    (listing : List Text → List Text) (f : IgnoreFile) (additions : List Text) (line : Text)
    → IsListing listing
    → f.whitelist_index + 1 ≤ f.deny_index
    → is_filled line ≡ true
    → is_one_of line (rendered_lines listing f additions)
      ≡ (is_one_of line f.lines || is_one_of line additions)
unfolding rendered_lines
is_one_of-rendered_lines listing f additions line h le e =
    let front = take (f.whitelist_index + 1) f.lines in
    let back = drop f.deny_index f.lines in
    let middle = slice (f.whitelist_index + 1) f.deny_index f.lines in
    let whitelist = padded (sort_folded (listing (keep is_filled middle ++ additions))) in
    is_one_of-append line front (whitelist ++ back)
    ∙ ap (λ b. is_one_of line front || b) (is_one_of-append line whitelist back)
    ∙ ap (λ b. is_one_of line front || (b || is_one_of line back))
        (is_one_of-whitelist listing middle additions line h e)
    ∙ swap (is_one_of line front) (is_one_of line middle) (is_one_of line additions)
        (is_one_of line back)
    ∙ ap (λ b. b || is_one_of line additions)
        (sym (
            is_one_of-append line front (middle ++ back)
            ∙ ap (λ b. is_one_of line front || b) (is_one_of-append line middle back))
          ∙ ap (is_one_of line) (three_cuts (f.whitelist_index + 1) f.deny_index f.lines le))
  where
    swap : (a b c d : Bool) → (a || ((b || c) || d)) ≡ ((a || (b || d)) || c)
    swap a b c d = ground arith

pub Each-either :
    (test : Text → Bool) (lines xs ys : List Text)
    → ((line : Text)
        → is_filled line ≡ true
        → is_one_of line lines ≡ (is_one_of line xs || is_one_of line ys))
    → test [] ≡ true
    → Each test xs
    → Each test ys
    → Each test lines
Each-either test lines xs ys h e a b [] one = e
Each-either test lines xs ys h e a b (c ∷ cs) one =
    elim (or_cases (is_one_of (c ∷ cs) xs) (is_one_of (c ∷ cs) ys) (sym (h (c ∷ cs) refl) ∙ one)) [
      | inl x ↦ a (c ∷ cs) x
      | inr y ↦ b (c ∷ cs) y
    ]

pub rendered_lines-union :
    (listing : List Text → List Text) (content : Text) (f : IgnoreFile) (additions : List Text)
    → IsListing listing
    → validate (split_lines content) ≡ some f
    → (line : Text) → is_filled line ≡ true
    → is_one_of line (rendered_lines listing f additions)
      ≡ (is_one_of line (split_lines content) || is_one_of line additions)
rendered_lines-union listing content f additions h valid line filled =
    let (same, le) = validate_lem (split_lines content) f valid in
    is_one_of-rendered_lines listing f additions line h le filled
    ∙ ap (λ ls. is_one_of line ls || is_one_of line additions) same

-- A file that is written is read back as the lines that were rendered.
pub split_lines-rendered_lines :
    (listing : List Text → List Text) (content : Text) (f : IgnoreFile) (additions : List Text)
    → IsListing listing
    → validate (split_lines content) ≡ some f
    → All (λ t. not (has_break t) ≡ true) additions
    → split_lines (rendered_with listing f additions) ≡ rendered_lines listing f additions
unfolding rendered_with
split_lines-rendered_lines listing content f additions h valid whole =
    split_lines-join_lines (rendered_lines listing f additions) (
      Each-either (λ t. not (has_break t)) (rendered_lines listing f additions)
        (split_lines content) additions (rendered_lines-union listing content f additions h valid)
        refl (Each-All (λ t. not (has_break t)) (split_lines content) (split_lines-All content))
        (Each-All (λ t. not (has_break t)) additions whole))

pub split_lines-rendered_with :
    (listing : List Text → List Text) (content : Text) (f : IgnoreFile) (additions : List Text)
    → IsListing listing
    → validate (split_lines content) ≡ some f
    → All (λ t. not (has_break t) ≡ true) additions
    → (line : Text) → is_filled line ≡ true
    → is_one_of line (split_lines (rendered_with listing f additions))
      ≡ (is_one_of line (split_lines content) || is_one_of line additions)
split_lines-rendered_with listing content f additions h valid whole line filled =
    ap (is_one_of line) (split_lines-rendered_lines listing content f additions h valid whole)
    ∙ rendered_lines-union listing content f additions h valid line filled
