-- ===== src/Lints/Env/Forms.antt =====
-- The three forms in which a key may stand in a compose file.
use podhaus.Lints.Env.Referenced.{
  IsFoundOnLine, after_prefix-eq, search_in-IsFound, search_in-at, after_prefix-append,
  search_lines-at, search_lines-IsFound,
}
use podhaus.Lints.Env.{key_referenced, braces_at, closes, search_lines, single_form, list_form}
use podhaus.Base.{
  Bool, ◌≡◌, true, ◌++◌, ◌||◌, ◌⊎◌, inl, inr, false, Option-cases, refl, ◌∙◌, ap, arith,
}
use podhaus.Base.Codes.{Text, codes, search_in, after_prefix}
use podhaus.Lints.{Bool}

-- The key stands in braces, or alone on the line of the environment, or alone as an entry of a list.
abbrev pub IsReferenced : Text → Text → Type 0
IsReferenced key content =
    ((before : Text) × (rest : Text) × (content ≡ before ++ ((codes "${" ++ key) ++ rest))
      × (closes rest ≡ true))
    ⊎ (IsFoundOnLine (single_form key) content ⊎ IsFoundOnLine (list_form key) content)

or_cases : (a b : Bool) → (a || b) ≡ true → (a ≡ true) ⊎ (b ≡ true)
or_cases true b e = inl refl
or_cases false b e = inr e

pub braces_at-eq :
    (key cs : Text)
    → braces_at key cs ≡ true
    → (rest : Text) × (cs ≡ (codes "${" ++ key) ++ rest) × (closes rest ≡ true)
unfolding braces_at
braces_at-eq key cs e = elim (Option-cases (after_prefix (codes "${" ++ key) cs)) [
  | inl no_key ↦ absurd (clash (rw (braces_at, no_key) at e))
  | inr (rest, f) ↦ (rest, after_prefix-eq (codes "${" ++ key) cs rest f, rw (braces_at, f) at e)
]
  where
    clash : false ≡ true → ⊥
    clash c = cc

pub key_referenced-IsReferenced :
    (key content : Text) → key_referenced key content ≡ true → IsReferenced key content
unfolding key_referenced
key_referenced-IsReferenced key content e =
    elim (or_cases (search_in (braces_at key) content)
      (search_lines (single_form key) content || search_lines (list_form key) content) e) [
        | inl braces ↦
            let (before, after, splits, found) = search_in-IsFound (braces_at key) content braces in
            let (rest, reads, sign) = braces_at-eq key after found in
            inl (before, rest, splits ∙ ap (λ t. before ++ t) reads, sign)
        | inr others ↦
            elim (or_cases (search_lines (single_form key) content)
              (search_lines (list_form key) content) others) [
                | inl single ↦ inr (inl (search_lines-IsFound (single_form key) content single))
                | inr listed ↦ inr (inr (search_lines-IsFound (list_form key) content listed))
              ]
      ]

pub IsReferenced-key_referenced :
    (key content : Text) → IsReferenced key content → key_referenced key content ≡ true
unfolding key_referenced
IsReferenced-key_referenced key content (inl (before, rest, splits, sign)) =
    let found : search_in (braces_at key) content ≡ true = rw splits (
      search_in-at (braces_at key) before ((codes "${" ++ key) ++ rest)
        (rw (braces_at, after_prefix-append (codes "${" ++ key) rest) sign)) in
    rw (key_referenced, found) refl
IsReferenced-key_referenced key content (inr (inl single)) =
    rw (key_referenced, search_lines-at (single_form key) content single) (ground arith)
IsReferenced-key_referenced key content (inr (inr listed)) =
    rw (key_referenced, search_lines-at (list_form key) content listed) (ground arith)
