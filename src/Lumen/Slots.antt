-- ===== src/Lumen/Slots.antt =====
-- Where the slots of the registry's sources are.
use podhaus.Base.{
  ◌≡◌, false, false, false, some, some, ◌∷◌, [], [], [], ◌++◌, refl, ℕ, ℕ, Bool, Bool, Bool, none,
  not, none, not, Bool, ℕ, Bool-cases, List, Bool-cases, ◌||◌, List, ◌==◌, arith, arith, arith,
  arith, inl, ◌&&◌, true, true, All, All, inr, true, or_false, subst, or_false, subst, ap, ap,
  Option-cases, Option-cases, Option-cases, Option-cases, map, map, All-keep, All-keep,
}
use podhaus.Lumen.{
  Source, is_bad_name, source_of, slot, is_bad_path, is_bad_path, slot, slot_root, slot_root,
  catalog_of, catalog_of, Catalog, Catalog, is_absolute, is_absolute, parse_source, parse_sources,
  is_filled_list, is_filled_list, parse_sources, parse_source, text_at, are_unique, text_at,
  are_unique, has_source_keys, has_source_keys, is_available, is_available,
}
use podhaus.Base.Codes.{Text, codes, text_eq, contains, starts_with, is_one_of}
use podhaus.Files.{FilePath, path_of, split_on}
use podhaus.Base.Json.{Fields}

-- The slot is a folder of its own right below the root, and the required path stays in it.
abbrev pub IsSlotted : Source → Type 0
IsSlotted s = (slot s ≡ slot_root ++ s.name ∷ []) × (is_one_of (codes "..") s.required_path ≡ false)

no_slash-split_on : (t : Text) → contains (codes "/") t ≡ false → split_on b'/' t ≡ t ∷ []
unfolding contains starts_with split_on
no_slash-split_on [] e = refl
no_slash-split_on (c ∷ cs) e =
    let (apart, absent) =
      or_false {a = starts_with (codes "/") (c ∷ cs)} {b = contains (codes "/") cs} e in
    rw (no_code c apart, no_slash-split_on cs absent) refl
  where
    no_code : (c : ℕ) → (b'/' == c && true) ≡ false → (c == b'/') ≡ false
    no_code c h = ground arith

no_dot : (t : Text) → starts_with (codes ".") t ≡ false → text_eq t (b'.' ∷ []) ≡ false
unfolding starts_with text_eq
no_dot [] e = refl
no_dot (c ∷ cs) e = rw (no_code c e) refl
  where
    no_code : (c : ℕ) → (b'.' == c && true) ≡ false → (c == b'.') ≡ false
    no_code c h = ground arith

three_false :
    (a b c d : Bool) → (a || b || c || d) ≡ false → (a ≡ false) × (b ≡ false) × (c ≡ false)
three_false a b c d h = (ground arith, ground arith, ground arith)

good_name-path_of : (name : Text) → is_bad_name name ≡ false → path_of name ≡ name ∷ []
unfolding is_bad_name path_of
good_name-path_of name e =
    let (filled, dotless, whole) =
      three_false (text_eq name []) (starts_with (codes ".") name) (contains (codes "/") name)
        (contains (codes "\\") name) e in
    rw (no_slash-split_on name whole, filled, no_dot name dotless) refl

last_two : (a b c : Bool) → (a || b || c) ≡ false → (b ≡ false) × (c ≡ false)
last_two a b c h = (ground arith, ground arith)

last_of : (a b c : Bool) → (a || b || c) ≡ false → c ≡ false
last_of a b c h = ground arith

no_source : (s : Source) → none ≡ some s → ⊥
no_source s c = cc

source_of-IsSlotted :
    (name source required kind : Text) (s : Source)
    → source_of name source required kind ≡ some s
    → IsSlotted s
unfolding source_of is_bad_path slot
source_of-IsSlotted name source required kind s e =
    let wrong_kind = not (is_one_of kind (codes "directory" ∷ codes "repository" ∷ [])) in
    elim (Bool-cases (wrong_kind || is_bad_name name || is_bad_path source required)) [
      | inl bad ↦ absurd (no_source s (rw (source_of, bad) at e))
      | inr good ↦
          let (named, placed) =
            last_two wrong_kind (is_bad_name name) (is_bad_path source required) good in
          subst IsSlotted (ap (λ o. elim o [ none ↦ s | some r ↦ r ]) (rw (source_of, good) at e)) (
            ap (λ p. slot_root ++ p) (good_name-path_of name named),
            last_of (not (is_absolute source)) (is_absolute required)
                (is_one_of (codes "..") (path_of required)) placed,
          )
    ]

parse_source-IsSlotted : (value : Fields) (s : Source) → parse_source value ≡ some s → IsSlotted s
unfolding parse_source
parse_source-IsSlotted value s e = elim (Option-cases (text_at (codes "name") value)) [
  | inl lacks ↦ absurd (no_source s (rw (parse_source, lacks) at e))
  | inr (name, n) ↦ elim (Option-cases (text_at (codes "source") value)) [
    | inl lacks ↦ absurd (no_source s (rw (parse_source, n, lacks) at e))
    | inr (source, o) ↦ elim (Option-cases (text_at (codes "required_path") value)) [
      | inl lacks ↦ absurd (no_source s (rw (parse_source, n, o, lacks) at e))
      | inr (required, r) ↦ elim (Option-cases (text_at (codes "type") value)) [
        | inl lacks ↦ absurd (no_source s (rw (parse_source, n, o, r, lacks) at e))
        | inr (kind, k) ↦ elim (Bool-cases (has_source_keys value)) [
          | inr other ↦ absurd (no_source s (rw (parse_source, n, o, r, k, other) at e))
          | inl keys ↦
              source_of-IsSlotted name source required kind s
                (rw (parse_source, n, o, r, k, keys) at e)
        ]
      ]
    ]
  ]
]

parse_sources-All :
    (values : List Fields) (ss : List Source) → parse_sources values ≡ some ss → All IsSlotted ss
unfolding parse_sources
parse_sources-All [] ss e = subst (All IsSlotted) (ap (λ o. elim o [ none ↦ ss | some r ↦ r ]) e) tt
parse_sources-All (value ∷ values) ss e = elim (Option-cases (parse_source value)) [
  | inl bad ↦ absurd (no_list (rw (parse_sources, bad) at e))
  | inr (s, one) ↦ elim (Option-cases (parse_sources values)) [
    | inl bad ↦ absurd (no_list (rw (parse_sources, one, bad) at e))
    | inr (others, more) ↦
        subst (All IsSlotted)
          (ap (λ o. elim o [ none ↦ ss | some r ↦ r ]) (rw (parse_sources, one, more) at e))
          (parse_source-IsSlotted value s one, parse_sources-All values others more)
  ]
]
  where
    no_list : none ≡ some ss → ⊥
    no_list c = cc

pub catalog_of-IsSlotted :
    (exists : FilePath → Bool) (values : List Fields) (catalog : Catalog)
    → catalog_of exists values ≡ some catalog
    → All IsSlotted catalog.sources
unfolding catalog_of
catalog_of-IsSlotted exists values catalog e = elim (Bool-cases (is_filled_list values)) [
  | inr empty ↦ absurd (no_catalog (rw (catalog_of, empty) at e))
  | inl filled ↦ elim (Option-cases (parse_sources values)) [
    | inl bad ↦ absurd (no_catalog (rw (catalog_of, filled, bad) at e))
    | inr (ss, parsed) ↦ elim (Bool-cases (are_unique (map (λ s. s.name) ss))) [
      | inr twice ↦ absurd (no_catalog (rw (catalog_of, filled, parsed, twice) at e))
      | inl once ↦
          subst (λ c. All IsSlotted c.sources)
            (ap (λ o. elim o [ none ↦ catalog | some c ↦ c ])
              (rw (catalog_of, filled, parsed, once) at e))
            (All-keep IsSlotted (is_available exists) ss (parse_sources-All values ss parsed))
    ]
  ]
]
  where
    no_catalog : none ≡ some catalog → ⊥
    no_catalog c = cc
