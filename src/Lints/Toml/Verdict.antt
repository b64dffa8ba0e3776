-- ===== src/Lints/Toml/Verdict.antt =====
-- When the lint of the deploy authority passes.
use podhaus.Base.{
  List, In, ◌≡◌, true, [], ◌⊎◌, ◌++◌, ◌↔◌, ◌≢◌, ◌||◌, some, false, Bool, Option, none, not, ap, ℕ,
  if◌then◌else◌, ◌∷◌, append_nil, here, later, arith, ◌&&◌, refl, inl, In-cases, Bool-cases, inr,
  subst, sym, ◌∙◌,
}
use podhaus.Lints.Toml.{
  stack_faults, tags_of, is_untagged, is_skipped, is_deployed, stacks_faults, toml_errors,
  lint_toml, untagged, deploys, Fault,
}
use podhaus.Base.Codes.{codes, is_one_of}
use podhaus.Lints.{Stack, StackFile, has_repo, List}
use podhaus.Files.{FilePath}

-- The stack has its tag or comes from another repository, and does not deploy by itself.
abbrev pub IsAllowed : Stack → Type 0
IsAllowed s =
    ((is_one_of (codes "podhaus") (tags_of s.tags) ≡ true) ⊎ (has_repo s ≡ true))
    × (s.deploy ≢ some true)

two_faults :
    (rel : FilePath) (u d : Bool)
    → ((if u then untagged rel ∷ [] else []) ++ (if d then deploys rel ∷ [] else [])) ≡ []
    → (u ≡ false) × (d ≡ false)
two_faults rel false false e = (refl, refl)
two_faults rel false true e = absurd (clash e)
  where
    clash : deploys rel ∷ [] ≡ [] → ⊥
    clash c = cc
two_faults rel true d e = absurd (clash d e)
  where
    clash : (d : Bool) → (untagged rel ∷ [] ++ (if d then deploys rel ∷ [] else [])) ≡ [] → ⊥
    clash d c = cc

tagged_or_repo : (t r : Bool) → (not t && not r) ≡ false → (t ≡ true) ⊎ (r ≡ true)
tagged_or_repo true r e = inl refl
tagged_or_repo false true e = inr refl
tagged_or_repo false false e = absurd (clash e)
  where
    clash : true ≡ false → ⊥
    clash c = cc

not_untagged : (t r : Bool) → (t ≡ true) ⊎ (r ≡ true) → (not t && not r) ≡ false
not_untagged t r (inl e) = rw e refl
not_untagged t r (inr e) = ground (arith, e)

not_deployed : (o : Option Bool) → is_deployed o ≡ false → o ≢ some true
not_deployed none e a = cc
not_deployed (some b) e a = clash b e (ap is_deployed a)
  where
    clash : (b : Bool) → b ≡ false → b ≡ true → ⊥
    clash b e a = cc

deployed_none : (o : Option Bool) → o ≢ some true → is_deployed o ≡ false
deployed_none none h = refl
deployed_none (some false) h = refl
deployed_none (some true) h = absurd (h refl)

stack_faults_none : (rel : FilePath) (s : Stack) → stack_faults rel s ≡ [] → IsAllowed s
unfolding stack_faults is_untagged
stack_faults_none rel s e =
    let (tag, auto) = two_faults rel (is_untagged s) (is_deployed s.deploy) e in
    (
      tagged_or_repo (is_one_of (codes "podhaus") (tags_of s.tags)) (has_repo s) tag,
      not_deployed s.deploy auto,
    )

not_untagged_stack :
    (s : Stack)
    → (is_one_of (codes "podhaus") (tags_of s.tags) ≡ true) ⊎ (has_repo s ≡ true)
    → is_untagged s ≡ false
unfolding is_untagged
not_untagged_stack s h = not_untagged (is_one_of (codes "podhaus") (tags_of s.tags)) (has_repo s) h

stack_faults_all : (rel : FilePath) (s : Stack) → IsAllowed s → stack_faults rel s ≡ []
unfolding stack_faults
stack_faults_all rel s (tag, auto) = rw (not_untagged_stack s tag, deployed_none s.deploy auto) refl

abbrev pub AreAllowed : FilePath → List StackFile → Type 0
AreAllowed root files =
    (f : StackFile)
    → In f files
    → (is_skipped (root ++ f.rel) || is_one_of (codes "komodo-src") f.rel) ≡ false
    → (s : Stack) → In s f.stacks
    → IsAllowed s

stacks_faults_none :
    (rel : FilePath) (stacks : List Stack)
    → stacks_faults rel stacks ≡ []
    → (s : Stack) → In s stacks
    → IsAllowed s
unfolding stacks_faults
stacks_faults_none rel [] e s i = elim i [ ]
stacks_faults_none rel (t ∷ stacks) e s i =
    let (first, others) = append_nil (stack_faults rel t) (stacks_faults rel stacks) e in
    elim (In-cases i) [
      | inl same ↦ subst IsAllowed (sym same) (stack_faults_none rel t first)
      | inr more ↦ stacks_faults_none rel stacks others s more
    ]

stacks_faults_all :
    (rel : FilePath) (stacks : List Stack)
    → ((s : Stack) → In s stacks → IsAllowed s)
    → stacks_faults rel stacks ≡ []
unfolding stacks_faults
stacks_faults_all rel [] h = refl
stacks_faults_all rel (s ∷ stacks) h =
    rw (stack_faults_all rel s (h s here), stacks_faults_all rel stacks (λ t i. h t (later i))) refl

toml_errors_none :
    (root : FilePath) (files : List StackFile) → toml_errors root files ≡ [] → AreAllowed root files
unfolding toml_errors
toml_errors_none root [] e f i kept = elim i [ ]
toml_errors_none root (g ∷ files) e f i kept =
    let (first, others) =
      append_nil
        (if is_skipped (root ++ g.rel) || is_one_of (codes "komodo-src") g.rel
          then []
          else stacks_faults g.rel g.stacks)
        (toml_errors root files) e in
    elim (In-cases i) [
      | inr more ↦ toml_errors_none root files others f more kept
      | inl same ↦
          let kept_g =
            ap (λ h. is_skipped (root ++ h.rel) || is_one_of (codes "komodo-src") h.rel) (sym same)
            ∙ kept in
          subst (λ h. (s : Stack) → In s h.stacks → IsAllowed s) (sym same)
            (stacks_faults_none g.rel g.stacks (rw kept_g at first))
    ]

toml_errors_all :
    (root : FilePath) (files : List StackFile) → AreAllowed root files → toml_errors root files ≡ []
unfolding toml_errors
toml_errors_all root [] h = refl
toml_errors_all root (f ∷ files) h =
    let others = toml_errors_all root files (λ g i. h g (later i)) in
    elim (Bool-cases (is_skipped (root ++ f.rel) || is_one_of (codes "komodo-src") f.rel)) [
      | inl passed ↦ rw (passed, others) refl
      | inr kept ↦ rw (kept, stacks_faults_all f.rel f.stacks (h f here kept), others) refl
    ]

-- The lint of the deploy authority exits with 0 exactly when no stack deploys by itself and each one has
-- its tag, unless it comes from another repository; paths that are passed over count for nothing.
pub lint_toml_iff :
    (root : FilePath) (files : List StackFile) → (lint_toml root files ≡ 0) ↔ AreAllowed root files
unfolding lint_toml
lint_toml_iff root files = (
  λ e. toml_errors_none root files (none_of (toml_errors root files) refl e),
  λ h. rw (lint_toml, toml_errors_all root files h) refl,
)
  where
    clash : (n : ℕ) → n ≡ 1 → n ≡ 0 → ⊥
    clash n a e = omega (arith, a, e)

    none_of :
        (errors : List Fault)
        → toml_errors root files ≡ errors
        → lint_toml root files ≡ 0
        → toml_errors root files ≡ []
    none_of [] a e = a
    none_of (m ∷ ms) a e = absurd (clash (lint_toml root files) (rw (lint_toml, a) refl) e)
