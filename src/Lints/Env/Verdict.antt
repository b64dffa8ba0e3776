-- ===== src/Lints/Env/Verdict.antt =====
-- When the lint of the environments passes.
use podhaus.Lints.Env.Forms.{IsReferenced-key_referenced, key_referenced-IsReferenced, IsReferenced}
use podhaus.Lints.Env.{
  key_referenced, missing_keys, stack_errors, resolve_compose_files, paths_or_default,
  is_passed_over, declared_keys, unreferenced, unresolved, stacks_errors, env_errors, lint_env,
  Mismatch,
}
use podhaus.Base.{
  ◌≡◌, true, inl, inr, false, refl, Option, List, In, [], ◌∙◌, ap, ◌∷◌, arith, here, map, later,
  keep, not, Bool-cases, subst, sym, In-cases, if◌then◌else◌, ◌↔◌, ℕ, append_nil,
}
use podhaus.Base.Codes.{Text, join_lines}
use podhaus.Lints.{Stack, StackFile}
use podhaus.Files.{FilePath}

-- Every key that a stack declares is named in its compose files, of which there is one.
abbrev pub IsServed : (Text → Option Text) → Stack → Text → Type 0
IsServed read s key =
    (t : Text) × (ts : List Text) × (resolve_compose_files read (paths_or_default s.file_paths)
      ≡ t ∷ ts)
    × IsReferenced key (join_lines (t ∷ ts))

abbrev pub AreServed : (FilePath → Text → Option Text) → List StackFile → Type 0
AreServed read files =
    (f : StackFile)
    → In f files
    → is_passed_over f.rel ≡ false
    → (s : Stack) → In s f.stacks
    → (key : Text) → In key (declared_keys s)
    → IsServed (read f.rel) s key

missing_keys_none :
    (rel : FilePath) (content : Text) (keys : List Text) (key : Text)
    → In key keys
    → missing_keys rel content keys ≡ []
    → key_referenced key content ≡ true
unfolding missing_keys
missing_keys_none rel content [] key i e = elim i [ ]
missing_keys_none rel content (k ∷ keys) key i e = elim (Bool-cases (key_referenced k content)) [
  | inr unnamed ↦ absurd (clash (rw unnamed at e))
  | inl named ↦ elim (In-cases i) [
    | inl same ↦ rw same named
    | inr more ↦ missing_keys_none rel content keys key more (rw named at e)
  ]
]
  where
    clash :
        unreferenced rel k
            ∷ map (unreferenced rel) (keep (λ key. not (key_referenced key content)) keys)
          ≡ []
        → ⊥
    clash c = cc

missing_keys_all :
    (rel : FilePath) (content : Text) (keys : List Text)
    → ((key : Text) → In key keys → key_referenced key content ≡ true)
    → missing_keys rel content keys ≡ []
unfolding missing_keys
missing_keys_all rel content [] h = refl
missing_keys_all rel content (k ∷ keys) h =
    rw (h k here) (missing_keys_all rel content keys (λ key i. h key (later i)))

stack_errors_none :
    (rel : FilePath) (read : Text → Option Text) (s : Stack)
    → stack_errors rel read s ≡ []
    → (key : Text) → In key (declared_keys s)
    → IsServed read s key
unfolding stack_errors
stack_errors_none rel read s e key i =
    go (declared_keys s) (resolve_compose_files read (paths_or_default s.file_paths)) refl refl i
  where
    clash : unresolved rel ∷ [] ≡ [] → ⊥
    clash c = cc

    go :
        (keys ts : List Text)
        → declared_keys s ≡ keys
        → resolve_compose_files read (paths_or_default s.file_paths) ≡ ts
        → In key keys
        → IsServed read s key
    go [] ts k r i = elim i [ ]
    go (k ∷ keys) [] a r i = absurd (clash (rw (stack_errors, a, r) at e))
    go (k ∷ keys) (t ∷ ts) a r i = (
      t,
      ts,
      r,
      key_referenced-IsReferenced key (join_lines (t ∷ ts)) (
          missing_keys_none rel (join_lines (t ∷ ts)) (k ∷ keys) key i
            (rw (stack_errors, a, r) at e)),
    )

stack_errors_all :
    (rel : FilePath) (read : Text → Option Text) (s : Stack)
    → ((key : Text) → In key (declared_keys s) → IsServed read s key)
    → stack_errors rel read s ≡ []
unfolding stack_errors
stack_errors_all rel read s h = go (declared_keys s) refl
  where
    go : (keys : List Text) → declared_keys s ≡ keys → stack_errors rel read s ≡ []
    go [] a = rw (stack_errors, a) refl
    go (k ∷ keys) a =
        let (t, ts, r, _) = h k (rw a here) in
        rw (stack_errors, a, r)
          (missing_keys_all rel (join_lines (t ∷ ts)) (k ∷ keys) (λ key i.
            let (t', ts', r', named) = h key (rw a i) in
            IsReferenced-key_referenced key (join_lines (t ∷ ts))
              (subst (λ l. IsReferenced key (join_lines l)) (sym r' ∙ r) named)))

abbrev AreServedIn : FilePath → (Text → Option Text) → List Stack → Type 0
AreServedIn rel read stacks =
    (s : Stack) → In s stacks → (key : Text) → In key (declared_keys s) → IsServed read s key

stacks_errors_none :
    (rel : FilePath) (read : Text → Option Text) (stacks : List Stack)
    → stacks_errors rel read stacks ≡ []
    → AreServedIn rel read stacks
unfolding stacks_errors
stacks_errors_none rel read [] e s i = elim i [ ]
stacks_errors_none rel read (s' ∷ stacks) e s i =
    let (first, others) = append_nil (stack_errors rel read s') (stacks_errors rel read stacks) e in
    elim (In-cases i) [
      | inl same ↦ rw same (stack_errors_none rel read s' first)
      | inr more ↦ stacks_errors_none rel read stacks others s more
    ]

stacks_errors_all :
    (rel : FilePath) (read : Text → Option Text) (stacks : List Stack)
    → AreServedIn rel read stacks
    → stacks_errors rel read stacks ≡ []
unfolding stacks_errors
stacks_errors_all rel read [] h = refl
stacks_errors_all rel read (s ∷ stacks) h =
    rw
      (
        stack_errors_all rel read s (h s here),
        stacks_errors_all rel read stacks (λ t i. h t (later i)),
      )
      refl

env_errors_none :
    (read : FilePath → Text → Option Text) (files : List StackFile)
    → env_errors read files ≡ []
    → AreServed read files
unfolding env_errors
env_errors_none read [] e f i kept = elim i [ ]
env_errors_none read (g ∷ files) e f i kept =
    let (first, others) =
      append_nil (if is_passed_over g.rel then [] else stacks_errors g.rel (read g.rel) g.stacks)
        (env_errors read files) e in
    elim (In-cases i) [
      | inr more ↦ env_errors_none read files others f more kept
      | inl same ↦
          let kept_g = ap (λ h. is_passed_over h.rel) (sym same) ∙ kept in
          subst (λ h. AreServedIn h.rel (read h.rel) h.stacks) (sym same)
            (stacks_errors_none g.rel (read g.rel) g.stacks (rw kept_g at first))
    ]

env_errors_all :
    (read : FilePath → Text → Option Text) (files : List StackFile)
    → AreServed read files
    → env_errors read files ≡ []
unfolding env_errors
env_errors_all read [] h = refl
env_errors_all read (f ∷ files) h =
    let others = env_errors_all read files (λ g i. h g (later i)) in
    elim (Bool-cases (is_passed_over f.rel)) [
      | inl passed ↦ rw (passed, others) refl
      | inr kept ↦
          rw (kept, stacks_errors_all f.rel (read f.rel) f.stacks (h f here kept), others) refl
    ]

-- The lint of the environments exits with 0 exactly when each key that a stack declares stands in its compose
-- files, of which one exists: in braces with a sign that may follow it, or alone on the line of an
-- `environment`, or alone as an entry of a list. Stacks from other repositories declare none.
pub lint_env_iff :
    (read : FilePath → Text → Option Text) (files : List StackFile)
    → (lint_env read files ≡ 0) ↔ AreServed read files
unfolding lint_env
lint_env_iff read files = (
  λ e. env_errors_none read files (none_of (env_errors read files) refl e),
  λ h. rw (lint_env, env_errors_all read files h) refl,
)
  where
    clash : (n : ℕ) → n ≡ 1 → n ≡ 0 → ⊥
    clash n a e = omega (arith, a, e)

    none_of :
        (errors : List Mismatch)
        → env_errors read files ≡ errors
        → lint_env read files ≡ 0
        → env_errors read files ≡ []
    none_of [] a e = a
    none_of (m ∷ ms) a e = absurd (clash (lint_env read files) (rw (lint_env, a) refl) e)
