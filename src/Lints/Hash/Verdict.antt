-- ===== src/Lints/Hash/Verdict.antt =====
-- What a stack has when the lint of the content hashes passes.
use podhaus.Lints.Env.Forms.{braces_at-eq}
use podhaus.Lints.Env.Referenced.{search_in-IsFound}
use podhaus.Lints.Env.{closes, braces_at}
use podhaus.Lints.Hash.{
  service_errors, build_errors, refers, HashError, is_present, has_hash_label, has_build_arg,
  lacks_depends_label, passes_hash, has_depends_label, label_key, build_variable,
  depends_label_prefix, build_checks, services_errors, stacks_hash_errors, lint_hash, no_build_arg,
  no_label, HashStack, no_propagation, no_depends_label, is_left_out, services_of,
  build_service_names, orphans_errors,
}
use podhaus.Lints.Compose.{
  interpolates, hash_name, label_value, lookup, build_args_value, depends_on_services, Service,
}
use podhaus.Base.{
  Option, Bool, List, ◌≡◌, ◌&&◌, some, true, map, not, if◌then◌else◌, false, [], keep, ◌++◌, In,
  arith, ◌∷◌, Bool-cases, refl, inl, ◌∙◌, inr, ap, In-cases, none, append_nil, subst, sym, ℕ,
}
use podhaus.Base.Codes.{Text, codes, is_one_of}
use podhaus.Base.Json.{Value, Fields}
use podhaus.Files.{FilePath}

-- The value names the variable in braces, with a sign that may follow it.
abbrev pub Refers : Text → Option Text → Type 0
Refers varname o =
    (v : Text) × (before : Text) × (rest : Text) × (o ≡ some v)
    × (v ≡ before ++ ((codes "${" ++ varname) ++ rest))
    × (closes rest ≡ true)

refers-Refers : (varname : Text) (o : Option Text) → refers varname o ≡ true → Refers varname o
unfolding interpolates
refers-Refers varname none e = absurd (clash e)
  where
    clash : false ≡ true → ⊥
    clash c = cc
refers-Refers varname (some v) e =
    let (before, after, splits, found) = search_in-IsFound (braces_at varname) v e in
    let (rest, reads, sign) = braces_at-eq varname after found in
    (v, before, rest, refl, splits ∙ ap (λ t. before ++ t) reads, sign)

-- The three rules on a service, with the variables of its stack's services that are built.
abbrev pub IsWired : (Text → Text → Option Text) → List Text → Text → Fields → Type 0
IsWired dockerfile builds name svc =
    Refers hash_name (label_value (lookup (codes "labels") svc) label_key)
    × ((build : Value)
        → lookup (codes "build") svc ≡ some build
        → is_present (some build) ≡ true
        → Refers (build_variable name) (build_args_value build hash_name)
          × (passes_hash dockerfile build ≡ true))
    × ((dep : Text)
        → In dep (depends_on_services (lookup (codes "depends_on") svc))
        → is_one_of dep builds ≡ true
        → Refers (build_variable dep)
            (label_value (lookup (codes "labels") svc) (depends_label_prefix ++ dep)))

unless_nil : (b : Bool) (x : HashError) → (if b then [] else x ∷ []) ≡ [] → b ≡ true
unless_nil true x e = refl
unless_nil false x e = absurd (clash e)
  where
    clash : x ∷ [] ≡ [] → ⊥
    clash c = cc

build_errors_none :
    (dockerfile : Text → Text → Option Text) (name : Text) (build : Value)
    → is_present (some build) ≡ true
    → build_errors dockerfile name (some build) ≡ []
    → (has_build_arg name build ≡ true) × (passes_hash dockerfile build ≡ true)
unfolding build_errors build_checks
build_errors_none dockerfile name build there e =
    let (arg, passes) =
      append_nil (if has_build_arg name build then [] else no_build_arg name ∷ [])
        (if passes_hash dockerfile build then [] else no_propagation name ∷ [])
        (rw (build_errors, there, build_checks) at e) in
    (
      unless_nil (has_build_arg name build) (no_build_arg name) arg,
      unless_nil (passes_hash dockerfile build) (no_propagation name) passes,
    )

keep_nil :
    (test : Text → Bool) (f : Text → HashError) (deps : List Text)
    → map f (keep test deps) ≡ []
    → (dep : Text) → In dep deps
    → test dep ≡ false
keep_nil test f [] e dep i = elim i [ ]
keep_nil test f (d ∷ deps) e dep i = elim (Bool-cases (test d)) [
  | inl kept ↦ absurd (clash (rw kept at e))
  | inr dropped ↦ elim (In-cases i) [
    | inl same ↦ rw same dropped
    | inr more ↦ keep_nil test f deps (rw dropped at e) dep more
  ]
]
  where
    clash : f d ∷ map f (keep test deps) ≡ [] → ⊥
    clash c = cc

has_label : (a b : Bool) → (a && not b) ≡ false → a ≡ true → b ≡ true
has_label a b e h = ground arith

service_errors_none :
    (dockerfile : Text → Text → Option Text) (builds : List Text) (name : Text) (svc : Fields)
    → service_errors dockerfile builds name svc ≡ []
    → IsWired dockerfile builds name svc
unfolding service_errors has_hash_label has_build_arg lacks_depends_label has_depends_label
service_errors_none dockerfile builds name svc e =
    let (label, others) =
      append_nil (if has_hash_label svc then [] else no_label name ∷ [])
        (build_errors dockerfile name (lookup (codes "build") svc)
          ++ map (no_depends_label name) (
              keep (lacks_depends_label builds svc)
                (depends_on_services (lookup (codes "depends_on") svc))))
        e in
    let (built, depends) =
      append_nil (build_errors dockerfile name (lookup (codes "build") svc))
        (map (no_depends_label name) (
          keep (lacks_depends_label builds svc)
            (depends_on_services (lookup (codes "depends_on") svc))))
        others in
    (
      refers-Refers hash_name (label_value (lookup (codes "labels") svc) label_key)
          (unless_nil (has_hash_label svc) (no_label name) label),
      λ build found there.
          let (arg, passes) =
            build_errors_none dockerfile name build there
              (ap (build_errors dockerfile name) (sym found) ∙ built) in
          (refers-Refers (build_variable name) (build_args_value build hash_name) arg, passes),
      λ dep one is_built.
          refers-Refers (build_variable dep)
            (label_value (lookup (codes "labels") svc) (depends_label_prefix ++ dep))
            (has_label (is_one_of dep builds) (has_depends_label svc dep)
              (keep_nil (lacks_depends_label builds svc) (no_depends_label name)
                (depends_on_services (lookup (codes "depends_on") svc)) depends dep one)
              is_built),
    )

services_errors_none :
    (dockerfile : Text → Text → Option Text) (builds : List Text) (services : List Service)
    → services_errors dockerfile builds services ≡ []
    → (s : Service) → In s services
    → IsWired dockerfile builds s.0 s.1
unfolding services_errors
services_errors_none dockerfile builds [] e s i = elim i [ ]
services_errors_none dockerfile builds (t ∷ services) e s i =
    let (first, others) =
      append_nil (service_errors dockerfile builds t.0 t.1)
        (services_errors dockerfile builds services) e in
    elim (In-cases i) [
      | inl same ↦
          subst (λ r. IsWired dockerfile builds r.0 r.1) (sym same)
            (service_errors_none dockerfile builds t.0 t.1 first)
      | inr more ↦ services_errors_none dockerfile builds services others s more
    ]

stacks_hash_errors_none :
    (root : FilePath) (stacks : List HashStack)
    → stacks_hash_errors root stacks ≡ []
    → (stack : HashStack) → In stack stacks
    → is_left_out root stack.rel ≡ false
    → (s : Service) → In s (services_of stack)
    → IsWired stack.dockerfile (build_service_names (services_of stack)) s.0 s.1
unfolding stacks_hash_errors
stacks_hash_errors_none root [] e stack i kept = elim i [ ]
stacks_hash_errors_none root (t ∷ stacks) e stack i kept =
    let (first, others) =
      append_nil
        (if is_left_out root t.rel
          then []
          else services_errors t.dockerfile (build_service_names (services_of t)) (services_of t))
        (stacks_hash_errors root stacks) e in
    elim (In-cases i) [
      | inr more ↦ stacks_hash_errors_none root stacks others stack more kept
      | inl same ↦
          let kept_t = ap (λ h. is_left_out root h.rel) (sym same) ∙ kept in
          subst
            (λ h.
              (s : Service)
              → In s (services_of h)
              → IsWired h.dockerfile (build_service_names (services_of h)) s.0 s.1)
            (sym same)
            (services_errors_none t.dockerfile (build_service_names (services_of t)) (services_of t)
              (rw kept_t at first))
    ]

-- When the lint of the content hashes exits with 0, every service of every stack that is not left out, as its
-- compose files together define it, names the stack's hash in its label. If it is built, it passes its own
-- variable to the build, by a Dockerfile that uses it or does not exist. And for each service of the stack that
-- is built and that it depends on, a label names that one's variable.
pub lint_hash-IsWired :
    (root : FilePath) (stacks : List HashStack) (composes : List (FilePath × Option Fields))
    → lint_hash root stacks composes ≡ 0
    → (stack : HashStack) → In stack stacks
    → is_left_out root stack.rel ≡ false
    → (s : Service) → In s (services_of stack)
    → IsWired stack.dockerfile (build_service_names (services_of stack)) s.0 s.1
unfolding lint_hash
lint_hash-IsWired root stacks composes e =
    stacks_hash_errors_none root stacks
      (append_nil (stacks_hash_errors root stacks) (orphans_errors root stacks composes)
        (none_of (stacks_hash_errors root stacks ++ orphans_errors root stacks composes) refl e)).0
  where
    clash : (n : ℕ) → n ≡ 1 → n ≡ 0 → ⊥
    clash n a e = omega (arith, a, e)

    none_of :
        (errors : List HashError)
        → stacks_hash_errors root stacks ++ orphans_errors root stacks composes ≡ errors
        → lint_hash root stacks composes ≡ 0
        → stacks_hash_errors root stacks ++ orphans_errors root stacks composes ≡ []
    none_of [] a e = a
    none_of (m ∷ ms) a e =
        absurd (clash (lint_hash root stacks composes) (rw (lint_hash, a) refl) e)
