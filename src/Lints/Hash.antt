-- ===== src/Lints/Hash.antt =====
-- The checks of tools/lint-stack-content-hash.py.
use podhaus.Lints.Compose.{
  interpolates, env_safe, lookup, collect_from, depends_on_services, resolve_dockerfile,
  build_args_value, Service, label_value, hash_name, propagates,
}
pub mod Verdict
use podhaus.Base.{
  ℕ, Option, List, Bool, map, none, some, true, leb, false, [], ◌||◌, ◌∷◌, ◌&&◌, if◌then◌else◌, any,
  not, ◌==◌, ◌-◌, keep, ◌++◌,
}
use podhaus.Base.Codes.{
  Text, codes, text_eq, contains, search_in, after_prefix, lstrip, strip, is_space, is_digit,
  is_one_of, starts_with,
}
use podhaus.Base.Json.{Value, Fields, Items, dict, array, text, end, field, nil, cons, null}
use podhaus.Files.{FilePath, path_text, base_name, path_eq}
use podhaus.Lints.Env.{braces_at, search_lines}

abbrev pub label_key : Text
label_key = codes "podhaus.stack-content-hash"

abbrev pub depends_label_prefix : Text
depends_label_prefix = codes "podhaus.depends-on-"

abbrev pub skip_path_fragments : List Text
skip_path_fragments =
    codes "bandicoot/periphery"
    ∷ codes "bilby/periphery"
    ∷ codes "fractal/periphery"
    ∷ codes "kangaroo/periphery"
    ∷ codes "numbat/periphery"
    ∷ codes "quokka/periphery"
    ∷ codes "autoheal/quokka"
    ∷ codes "voltaire/periphery"
    ∷ []

-- `is_skipped`, on the absolute path
unfoldable pub skips_path : FilePath → Bool
unfolding contains path_text
skips_path path =
    contains (codes ".terraform") (path_text path)
    || contains (codes "node_modules") (path_text path)
    || any (λ part. contains part (path_text path)) skip_path_fragments

abbrev pub is_present : Option Value → Bool
is_present none = false
is_present (some null) = false
is_present (some _) = true

-- `svc.get("build") is not None`
unfoldable pub has_build : Fields → Bool
unfolding lookup
has_build svc = is_present (lookup (codes "build") svc)

-- `build_service_names`
unfoldable pub build_service_names : List Service → List Text
unfolding has_build
build_service_names services = map (λ s. s.0) (keep (λ s. has_build s.1) services)

abbrev pub refers : Text → Option Text → Bool
refers varname none = false
refers varname (some v) = interpolates varname v

-- `BUILD_HASH_<name>`
unfoldable pub build_variable : Text → Text
unfolding env_safe
build_variable name = codes "BUILD_HASH_" ++ env_safe name

-- What the lint reports, by the names of the service and of what it depends on.
pub data HashError : Type 0 where
  no_label no_build_arg no_propagation : Text → HashError
  no_depends_label : Text → Text → HashError
  orphan : FilePath → Text → HashError
  unparsed : FilePath → HashError

unfoldable pub has_hash_label : Fields → Bool
unfolding lookup label_value interpolates
has_hash_label svc = refers hash_name (label_value (lookup (codes "labels") svc) label_key)

unfoldable pub has_build_arg : Text → Value → Bool
unfolding build_args_value build_variable
has_build_arg name build = refers (build_variable name) (build_args_value build hash_name)

-- Check 2 on the file that builds the service, if it exists.
unfoldable pub passes_hash : (Text → Text → Option Text) → Value → Bool
unfolding resolve_dockerfile propagates
passes_hash dockerfile build = elim (resolve_dockerfile build) [
  | none ↦ true
  | some p ↦ elim (dockerfile p.0 p.1) [ none ↦ true | some t ↦ propagates t ]
]

unfoldable pub build_checks : (Text → Text → Option Text) → Text → Value → List HashError
unfolding has_build_arg passes_hash
build_checks dockerfile name build =
    (if has_build_arg name build then [] else no_build_arg name ∷ [])
    ++ (if passes_hash dockerfile build then [] else no_propagation name ∷ [])

-- Check 2, for a service that is built.
unfoldable pub build_errors : (Text → Text → Option Text) → Text → Option Value → List HashError
unfolding build_checks
build_errors dockerfile name none = []
build_errors dockerfile name (some build) =
    if is_present (some build) then build_checks dockerfile name build else []

unfoldable pub has_depends_label : Fields → Text → Bool
unfolding lookup label_value build_variable
has_depends_label svc dep =
    refers (build_variable dep)
      (label_value (lookup (codes "labels") svc) (depends_label_prefix ++ dep))

-- Check 3, for one dependency.
unfoldable pub lacks_depends_label : List Text → Fields → Text → Bool
unfolding has_depends_label is_one_of
lacks_depends_label builds svc dep = is_one_of dep builds && not (has_depends_label svc dep)

unfoldable pub service_errors :
    (Text → Text → Option Text) → List Text → Text → Fields → List HashError
unfolding has_hash_label build_errors lacks_depends_label depends_on_services lookup
service_errors dockerfile builds name svc =
    (if has_hash_label svc then [] else no_label name ∷ [])
    ++ (build_errors dockerfile name (lookup (codes "build") svc)
        ++ map (no_depends_label name) (
            keep (lacks_depends_label builds svc)
              (depends_on_services (lookup (codes "depends_on") svc))))

unfoldable pub services_errors :
    (Text → Text → Option Text) → List Text → List Service → List HashError
unfolding service_errors
services_errors dockerfile builds [] = []
services_errors dockerfile builds (s ∷ services) =
    service_errors dockerfile builds s.0 s.1 ++ services_errors dockerfile builds services

-- A stack: its compose files, and the texts of the files that build its services.
pub record HashStack : Type 0 where
  pub rel : FilePath
  pub composes : List (FilePath × Option Fields)
  pub dockerfile : Text → Text → Option Text

unfoldable pub is_left_out : FilePath → FilePath → Bool
unfolding skips_path is_one_of
is_left_out root rel = skips_path (root ++ rel) || is_one_of (codes "komodo-src") rel

unfoldable pub services_of : HashStack → List Service
unfolding collect_from
services_of stack = collect_from (map (λ c. c.1) stack.composes) []

-- The first loop of `main`.
unfoldable pub stacks_hash_errors : FilePath → List HashStack → List HashError
unfolding is_left_out services_errors services_of build_service_names
stacks_hash_errors root [] = []
stacks_hash_errors root (stack ∷ stacks) =
    (if is_left_out root stack.rel
      then []
      else services_errors stack.dockerfile (build_service_names (services_of stack))
          (services_of stack))
    ++ stacks_hash_errors root stacks

-- A compose file is of a stack that is looked at.
unfoldable pub is_seen : FilePath → List HashStack → FilePath → Bool
unfolding is_left_out path_eq
is_seen root stacks path =
    any (λ stack. not (is_left_out root stack.rel) && any (λ c. path_eq c.0 path) stack.composes)
      stacks

unfoldable pub is_passed : FilePath → List HashStack → FilePath → Bool
unfolding skips_path is_seen starts_with text_eq base_name
is_passed root stacks path =
    skips_path (root ++ path)
    || is_seen root stacks path
    || any (starts_with (codes ".")) path
    || text_eq (base_name path) (codes "compose.shared.yaml")

unfoldable pub orphan_services : FilePath → Fields → List HashError
unfolding has_hash_label
orphan_services path end = []
orphan_services path (field name (dict svc) fs) =
    (if has_hash_label svc then [] else orphan path (codes name) ∷ []) ++ orphan_services path fs
orphan_services path (field name v fs) = orphan_services path fs

unfoldable pub orphan_errors : FilePath → Option Fields → List HashError
unfolding lookup orphan_services
orphan_errors path none = unparsed path ∷ []
orphan_errors path (some doc) = elim (lookup (codes "services") doc) [
  | some (dict services) ↦ orphan_services path services
  | _ ↦ []
]

-- The second loop of `main`, over all compose files.
unfoldable pub orphans_errors :
    FilePath → List HashStack → List (FilePath × Option Fields) → List HashError
unfolding is_passed orphan_errors
orphans_errors root stacks [] = []
orphans_errors root stacks (c ∷ composes) =
    (if is_passed root stacks c.0 then [] else orphan_errors c.0 c.1)
    ++ orphans_errors root stacks composes

-- `main`: the exit code
unfoldable pub lint_hash : FilePath → List HashStack → List (FilePath × Option Fields) → ℕ
unfolding stacks_hash_errors orphans_errors
lint_hash root stacks composes =
    elim (stacks_hash_errors root stacks ++ orphans_errors root stacks composes) [
      | [] ↦ 0
      | _ ∷ _ ↦ 1
    ]
