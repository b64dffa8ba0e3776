-- ===== src/Lints/Compose.antt =====
-- What tools/lint-stack-content-hash.py reads of a compose document and of a Dockerfile. A value of a kind on
-- which the code would raise (a context that is no text) is left out.
use podhaus.Base.{
  ℕ, Option, List, Bool, map, none, some, true, leb, false, [], ◌||◌, ◌∷◌, ◌&&◌, if◌then◌else◌, not,
  ◌==◌, ◌-◌,
}
use podhaus.Base.Codes.{
  Text, codes, text_eq, search_in, after_prefix, lstrip, strip, is_space, is_digit,
}
use podhaus.Base.Json.{Value, Fields, Items, dict, array, text, end, field, nil, cons}
use podhaus.Lints.Env.{braces_at, search_lines}

abbrev pub hash_name : Text
hash_name = codes "STACK_CONTENT_HASH"

-- `_interp_re(varname).search(value)`
unfoldable pub interpolates : Text → Text → Bool
unfolding search_in braces_at
interpolates varname value = search_in (braces_at varname) value

-- `svc.upper()` and the substitution, on one letter
abbrev pub safe_code : ℕ → ℕ
safe_code c =
    if leb b'a' c && leb c b'z'
    then c - 32
    else if (leb b'A' c && leb c b'Z') || is_digit c
    then c
    else b'_'

-- `env_safe`
unfoldable pub env_safe : Text → Text
env_safe svc = map safe_code svc

-- `d.get(key)`
unfoldable pub lookup : Text → Fields → Option Value
unfolding text_eq
lookup key end = none
lookup key (field k v fs) = if text_eq (codes k) key then some v else lookup key fs

abbrev pub text_of : Option Value → Option Text
text_of (some (text s)) = some (codes s)
text_of _ = none

-- `item.partition("=")`, if there is an equals sign
unfoldable pub partition_at : Text → Option (Text × Text)
partition_at [] = none
partition_at (c ∷ cs) =
    let rest = partition_at cs in
    if c == b'=' then some ([], cs) else elim rest [ none ↦ none | some p ↦ some (c ∷ p.0, p.1) ]

abbrev pub part_of : Value → Option (Text × Text)
part_of (text s) = partition_at (codes s)
part_of _ = none

-- The first item of the list for the key.
unfoldable pub item_value : Items → Text → Option Text
unfolding partition_at strip text_eq
item_value nil key = none
item_value (cons v items) key = elim (part_of v) [
  | none ↦ item_value items key
  | some p ↦ if text_eq (strip p.0) key then some p.1 else item_value items key
]

-- `label_value`
unfoldable pub label_value : Option Value → Text → Option Text
unfolding lookup item_value
label_value (some (dict fs)) key = text_of (lookup key fs)
label_value (some (array items)) key = item_value items key
label_value _ key = none

-- `build_args_value`
unfoldable pub build_args_value : Value → Text → Option Text
unfolding lookup label_value
build_args_value (dict fs) arg_name = label_value (lookup (codes "args") fs) arg_name
build_args_value _ arg_name = none

abbrev pub text_or : Text → Option Value → Text
text_or default (some (text s)) = codes s
text_or default _ = default

-- `resolve_dockerfile`: the context, and the name of the file in it
unfoldable pub resolve_dockerfile : Value → Option (Text × Text)
unfolding lookup
resolve_dockerfile (text s) = some (codes s, codes "Dockerfile")
resolve_dockerfile (dict fs) = some (
  text_or (codes ".") (lookup (codes "context") fs),
  text_or (codes "Dockerfile") (lookup (codes "dockerfile") fs),
)
resolve_dockerfile _ = none

abbrev pub ends_name : Text → Bool
ends_name [] = true
ends_name (c ∷ _) = c == b'=' || is_space c

-- `^\s*ARG\s+STACK_CONTENT_HASH(?:=|\s|$)`, at the front
unfoldable pub arg_at : Text → Bool
unfolding after_prefix
arg_at cs = elim (after_prefix (codes "ARG") (lstrip cs)) [
  | some (c ∷ rest) ↦
      is_space c
      && elim (after_prefix hash_name (lstrip rest)) [ none ↦ false | some after ↦ ends_name after ]
  | _ ↦ false
]

abbrev pub is_word : ℕ → Bool
is_word c = (leb b'a' c && leb c b'z') || (leb b'A' c && leb c b'Z') || is_digit c || c == b'_'

abbrev pub ends_word : Text → Bool
ends_word [] = true
ends_word (c ∷ _) = not (is_word c)

abbrev pub skip_brace : Text → Text
skip_brace [] = []
skip_brace (c ∷ cs) = if c == b'{' then cs else c ∷ cs

-- `\$\{?STACK_CONTENT_HASH(?:[}:?\-+]|\b)`, at the front: each of the signs ends the word
unfoldable pub use_at : Text → Bool
unfolding after_prefix
use_at [] = false
use_at (c ∷ cs) =
    c == b'$'
    && elim (after_prefix hash_name (skip_brace cs)) [ none ↦ false | some after ↦ ends_word after ]

-- `dockerfile_has_arg_propagation`, on the text of the file
unfoldable pub propagates : Text → Bool
unfolding search_lines search_in arg_at use_at
propagates t = search_lines arg_at t && search_in use_at t

unfoldable pub keys_of_fields : Fields → List Text
keys_of_fields end = []
keys_of_fields (field k v fs) = codes k ∷ keys_of_fields fs

unfoldable pub texts_of_items : Items → List Text
texts_of_items nil = []
texts_of_items (cons (text s) items) = codes s ∷ texts_of_items items
texts_of_items (cons v items) = texts_of_items items

-- `depends_on_services`
unfoldable pub depends_on_services : Option Value → List Text
unfolding keys_of_fields texts_of_items
depends_on_services (some (array items)) = texts_of_items items
depends_on_services (some (dict fs)) = keys_of_fields fs
depends_on_services _ = []

-- A service with its name.
abbrev pub Service : Type 0
Service = Text × Fields

-- `{**old, **new}`: an entry of the new one counts first
unfoldable pub overlay : Fields → Fields → Fields
overlay end old = old
overlay (field k v fs) old = field k v (overlay fs old)

unfoldable pub merge_service : Text → Fields → List Service → List Service
unfolding text_eq overlay
merge_service name svc [] = (name, svc) ∷ []
merge_service name svc ((n, old) ∷ merged) =
    if text_eq n name
    then (n, overlay svc old) ∷ merged
    else (n, old) ∷ merge_service name svc merged

unfoldable pub merge_services : Fields → List Service → List Service
unfolding merge_service
merge_services end merged = merged
merge_services (field name (dict svc) fs) merged =
    merge_services fs (merge_service (codes name) svc merged)
merge_services (field name v fs) merged = merge_services fs merged

-- `collect_services`: a document that is no YAML is none
unfoldable pub collect_from : List (Option Fields) → List Service → List Service
unfolding lookup merge_services
collect_from [] merged = merged
collect_from (none ∷ docs) merged = collect_from docs merged
collect_from (some doc ∷ docs) merged = collect_from docs (elim (lookup (codes "services") doc) [
  | some (dict services) ↦ merge_services services merged
  | _ ↦ merged
])
