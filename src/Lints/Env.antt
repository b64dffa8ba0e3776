-- ===== src/Lints/Env.antt =====
-- tools/lint-stack-env.py. Digits, letters and spaces are the ASCII ones.
use podhaus.Base.{
  Bool, ℕ, List, Option, leb, false, none, true, map, [], ◌++◌, ◌∷◌, if◌then◌else◌, ◌||◌, some,
  keep, ◌==◌, ◌&&◌, not,
}
pub mod Referenced
pub mod Forms
pub mod Verdict
use podhaus.Base.Codes.{
  Text, codes, strip, lstrip, split_lines, join_lines, search_in, after_prefix, starts_with,
  is_space, is_digit, is_one_of,
}
use podhaus.Lints.{Stack, StackFile, has_repo, Bool, Option, List}
use podhaus.Files.{FilePath}

abbrev pub is_capital : ℕ → Bool
is_capital c = (leb b'A' c && leb c b'Z') || c == b'_'

-- `[A-Z0-9_]*` and what is behind it
unfoldable pub span_name : Text → Text × Text
span_name [] = ([], [])
span_name (c ∷ cs) =
    let (name, rest) = span_name cs in
    if is_capital c || is_digit c then (c ∷ name, rest) else ([], c ∷ cs)

abbrev pub is_assigned : Text → Bool
is_assigned [] = false
is_assigned (c ∷ _) = c == b'='

-- `ENV_KEY_RE.match`, and its first group
unfoldable pub env_key : Text → Option Text
unfolding span_name
env_key [] = none
env_key (c ∷ cs) =
    let (name, rest) = span_name cs in
    if is_capital c && is_assigned (lstrip rest) then some (c ∷ name) else none

abbrev pub if_key : Option Text → List Text → List Text
if_key none keys = keys
if_key (some key) keys = key ∷ keys

abbrev pub is_comment : Text → Bool
is_comment [] = true
is_comment (c ∷ _) = c == b'#'

unfoldable pub keys_of : List Text → List Text
unfolding env_key strip
keys_of [] = []
keys_of (line ∷ lines) =
    let keys = keys_of lines in
    if is_comment (strip line) then keys else if_key (env_key (strip line)) keys

-- `parse_env_keys`
unfoldable pub parse_env_keys : Text → List Text
unfolding keys_of split_lines
parse_env_keys env_block = keys_of (split_lines env_block)

-- `[:?\-+}]|\}`
abbrev pub closes : Text → Bool
closes [] = false
closes (c ∷ _) = c == b':' || c == b'?' || c == b'-' || c == b'+' || c == b'}'

-- `${KEY` and one of the signs that may follow, at the front
unfoldable pub braces_at : Text → Text → Bool
unfolding after_prefix
braces_at key cs = elim (after_prefix (codes "${" ++ key) cs) [
  | none ↦ false
  | some rest ↦ closes rest
]

-- `\s*$` with MULTILINE, at the front
unfoldable pub ends_line : Text → Bool
ends_line [] = true
ends_line (c ∷ cs) = c == 10 || (is_space c && ends_line cs)

-- `re.search` of a pattern that begins with `^`, with MULTILINE
unfoldable pub search_behind : (Text → Bool) → Text → Bool
search_behind at [] = false
search_behind at (c ∷ cs) = (c == 10 && at cs) || search_behind at cs

unfoldable pub search_lines : (Text → Bool) → Text → Bool
unfolding search_behind
search_lines at cs = at cs || search_behind at cs

unfoldable pub key_line : Text → Text → Bool
unfolding after_prefix ends_line
key_line key cs = elim (after_prefix key (lstrip cs)) [ none ↦ false | some rest ↦ ends_line rest ]

-- `^\s*environment:\s*KEY\s*$`
unfoldable pub single_form : Text → Text → Bool
unfolding after_prefix key_line
single_form key cs = elim (after_prefix (codes "environment:") (lstrip cs)) [
  | none ↦ false
  | some rest ↦ key_line key rest
]

-- `^\s*-\s+KEY\s*$`
unfoldable pub list_form : Text → Text → Bool
unfolding after_prefix key_line
list_form key cs = elim (after_prefix (codes "-") (lstrip cs)) [
  | some (c ∷ rest) ↦ is_space c && key_line key rest
  | _ ↦ false
]

-- `key_referenced`
unfoldable pub key_referenced : Text → Text → Bool
unfolding search_in search_lines braces_at single_form list_form
key_referenced key content =
    search_in (braces_at key) content
    || (search_lines (single_form key) content || search_lines (list_form key) content)

-- What the lint reports.
pub data Mismatch : Type 0 where
  unresolved : FilePath → Mismatch
  unreferenced : FilePath → Text → Mismatch

-- `resolve_compose_files`, as the texts of those that exist
unfoldable pub resolve_compose_files : (Text → Option Text) → List Text → List Text
resolve_compose_files read [] = []
resolve_compose_files read (path ∷ paths) = elim (read path) [
  | none ↦ resolve_compose_files read paths
  | some t ↦ t ∷ resolve_compose_files read paths
]

unfoldable pub missing_keys : FilePath → Text → List Text → List Mismatch
unfolding key_referenced
missing_keys rel content keys =
    map (unreferenced rel) (keep (λ key. not (key_referenced key content)) keys)

abbrev pub text_or_empty : Option Text → Text
text_or_empty none = []
text_or_empty (some t) = t

abbrev pub paths_or_default : Option (List Text) → List Text
paths_or_default none = codes "compose.yaml" ∷ []
paths_or_default (some paths) = paths

-- The keys that a stack's environment declares, unless its files are another repository's.
unfoldable pub declared_keys : Stack → List Text
unfolding parse_env_keys strip
declared_keys s = if has_repo s then [] else parse_env_keys (strip (text_or_empty s.environment))

-- The turn of the loop for one stack.
unfoldable pub stack_errors : FilePath → (Text → Option Text) → Stack → List Mismatch
unfolding declared_keys resolve_compose_files missing_keys join_lines
stack_errors rel read s = elim (declared_keys s) [
  | [] ↦ []
  | key ∷ keys ↦ elim (resolve_compose_files read (paths_or_default s.file_paths)) [
    | [] ↦ unresolved rel ∷ []
    | t ∷ ts ↦ missing_keys rel (join_lines (t ∷ ts)) (key ∷ keys)
  ]
]

abbrev pub head_of : FilePath → Text
head_of [] = []
head_of (a ∷ _) = a

-- The paths that the loop passes over.
unfoldable pub is_passed_over : FilePath → Bool
unfolding is_one_of
is_passed_over rel =
    is_one_of (head_of rel) (codes "docs" ∷ codes ".git" ∷ codes "node_modules" ∷ [])
    || is_one_of (codes "komodo-src") rel

unfoldable pub stacks_errors : FilePath → (Text → Option Text) → List Stack → List Mismatch
unfolding stack_errors
stacks_errors rel read [] = []
stacks_errors rel read (s ∷ stacks) = stack_errors rel read s ++ stacks_errors rel read stacks

-- The loop of `main` over the files, each with the compose files beside it.
unfoldable pub env_errors : (FilePath → Text → Option Text) → List StackFile → List Mismatch
unfolding is_passed_over stacks_errors
env_errors read [] = []
env_errors read (f ∷ files) =
    (if is_passed_over f.rel then [] else stacks_errors f.rel (read f.rel) f.stacks)
    ++ env_errors read files

-- `main`: the exit code
unfoldable pub lint_env : (FilePath → Text → Option Text) → List StackFile → ℕ
unfolding env_errors
lint_env read files = elim (env_errors read files) [ [] ↦ 0 | _ ∷ _ ↦ 1 ]
