-- ===== src/Lints/Tests.antt =====
-- One stack with two keys, and the theorems about the lints on it.
use podhaus.Lints.Hash.Verdict.{IsWired, lint_hash-IsWired}
use podhaus.Lints.Compose.{lookup}
use podhaus.Lints.Hash.{
  HashStack, services_of, lint_hash, build_errors, is_left_out, no_build_arg, build_service_names,
}
use podhaus.Lints.Env.Verdict.{AreServed, lint_env_iff}
use podhaus.Lints.Toml.Verdict.{AreAllowed, lint_toml_iff}
use podhaus.Lints.Toml.{lint_toml}
use podhaus.Lints.{StackFile, Stack}
use podhaus.Base.{Option, some, ◌∷◌, [], none, ◌≡◌, ◌↔◌, refl, here}
use podhaus.Lints.Env.{lint_env, env_errors, unreferenced}
use podhaus.Base.Json.{Value, Fields, field, cons, nil, end, text, array, dict}
use podhaus.Lints.Compose.{interpolates}
use podhaus.Base.Codes.{Text, codes}
use podhaus.Files.{FilePath}

abbrev stack : Stack
stack = record {
  tags = some (codes "podhaus" ∷ []);
  deploy = none;
  environment = some (codes "TOKEN=[[T]]\n# x\nPORT = 1\n");
  repo = none;
  file_paths = none;
}

abbrev stack_file : StackFile
stack_file = record { rel = codes "gatus" ∷ codes "stack.toml" ∷ []; stacks = stack ∷ [] }

abbrev compose : FilePath → Text → Option Text
compose rel path = some (codes "environment:\n  A: ${TOKEN:-x}\n  - PORT \n")

abbrev bare : FilePath → Text → Option Text
bare rel path = some (codes "environment:\n  A: ${TOKENS}\n  - PORT \n")

passes : lint_env compose (stack_file ∷ []) ≡ 0
unfolding lint_env
passes = refl

refuses : env_errors bare (stack_file ∷ []) ≡ unreferenced stack_file.rel (codes "TOKEN") ∷ []
unfolding env_errors
refuses = refl

lint_env_iff_example :
    (lint_env compose (stack_file ∷ []) ≡ 0) ↔ AreServed compose (stack_file ∷ [])
lint_env_iff_example = lint_env_iff compose (stack_file ∷ [])

lint_toml_iff_example :
    (lint_toml (codes "repo" ∷ []) (stack_file ∷ []) ≡ 0)
    ↔ AreAllowed (codes "repo" ∷ []) (stack_file ∷ [])
lint_toml_iff_example = lint_toml_iff (codes "repo" ∷ []) (stack_file ∷ [])

abbrev labels : Value
labels = array (
    cons (text "podhaus.stack-content-hash=${STACK_CONTENT_HASH:-unset}")
      (cons (text "podhaus.depends-on-init=${BUILD_HASH_INIT}") nil))

abbrev web : Fields
web = field "labels" labels (field "depends_on" (array (cons (text "init") nil)) end)

abbrev init : Fields
init = field "labels" labels (
    field "build"
      (dict
        (field "args" (dict (field "STACK_CONTENT_HASH" (text "${BUILD_HASH_INIT-x}") end)) end))
      end)

abbrev services : Fields
services = field "web" (dict web) (field "init" (dict init) end)

abbrev hash_stack : HashStack
hash_stack = record {
  rel = codes "web" ∷ codes "stack.toml" ∷ [];
  composes =
      (codes "web" ∷ codes "compose.yaml" ∷ [], some (field "services" (dict services) end)) ∷ [];
  dockerfile =
      λ context name. some (codes "FROM x\nARG STACK_CONTENT_HASH\nENV H=$STACK_CONTENT_HASH\n");
}

wired : lint_hash (codes "repo" ∷ []) (hash_stack ∷ []) hash_stack.composes ≡ 0
unfolding lint_hash
wired = refl

-- A build that is given another variable is refused.
unwired :
    build_errors hash_stack.dockerfile (codes "web") (lookup (codes "build") init)
    ≡ no_build_arg (codes "web") ∷ []
unfolding build_errors lookup interpolates
unwired = refl

lint_hash-IsWired_example :
    IsWired hash_stack.dockerfile (build_service_names (services_of hash_stack)) (codes "web") web
unfolding services_of is_left_out
lint_hash-IsWired_example =
    lint_hash-IsWired (codes "repo" ∷ []) (hash_stack ∷ []) hash_stack.composes wired hash_stack
      here refl (codes "web", web) here
