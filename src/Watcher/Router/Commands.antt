-- ===== src/Watcher/Router/Commands.antt =====
-- The methods of `ModelServer` in llm/watcher/model_server.py.
use podhaus.Watcher.Data.{ModelStatus, Slot}
use podhaus.Base.Json.{Value, Items, array, flag, dict, nil, text, cons, end}
use podhaus.Watcher.Exec.{LoadReply, refused, accepted, broken}
use podhaus.Base.{
  Option, if◌then◌else◌, ℕ, Bool, String, some, List, ◌==◌, true, none, false, [], ◌∷◌,
}
use podhaus.Watcher.Router.{
  Reply, Outcome, gives, faults, router_fault, server_fault, timeout_fault, other_fault, ◌>>=◌,
  request, item, parse_status, parse_slot, last_named, is_named,
}

-- What a `for` goes through; the entries of a text or a dict are texts, which every reading refuses.
unfoldable pub as_items : Value → Outcome Items
as_items (array vs) = gives vs
as_items (dict end) = gives nil
as_items (text String.[]) = gives nil
as_items _ = faults other_fault

unfoldable pub or_missing : Option Value → Outcome Value
or_missing none = faults other_fault
or_missing (some v) = gives v

-- `ModelServer.status`
unfoldable pub server_status : String → Reply → Outcome ModelStatus
unfolding request item as_items last_named or_missing parse_status
server_status model reply = do
  listing ← request reply
  entries ← item "data" listing
  models ← as_items entries
  found ← last_named model models
  entry ← or_missing found
  status ← item "status" entry
  parse_status status

-- `ModelServer.slots`: `none` is no report
unfoldable pub parse_slots : Items → Outcome (List Slot)
unfolding parse_slot
parse_slots nil = gives []
parse_slots (cons v vs) = do s ← parse_slot v; rest ← parse_slots vs; gives (s ∷ rest)

unfoldable pub reports_of : Value → Outcome (Option (List Slot))
unfolding as_items parse_slots
reports_of v = do reports ← as_items v; slots ← parse_slots reports; gives (some slots)

unfoldable pub server_slots : Reply → Outcome (Option (List Slot))
unfolding request reports_of
server_slots reply = elim (request reply) [
  | gives v ↦ reports_of v
  | faults f ↦ elim f [
    | timeout_fault ↦ gives none
    | router_fault status body ↦ gives none
    | server_fault ↦ faults server_fault
    | other_fault ↦ faults other_fault
  ]
]

-- `_command`
unfoldable pub is_true : Value → Bool
is_true (flag true) = true
is_true _ = false

unfoldable pub command : Reply → Outcome (Unit {0})
unfolding request item is_true
command reply = do
  v ← request reply
  success ← item "success" v
  if is_true success then gives tt else faults server_fault

-- `RouterError.says`
unfoldable pub says : ℕ → Option Value → ℕ → String → Outcome Bool
unfolding item is_named or_missing
says status body expected message =
    if status == expected
    then (do
      reply ← or_missing body
      error ← item "error" reply
      said ← item "message" error
      gives (is_named message said))
    else gives false

-- `ModelServer.load`, as the watcher sees it; the text of a refusal is not modelled
unfoldable pub server_load_reply : Reply → LoadReply
unfolding command
server_load_reply reply = elim (command reply) [
  | gives _ ↦ accepted
  | faults f ↦ elim f [
    | router_fault status body ↦ refused "router error"
    | server_fault ↦ refused "unexpected answer"
    | timeout_fault ↦ broken
    | other_fault ↦ broken
  ]
]

-- `ModelServer.unload`
unfoldable pub server_unload_reply : Reply → Outcome Bool
unfolding command says
server_unload_reply reply = elim (command reply) [
  | gives _ ↦ gives true
  | faults f ↦ elim f [
    | router_fault status body ↦ (do
      gone ← says status body 400 "model is not running"
      if gone then gives false else faults (router_fault status body))
    | server_fault ↦ faults server_fault
    | timeout_fault ↦ faults timeout_fault
    | other_fault ↦ faults other_fault
  ]
]
