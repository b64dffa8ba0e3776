-- ===== src/Watcher/Router.antt =====
-- llm/watcher/model_server.py: the requests to the router of llama.cpp and the readings of its
-- replies. The reply to a request is an argument: what `urlopen` and `json.load` give or raise.
pub mod Commands
pub mod Laws
use podhaus.Base.Text.{str_eq}
use podhaus.Watcher.Data.{ModelStatus, Slot, ModelState, unloaded, loading, loaded}
use podhaus.Base.{
  ℕ, String, Bool, Option, none, List, if◌then◌else◌, some, ℤ, true, false, ◌==◌, [], is_some, pos,
  ◌∷◌,
}
use podhaus.Watcher.Exec.{refused, LoadReply, accepted, broken}
use podhaus.Base.Json.{get, Items, Value, num, truth, dict, text, array, flag, cons, nil, end}

-- How one request ends.
pub data Reply : Type 0 where
  answers : Value → Reply
  -- an error status, with the body decoded as JSON if it is JSON
  fails : (status : ℕ) (body : Option Value) → Reply
  times_out : Reply
  -- any other failure of the connection, or a body that is not JSON
  breaks : Reply

-- What a call raises.
pub data Fault : Type 0 where
  router_fault : (status : ℕ) (body : Option Value) → Fault
  server_fault : Fault
  timeout_fault : Fault
  other_fault : Fault

pub data Outcome {ℓ} (A : Type ℓ) : Type ℓ where
  gives : A → Outcome A
  faults : Fault → Outcome A

infixl 5 ◌>>=◌
abbrev pub ◌>>=◌ {ℓ κ} : {A : Type ℓ} {B : Type κ} → Outcome A → (A → Outcome B) → Outcome B
gives a >>= f = f a
faults e >>= f = faults e

-- `_request`
unfoldable pub request : Reply → Outcome Value
request (answers v) = gives v
request (fails status body) = faults (router_fault status body)
request times_out = faults timeout_fault
request breaks = faults other_fault

-- `v[key]` on a decoded reply: a missing key or a value that is no dict raises.
unfoldable pub item : String → Value → Outcome Value
unfolding get
item key (dict fs) = elim (get key fs) [ some v ↦ gives v | none ↦ faults other_fault ]
item key _ = faults other_fault

-- The types that the readings of a reply have. Python stores a value of another type as it is; the
-- router sends none.
as_count : Value → Outcome ℕ
as_count (num (pos n)) = gives n
as_count _ = faults other_fault

as_flag : Value → Outcome Bool
as_flag (flag b) = gives b
as_flag _ = faults other_fault

as_code : Value → Outcome ℤ
as_code (num z) = gives z
as_code _ = faults other_fault

has : String → Value → Bool
unfolding get
has key (dict fs) = is_some (get key fs)
has key _ = false

-- `ModelState(value)`
unfoldable pub state_named : Value → Outcome ModelState
state_named (text s) =
    if str_eq s "unloaded"
    then gives unloaded
    else if str_eq s "loading"
    then gives loading
    else if str_eq s "loaded"
    then gives loaded
    else faults other_fault
state_named _ = faults other_fault

-- `status.get("failed")`, as a test
has_failed : Value → Outcome Bool
unfolding get truth
has_failed (dict fs) = gives (elim (get "failed" fs) [ some v ↦ truth v | none ↦ false ])
has_failed _ = faults other_fault

exit_code_of : Bool → Value → Outcome (Option ℤ)
unfolding item as_code
exit_code_of true v = do field ← item "exit_code" v; code ← as_code field; gives (some code)
exit_code_of false v = gives none

-- `ModelStatus.parse`
unfoldable pub parse_status : Value → Outcome ModelStatus
unfolding item state_named has_failed exit_code_of
parse_status v = do
  value ← item "value" v
  state ← state_named value
  failed ← has_failed v
  code ← exit_code_of failed v
  gives (record { state = state; exit_code = code })

tokens_of : Value → Outcome ℕ
unfolding item as_count has
tokens_of v = if has "id_task" v then (do n ← item "n_prompt_tokens" v; as_count n) else gives 0

-- `Slot.parse`
unfoldable pub parse_slot : Value → Outcome Slot
unfolding item as_count as_flag tokens_of
parse_slot v = do
  tokens ← tokens_of v
  id ← item "id" v
  number ← as_count id
  processing ← item "is_processing" v
  busy ← as_flag processing
  gives (record { id = number; tokens = tokens; busy = busy })

unfoldable pub is_named : String → Value → Bool
is_named model (text s) = str_eq s model
is_named model _ = false

-- A key of a dict; a list or a dict is none.
unfoldable pub as_key : Value → Outcome Value
as_key (array _) = faults other_fault
as_key (dict _) = faults other_fault
as_key v = gives v

-- The entry of the last model with this name: a dict comprehension keeps the last value of a key.
-- Every entry must have an id.
unfoldable pub last_named : String → Items → Outcome (Option Value)
unfolding item is_named as_key
last_named model nil = gives none
last_named model (cons v vs) = do
  id ← item "id" v
  key ← as_key id
  later ← last_named model vs
  gives (elim later [ some w ↦ some w | none ↦ if is_named model key then some v else none ])
