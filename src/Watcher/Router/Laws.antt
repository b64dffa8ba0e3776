-- ===== src/Watcher/Router/Laws.antt =====
-- What the readings of the router's replies in llm/watcher/model_server.py promise.
use podhaus.Watcher.Data.{Slot}
use podhaus.Base.Text.{eq_iff}
use podhaus.Base.{
  ◌≡◌, some, true, Bool, arith, ℕ, Option, refl, none, false, if◌then◌else◌, String, ◌↔◌, ◌≢◌, ◌⊎◌,
  List, inr, inl, ap,
}
use podhaus.Base.Json.{Value, flag, text, dict, Items, cons, nil, array}
use podhaus.Watcher.Router.{
  Reply, request, answers, fails, item, gives, Outcome, is_named, faults, times_out, breaks,
  router_fault, Fault, other_fault, ◌>>=◌, last_named, as_key,
}
use podhaus.Watcher.Router.Commands.{
  command, says, server_unload_reply, is_true, or_missing, reports_of, server_slots, as_items,
  parse_slots,
}

-- The router says that it has carried out a command.
abbrev pub Succeeds : Reply → Type 0
Succeeds reply = (v : Value) × (reply ≡ answers v) × (item "success" v ≡ gives (flag true))

-- The router says that there is no model process to end.
abbrev pub NotRunning : Reply → Type 0
NotRunning reply =
    (body : Value) × (error : Value) × (reply ≡ fails 400 (some body))
    × (item "error" body ≡ gives error)
    × (item "message" error ≡ gives (text "model is not running"))

command-Succeeds : (reply : Reply) → command reply ≡ gives tt → Succeeds reply
unfolding command request is_true
command-Succeeds (answers v) e = go (item "success" v) refl
  where
    go : (x : Outcome Value) → item "success" v ≡ x → Succeeds (answers v)
    go (gives (flag true)) i = (v, refl, i)
    go (gives w) i = ground arith
    go (faults f) i = ground arith
command-Succeeds (fails status body) e = cc
command-Succeeds times_out e = cc
command-Succeeds breaks e = cc

says-NotRunning :
    (status : ℕ) (body : Option Value)
    → says status body 400 "model is not running" ≡ gives true
    → NotRunning (fails status body)
unfolding says or_missing is_named
says-NotRunning status none e = ground arith
says-NotRunning status (some body) e = go (item "error" body) refl
  where
    inner :
        (error : Value) (y : Outcome Value)
        → item "error" body ≡ gives error
        → item "message" error ≡ y
        → NotRunning (fails status (some body))
    inner error (gives (text s)) i j =
        (body, error, ground arith, i, ground (arith, eq_iff s "model is not running"))
    inner error (gives w) i j = ground arith
    inner error (faults f) i j = ground arith

    go : (x : Outcome Value) → item "error" body ≡ x → NotRunning (fails status (some body))
    go (gives error) i = inner error (item "message" error) i refl
    go (faults f) i = ground arith

item-fault : (key : String) (v : Value) (f : Fault) → item key v ≡ faults f → f ≡ other_fault
unfolding item
item-fault key (dict fs) f e = ground arith
item-fault key v f e = ground arith

gone_rule :
    (x : Outcome Bool) (f : Fault)
    → (x >>= λ gone. if gone then gives false else faults f) ≡ gives false
    → x ≡ gives true
gone_rule (gives true) f e = refl
gone_rule (gives false) f e = cc
gone_rule (faults g) f e = cc

-- The answer of a command that failed with an error status.
command_fault :
    (reply : Reply) (status : ℕ) (body : Option Value)
    → command reply ≡ faults (router_fault status body)
    → reply ≡ fails status body
unfolding command request item is_true
command_fault (answers v) status body e = go (item "success" v) refl
  where
    go : (x : Outcome Value) → item "success" v ≡ x → answers v ≡ fails status body
    go (gives w) i = ground arith
    go (faults f) i = ground (arith, item-fault "success" v f)
command_fault (fails s b) status body e = ground arith
command_fault times_out status body e = cc
command_fault breaks status body e = cc

unload_true : (reply : Reply) → server_unload_reply reply ≡ gives true → Succeeds reply
unfolding server_unload_reply
unload_true reply e = go (command reply) refl
  where
    go : (x : Outcome (Unit {0})) → command reply ≡ x → Succeeds reply
    go (gives u) c = command-Succeeds reply c
    go (faults f) c = ground arith

unload_false : (reply : Reply) → server_unload_reply reply ≡ gives false → NotRunning reply
unfolding server_unload_reply
unload_false reply e = go (command reply) refl
  where
    go : (x : Outcome (Unit {0})) → command reply ≡ x → NotRunning reply
    go (gives u) c = ground arith
    go (faults (router_fault status body)) c = rw (command_fault reply status body c) (
        says-NotRunning status body
          (gone_rule _ (router_fault status body) (rw (c, server_unload_reply) at e)))
    go (faults f) c = ground arith

-- `unload` returns True only if the router reports success, and False only if the router's own error
-- says that no model is running.
pub unload_answers :
    (reply : Reply) (done : Bool)
    → server_unload_reply reply ≡ gives done
    → if done then Succeeds reply else NotRunning reply
unload_answers reply true e = unload_true reply e
unload_answers reply false e = unload_false reply e

-- A report that the router gives is a list, and is never taken for no report.
reports_of-ne-none : (v : Value) → reports_of v ≢ gives none
unfolding reports_of
reports_of-ne-none v e = go (as_items v) refl
  where
    inner : (vs : Items) (y : Outcome (List Slot)) → as_items v ≡ gives vs → parse_slots vs ≡ y → ⊥
    inner vs (gives slots) i j = ground arith
    inner vs (faults f) i j = ground arith

    go : (x : Outcome Items) → as_items v ≡ x → ⊥
    go (gives vs) i = inner vs (parse_slots vs) i refl
    go (faults f) i = ground arith

-- There is no slot report exactly when the router does not answer in time or answers with an error
-- status.
pub slots_absent :
    (reply : Reply)
    → (server_slots reply ≡ gives none)
      ↔ ((reply ≡ times_out) ⊎ ((status : ℕ) × (body : Option Value) × (reply ≡ fails status body)))
unfolding server_slots request
slots_absent reply = (forward reply, backward)
  where
    forward :
        (reply : Reply)
        → server_slots reply ≡ gives none
        → (reply ≡ times_out) ⊎ ((status : ℕ) × (body : Option Value) × (reply ≡ fails status body))
    forward (answers v) e = absurd (reports_of-ne-none v e)
    forward (fails status body) e = inr (status, body, refl)
    forward times_out e = inl refl
    forward breaks e = cc

    backward :
        (reply ≡ times_out) ⊎ ((status : ℕ) × (body : Option Value) × (reply ≡ fails status body))
        → server_slots reply ≡ gives none
    backward (inl e) = rw e
    backward (inr (status, body, e)) = rw e

as_key_lem : (id key : Value) → as_key id ≡ gives key → key ≡ id
unfolding as_key
as_key_lem (array vs) key e = cc
as_key_lem id key e = cc

is_named_lem : (model : String) (v : Value) → is_named model v ≡ true → v ≡ text model
unfolding is_named
is_named_lem model (text s) e = ap text ((eq_iff s model).0 e)
is_named_lem model v e = cc

-- The entry of the listing that `last_named` finds is one whose id is the model's name.
pub last_named-id :
    (model : String) (vs : Items) (v : Value)
    → last_named model vs ≡ gives (some v)
    → item "id" v ≡ gives (text model)
unfolding last_named
last_named-id model nil v e = cc
last_named-id model (cons w ws) v e = at_id (item "id" w) refl (last_named-id model ws)
  where
    at_later :
        (id key : Value) (z : Outcome (Option Value))
        → item "id" w ≡ gives id
        → as_key id ≡ gives key
        → last_named model ws ≡ z
        → ((v : Value) → last_named model ws ≡ gives (some v) → item "id" v ≡ gives (text model))
        → item "id" v ≡ gives (text model)
    at_later id key (faults f) i k l ih = ground arith
    at_later id key (gives (some u)) i k l ih = ground (arith, ih u)
    at_later id key (gives none) i k l ih =
        ground (arith, as_key_lem id key, is_named_lem model key)

    at_key :
        (id : Value) (y : Outcome Value)
        → item "id" w ≡ gives id
        → as_key id ≡ y
        → ((v : Value) → last_named model ws ≡ gives (some v) → item "id" v ≡ gives (text model))
        → item "id" v ≡ gives (text model)
    at_key id (faults f) i k ih = ground arith
    at_key id (gives key) i k ih = at_later id key (last_named model ws) i k refl ih

    at_id :
        (x : Outcome Value)
        → item "id" w ≡ x
        → ((v : Value) → last_named model ws ≡ gives (some v) → item "id" v ≡ gives (text model))
        → item "id" v ≡ gives (text model)
    at_id (faults f) i ih = ground arith
    at_id (gives id) i ih = at_key id (as_key id) i refl ih
