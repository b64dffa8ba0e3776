-- ===== src/Notify/Context.antt =====
-- `RouteContext` of pomerium/ssh-auth-notify/main.py, and the line of Pomerium's log that fills it. An
-- instant is a whole number of milliseconds.
use podhaus.Base.Codes.{text_eq, Text, codes}
use podhaus.Base.Text.{str_eq}
use podhaus.Base.Json.{get, truth, Value, dict, text, array}
use podhaus.Base.{
  ℕ, Bool, String, Option, List, none, some, ◌∷◌, if◌then◌else◌, ltb, [], false, ◌+◌,
}

abbrev pub context_ttl_ms : ℕ
context_ttl_ms = 600000

abbrev pub route_log_message : String
route_log_message = "ssh keyboard-interactive auth request"

-- `line.get(...)` of a log line: any value, or none
pub record RouteEntry : Type 0 where
  pub username : Option Value
  pub hostname : Option Value
  pub at : ℕ

-- The dictionary, with the newest entry for a key first.
abbrev pub Context : Type 0
Context = List (Text × RouteEntry)

-- `put`
unfoldable pub put : Text → Option Value → Option Value → ℕ → Context → Context
put fingerprint username hostname now context =
    (fingerprint, record { username = username; hostname = hostname; at = now }) ∷ context

unfoldable pub entry_of : Text → Context → Option RouteEntry
unfolding text_eq
entry_of fingerprint [] = none
entry_of fingerprint ((f, e) ∷ context) =
    if text_eq f fingerprint then some e else entry_of fingerprint context

unfoldable pub if_fresh : ℕ → Option RouteEntry → Option RouteEntry
if_fresh now none = none
if_fresh now (some e) = if ltb now (e.at + context_ttl_ms) then some e else none

-- `get`, at an instant that is not before the entry's
unfoldable pub get_route : Text → ℕ → Context → Option RouteEntry
unfolding entry_of if_fresh
get_route fingerprint now context = if_fresh now (entry_of fingerprint context)

-- How one line of the log leaves the follower: a fingerprint that no dictionary takes ends it.
pub data Followed : Type 0 where
  follows : Context → Followed
  unhashable : Followed

-- A key that is no text is never looked up, so the entry that it gets is left out.
unfoldable pub put_value : Option Value → Option Value → Option Value → ℕ → Context → Followed
unfolding put truth
put_value none username hostname now context = follows context
put_value (some (text s)) username hostname now context =
    if truth (text s)
    then follows (put (codes s) username hostname now context)
    else follows context
put_value (some (array vs)) username hostname now context =
    if truth (array vs) then unhashable else follows context
put_value (some (dict fs)) username hostname now context =
    if truth (dict fs) then unhashable else follows context
put_value (some v) username hostname now context = follows context

is_message : Option Value → Bool
is_message (some (text s)) = str_eq s route_log_message
is_message _ = false

-- The body of the loop of `follow_pomerium_logs`, on what `parse_log_line` gives; a line that is no
-- object, other than none, has no `get`.
unfoldable pub follow_line : Option Value → ℕ → Context → Followed
unfolding get put_value is_message
follow_line none now context = follows context
follow_line (some (dict fs)) now context =
    if is_message (get "message" fs)
    then put_value (get "publickey-fingerprint" fs) (get "username" fs) (get "hostname" fs) now
        context
    else follows context
follow_line (some v) now context = unhashable
