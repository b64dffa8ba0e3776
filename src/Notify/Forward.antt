-- ===== src/Notify/Forward.antt =====
-- `EventForwarder` of pomerium/ssh-auth-notify/main.py. A post is what `requests.post` is called with;
-- how the call ends changes nothing but the log.
use podhaus.Base.Text.{str_eq}
use podhaus.Base.Codes.{text_eq, Text, after_prefix, codes}
use podhaus.Base.Json.{Value}
use podhaus.Notify.Context.{Context, get_route, RouteEntry}
use podhaus.Base.{
  ℕ, Bool, true, String, List, ltb, Option, ◌==◌, false, none, suc, some, ◌+◌, zero, if◌then◌else◌,
  not, ◌∷◌, ◌++◌, [], is_some, ◌&&◌,
}

-- The states with a name, and the number of any other.
pub data BindingState : Type 0 where
  in_flight accepted revoked : BindingState
  numbered : ℕ → BindingState

unfoldable pub state_eq : BindingState → BindingState → Bool
state_eq in_flight in_flight = true
state_eq accepted accepted = true
state_eq revoked revoked = true
state_eq (numbered n) (numbered m) = n == m
state_eq _ _ = false

pub record Binding : Type 0 where
  pub protocol : String
  pub key : Text
  pub state : BindingState
  pub expires_at : ℕ
  pub source_address : Option Text

-- A record of the databroker; its data may be something else.
pub record BindingRecord : Type 0 where
  pub id : Text
  pub binding : Option Binding
  pub is_deleted : Bool

pub record Owner : Type 0 where
  pub machine : String
  pub user : String

pub record Config : Type 0 where
  pub authenticate_url : Text
  pub default_user : String
  pub owners : List (Text × Owner)

pub record Post : Type 0 where
  pub user : String
  pub state : BindingState
  pub user_code : Text
  pub url : Text
  pub fingerprint : Text
  pub machine : Option String
  pub source_address : Option Text
  pub route : Option Value
  pub username : Option Value
  pub expires_at : ℕ

-- `_seen_states`, and the posts so far, newest first
pub record Forwarder : Type 0 where
  pub seen : List (Text × BindingState)
  pub posts : List Post

-- A record as it arrives: the wall clock, and the context and the clock at each attempt to join.
pub record Arrival : Type 0 where
  pub source : BindingRecord
  pub now : ℕ
  pub attempts : ℕ → Context × ℕ

abbrev pub join_attempts : ℕ
join_attempts = 20

-- `wait_for_route`, from the attempt `i` on
unfoldable pub wait_for_route : ℕ → ℕ → Text → (ℕ → Context × ℕ) → Option RouteEntry
unfolding get_route
wait_for_route zero i fingerprint attempts = none
wait_for_route (suc n) i fingerprint attempts =
    elim (get_route fingerprint (attempts i).1 (attempts i).0) [
      | some e ↦ some e
      | none ↦ wait_for_route n (i + 1) fingerprint attempts
    ]

unfoldable pub seen_state : Text → List (Text × BindingState) → Option BindingState
unfolding text_eq
seen_state id [] = none
seen_state id ((i, s) ∷ seen) = if text_eq i id then some s else seen_state id seen

-- `_seen_states.pop(id, None)`
unfoldable pub forget : Text → List (Text × BindingState) → List (Text × BindingState)
unfolding text_eq
forget id [] = []
forget id ((i, s) ∷ seen) = if text_eq i id then forget id seen else (i, s) ∷ forget id seen

unfoldable pub owner_of : Text → List (Text × Owner) → Option Owner
unfolding text_eq
owner_of fingerprint [] = none
owner_of fingerprint ((f, o) ∷ owners) =
    if text_eq f fingerprint then some o else owner_of fingerprint owners

-- `s.removeprefix(prefix)`
unfoldable pub remove_prefix : Text → Text → Text
unfolding after_prefix
remove_prefix prefix s = elim (after_prefix prefix s) [ none ↦ s | some rest ↦ rest ]

-- `is_stale`
unfoldable pub is_stale : Binding → ℕ → Bool
is_stale binding now = ltb binding.expires_at now

unfoldable pub fingerprint_of : Binding → Text
unfolding remove_prefix
fingerprint_of binding = codes "SHA256:" ++ remove_prefix (codes "sshkey-SHA256:") binding.key

abbrev pub is_in_flight : BindingState → Bool
is_in_flight s = state_eq s in_flight

-- The payload of `forward`, once the owner and the route are known.
unfoldable pub post_of : Config → Text → Binding → Option Owner → Option RouteEntry → Post
unfolding fingerprint_of
post_of config user_code binding owner route = record {
  user = elim owner [ none ↦ config.default_user | some o ↦ o.user ];
  state = binding.state;
  user_code = user_code;
  url = config.authenticate_url ++ (codes "/.pomerium/sign_in?user_code=" ++ user_code);
  fingerprint = fingerprint_of binding;
  machine = elim owner [ none ↦ none | some o ↦ some o.machine ];
  source_address = binding.source_address;
  route = elim route [ none ↦ none | some r ↦ r.hostname ];
  username = elim route [ none ↦ none | some r ↦ r.username ];
  expires_at = binding.expires_at;
}

-- The route that `forward` waits for, only while the request is in flight.
unfoldable pub route_for : Binding → (ℕ → Context × ℕ) → Option RouteEntry
unfolding wait_for_route fingerprint_of remove_prefix
route_for binding attempts =
    if is_in_flight binding.state
    then wait_for_route join_attempts 0 (remove_prefix (codes "SHA256:") (fingerprint_of binding))
        attempts
    else none

-- `forward`
unfoldable pub forward : Config → Text → Binding → (ℕ → Context × ℕ) → Forwarder → Forwarder
unfolding post_of route_for owner_of fingerprint_of
forward config user_code binding attempts f =
    let owner = owner_of (fingerprint_of binding) config.owners in
    if not (is_some owner) && is_in_flight binding.state then f else record f {
      posts = post_of config user_code binding owner (route_for binding attempts) ∷ f.posts;
    }

-- How a call of `handle_record` ends: a record whose data is something else raises.
pub data Handled : Type 0 where
  dies : Handled
  goes : Forwarder → Handled

abbrev pub is_state : Option BindingState → BindingState → Bool
is_state none s = false
is_state (some r) s = state_eq r s

-- `handle_record`
unfoldable pub note_state : Text → BindingState → Forwarder → Forwarder
note_state id state f = record f { seen = (id, state) ∷ f.seen }

unfoldable pub handle_binding : Config → Bool → Arrival → Binding → Forwarder → Forwarder
unfolding forget note_state is_stale forward seen_state
handle_binding config initial a binding f =
    if not (str_eq binding.protocol "ssh")
    then f
    else if a.source.is_deleted
    then record f { seen = forget a.source.id f.seen }
    else if is_state (seen_state a.source.id f.seen) binding.state
    then f
    else (let noted = note_state a.source.id binding.state f in
        if initial && is_stale binding a.now
        then noted
        else forward config a.source.id binding a.attempts noted)

unfoldable pub handle_record : Config → Bool → Arrival → Forwarder → Handled
unfolding handle_binding
handle_record config initial a f = elim a.source.binding [
  | none ↦ dies
  | some binding ↦ goes (handle_binding config initial a binding f)
]
