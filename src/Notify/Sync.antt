-- ===== src/Notify/Sync.antt =====
-- `sync_latest` and `sync_loop` of pomerium/ssh-auth-notify/main.py.
use podhaus.Notify.Forward.{dies, goes, Config, Forwarder, handle_record, Arrival}
use podhaus.Base.{
  ℕ, Bool, List, false, Option, map, [], not, ◌∷◌, none, is_some, ◌||◌, some, true, ◌++◌,
}

-- A response of either stream.
pub data SyncResponse : Type 0 where
  a_record : Arrival → SyncResponse
  versions : (server_version record_version : ℕ) → SyncResponse
  nothing : SyncResponse

-- How a stream ends: by itself, or by an error of gRPC.
pub data Stream : Type 0 where
  ends breaks : List SyncResponse → Stream

-- `sync_latest`: the records and the versions; none is the missing versions message, which raises
unfoldable pub records_of : List SyncResponse → List Arrival
records_of [] = []
records_of (a_record a ∷ rs) = a ∷ records_of rs
records_of (r ∷ rs) = records_of rs

unfoldable pub versions_of : List SyncResponse → Option (ℕ × ℕ)
versions_of [] = none
versions_of (r ∷ rs) = elim (versions_of rs) [
  | some v ↦ some v
  | none ↦ elim r [ a_record a ↦ none | versions s n ↦ some (s, n) | nothing ↦ none ]
]

-- The records, one after the other, each with whether it is of the first pass.
pub record Run : Type 0 where
  pub forwarder : Forwarder
  pub is_dead : Bool

unfoldable pub handle_all : Config → List (Bool × Arrival) → Forwarder → Run
unfolding handle_record
handle_all config [] f = record { forwarder = f; is_dead = false }
handle_all config ((initial, a) ∷ events) f = elim (handle_record config initial a f) [
  | dies ↦ record { forwarder = f; is_dead = true }
  | goes f' ↦ handle_all config events f'
]

-- What one round of `sync_loop` reads: the first stream, and the second, at the versions of the first.
pub record Round : Type 0 where
  pub latest : Stream
  pub updates : ℕ × ℕ → Stream

abbrev pub tagged : Bool → List Arrival → List (Bool × Arrival)
tagged initial as' = map (λ a. (initial, a)) as'

abbrev pub responses : Stream → List SyncResponse
responses (ends rs) = rs
responses (breaks rs) = rs

-- The records that a round hands on, and whether it raises on the missing versions.
unfoldable pub round_events : Round → List (Bool × Arrival)
unfolding records_of versions_of
round_events r = elim r.latest [
  | breaks rs ↦ []
  | ends rs ↦ elim (versions_of rs) [
    | none ↦ []
    | some v ↦ tagged true (records_of rs) ++ tagged false (records_of (responses (r.updates v)))
  ]
]

unfoldable pub lacks_versions : Round → Bool
unfolding versions_of
lacks_versions r = elim r.latest [ breaks rs ↦ false | ends rs ↦ not (is_some (versions_of rs)) ]

-- `sync_loop`, for as many rounds
unfoldable pub sync_loop : Config → List Round → Forwarder → Run
unfolding handle_all round_events
sync_loop config [] f = record { forwarder = f; is_dead = false }
sync_loop config (r ∷ rs) f =
    let run = handle_all config (round_events r) f in
    elim (lacks_versions r || run.is_dead) [
      | true ↦ record run { is_dead = true }
      | false ↦ sync_loop config rs run.forwarder
    ]
