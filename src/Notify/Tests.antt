-- ===== src/Notify/Tests.antt =====
-- One request of a mapped key and one of another, and the theorems about them.
use podhaus.Notify.Rounds.{events_of, sync_loop-changes, sync_loop-changes}
use podhaus.Notify.Once.{posts_of, changes, changes, history, history}
use podhaus.Base.Json.{text}
use podhaus.Notify.Addressed.{IsWellPosted, sync_loop-IsWellPosted}
use podhaus.Notify.Joined.{IsFirst, lookups, wait_for_route-IsFirst}
use podhaus.Notify.Context.{Context}
use podhaus.Notify.Sync.{sync_loop, Round, ends, a_record, versions, breaks, nothing}
use podhaus.Base.{All, List, ℕ, none, [], map, ◌≤◌, ◌∷◌, some, ◌≡◌, suc, zero, false, length, refl}
use podhaus.Notify.Forward.{
  Forwarder, Config, Binding, in_flight, Arrival, wait_for_route, accepted,
}
use podhaus.Notify.Forward.{state_eq}
use podhaus.Notify.Sync.{lacks_versions}
use podhaus.Base.Codes.{Text, codes}

abbrev config : Config
config = record {
  authenticate_url = codes "https://auth";
  default_user = "op";
  owners = (codes "SHA256:k1", record { machine = "laptop"; user = "ana" }) ∷ [];
}

abbrev mapped : Binding
mapped = record {
  protocol = "ssh";
  key = codes "sshkey-SHA256:k1";
  state = in_flight;
  expires_at = 900;
  source_address = none;
}

abbrev context : Context
context = (codes "k1", record { username = none; hostname = some (text "db"); at = 5 }) ∷ []

abbrev attempts : ℕ → Context × ℕ
attempts zero = ([], 10)
attempts (suc _) = (context, 20)

abbrev arrival : Text → Binding → Arrival
arrival id b = record {
  source = record { id = id; binding = some b; is_deleted = false };
  now = 100;
  attempts = attempts;
}

-- A request of the mapped key, one of another key, and the first again, decided.
abbrev rounds : List Round
rounds =
    record {
      latest = ends (
          a_record (arrival (codes "c1") mapped)
          ∷ a_record (arrival (codes "c2") (record mapped { key = codes "sshkey-SHA256:k2" }))
          ∷ versions 1 2
          ∷ []);
      updates = λ v. breaks (a_record (arrival (codes "c1") mapped) ∷ nothing ∷ []);
    }
    ∷ record {
      latest = ends (
          a_record (arrival (codes "c1") (record mapped { state = accepted })) ∷ versions 1 3 ∷ []);
      updates = λ v. ends [];
    }
    ∷ []

abbrev start : Forwarder
start = record { seen = []; posts = [] }

two_posts :
    map (λ p. p.state) (sync_loop config rounds start).forwarder.posts ≡ accepted ∷ in_flight ∷ []
unfolding sync_loop lacks_versions state_eq
two_posts = refl

sync_loop-changes_example :
    posts_of (codes "c1") (sync_loop config rounds start).forwarder
    ≤ changes none (history (codes "c1") (events_of rounds))
sync_loop-changes_example = sync_loop-changes (codes "c1") config rounds

sync_loop-IsWellPosted_example :
    All (IsWellPosted config) (sync_loop config rounds start).forwarder.posts
sync_loop-IsWellPosted_example = sync_loop-IsWellPosted config rounds

wait_for_route-IsFirst_example :
    IsFirst (lookups 20 0 (codes "k1") attempts) (wait_for_route 20 0 (codes "k1") attempts)
    × (length (lookups 20 0 (codes "k1") attempts) ≡ 20)
wait_for_route-IsFirst_example = wait_for_route-IsFirst 20 0 (codes "k1") attempts
