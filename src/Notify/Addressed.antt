-- ===== src/Notify/Addressed.antt =====
-- Whom ssh-auth-notify tells of a request.
use podhaus.Notify.Rounds.{sync_loop-handle_all, events_of, events_of}
use podhaus.Notify.Context.{Context}
use podhaus.Base.{
  [], ◌∷◌, List, Option, ℕ, Bool, All, ◌≡◌, ◌++◌, false, arith, none, subst, some, sym, Bool-cases,
  inl, inr, refl,
}
use podhaus.Notify.Sync.{handle_all, Round, sync_loop}
use podhaus.Notify.Forward.{
  forward, Config, handle_binding, Post, Binding, note_state, handle_record, owner_of, Owner,
  Arrival, is_in_flight, Forwarder, route_for, fingerprint_of,
}
use podhaus.Base.Codes.{Text, codes}

-- What a post says, by the owner of the key that it names: an owner's posts go to the owner; the posts of
-- a key without one go to the default user, and are not of a request in flight.
abbrev pub IsAddressed : Config → Post → Option Owner → Type 0
IsAddressed config p none =
    (p.user ≡ config.default_user) × (p.machine ≡ none) × (is_in_flight p.state ≡ false)
IsAddressed config p (some o) = (p.user ≡ o.user) × (p.machine ≡ some o.machine)

abbrev pub IsWellPosted : Config → Post → Type 0
IsWellPosted config p =
    IsAddressed config p (owner_of p.fingerprint config.owners)
    × (p.url ≡ config.authenticate_url ++ (codes "/.pomerium/sign_in?user_code=" ++ p.user_code))
    × (is_in_flight p.state ≡ false → p.route ≡ none)

forward-All :
    (config : Config) (code : Text) (b : Binding) (attempts : ℕ → Context × ℕ) (f : Forwarder)
    → All (IsWellPosted config) f.posts
    → All (IsWellPosted config) (forward config code b attempts f).posts
unfolding forward
forward-All config code b attempts f ih = go (owner_of (fingerprint_of b) config.owners) refl
  where
    no_route : is_in_flight b.state ≡ false → route_for b attempts ≡ none
    no_route e = rw (route_for, e) refl

    go :
        (o : Option Owner)
        → owner_of (fingerprint_of b) config.owners ≡ o
        → All (IsWellPosted config) (forward config code b attempts f).posts
    go (some o) e = rw (forward, e) ((rw e (refl, refl), refl, λ i. rw (no_route i) refl), ih)
    go none e = elim (Bool-cases (is_in_flight b.state)) [
      | inl flies ↦ rw (forward, e, flies) ih
      | inr done ↦ rw (forward, e, done) ((rw e (refl, refl, done), refl, λ i. refl), ih)
    ]

handle_binding-All :
    (config : Config) (initial : Bool) (a : Arrival) (b : Binding) (f : Forwarder)
    → All (IsWellPosted config) f.posts
    → All (IsWellPosted config) (handle_binding config initial a b f).posts
unfolding handle_binding note_state
handle_binding-All config initial a b f ih =
    ground
      (arith, forward-All config a.source.id b a.attempts (note_state a.source.id b.state f) ih)

handle_all-All :
    (config : Config) (events : List (Bool × Arrival)) (f : Forwarder)
    → All (IsWellPosted config) f.posts
    → All (IsWellPosted config) (handle_all config events f).forwarder.posts
unfolding handle_all handle_record
handle_all-All config [] f ih = ih
handle_all-All config ((initial, a) ∷ events) f ih =
    go a.source.binding refl (handle_all-All config events)
  where
    go :
        (o : Option Binding)
        → a.source.binding ≡ o
        → ((f' : Forwarder)
            → All (IsWellPosted config) f'.posts
            → All (IsWellPosted config) (handle_all config events f').forwarder.posts)
        → All (IsWellPosted config) (handle_all config ((initial, a) ∷ events) f).forwarder.posts
    go none e later = rw (e, handle_all, handle_record) ih
    go (some b) e later =
        rw (e, handle_all, handle_record)
          (later (handle_binding config initial a b f) (handle_binding-All config initial a b f ih))

-- Each post goes to the account that owns the key which it names, with the name of the machine; a key
-- without an owner is told of to the default user, and only once the request is decided. Each carries the
-- sign-in address of its own code, and a route only while the request is in flight.
pub sync_loop-IsWellPosted :
    (config : Config) (rounds : List Round)
    → All
        (IsWellPosted config)
        (sync_loop config rounds (record { seen = []; posts = [] })).forwarder.posts
sync_loop-IsWellPosted config rounds =
    subst (λ f. All (IsWellPosted config) f.posts)
      (sym (sync_loop-handle_all config rounds (record { seen = []; posts = [] })))
      (handle_all-All config (events_of rounds) (record { seen = []; posts = [] }) tt)
