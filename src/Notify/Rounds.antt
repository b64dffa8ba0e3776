-- ===== src/Notify/Rounds.antt =====
-- How often the loop of ssh-auth-notify tells of one request.
use podhaus.Notify.Once.{
  posts_of, changes, changes, history, history, handle_all-changes, handle_all-changes,
}
use podhaus.Notify.Sync.{handle_all, Round, round_events, lacks_versions, sync_loop, Run}
use podhaus.Base.Codes.{Text}
use podhaus.Notify.Forward.{
  dies, goes, seen_state, Forwarder, Arrival, Config, handle_record, Handled,
}
use podhaus.Base.{
  Bool, List, false, ◌≡◌, ◌∷◌, none, [], true, if◌then◌else◌, ◌≤◌, arith, Bool-cases, inl, inr,
  refl, ap, ◌∙◌, ◌++◌, sym, ◌||◌,
}

-- The records that the rounds hand on, up to the one that raises on the missing versions.
abbrev pub events_of : List Round → List (Bool × Arrival)
events_of [] = []
events_of (r ∷ rs) = round_events r ++ (if lacks_versions r then [] else events_of rs)

abbrev unless_dead : Bool → Run → Run → Run
unless_dead true run later = run
unless_dead false run later = later

unless_dead-same :
    (dead : Bool) (run later : Run)
    → later.forwarder ≡ run.forwarder
    → (unless_dead dead run later).forwarder ≡ run.forwarder
unless_dead-same true run later e = refl
unless_dead-same false run later e = e

handle_all-append :
    (config : Config) (xs ys : List (Bool × Arrival)) (f : Forwarder)
    → handle_all config (xs ++ ys) f
      ≡ unless_dead
          (handle_all config xs f).is_dead
          (handle_all config xs f)
          (handle_all config ys (handle_all config xs f).forwarder)
unfolding handle_all
handle_all-append config [] ys f = refl
handle_all-append config ((initial, a) ∷ xs) ys f =
    go (handle_record config initial a f) refl (λ f'. handle_all-append config xs ys f')
  where
    go :
        (h : Handled)
        → handle_record config initial a f ≡ h
        → ((f' : Forwarder)
            → handle_all config (xs ++ ys) f'
              ≡ unless_dead
                  (handle_all config xs f').is_dead
                  (handle_all config xs f')
                  (handle_all config ys (handle_all config xs f').forwarder))
        → handle_all config (((initial, a) ∷ xs) ++ ys) f
          ≡ unless_dead
              (handle_all config ((initial, a) ∷ xs) f).is_dead
              (handle_all config ((initial, a) ∷ xs) f)
              (handle_all config ys (handle_all config ((initial, a) ∷ xs) f).forwarder)
    go dies e ih = rw (e, handle_all) refl
    go (goes f') e ih = rw (e, handle_all) (ih f')

sync_loop-stops :
    (config : Config) (r : Round) (rs : List Round) (f : Forwarder)
    → (lacks_versions r || (handle_all config (round_events r) f).is_dead) ≡ true
    → (sync_loop config (r ∷ rs) f).forwarder ≡ (handle_all config (round_events r) f).forwarder
unfolding sync_loop handle_all
sync_loop-stops config r rs f e = rw (sync_loop, e) refl

sync_loop-goes :
    (config : Config) (r : Round) (rs : List Round) (f : Forwarder)
    → (lacks_versions r || (handle_all config (round_events r) f).is_dead) ≡ false
    → sync_loop config (r ∷ rs) f
      ≡ sync_loop config rs (handle_all config (round_events r) f).forwarder
unfolding sync_loop
sync_loop-goes config r rs f e = rw (sync_loop, e) refl

pub sync_loop-handle_all :
    (config : Config) (rounds : List Round) (f : Forwarder)
    → (sync_loop config rounds f).forwarder ≡ (handle_all config (events_of rounds) f).forwarder
unfolding sync_loop handle_all
sync_loop-handle_all config [] f = refl
sync_loop-handle_all config (r ∷ rs) f =
    rw (handle_all-append config (round_events r) (if lacks_versions r then [] else events_of rs) f)
      (elim (Bool-cases (lacks_versions r)) [
        | inl lacks ↦
            sync_loop-stops config r rs f (rw lacks refl)
            ∙ sym (
                unless_dead-same (handle_all config (round_events r) f).is_dead
                  (handle_all config (round_events r) f)
                  (handle_all config (if lacks_versions r then [] else events_of rs)
                    (handle_all config (round_events r) f).forwarder)
                  (rw (lacks, handle_all) refl))
        | inr has ↦ elim (Bool-cases (handle_all config (round_events r) f).is_dead) [
          | inl dead ↦ sync_loop-stops config r rs f (rw (has, dead) refl) ∙ rw dead refl
          | inr alive ↦
              ap (λ run. run.forwarder) (sync_loop-goes config r rs f (rw (has, alive) refl))
              ∙ (sync_loop-handle_all config rs (handle_all config (round_events r) f).forwarder
                  ∙ rw (has, alive) refl)
        ]
      ])

-- A request is told at most as often as its state changes: whatever the streams send, repeat or break off,
-- and however often the loop starts again, the posts of a code are at most the changes of state of its
-- records in their order, where a record that is deleted or is new to the process has no state before.
pub sync_loop-changes :
    (id : Text) (config : Config) (rounds : List Round)
    → posts_of id (sync_loop config rounds (record { seen = []; posts = [] })).forwarder
      ≤ changes none (history id (events_of rounds))
unfolding seen_state
sync_loop-changes id config rounds = omega (
  arith,
  ap (posts_of id) (sync_loop-handle_all config rounds (record { seen = []; posts = [] })),
  handle_all-changes id config (events_of rounds) (record { seen = []; posts = [] }),
)
