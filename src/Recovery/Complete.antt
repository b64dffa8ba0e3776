-- ===== src/Recovery/Complete.antt =====
-- What a whole run of recover-storage-containers starts.
use podhaus.Base.Codes.{Text}
use podhaus.Recovery.{
  StorageMount, run, start, if_candidate, Probe, Text, if_available, Inspection, Recovered,
  candidate, unavailable,
}
use podhaus.Base.{
  Bool, Option, List, false, some, ◌≡◌, true, map, ◌∷◌, if◌then◌else◌, none, keep, refl, [],
  Bool-cases, inl, inr, ◌∙◌,
}

-- The container's volumes are all ready.
abbrev is_none_left : Option (List StorageMount) → Bool
is_none_left none = false
is_none_left (some []) = true
is_none_left (some (_ ∷ _)) = false

abbrev are_ready : (StorageMount → Probe) → Option (List StorageMount) → Bool
are_ready answers none = false
are_ready answers (some storage) = is_none_left (unavailable answers storage)

abbrev pub is_due : (StorageMount → Probe) → List StorageMount → Inspection → Bool
is_due answers declared c = are_ready answers (candidate declared c)

start-lem :
    (b : Bool) (id : Text) (rest : Recovered)
    → (start b id rest).raised ≡ false
    → ((start b id rest).started ≡ id ∷ rest.started) × (rest.raised ≡ false)
unfolding start
start-lem true id rest e = (refl, e)
start-lem false id rest e = cc

step-lem :
    (answers : StorageMount → Probe) (o : Option (List StorageMount)) (b : Bool) (id : Text)
    (rest : Recovered)
    → (if_candidate answers o (start b id rest) rest).raised ≡ false
    → ((if_candidate answers o (start b id rest) rest).started
        ≡ (if are_ready answers o then id ∷ rest.started else rest.started))
      × (rest.raised ≡ false)
unfolding if_candidate if_available
step-lem answers none b id rest e = (refl, e)
step-lem answers (some storage) b id rest e = go (unavailable answers storage) e
  where
    go :
        (u : Option (List StorageMount))
        → (if_available u (start b id rest) rest).raised ≡ false
        → ((if_available u (start b id rest) rest).started
            ≡ (if is_none_left u then id ∷ rest.started else rest.started))
          × (rest.raised ≡ false)
    go none k = absurd (raises k)
      where
        raises : true ≡ false → ⊥
        raises x = cc
    go (some []) k = start-lem b id rest k
    go (some (s ∷ ss)) k = (refl, k)

-- A run that does not raise starts every container that may be started and whose volumes are all ready,
-- in the order in which they were inspected, and no other.
pub run_complete :
    (starts : Text → Bool) (answers : StorageMount → Probe) (declared : List StorageMount)
    (cs : List Inspection)
    → (run starts answers declared cs).raised ≡ false
    → (run starts answers declared cs).started ≡ map (λ c. c.id) (keep (is_due answers declared) cs)
unfolding run
run_complete starts answers declared [] e = refl
run_complete starts answers declared (c ∷ cs) e =
    let both =
      step-lem answers (candidate declared c) (starts c.id) c.id (run starts answers declared cs)
        e in
    both.0 ∙ tail_lem (run_complete starts answers declared cs both.1)
  where
    tail_lem :
        (run starts answers declared cs).started
          ≡ map (λ x. x.id) (keep (is_due answers declared) cs)
        → (if is_due answers declared c
            then c.id ∷ (run starts answers declared cs).started
            else (run starts answers declared cs).started)
          ≡ map (λ x. x.id) (keep (is_due answers declared) (c ∷ cs))
    tail_lem h = elim (Bool-cases (is_due answers declared c)) [
      | inl due ↦ rw (due, h) refl
      | inr other ↦ rw (other, h) refl
    ]
