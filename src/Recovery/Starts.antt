-- ===== src/Recovery/Starts.antt =====
-- Which containers recover-storage-containers starts.
use podhaus.Files.{path_text}
use podhaus.Base.Codes.{is_one_of, codes, text_eq-eq, Text}
use podhaus.Recovery.{
  probe, StorageMount, Probe, Filesystem, matches_storage, exactly_one, unavailable, Inspection,
  candidate, Text, uses, is_mount_failure, bind_sources, run, is_one_of, is_empty, start,
  if_candidate, Recovered, if_available,
}
use podhaus.Base.{
  Bool, ◌≡◌, true, some, List, keep, ◌∷◌, [], false, Bool-cases, All, ◌⊎◌, refl, inr, inl,
  Option-cases, Option, not, if◌then◌else◌, none, arith, ◌||◌, length, ◌==◌, or_false, sym, ◌&&◌,
}

-- The sentinel can be read, and of the mounts shown exactly one is the declared one: it has the volume's
-- root for its target, comes from the declared source with a declared type, and is writable.
abbrev pub IsReady : StorageMount → Probe → Type 0
IsReady storage answer =
    (answer.sentinel_readable ≡ true)
    × ((fs : List Filesystem) × (f : Filesystem) × (answer.filesystems ≡ some fs)
        × (keep (matches_storage storage) fs ≡ f ∷ [])
        × (f.target ≡ path_text storage.root)
        × (f.source ≡ storage.expected_source)
        × (is_one_of f.fstype storage.fstypes ≡ true)
        × (is_one_of (codes "rw") f.options ≡ true))

keep_one :
    (test : Filesystem → Bool) (fs : List Filesystem) (f : Filesystem)
    → keep test fs ≡ f ∷ []
    → test f ≡ true
keep_one test [] f e = cc
keep_one test (x ∷ xs) f e = ground (arith, keep_one test xs f)

and_true : {a b : Bool} → (a && b) ≡ true → (a ≡ true) × (b ≡ true)
and_true {a} {b} e = (ground arith, ground arith)

one_lem : (fs : List Filesystem) → exactly_one fs ≡ some true → (f : Filesystem) × (fs ≡ f ∷ [])
unfolding exactly_one
one_lem [] e = cc
one_lem (f ∷ []) e = (f, refl)
one_lem (f ∷ g ∷ fs) e = cc

probe-IsReady :
    (storage : StorageMount) (answer : Probe)
    → probe storage answer ≡ some true
    → IsReady storage answer
unfolding probe matches_storage
probe-IsReady storage answer e = elim (Bool-cases answer.sentinel_readable) [
  | inr dark ↦ absurd (not_ready (rw (dark, probe) at e))
  | inl readable ↦ elim (Option-cases answer.filesystems) [
    | inl failed ↦ absurd (not_ready (rw (readable, failed, probe) at e))
    | inr (fs, shown) ↦
        let (f, only) =
          one_lem (keep (matches_storage storage) fs) (rw (readable, shown, probe) at e) in
        let one = and_true (keep_one (matches_storage storage) fs f only) in
        let two = and_true one.1 in
        let three = and_true two.1 in
        (
          readable,
          (
            fs,
            f,
            shown,
            only,
            text_eq-eq f.target (path_text storage.root) one.0,
            text_eq-eq f.source storage.expected_source two.0,
            three.0,
            three.1,
          ),
        )
  ]
]
  where
    not_ready : some false ≡ some true → ⊥
    not_ready x = cc

all_ready_step :
    (s : StorageMount) (o : Option Bool) (r : Option (List StorageMount))
    → (elim o [
      | none ↦ none
      | some ready ↦ elim r [ none ↦ none | some us ↦ some (if ready then us else s ∷ us) ]
    ])
      ≡ some []
    → (o ≡ some true) × (r ≡ some [])
all_ready_step s none r e = cc
all_ready_step s (some true) none e = cc
all_ready_step s (some true) (some us) e = (refl, e)
all_ready_step s (some false) none e = cc
all_ready_step s (some false) (some us) e = ground arith

unavailable-AllReady :
    (answers : StorageMount → Probe) (storage : List StorageMount)
    → unavailable answers storage ≡ some []
    → All (λ s. IsReady s (answers s)) storage
unfolding unavailable
unavailable-AllReady answers [] e = tt
unavailable-AllReady answers (s ∷ ss) e =
    let both = all_ready_step s (probe s (answers s)) (unavailable answers ss) e in
    (probe-IsReady s (answers s) both.0, unavailable-AllReady answers ss both.1)

-- The container is one of those inspected.
abbrev pub Among : Inspection → List Inspection → Type 0
Among c [] = ⊥
Among c (x ∷ xs) = (c ≡ x) ⊎ Among c xs

-- Why a container may be started: it is one that was inspected, it failed on a volume that it binds, and
-- each of the declared volumes that it binds is ready.
abbrev pub MayStart : (StorageMount → Probe) → List StorageMount → List Inspection → Text → Type 0
MayStart answers declared cs id =
    (c : Inspection) × Among c cs
    × (c.id ≡ id)
    × (is_mount_failure c.error (bind_sources c.mounts)
          (keep (uses (bind_sources c.mounts)) declared)
        ≡ true)
    × All (λ s. IsReady s (answers s)) (keep (uses (bind_sources c.mounts)) declared)

gate :
    (a b c : Bool) (ks storage : List StorageMount)
    → (if not a then none else if b then none else if c then none else some ks) ≡ some storage
    → (c ≡ false) × (storage ≡ ks)
gate false b c ks storage e = cc
gate true true c ks storage e = cc
gate true false true ks storage e = cc
gate true false false ks storage e = (refl, ground arith)

candidate-lem :
    (declared : List StorageMount) (c : Inspection) (storage : List StorageMount)
    → candidate declared c ≡ some storage
    → (storage ≡ keep (uses (bind_sources c.mounts)) declared)
      × (is_mount_failure c.error
            (bind_sources c.mounts)
            (keep (uses (bind_sources c.mounts)) declared)
          ≡ true)
unfolding candidate
candidate-lem declared c storage e =
    let both =
      gate (is_one_of c.status (codes "created" ∷ codes "exited" ∷ []))
        (is_empty c.error
          || not (is_one_of c.restart_policy (codes "always" ∷ codes "unless-stopped" ∷ [])))
        (length (keep (uses (bind_sources c.mounts)) declared) == 0
          || not (
              is_mount_failure c.error (bind_sources c.mounts)
                (keep (uses (bind_sources c.mounts)) declared)))
        (keep (uses (bind_sources c.mounts)) declared) storage e in
    (both.1, not_false (or_false both.0).1)
  where
    not_false : {b : Bool} → not b ≡ false → b ≡ true
    not_false {b} h = ground arith

-- One more container inspected before the others is no reason less.
weaken :
    (answers : StorageMount → Probe) (declared : List StorageMount) (c : Inspection)
    (cs : List Inspection) (ids : List Text)
    → All (MayStart answers declared cs) ids
    → All (MayStart answers declared (c ∷ cs)) ids
weaken answers declared c cs [] a = tt
weaken answers declared c cs (id ∷ ids) ((x, among, same, failed, ready), rest) =
    ((x, inr among, same, failed, ready), weaken answers declared c cs ids rest)

start-All :
    (P : Text → Type 0) (b : Bool) (id : Text) (rest : Recovered)
    → P id
    → All P rest.started
    → All P (start b id rest).started
unfolding start
start-All P true id rest p a = (p, a)
start-All P false id rest p a = tt

if_candidate-All :
    (P : Text → Type 0) (answers : StorageMount → Probe) (o : Option (List StorageMount))
    (starting rest : Recovered)
    → ((storage : List StorageMount)
        → o ≡ some storage
        → unavailable answers storage ≡ some []
        → All P starting.started)
    → All P rest.started
    → All P (if_candidate answers o starting rest).started
unfolding if_candidate if_available
if_candidate-All P answers none starting rest h a = a
if_candidate-All P answers (some storage) starting rest h a =
    go (unavailable answers storage) (h storage refl)
  where
    go :
        (u : Option (List StorageMount))
        → (u ≡ some [] → All P starting.started)
        → All P (if_available u starting rest).started
    go none k = tt
    go (some []) k = k refl
    go (some (s ∷ ss)) k = a

-- A container is started only if it was inspected, its error says that mounting a declared volume failed
-- that it binds, and all the declared volumes that it binds are ready: the sentinel can be read and there
-- is one mount of the volume, from the declared source, with a declared type and writable.
pub run-MayStart :
    (starts : Text → Bool) (answers : StorageMount → Probe) (declared : List StorageMount)
    (cs : List Inspection)
    → All (MayStart answers declared cs) (run starts answers declared cs).started
unfolding run
run-MayStart starts answers declared [] = tt
run-MayStart starts answers declared (c ∷ cs) =
    let others =
      weaken answers declared c cs (run starts answers declared cs).started
        (run-MayStart starts answers declared cs) in
    if_candidate-All (MayStart answers declared (c ∷ cs)) answers (candidate declared c)
      (start (starts c.id) c.id (run starts answers declared cs)) (run starts answers declared cs)
      (λ storage is ready.
        start-All (MayStart answers declared (c ∷ cs)) (starts c.id) c.id
          (run starts answers declared cs)
          (let (all, failed) = candidate-lem declared c storage is in
            (c, inl refl, refl, failed, rw (sym all) (unavailable-AllReady answers storage ready)))
          others)
      others
