-- ===== src/Watcher/Window.antt =====
-- The samples of the last 30 seconds and the instants kept beside them (llm/watcher/state.py:
-- `_observe`, `_activity`, `_busy_before`), over calls whose clock does not run backwards.
use podhaus.Watcher.Data.{Sample}
use podhaus.Base.{
  ℕ, List, All, ◌<◌, ◌≡◌, ◌≤◌, ◌∷◌, [], ◌+◌, get_last?, Bool-cases, ◌++◌, arith, some, leb, inl,
  inr, get_last?-append,
}
use podhaus.Watcher.Sampling.{drop_old, record_ms}

-- The samples are in the order of their times, which lie between the two bounds.
abbrev pub InOrderWithin : ℕ → ℕ → List Sample → Type 0
InOrderWithin lo hi [] = lo ≤ hi
InOrderWithin lo hi (x ∷ xs) = (lo ≤ x.t) × InOrderWithin x.t hi xs

-- Every sample is younger than 30 seconds at `now`.
abbrev pub IsFresh : ℕ → Sample → Type 0
IsFresh now x = now < x.t + record_ms

InOrderWithin-le : (lo hi : ℕ) (xs : List Sample) → InOrderWithin lo hi xs → lo ≤ hi
InOrderWithin-le lo hi [] h = h
InOrderWithin-le lo hi (x ∷ xs) h = omega (arith, h.0, InOrderWithin-le x.t hi xs h.1)

InOrderWithin-lower :
    (lo lo' hi : ℕ) (xs : List Sample) → lo' ≤ lo → InOrderWithin lo hi xs → InOrderWithin lo' hi xs
InOrderWithin-lower lo lo' hi [] le h = omega arith
InOrderWithin-lower lo lo' hi (x ∷ xs) le h = (omega (arith, h.0), h.1)

pub InOrderWithin-append :
    (lo hi : ℕ) (xs : List Sample) (x : Sample)
    → hi ≤ x.t
    → InOrderWithin lo hi xs
    → InOrderWithin lo x.t (xs ++ x ∷ [])
InOrderWithin-append lo hi [] x le h = (omega arith, omega arith)
InOrderWithin-append lo hi (y ∷ ys) x le h = (h.0, InOrderWithin-append y.t hi ys x le h.1)

-- Dropping from the front the samples that are too old leaves the fresh ones and no other.
All-IsFresh :
    (now lo hi : ℕ) (xs : List Sample)
    → now < lo + record_ms
    → InOrderWithin lo hi xs
    → All (IsFresh now) xs
All-IsFresh now lo hi [] young h = tt
All-IsFresh now lo hi (x ∷ xs) young h =
    (omega (arith, h.0), All-IsFresh now x.t hi xs (omega (arith, h.0)) h.1)

pub drop_old-IsFresh :
    (now lo hi : ℕ) (xs : List Sample)
    → InOrderWithin lo hi xs
    → All (IsFresh now) (drop_old now xs)
unfolding drop_old
drop_old-IsFresh now lo hi [] h = tt
drop_old-IsFresh now lo hi (x ∷ xs) h = elim (Bool-cases (leb (x.t + record_ms) now)) [
  | inl old ↦ rw old (drop_old-IsFresh now x.t hi xs h.1)
  | inr young ↦ rw young (ground arith, All-IsFresh now x.t hi xs (ground arith) h.1)
]

pub drop_old-InOrder :
    (now lo hi : ℕ) (xs : List Sample)
    → InOrderWithin lo hi xs
    → InOrderWithin lo hi (drop_old now xs)
unfolding drop_old
drop_old-InOrder now lo hi [] h = h
drop_old-InOrder now lo hi (x ∷ xs) h = elim (Bool-cases (leb (x.t + record_ms) now)) [
  | inl old ↦ rw old (InOrderWithin-lower x.t lo hi _ h.0 (drop_old-InOrder now x.t hi xs h.1))
  | inr young ↦ rw young h
]

-- The newest sample is never dropped, so the loop ends before the deque is empty.
pub drop_old-last :
    (now : ℕ) (xs : List Sample) (x : Sample)
    → x.t ≡ now
    → get_last? (drop_old now (xs ++ x ∷ [])) ≡ some x
unfolding drop_old
drop_old-last now [] x e = ground arith
drop_old-last now (y ∷ ys) x e = elim (Bool-cases (leb (y.t + record_ms) now)) [
  | inl old ↦ rw old (drop_old-last now ys x e)
  | inr young ↦ rw young (get_last?-append (y ∷ ys) x)
]
