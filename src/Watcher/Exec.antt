-- ===== src/Watcher/Exec.antt =====
-- How a method of `Watcher` runs: it reads answers from the GPU, the router and the guest, changes
-- the watcher, and leaves a trace of what it did outside. A raise keeps what was written before it.
use podhaus.Base.{⊤, String, Bool, Option, List, [], ◌∷◌, ℤ}
use podhaus.Watcher.Data.{
  GpuReading, GuestMemory, ModelStatus, Slot, Handoff, Event, Watcher, used_mib,
}

-- What ended a method early: an exception out of the GPU reader, the router or the guest.
pub data Error : Type 0 where
  gpu_error router_error guest_error : Error

pub data Result {ℓ} (A : Type ℓ) : Type ℓ where
  ok : A → Result A
  raised : Error → Result A

-- `ModelServer.load`: it returns, raises `ModelServerError`, or raises anything else.
pub data LoadReply : Type 0 where
  accepted : LoadReply
  refused : String → LoadReply
  broken : LoadReply

-- The answers that one call of a method may read. Each call site is reached at most once in a call
-- of a method: `status_again` is the read after a refused load, `memory_after` the guest's memory
-- at a release.
pub record Answers : Type 0 where
  pub reading : Result GpuReading
  pub status : Result ModelStatus
  pub slots : Result (Option (List Slot))
  pub cache_drop : Result ⊤
  pub unload : Result Bool
  pub load : LoadReply
  pub status_again : Result ModelStatus
  pub memory_before : Result GuestMemory
  pub memory_after : Result GuestMemory

-- What a method did outside: the lines it logged, the commands that the router answered (an unload
-- with the record it was made for), and the drops of the model file's cache.
pub data Effect : Type 0 where
  logs : Event → Effect
  unloads : Option Handoff → Bool → Effect
  loads : Effect
  drops_cache : Effect

-- The watcher and the trace so far, newest first.
pub record Run : Type 0 where
  pub watcher : Watcher
  pub trace : List Effect

abbrev pub Exec : Type 0 → Type 0
Exec A = Answers → Run → Result A × Run

infixl 5 ◌>>=◌ ◌>>◌
-- shut, so that a rule about it can be applied; a method's own `unfolding` line opens it
unfoldable pub ◌>>=◌ : {A B : Type 0} → Exec A → (A → Exec B) → Exec B
◌>>=◌ m f a r = let (x, r') = m a r in elim x [ ok v ↦ f v a r' | raised e ↦ (raised e, r') ]

abbrev pub ◌>>◌ : {A B : Type 0} → Exec A → Exec B → Exec B
m >> k = m >>= λ _. k

module _ {A : Type 0} where
  abbrev pub pure : A → Exec A
  pure v a r = (ok v, r)

  -- a call whose answer changes nothing here
  abbrev pub ask : (Answers → Result A) → Exec A
  ask f a r = (f a, r)

  abbrev pub gets : (Watcher → A) → Exec A
  gets f a r = (ok (f r.watcher), r)

abbrev pub skip : Exec ⊤
skip a r = (ok tt, r)

abbrev pub modify : (Watcher → Watcher) → Exec ⊤
modify f a r = (ok tt, record r { watcher = f r.watcher })

abbrev pub emit : Effect → Exec ⊤
emit e a r = (ok tt, record r { trace = e ∷ r.trace })

abbrev pub log : Event → Exec ⊤
log e = emit (logs e)

unfoldable pub used_before : Exec ℤ
unfolding ◌>>=◌
used_before = do m ← ask (λ a. a.memory_before); pure (used_mib m)

unfoldable pub used_after : Exec ℤ
unfolding ◌>>=◌
used_after = do m ← ask (λ a. a.memory_after); pure (used_mib m)

-- `ModelServer.unload`, for the record that the caller keeps. An answer is traced, a raise is not.
unfoldable pub server_unload : Option Handoff → Exec Bool
unfolding ◌>>=◌
server_unload handoff = do done ← ask (λ a. a.unload); emit (unloads handoff done); pure done

-- `Guest.drop_model_file_cache`
unfoldable pub drop_cache : Exec ⊤
unfolding ◌>>=◌
drop_cache = do ask (λ a. a.cache_drop); emit drops_cache

-- A fresh call, from a watcher and an empty trace.
abbrev pub run : {A : Type 0} → Exec A → Answers → Watcher → Result A × Run
run m a w = m a (record { watcher = w; trace = [] })
