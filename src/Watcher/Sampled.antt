-- ===== src/Watcher/Sampled.antt =====
-- The invariant of the samples and of the instants kept beside them (llm/watcher/state.py:
-- `_observe`), through every call of the watcher.
use podhaus.Watcher.Window.{
  InOrderWithin, IsFresh, drop_old-last, InOrderWithin-append, drop_old-InOrder, drop_old-IsFresh,
}
use podhaus.Base.{
  Option, ℕ, All, Bool, some, ◌≤◌, get_last?, none, ◌≡◌, ◌++◌, true, ◌∷◌, is_some, [],
  if◌then◌else◌, ◌&&◌, not, arith, refl, sym, ◌∙◌,
}
use podhaus.Watcher.Sampling.{take_sample, last_busy, sample_now}
use podhaus.Watcher.Data.{Watcher, GpuReading}

-- A busy stretch begins and ends with it, and not after the last sample.
abbrev pub IsStretch : Option ℕ → Option ℕ → ℕ → Type 0
IsStretch none none at = Unit
IsStretch (some since) (some until) at = (since ≤ until) × (until ≤ at)
IsStretch none (some _) at = ⊥
IsStretch (some _) none at = ⊥

abbrev pub NotAfter : Option ℕ → ℕ → Type 0
NotAfter none at = Unit
NotAfter (some t) at = t ≤ at

pub record IsSampled (w : Watcher) : Type 0 where
  pub in_order : InOrderWithin 0 w.sampled_at w.samples
  pub fresh : All (IsFresh w.sampled_at) w.samples
  pub stretch : IsStretch w.busy_since w.busy_until w.sampled_at
  pub began : last_busy w.samples ≡ true → is_some w.busy_since ≡ true
  pub active : NotAfter w.last_active_at w.sampled_at

busy_grows :
    (since until : Option ℕ) (at now : ℕ) (busy previous : Bool)
    → at ≤ now
    → IsStretch since until at
    → (previous ≡ true → is_some since ≡ true)
    → IsStretch
        (if busy && not previous then some now else since)
        (if busy then some now else until)
        now
busy_grows none none at now busy previous le s b = ground arith
busy_grows (some x) (some y) at now busy previous le s b = ground arith
busy_grows none (some y) at now busy previous le s b = absurd s
busy_grows (some x) none at now busy previous le s b = absurd s

began_grows :
    (since : Option ℕ) (now : ℕ) (busy previous : Bool)
    → (previous ≡ true → is_some since ≡ true)
    → busy ≡ true
    → is_some (if busy && not previous then some now else since) ≡ true
began_grows since now busy previous b e = ground arith

pub last_sample :
    (now : ℕ) (reading : GpuReading) (busy : Bool) (w : Watcher)
    → get_last? (take_sample now reading busy w).samples ≡ some (sample_now now reading busy w)
unfolding take_sample
last_sample now reading busy w = drop_old-last now w.samples (sample_now now reading busy w) refl

last_is_busy :
    (now : ℕ) (reading : GpuReading) (busy : Bool) (w : Watcher)
    → last_busy (take_sample now reading busy w).samples ≡ busy
unfolding sample_now
last_is_busy now reading busy w = rw (last_sample now reading busy w, last_busy)

pub take_sample-IsSampled :
    (now : ℕ) (reading : GpuReading) (busy : Bool) (w : Watcher)
    → w.sampled_at ≤ now
    → IsSampled w
    → IsSampled (take_sample now reading busy w)
unfolding take_sample
take_sample-IsSampled now reading busy w le h = record {
  in_order = drop_old-InOrder now 0 now _ added;
  fresh = drop_old-IsFresh now 0 now _ added;
  stretch =
      busy_grows w.busy_since w.busy_until w.sampled_at now busy (last_busy w.samples) le h.stretch
        h.began;
  began = λ e.
      began_grows w.busy_since now busy (last_busy w.samples) h.began
        (sym (last_is_busy now reading busy w) ∙ e);
  active = ground arith;
}
  where
    added : InOrderWithin 0 now (w.samples ++ sample_now now reading busy w ∷ [])
    added =
        InOrderWithin-append 0 w.sampled_at w.samples (sample_now now reading busy w) le h.in_order
