-- ===== src/Watcher/Activity.antt =====
-- What `_activity` of llm/watcher/state.py counts: samples that only a game can have caused, and all
-- of them inside the activity window.
use podhaus.Base.{
  ℕ, List, ◌<◌, get_last?, All, ◌+◌, length, ◌≡◌, ◌++◌, keep, ◌≤◌, ◌∷◌, some, true, [], Bool-cases,
  arith, inl, inr,
}
use podhaus.Watcher.Data.{Settings, Sample}
use podhaus.Watcher.Sampling.{activity, is_active}

-- A sample of a serving, idle model under a busy GPU, inside the window that ends at `newest`.
abbrev pub IsGame : Settings → ℕ → Sample → Type 0
IsGame s newest x =
    (newest < x.t + s.activity_window)
    × (x.counted ≡ true)
    × (s.activity_threshold_percent ≤ x.util)

is_active-IsGame :
    (s : Settings) (newest : ℕ) (x : Sample) → is_active s newest x ≡ true → IsGame s newest x
is_active-IsGame s newest x e = ground arith

IsGame-is_active :
    (s : Settings) (newest : ℕ) (x : Sample) → IsGame s newest x → is_active s newest x ≡ true
IsGame-is_active s newest x h = ground arith

All-keep :
    (s : Settings) (newest : ℕ) (xs : List Sample)
    → All (IsGame s newest) (keep (is_active s newest) xs)
All-keep s newest [] = tt
All-keep s newest (x ∷ xs) = elim (Bool-cases (is_active s newest x)) [
  | inl e ↦ rw e (is_active-IsGame s newest x e, All-keep s newest xs)
  | inr e ↦ rw e (All-keep s newest xs)
]

length-keep_burst :
    (s : Settings) (newest : ℕ) (before burst : List Sample)
    → All (IsGame s newest) burst
    → length burst ≤ length (keep (is_active s newest) (before ++ burst))
length-keep_burst s newest [] [] h = omega arith
length-keep_burst s newest [] (x ∷ xs) h =
    rw (IsGame-is_active s newest x h.0) (omega (arith, length-keep_burst s newest [] xs h.1))
length-keep_burst s newest (y ∷ ys) burst h = elim (Bool-cases (is_active s newest y)) [
  | inl e ↦ rw e (omega (arith, length-keep_burst s newest ys burst h))
  | inr e ↦ rw e (length-keep_burst s newest ys burst h)
]

activity-keep :
    (s : Settings) (xs : List Sample) (newest : Sample)
    → get_last? xs ≡ some newest
    → activity s xs ≡ keep (is_active s newest.t) xs
unfolding activity
activity-keep s xs newest e = rw (e, activity)

pub activity_counts :
    (s : Settings) (before burst : List Sample) (newest : Sample)
    → get_last? (before ++ burst) ≡ some newest
    → All (IsGame s newest.t) burst
    → All (IsGame s newest.t) (activity s (before ++ burst))
      × (length burst ≤ length (activity s (before ++ burst)))
activity_counts s before burst newest e h =
    rw (activity-keep s (before ++ burst) newest e)
      (All-keep s newest.t (before ++ burst), length-keep_burst s newest.t before burst h)
