-- ===== src/Notify/Joined.antt =====
-- Which route ssh-auth-notify joins to a request.
use podhaus.Notify.Context.{Context, RouteEntry, get_route}
use podhaus.Notify.Forward.{wait_for_route}
use podhaus.Base.{
  ℕ, List, Option, length, [], All, none, ◌≡◌, ◌∷◌, suc, some, ap, ◌++◌, refl, ◌+◌, zero,
}
use podhaus.Base.Codes.{Text}

-- The attempts from `i` on, as a list of what each finds.
abbrev pub lookups : ℕ → ℕ → Text → (ℕ → Context × ℕ) → List (Option RouteEntry)
lookups zero i fingerprint attempts = []
lookups (suc n) i fingerprint attempts =
    get_route fingerprint (attempts i).1 (attempts i).0 ∷ lookups n (i + 1) fingerprint attempts

-- What is found: by the attempt `k`, when none before it found anything; or by none of them.
abbrev pub IsFirst : List (Option RouteEntry) → Option RouteEntry → Type 0
IsFirst finds none = All (λ o. o ≡ none) finds
IsFirst finds (some e) =
    (before : List (Option RouteEntry)) × (after : List (Option RouteEntry)) × (finds
      ≡ before ++ some e ∷ after)
    × All (λ o. o ≡ none) before

IsFirst-later :
    (finds : List (Option RouteEntry)) (found : Option RouteEntry)
    → IsFirst finds found
    → IsFirst (none ∷ finds) found
IsFirst-later finds none h = (refl, h)
IsFirst-later finds (some e) (before, after, split, nothing) =
    (none ∷ before, after, ap (λ t. none ∷ t) split, (refl, nothing))

-- The join takes what the first successful one of its attempts finds, of which there are as many as it
-- is given, and it gives up only when every one of them finds nothing.
pub wait_for_route-IsFirst :
    (n i : ℕ) (fingerprint : Text) (attempts : ℕ → Context × ℕ)
    → IsFirst (lookups n i fingerprint attempts) (wait_for_route n i fingerprint attempts)
      × (length (lookups n i fingerprint attempts) ≡ n)
unfolding wait_for_route
wait_for_route-IsFirst zero i fingerprint attempts = (tt, refl)
wait_for_route-IsFirst (suc n) i fingerprint attempts =
    let (first, many) = wait_for_route-IsFirst n (i + 1) fingerprint attempts in
    (go (get_route fingerprint (attempts i).1 (attempts i).0) refl first, ap suc many)
  where
    go :
        (o : Option RouteEntry)
        → get_route fingerprint (attempts i).1 (attempts i).0 ≡ o
        → IsFirst
            (lookups n (i + 1) fingerprint attempts)
            (wait_for_route n (i + 1) fingerprint attempts)
        → IsFirst
            (lookups (suc n) i fingerprint attempts)
            (wait_for_route (suc n) i fingerprint attempts)
    go (some e) found later =
        rw (found, wait_for_route) ([], lookups n (i + 1) fingerprint attempts, refl, tt)
    go none found later =
        rw (found, wait_for_route)
          (IsFirst-later (lookups n (i + 1) fingerprint attempts)
            (wait_for_route n (i + 1) fingerprint attempts) later)
