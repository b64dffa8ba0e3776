-- ===== src/Base/Lists.antt =====
-- Lists measured by native numbers, Python's `any`, `sum` and filtering comprehensions, and a
-- predicate that holds of every entry.
use Prim.Native.Nat.{ℕ, zero, suc, ◌+◌, ◌≤◌}
use mathlib.Core.Path.{◌≡◌, refl}
use mathlib.Core.Logic.{◌⊎◌, inl, inr}
use mathlib.Core.Bool.{Bool, true, false, ◌||◌, ◌&&◌}
use mathlib.Core.List.{List, [], ◌∷◌, ◌++◌, map}
use mathlib.Core.Option.{Option, none, some}
use native.Mathlib.Omega.{arith}
use podhaus.Base.Tests.{if◌then◌else◌}

module _ {ℓ} {A : Type ℓ} where
  abbrev pub length : List A → ℕ
  length [] = 0
  length (x ∷ xs) = suc (length xs)

  -- `xs[-1]`, if there is one
  abbrev pub get_last? : List A → Option A
  get_last? [] = none
  get_last? (x ∷ []) = some x
  get_last? (x ∷ y ∷ ys) = get_last? (y ∷ ys)

  -- `xs[:n]` and `xs[n:]`
  abbrev pub take : ℕ → List A → List A
  take zero xs = []
  take (suc n) [] = []
  take (suc n) (x ∷ xs) = x ∷ take n xs

  abbrev pub drop : ℕ → List A → List A
  drop zero xs = xs
  drop (suc n) [] = []
  drop (suc n) (x ∷ xs) = drop n xs

  -- `[x for x in xs if p(x)]`
  abbrev pub keep : (A → Bool) → List A → List A
  keep p [] = []
  keep p (x ∷ xs) = if p x then x ∷ keep p xs else keep p xs

  -- `any(p(x) for x in xs)`
  abbrev pub any : (A → Bool) → List A → Bool
  any p [] = false
  any p (x ∷ xs) = p x || any p xs

  -- `sum(f(x) for x in xs)`
  abbrev pub sum_of : (A → ℕ) → List A → ℕ
  sum_of f [] = 0
  sum_of f (x ∷ xs) = f x + sum_of f xs

  pub length-append : (xs ys : List A) → length (xs ++ ys) ≡ length xs + length ys
  length-append [] ys = omega arith
  length-append (x ∷ xs) ys = omega (arith, length-append xs ys)

  pub get_last?-append : (xs : List A) (x : A) → get_last? (xs ++ x ∷ []) ≡ some x
  get_last?-append [] x = refl
  get_last?-append (y ∷ []) x = refl
  get_last?-append (y ∷ z ∷ zs) x = get_last?-append (z ∷ zs) x

  pub length-keep-le : (p : A → Bool) (xs : List A) → length (keep p xs) ≤ length xs
  length-keep-le p [] = omega arith
  length-keep-le p (x ∷ xs) = ground (arith, length-keep-le p xs)

pub any_mono {ℓ} :
    {A : Type ℓ} (p q : A → Bool) (xs : List A)
    → ((x : A) → p x ≡ true → q x ≡ true)
    → any p xs ≡ true
    → any q xs ≡ true
any_mono p q [] h e = e
any_mono p q (x ∷ xs) h e = ground (arith, h x, any_mono p q xs h)

-- Every entry of the list satisfies the predicate.
abbrev pub All {κ ℓ} : {A : Type ℓ} → (Q : A → Type κ) → List A → Type κ
All Q [] = Unit
All Q (y ∷ ys) = Q y × All Q ys

pub All-mono {κ ι ℓ} :
    {A : Type ℓ} {Q : A → Type κ} {R : A → Type ι} (xs : List A)
    → ((x : A) → Q x → R x)
    → All Q xs
    → All R xs
All-mono [] h a = tt
All-mono (x ∷ xs) h a = (h x a.0, All-mono xs h a.1)

pub All-append {κ ℓ} :
    {A : Type ℓ} (Q : A → Type κ) (front back : List A)
    → All Q front
    → All Q back
    → All Q (front ++ back)
All-append Q [] back f b = b
All-append Q (y ∷ ys) back f b = (f.0, All-append Q ys back f.1 b)

pub any-map-keep {ℓ κ} :
    {A : Type ℓ} {B : Type κ} (f : B → Bool) (g : A → B) (test : A → Bool) (xs : List A)
    → any f (map g (keep test xs)) ≡ any (λ x. test x && f (g x)) xs
any-map-keep f g test [] = refl
any-map-keep f g test (x ∷ xs) = ground (arith, any-map-keep f g test xs)

pub any-append {ℓ} :
    {A : Type ℓ} (f : A → Bool) (xs ys : List A) → any f (xs ++ ys) ≡ (any f xs || any f ys)
any-append f [] ys = refl
any-append f (x ∷ xs) ys = ground (arith, any-append f xs ys)

-- The list has the entry.
pub data In {ℓ} {A : Type ℓ} : A → List A → Type ℓ where
  here : {a : A} {as' : List A} → In a (a ∷ as')
  later : {a b : A} {as' : List A} → In a as' → In a (b ∷ as')

pub In-cases {ℓ} : {A : Type ℓ} {a b : A} {as' : List A} → In a (b ∷ as') → (a ≡ b) ⊎ In a as'
In-cases here = inl refl
In-cases (later i) = inr i

pub append_nil {ℓ} : {A : Type ℓ} (xs ys : List A) → xs ++ ys ≡ [] → (xs ≡ []) × (ys ≡ [])
append_nil [] ys e = (refl, e)
append_nil (x ∷ xs) ys e = absurd (clash e)
  where
    clash : x ∷ xs ++ ys ≡ [] → ⊥
    clash c = cc

pub All-keep {κ ℓ} :
    {A : Type ℓ} (Q : A → Type κ) (test : A → Bool) (xs : List A) → All Q xs → All Q (keep test xs)
All-keep Q test [] a = a
All-keep Q test (x ∷ xs) a = go (test x) (All-keep Q test xs a.1)
  where
    go : (b : Bool) → All Q (keep test xs) → All Q (if b then x ∷ keep test xs else keep test xs)
    go true rest = (a.0, rest)
    go false rest = rest
