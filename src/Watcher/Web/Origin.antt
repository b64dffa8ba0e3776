-- ===== src/Watcher/Web/Origin.antt =====
-- What the handlers of llm/watcher/web.py let through.
use podhaus.Base.Codes.{text_eq, text_eq-eq, text_eq_refl}
use podhaus.Base.Text.{str_eq, eq_iff}
use podhaus.Watcher.Data.{GuestMemory, Watcher}
use podhaus.Watcher.Lifecycle.{snapshot}
use podhaus.Watcher.Exec.{Answers, Run, ok}
use podhaus.Base.{
  String, List, ℕ, ◌≡◌, true, ◌∷◌, [], arith, refl, some, false, ◌⊎◌, if◌then◌else◌, is_some,
  Option-cases, none, ap, ◌==◌, inl, inr, Bool-cases, ◌++◌, ◌≢◌, ◌↔◌, not, Option, sum_of, map,
}
use podhaus.Watcher.Data.{Phase, serving, yielding, yielded, resuming, name}
use podhaus.Watcher.Web.{
  Headers, Button, button_at, cross_site, do_post, press, Response, status_code, is_delimiter,
  is_scheme, not_found, forbidden, after_scheme, until_delimiter, netloc, is_alpha, is_text,
  state_gauges, snapshot, GuestMemory, str_eq, state_names, text_eq,
}

-- A post changes the watcher only as the button of its path, and not if it is from another site: a
-- refused post changes nothing and is answered 404 for another path, else 403.
pub do_post-guards :
    (path : String) (headers : Headers) (now : ℕ) (a : Answers) (r : Run)
    → ((b : Button) × (button_at path ≡ some b)
        × (cross_site headers ≡ false)
        × ((do_post path headers now a r).1 ≡ (press b now a r).1))
      ⊎ (((do_post path headers now a r).1 ≡ r)
          × ((response : Response) × ((do_post path headers now a r).0 ≡ ok response)
              × (status_code response ≡ (if is_some (button_at path) then 403 else 404))))
unfolding do_post status_code
do_post-guards path headers now a r = elim (Option-cases (button_at path)) [
  | inl e ↦ rw (e, do_post) (inr (refl, (not_found, refl, refl)))
  | inr (b, e) ↦ elim (Bool-cases (cross_site headers)) [
    | inl crosses ↦ inr (ground arith, (forbidden, ground arith, ground arith))
    | inr same ↦ inl (b, e, same, ground arith)
  ]
]

-- Every code point of a scheme name, and the first one a letter.
abbrev pub AllScheme : List ℕ → Type 0
AllScheme [] = Unit
AllScheme (c ∷ cs) = (is_scheme c ≡ true) × AllScheme cs

abbrev pub NoDelimiter : List ℕ → Type 0
NoDelimiter [] = Unit
NoDelimiter (c ∷ cs) = (is_delimiter c ≡ false) × NoDelimiter cs

-- Nothing, or what begins with a delimiter.
abbrev pub IsTail : List ℕ → Type 0
IsTail [] = Unit
IsTail (c ∷ cs) = is_delimiter c ≡ true

is_scheme-ne-colon : (c : ℕ) → is_scheme c ≡ true → c == b':' ≡ false
unfolding is_scheme
is_scheme-ne-colon c e = ground arith

after_scheme-colon :
    (whole name rest : List ℕ) → AllScheme name → after_scheme whole (name ++ (b':' ∷ rest)) ≡ rest
unfolding after_scheme
after_scheme-colon whole [] rest h = refl
after_scheme-colon whole (c ∷ cs) rest h =
    rw (is_scheme-ne-colon c h.0, h.0) (after_scheme-colon whole cs rest h.1)

until_delimiter-append :
    (host tail : List ℕ) → NoDelimiter host → IsTail tail → until_delimiter (host ++ tail) ≡ host
unfolding until_delimiter
until_delimiter-append [] [] h t = refl
until_delimiter-append [] (c ∷ cs) h t = ground arith
until_delimiter-append (c ∷ cs) tail h t = ground (arith, until_delimiter-append cs tail h.1 t)

-- The text `scheme://host` with `tail` behind it, where the scheme is `c` and then `name`.
abbrev pub url_of : ℕ → List ℕ → List ℕ → List ℕ → List ℕ
url_of c name host tail = c ∷ (name ++ (b':' ∷ (b'/' ∷ (b'/' ∷ (host ++ tail)))))

-- The network location of `scheme://host`, with a path or nothing behind it, is the host.
netloc_of :
    (c : ℕ) (name host tail : List ℕ)
    → is_alpha c ≡ true
    → AllScheme name
    → NoDelimiter host
    → IsTail tail
    → netloc (url_of c name host tail) ≡ host
unfolding netloc
netloc_of c name host tail letter scheme h t =
    rw
      (
        letter,
        after_scheme-colon (url_of c name host tail) name (b'/' ∷ (b'/' ∷ (host ++ tail))) scheme,
      )
      (until_delimiter-append host tail h t)

same_host : (h u : List ℕ) → (not (text_eq h u) ≡ false) ↔ (h ≡ u)
same_host h u = (λ e. text_eq-eq h u (ground arith), λ e. rw e (ground (arith, text_eq_refl u)))

fetch_site_lem :
    (site : Option String)
    → site ≢ some "cross-site"
    → elim site [ none ↦ false | some s ↦ str_eq s "cross-site" ] ≡ false
fetch_site_lem none ne = refl
fetch_site_lem (some s) ne = elim (Bool-cases (str_eq s "cross-site")) [
  | inl e ↦ absurd (ne (ap some ((eq_iff s "cross-site").0 e)))
  | inr e ↦ e
]

-- A post with a well-formed origin, which the browser does not itself call cross-site, passes
-- exactly when the origin's host is the host that it was sent to.
pub cross_site_iff :
    (headers : Headers) (c : ℕ) (name host tail sent : List ℕ)
    → is_alpha c ≡ true
    → AllScheme name
    → NoDelimiter host
    → IsTail tail
    → headers.origin ≡ some (url_of c name host tail)
    → headers.host ≡ some sent
    → headers.fetch_site ≢ some "cross-site"
    → (cross_site headers ≡ false) ↔ (host ≡ sent)
unfolding cross_site is_text
cross_site_iff headers c name host tail sent letter scheme h t o s f =
    rw (fetch_site_lem headers.fetch_site f, o, s, netloc_of c name host tail letter scheme h t)
      (same_host host sent)

-- The state gauges of the metrics sum to 1: one of them is 1 and the others are 0.
pub state_gauges-one :
    (now : ℕ) (memory : GuestMemory) (w : Watcher)
    → sum_of (λ (g : String × ℕ). g.1) (state_gauges (snapshot now memory w)) ≡ 1
unfolding state_gauges snapshot name
state_gauges-one now memory w = go w.phase
  where
    go :
        (p : Phase)
        → sum_of
            (λ (g : String × ℕ). g.1)
            (map (λ n. (n, if str_eq n (name p) then 1 else 0)) state_names)
          ≡ 1
    go (serving _) = refl
    go (yielding _ _ _) = refl
    go yielded = refl
    go (resuming _ _ _) = refl
