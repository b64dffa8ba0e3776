-- ===== src/Notify/Once.antt =====
-- How often ssh-auth-notify tells of one request.
use podhaus.Notify.Sync.{handle_all}
use podhaus.Base.Text.{str_eq}
use podhaus.Notify.Context.{Context}
use podhaus.Base.Codes.{Text, text_eq, text_eq-eq, text_eq_refl}
use podhaus.Notify.Forward.{
  state_eq, forward, seen_state, handle_binding, Forwarder, Arrival, BindingState, forget, post_of,
  note_state, Binding, Config, numbered, in_flight, accepted, revoked, Post, owner_of,
  fingerprint_of, is_in_flight, route_for, is_stale, is_state, handle_record,
}
use podhaus.Base.{
  ℕ, Bool, Option, List, sum_of, false, ◌≡◌, ◌∷◌, some, none, [], true, if◌then◌else◌, ◌≤◌, arith,
  ◌+◌, ◌&&◌, Bool-cases, ◌⊎◌, inl, inr, not, refl, is_some, ap, ◌∙◌, subst, sym,
}

abbrev pub posts_of : Text → Forwarder → ℕ
posts_of id f = sum_of (λ p. if text_eq p.user_code id then 1 else 0) f.posts

-- What an arrival says of the request `id`, if it is about it: its state, or that it is gone.
abbrev news_of : Text → Arrival → Option Binding → Option (Option BindingState)
news_of id a none = none
news_of id a (some b) =
    if str_eq b.protocol "ssh" && text_eq a.source.id id
    then some (if a.source.is_deleted then none else some b.state)
    else none

abbrev add_news :
    Option (Option BindingState) → List (Option BindingState) → List (Option BindingState)
add_news none news = news
add_news (some s) news = s ∷ news

abbrev pub history : Text → List (Bool × Arrival) → List (Option BindingState)
history id [] = []
history id ((initial, a) ∷ events) = add_news (news_of id a a.source.binding) (history id events)

-- How often a request comes to be in another state than before.
abbrev pub changes : Option BindingState → List (Option BindingState) → ℕ
changes prev [] = 0
changes prev (none ∷ news) = changes none news
changes prev (some s ∷ news) = (if is_state prev s then 0 else 1) + changes (some s) news

state_eq-eq : (r s : BindingState) → state_eq r s ≡ true → r ≡ s
unfolding state_eq
state_eq-eq in_flight s e = ground arith
state_eq-eq accepted s e = ground arith
state_eq-eq revoked s e = ground arith
state_eq-eq (numbered n) s e = ground arith

seen_state-forget :
    (i id : Text) (seen : List (Text × BindingState))
    → seen_state id (forget i seen) ≡ (if text_eq i id then none else seen_state id seen)
unfolding seen_state forget
seen_state-forget i id [] = ground arith
seen_state-forget i id ((j, s) ∷ seen) = elim (Bool-cases (text_eq j i)) [
  | inl same ↦ rw (same, text_eq-eq j i same) (ground (arith, seen_state-forget i id seen))
  | inr other ↦ rw other (elim (Bool-cases (text_eq i id)) [
    | inr apart ↦ ground (arith, seen_state-forget i id seen)
    | inl same ↦
        rw ((rw (text_eq-eq i id same) at other), same) (seen_state-forget i id seen ∙ rw same refl)
  ])
]

-- One call for another request, and one for this.
abbrev Step : Text → Option (Option BindingState) → Forwarder → Forwarder → Type 0
Step id none f f' =
    (seen_state id f'.seen ≡ seen_state id f.seen) × (posts_of id f' ≡ posts_of id f)
Step id (some none) f f' = (seen_state id f'.seen ≡ none) × (posts_of id f' ≡ posts_of id f)
Step id (some (some s)) f f' =
    (seen_state id f'.seen ≡ some s)
    × (posts_of id f' ≤ posts_of id f + (if is_state (seen_state id f.seen) s then 0 else 1))

-- It posts once, about the request given, or not at all.
forward_cases :
    (config : Config) (code : Text) (b : Binding) (attempts : ℕ → Context × ℕ) (f : Forwarder)
    → (forward config code b attempts f ≡ f)
      ⊎ ((p : Post) × (p.user_code ≡ code)
          × (forward config code b attempts f ≡ record f { posts = p ∷ f.posts }))
unfolding forward post_of
forward_cases config code b attempts f =
    elim (Bool-cases
      (not (is_some (owner_of (fingerprint_of b) config.owners)) && is_in_flight b.state)) [
        | inl silent ↦ inl (rw (silent, forward) refl)
        | inr told ↦ inr (
          post_of config code b (owner_of (fingerprint_of b) config.owners) (route_for b attempts),
          refl,
          rw (told, forward) refl,
        )
      ]

forward_lem :
    (id : Text) (config : Config) (code : Text) (b : Binding) (attempts : ℕ → Context × ℕ)
    (f : Forwarder)
    → ((forward config code b attempts f).seen ≡ f.seen)
      × (posts_of id (forward config code b attempts f)
          ≤ posts_of id f + (if text_eq code id then 1 else 0))
      × (posts_of id f ≤ posts_of id (forward config code b attempts f))
forward_lem id config code b attempts f = elim (forward_cases config code b attempts f) [
  | inl same ↦ rw same (refl, omega arith, omega arith)
  | inr (p, about, told) ↦ rw told (refl, rw about (omega arith), omega arith)
]

is_seen_lem : (o : Option BindingState) (s : BindingState) → is_state o s ≡ true → o ≡ some s
is_seen_lem none s e = cc
is_seen_lem (some r) s e = ap some (state_eq-eq r s e)

-- A call about the request itself.
own-Step :
    (config : Config) (initial : Bool) (a : Arrival) (b : Binding) (f : Forwarder)
    → str_eq b.protocol "ssh" ≡ true
    → Step a.source.id
        (some (if a.source.is_deleted then none else some b.state))
        f
        (handle_binding config initial a b f)
unfolding handle_binding note_state seen_state
own-Step config initial a b f ssh = elim (Bool-cases a.source.is_deleted) [
  | inl gone ↦
      rw (ssh, gone, handle_binding)
        (
          seen_state-forget a.source.id a.source.id f.seen ∙ rw (text_eq_refl a.source.id) refl,
          refl,
        )
  | inr live ↦ elim (Bool-cases (is_state (seen_state a.source.id f.seen) b.state)) [
    | inl known ↦
        rw (ssh, live, known, handle_binding)
          (is_seen_lem (seen_state a.source.id f.seen) b.state known, omega arith)
    | inr new ↦ elim (Bool-cases (initial && is_stale b a.now)) [
      | inl stale ↦
          rw (ssh, live, new, stale, handle_binding)
            (rw (text_eq_refl a.source.id) refl, omega arith)
      | inr current ↦
          let told =
            forward_lem a.source.id config a.source.id b a.attempts
              (note_state a.source.id b.state f) in
          rw (ssh, live, new, current, handle_binding)
            (
              ap (seen_state a.source.id) told.0 ∙ rw (text_eq_refl a.source.id) refl,
              rw (text_eq_refl a.source.id) at told.1,
            )
    ]
  ]
]

-- A call about another request.
other-Step :
    (id : Text) (config : Config) (initial : Bool) (a : Arrival) (b : Binding) (f : Forwarder)
    → text_eq a.source.id id ≡ false
    → Step id none f (handle_binding config initial a b f)
unfolding handle_binding note_state seen_state
other-Step id config initial a b f apart = elim (Bool-cases (str_eq b.protocol "ssh")) [
  | inr other ↦ rw (other, handle_binding) (refl, refl)
  | inl ssh ↦ elim (Bool-cases a.source.is_deleted) [
    | inl gone ↦
        rw (ssh, gone, handle_binding)
          (seen_state-forget a.source.id id f.seen ∙ rw apart refl, refl)
    | inr live ↦ elim (Bool-cases (is_state (seen_state a.source.id f.seen) b.state)) [
      | inl known ↦ rw (ssh, live, known, handle_binding) (refl, refl)
      | inr new ↦ elim (Bool-cases (initial && is_stale b a.now)) [
        | inl stale ↦ rw (ssh, live, new, stale, handle_binding) (rw apart refl, refl)
        | inr current ↦
            let told =
              forward_lem id config a.source.id b a.attempts (note_state a.source.id b.state f) in
            rw (ssh, live, new, current, handle_binding)
              (
                ap (seen_state id) told.0 ∙ rw apart refl,
                omega (arith, told.2, (rw apart at told.1)),
              )
      ]
    ]
  ]
]

not_ssh :
    (id : Text) (config : Config) (initial : Bool) (a : Arrival) (b : Binding) (f : Forwarder)
    → str_eq b.protocol "ssh" ≡ false
    → Step id none f (handle_binding config initial a b f)
unfolding handle_binding
not_ssh id config initial a b f other = rw (other, handle_binding) (refl, refl)

handle_binding-Step :
    (id : Text) (config : Config) (initial : Bool) (a : Arrival) (b : Binding) (f : Forwarder)
    → Step id (news_of id a (some b)) f (handle_binding config initial a b f)
handle_binding-Step id config initial a b f = elim (Bool-cases (str_eq b.protocol "ssh")) [
  | inr other ↦
      subst (λ n. Step id n f (handle_binding config initial a b f))
        (sym (no_news (text_eq a.source.id id) other)) (no_ssh other)
  | inl ssh ↦ elim (Bool-cases (text_eq a.source.id id)) [
    | inr apart ↦
        subst (λ n. Step id n f (handle_binding config initial a b f)) (sym (unrelated apart))
          (other-Step id config initial a b f apart)
    | inl same ↦
        subst (λ n. Step id n f (handle_binding config initial a b f)) (sym (its_news ssh same))
          (subst
            (λ x.
              Step x (some (if a.source.is_deleted then none else some b.state)) f
                (handle_binding config initial a b f))
            (text_eq-eq a.source.id id same) (own-Step config initial a b f ssh))
  ]
]
  where
    no_news :
        (c : Bool)
        → str_eq b.protocol "ssh" ≡ false
        → (if str_eq b.protocol "ssh" && c
            then some (if a.source.is_deleted then none else some b.state)
            else none)
          ≡ none
    no_news c e = rw e refl

    no_ssh : str_eq b.protocol "ssh" ≡ false → Step id none f (handle_binding config initial a b f)
    no_ssh e = not_ssh id config initial a b f e

    unrelated : text_eq a.source.id id ≡ false → news_of id a (some b) ≡ none
    unrelated e = ground arith

    its_news :
        str_eq b.protocol "ssh" ≡ true
        → text_eq a.source.id id ≡ true
        → news_of id a (some b) ≡ some (if a.source.is_deleted then none else some b.state)
    its_news e h = rw (e, h) refl

-- One more step before the others.
prepend :
    (id : Text) (f f' : Forwarder) (news : Option (Option BindingState))
    (later : List (Option BindingState)) (n : ℕ)
    → Step id news f f'
    → n ≤ posts_of id f' + changes (seen_state id f'.seen) later
    → n ≤ posts_of id f + changes (seen_state id f.seen) (add_news news later)
prepend id f f' none later n (same, posts) h =
    omega (arith, posts, h, ap (λ s. changes s later) same)
prepend id f f' (some none) later n (same, posts) h =
    omega (arith, posts, h, ap (λ s. changes s later) same)
prepend id f f' (some (some s)) later n (same, posts) h =
    omega (arith, posts, h, ap (λ s. changes s later) same)

pub handle_all-changes :
    (id : Text) (config : Config) (events : List (Bool × Arrival)) (f : Forwarder)
    → posts_of id (handle_all config events f).forwarder
      ≤ posts_of id f + changes (seen_state id f.seen) (history id events)
unfolding handle_all handle_record
handle_all-changes id config [] f = omega arith
handle_all-changes id config ((initial, a) ∷ events) f =
    go a.source.binding refl (λ f'. handle_all-changes id config events f')
  where
    go :
        (o : Option Binding)
        → a.source.binding ≡ o
        → ((f' : Forwarder)
            → posts_of id (handle_all config events f').forwarder
              ≤ posts_of id f' + changes (seen_state id f'.seen) (history id events))
        → posts_of id (handle_all config ((initial, a) ∷ events) f).forwarder
          ≤ posts_of id f + changes (seen_state id f.seen) (history id ((initial, a) ∷ events))
    go none e ih = rw (e, handle_all, handle_record) (omega arith)
    go (some b) e ih =
        rw (e, handle_all, handle_record)
          (prepend id f (handle_binding config initial a b f) (news_of id a (some b))
            (history id events)
            (posts_of id (handle_all config events (handle_binding config initial a b f)).forwarder)
            (handle_binding-Step id config initial a b f)
            (ih (handle_binding config initial a b f)))
