-- ===== src/Streamfab/Moved.antt =====
-- Where a recording is after a run of streamfab-publish.py, and what else the run changes.
use podhaus.Streamfab.Kept.{
  IsFixed, node_at-unlink, prune_up-Fixed, below_apart, node_at-make_parents,
}
use podhaus.Streamfab.{
  publish_to, prune_empty, classify, rename, download_root, make_parents, tv_root, movie_root,
  needs_file, sxxexx_at,
}
use podhaus.Base.{
  ℕ, ◌≡◌, some, false, none, ◌⊎◌, Option-cases, Bool-cases, true, ◌∷◌, refl, Bool, inr, inl, [],
  sym, if◌then◌else◌, ◌==◌, ◌∙◌, arith, length, ◌++◌, subst, ap,
}
use podhaus.Files.{FilePath, path_eq, is_below, parent, base_name}
use podhaus.Files.Laws.{path_eq-eq, path_eq_refl}
use podhaus.Files.Disk.{Disk, Node, node_at, unlink, file, directory, size_of}
use podhaus.Base.Codes.{search_in, text_eq}

abbrev pub node_size : Node → ℕ
node_size (file n) = n
node_size directory = 0

-- Something of the size stands at the path.
abbrev pub Holds : Disk → FilePath → ℕ → Type 0
Holds d p n = (y : Node) × (node_at d p ≡ some y) × (node_size y ≡ n)

pub classify-outside :
    (parts dest : FilePath) → classify parts ≡ some dest → is_below download_root dest ≡ false
unfolding classify is_below text_eq
classify-outside [] dest e = absurd (no_dest dest e)
  where
    no_dest : (dest : FilePath) → none ≡ some dest → ⊥
    no_dest dest c = cc
classify-outside (a ∷ []) dest e = absurd (no_dest dest e)
  where
    no_dest : (dest : FilePath) → none ≡ some dest → ⊥
    no_dest dest c = cc
classify-outside (a ∷ b ∷ []) dest e = absurd (no_dest dest e)
  where
    no_dest : (dest : FilePath) → none ≡ some dest → ⊥
    no_dest dest c = cc
classify-outside (a ∷ b ∷ c ∷ parts) dest e =
    subst (λ p. is_below download_root p ≡ false) (ap (λ o. elim o [ none ↦ dest | some p ↦ p ]) e)
      (library (search_in sxxexx_at (base_name (c ∷ parts))) (b ∷ c ∷ parts))
  where
    library :
        (tv : Bool) (rel : FilePath)
        → is_below download_root ((if tv then tv_root else movie_root) ++ rel) ≡ false
    library true rel = refl
    library false rel = refl

publish_to_present :
    (src dest : FilePath) (y : Node) (d : Disk)
    → node_at d dest ≡ some y
    → publish_to src dest d ≡ (if size_of d dest == size_of d src then unlink src d else d)
unfolding publish_to
publish_to_present src dest y d there = rw (publish_to, there) refl

size_of_lem :
    (p : FilePath) (y : Node) (d : Disk) → node_at d p ≡ some y → size_of d p ≡ node_size y
size_of_lem p (file n) d e = rw (size_of, e) refl
size_of_lem p directory d e = rw (size_of, e) refl

-- The three ways in which a file with a destination is treated.
publish_to_cases :
    (src dest : FilePath) (d : Disk)
    → (publish_to src dest d ≡ d)
      ⊎ (((y : Node) × (node_at d dest ≡ some y)
            × (size_of d dest ≡ size_of d src)
            × (publish_to src dest d ≡ unlink src d))
          ⊎ ((node_at d dest ≡ none)
              × (publish_to src dest d
                  ≡ prune_empty (parent src) (rename src dest (make_parents [] (parent dest) d)))))
unfolding publish_to
publish_to_cases src dest d = elim (Option-cases (node_at d dest)) [
  | inr (y, there) ↦ elim (Bool-cases (size_of d dest == size_of d src)) [
    | inl same ↦ inr (
        inl (
          y,
          there,
          equal_sizes (size_of d dest) (size_of d src) same,
          publish_to_present src dest y d there ∙ ap (λ b. if b then unlink src d else d) same,
        ))
    | inr differ ↦
        inl (publish_to_present src dest y d there ∙ ap (λ b. if b then unlink src d else d) differ)
  ]
  | inl free ↦ elim (Bool-cases (needs_file dest d)) [
    | inl blocked ↦ inl (rw (publish_to, free, blocked) refl)
    | inr open_path ↦ inr (inr (free, rw (publish_to, free, open_path) refl))
  ]
]
  where
    equal_sizes : (a b : ℕ) → (a == b) ≡ true → a ≡ b
    equal_sizes a b h = ground arith

rename-other :
    (src dest p : FilePath) (x : Node) (d : Disk)
    → path_eq src p ≡ false
    → path_eq dest p ≡ false
    → node_at d p ≡ some x
    → node_at (rename src dest d) p ≡ some x
unfolding rename node_at
rename-other src dest p x d apart away found = elim (Option-cases (node_at d src)) [
  | inl gone ↦ rw (rename, gone) found
  | inr (n, there) ↦ rw (rename, there, away) (node_at-unlink src p x d apart found)
]

path_apart :
    (dest p : FilePath) (x : Node) (d : Disk)
    → node_at d dest ≡ none
    → node_at d p ≡ some x
    → path_eq dest p ≡ false
path_apart dest p x d free found = elim (Bool-cases (path_eq dest p)) [
  | inr apart ↦ apart
  | inl same ↦ absurd (clash (sym (rw (path_eq-eq dest p same) at free) ∙ found))
]
  where
    clash : none ≡ some x → ⊥
    clash c = cc

pub publish_to-other :
    (src dest p : FilePath) (x : Node) (d : Disk)
    → path_eq src p ≡ false
    → IsFixed p x
    → node_at d p ≡ some x
    → node_at (publish_to src dest d) p ≡ some x
unfolding prune_empty
publish_to-other src dest p x d apart fixed found = elim (publish_to_cases src dest d) [
  | inl same ↦ rw same found
  | inr (inl (y, there, size, dup)) ↦ rw dup (node_at-unlink src p x d apart found)
  | inr (inr (free, moved)) ↦
      let made = make_parents [] (parent dest) d in
      rw moved (
        prune_up-Fixed (length (parent src)) (parent src) p x (rename src dest made) fixed (
          rename-other src dest p x made apart (path_apart dest p x d free found)
            (node_at-make_parents [] (parent dest) d p x found)))
]

rename-dest :
    (src dest : FilePath) (x : Node) (d : Disk)
    → node_at d src ≡ some x
    → node_at (rename src dest d) dest ≡ some x
unfolding rename node_at
rename-dest src dest x d found = rw (rename, found, path_eq_refl dest) refl

-- A file with a destination stays, or something of its size stands there.
pub publish_to_self :
    (src dest : FilePath) (n : ℕ) (d : Disk)
    → is_below download_root src ≡ true
    → is_below download_root dest ≡ false
    → node_at d src ≡ some (file n)
    → (node_at (publish_to src dest d) src ≡ some (file n)) ⊎ Holds (publish_to src dest d) dest n
unfolding prune_empty
publish_to_self src dest n d below outside found = elim (publish_to_cases src dest d) [
  | inl same ↦ inl (rw same found)
  | inr (inl (y, there, size, dup)) ↦ inr (
    y,
    rw dup (node_at-unlink src dest y d (below_apart src dest below outside) there),
    sym (size_of_lem dest y d there) ∙ size ∙ size_of_lem src (file n) d found,
  )
  | inr (inr (free, moved)) ↦
      let made = make_parents [] (parent dest) d in
      inr (
        file n,
        rw moved (
            prune_up-Fixed (length (parent src)) (parent src) dest (file n) (rename src dest made)
              (inl refl)
              (rename-dest src dest (file n) made
                (node_at-make_parents [] (parent dest) d src (file n) found))),
        refl,
      )
]
