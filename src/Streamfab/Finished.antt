-- ===== src/Streamfab/Finished.antt =====
-- A whole run of streamfab-publish.py.
use podhaus.Streamfab.Moved.{Holds, publish_to-other, publish_to_self, classify-outside}
use podhaus.Streamfab.Kept.{IsFixed, below_apart}
use podhaus.Base.{
  ◌≡◌, ℕ, if◌then◌else◌, false, some, List, true, All, none, length, ◌⊎◌, Option-cases, Bool-cases,
  inl, ◌≤◌, ◌∷◌, is_some, inr, [], subst, sym, ap, refl, suc, arith, zero,
}
use podhaus.Streamfab.{
  main, prune_empty, publish_files, publish, download_root, is_candidate, walk, prune_up, classify,
  sentinel, rmdir,
}
use podhaus.Files.{FilePath, path_eq, is_below, parts_behind, parent}
use podhaus.Files.Laws.{path_eq-eq, find_below-All, length-parent}
use podhaus.Files.Disk.{Disk, Node, node_at, file, is_file_node}

publish-other :
    (src p : FilePath) (x : Node) (d : Disk)
    → path_eq src p ≡ false
    → IsFixed p x
    → node_at d p ≡ some x
    → node_at (publish src d) p ≡ some x
unfolding publish
publish-other src p x d apart fixed found =
    elim (Option-cases (classify (parts_behind download_root src))) [
      | inl left ↦ rw (publish, left) found
      | inr (dest, goes) ↦ rw (publish, goes) (publish_to-other src dest p x d apart fixed found)
    ]

-- A file stays, or something of its size stands where it belongs.
abbrev pub IsFinished : FilePath → ℕ → Disk → Type 0
IsFinished p n d =
    (node_at d p ≡ some (file n))
    ⊎ ((dest : FilePath) × (classify (parts_behind download_root p) ≡ some dest) × Holds d dest n)

publish_self :
    (src : FilePath) (n : ℕ) (d : Disk)
    → is_below download_root src ≡ true
    → node_at d src ≡ some (file n)
    → IsFinished src n (publish src d)
unfolding publish
publish_self src n d below found = elim (Option-cases (classify (parts_behind download_root src))) [
  | inl left ↦ inl (rw (publish, left) found)
  | inr (dest, goes) ↦
      elim (publish_to_self src dest n d below
        (classify-outside (parts_behind download_root src) dest goes) found) [
          | inl stays ↦ inl (rw (publish, goes) stays)
          | inr there ↦
              inr (dest, goes, subst (λ d'. Holds d' dest n) (sym (rw (publish, goes) refl)) there)
        ]
]

abbrev turn : FilePath → Disk → Disk
turn src d = if is_candidate (parts_behind download_root src) then publish src d else d

turn-other :
    (src p : FilePath) (x : Node) (d : Disk)
    → path_eq src p ≡ false
    → IsFixed p x
    → node_at d p ≡ some x
    → node_at (turn src d) p ≡ some x
turn-other src p x d apart fixed found =
    elim (Bool-cases (is_candidate (parts_behind download_root src))) [
      | inl one ↦ rw one (publish-other src p x d apart fixed found)
      | inr other ↦ rw other found
    ]

publish_files-outside :
    (sources : List FilePath) (p : FilePath) (x : Node) (d : Disk)
    → All (λ s. is_below download_root s ≡ true) sources
    → is_below download_root p ≡ false
    → node_at d p ≡ some x
    → node_at (publish_files sources d) p ≡ some x
unfolding publish_files
publish_files-outside [] p x d below outside found = found
publish_files-outside (src ∷ sources) p x d below outside found =
    publish_files-outside sources p x (turn src d) below.1 outside
      (turn-other src p x d (below_apart src p below.0 outside) (inr outside) found)

publish_files-IsFinished :
    (sources : List FilePath) (p : FilePath) (n : ℕ) (d : Disk)
    → All (λ s. is_below download_root s ≡ true) sources
    → node_at d p ≡ some (file n)
    → IsFinished p n (publish_files sources d)
unfolding publish_files
publish_files-IsFinished [] p n d below found = inl found
publish_files-IsFinished (src ∷ sources) p n d below found = elim (Bool-cases (path_eq src p)) [
  | inr apart ↦
      publish_files-IsFinished sources p n (turn src d) below.1
        (turn-other src p (file n) d apart (inl refl) found)
  | inl same ↦ elim (Bool-cases (is_candidate (parts_behind download_root src))) [
    | inr other ↦ rw other (publish_files-IsFinished sources p n d below.1 found)
    | inl one ↦ rw one (elim (publish_self src n d below.0 (rw (path_eq-eq src p same) found)) [
      | inl stays ↦
          publish_files-IsFinished sources p n (publish src d) below.1
            (subst (λ q. node_at (publish src d) q ≡ some (file n)) (path_eq-eq src p same) stays)
      | inr (dest, goes, (y, there, size)) ↦ inr (
        dest,
        rw (sym (path_eq-eq src p same)) goes,
        (
          y,
          publish_files-outside sources dest y (publish src d) below.1
              (classify-outside (parts_behind download_root src) dest goes) there,
          size,
        ),
      )
    ])
  ]
]

-- A run that ends without an error, which is one that finds the mark of the mounted volume, leaves every node
-- outside the folder of the recordings as it was. And it loses no file: each stays where it was, or, when
-- its path is of the expected shape, something of its size stands at its place in the library.
pub main-IsFinished :
    (d d' : Disk)
    → main d ≡ some d'
    → ((p : FilePath) (x : Node)
        → is_below download_root p ≡ false
        → node_at d p ≡ some x
        → node_at d' p ≡ some x)
      × ((p : FilePath) (n : ℕ) → node_at d p ≡ some (file n) → IsFinished p n d')
unfolding main walk
main-IsFinished d d' e = elim (Bool-cases (is_some (node_at d sentinel))) [
  | inr absent ↦ absurd (no_run (rw (main, absent) at e))
  | inl mounted ↦
      let below = find_below-All download_root (λ e. is_file_node e.node) d in
      subst
        (λ u.
          ((p : FilePath) (x : Node)
            → is_below download_root p ≡ false
            → node_at d p ≡ some x
            → node_at u p ≡ some x)
          × ((p : FilePath) (n : ℕ) → node_at d p ≡ some (file n) → IsFinished p n u))
        (ap (λ o. elim o [ none ↦ d' | some u ↦ u ]) (rw (main, mounted) at e))
        (
          λ p x outside found. publish_files-outside (walk d) p x d below outside found,
          λ p n found. publish_files-IsFinished (walk d) p n d below found,
        )
]
  where
    no_run : none ≡ some d' → ⊥
    no_run c = cc

too_long : (as' : FilePath) → suc (length as') ≤ 0 → ⊥
too_long as' le = omega (arith, le)

prune_up_same :
    (n m : ℕ) (p : FilePath) (d : Disk)
    → length p ≤ n
    → length p ≤ m
    → prune_up n p d ≡ prune_up m p d
unfolding prune_up is_below
prune_up_same zero zero p d le ge = refl
prune_up_same zero (suc m) [] d le ge = refl
prune_up_same (suc n) zero [] d le ge = refl
prune_up_same (suc n) (suc m) [] d le ge = refl
prune_up_same zero (suc m) (a ∷ as') d le ge = absurd (too_long as' le)
prune_up_same (suc n) zero (a ∷ as') d le ge = absurd (too_long as' ge)
prune_up_same (suc n) (suc m) (a ∷ as') d le ge =
    elim (Bool-cases (is_below download_root (a ∷ as'))) [
      | inr top ↦ rw (prune_up, top) refl
      | inl below ↦ elim (Option-cases (rmdir (a ∷ as') d)) [
        | inl full ↦ rw (prune_up, below, full) refl
        | inr (d', gone) ↦
            rw (prune_up, below, gone)
              (prune_up_same n m (parent (a ∷ as')) d' (omega (arith, le, length-parent a as'))
                (omega (arith, ge, length-parent a as')))
      ]
    ]

pub prune_up_enough :
    (n : ℕ) (p : FilePath) (d : Disk) → length p ≤ n → prune_up n p d ≡ prune_empty p d
unfolding prune_empty prune_up
prune_up_enough n p d le = prune_up_same n (length p) p d le (omega arith)
