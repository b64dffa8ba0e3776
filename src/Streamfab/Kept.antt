-- ===== src/Streamfab/Kept.antt =====
-- What a move of streamfab-publish.py leaves alone.
use podhaus.Streamfab.{make_parents, prune_up, download_root, rmdir}
use podhaus.Base.{
  ◌≡◌, keep, true, none, false, some, not, ℕ, ◌∙◌, inl, ◌⊎◌, ◌∷◌, ◌&&◌, Bool-cases, Option-cases,
  inr, suc, refl, [], sym, ◌++◌, zero, ap, Bool, arith,
}
use podhaus.Files.{FilePath, path_eq, is_below, parent}
use podhaus.Files.Laws.{path_eq-eq, node_at-keep}
use podhaus.Files.Disk.{
  Disk, Node, Entry, node_at, unlink, file, directory, is_file_node, is_dir_node, is_dir,
  has_children,
}

-- A file, or a node outside the folder of the recordings.
abbrev pub IsFixed : FilePath → Node → Type 0
IsFixed p x = (is_file_node x ≡ true) ⊎ (is_below download_root p ≡ false)

pub node_at-add :
    (e : Entry) (d : Disk) (p : FilePath) (x : Node)
    → node_at d e.path ≡ none
    → node_at d p ≡ some x
    → node_at (e ∷ d) p ≡ some x
unfolding node_at
node_at-add e d p x free found = elim (Bool-cases (path_eq e.path p)) [
  | inl same ↦ absurd (clash (sym (rw (path_eq-eq e.path p same) at free) ∙ found))
  | inr apart ↦ rw apart found
]
  where
    clash : none ≡ some x → ⊥
    clash c = cc

pub node_at-unlink :
    (src p : FilePath) (x : Node) (d : Disk)
    → path_eq src p ≡ false
    → node_at d p ≡ some x
    → node_at (unlink src d) p ≡ some x
unfolding unlink
node_at-unlink src p x d apart found =
    node_at-keep (λ e. not (path_eq src e.path)) true p d
      (λ e same. rw (path_eq-eq e.path p same, apart) refl)
    ∙ found

pub node_at-make_parents :
    (made todo : FilePath) (d : Disk) (p : FilePath) (x : Node)
    → node_at d p ≡ some x
    → node_at (make_parents made todo d) p ≡ some x
unfolding make_parents
node_at-make_parents made [] d p x found = found
node_at-make_parents made (a ∷ todo) d p x found =
    elim (Option-cases (node_at d (made ++ a ∷ []))) [
      | inr (y, there) ↦
          rw (make_parents, there) (node_at-make_parents (made ++ a ∷ []) todo d p x found)
      | inl free ↦
          rw (make_parents, free)
            (node_at-make_parents (made ++ a ∷ []) todo
              (record { path = made ++ a ∷ []; node = directory } ∷ d) p x
              (node_at-add (record { path = made ++ a ∷ []; node = directory }) d p x free found))
    ]

abbrev drop_dir : FilePath → Disk → Disk
drop_dir q d = keep (λ e. not (path_eq q e.path && is_dir_node e.node)) d

some_node : (a b : Node) → some a ≡ some b → a ≡ b
some_node a b e = ap (λ o. elim o [ none ↦ a | some n ↦ n ]) e

file_not_dir : (x : Node) → is_file_node x ≡ true → is_dir_node x ≡ false
file_not_dir (file n) e = refl
file_not_dir directory e = cc

and_false : (b : Bool) → (b && false) ≡ false
and_false b = ground arith

pub below_apart :
    (q p : FilePath)
    → is_below download_root q ≡ true
    → is_below download_root p ≡ false
    → path_eq q p ≡ false
below_apart q p below outside = elim (Bool-cases (path_eq q p)) [
  | inr apart ↦ apart
  | inl same ↦ absurd (clash (sym (rw (path_eq-eq q p same) at below) ∙ outside))
]
  where
    clash : true ≡ false → ⊥
    clash c = cc

drop_dir-file :
    (q p : FilePath) (x : Node) (d : Disk)
    → is_file_node x ≡ true
    → node_at d p ≡ some x
    → node_at (drop_dir q d) p ≡ some x
unfolding node_at
drop_dir-file q p x [] f found = found
drop_dir-file q p x (e ∷ d) f found = elim (Bool-cases (path_eq e.path p)) [
  | inl same ↦
      let node_is = some_node e.node x (rw same at found) in
      rw (file_not_dir e.node (ap is_file_node node_is ∙ f), and_false (path_eq q e.path), same)
        (ap some node_is)
  | inr apart ↦ elim (Bool-cases (path_eq q e.path && is_dir_node e.node)) [
    | inl dropped ↦ rw dropped (drop_dir-file q p x d f (rw apart at found))
    | inr kept ↦ rw (kept, apart) (drop_dir-file q p x d f (rw apart at found))
  ]
]

drop_dir-Fixed :
    (q p : FilePath) (x : Node) (d : Disk)
    → is_below download_root q ≡ true
    → IsFixed p x
    → node_at d p ≡ some x
    → node_at (drop_dir q d) p ≡ some x
drop_dir-Fixed q p x d below (inl f) found = drop_dir-file q p x d f found
drop_dir-Fixed q p x d below (inr outside) found =
    node_at-keep (λ e. not (path_eq q e.path && is_dir_node e.node)) true p d
      (λ e same. rw (path_eq-eq e.path p same, below_apart q p below outside) refl)
    ∙ found

pub prune_up-Fixed :
    (n : ℕ) (q p : FilePath) (x : Node) (d : Disk)
    → IsFixed p x
    → node_at d p ≡ some x
    → node_at (prune_up n q d) p ≡ some x
unfolding prune_up rmdir
prune_up-Fixed zero q p x d fixed found = found
prune_up-Fixed (suc n) q p x d fixed found = elim (Bool-cases (is_below download_root q)) [
  | inr top ↦ rw (prune_up, top) found
  | inl below ↦ elim (Bool-cases (is_dir d q && not (has_children d q))) [
    | inr stays ↦ rw (prune_up, below, rmdir, stays) found
    | inl goes ↦
        rw (prune_up, below, rmdir, goes)
          (prune_up-Fixed n (parent q) p x (drop_dir q d) fixed
            (drop_dir-Fixed q p x d below fixed found))
  ]
]
