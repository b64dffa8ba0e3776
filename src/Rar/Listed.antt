-- ===== src/Rar/Listed.antt =====
-- Which paths of the tree of rar-cleanup-scripts a search finds and a deletion removes.
use podhaus.Files.Laws.{node_at-keep, path_eq-eq}
use podhaus.Files.{FilePath, path_eq, is_below}
use podhaus.Rar.Remediate.{do_delete}
use podhaus.Files.Disk.{unlink, node_at, find_below, remove_tree, Entry, Disk, is_file_node, file}
use podhaus.Base.{
  ℕ, List, Bool, any, ◌≡◌, some, none, if◌then◌else◌, not, ◌||◌, ◌&&◌, false, ◌∷◌, [], arith, refl,
  Bool-cases, any-map-keep, ◌∙◌, inr, inl, ap,
}

abbrev pub is_listed : List FilePath → FilePath → Bool
is_listed files p = any (λ q. path_eq q p) files

abbrev pub is_covered : List FilePath → FilePath → Bool
is_covered dirs p = any (λ q. path_eq q p || is_below q p) dirs

unlink_lem :
    (q p : FilePath) (d : Disk)
    → node_at (unlink q d) p ≡ (if not (path_eq q p) then node_at d p else none)
unfolding unlink
unlink_lem q p d =
    node_at-keep (λ e. not (path_eq q e.path)) (not (path_eq q p)) p d
      (λ e h. rw (path_eq-eq e.path p h) refl)

remove_tree_lem :
    (q p : FilePath) (d : Disk)
    → node_at (remove_tree q d) p
      ≡ (if not (path_eq q p || is_below q p) then node_at d p else none)
unfolding remove_tree
remove_tree_lem q p d =
    node_at-keep (λ e. not (path_eq q e.path || is_below q e.path))
      (not (path_eq q p || is_below q p)) p d (λ e h. rw (path_eq-eq e.path p h) refl)

pub do_delete_lem :
    (files dirs : List FilePath) (p : FilePath) (d : Disk)
    → node_at (do_delete files dirs d) p
      ≡ (if is_listed files p || is_covered dirs p then none else node_at d p)
unfolding do_delete
do_delete_lem [] [] p d = refl
do_delete_lem [] (q ∷ qs) p d =
    ground (arith, do_delete_lem [] qs p (remove_tree q d), remove_tree_lem q p d)
do_delete_lem (q ∷ qs) dirs p d =
    ground (arith, do_delete_lem qs dirs p (unlink q d), unlink_lem q p d)

-- At one path, the test asks for a file, and for `b` of it.
abbrev pub TestsFiles : (Entry → Bool) → FilePath → Bool → Type 0
TestsFiles test p b = (e : Entry) → e.path ≡ p → test e ≡ (is_file_node e.node && b)

abbrev pub any_found : FilePath → (Entry → Bool) → FilePath → Disk → Bool
any_found folder test p d = any (λ e. (is_below folder e.path && test e) && path_eq e.path p) d

no_match_lem :
    (folder p : FilePath) (test : Entry → Bool) (b : Bool) (e : Entry)
    → TestsFiles test p b
    → (is_below folder p && b) ≡ false
    → ((is_below folder e.path && test e) && path_eq e.path p) ≡ false
no_match_lem folder p test b e h out = elim (Bool-cases (path_eq e.path p)) [
  | inr apart ↦ ground arith
  | inl same ↦ rw (h e (path_eq-eq e.path p same), path_eq-eq e.path p same) (ground arith)
]

unlisted :
    (folder p : FilePath) (test : Entry → Bool) (b : Bool) (d : Disk)
    → TestsFiles test p b
    → (is_below folder p && b) ≡ false
    → any_found folder test p d ≡ false
unlisted folder p test b [] h out = refl
unlisted folder p test b (e ∷ d) h out =
    rw (no_match_lem folder p test b e h out) (unlisted folder p test b d h out)

found_lem :
    (folder p : FilePath) (test : Entry → Bool) (b : Bool) (d : Disk) (n : ℕ)
    → TestsFiles test p b
    → node_at d p ≡ some (file n)
    → any_found folder test p d ≡ (is_below folder p && b)
unfolding node_at
found_lem folder p test b [] n h e = cc
found_lem folder p test b (x ∷ d) n h e = elim (Bool-cases (path_eq x.path p)) [
  | inr apart ↦ rw apart (ground (arith, found_lem folder p test b d n h))
  | inl same ↦ elim (Bool-cases (is_below folder p && b)) [
    | inr out ↦ rw (no_match_lem folder p test b x h out, out) (unlisted folder p test b d h out)
    | inl inside ↦
        ground
          (arith, h x (path_eq-eq x.path p same), ap (is_below folder) (path_eq-eq x.path p same))
  ]
]

pub listed_lem :
    (folder p : FilePath) (test : Entry → Bool) (b : Bool) (d : Disk) (n : ℕ)
    → TestsFiles test p b
    → node_at d p ≡ some (file n)
    → is_listed (find_below folder test d) p ≡ (is_below folder p && b)
unfolding find_below
listed_lem folder p test b d n h e =
    any-map-keep (λ q. path_eq q p) (λ x. x.path) (λ x. is_below folder x.path && test x) d
    ∙ found_lem folder p test b d n h e
