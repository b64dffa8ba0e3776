-- ===== src/Rar/Empty.antt =====
-- Which directories `remove_empty_subdirs` of rar-cleanup-scripts/remediate.py leaves.
use podhaus.Files.Laws.{find_below_each, node_at-keep, path_eq-eq}
use podhaus.Files.{FilePath, path_eq}
use podhaus.Rar.Paths.{by_depth-All}
use podhaus.Rar.Releases.{collect_empty_subdirs}
use podhaus.Files.Disk.{remove_dir, Disk, Entry, has_children, node_at, is_dir_node, find_below}
use podhaus.Rar.Remediate.{remove_empty_subdirs, remove_dirs}
use podhaus.Base.{
  List, All, ◌≡◌, false, true, Bool-cases, ◌&&◌, ◌∷◌, not, ◌∙◌, inl, [], inr, arith, refl, ap,
}

remove_dir-other :
    (q p : FilePath) (d : Disk) → path_eq q p ≡ false → node_at (remove_dir q d) p ≡ node_at d p
unfolding remove_dir
remove_dir-other q p d apart = elim (Bool-cases (has_children d q)) [
  | inl full ↦ rw full refl
  | inr empty ↦ rw empty (
      node_at-keep (λ e. not (path_eq q e.path && is_dir_node e.node)) true p d
        (λ e h. rw (path_eq-eq e.path p h, apart) refl))
]

remove_dirs-other :
    (ps : List FilePath) (p : FilePath) (d : Disk)
    → All (λ q. path_eq q p ≡ false) ps
    → node_at (remove_dirs ps d) p ≡ node_at d p
unfolding remove_dirs
remove_dirs-other [] p d a = refl
remove_dirs-other (q ∷ ps) p d a =
    remove_dirs-other ps p (remove_dir q d) a.1 ∙ remove_dir-other q p d a.0

empty-other :
    (p : FilePath) (d : Disk) (e : Entry)
    → has_children d p ≡ true
    → (is_dir_node e.node && not (has_children d e.path)) ≡ true
    → path_eq e.path p ≡ false
empty-other p d e full empty = elim (Bool-cases (path_eq e.path p)) [
  | inr apart ↦ apart
  | inl same ↦ ground (arith, ap (has_children d) (path_eq-eq e.path p same))
]

pub remove_empty_subdirs-full :
    (folder p : FilePath) (d : Disk)
    → has_children d p ≡ true
    → node_at (remove_empty_subdirs folder d) p ≡ node_at d p
unfolding remove_empty_subdirs collect_empty_subdirs
remove_empty_subdirs-full folder p d full = remove_dirs-other (collect_empty_subdirs folder d) p d (
    by_depth-All (λ q. path_eq q p ≡ false)
      (find_below folder (λ e. is_dir_node e.node && not (has_children d e.path)) d)
      (find_below_each (λ q. path_eq q p ≡ false) folder
        (λ e. is_dir_node e.node && not (has_children d e.path)) d
        (λ e h. empty-other p d e full h)))
