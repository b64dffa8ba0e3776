-- ===== src/Rar/Keeps.antt =====
-- The deletions of rar-cleanup-scripts/remediate.py stay below the release folder.
use podhaus.Files.Laws.{node_at-keep, path_eq-eq, is_below_trans, find_below-All}
use podhaus.Files.{FilePath, is_below, path_eq}
use podhaus.Rar.Paths.{by_depth-All}
use podhaus.Rar.Releases.{
  collect_rar_pieces, collect_scene_meta, collect_sample_dirs, collect_sample_videos,
  collect_empty_subdirs, is_sample_dir, is_rar_piece, is_scene_meta, is_sample_video,
}
use podhaus.Rar.Remediate.{remove_dirs, do_delete, clean_up, remove_empty_subdirs, files_to_delete}
use podhaus.Files.Disk.{
  remove_tree, unlink, remove_dir, Disk, node_at, has_children, is_dir_node, find_below,
}
use podhaus.Base.{
  List, Bool-cases, All, ◌≡◌, false, true, not, [], ◌∷◌, ◌∙◌, inl, arith, refl, ◌||◌, inr, ◌&&◌,
  All-append, ◌++◌,
}

-- A path that is not below the folder keeps its node.
abbrev pub Keeps : FilePath → Disk → Disk → Type 0
Keeps folder d d' = (p : FilePath) → is_below folder p ≡ false → node_at d' p ≡ node_at d p

abbrev pub IsInside : FilePath → FilePath → Type 0
IsInside folder p = is_below folder p ≡ true

unlink-Keeps : (folder p : FilePath) (d : Disk) → IsInside folder p → Keeps folder d (unlink p d)
unfolding unlink
unlink-Keeps folder p d below q apart =
    node_at-keep (λ e. not (path_eq p e.path)) true q d
      (λ e h. ground (arith, path_eq-eq p e.path, path_eq-eq e.path q))

remove_tree-Keeps :
    (folder p : FilePath) (d : Disk) → IsInside folder p → Keeps folder d (remove_tree p d)
unfolding remove_tree
remove_tree-Keeps folder p d below q apart =
    node_at-keep (λ e. not (path_eq p e.path || is_below p e.path)) true q d
      (λ e h.
        ground (arith, path_eq-eq p e.path, path_eq-eq e.path q, is_below_trans folder p e.path))

remove_dir-Keeps :
    (folder p : FilePath) (d : Disk) → IsInside folder p → Keeps folder d (remove_dir p d)
unfolding remove_dir
remove_dir-Keeps folder p d below q apart = elim (Bool-cases (has_children d p)) [
  | inl full ↦ rw full refl
  | inr empty ↦ rw empty (
      node_at-keep (λ e. not (path_eq p e.path && is_dir_node e.node)) true q d
        (λ e h. ground (arith, path_eq-eq p e.path, path_eq-eq e.path q)))
]

do_delete-Keeps :
    (folder : FilePath) (files dirs : List FilePath) (d : Disk)
    → All (IsInside folder) files
    → All (IsInside folder) dirs
    → Keeps folder d (do_delete files dirs d)
unfolding do_delete
do_delete-Keeps folder [] [] d f g q apart = refl
do_delete-Keeps folder [] (p ∷ ps) d f g q apart =
    do_delete-Keeps folder [] ps (remove_tree p d) tt g.1 q apart
    ∙ remove_tree-Keeps folder p d g.0 q apart
do_delete-Keeps folder (p ∷ ps) dirs d f g q apart =
    do_delete-Keeps folder ps dirs (unlink p d) f.1 g q apart ∙ unlink-Keeps folder p d f.0 q apart

remove_dirs-Keeps :
    (folder : FilePath) (ps : List FilePath) (d : Disk)
    → All (IsInside folder) ps
    → Keeps folder d (remove_dirs ps d)
unfolding remove_dirs
remove_dirs-Keeps folder [] d f q apart = refl
remove_dirs-Keeps folder (p ∷ ps) d f q apart =
    remove_dirs-Keeps folder ps (remove_dir p d) f.1 q apart
    ∙ remove_dir-Keeps folder p d f.0 q apart

files_to_delete-All :
    (folder : FilePath) (d : Disk) → All (IsInside folder) (files_to_delete folder d)
unfolding files_to_delete collect_rar_pieces collect_scene_meta collect_sample_videos
files_to_delete-All folder d =
    All-append (IsInside folder) (collect_rar_pieces folder d)
      (collect_scene_meta folder d ++ collect_sample_videos folder d)
      (find_below-All folder is_rar_piece d)
      (All-append (IsInside folder) (collect_scene_meta folder d) (collect_sample_videos folder d)
        (find_below-All folder is_scene_meta d)
        (All-append (IsInside folder) (find_below folder (is_sample_video 1 folder) d)
          (find_below folder (is_sample_video 2 folder) d)
          (find_below-All folder (is_sample_video 1 folder) d)
          (find_below-All folder (is_sample_video 2 folder) d)))

collect_sample_dirs-All :
    (folder : FilePath) (d : Disk) → All (IsInside folder) (collect_sample_dirs folder d)
unfolding collect_sample_dirs
collect_sample_dirs-All folder d = find_below-All folder is_sample_dir d

remove_empty_subdirs-Keeps :
    (folder : FilePath) (d : Disk) → Keeps folder d (remove_empty_subdirs folder d)
unfolding remove_empty_subdirs collect_empty_subdirs
remove_empty_subdirs-Keeps folder d = remove_dirs-Keeps folder (collect_empty_subdirs folder d) d (
    by_depth-All (IsInside folder)
      (find_below folder (λ e. is_dir_node e.node && not (has_children d e.path)) d)
      (find_below-All folder (λ e. is_dir_node e.node && not (has_children d e.path)) d))

pub clean_up-Keeps : (folder : FilePath) (d : Disk) → Keeps folder d (clean_up folder d)
unfolding clean_up
clean_up-Keeps folder d q apart =
    remove_empty_subdirs-Keeps folder
      (do_delete (files_to_delete folder d) (collect_sample_dirs folder d) d) q apart
    ∙ do_delete-Keeps folder (files_to_delete folder d) (collect_sample_dirs folder d) d
        (files_to_delete-All folder d) (collect_sample_dirs-All folder d) q apart
