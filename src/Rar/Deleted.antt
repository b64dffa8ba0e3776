-- ===== src/Rar/Deleted.antt =====
-- Which files rar-cleanup-scripts/remediate.py deletes from a release folder.
use podhaus.Files.{FilePath, path_eq, is_below, suffix, base_name}
use podhaus.Rar.Listed.{do_delete_lem, is_listed, is_covered, listed_lem}
use podhaus.Base.Codes.{is_one_of, lower, codes, contains}
use podhaus.Rar.Releases.{
  collect_rar_pieces, collect_scene_meta, collect_sample_videos, is_rar_piece, is_scene_meta,
  is_sample_video, collect_sample_dirs, is_video, is_sample_dir, collect_empty_subdirs,
}
use podhaus.Rar.Names.{is_rar_suffix, is_rar_part, scene_meta_exts, video_exts}
use podhaus.Rar.Remediate.{
  do_delete, remove_dirs, files_to_delete, clean_up, handle_extracted, remove_empty_subdirs, Row,
  verify_match, ok, error,
}
use podhaus.Files.Disk.{
  node_at, find_below, Entry, Disk, is_file_node, file, is_dir_node, remove_dir, has_children,
}
use podhaus.Base.{
  ℕ, List, Bool, any, ◌≡◌, some, none, if◌then◌else◌, not, true, keep, ◌||◌, ◌&&◌, false, ◌∷◌, [],
  arith, refl, Bool-cases, any-map-keep, ◌∙◌, inr, inl, length, ◌==◌, ◌+◌, any-append, ◌++◌,
}

keep-file :
    (test : Entry → Bool) (p : FilePath) (d : Disk) (n : ℕ)
    → ((e : Entry) → is_file_node e.node ≡ true → test e ≡ true)
    → node_at d p ≡ some (file n)
    → node_at (keep test d) p ≡ some (file n)
unfolding node_at
keep-file test p [] n h e = cc
keep-file test p (x ∷ d) n h e = ground (arith, h x, keep-file test p d n h)

keep-none :
    (test : Entry → Bool) (p : FilePath) (d : Disk)
    → node_at d p ≡ none
    → node_at (keep test d) p ≡ none
unfolding node_at
keep-none test p [] e = refl
keep-none test p (x ∷ d) e = ground (arith, keep-none test p d)

remove_dirs-file :
    (ps : List FilePath) (p : FilePath) (d : Disk) (n : ℕ)
    → node_at d p ≡ some (file n)
    → node_at (remove_dirs ps d) p ≡ some (file n)
unfolding remove_dirs remove_dir
remove_dirs-file [] p d n e = e
remove_dirs-file (q ∷ ps) p d n e = elim (Bool-cases (has_children d q)) [
  | inl full ↦ rw full (remove_dirs-file ps p d n e)
  | inr empty ↦ rw empty (
      remove_dirs-file ps p (keep (λ x. not (path_eq q x.path && is_dir_node x.node)) d) n (
        keep-file (λ x. not (path_eq q x.path && is_dir_node x.node)) p d n (λ x h. ground arith)
          e))
]

remove_dirs-none :
    (ps : List FilePath) (p : FilePath) (d : Disk)
    → node_at d p ≡ none
    → node_at (remove_dirs ps d) p ≡ none
unfolding remove_dirs remove_dir
remove_dirs-none [] p d e = e
remove_dirs-none (q ∷ ps) p d e = elim (Bool-cases (has_children d q)) [
  | inl full ↦ rw full (remove_dirs-none ps p d e)
  | inr empty ↦ rw empty (
      remove_dirs-none ps p (keep (λ x. not (path_eq q x.path && is_dir_node x.node)) d)
        (keep-none (λ x. not (path_eq q x.path && is_dir_node x.node)) p d e))
]

-- The name of a piece of an archive or of scene metadata, or, at most two levels below the folder, of a
-- sample video.
abbrev pub is_rubbish : FilePath → FilePath → Bool
is_rubbish folder p =
    (is_rar_suffix (suffix (base_name p)) || is_rar_part (base_name p))
    || (is_one_of (lower (suffix (base_name p))) scene_meta_exts
        || ((length p == length folder + 1 || length p == length folder + 2)
            && (contains (codes "sample") (lower (base_name p))
                && is_one_of (lower (suffix (base_name p))) video_exts)))

-- A directory below the folder, called sample or proof, is the path or has it below.
abbrev pub in_sample_dir : FilePath → FilePath → Disk → Bool
in_sample_dir folder p d =
    any
      (λ e.
        (is_below folder e.path
          && (is_dir_node e.node
              && is_one_of (lower (base_name e.path)) (codes "sample" ∷ codes "proof" ∷ [])))
        && (path_eq e.path p || is_below e.path p))
      d

rar_lem :
    (folder p : FilePath) (d : Disk) (n : ℕ)
    → node_at d p ≡ some (file n)
    → is_listed (collect_rar_pieces folder d) p
      ≡ (is_below folder p && (is_rar_suffix (suffix (base_name p)) || is_rar_part (base_name p)))
unfolding collect_rar_pieces is_rar_piece
rar_lem folder p d n e =
    listed_lem folder p is_rar_piece
      (is_rar_suffix (suffix (base_name p)) || is_rar_part (base_name p)) d n (λ x h. rw h refl) e

meta_lem :
    (folder p : FilePath) (d : Disk) (n : ℕ)
    → node_at d p ≡ some (file n)
    → is_listed (collect_scene_meta folder d) p
      ≡ (is_below folder p && is_one_of (lower (suffix (base_name p))) scene_meta_exts)
unfolding collect_scene_meta is_scene_meta
meta_lem folder p d n e =
    listed_lem folder p is_scene_meta (is_one_of (lower (suffix (base_name p))) scene_meta_exts) d n
      (λ x h. rw h refl) e

abbrev is_sample_name : FilePath → Bool
is_sample_name p =
    contains (codes "sample") (lower (base_name p))
    && is_one_of (lower (suffix (base_name p))) video_exts

swap_and : (a b c : Bool) → (a && (b && c)) ≡ (b && (a && c))
swap_and true b c = refl
swap_and false true c = refl
swap_and false false c = refl

video_lem :
    (levels : ℕ) (folder p : FilePath) (d : Disk) (n : ℕ)
    → node_at d p ≡ some (file n)
    → is_listed (find_below folder (is_sample_video levels folder) d) p
      ≡ (is_below folder p && ((length p == length folder + levels) && is_sample_name p))
unfolding is_sample_video is_video
video_lem levels folder p d n e =
    listed_lem folder p (is_sample_video levels folder)
      ((length p == length folder + levels) && is_sample_name p) d n
      (λ x h.
        rw h
          (swap_and (length p == length folder + levels) (is_file_node x.node) (is_sample_name p)))
      e

gather :
    (x a b k l s : Bool)
    → ((x && a) || ((x && b) || ((x && (k && s)) || (x && (l && s)))))
      ≡ (x && (a || (b || ((k || l) && s))))
gather true a b k l s = ground arith
gather false a b k l s = refl

files_lem :
    (folder p : FilePath) (d : Disk) (n : ℕ)
    → node_at d p ≡ some (file n)
    → is_listed (files_to_delete folder d) p ≡ (is_below folder p && is_rubbish folder p)
unfolding files_to_delete collect_sample_videos
files_lem folder p d n e =
    rw
      (
        any-append (λ q. path_eq q p) (collect_rar_pieces folder d)
            (collect_scene_meta folder d
              ++ (find_below folder (is_sample_video 1 folder) d
                  ++ find_below folder (is_sample_video 2 folder) d)),
        any-append (λ q. path_eq q p) (collect_scene_meta folder d)
            (find_below folder (is_sample_video 1 folder) d
              ++ find_below folder (is_sample_video 2 folder) d),
        any-append (λ q. path_eq q p) (find_below folder (is_sample_video 1 folder) d)
            (find_below folder (is_sample_video 2 folder) d),
        rar_lem folder p d n e,
        meta_lem folder p d n e,
        video_lem 1 folder p d n e,
        video_lem 2 folder p d n e,
      )
      (gather (is_below folder p)
        (is_rar_suffix (suffix (base_name p)) || is_rar_part (base_name p))
        (is_one_of (lower (suffix (base_name p))) scene_meta_exts) (length p == length folder + 1)
        (length p == length folder + 2) (is_sample_name p))

dirs_lem :
    (folder p : FilePath) (d : Disk)
    → is_covered (collect_sample_dirs folder d) p ≡ in_sample_dir folder p d
unfolding collect_sample_dirs find_below is_sample_dir
dirs_lem folder p d =
    any-map-keep (λ q. path_eq q p || is_below q p) (λ e. e.path)
      (λ e. is_below folder e.path && is_sample_dir e) d

-- The files that a folder's clean-up deletes.
abbrev pub is_deleted : FilePath → Disk → FilePath → Bool
is_deleted folder d p = (is_below folder p && is_rubbish folder p) || in_sample_dir folder p d

clean_up_lem :
    (folder p : FilePath) (d : Disk) (n : ℕ)
    → node_at d p ≡ some (file n)
    → node_at (clean_up folder d) p ≡ (if is_deleted folder d p then none else some (file n))
unfolding clean_up remove_empty_subdirs
clean_up_lem folder p d n e = elim (Bool-cases (is_deleted folder d p)) [
  | inl gone ↦ rw gone (
      remove_dirs-none
        (collect_empty_subdirs folder
          (do_delete (files_to_delete folder d) (collect_sample_dirs folder d) d))
        p (do_delete (files_to_delete folder d) (collect_sample_dirs folder d) d)
        (do_delete_lem (files_to_delete folder d) (collect_sample_dirs folder d) p d
          ∙ rw (files_lem folder p d n e, dirs_lem folder p d, gone) refl))
  | inr stays ↦ rw stays (
      remove_dirs-file
        (collect_empty_subdirs folder
          (do_delete (files_to_delete folder d) (collect_sample_dirs folder d) d))
        p (do_delete (files_to_delete folder d) (collect_sample_dirs folder d) d) n
        (do_delete_lem (files_to_delete folder d) (collect_sample_dirs folder d) p d
          ∙ rw (files_lem folder p d n e, dirs_lem folder p d, stays) e))
]

handle_matches :
    (row : Row) (folder : FilePath) (d : Disk)
    → verify_match row d ≡ true
    → handle_extracted row folder false d ≡ (ok, clean_up folder d)
unfolding handle_extracted
handle_matches row folder d matches = rw (matches, handle_extracted) refl

handle_refused :
    (row : Row) (folder : FilePath) (d : Disk)
    → verify_match row d ≡ false
    → handle_extracted row folder false d ≡ (error, d)
unfolding handle_extracted
handle_refused row folder d refused = rw (refused, handle_extracted) refl

pub handle_extracted-file :
    (row : Row) (folder p : FilePath) (d : Disk) (n : ℕ)
    → node_at d p ≡ some (file n)
    → node_at (handle_extracted row folder false d).1 p
      ≡ (if verify_match row d && is_deleted folder d p then none else some (file n))
handle_extracted-file row folder p d n e = elim (Bool-cases (verify_match row d)) [
  | inl matches ↦ rw (handle_matches row folder d matches, matches) (clean_up_lem folder p d n e)
  | inr refused ↦ rw (handle_refused row folder d refused, refused) e
]
