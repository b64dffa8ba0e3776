-- ===== src/Rar/Tests.antt =====
-- Runs of rar-cleanup-scripts/remediate.py on a small tree, and each result at one of them.
use podhaus.Files.{FilePath}
use podhaus.Rar.Empty.{remove_empty_subdirs-full}
use podhaus.Rar.Verified.{classify_folder-verified}
use podhaus.Rar.Audit.{classify_folder, Archive}
use podhaus.Rar.Releases.{is_rar_piece, is_scene_meta, is_sample_dir, is_sample_video}
use podhaus.Rar.Extraction.{handle_never_extracted-ok}
use podhaus.Rar.Deleted.{is_deleted, handle_extracted-file}
use podhaus.Rar.Releases.{size_matches}
use podhaus.Rar.DryRun.{remediate-dry}
use podhaus.Rar.Sidecar.{remediate-again}
use podhaus.Base.Codes.{codes}
use podhaus.Rar.Confined.{IsGentle, remediate-Stays}
use podhaus.Files.Disk.{Disk, node_at, Entry, Node, file, directory, is_file, size_of, has_children}
use podhaus.Rar.Remediate.{
  path_allowed, handle_extracted, Classification, Row, extracted, never_extracted, relative,
  verify_match, handle_never_extracted, clean_up, remove_empty_subdirs,
}
use podhaus.Rar.Run.{process_all, select, Extractor, remediate, Options, Store}
use podhaus.Base.{
  ℕ, String, false, true, is_some, ◌∷◌, ◌++◌, [], none, ◌≡◌, some, refl, if◌then◌else◌, arith, ◌&&◌,
}

abbrev folder : FilePath
folder = codes "data" ∷ codes "TV" ∷ codes "Show" ∷ []

abbrev inside : String → FilePath
inside name = folder ++ codes name ∷ []

abbrev other_file : FilePath
other_file = codes "etc" ∷ codes "passwd" ∷ []

abbrev a_file : FilePath → ℕ → Entry
a_file p n = record { path = p; node = file n }

abbrev a_directory : FilePath → Entry
a_directory p = record { path = p; node = directory }

-- A release whose video has been extracted.
abbrev tree : Disk
tree =
    a_directory folder
    ∷ a_file (inside "show.part01.rar") 100
    ∷ a_file (inside "show.nfo") 3
    ∷ a_file (inside "show.mkv") 5000
    ∷ a_directory (inside "Sample")
    ∷ a_file (inside "Sample" ++ codes "x.mkv" ∷ []) 50
    ∷ a_file other_file 7
    ∷ []

-- A release whose video has not.
abbrev packed : Disk
packed = a_directory folder ∷ a_file (inside "show.rar") 100 ∷ a_file other_file 7 ∷ []

abbrev row : Classification → Row
row cls = record {
  folder_path = folder;
  archive_expected_filename = relative (codes "show.mkv" ∷ []);
  archive_expected_size = 5001;
  match_path = inside "show.mkv";
  match_size = 5001;
  classification = cls;
}

abbrev wet : Options
wet = record { only_dry = false; limit = 0; only = none; resume = false }

-- It leaves the video behind the other entries.
abbrev extractor : Extractor
extractor d f archive = record {
  disk = d ++ a_file (inside "show.mkv") 5000 ∷ [];
  returncode = some 0;
}

node_at-append :
    (d d' : Disk) (p : FilePath) (n : Node) → node_at d p ≡ some n → node_at (d ++ d') p ≡ some n
unfolding node_at
node_at-append [] d' p n e = cc
node_at-append (x ∷ d) d' p n e = ground (arith, node_at-append d d' p n)

gentle : IsGentle extractor
gentle = record { keeps = λ d f archive p n e. node_at-append d _ p n e }

abbrev store : Disk → Store
store d = record { disk = d; actions = [] }

-- The extracted release keeps its directory and its video.
swept :
    (handle_extracted (row extracted) folder false tree).1
    ≡ a_directory folder ∷ a_file (inside "show.mkv") 5000 ∷ a_file other_file 7 ∷ []
unfolding handle_extracted is_rar_piece is_scene_meta is_sample_dir is_sample_video
swept = refl

remediate-dry_example :
    (remediate extractor (record wet { only_dry = true }) (row extracted ∷ []) (store tree)).1
    ≡ store tree
remediate-dry_example =
    remediate-dry extractor (record wet { only_dry = true }) (row extracted ∷ []) (store tree) refl

remediate-Stays_example :
    node_at (remediate extractor wet (row never_extracted ∷ []) (store packed)).1.disk other_file
    ≡ some (file 7)
unfolding path_allowed node_at
remediate-Stays_example =
    remediate-Stays extractor wet (row never_extracted ∷ []) (store packed) other_file (file 7)
      gentle refl refl

remediate-again_example :
    (remediate extractor
      (record wet { resume = true })
      (row never_extracted ∷ [])
      (remediate extractor wet (row never_extracted ∷ []) (store packed)).1).1
    ≡ (remediate extractor wet (row never_extracted ∷ []) (store packed)).1
unfolding process_all select handle_never_extracted
remediate-again_example =
    remediate-again extractor wet (row never_extracted ∷ []) (store packed) refl refl

handle_extracted-file_example :
    node_at (handle_extracted (row extracted) folder false tree).1 (inside "show.nfo") ≡ (
      if verify_match (row extracted) tree && is_deleted folder tree (inside "show.nfo")
      then none
      else some (file 3))
unfolding node_at
handle_extracted-file_example =
    handle_extracted-file (row extracted) folder (inside "show.nfo") tree 3 refl

handle_never_extracted-ok_example :
    (archive : FilePath) × (target : FilePath) × (is_some (node_at packed target) ≡ false)
    × (is_file (extractor packed folder archive).disk target ≡ true)
    × (size_matches (size_of (extractor packed folder archive).disk target) 5001 ≡ true)
    × ((handle_never_extracted extractor (row never_extracted) folder false packed).1
        ≡ clean_up folder (extractor packed folder archive).disk)
unfolding handle_never_extracted
handle_never_extracted-ok_example =
    handle_never_extracted-ok extractor (row never_extracted) folder packed refl

-- `unrar` lists one video in every archive, of the size that the tree has.
abbrev lists_show : FilePath → Archive
lists_show archive = record {
  listing = some (record { name = codes "show.mkv" ∷ []; size = 5000 } ∷ []);
  intact = true;
}

classify_folder-verified_example : verify_match (classify_folder lists_show folder tree) tree ≡ true
unfolding classify_folder
classify_folder-verified_example = classify_folder-verified lists_show folder tree refl

-- A directory that holds an empty one.
abbrev nested : Disk
nested =
    a_directory folder
    ∷ a_directory (inside "Extras")
    ∷ a_directory (inside "Extras" ++ codes "Cut" ∷ [])
    ∷ []

remove_empty_subdirs-full_example :
    node_at (remove_empty_subdirs folder nested) (inside "Extras")
    ≡ node_at nested (inside "Extras")
unfolding has_children
remove_empty_subdirs-full_example = remove_empty_subdirs-full folder (inside "Extras") nested refl
