-- ===== src/Streamfab/Tests.antt =====
-- Two recordings, and the theorems about the run that moves one of them.
use podhaus.Streamfab.Finished.{prune_up_enough, IsFinished, main-IsFinished}
use podhaus.Base.{◌∷◌, ◌≡◌, [], map, false, refl, some, arith, ℕ}
use podhaus.Streamfab.{publish_files, prune_up, sentinel, main, walk, download_root, prune_empty}
use podhaus.Base.Codes.{codes}
use podhaus.Files.{FilePath, path_of, is_below}
use podhaus.Files.Disk.{Disk, node_at, file, directory, Node}

abbrev disk : Disk
disk =
    record { path = sentinel; node = file 0 }
    ∷ record { path = path_of (codes "/data/Downloads/Netflix/Show"); node = directory }
    ∷ record {
      path = path_of (codes "/data/Downloads/Netflix/Show/Show_S01E02_x.mp4");
      node = file 7;
    }
    ∷ record { path = path_of (codes "/data/Downloads/Netflix/Film/12345.mp4"); node = file 9 }
    ∷ []

abbrev moved : Disk
moved = publish_files (walk disk) disk

episode_moves :
    map (λ e. e.node) moved
    ≡ file 7 ∷ directory ∷ directory ∷ directory ∷ directory ∷ file 0 ∷ file 9 ∷ []
unfolding publish_files walk path_of
episode_moves = refl

main-IsFinished_example :
    ((p : FilePath) (x : Node)
      → is_below download_root p ≡ false
      → node_at disk p ≡ some x
      → node_at moved p ≡ some x)
    × ((p : FilePath) (n : ℕ) → node_at disk p ≡ some (file n) → IsFinished p n moved)
unfolding main
main-IsFinished_example = main-IsFinished disk moved refl

prune_up_enough_example :
    prune_up 9 (path_of (codes "/data/Downloads/Netflix/Show")) disk
    ≡ prune_empty (path_of (codes "/data/Downloads/Netflix/Show")) disk
unfolding path_of
prune_up_enough_example =
    prune_up_enough 9 (path_of (codes "/data/Downloads/Netflix/Show")) disk (omega arith)
