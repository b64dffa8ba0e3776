-- ===== src/Flood/Tests.antt =====
-- Torrents of flood-publish.py, and the theorems about a pass over them.
use podhaus.Flood.Publish.Gaps.{check_gaps-In}
use podhaus.Flood.Publish.Changes.{IsPublished, publish_all-Reaches, publish_all-keeps}
use podhaus.Flood.Publish.Marked.{IsMarked, publish_all-IsMarked}
use podhaus.Flood.Publish.Steps.{Reaches}
use podhaus.Base.{◌∷◌, All, true, some, [], map, false, In, ◌≡◌, refl, here, arith}
use podhaus.Flood.Publish.{Pass, publish_all, Rtorrent, Torrent, is_published, check_gaps}
use podhaus.Base.Codes.{codes, starts_with, text_eq}
use podhaus.Files.{path_of}
use podhaus.Flood.Tree.{Tree, inode, folder, place_at}

abbrev show : Torrent
show = record {
  hash = codes "h1";
  name = codes "Show";
  base_path = codes "/data/torrents/Show";
  publishdir = codes "/data/TV/Show";
  is_complete = true;
  pubdone = [];
  finished = 1000;
}

-- One member is complete; the other file was extracted, and has its mark.
abbrev rtorrent : Rtorrent
rtorrent = record {
  members = λ h. some (
      record { frozen = codes "/data/torrents/Show/e1.mkv"; completed_chunks = 4; size_chunks = 4 }
      ∷ []);
  sets = λ h. true;
  saves = λ h. true;
}

abbrev start : Tree
start =
    (path_of (codes "/data"), folder)
    ∷ (path_of (codes "/data/torrents/Show/e1.mkv"), inode 11)
    ∷ (path_of (codes "/data/torrents/Show/sample.mkv"), inode 12)
    ∷ (path_of (codes "/data/torrents/Show/x/e2.MKV"), inode 13)
    ∷ (path_of (codes "/data/torrents/Show/x/_unpackerred.ok"), inode 14)
    ∷ []

abbrev begin : Pass
begin = record { tree = start; marked = []; is_broken = false }

linked_twice :
    map (λ e. e.1) (publish_all rtorrent (show ∷ []) begin).tree
    ≡ inode 13 ∷ folder ∷ inode 11 ∷ folder ∷ folder ∷ map (λ e. e.1) start
unfolding publish_all path_of
linked_twice = refl

publish_all-Reaches_example :
    Reaches (IsPublished rtorrent (show ∷ [])) start (publish_all rtorrent (show ∷ []) begin).tree
publish_all-Reaches_example = publish_all-Reaches rtorrent (show ∷ []) begin

publish_all-keeps_example :
    place_at (publish_all rtorrent (show ∷ []) begin).tree (path_of (codes "/data")) ≡ some folder
unfolding place_at path_of
publish_all-keeps_example =
    publish_all-keeps rtorrent (show ∷ []) begin (path_of (codes "/data")) folder refl

publish_all-IsMarked_example :
    All
      (IsMarked rtorrent (show ∷ []) start (publish_all rtorrent (show ∷ []) begin).tree)
      (publish_all rtorrent (show ∷ []) begin).marked
publish_all-IsMarked_example = publish_all-IsMarked rtorrent (show ∷ []) start

marked_show : (publish_all rtorrent (show ∷ []) begin).marked ≡ codes "h1" ∷ []
unfolding publish_all path_of
marked_show = refl

check_gaps-In_example : In (codes "Show") (check_gaps 9000 (show ∷ []))
unfolding starts_with text_eq is_published
check_gaps-In_example =
    check_gaps-In 9000 show (show ∷ []) here refl refl refl (ground arith) (ground arith)
