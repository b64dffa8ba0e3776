-- ===== src/Flood/Publish/Changes.antt =====
-- A pass of flood-publish.py over all torrents, as a sequence of the changes of Flood/Steps.antt.
use podhaus.Flood.Publish.Linked.{IsAt, IsLink, publish_one_cases, iter_files-IsAt}
use podhaus.Flood.Publish.Steps.{Reaches, rests, Reaches-keeps, Reaches-mono, Reaches-trans}
use podhaus.Base.{
  List, ℕ, In, All, ◌≡◌, true, arith, Bool-cases, some, Option-cases, ◌∷◌, inr, here, inl, subst,
  ◌+◌, sym, later, [], refl,
}
use podhaus.Flood.Tree.{Tree, Place, place_at, iter_files}
use podhaus.Flood.Publish.{
  process_torrent, Rtorrent, Ran, publish_each, publish_all, after_torrent, publish_torrent,
  mark_done, Member, Torrent, ran, Pass, is_published,
}
use podhaus.Flood.Publish.{raised, ran}
use podhaus.Files.{FilePath, path_of}

abbrev pub tree_of : Ran → Tree
tree_of (ran t pending published) = t
tree_of (raised t) = t

pub publish_each-Reaches :
    (base publishdir : FilePath) (members : List Member) (sources : List FilePath) (t : Tree)
    (pending published : ℕ)
    → All (IsAt base) sources
    → Reaches
        (IsLink base publishdir members)
        t
        (tree_of (publish_each base publishdir members sources t pending published))
unfolding publish_each
publish_each-Reaches base publishdir members [] t m n at = rests
publish_each-Reaches base publishdir members (src ∷ sources) t m n at =
    elim (publish_one_cases base publishdir members src t at.0) [
      | inl (e, _) ↦
          rw (publish_each, e)
            (publish_each-Reaches base publishdir members sources t (m + 0) (n + 0) at.1)
      | inr (inl e) ↦
          rw (publish_each, e)
            (publish_each-Reaches base publishdir members sources t (m + 1) (n + 0) at.1)
      | inr (inr (inl (u, e, reached, _))) ↦
          rw (publish_each, e)
            (Reaches-trans reached
              (publish_each-Reaches base publishdir members sources u (m + 0) (n + 1) at.1))
      | inr (inr (inr e)) ↦ rw (publish_each, e) rests
    ]

-- A link of one of the torrents that pass the guards.
abbrev pub IsPublished : Rtorrent → List Torrent → FilePath → FilePath → Tree → Type 0
IsPublished rtorrent torrents src dest u =
    (torrent : Torrent) × (members : List Member) × In torrent torrents
    × (is_published torrent ≡ true)
    × (rtorrent.members torrent.hash ≡ some members)
    × IsLink (path_of torrent.base_path) (path_of torrent.publishdir) members src dest u

process_torrent-Reaches :
    (rtorrent : Rtorrent) (torrents : List Torrent) (torrent : Torrent) (t : Tree)
    → In torrent torrents
    → is_published torrent ≡ true
    → Reaches (IsPublished rtorrent torrents) t (tree_of (process_torrent rtorrent torrent t))
unfolding process_torrent
process_torrent-Reaches rtorrent torrents torrent t one guards =
    elim (Option-cases (rtorrent.members torrent.hash)) [
      | inl none' ↦ rw (process_torrent, none') rests
      | inr (members, e) ↦
          rw (process_torrent, e)
            (Reaches-mono (λ src dest v h. (torrent, members, one, guards, e, h))
              (publish_each-Reaches (path_of torrent.base_path) (path_of torrent.publishdir) members
                (iter_files (path_of torrent.base_path) t) t 0 0
                (iter_files-IsAt (path_of torrent.base_path) t)))
    ]

pub after_torrent_tree :
    (rtorrent : Rtorrent) (torrent : Torrent) (pass : Pass) (r : Ran)
    → (after_torrent rtorrent torrent pass r).tree ≡ tree_of r
unfolding after_torrent mark_done
after_torrent_tree rtorrent torrent pass (raised t) = refl
after_torrent_tree rtorrent torrent pass (ran t pending published) = ground arith

pub publish_torrent-Reaches :
    (rtorrent : Rtorrent) (torrents : List Torrent) (torrent : Torrent) (pass : Pass)
    → In torrent torrents
    → Reaches (IsPublished rtorrent torrents) pass.tree (publish_torrent rtorrent torrent pass).tree
unfolding publish_torrent
publish_torrent-Reaches rtorrent torrents torrent pass one =
    elim (Bool-cases (is_published torrent)) [
      | inr skipped ↦ rw (publish_torrent, skipped) rests
      | inl guards ↦
          rw (publish_torrent, guards)
            (subst (Reaches (IsPublished rtorrent torrents) pass.tree)
              (sym (
                after_torrent_tree rtorrent torrent pass
                  (process_torrent rtorrent torrent pass.tree)))
              (process_torrent-Reaches rtorrent torrents torrent pass.tree one guards))
    ]

publish_from-Reaches :
    (rtorrent : Rtorrent) (all torrents : List Torrent) (pass : Pass)
    → ((torrent : Torrent) → In torrent torrents → In torrent all)
    → Reaches (IsPublished rtorrent all) pass.tree (publish_all rtorrent torrents pass).tree
unfolding publish_all
publish_from-Reaches rtorrent all [] pass sub = rests
publish_from-Reaches rtorrent all (torrent ∷ torrents) pass sub =
    let step = publish_torrent-Reaches rtorrent all torrent pass (sub torrent here) in
    elim (Bool-cases (publish_torrent rtorrent torrent pass).is_broken) [
      | inl broken ↦ rw (publish_all, broken) step
      | inr whole ↦
          rw (publish_all, whole)
            (Reaches-trans step (
              publish_from-Reaches rtorrent all torrents (publish_torrent rtorrent torrent pass)
                (λ t i. sub t (later i))))
    ]

pub publish_all-Reaches :
    (rtorrent : Rtorrent) (torrents : List Torrent) (pass : Pass)
    → Reaches (IsPublished rtorrent torrents) pass.tree (publish_all rtorrent torrents pass).tree
publish_all-Reaches rtorrent torrents pass =
    publish_from-Reaches rtorrent torrents torrents pass (λ t i. i)

-- A pass overwrites and removes nothing: a path that names an inode or a directory before it names the
-- same one after it.
pub publish_all-keeps :
    (rtorrent : Rtorrent) (torrents : List Torrent) (pass : Pass) (p : FilePath) (x : Place)
    → place_at pass.tree p ≡ some x
    → place_at (publish_all rtorrent torrents pass).tree p ≡ some x
publish_all-keeps rtorrent torrents pass p x =
    Reaches-keeps p x (publish_all-Reaches rtorrent torrents pass)
