-- ===== src/Flood/Publish/Marked.antt =====
-- What the mark on a torrent says.
use podhaus.Flood.Publish.Shown.{AreShown, AreShown-Reaches, publish_each-AreShown}
use podhaus.Base.Codes.{Text}
use podhaus.Flood.Publish.Changes.{
  tree_of, IsPublished, publish_torrent-Reaches, after_torrent_tree,
}
use podhaus.Flood.Publish.Linked.{iter_files-IsAt}
use podhaus.Flood.Publish.Steps.{Reaches, rests, Reaches-trans}
use podhaus.Base.{
  List, All, ℕ, ◌∷◌, [], ◌≡◌, true, inl, arith, inr, subst, In, Option-cases, Bool-cases, ◌⊎◌, ◌&&◌,
  ltb, All-mono, suc, zero, refl, sym, ap, here, false, later, ◌∙◌,
}
use podhaus.Flood.Tree.{Tree, iter_files}
use podhaus.Files.{path_of}
use podhaus.Flood.Publish.{
  ran, raised, Rtorrent, process_torrent, after_torrent, publish_torrent, Torrent, mark_done, Pass,
  Ran, is_published, publish_all,
}

-- A mark of a pass that began with the tree `start`, in the tree `u`.
abbrev pub IsMarked : Rtorrent → List Torrent → Tree → Tree → Text → Type 0
IsMarked rtorrent torrents start u hash =
    (torrent : Torrent) × (v : Tree) × In torrent torrents
    × (torrent.hash ≡ hash)
    × (torrent.is_complete ≡ true)
    × Reaches (IsPublished rtorrent torrents) start v
    × AreShown (path_of torrent.base_path) (path_of torrent.publishdir)
        (iter_files (path_of torrent.base_path) v) u

IsMarked-Reaches :
    (rtorrent : Rtorrent) (torrents : List Torrent) (start : Tree) (hash : Text) (t u : Tree)
    → Reaches (IsPublished rtorrent torrents) t u
    → IsMarked rtorrent torrents start t hash
    → IsMarked rtorrent torrents start u hash
IsMarked-Reaches rtorrent torrents start hash t u r (torrent, v, one, named, complete, s, shown) = (
  torrent,
  v,
  one,
  named,
  complete,
  s,
  AreShown-Reaches (path_of torrent.base_path) (path_of torrent.publishdir)
      (iter_files (path_of torrent.base_path) v) r shown,
)

process_torrent-AreShown :
    (rtorrent : Rtorrent) (torrent : Torrent) (t u : Tree) (k : ℕ)
    → process_torrent rtorrent torrent t ≡ ran u 0 k
    → AreShown
        (path_of torrent.base_path)
        (path_of torrent.publishdir)
        (iter_files (path_of torrent.base_path) t)
        u
unfolding process_torrent
process_torrent-AreShown rtorrent torrent t u k e =
    elim (Option-cases (rtorrent.members torrent.hash)) [
      | inl none' ↦ no_members (rw (process_torrent, none') at e)
      | inr (members, f) ↦
          (publish_each-AreShown (path_of torrent.base_path) (path_of torrent.publishdir) members
            (iter_files (path_of torrent.base_path) t) t u 0 0 k
            (iter_files-IsAt (path_of torrent.base_path) t) (rw (process_torrent, f) at e)).1
    ]
  where
    no_members :
        raised t ≡ ran u 0 k
        → AreShown
            (path_of torrent.base_path)
            (path_of torrent.publishdir)
            (iter_files (path_of torrent.base_path) t)
            u
    no_members c = cc

-- Either a torrent adds no mark, or it adds its own with nothing left pending.
after_torrent_cases :
    (rtorrent : Rtorrent) (torrent : Torrent) (pass : Pass) (r : Ran)
    → ((after_torrent rtorrent torrent pass r).marked ≡ pass.marked)
      ⊎ ((k : ℕ) × (u : Tree) × (r ≡ ran u 0 k)
          × (torrent.is_complete ≡ true)
          × ((after_torrent rtorrent torrent pass r).marked ≡ torrent.hash ∷ pass.marked))
unfolding after_torrent mark_done
after_torrent_cases rtorrent torrent pass (raised t) = inl refl
after_torrent_cases rtorrent torrent pass (ran t zero k) =
    elim (Bool-cases (torrent.is_complete && ltb 0 k && rtorrent.sets torrent.hash)) [
      | inl all ↦ inr (k, t, refl, ground (arith, all), ground (arith, all))
      | inr other ↦ inl (ground (arith, other))
    ]
after_torrent_cases rtorrent torrent pass (ran t (suc p) k) = inl (ground arith)

publish_torrent_eq :
    (rtorrent : Rtorrent) (torrent : Torrent) (pass : Pass)
    → is_published torrent ≡ true
    → publish_torrent rtorrent torrent pass
      ≡ after_torrent rtorrent torrent pass (process_torrent rtorrent torrent pass.tree)
unfolding publish_torrent
publish_torrent_eq rtorrent torrent pass guards = rw (publish_torrent, guards) refl

publish_torrent-IsMarked :
    (rtorrent : Rtorrent) (torrents : List Torrent) (start : Tree) (torrent : Torrent) (pass : Pass)
    → In torrent torrents
    → Reaches (IsPublished rtorrent torrents) start pass.tree
    → All (IsMarked rtorrent torrents start pass.tree) pass.marked
    → All
        (IsMarked rtorrent torrents start (publish_torrent rtorrent torrent pass).tree)
        (publish_torrent rtorrent torrent pass).marked
unfolding publish_torrent
publish_torrent-IsMarked rtorrent torrents start torrent pass one reached marks =
    elim (Bool-cases (is_published torrent)) [
      | inr skipped ↦ rw (publish_torrent, skipped) marks
      | inl guards ↦
          let next = publish_torrent-Reaches rtorrent torrents torrent pass one in
          let kept =
            All-mono pass.marked
              (λ h m.
                IsMarked-Reaches rtorrent torrents start h pass.tree
                  (publish_torrent rtorrent torrent pass).tree next m)
              marks in
          let same = publish_torrent_eq rtorrent torrent pass guards in
          let r = process_torrent rtorrent torrent pass.tree in
          let tree = (publish_torrent rtorrent torrent pass).tree in
          elim (after_torrent_cases rtorrent torrent pass r) [
            | inl none_new ↦
                subst (All (IsMarked rtorrent torrents start tree))
                  (sym (ap (λ p. p.marked) same ∙ none_new)) kept
            | inr (k, u, ended, complete, one_new) ↦
                subst (All (IsMarked rtorrent torrents start tree))
                  (sym (ap (λ p. p.marked) same ∙ one_new))
                  (
                    (
                      torrent,
                      pass.tree,
                      one,
                      refl,
                      complete,
                      reached,
                      subst
                          (AreShown (path_of torrent.base_path) (path_of torrent.publishdir)
                            (iter_files (path_of torrent.base_path) pass.tree))
                          (sym (
                            ap (λ p. p.tree) same
                            ∙ after_torrent_tree rtorrent torrent pass r
                            ∙ ap tree_of ended))
                          (process_torrent-AreShown rtorrent torrent pass.tree u k ended),
                    ),
                    kept,
                  )
          ]
    ]

publish_from-IsMarked :
    (rtorrent : Rtorrent) (all torrents : List Torrent) (start : Tree) (pass : Pass)
    → ((torrent : Torrent) → In torrent torrents → In torrent all)
    → Reaches (IsPublished rtorrent all) start pass.tree
    → All (IsMarked rtorrent all start pass.tree) pass.marked
    → All
        (IsMarked rtorrent all start (publish_all rtorrent torrents pass).tree)
        (publish_all rtorrent torrents pass).marked
unfolding publish_all
publish_from-IsMarked rtorrent all [] start pass sub reached marks = marks
publish_from-IsMarked rtorrent all (torrent ∷ torrents) start pass sub reached marks =
    let next = publish_torrent rtorrent torrent pass in
    let step =
      publish_torrent-IsMarked rtorrent all start torrent pass (sub torrent here) reached marks in
    elim (Bool-cases (publish_torrent rtorrent torrent pass).is_broken) [
      | inl broken ↦ rw (publish_all, broken) step
      | inr whole ↦
          rw (publish_all, whole)
            (publish_from-IsMarked rtorrent all torrents start next (λ t i. sub t (later i))
              (Reaches-trans reached
                (publish_torrent-Reaches rtorrent all torrent pass (sub torrent here)))
              step)
    ]

pub publish_all-IsMarked :
    (rtorrent : Rtorrent) (torrents : List Torrent) (start : Tree)
    → let pass =
        publish_all rtorrent torrents (record { tree = start; marked = []; is_broken = false }) in
      All (IsMarked rtorrent torrents start pass.tree) pass.marked
publish_all-IsMarked rtorrent torrents start =
    publish_from-IsMarked rtorrent torrents torrents start
      (record { tree = start; marked = []; is_broken = false }) (λ t i. i) rests tt
