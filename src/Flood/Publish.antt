-- ===== src/Flood/Publish.antt =====
-- `process_torrent`, `main` and `check_gaps` of flood/scripts/flood-publish.py. What rtorrent answers is
-- an argument. The files of a torrent are listed before the first of them is linked.
pub mod Steps
pub mod Linked
pub mod Changes
pub mod Shown
pub mod Marked
pub mod Gaps
use podhaus.Base.{
  Bool, List, ◌++◌, ℕ, Option, if◌then◌else◌, none, not, map, some, ◌∷◌, ◌&&◌, [], true, keep, ◌+◌,
  ◌==◌, false, ltb, ◌||◌,
}
use podhaus.Files.{FilePath, path_eq, path_of, parent, base_name, parts_behind}
use podhaus.Base.Codes.{Text, codes, starts_with, text_eq}
use podhaus.Flood.Tree.{
  Tree, place_at, publish_file, iter_files, has_extract_marker, is_media, is_inode_of, linked,
  present, conflict, refused,
}

-- A row of `f.multicall`.
pub record Member : Type 0 where
  pub frozen : Text
  pub completed_chunks : ℕ
  pub size_chunks : ℕ

-- A row of `d.multicall2`.
pub record Torrent : Type 0 where
  pub hash : Text
  pub name : Text
  pub base_path : Text
  pub publishdir : Text
  pub is_complete : Bool
  pub pubdone : Text
  pub finished : ℕ

-- What rtorrent answers: the members of a torrent, if the call does not raise, and whether each of the two
-- calls that mark a torrent goes through.
pub record Rtorrent : Type 0 where
  pub members : Text → Option (List Member)
  pub sets : Text → Bool
  pub saves : Text → Bool

-- `members.get(path)`: the last row for a path counts
unfoldable pub member_state : FilePath → List Member → Option Bool
unfolding path_eq path_of
member_state p [] = none
member_state p (m ∷ ms) = elim (member_state p ms) [
  | some b ↦ some b
  | none ↦ if path_eq (path_of m.frozen) p then some (m.completed_chunks == m.size_chunks) else none
]

-- Whether a file is complete: a member by its chunks, any other by the mark beside it.
unfoldable pub is_done : List Member → FilePath → Tree → Bool
unfolding member_state has_extract_marker parent
is_done members src t = elim (member_state src members) [
  | some b ↦ b
  | none ↦ has_extract_marker (parent src) t
]

-- `_dest_for`
unfoldable pub dest_for : FilePath → FilePath → FilePath → Tree → FilePath
unfolding place_at base_name parts_behind
dest_for src base publishdir t =
    publishdir
    ++ (if is_inode_of (place_at t base) then base_name base ∷ [] else parts_behind base src)

-- One turn of the loop: the tree, and what is added to either count; or an error.
pub data Turn : Type 0 where
  turned : (tree : Tree) (pending published : ℕ) → Turn
  failed : Turn

unfoldable pub publish_one : FilePath → FilePath → List Member → FilePath → Tree → Turn
unfolding is_media is_done publish_file dest_for
publish_one base publishdir members src t =
    if not (is_media src)
    then turned t 0 0
    else if not (is_done members src t)
    then turned t 1 0
    else elim (publish_file src (dest_for src base publishdir t) t) [
      | linked t' ↦ turned t' 0 1
      | present ↦ turned t 0 1
      | conflict ↦ turned t 1 0
      | refused ↦ failed
    ]

-- How the loop over the files ends; an error leaves what was linked before it.
pub data Ran : Type 0 where
  ran : (tree : Tree) (pending published : ℕ) → Ran
  raised : Tree → Ran

unfoldable pub publish_each : FilePath → FilePath → List Member → List FilePath → Tree → ℕ → ℕ → Ran
unfolding publish_one
publish_each base publishdir members [] t pending published = ran t pending published
publish_each base publishdir members (src ∷ sources) t pending published =
    elim (publish_one base publishdir members src t) [
      | turned t' p q ↦
          publish_each base publishdir members sources t' (pending + p) (published + q)
      | failed ↦ raised t
    ]

-- `process_torrent`
unfoldable pub process_torrent : Rtorrent → Torrent → Tree → Ran
unfolding publish_each iter_files path_of
process_torrent rtorrent torrent t = elim (rtorrent.members torrent.hash) [
  | none ↦ raised t
  | some members ↦
      publish_each (path_of torrent.base_path) (path_of torrent.publishdir) members
        (iter_files (path_of torrent.base_path) t) t 0 0
]

abbrev pub download_root : Text
download_root = codes "/data/torrents"

-- The guards of the loop of `main`.
unfoldable pub is_published : Torrent → Bool
unfolding starts_with text_eq
is_published torrent =
    starts_with (download_root ++ codes "/") torrent.base_path
    && not (text_eq torrent.publishdir [])
    && not (text_eq torrent.publishdir download_root)
    && not (starts_with (download_root ++ codes "/") torrent.publishdir)
    && not (text_eq torrent.pubdone (codes "1"))

-- A pass: the tree, the torrents marked in it, and whether a call that marks one has ended it.
pub record Pass : Type 0 where
  pub tree : Tree
  pub marked : List Text
  pub is_broken : Bool

unfoldable pub mark_done : Rtorrent → Text → Pass → Pass
mark_done rtorrent hash pass =
    if not (rtorrent.sets hash)
    then record pass { is_broken = true }
    else if not (rtorrent.saves hash)
    then record pass { marked = hash ∷ pass.marked; is_broken = true }
    else record pass { marked = hash ∷ pass.marked }

-- What follows on the result of `process_torrent`.
unfoldable pub after_torrent : Rtorrent → Torrent → Pass → Ran → Pass
unfolding mark_done
after_torrent rtorrent torrent pass (raised t) = record pass { tree = t }
after_torrent rtorrent torrent pass (ran t pending published) =
    if torrent.is_complete && pending == 0 && ltb 0 published
    then mark_done rtorrent torrent.hash (record pass { tree = t })
    else record pass { tree = t }

unfoldable pub publish_torrent : Rtorrent → Torrent → Pass → Pass
unfolding is_published after_torrent process_torrent
publish_torrent rtorrent torrent pass =
    if is_published torrent
    then after_torrent rtorrent torrent pass (process_torrent rtorrent torrent pass.tree)
    else pass

-- The loop of `main`.
unfoldable pub publish_all : Rtorrent → List Torrent → Pass → Pass
unfolding publish_torrent
publish_all rtorrent [] pass = pass
publish_all rtorrent (torrent ∷ torrents) pass =
    let next = publish_torrent rtorrent torrent pass in
    elim next.is_broken [ true ↦ next | false ↦ publish_all rtorrent torrents next ]

abbrev pub gap_grace_seconds : ℕ
gap_grace_seconds = 7200

-- `check_gaps`
unfoldable pub is_gap : ℕ → Torrent → Bool
unfolding starts_with text_eq
is_gap now torrent =
    not (text_eq torrent.publishdir [] || starts_with download_root torrent.publishdir)
    && not (not torrent.is_complete || text_eq torrent.pubdone (codes "1"))
    && not (torrent.finished == 0 || ltb now (torrent.finished + gap_grace_seconds))

unfoldable pub check_gaps : ℕ → List Torrent → List Text
unfolding is_gap
check_gaps now torrents = map (λ t. t.name) (keep (is_gap now) torrents)
