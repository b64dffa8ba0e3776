-- ===== src/Flood/Publish/Gaps.antt =====
-- What the daily list of gaps reports.
use podhaus.Base.{
  Bool, List, In, ℕ, ◌≡◌, true, map, keep, false, ◌∷◌, ◌<◌, ◌+◌, later, Bool-cases, inl, ◌≤◌, arith,
  inr, [], ◌&&◌, ◌==◌, here, not, ◌||◌, ltb, ◌++◌, refl,
}
use podhaus.Flood.Publish.{
  check_gaps, Torrent, is_published, is_gap, download_root, gap_grace_seconds,
}
use podhaus.Base.Codes.{starts_with, codes, text_eq}

In-map-keep :
    (test : Torrent → Bool) (torrent : Torrent) (torrents : List Torrent)
    → In torrent torrents
    → test torrent ≡ true
    → In torrent.name (map (λ t. t.name) (keep test torrents))
In-map-keep test torrent [] i e = elim i [ ]
In-map-keep test torrent (t ∷ torrents) here e = rw e here
In-map-keep test torrent (t ∷ torrents) (later i) e = elim (Bool-cases (test t)) [
  | inl kept ↦ rw kept (later (In-map-keep test torrent torrents i e))
  | inr dropped ↦ rw dropped (In-map-keep test torrent torrents i e)
]

two_guards : (a b c d e : Bool) → (a && not b && c && d && not e) ≡ true → (b ≡ false) × (e ≡ false)
two_guards a b c d e h = ground arith

has_finished : (n now grace : ℕ) → 0 < n → n + grace ≤ now → (n == 0 || ltb now (n + grace)) ≡ false
has_finished n now grace known old = ground arith

-- A complete torrent that a pass takes up and that no pass has marked yet is reported once the grace is over,
-- given the instant at which it finished, unless its destination's text begins with that of the download
-- folder.
pub check_gaps-In :
    (now : ℕ) (torrent : Torrent) (torrents : List Torrent)
    → In torrent torrents
    → is_published torrent ≡ true
    → starts_with download_root torrent.publishdir ≡ false
    → torrent.is_complete ≡ true
    → 0 < torrent.finished
    → torrent.finished + gap_grace_seconds ≤ now
    → In torrent.name (check_gaps now torrents)
unfolding check_gaps is_published is_gap
check_gaps-In now torrent torrents one guards outside complete known old =
    let (named, unmarked) =
      two_guards (starts_with (download_root ++ codes "/") torrent.base_path)
        (text_eq torrent.publishdir []) (not (text_eq torrent.publishdir download_root))
        (not (starts_with (download_root ++ codes "/") torrent.publishdir))
        (text_eq torrent.pubdone (codes "1")) guards in
    In-map-keep (is_gap now) torrent torrents one (
      rw
        (
          is_gap,
          named,
          outside,
          complete,
          unmarked,
          has_finished torrent.finished now gap_grace_seconds known old,
        )
        refl)
