-- ===== src/Flood/Publish/Linked.antt =====
-- What a pass of flood-publish.py links, and that it leaves every other path as it was.
use podhaus.Files.Laws.{path_eq_refl, length-parent}
use podhaus.Flood.Publish.Steps.{
  make_dirs-longer, Reaches, make_dirs-Reaches, links, Reaches-is_done, rests, place_at-add,
}
use podhaus.Flood.Tree.{
  place_at, Tree, Place, make_dirs, is_media, place_eq, is_inode_of, Published, link, publish_file,
  inode, linked, is_blocked, folder, present, conflict, refused, iter_files, is_inode,
}
use podhaus.Flood.Publish.{publish_one, dest_for, Member, Turn, is_done, turned, failed}
use podhaus.Base.{
  ◌≡◌, Option, List, ◌⊎◌, ◌++◌, true, Bool-cases, none, ◌∷◌, [], some, false, inr, inl, arith,
  Option-cases, refl, All, map, keep, ◌&&◌,
}
use podhaus.Files.{FilePath, parts_behind, base_name, is_below, parent}

-- The path is one of the torrent's: the file that it is, or a file below its folder.
abbrev pub IsAt : FilePath → FilePath → Type 0
IsAt base src = (src ≡ base) ⊎ (is_below base src ≡ true)

-- The destination of a file: below the torrent's own.
abbrev pub IsDest : FilePath → FilePath → FilePath → FilePath → Type 0
IsDest base publishdir src dest =
    (dest ≡ publishdir ++ base_name base ∷ []) ⊎ (dest ≡ publishdir ++ parts_behind base src)

-- A link of one torrent: a complete media file of it, at its destination.
abbrev pub IsLink : FilePath → FilePath → List Member → FilePath → FilePath → Tree → Type 0
IsLink base publishdir members src dest u =
    IsAt base src
    × (is_media src ≡ true)
    × (is_done members src u ≡ true)
    × IsDest base publishdir src dest

dest_for-IsDest :
    (src base publishdir : FilePath) (t : Tree)
    → IsDest base publishdir src (dest_for src base publishdir t)
unfolding dest_for
dest_for-IsDest src base publishdir t = elim (Bool-cases (is_inode_of (place_at t base))) [
  | inl single ↦ rw single (inl refl)
  | inr many ↦ rw many (inr refl)
]

place_eq-eq : (o : Option Place) (y : Place) → place_eq o (some y) ≡ true → o ≡ some y
place_eq-eq (some (inode i)) (inode j) e = ground arith
place_eq-eq (some folder) folder e = refl
place_eq-eq (some folder) (inode j) e = cc
place_eq-eq (some (inode i)) folder e = cc
place_eq-eq none y e = cc

-- The file stands at its destination too.
abbrev pub IsShown : FilePath → FilePath → Tree → FilePath → Type 0
IsShown base publishdir u src =
    (dest : FilePath) × (x : Place) × IsDest base publishdir src dest
    × (place_at u dest ≡ some x)
    × (place_at u src ≡ some x)

-- How a turn ends: the file is none to publish, it waits, it is there, or the turn fails.
pub data Explains (base publishdir : FilePath) (members : List Member) (src : FilePath) (t : Tree)
    : Turn → Type 0 where
  other : is_media src ≡ false → Explains base publishdir members src t (turned t 0 0)
  waits : Explains base publishdir members src t (turned t 1 0)
  appears :
      (u : Tree)
      → Reaches (IsLink base publishdir members) t u
      → IsShown base publishdir u src
      → Explains base publishdir members src t (turned u 0 1)
  fails : Explains base publishdir members src t failed

make_dirs-free :
    (dest : FilePath) (t : Tree)
    → place_at t dest ≡ none
    → place_at (make_dirs [] (parent dest) t) dest ≡ none
unfolding parent make_dirs
make_dirs-free [] t e = e
make_dirs-free (a ∷ as') t e =
    make_dirs-longer [] (parent (a ∷ as')) t (a ∷ as') (omega (arith, length-parent a as')) e

place_at-head : (p : FilePath) (x : Place) (t : Tree) → place_at ((p, x) ∷ t) p ≡ some x
unfolding place_at
place_at-head p x t = rw (path_eq_refl p) refl

-- The part of a turn that publishes.
module _ (base publishdir : FilePath) (members : List Member) (src dest : FilePath) (t : Tree)
    (at : IsAt base src) (media : is_media src ≡ true) (done : is_done members src t ≡ true)
    (dests : IsDest base publishdir src dest) where
  abbrev turn_of : Published → Turn
  turn_of (linked t') = turned t' 0 1
  turn_of present = turned t 0 1
  turn_of conflict = turned t 1 0
  turn_of refused = failed

  link-Explains :
      place_at t dest ≡ none
      → Explains base publishdir members src t
          (turn_of (link src dest (make_dirs [] (parent dest) t)))
  unfolding link
  link-Explains free =
      let made = make_dirs [] (parent dest) t in
      let reached = make_dirs-Reaches {Q = IsLink base publishdir members} [] (parent dest) t in
      elim (Option-cases (place_at made src)) [
        | inl gone ↦ rw (link, gone) fails
        | inr (x, found) ↦
            let all =
              links src dest x reached (make_dirs-free dest t free) found
                (at, media, Reaches-is_done members src reached done, dests) in
            rw (link, found)
              (appears ((dest, x) ∷ made) all (
                dest,
                x,
                dests,
                place_at-head dest x made,
                place_at-add dest x made src x (make_dirs-free dest t free) found,
              ))
      ]

  publish_file-Explains : Explains base publishdir members src t (turn_of (publish_file src dest t))
  unfolding publish_file
  publish_file-Explains = elim (Option-cases (place_at t dest)) [
    | inl free ↦ elim (Bool-cases (is_blocked dest t)) [
      | inl blocked ↦ rw (publish_file, free, blocked) fails
      | inr open_path ↦ rw (publish_file, free, open_path) (link-Explains free)
    ]
    | inr (y, taken) ↦ elim (Bool-cases (place_eq (place_at t src) (some y))) [
      | inl same ↦
          rw (publish_file, taken, same)
            (appears t rests (dest, y, dests, taken, place_eq-eq (place_at t src) y same))
      | inr apart ↦ rw (publish_file, taken, apart) waits
    ]
  ]

pub publish_one-Explains :
    (base publishdir : FilePath) (members : List Member) (src : FilePath) (t : Tree)
    → IsAt base src
    → Explains base publishdir members src t (publish_one base publishdir members src t)
unfolding publish_one
publish_one-Explains base publishdir members src t at = elim (Bool-cases (is_media src)) [
  | inr plain ↦ rw (publish_one, plain) (other plain)
  | inl media ↦ elim (Bool-cases (is_done members src t)) [
    | inr early ↦ rw (publish_one, media, early) waits
    | inl done ↦
        rw (publish_one, media, done)
          (publish_file-Explains base publishdir members src (dest_for src base publishdir t) t at
            media done (dest_for-IsDest src base publishdir t))
  ]
]

Explains-cases :
    {base publishdir : FilePath} {members : List Member} {src : FilePath} {t : Tree} {turn : Turn}
    → Explains base publishdir members src t turn
    → ((turn ≡ turned t 0 0) × (is_media src ≡ false))
      ⊎ ((turn ≡ turned t 1 0)
          ⊎ (((u : Tree) × (turn ≡ turned u 0 1)
                × Reaches (IsLink base publishdir members) t u
                × IsShown base publishdir u src)
              ⊎ (turn ≡ failed)))
Explains-cases (other plain) = inl (refl, plain)
Explains-cases waits = inr (inl refl)
Explains-cases (appears u reached shown) = inr (inr (inl (u, refl, reached, shown)))
Explains-cases fails = inr (inr (inr refl))

pub publish_one_cases :
    (base publishdir : FilePath) (members : List Member) (src : FilePath) (t : Tree)
    → IsAt base src
    → ((publish_one base publishdir members src t ≡ turned t 0 0) × (is_media src ≡ false))
      ⊎ ((publish_one base publishdir members src t ≡ turned t 1 0)
          ⊎ (((u : Tree) × (publish_one base publishdir members src t ≡ turned u 0 1)
                × Reaches (IsLink base publishdir members) t u
                × IsShown base publishdir u src)
              ⊎ (publish_one base publishdir members src t ≡ failed)))
publish_one_cases base publishdir members src t at =
    Explains-cases (publish_one-Explains base publishdir members src t at)

iter_below :
    (base : FilePath) (t : Tree)
    → All (IsAt base) (map (λ e. e.0) (keep (λ e. is_inode e.1 && is_below base e.0) t))
iter_below base [] = tt
iter_below base (e ∷ t) = elim (Bool-cases (is_inode e.1 && is_below base e.0)) [
  | inl found ↦ rw found (inr (ground arith), iter_below base t)
  | inr not_found ↦ rw not_found (iter_below base t)
]

pub iter_files-IsAt : (base : FilePath) (t : Tree) → All (IsAt base) (iter_files base t)
unfolding iter_files
iter_files-IsAt base t = elim (Bool-cases (is_inode_of (place_at t base))) [
  | inl single ↦ rw single (inl refl, tt)
  | inr many ↦ rw many (iter_below base t)
]
