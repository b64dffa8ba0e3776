-- ===== src/Rar/Run.antt =====
-- The rest of rar-cleanup-scripts/remediate.py: the table of what was done, the guards of a row and
-- the loop of `main`.
use podhaus.Files.{path_eq, FilePath}
use podhaus.Files.Disk.{Disk, node_at, is_dir}
use podhaus.Rar.Remediate.{
  Classification, Outcome, path_allowed, Row, in_progress, extracted, Unrar, ok, error,
  handle_extracted, never_extracted, handle_never_extracted, skipped, needs_review, skip,
  other_class, resumed,
}
use podhaus.Base.{
  ℕ, Bool, true, List, Option, false, none, ◌∷◌, if◌then◌else◌, [], some, not, any, ◌||◌, keep, suc,
  zero, ltb, ◌&&◌,
}

-- The table of the sidecar; the times and the notes are left out.
pub record Action : Type 0 where
  pub folder_path : FilePath
  pub classification : Classification
  pub outcome : Outcome

abbrev pub is_ok : Outcome → Bool
is_ok ok = true
is_ok _ = false

unfoldable pub outcome_of : FilePath → List Action → Option Outcome
unfolding path_eq
outcome_of folder [] = none
outcome_of folder (a ∷ actions) =
    if path_eq a.folder_path folder then some a.outcome else outcome_of folder actions

unfoldable pub already_completed : List Action → FilePath → Bool
unfolding outcome_of
already_completed actions folder = elim (outcome_of folder actions) [
  | none ↦ false
  | some o ↦ is_ok o
]

-- `record_start`: inserts the folder's row, or starts it anew
unfoldable pub record_start : FilePath → Classification → List Action → List Action
unfolding path_eq
record_start folder cls [] =
    record { folder_path = folder; classification = cls; outcome = in_progress } ∷ []
record_start folder cls (a ∷ actions) =
    let rest = record_start folder cls actions in
    if path_eq a.folder_path folder
    then record a { classification = cls; outcome = in_progress } ∷ actions
    else a ∷ rest

unfoldable pub record_finish : FilePath → Outcome → List Action → List Action
unfolding path_eq
record_finish folder o [] = []
record_finish folder o (a ∷ actions) =
    (if path_eq a.folder_path folder then record a { outcome = o } else a)
    ∷ record_finish folder o actions

-- The arguments of the command.
pub record Options : Type 0 where
  pub only_dry : Bool
  pub limit : ℕ
  pub only : Option Classification
  pub resume : Bool

pub record Store : Type 0 where
  pub disk : Disk
  pub actions : List Action

abbrev pub class_eq : Classification → Classification → Bool
class_eq extracted extracted = true
class_eq never_extracted never_extracted = true
class_eq needs_review needs_review = true
class_eq skip skip = true
class_eq other_class other_class = true
class_eq _ _ = false

abbrev pub is_acted_on : Classification → Bool
is_acted_on c = class_eq c extracted || class_eq c never_extracted

abbrev pub Extractor : Type 0
Extractor = Disk → FilePath → FilePath → Unrar

unfoldable pub handle : Extractor → Row → Bool → Disk → Outcome × Disk
handle unrar row dry d =
    if class_eq row.classification extracted
    then handle_extracted row row.folder_path dry d
    else handle_never_extracted unrar row row.folder_path dry d

-- One round of the loop behind its guards.
unfoldable pub act : Extractor → Bool → Row → Store → Outcome × Store
unfolding handle record_start record_finish
act unrar dry row s =
    let result = handle unrar row dry s.disk in
    (
      result.0,
      record {
        disk = result.1;
        actions =
            if dry
            then s.actions
            else record_finish row.folder_path result.0
                (record_start row.folder_path row.classification s.actions);
      },
    )

unfoldable pub process : Extractor → Options → Row → Store → Outcome × Store
unfolding act path_allowed node_at already_completed
process unrar opts row s =
    if not (is_acted_on row.classification)
    then (skipped, s)
    else if not (path_allowed row.folder_path)
    then (error, s)
    else if not (is_dir s.disk row.folder_path)
    then (error, s)
    else if opts.resume && already_completed s.actions row.folder_path
    then (resumed, s)
    else act unrar opts.only_dry row s

unfoldable pub process_all : Extractor → Options → List Row → Store → List Outcome × Store
unfolding process
process_all unrar opts [] s = ([], s)
process_all unrar opts (row ∷ rows) s =
    let first = process unrar opts row s in
    let later = process_all unrar opts rows first.1 in (first.0 ∷ later.0, later.1)

abbrev pub take : ℕ → List Row → List Row
take n [] = []
take zero (row ∷ rows) = []
take (suc n) (row ∷ rows) = row ∷ take n rows

unfoldable pub only_of : Option Classification → List Row → List Row
only_of none rows = rows
only_of (some c) rows = keep (λ row. class_eq row.classification c) rows

unfoldable pub select : Options → List Row → List Row
unfolding only_of
select opts rows =
    let chosen = only_of opts.only rows in
    if ltb 0 opts.limit then take opts.limit chosen else chosen

abbrev pub is_error : Outcome → Bool
is_error error = true
is_error _ = false

-- `main`: the exit code, and what is left
unfoldable pub remediate : Extractor → Options → List Row → Store → ℕ × Store
unfolding select process_all
remediate unrar opts rows s =
    let result = process_all unrar opts (select opts rows) s in
    (if any is_error result.0 then 1 else 0, result.1)
