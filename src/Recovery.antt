-- ===== src/Recovery.antt =====
-- ansible/roles/storage_binds/files/recover-storage-containers: which stopped containers are started
-- once the volumes that they bind are mounted. A document of `docker inspect` or `findmnt` is a record
-- of the fields that are read; what the commands answer is an argument.
use podhaus.Files.{FilePath, path_eq, is_below, path_text}
use podhaus.Base.Codes.{contains, text_eq, is_one_of, codes, lower, Text}
pub mod Starts
pub mod Complete
mod Tests
use podhaus.Base.{
  ℕ, Bool, List, Option, true, some, any, map, keep, false, if◌then◌else◌, ◌&&◌, not, ◌||◌, ◌∷◌, [],
  none, length, ◌==◌,
}

pub record StorageMount : Type 0 where
  pub root : FilePath
  pub expected_source : Text
  pub fstypes : List Text

-- An entry of `findmnt`, its options taken apart at the commas.
pub record Filesystem : Type 0 where
  pub target : Text
  pub source : Text
  pub fstype : Text
  pub options : List Text

-- The answers on one volume: whether its sentinel can be read, and the document of `findmnt` unless
-- that failed.
pub record Probe : Type 0 where
  pub sentinel_readable : Bool
  pub filesystems : Option (List Filesystem)

pub record Bind : Type 0 where
  pub is_bind : Bool
  pub source : FilePath

-- What `docker inspect` says of a container.
pub record Inspection : Type 0 where
  pub id : Text
  pub status : Text
  pub error : Text
  pub restart_policy : Text
  pub mounts : List Bind

-- `_valid_findmnt_document`; two entries that match raise, which is `none`
unfoldable pub matches_storage : StorageMount → Filesystem → Bool
unfolding text_eq path_text is_one_of
matches_storage storage f =
    text_eq f.target (path_text storage.root)
    && (text_eq f.source storage.expected_source
        && (is_one_of f.fstype storage.fstypes && is_one_of (codes "rw") f.options))

unfoldable pub exactly_one : List Filesystem → Option Bool
exactly_one [] = some false
exactly_one (f ∷ []) = some true
exactly_one (f ∷ g ∷ fs) = none

-- `_probe`
unfoldable pub probe : StorageMount → Probe → Option Bool
unfolding matches_storage exactly_one
probe storage answer =
    if answer.sentinel_readable
    then elim answer.filesystems [
      | none ↦ some false
      | some fs ↦ exactly_one (keep (matches_storage storage) fs)
    ]
    else some false

-- `_uses`
unfoldable pub uses : List FilePath → StorageMount → Bool
unfolding path_eq is_below
uses sources storage = any (λ s. path_eq s storage.root || is_below storage.root s) sources

abbrev pub markers : List Text
markers =
    codes "oci runtime"
    ∷ codes "error mounting"
    ∷ codes "mount source path"
    ∷ codes "no such device"
    ∷ codes "host is down"
    ∷ []

-- `_is_mount_failure`
unfoldable pub is_mount_failure : Text → List FilePath → List StorageMount → Bool
unfolding contains lower uses path_text
is_mount_failure error sources storage =
    any (λ s. any (λ item. uses (s ∷ []) item) storage && contains (path_text s) error) sources
    && any (λ m. contains m (lower error)) markers

-- `_bind_sources`
unfoldable pub bind_sources : List Bind → List FilePath
bind_sources mounts = map (λ b. b.source) (keep (λ b. b.is_bind) mounts)

unfoldable pub is_empty : Text → Bool
is_empty [] = true
is_empty (_ ∷ _) = false

-- `from_inspection`: the storage of a container that may be started
unfoldable pub candidate : List StorageMount → Inspection → Option (List StorageMount)
unfolding is_one_of is_empty bind_sources uses is_mount_failure
candidate declared c =
    let sources = bind_sources c.mounts in
    let storage = keep (uses sources) declared in
    if not (is_one_of c.status (codes "created" ∷ codes "exited" ∷ []))
    then none
    else if is_empty c.error
        || not (is_one_of c.restart_policy (codes "always" ∷ codes "unless-stopped" ∷ []))
    then none
    else if length storage == 0 || not (is_mount_failure c.error sources storage)
    then none
    else some storage

-- The volumes that are not ready, of those asked; `none` if a probe raises.
unfoldable pub unavailable : (StorageMount → Probe) → List StorageMount → Option (List StorageMount)
unfolding probe
unavailable answers [] = some []
unavailable answers (s ∷ ss) =
    let rest = unavailable answers ss in
    elim (probe s (answers s)) [
      | none ↦ none
      | some ready ↦ elim rest [ none ↦ none | some us ↦ some (if ready then us else s ∷ us) ]
    ]

-- How `run` ends: the containers that were started, and whether it raised.
pub record Recovered : Type 0 where
  pub started : List Text
  pub raised : Bool

-- `docker start`, which raises if it fails
unfoldable pub start : Bool → Text → Recovered → Recovered
start true id rest = record rest { started = id ∷ rest.started }
start false id rest = record { started = []; raised = true }

-- A container whose volumes are not all ready is passed over.
unfoldable pub if_available : Option (List StorageMount) → Recovered → Recovered → Recovered
if_available none starting rest = record { started = []; raised = true }
if_available (some []) starting rest = starting
if_available (some (_ ∷ _)) starting rest = rest

unfoldable pub if_candidate :
    (StorageMount → Probe) → Option (List StorageMount) → Recovered → Recovered → Recovered
unfolding unavailable if_available
if_candidate answers none starting rest = rest
if_candidate answers (some storage) starting rest =
    if_available (unavailable answers storage) starting rest

-- `run`: `starts` says whether `docker start` succeeds
unfoldable pub run :
    (Text → Bool) → (StorageMount → Probe) → List StorageMount → List Inspection → Recovered
unfolding candidate if_candidate start
run starts answers declared [] = record { started = []; raised = false }
run starts answers declared (c ∷ cs) =
    let rest = run starts answers declared cs in
    if_candidate answers (candidate declared c) (start (starts c.id) c.id rest) rest
