-- ===== src/Recovery/Tests.antt =====
-- Runs of recover-storage-containers on two containers, and each result at one of them.
use podhaus.Recovery.Complete.{is_due, run_complete}
use podhaus.Base.Codes.{codes, Text}
use podhaus.Recovery.Starts.{MayStart, run-MayStart}
use podhaus.Recovery.{StorageMount, run, Inspection, codes, Probe}
use podhaus.Base.{All, Bool, ◌∷◌, [], true, some, ◌≡◌, map, refl, keep}

abbrev pouch : StorageMount
pouch = record {
  root = codes "mnt" ∷ codes "pouch" ∷ [];
  expected_source = codes "nas:/pouch";
  fstypes = codes "nfs4" ∷ [];
}

abbrev mounted : StorageMount → Probe
mounted s = record {
  sentinel_readable = true;
  filesystems = some (
      record {
        target = codes "/mnt/pouch";
        source = codes "nas:/pouch";
        fstype = codes "nfs4";
        options = codes "rw" ∷ codes "hard" ∷ [];
      }
      ∷ []);
}

-- One that failed on the volume, and one that was stopped.
abbrev plex : Inspection
plex = record {
  id = codes "a1";
  status = codes "exited";
  error = codes "error mounting /mnt/pouch/TV: host is down";
  restart_policy = codes "unless-stopped";
  mounts = record { is_bind = true; source = codes "mnt" ∷ codes "pouch" ∷ codes "TV" ∷ [] } ∷ [];
}

abbrev stopped : Inspection
stopped = record plex { id = codes "b2"; error = [] }

abbrev works : Text → Bool
works id = true

-- Only the first is started.
started_one : (run works mounted (pouch ∷ []) (plex ∷ stopped ∷ [])).started ≡ codes "a1" ∷ []
unfolding run
started_one = refl

run-MayStart_example :
    All
      (MayStart mounted (pouch ∷ []) (plex ∷ stopped ∷ []))
      (run works mounted (pouch ∷ []) (plex ∷ stopped ∷ [])).started
run-MayStart_example = run-MayStart works mounted (pouch ∷ []) (plex ∷ stopped ∷ [])

run_complete_example :
    (run works mounted (pouch ∷ []) (plex ∷ stopped ∷ [])).started
    ≡ map (λ c. c.id) (keep (is_due mounted (pouch ∷ [])) (plex ∷ stopped ∷ []))
unfolding run
run_complete_example = run_complete works mounted (pouch ∷ []) (plex ∷ stopped ∷ []) refl
