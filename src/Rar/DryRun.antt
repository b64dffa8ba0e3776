-- ===== src/Rar/DryRun.antt =====
-- Which rows rar-cleanup-scripts/remediate.py acts on, and its runs with `--dry-run`.
use podhaus.Files.{FilePath}
use podhaus.Rar.Releases.{find_primary_rar}
use podhaus.Files.Disk.{Disk, is_dir, node_at}
use podhaus.Rar.Remediate.{
  handle_extracted, handle_never_extracted, Row, path_allowed, Outcome, extraction, error,
  target_of, dry_run, skipped, resumed,
}
use podhaus.Rar.Run.{
  Extractor, remediate, process_all, handle, process, act, Options, Store, select,
  already_completed, is_acted_on, is_ok, Action, is_error,
}
use podhaus.Base.{
  true, List, ◌≡◌, arith, ◌∷◌, [], refl, inl, ◌⊎◌, inr, ◌&&◌, false, Bool-cases, Bool, is_some,
  Option-cases, ◌==◌, ◌||◌, not,
}

handle-dry : (unrar : Extractor) (row : Row) (d : Disk) → (handle unrar row true d).1 ≡ d
unfolding handle handle_extracted handle_never_extracted
handle-dry unrar row d = ground arith

-- An archive that is not extracted changes nothing; else the target is new.
pub never_extracted_cases :
    (unrar : Extractor) (row : Row) (folder : FilePath) (dry : Bool) (d : Disk)
    → ((o : Outcome) × (is_ok o ≡ false) × (handle_never_extracted unrar row folder dry d ≡ (o, d)))
      ⊎ ((archive : FilePath) × (target : FilePath) × (is_some (node_at d target) ≡ false)
          × (handle_never_extracted unrar row folder dry d
              ≡ extraction row folder target (unrar d folder archive)))
unfolding handle_never_extracted
never_extracted_cases unrar row folder dry d = elim (Option-cases (find_primary_rar folder d)) [
  | inl missing ↦ inl (error, refl, rw (missing, handle_never_extracted) refl)
  | inr (archive, found) ↦ elim (Option-cases (target_of folder row.archive_expected_filename)) [
    | inl unnamed ↦ inl (error, refl, rw (found, unnamed, handle_never_extracted) refl)
    | inr (target, named) ↦
        elim (Bool-cases (row.archive_expected_size == 0 || is_some (node_at d target))) [
          | inl guarded ↦ inl (error, refl, rw (found, named, guarded, handle_never_extracted) refl)
          | inr free ↦ elim (Bool-cases dry) [
            | inl only ↦
                inl (dry_run, refl, rw (found, named, free, only, handle_never_extracted) refl)
            | inr wet ↦ inr (
              archive,
              target,
              ground arith,
              rw (found, named, free, wet, handle_never_extracted) refl,
            )
          ]
        ]
  ]
]

-- The row needs nothing more: it is not acted on, or its folder is recorded as done.
abbrev pub settled : List Action → Row → Bool
settled actions row =
    not (is_acted_on row.classification) || already_completed actions row.folder_path

-- A row either changes nothing, as an error or as settled, or passes every guard and is acted on.
pub process_cases :
    (unrar : Extractor) (opts : Options) (row : Row) (s : Store)
    → ((o : Outcome) × (process unrar opts row s ≡ (o, s))
        × ((is_error o || settled s.actions row) ≡ true))
      ⊎ ((path_allowed row.folder_path ≡ true)
          × (is_acted_on row.classification ≡ true)
          × ((opts.resume && already_completed s.actions row.folder_path) ≡ false)
          × (process unrar opts row s ≡ act unrar opts.only_dry row s))
unfolding process
process_cases unrar opts row s = elim (Bool-cases (is_acted_on row.classification)) [
  | inr stop ↦ inl (skipped, rw (stop, process) refl, ground arith)
  | inl acted ↦ elim (Bool-cases (path_allowed row.folder_path)) [
    | inr stop ↦ inl (error, rw (acted, stop, process) refl, refl)
    | inl allowed ↦ elim (Bool-cases (is_dir s.disk row.folder_path)) [
      | inr stop ↦ inl (error, rw (acted, allowed, stop, process) refl, refl)
      | inl found ↦ elim (Bool-cases (opts.resume && already_completed s.actions row.folder_path)) [
        | inl done ↦ inl (resumed, rw (acted, allowed, found, done, process) refl, ground arith)
        | inr new ↦ inr (allowed, acted, new, rw (acted, allowed, found, new, process) refl)
      ]
    ]
  ]
]

act-dry : (unrar : Extractor) (row : Row) (s : Store) → (act unrar true row s).1 ≡ s
unfolding act
act-dry unrar row s = rw (handle-dry unrar row s.disk) refl

process-dry :
    (unrar : Extractor) (opts : Options) (row : Row) (s : Store)
    → opts.only_dry ≡ true
    → (process unrar opts row s).1 ≡ s
process-dry unrar opts row s e = elim (process_cases unrar opts row s) [
  | inl (o, same, why) ↦ rw same refl
  | inr (allowed, acted, new, acts) ↦ rw (acts, e) (act-dry unrar row s)
]

process_all-dry :
    (unrar : Extractor) (opts : Options) (rows : List Row) (s : Store)
    → opts.only_dry ≡ true
    → (process_all unrar opts rows s).1 ≡ s
unfolding process_all
process_all-dry unrar opts [] s e = refl
process_all-dry unrar opts (row ∷ rows) s e =
    rw (process-dry unrar opts row s e) (process_all-dry unrar opts rows s e)

pub remediate-dry :
    (unrar : Extractor) (opts : Options) (rows : List Row) (s : Store)
    → opts.only_dry ≡ true
    → (remediate unrar opts rows s).1 ≡ s
unfolding remediate
remediate-dry unrar opts rows s e = process_all-dry unrar opts (select opts rows) s e
