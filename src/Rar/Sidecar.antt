-- ===== src/Rar/Sidecar.antt =====
-- The table of rar-cleanup-scripts/remediate.py, and a second run with `--resume`.
use podhaus.Files.Laws.{path_eq_refl, path_eq-eq}
use podhaus.Files.{FilePath, path_eq}
use podhaus.Rar.DryRun.{settled, process_cases}
use podhaus.Files.Disk.{Disk}
use podhaus.Rar.Remediate.{
  Outcome, handle_extracted, handle_never_extracted, Classification, extraction, skipped, resumed,
  Row, ok,
}
use podhaus.Rar.Run.{
  outcome_of, handle, record_finish, record_start, Action, Extractor, is_ok, act, already_completed,
  Store, is_acted_on, Options, process_all, remediate, process, select,
}
use podhaus.Base.{
  Bool, false, List, true, ◌≡◌, ◌∷◌, if◌then◌else◌, arith, some, ◌||◌, [], Bool-cases, refl, inl,
  inr, All, any, or_false,
}

finish-other :
    (f g : FilePath) (o : Outcome) (actions : List Action)
    → path_eq f g ≡ false
    → outcome_of g (record_finish f o actions) ≡ outcome_of g actions
unfolding outcome_of record_finish
finish-other f g o [] ne = refl
finish-other f g o (a ∷ actions) ne =
    ground
      (arith, finish-other f g o actions, path_eq-eq a.folder_path f, path_eq-eq a.folder_path g)

-- A folder that is started and finished has the outcome, and the other folders keep theirs.
recorded_lem :
    (f g : FilePath) (c : Classification) (o : Outcome) (actions : List Action)
    → outcome_of g (record_finish f o (record_start f c actions))
      ≡ (if path_eq f g then some o else outcome_of g actions)
unfolding outcome_of record_finish record_start
recorded_lem f g c o [] = rw (path_eq_refl f) refl
recorded_lem f g c o (a ∷ actions) = elim (Bool-cases (path_eq a.folder_path f)) [
  | inl same ↦ ground (arith, finish-other f g o actions, path_eq-eq a.folder_path f)
  | inr other ↦ ground (
    arith,
    recorded_lem f g c o actions,
    path_eq-eq f g,
    path_eq-eq a.folder_path g,
    path_eq_refl g,
  )
]

abbrev pub is_unsettled : Outcome → Bool
is_unsettled skipped = false
is_unsettled resumed = false
is_unsettled ok = false
is_unsettled _ = true

handle-outcome :
    (unrar : Extractor) (row : Row) (dry : Bool) (d : Disk)
    → (is_ok (handle unrar row dry d).0 || is_unsettled (handle unrar row dry d).0) ≡ true
unfolding handle handle_extracted handle_never_extracted extraction
handle-outcome unrar row dry d = ground arith

completed_lem :
    (f g : FilePath) (c : Classification) (o : Outcome) (actions : List Action)
    → already_completed (record_finish f o (record_start f c actions)) g
      ≡ (if path_eq f g then is_ok o else already_completed actions g)
unfolding already_completed
completed_lem f g c o actions = elim (Bool-cases (path_eq f g)) [
  | inl same ↦ rw (recorded_lem f g c o actions, same, already_completed) refl
  | inr apart ↦ rw (recorded_lem f g c o actions, apart, already_completed) refl
]

act-outcome :
    (unrar : Extractor) (row : Row) (s : Store)
    → is_unsettled (act unrar false row s).0 ≡ false
    → is_ok (handle unrar row false s.disk).0 ≡ true
unfolding act
act-outcome unrar row s good = ground (arith, handle-outcome unrar row false s.disk)

-- What a call that does not fail does to the rows that need nothing more.
abbrev Settles : Row → List Action → List Action → Type 0
Settles row before after =
    (settled after row ≡ true)
    × ((other : Row) → settled before other ≡ true → settled after other ≡ true)

act-Settles :
    (unrar : Extractor) (row : Row) (s : Store)
    → is_acted_on row.classification ≡ true
    → is_unsettled (act unrar false row s).0 ≡ false
    → Settles row s.actions (act unrar false row s).1.actions
unfolding act
act-Settles unrar row s acted good = (
  rw
      (
        completed_lem row.folder_path row.folder_path row.classification
            (handle unrar row false s.disk).0 s.actions,
        path_eq_refl row.folder_path,
        act-outcome unrar row s good,
      )
      (ground arith),
  λ other h.
      rw
        (
          completed_lem row.folder_path other.folder_path row.classification
              (handle unrar row false s.disk).0 s.actions,
          act-outcome unrar row s good,
        )
        (ground arith),
)

process-Settles :
    (unrar : Extractor) (opts : Options) (row : Row) (s : Store)
    → opts.only_dry ≡ false
    → is_unsettled (process unrar opts row s).0 ≡ false
    → Settles row s.actions (process unrar opts row s).1.actions
process-Settles unrar opts row s wet good = elim (process_cases unrar opts row s) [
  | inl (o, same, why) ↦ rw same (ground (arith, same), λ other h. h)
  | inr (allowed, acted, new, acts) ↦
      rw (acts, wet) (act-Settles unrar row s acted (rw (acts, wet) at good))
]

abbrev AllSettled : List Action → List Row → Type 0
AllSettled actions rows = All (λ row. settled actions row ≡ true) rows

process_all-Settles :
    (unrar : Extractor) (opts : Options) (rows : List Row) (s : Store)
    → opts.only_dry ≡ false
    → any is_unsettled (process_all unrar opts rows s).0 ≡ false
    → AllSettled (process_all unrar opts rows s).1.actions rows
      × ((other : Row)
          → settled s.actions other ≡ true
          → settled (process_all unrar opts rows s).1.actions other ≡ true)
unfolding process_all
process_all-Settles unrar opts [] s wet good = (tt, λ other h. h)
process_all-Settles unrar opts (row ∷ rows) s wet good =
    let each = or_false good in
    let first = process-Settles unrar opts row s wet each.0 in
    let later = process_all-Settles unrar opts rows (process unrar opts row s).1 wet each.1 in
    ((later.1 row first.0, later.0), λ other h. later.1 other (first.1 other h))

process-idle :
    (unrar : Extractor) (opts : Options) (row : Row) (s : Store)
    → opts.resume ≡ true
    → settled s.actions row ≡ true
    → (process unrar opts row s).1 ≡ s
process-idle unrar opts row s resumes done = elim (process_cases unrar opts row s) [
  | inl (o, same, why) ↦ rw same refl
  | inr (allowed, acted, new, acts) ↦ ground arith
]

process_all-idle :
    (unrar : Extractor) (opts : Options) (rows : List Row) (s : Store)
    → opts.resume ≡ true
    → AllSettled s.actions rows
    → (process_all unrar opts rows s).1 ≡ s
unfolding process_all
process_all-idle unrar opts [] s resumes done = refl
process_all-idle unrar opts (row ∷ rows) s resumes done =
    rw (process-idle unrar opts row s resumes done.0)
      (process_all-idle unrar opts rows s resumes done.1)

-- After a run in which no row fails, the same command with `--resume` changes neither the tree nor the
-- table.
pub remediate-again :
    (unrar : Extractor) (opts : Options) (rows : List Row) (s : Store)
    → opts.only_dry ≡ false
    → any is_unsettled (process_all unrar opts (select opts rows) s).0 ≡ false
    → (remediate unrar (record opts { resume = true }) rows (remediate unrar opts rows s).1).1
      ≡ (remediate unrar opts rows s).1
unfolding remediate select
remediate-again unrar opts rows s wet good =
    process_all-idle unrar (record opts { resume = true }) (select opts rows)
      (process_all unrar opts (select opts rows) s).1 refl
      (process_all-Settles unrar opts (select opts rows) s wet good).0
