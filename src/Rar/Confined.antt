-- ===== src/Rar/Confined.antt =====
-- Where a run of rar-cleanup-scripts/remediate.py can change the tree.
use podhaus.Files.Laws.{node_at-keep, path_eq-eq}
use podhaus.Files.{FilePath, is_below, path_eq}
use podhaus.Rar.Keeps.{clean_up-Keeps}
use podhaus.Rar.DryRun.{never_extracted_cases, process_cases}
use podhaus.Rar.Paths.{path_allowed-below}
use podhaus.Rar.Run.{
  Extractor, act, handle, Store, Options, process_all, remediate, process, select,
}
use podhaus.Rar.Remediate.{
  handle_extracted, handle_never_extracted, Row, drop_output, extraction, Unrar, is_extracted,
  path_allowed,
}
use podhaus.Files.Disk.{unlink, Disk, Node, node_at, is_file}
use podhaus.Base.{
  List, Bool-cases, ◌≡◌, false, true, not, [], ◌∷◌, some, ◌∙◌, inl, arith, inr, Bool, is_some,
}

-- `unrar x -o-` overwrites and deletes nothing.
pub record IsGentle (unrar : Extractor) : Type 0 where
  pub keeps :
      (d : Disk) (folder archive p : FilePath) (n : Node)
      → node_at d p ≡ some n
      → node_at (unrar d folder archive).disk p ≡ some n

-- What was there, apart from the folder, is still there.
abbrev Stays : FilePath → Disk → Disk → Type 0
Stays folder d d' =
    (q : FilePath) (n : Node)
    → is_below folder q ≡ false
    → node_at d q ≡ some n
    → node_at d' q ≡ some n

handle_extracted-Stays :
    (row : Row) (folder : FilePath) (dry : Bool) (d : Disk)
    → Stays folder d (handle_extracted row folder dry d).1
unfolding handle_extracted
handle_extracted-Stays row folder dry d q n apart e =
    ground (arith, clean_up-Keeps folder d q apart)

drop_output-Stays :
    (target q : FilePath) (d d' : Disk) (n : Node)
    → is_some (node_at d target) ≡ false
    → node_at d q ≡ some n
    → node_at d' q ≡ some n
    → node_at (drop_output target d') q ≡ some n
unfolding drop_output unlink
drop_output-Stays target q d d' n new e e' = elim (Bool-cases (is_file d' target)) [
  | inr other ↦ rw other e'
  | inl written ↦ rw written (
      node_at-keep (λ x. not (path_eq target x.path)) true q d'
        (λ x h. ground (arith, path_eq-eq target x.path, path_eq-eq x.path q))
      ∙ e')
]

-- The part of `handle_never_extracted` behind its guards.
extraction-Stays :
    (row : Row) (folder target : FilePath) (u : Unrar) (d : Disk) (q : FilePath) (n : Node)
    → is_below folder q ≡ false
    → is_some (node_at d target) ≡ false
    → node_at d q ≡ some n
    → node_at u.disk q ≡ some n
    → node_at (extraction row folder target u).1 q ≡ some n
unfolding extraction
extraction-Stays row folder target u d q n apart new e e' =
    elim (Bool-cases (is_extracted target row.archive_expected_size u)) [
      | inl done ↦ rw done (clean_up-Keeps folder u.disk q apart ∙ e')
      | inr failed ↦ rw failed (
          clean_up-Keeps folder (drop_output target u.disk) q apart
          ∙ drop_output-Stays target q d u.disk n new e e')
    ]

handle_never_extracted-Stays :
    (unrar : Extractor) (row : Row) (folder : FilePath) (dry : Bool) (d : Disk)
    → IsGentle unrar
    → Stays folder d (handle_never_extracted unrar row folder dry d).1
handle_never_extracted-Stays unrar row folder dry d gentle q n apart e =
    elim (never_extracted_cases unrar row folder dry d) [
      | inl (o, refused, same) ↦ rw same e
      | inr (archive, target, new, extracts) ↦ rw extracts (
          extraction-Stays row folder target (unrar d folder archive) d q n apart new e
            (gentle.keeps d folder archive q n e))
    ]

act-Stays :
    (unrar : Extractor) (dry : Bool) (row : Row) (s : Store)
    → IsGentle unrar
    → Stays row.folder_path s.disk (act unrar dry row s).1.disk
unfolding act handle
act-Stays unrar dry row s gentle q n apart e = ground (
  arith,
  handle_extracted-Stays row row.folder_path dry s.disk q n apart e,
  handle_never_extracted-Stays unrar row row.folder_path dry s.disk gentle q n apart e,
)

process-Stays :
    (unrar : Extractor) (opts : Options) (row : Row) (s : Store) (p : FilePath) (n : Node)
    → IsGentle unrar
    → path_allowed p ≡ false
    → node_at s.disk p ≡ some n
    → node_at (process unrar opts row s).1.disk p ≡ some n
process-Stays unrar opts row s p n gentle out e = elim (process_cases unrar opts row s) [
  | inl (o, same, why) ↦ rw same e
  | inr (allowed, acted, new, acts) ↦ rw acts (
      act-Stays unrar opts.only_dry row s gentle p n
        (ground (arith, path_allowed-below row.folder_path p)) e)
]

process_all-Stays :
    (unrar : Extractor) (opts : Options) (rows : List Row) (s : Store) (p : FilePath) (n : Node)
    → IsGentle unrar
    → path_allowed p ≡ false
    → node_at s.disk p ≡ some n
    → node_at (process_all unrar opts rows s).1.disk p ≡ some n
unfolding process_all
process_all-Stays unrar opts [] s p n gentle out e = e
process_all-Stays unrar opts (row ∷ rows) s p n gentle out e =
    process_all-Stays unrar opts rows (process unrar opts row s).1 p n gentle out
      (process-Stays unrar opts row s p n gentle out e)

pub remediate-Stays :
    (unrar : Extractor) (opts : Options) (rows : List Row) (s : Store) (p : FilePath) (n : Node)
    → IsGentle unrar
    → path_allowed p ≡ false
    → node_at s.disk p ≡ some n
    → node_at (remediate unrar opts rows s).1.disk p ≡ some n
unfolding remediate
remediate-Stays unrar opts rows s p n gentle out e =
    process_all-Stays unrar opts (select opts rows) s p n gentle out e
