-- ===== src/Lib.antt =====
-- The logic of podhaus, the repository of one home's servers.
--
-- Each part below is a program of its own in the repository; they share no state.
--
-- Watcher (files Watcher/*.antt) models llm/watcher, which hands one GPU between a language model and
-- games. `Watcher` (state.py) is a record of the same name in Watcher/Data.antt, with a phase
-- (serving, yielding, yielded, resuming) and the instants and samples that its decisions read. A method
-- is a call in the monad of Watcher/Exec.antt: it reads answers from the GPU, the router and the guest,
-- changes the watcher, and leaves a trace of what it did outside (log lines, loads, unloads, cache
-- drops), and an exception keeps what was written before it. Watcher/Sampling.antt has `_read_slots`,
-- `_observe`, `_note_router_state`, `_activity` and the quiet period; Watcher/Handoff.antt has
-- `_begin_yield`, `_unload`, `_load_failed`, `_unexpected` and `_start_load`; Watcher/Tick.antt has
-- `tick`, its phases, `_report`, `yield_now` and `resume_now`; Watcher/Lifecycle.antt has `adopt`,
-- `health`, `end_if_stalled` and `snapshot`; Watcher/Calls.antt has the sequences of calls that the lock
-- lets through (__main__.py, web.py). Watcher/Router.antt and Watcher/Router/Commands.antt have the
-- client of the model's router (model_server.py) on decoded JSON (Base/Json.antt); Watcher/Web.antt has
-- the handlers of web.py.
--
-- Rar (files Rar/*.antt) models rar-cleanup-scripts/remediate.py, which deletes archives whose content
-- has been extracted and extracts the others. Rar/Names.antt has the names and regular expressions,
-- Rar/Releases.antt the searches of a release folder (`collect_*`, `find_primary_rar`, `size_matches`),
-- Rar/Remediate.antt `verify_match`, the deletions and the two handlers, Rar/Run.antt the table of the
-- sidecar and `main`. Rar/Audit.antt has the audit that writes the rows (audit.py). The other files prove.
--
-- Files.antt and Files/Disk.antt have paths and the file tree, which the parts on files share.
--
-- Notify (files Notify/*.antt) models pomerium/ssh-auth-notify/main.py, which tells an account of the
-- sign-in requests of its keys. Notify/Context.antt has `RouteContext` and the line of the log that fills it,
-- Notify/Forward.antt `EventForwarder`, whose state is the states seen and the posts made, and
-- Notify/Sync.antt `sync_latest` and `sync_loop`, on a list of rounds: each is what one call of
-- `sync_latest` and the stream after it give. A post is its arguments, as no reply changes anything.
--
-- Flood (files Flood/*.antt) models the two scripts of flood/scripts. flood-publish.py links finished media
-- into the library: Flood/Tree.antt has paths as names of inodes with `is_media`, `has_extract_marker` and
-- `publish_file`; Flood/Publish.antt has `process_torrent`, the pass of `main` with its marks, and
-- `check_gaps`. Flood/Publish/Steps.antt has the changes that a pass may make, as a relation.
-- pinelake-stignore.py keeps the lists of what another house is sent: Flood/Stignore.antt has `IgnoreFile`
-- with its checks and its rendering, `Share`, and `IgnoreReconciler`, whose result is the files written.
--
-- Streamfab (Streamfab.antt, Streamfab/*.antt) models streamfab-publish/scripts/streamfab-publish.py, which
-- moves finished recordings into the library: `classify`, `is_candidate`, `prune_empty`, `publish` and `main`.
-- The loop of `prune_empty` has as many turns as its path has parts, and each turn takes one part off.
--
-- Lints (Lints.antt, Lints/*.antt) models three of the lints of tools/, which check the stacks of the
-- repository before a commit: Lints/Env.antt has `parse_env_keys`, `key_referenced` with its three regular
-- expressions and `main` (lint-stack-env.py); Lints/Toml.antt has `is_skipped` and `main`
-- (lint-stack-toml.py); Lints/Compose.antt has the readings of a compose document and Lints/Hash.antt the checks
-- and `main` (lint-stack-content-hash.py). The tables and documents that TOML and YAML give are
-- arguments, and so are the texts of the compose files.
--
-- Lumen (Lumen.antt, Lumen/*.antt) models lumen/image/gateway.py, which runs an indexer against repositories:
-- `Source.parse`, `Catalog`, the guard and the mounts of `Runtime.command`, and the loop of
-- `index_registered_worktrees`. What exists on the disk does not change during a sweep.
--
-- Recovery (Recovery.antt, Recovery/*.antt) models ansible/roles/storage_binds/files/
-- recover-storage-containers, which starts containers that failed on a volume once the volume is mounted:
-- `RecoveryCandidate.from_inspection`, `MountReadiness` and `RecoveryReconciler.run`. The answers of docker and
-- findmnt are arguments, one for each volume, since a run probes a volume once; a document that lacks a
-- field, or a command that times out, is not modelled.
--
-- Choices. A time or duration is a whole number of milliseconds and not negative, and differences are
-- compared with the terms moved to the side where they are sums (`now - t > s` is `t + s < now`);
-- `-math.inf` is `none`. The settings are not negative; a threshold in percent that is no whole number
-- acts on whole readings as the next whole number. An answer of the outside (nvidia-smi, the router, the
-- guest) is an argument of the call, so a theorem holds for every answer; each call site is reached at
-- most once in a call of a method. Floating point is not modelled beyond this, nor is the text of log
-- lines: an event is a value that holds the line's fields. The page, the metrics, the health check and
-- the watchdog read without the lock; the model runs each of them between calls.
-- A file tree is a list of entries in the order in which a search finds them; it holds no symbolic
-- link, its changes are permitted, and a folder's path is absolute and has no `..` part. Letters and digits
-- in names are the ASCII ones. `size_matches` compares whole numbers where the source divides. The run of
-- `unrar` is an argument that gives the tree it leaves and its exit code. A walk over a tree lists its files
-- before the loop over them changes the tree. A set that Python walks is a list in an order that is an
-- argument. The content of a text file has its line ends translated. Loops are structural recursion.
--
-- Not modelled: the shell, YAML, TypeScript and Terraform of the repository; the scripts whose work is
-- reading and writing through services (paperless, plex), and the tests.
pub mod Base
pub mod Watcher
pub mod Files
pub mod Flood
pub mod Streamfab
pub mod Lints
pub mod Lumen
pub mod Rar
pub mod Recovery
pub mod Notify
