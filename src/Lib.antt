-- ===== src/Lib.antt =====
-- Seele Shell: the core logic of its native services.
--
-- The repository is a desktop shell: QML surfaces, and a workspace of Rust crates under projects/
-- that own the services behind them. Services are separate processes which exchange JSON
-- messages on private sockets, and keep their state behind one mutex each.
--
-- Broker (projects/broker/src). A queue of inference jobs. Clients submit requests and act on
-- jobs, workers take jobs from the queue, run them outside the lock, and record what came of them.
--   * Json: the JSON values that the requests hold; an object is its list of members.
--   * Broker/Validation: validation.rs, `Request`, `inspect`, `schema` and `request`; Inspect and
--     Accepted have what the checks guarantee.
--   * Broker/Job: `Job`, `Config`, `Selection`, `Job::terminal`, `Job::finish`, `Job::metadata`.
--   * Broker/Scheduler: `State`, `Broker::new`, `queue`, `idle`, `close`, `clear` and the first two
--     critical sections of `work` (`pick` and `choose`).
--   * Broker/Settlement: the last critical section of `work`, how an attempt ends (`settle`).
--   * Broker/Turns, Submission (with Supersession and Outcomes), Actions, Protocol: `Broker::call`.
--     `receive` is what stands before the loop, `turn` one pass of the loop under the lock; a `blocks` turn waits and tries again.
--   * Broker/Invariant, Broker/System: the whole broker as a step relation. `Step` has a constructor
--     for each critical section, so a history is any interleaving of workers and clients. The
--     requests of attempts that run outside the lock are kept in `flight`.
--
-- Maintenance inbox (projects/maintenance/src/model.rs). Publishers of host conditions put findings
-- into the inbox, which tells whether to announce them; users resolve and snooze its rows.
--   * Maintenance/Model: the data, `registrations`, `valid_key`, `clean` (with `visible` of
--     projects/runtime/src/redact.rs).
--   * Maintenance/Inbox: `Inbox` with `prune`, `persist`, `resolve`, `current`, `operation` and
--     `outcome`. Maintenance/Publish: `publish`. Maintenance/Snapshot: `snapshot`.
--     Maintenance/Loading: `Inbox::new`, from the rows that decode from its file.
--   * Maintenance/Ids, Publishing, Keeps, Kept, Changes, Pruning, Invariant: lemmas; Reachable has
--     the histories of an inbox, Loaded, Renewal, Counting, Staleness and Listing what single
--     operations promise.
--
-- Maintenance service (projects/maintenance/src/service.rs). It keeps the inbox, the health of the
-- sources and the running tasks behind one mutex; checks, clients and tasks take turns.
--   * Maintenance/Service: the state, `new`, `save` and `commit`. Checks: the critical sections of
--     a check, and `check`, the whole of it. Requests: `call`. Tasks: what the ends of an action and of an analysis record.
--   * Serving, Openness, Mirroring, Absent, Tidiness, Working: lemmas. Checked and Failing say
--     what a check leaves, Histories has the service as a step relation.
--
-- Battery alerts (projects/tools/src/battery_alert.rs). A policy that compares the batteries with
-- what it has announced, and keeps that between its runs in a private file.
--   * Tools/Battery: `clean`, and `Watch` with `load`, `save` and `observe`, where `note_reading` is
--     what the loop does with a battery that it could read. Prelude/Texts: texts as code points.
--   * Cleaning: lemmas on `clean`; Memory and Warnings: what the watch remembers, and how often it
--     warns.
--
-- Shelf (projects/tools/src/shelf.rs). Files and private texts that a user puts aside; each operation
-- is a message, and the texts are files below a private directory.
--   * Tools/Shelf: `Item`, `Shelf` with the private files that stand below its root, `apply` with a
--     function for each of its operations, and `text` (`collect_text`). `Host` has the answers of the
--     URL parser, the file system and the clipboard to one operation; a text that cannot be written
--     may have left its file (`Writing`), as `atomic_write_new` of projects/runtime/src/fs.rs does
--     when it fails after the file has its name.
--   * Items, Branches, Keeping, Ownership, Collected: lemmas; Histories has the runs of a shelf.
--
-- Listener stops (projects/tools/src/ports). A panel shows who listens on a port and stops what its
-- user confirmed; a confirmation is a token, which the worker compares with a second look at /proc.
--   * Tools/Ports: of model.rs `Review` with `token` and `parse`, and `Row` with `owner`, `service`,
--     `target` and `review`; of procfs.rs `valid_unit`. Decimal and Split: how numbers are written
--     and read, and fields joined and split, as the standard library does.
--   * Tools/Ports/Worker: `stop` of worker.rs with `revalidate`, `perform` and `remaining`. `Scene` is
--     what /proc and the host answer during one stop; what is asked of the host is part of the result.
--   * Selection: `rescan`, `select` and the closing of the panel.
--   * Tokens, Readings, Targets, Rows, Fitting, Stopping, Unlocking: lemmas and what they promise together.
--
-- A map is a list of entries whose keys are distinct; an iteration takes the entries in the order of
-- the list, so what is proved of it holds for the order of any hash map that the list stands for.
-- Times are natural numbers, milliseconds in the broker and seconds in the inbox, and a critical
-- section reads each clock once. The counters keep their wrap-around (`u32`, `u64`), or the checked
-- increment that the code has.
--
-- Parameters: the runner (its answers are arbitrary), the random ids, the JSON Schema compiler, the
-- length of encoded JSON, the redaction of secrets by regular expressions, and the digest of a
-- finding (SHA-256 of its canonical JSON); of the service, the collectors, the commands, the
-- answers of the broker, the decoding of findings, and the disk; of the battery alerts, the length
-- of the state file and the entries that it decodes to; of the shelf, `Host`; of the listener
-- stops, `Scene`. Notifications between threads are not modelled: a step may happen whenever its
-- critical section may be entered.
--
-- Bounds and fuel: `show` writes a number with at most 20 digits, which are enough below 2^64, as
-- reading it back needs; nothing else runs on fuel. `attempt_all` runs a list of attempts, and its
-- length is the bound that is proved.
--
-- Not modelled: sockets, child processes, D-Bus and file watching, and the crates that draw or
-- convert text for Qt; of the inbox, the decoding of its file; of the service, `action_args`,
-- `analysis_request` and the scheduling threads; of the shelf, `snapshot`, `run` and the lock, the
-- directory and the socket; of the listener stops, the reading of /proc, queries, plans, `identify`
-- and the JSON for the panel.
pub mod Prelude
pub mod Json
pub mod Decimal
pub mod Split
pub mod Broker
pub mod Maintenance
pub mod Tools
