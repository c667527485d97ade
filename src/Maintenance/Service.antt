-- ===== src/Maintenance/Service.antt =====
-- projects/maintenance/src/service.rs: the state of `Service`, and `commit`. An operation that
-- changes the inbox works on a copy of it, and `commit` puts the copy in place.
pub mod Checks
pub mod Requests
pub mod Tasks
pub mod Openness
pub mod Mirroring
pub mod Absent
pub mod Checked
pub mod Failing
pub mod Tidiness
pub mod Serving
pub mod Working
pub mod Histories
mod Tests
use seele_shell.Prelude.{Bool, List, ℕ, String, [], ◌*◌, ◌-◌, if◌then◌else◌, ltb, none, some}
use seele_shell.Maintenance.Inbox.{Inbox, persist}
use seele_shell.Maintenance.Snapshot.{Snapshot, snapshot}
use seele_shell.Maintenance.Model.{Result, Row, err, state_capacity, ok}

-- A set of names.
abbrev pub Names : Type 0
Names = List (String × Unit {0})

-- What is said of a source whose last check or save failed.
pub data Trouble : Type 0 where
  check_unavailable save_failed : Trouble

pub record State : Type 0 where
  pub inbox : Inbox
  pub errors : List (String × Trouble)
  pub checking : Names
  pub tasks : Names
  pub backup_success : ℕ

-- `Service::new`
unfoldable pub new : Inbox → State
new inbox = record { inbox = inbox; errors = []; checking = []; tasks = []; backup_success = 0 }

-- What the disk and the encoder say.
pub record Storage : Type 0 where
  pub snapshot_len : Snapshot → ℕ
  pub rows_len : List Row → ℕ
  pub write : List Row → Bool

-- `SNAPSHOT_LIMIT - 65536`
abbrev pub snapshot_limit : ℕ
snapshot_limit = 16 * 1024 * 1024 - 65536

-- `staged.persist(now)?`
unfoldable pub save : Storage → ℕ → Inbox → Result Inbox
save disk now staged =
    let (t, failure) = persist disk.rows_len disk.write now staged in
    elim failure [ none ↦ ok t | some e ↦ err e ]

-- The live inbox is put in place last, after all that can fail.
unfoldable pub commit : Storage → Bool → ℕ → Inbox → State → State × Result (Unit {0})
commit disk dirty now staged s =
    let shot = snapshot now staged in
    let saved =
      if ltb snapshot_limit (disk.snapshot_len shot.1)
      then err state_capacity
      else save disk now shot.0 in
    elim (if dirty then saved else ok staged) [
      | err e ↦ (s, err e)
      | ok t ↦ (record s { inbox = t }, ok tt)
    ]
