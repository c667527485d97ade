-- ===== src/Maintenance/Service/Checks.antt =====
-- projects/maintenance/src/service.rs: `Service::check`, whose collector runs between two critical
-- sections, and the state that `backup_health` reports.
use seele_shell.Prelude.{
  Bool, ℕ, String, str_eq, List, Option, if◌then◌else◌, ◌&&◌, contains_key, map, not, ◌==◌, [], any,
  none, retain, string_key, false, insert, ltb, values, ◌||◌, ◌∷◌, length, some, remove, ◌++◌, true,
}
use seele_shell.Maintenance.Model.{
  Failure, Row, Text, Finding, Result, err, ok, unregistered_source, closing,
  duplicate_publisher_key, check_failed, invalid_publisher_result,
}
use seele_shell.Maintenance.Inbox.{Inbox, resolve}
use seele_shell.Maintenance.Service.{Names, State, Storage, check_unavailable, commit}
use seele_shell.Maintenance.Publish.{Signed, publish}

-- How a check begins.
pub data Started : Type 0 where
  starts waits : Started
  refuses : Failure → Started

-- Another check of the source runs: its caller waits for it.
unfoldable pub begin_check : Bool → String → State → State × Started
begin_check stop source s =
    if not (contains_key source s.inbox.registrations)
    then (s, refuses unregistered_source)
    else (if contains_key source s.checking
        then (s, waits)
        else (if stop
            then (s, refuses closing)
            else (record s { checking = insert source tt s.checking }, starts)))

-- What a caller that waits finds when it wakes; `none` waits on.
unfoldable pub wake_check : Bool → String → State → Option (Result (Unit {0}))
wake_check stop source s =
    if contains_key source s.checking && not stop
    then none
    else (if contains_key source s.errors || stop then some (err check_failed) else some (ok tt))

-- The last critical section of a check that failed or not.
unfoldable pub end_check : Bool → String → State → State
end_check failed source s = record s {
  errors = if failed then insert source check_unavailable s.errors else s.errors;
  checking = remove source s.checking;
}

-- A copy of the inbox with what was done to it so far.
pub record Stage : Type 0 where
  pub inbox : Inbox
  pub seen : Names
  pub notifications : List Row
  pub dirty : Bool

module _ (secrets : Text → Text) (digest : Signed → String) where
  unfoldable pub stage_report : String → ℕ → Finding → Stage → Result Stage
  stage_report source now f st =
      if contains_key f.key st.seen
      then err duplicate_publisher_key
      else (elim (publish secrets digest source f now st.inbox) [
        | err e ↦ err e
        | ok (t, p) ↦ ok (record {
          inbox = t;
          seen = insert f.key tt st.seen;
          notifications = if p.notify then st.notifications ++ p.row ∷ [] else st.notifications;
          dirty = st.dirty || p.changed;
        })
      ])

  unfoldable pub stage_reports : String → ℕ → List Finding → Stage → Result Stage
  stage_reports source now [] st = ok st
  stage_reports source now (f ∷ fs) st = elim (stage_report source now f st) [
    | err e ↦ err e
    | ok next ↦ stage_reports source now fs next
  ]

  unfoldable pub is_absent : String → Names → Row → Bool
  is_absent source seen row = str_eq row.source source && not (contains_key row.key seen)

  unfoldable pub absent_keys : String → Stage → List String
  absent_keys source st =
      map (λ (r : Row). r.key) (retain (is_absent source st.seen) (values st.inbox.items))

  unfoldable pub resolve_all : String → ℕ → List String → Inbox × Bool → Result (Inbox × Bool)
  resolve_all source now [] (inbox, dirty) = ok (inbox, dirty)
  resolve_all source now (k ∷ ks) (inbox, dirty) = elim (resolve source k now inbox) [
    | err e ↦ err e
    | ok (next, known) ↦ resolve_all source now ks (next, dirty || known)
  ]

  -- The inbox after a report: its findings are published, and the other rows of the source are
  -- resolved.
  unfoldable pub mirror : String → ℕ → List Finding → Inbox → Result ((Inbox × Bool) × List Row)
  mirror source now reports inbox =
      elim (stage_reports source now reports
        (record { inbox = inbox; seen = []; notifications = []; dirty = false })) [
          | err e ↦ err e
          | ok st ↦ elim (resolve_all source now (absent_keys source st) (st.inbox, st.dirty)) [
            | err e ↦ err e
            | ok r ↦ ok (r, st.notifications)
          ]
        ]

  -- The second critical section: the state with the rows to announce, or the failure.
  unfoldable pub apply_reports :
      Storage → String → ℕ → Result (List Finding) → State → State × Result (List Row)
  apply_reports disk source now (err e) s = (s, err e)
  apply_reports disk source now (ok reports) s =
      if ltb 512 (length reports)
      then (s, err invalid_publisher_result)
      else (elim (mirror source now reports s.inbox) [
        | err e ↦ (s, err e)
        | ok ((staged, dirty), rows) ↦
            let (t, done) = commit disk dirty now staged s in
            elim done [
              | err e ↦ (t, err e)
              | ok _ ↦ (record t { errors = remove source t.errors }, ok rows)
            ]
      ])

  -- The two critical sections after the collector, with nothing between them.
  unfoldable pub finish_check :
      Storage → String → ℕ → Result (List Finding) → State → State × Result (List Row)
  finish_check disk source now reports s =
      let (t, result) = apply_reports disk source now reports s in
      elim result [
        | err e ↦ (end_check true source t, err e)
        | ok rows ↦ (end_check false source t, ok rows)
      ]

  -- The whole of a check, with nothing between its critical sections; `none` for a caller that
  -- waits for another's check of the source.
  unfoldable pub check :
      Storage
      → Bool
      → String
      → ℕ
      → Result (List Finding)
      → State
      → State × Option (Result (List Row))
  check disk stop source now reports s =
      let (t, begun) = begin_check stop source s in
      elim begun [
        | waits ↦ (t, none)
        | refuses e ↦ (t, some (err e))
        | starts ↦ let (u, result) = finish_check disk source now reports t in (u, some result)
      ]

pub data Health : Type 0 where
  disconnected degraded healthy : Health

abbrev pub is_open_backup : Row → Bool
is_open_backup row = str_eq row.source "backups" && row.resolved == 0

-- The critical section of `backup_health`, where backups are configured.
unfoldable pub backup_health : ℕ → State → State × Health
backup_health now s = if contains_key "backups" s.errors then (s, disconnected) else (
  record s { backup_success = now },
  if any is_open_backup (values s.inbox.items) then degraded else healthy,
)
