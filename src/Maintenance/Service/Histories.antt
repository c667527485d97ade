-- ===== src/Maintenance/Service/Histories.antt =====
-- The histories of the service: checks, clients and tasks in any order.
use seele_shell.Prelude.{
  String, Option, if_cases, Bool, leb, length, ℕ, List, option_cases, ◌||◌, contains_key, not,
  str_eq, arith, subst, true, length-insert, none, string_key,
}
use seele_shell.Maintenance.Model.{Result, Text, Row, Finding, registrations, err, ok}
use seele_shell.Maintenance.Service.Requests.{
  begin_task, Operation, Reply, call, commit_staged, operate, serve, serve_id, serve_row,
  stage_publish, stage_resolve, done_op, admit, snooze_op, list, unsnooze_op, publish_op,
  task_action, resolve_op, action_op, analyze_op, accepted,
}
use seele_shell.Maintenance.Publish.{Signed, publish}
use seele_shell.Maintenance.Service.{State, Storage, new, Names}
use seele_shell.Json.{Value, as_u64, as_str, index}
use seele_shell.Maintenance.Changes.{Holds, result_cases, operation-Holds}
use seele_shell.Maintenance.Service.Serving.{
  Steady, Steady-inbox, Kept, prune-Kept, publish-Kept, resolve-Kept, apply_reports-Steady,
}
use seele_shell.Maintenance.Service.Checks.{
  begin_check, backup_health, Started, Health, apply_reports, end_check,
}
use seele_shell.Maintenance.Inbox.{empty, Inbox, prune, current, operation, resolve}
use seele_shell.Maintenance.Snapshot.{snapshot}
use seele_shell.Maintenance.Reachable.{empty-WellFormed}
use seele_shell.Maintenance.Service.Working.{
  begin_task-Kept, record_action-Steady, keep_analysis-Steady, record_analysis-Steady,
  end_task-Steady,
}
use seele_shell.Maintenance.Service.Tasks.{record_action, keep_analysis, record_analysis, end_task}
use seele_shell.Maintenance.Invariant.{WellFormed}
use seele_shell.Maintenance.Service.Checked.{commit_cases}
use seele_shell.Maintenance.Service.Tidiness.{Tidy, operation-Tidy}

-- A success or a failure, whose state is steady.
abbrev Fine : State × Result Reply → Type 0
Fine x = Steady x.0

begin_task-Steady :
    (op : Operation) (message : Value) (id : String) (row : Row) (s : State)
    → Steady s
    → Fine (begin_task op message id row s)
unfolding begin_task
begin_task-Steady op message id row s h =
    if_cases Fine (leb 8 (length s.tasks) || contains_key id s.tasks || not (str_eq row.busy "")) _
      _ (λ _. h)
      λ room.
        result_cases Fine (task_action op message id row s) _ _ (λ _. h)
          λ action _.
            let k = begin_task-Kept s.tasks id action s.inbox (h.sound, h.tidy) in
            record {
              sound = k.0;
              tidy = k.1;
              few = ground (arith, room, length-insert id tt s.tasks);
            }

module _ (secrets : Text → Text) (digest : Signed → String) (decode : Value → Option Finding)
    (disk : Storage) where
  commit_staged-Steady :
      (now : ℕ) (r : Result ((Inbox × Bool) × Option Row)) (s : State)
      → Steady s
      → Holds (λ x. Kept s.tasks x.0.0) r
      → Fine (commit_staged secrets digest decode disk now r s)
  unfolding commit_staged
  commit_staged-Steady now (err e) s h k = h
  commit_staged-Steady now (ok ((staged, dirty), row)) s h k =
      commit_cases (λ x. Fine (elim x.1 [ err e ↦ (x.0, err e) | ok _ ↦ (x.0, ok (accepted row)) ]))
        disk dirty now staged s (λ _. h) (Steady-inbox s staged h k)
        (Steady-inbox s _ h (prune-Kept s.tasks now _ (prune-Kept s.tasks now staged k)))

  stage_publish-Kept :
      (message : Value) (now : ℕ) (tasks : Names) (u : Inbox)
      → Kept tasks u
      → Holds (λ x. Kept tasks x.0.0) (stage_publish secrets digest decode disk message now u)
  unfolding stage_publish
  stage_publish-Kept message now tasks u h =
      let P : Result ((Inbox × Bool) × Option Row) → Type 0 = Holds (λ x. Kept tasks x.0.0) in
      option_cases P (as_str (index message "source")) _ _ (λ _. tt)
        λ source _.
          option_cases P (decode (index message "finding")) _ _ (λ _. tt)
            λ f _.
              result_cases P (publish secrets digest source f now u) _ _ (λ _. tt)
                λ r at.
                  subst (Holds (λ x. Kept tasks x.0)) at
                    (publish-Kept secrets digest tasks source f now u h)

  stage_resolve-Kept :
      (message : Value) (now : ℕ) (tasks : Names) (u : Inbox)
      → Kept tasks u
      → Holds (λ x. Kept tasks x.0.0) (stage_resolve secrets digest decode disk message now u)
  unfolding stage_resolve
  stage_resolve-Kept message now tasks u h =
      let P : Result ((Inbox × Bool) × Option Row) → Type 0 = Holds (λ x. Kept tasks x.0.0) in
      option_cases P (as_str (index message "source")) _ _ (λ _. tt)
        λ source _.
          option_cases P (as_str (index message "key")) _ _ (λ _. tt)
            λ key _.
              result_cases P (resolve source key now u) _ _ (λ _. tt)
                λ r at.
                  subst (Holds (λ x. Kept tasks x.0)) at (resolve-Kept tasks source key now u h)

  operate-Steady :
      (op id : String) (revision : ℕ) (message : Value) (now : ℕ) (s : State)
      → Steady s
      → Fine (operate secrets digest decode disk op id revision message now s)
  unfolding operate
  operate-Steady op id revision message now s h =
      let seconds = as_u64 (index message "seconds") in
      result_cases Fine (operation id revision op seconds now s.inbox) _ _ (λ _. h)
        λ staged at. commit_staged-Steady now (ok ((staged, true), none)) s h (
          subst (Holds WellFormed) at (operation-Holds id revision op seconds now s.inbox h.sound),
          subst (Holds (Tidy s.tasks)) at
              (operation-Tidy s.tasks id revision op seconds now s.inbox h.tidy),
        )

  serve_row-Steady :
      (op : Operation) (id : String) (revision : ℕ) (row : Row) (message : Value) (now : ℕ)
      (s : State)
      → Steady s
      → Fine (serve_row secrets digest decode disk op id revision row message now s)
  unfolding serve_row
  serve_row-Steady done_op id revision row message now s h =
      operate-Steady "done" id revision message now s h
  serve_row-Steady snooze_op id revision row message now s h =
      operate-Steady "snooze" id revision message now s h
  serve_row-Steady unsnooze_op id revision row message now s h =
      operate-Steady "unsnooze" id revision message now s h
  serve_row-Steady list id revision row message now s h = begin_task-Steady list message id row s h
  serve_row-Steady publish_op id revision row message now s h =
      begin_task-Steady publish_op message id row s h
  serve_row-Steady resolve_op id revision row message now s h =
      begin_task-Steady resolve_op message id row s h
  serve_row-Steady action_op id revision row message now s h =
      begin_task-Steady action_op message id row s h
  serve_row-Steady analyze_op id revision row message now s h =
      begin_task-Steady analyze_op message id row s h

  serve_id-Steady :
      (op : Operation) (message : Value) (now : ℕ) (s : State)
      → Steady s
      → Fine (serve_id secrets digest decode disk op message now s)
  unfolding serve_id
  serve_id-Steady op message now s h =
      option_cases Fine (as_str (index message "id")) _ _ (λ _. h)
        λ id _.
          option_cases Fine (as_u64 (index message "revision")) _ _ (λ _. h)
            λ revision _.
              result_cases Fine (current id revision s.inbox) _ _ (λ _. h)
                λ row _. serve_row-Steady op id revision row message now s h

  serve-Steady :
      (op : Operation) (message : Value) (now : ℕ) (s : State)
      → Steady s
      → Fine (serve secrets digest decode disk op message now s)
  unfolding serve snapshot
  serve-Steady list message now s h =
      Steady-inbox s (prune now s.inbox) h (prune-Kept s.tasks now s.inbox (h.sound, h.tidy))
  serve-Steady publish_op message now s h =
      commit_staged-Steady now _ s h
        (stage_publish-Kept message now s.tasks s.inbox (h.sound, h.tidy))
  serve-Steady resolve_op message now s h =
      commit_staged-Steady now _ s h
        (stage_resolve-Kept message now s.tasks s.inbox (h.sound, h.tidy))
  serve-Steady done_op message now s h = serve_id-Steady done_op message now s h
  serve-Steady snooze_op message now s h = serve_id-Steady snooze_op message now s h
  serve-Steady unsnooze_op message now s h = serve_id-Steady unsnooze_op message now s h
  serve-Steady action_op message now s h = serve_id-Steady action_op message now s h
  serve-Steady analyze_op message now s h = serve_id-Steady analyze_op message now s h

  call-Steady :
      (stop : Bool) (message : Value) (now : ℕ) (s : State)
      → Steady s
      → Fine (call secrets digest decode disk stop message now s)
  unfolding call
  call-Steady stop message now s h =
      result_cases Fine (admit message) _ _ (λ _. h)
        λ op _. if_cases Fine stop _ _ (λ _. h) (λ _. serve-Steady op message now s h)

module _ (secrets : Text → Text) (digest : Signed → String) (decode : Value → Option Finding) where
  -- The critical sections of projects/maintenance/src/service.rs, those that fail as well. Each step
  -- has its own answers of the disk.
  pub data Step (s : State) : State → Type 0 where
    begins_check : (stop : Bool) (source : String) → Step s (begin_check stop source s).0
    applies_reports :
        (disk : Storage) (source : String) (now : ℕ) (reports : Result (List Finding))
        → Step s (apply_reports secrets digest disk source now reports s).0
    ends_check : (failed : Bool) (source : String) → Step s (end_check failed source s)
    reports_health : (now : ℕ) → Step s (backup_health now s).0
    calls :
        (disk : Storage) (stop : Bool) (message : Value) (now : ℕ)
        → Step s (call secrets digest decode disk stop message now s).0
    records_action :
        (disk : Storage) (stop succeeded : Bool) (row : Row) (action : String) (now : ℕ)
        → Step s (record_action disk stop succeeded row action now s)
    keeps_analysis :
        (disk : Storage) (row : Row) (result : Value) (now : ℕ)
        → Step s (keep_analysis disk row result now s).0
    records_analysis :
        (disk : Storage) (stop failed : Bool) (row : Row) (now : ℕ)
        → Step s (record_analysis disk stop failed row now s)
    ends_task : (id : String) → Step s (end_task id s)

  pub data Reach (s : State) : State → Type 0 where
    here : Reach s s
    then_step : {t u : State} → Reach s t → Step t u → Reach s u

  Step-Steady : {s t : State} → Step s t → Steady s → Steady t
  unfolding begin_check end_check backup_health
  Step-Steady {s = s} (begins_check stop source) h =
      let P : State × Started → Type 0 = λ x. Steady x.0 in
      if_cases P (not (contains_key source s.inbox.registrations)) _ _ (λ _. h)
        λ _.
          if_cases P (contains_key source s.checking) _ _ (λ _. h)
            λ _.
              if_cases P stop _ _ (λ _. h)
                λ _. record { sound = h.sound; tidy = h.tidy; few = h.few }
  Step-Steady {s = s} (applies_reports disk source now reports) h =
      apply_reports-Steady secrets digest disk source now reports s h
  Step-Steady {s = s} (ends_check failed source) h = record {
    sound = h.sound;
    tidy = h.tidy;
    few = h.few;
  }
  Step-Steady {s = s} (reports_health now) h =
      if_cases (λ (x : State × Health). Steady x.0) (contains_key "backups" s.errors) _ _ (λ _. h)
        λ _. record { sound = h.sound; tidy = h.tidy; few = h.few }
  Step-Steady {s = s} (calls disk stop message now) h =
      call-Steady secrets digest decode disk stop message now s h
  Step-Steady {s = s} (records_action disk stop succeeded row action now) h =
      record_action-Steady disk stop succeeded row action now s h
  Step-Steady {s = s} (keeps_analysis disk row result now) h =
      keep_analysis-Steady disk row result now s h
  Step-Steady {s = s} (records_analysis disk stop failed row now) h =
      record_analysis-Steady disk stop failed row now s h
  Step-Steady {s = s} (ends_task id) h = end_task-Steady id s h

  Reach-Steady : {s t : State} → Steady s → Reach s t → Steady t
  Reach-Steady h here = h
  Reach-Steady h (then_step r st) = Step-Steady st (Reach-Steady h r)

  -- Whatever checks, clients and tasks do to a service that starts with an empty inbox, in any
  -- order, also where a step fails, and with any answers of commands, of the broker and of the disk,
  -- which may differ from step to step: its inbox stays well formed, analyses are kept only of open
  -- rows, a row is marked busy only while a task of it runs, and at most eight tasks run.
  pub reachable-Steady :
      (config : Value) (now : ℕ) {t : State}
      → Reach (new (empty (registrations config) now)) t
      → Steady t
  unfolding new empty prune
  reachable-Steady config now = Reach-Steady (record {
    sound = empty-WellFormed config now;
    tidy = record { analysed = tt; busied = tt };
    few = omega arith;
  })
