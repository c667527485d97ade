-- ===== src/Maintenance/Service/Working.antt =====
-- Tasks keep the service steady.
use seele_shell.Prelude.{
  String, Bool, List, ℕ, get, Option, adjust, insert, Entries-imp, Entries-zip, arith, if_cases,
  option_cases, ◌≡◌, not, some, values, eq_iff, if◌then◌else◌, string_key, true, ◌==◌,
  Entries-insert, Entries-self, ltb, refl, remove, Bool-cases, length-remove-le, ◌*◌,
  Entries-remove, str_eq, inl, none, Option-cases, get-adjust, inr, some-injective, subst,
  contains_key-remove,
}
use seele_shell.Maintenance.Service.{Names, Storage, State, snapshot_limit}
use seele_shell.Maintenance.Service.Tasks.{
  clear_row, end_task, keep_analysis, record_action, record_analysis, save_live, clear_busy,
}
use seele_shell.Maintenance.Inbox.{persist, Inbox, outcome, prune}
use seele_shell.Maintenance.Snapshot.{snapshot}
use seele_shell.Maintenance.Model.{Row, Text, Failure, state_capacity, state_unavailable}
use seele_shell.Maintenance.Service.Serving.{Kept, Steady, Steady-inbox, outcome-Kept, prune-Kept}
use seele_shell.Maintenance.Service.Tidiness.{Tidy, adjust-Tidy, is_free}
use seele_shell.Json.{Value}
use seele_shell.Maintenance.Invariant.{WellFormed, is_open}
use seele_shell.Maintenance.Service.Requests.{with_busy}
use seele_shell.Maintenance.Changes.{changed-WellFormed, refile-IsFiled}
use seele_shell.Maintenance.Service.Mirroring.{contains_key-insert}

-- A change of the busy mark of a row keeps the inbox well formed.
marked-WellFormed :
    (id action : String) (s : Inbox)
    → WellFormed s
    → WellFormed (record s { items = adjust id (with_busy action) s.items })
marked-WellFormed id action s h =
    changed-WellFormed id (with_busy action) s
      (λ row p.
        refile-IsFiled row.outcomes row.resolved row.snoozed_until action p.outcomes_bounded p)
      (λ _. refl) h

more_tasks : (tasks : Names) (id : String) (s : Inbox) → Tidy tasks s → Tidy (insert id tt tasks) s
more_tasks tasks id s h = record {
  analysed = h.analysed;
  busied =
      Entries-imp _ _ (λ k row g. ground (arith, contains_key-insert id k tasks)) s.items h.busied;
}

pub begin_task-Kept :
    (tasks : Names) (id action : String) (s : Inbox)
    → Kept tasks s
    → Kept (insert id tt tasks) (record s { items = adjust id (with_busy action) s.items })
begin_task-Kept tasks id action s h = (
  marked-WellFormed id action s h.0,
  adjust-Tidy (insert id tt tasks) id (with_busy action) s (λ _. refl)
      (λ row _. ground (arith, contains_key-insert id id tasks, eq_iff id id))
      (more_tasks tasks id s h.1),
)

pub clear_row-Steady : (id : String) (s : State) → Steady s → Steady (clear_row id s)
unfolding clear_row
clear_row-Steady id s h = Steady-inbox s _ h (
  marked-WellFormed id "" s.inbox h.sound,
  adjust-Tidy s.tasks id clear_busy s.inbox (λ _. refl) (λ _ _. refl) h.tidy,
)

cleared :
    (tasks : Names) (id k : String) (items : List (String × Row)) (row : Row)
    → get k (adjust id clear_busy items) ≡ some row
    → is_free tasks k row ≡ true
    → is_free (remove id tasks) k row ≡ true
cleared tasks id k items row at g = elim (Bool-cases (str_eq id k)) [
  | inl t ↦ elim (Option-cases (get k items)) [
    | inl n ↦ absurd (ground (arith, n, get-adjust id k clear_busy items))
    | inr (old, was) ↦
        let same : clear_busy old ≡ row =
          some-injective _ _ (ground (arith, t, was, at, get-adjust id k clear_busy items)) in
        subst (λ (r : Row). is_free (remove id tasks) k r ≡ true) same refl
  ]
  | inr n ↦ ground (arith, n, contains_key-remove id k tasks)
]

pub end_task-Steady : (id : String) (s : State) → Steady s → Steady (end_task id s)
unfolding end_task clear_row
end_task-Steady id s h =
    let items = adjust id clear_busy s.inbox.items in
    let c = clear_row-Steady id s h in
    record {
      sound = c.sound;
      tidy = record {
        analysed = c.tidy.analysed;
        busied =
            Entries-imp _ _ (λ k row g. cleared s.tasks id k s.inbox.items row g.1 g.0) items
              (Entries-zip (λ k row. is_free s.tasks k row ≡ true) (λ k row. get k items ≡ some row)
                items c.tidy.busied (Entries-self items c.sound.distinct));
      };
      few = omega (arith, h.few, length-remove-le id s.tasks);
    }

pub save_live-Steady :
    (disk : Storage) (source : String) (now : ℕ) (s : State)
    → Steady s
    → Steady (save_live disk source now s)
unfolding save_live persist
save_live-Steady disk source now s h =
    let k =
      Steady-inbox s (prune now s.inbox) h (prune-Kept s.tasks now s.inbox (h.sound, h.tidy)) in
    let rows = values (prune now s.inbox).items in
    option_cases Steady
      (if ltb (16 * 1024 * 1024) (disk.rows_len rows)
        then some state_capacity
        else (if disk.write rows then none else some state_unavailable))
      _ _ (λ _. k) λ e _. record { sound = k.sound; tidy = k.tidy; few = k.few }

pub record_action-Steady :
    (disk : Storage) (stop succeeded : Bool) (row : Row) (action : String) (now : ℕ) (s : State)
    → Steady s
    → Steady (record_action disk stop succeeded row action now s)
unfolding record_action
record_action-Steady disk stop succeeded row action now s h =
    save_live-Steady disk row.source now _ (
      Steady-inbox s _ h
        (outcome-Kept s.tasks row.id row.revision action _ now s.inbox (h.sound, h.tidy)))

pub record_analysis-Steady :
    (disk : Storage) (stop failed : Bool) (row : Row) (now : ℕ) (s : State)
    → Steady s
    → Steady (record_analysis disk stop failed row now s)
unfolding record_analysis
record_analysis-Steady disk stop failed row now s h =
    let note : (text : Text)
        → Steady (record s { inbox = outcome row.id row.revision "analyze" text now s.inbox }) =
      λ text.
        Steady-inbox s _ h
          (outcome-Kept s.tasks row.id row.revision "analyze" text now s.inbox (h.sound, h.tidy)) in
    save_live-Steady disk row.source now _ (
      clear_row-Steady row.id _ (
        if_cases Steady stop _ _ (λ _. note _)
          (λ _. if_cases Steady failed _ _ (λ _. note _) (λ _. h))))

pub keep_analysis-Steady :
    (disk : Storage) (row : Row) (result : Value) (now : ℕ) (s : State)
    → Steady s
    → Steady (keep_analysis disk row result now s).0
unfolding keep_analysis snapshot
keep_analysis-Steady disk row result now s h =
    let P : State × Option Failure → Type 0 = λ x. Steady x.0 in
    option_cases P (get row.id s.inbox.items) _ _ (λ _. h)
      λ r at.
        if_cases P (not (r.resolved == 0)) _ _ (λ _. h)
          λ open_.
            let kept : Inbox = record (s.inbox) {
              analysis = insert row.id result s.inbox.analysis;
            } in
            let k : Kept s.tasks kept = (
              record {
                plain = h.sound.plain;
                filed = h.sound.filed;
                distinct = h.sound.distinct;
                bounded = h.sound.bounded;
                described = h.sound.described;
              },
              record {
                analysed =
                    Entries-insert (λ id a. is_open (get id s.inbox.items) ≡ true) row.id result
                      s.inbox.analysis (ground (arith, at)) h.tidy.analysed;
                busied = h.tidy.busied;
              },
            ) in
            let p = prune-Kept s.tasks now kept k in
            let dropped : Kept s.tasks
                (record (prune now kept) { analysis = remove row.id (prune now kept).analysis }) =
              (
                record {
                  plain = p.0.plain;
                  filed = p.0.filed;
                  distinct = p.0.distinct;
                  bounded = p.0.bounded;
                  described = p.0.described;
                },
                record {
                  analysed =
                      Entries-remove (λ id a. is_open (get id (prune now kept).items) ≡ true) row.id
                        (prune now kept).analysis p.1.analysed;
                  busied = p.1.busied;
                },
              ) in
            if_cases P (ltb snapshot_limit (disk.snapshot_len (snapshot now kept).1)) _ _
              (λ _. Steady-inbox s _ h dropped) (λ _. Steady-inbox s _ h p)
