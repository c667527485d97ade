-- ===== src/Maintenance/Service/Tasks.antt =====
-- projects/maintenance/src/service.rs: what a task does to the state: `action`, `analyze`, and the
-- end of the task's thread. What the commands and the broker answer is arbitrary.
use seele_shell.Prelude.{
  Bool, List, String, true, ℕ, Option, adjust, if◌then◌else◌, remove, leb, none, string_key, suc,
  false, get, some, ◌&&◌, insert, length, not, ◌==◌, all, any, ltb, str_eq, ◌∷◌, [],
}
use seele_shell.Json.{Items, Value, array, as_object, cons, as_str, codes, nil, keys, index}
use seele_shell.Maintenance.Model.{Row, Text, Failure, state_capacity}
use seele_shell.Maintenance.Service.{Storage, State, save_failed, snapshot_limit}
use seele_shell.Maintenance.Inbox.{outcome, persist}
use seele_shell.Maintenance.Snapshot.{snapshot}

-- The state after `persist`, a failure of which is noted.
unfoldable pub save_live : Storage → String → ℕ → State → State
save_live disk source now s =
    let (t, failure) = persist disk.rows_len disk.write now s.inbox in
    let saved = record s { inbox = t } in
    elim failure [
      | none ↦ saved
      | some e ↦ record saved { errors = insert source save_failed s.errors }
    ]

-- Texts are the code points of the messages of the source.
abbrev pub outcome_text : Bool → Bool → Text
outcome_text stop succeeded =
    if stop
    then codes "Cancelled"
    else (if succeeded then codes "Completed" else codes "Failed; finding remains active")

-- The end of `action`.
unfoldable pub record_action : Storage → Bool → Bool → Row → String → ℕ → State → State
record_action disk stop succeeded row action now s = save_live disk row.source now (record s {
  inbox = outcome row.id row.revision action (outcome_text stop succeeded) now s.inbox;
})

-- `analyze` keeps the checked answer of the broker while its row is open.
unfoldable pub keep_analysis : Storage → Row → Value → ℕ → State → State × Option Failure
keep_analysis disk row result now s = elim (get row.id s.inbox.items) [
  | none ↦ (s, none)
  | some r ↦
      if not (r.resolved == 0)
      then (s, none)
      else (let kept = record (s.inbox) { analysis = insert row.id result s.inbox.analysis } in
          let (t, shot) = snapshot now kept in
          if ltb snapshot_limit (disk.snapshot_len shot)
          then (
            record s { inbox = record t { analysis = remove row.id t.analysis } },
            some state_capacity,
          )
          else (record s { inbox = t }, none))
]

abbrev pub clear_busy : Row → Row
clear_busy row = record row { busy = "" }

unfoldable pub clear_row : String → State → State
clear_row id s = record s {
  inbox = record (s.inbox) { items = adjust id clear_busy s.inbox.items };
}

-- The end of `analyze`: a cancelled or failed analysis leaves an outcome.
unfoldable pub record_analysis : Storage → Bool → Bool → Row → ℕ → State → State
record_analysis disk stop failed row now s =
    let noted : State =
      if stop
      then record s {
        inbox = outcome row.id row.revision "analyze" (codes "Cancelled") now s.inbox;
      }
      else (if failed
          then record s {
            inbox =
                outcome row.id row.revision "analyze"
                  (codes "Analysis unavailable; retry explicitly") now s.inbox;
          }
          else s) in
    save_live disk row.source now (clear_row row.id noted)

-- The last critical section of a task, also when its thread cannot be started.
unfoldable pub end_task : String → State → State
end_task id s = clear_row id (record s { tasks = remove id s.tasks })

-- `validate_analysis`, by the texts that are allowed as actions.
unfoldable pub items_valid : (String → Bool) → Items → Bool
items_valid allowed nil = true
items_valid allowed (cons v vs) =
    let rest = items_valid allowed vs in
    elim (as_str v) [ none ↦ false | some text ↦ allowed text && rest ]

items_len : Items → ℕ
items_len nil = 0
items_len (cons v vs) = suc (items_len vs)

pub list_valid : (String → Bool) → Value → Bool
unfolding items_len
list_valid allowed (array vs) = leb (items_len vs) 8 && items_valid allowed vs
list_valid allowed _ = false

unfoldable pub analysis_valid : List String → Value → Bool
analysis_valid actions v = elim (as_object v) [
  | none ↦ false
  | some fields ↦
      (length (keys fields) == 4)
      && all (λ k. any (str_eq k) ("cause" ∷ "evidence" ∷ "nextSteps" ∷ "actions" ∷ []))
          (keys fields)
      && (elim (as_str (index v "cause")) [ none ↦ false | some s ↦ leb (length (codes s)) 1500 ])
      && list_valid (λ s. leb (length (codes s)) 500) (index v "evidence")
      && list_valid (λ s. leb (length (codes s)) 500) (index v "nextSteps")
      && list_valid (λ s. any (str_eq s) actions) (index v "actions")
]
