-- ===== src/Maintenance/Inbox.antt =====
-- projects/maintenance/src/model.rs: the operations of `Inbox`. None of them changes the inbox
-- before it fails, so a failure has no inbox.
use seele_shell.Prelude.{
  Bool, List, String, ℕ, Option, adjust, false, leb, map_values, true, get, if◌then◌else◌, remove,
  retain, ◌-◌, ◌∷◌, [], contains_key, ltb, not, some, str_eq, none, ◌||◌, string_key, ◌==◌, length,
  ◌&&◌, ◌*◌, ◌+◌, ◌++◌, drop, values,
}
use seele_shell.Maintenance.Model.{
  Failure, Text, Result, err, id_of, invalid_finding, ok, week, unregistered_source, is_notice,
  valid_key, publisher_owned_condition, invalid_duration, invalid_operation, Registry, Row,
  stale_finding, state_capacity, state_unavailable,
}
use seele_shell.Json.{Value}

pub record Inbox : Type 0 where
  pub registrations : List (String × Registry)
  pub items : List (String × Row)
  pub diagnostics : List (String × Text)
  pub analysis : List (String × Value)

unfoldable pub is_recent : ℕ → ℕ → Bool
is_recent now at = leb (now - week) at

unfoldable pub keeps_row : Inbox → ℕ → Row → Bool
keeps_row s now row =
    contains_key row.source s.registrations && (row.resolved == 0 || is_recent now row.resolved)

unfoldable pub prune_row : ℕ → Row → Row
prune_row now row = record row { outcomes = retain (λ o. is_recent now o.at) row.outcomes }

unfoldable pub prune : ℕ → Inbox → Inbox
prune now s =
    let items = map_values (prune_row now) (retain (λ e. keeps_row s now e.1) s.items) in
    record s {
      items = items;
      diagnostics = retain (λ e. contains_key e.0 items) s.diagnostics;
      analysis = retain (λ e. contains_key e.0 items) s.analysis;
    }

-- `Inbox::new` without a file.
unfoldable pub empty : List (String × Registry) → ℕ → Inbox
empty registrations now =
    prune now
      (record { registrations = registrations; items = []; diagnostics = []; analysis = [] })

-- `persist`, by the length of the encoded rows and whether the file was written.
unfoldable pub persist : (List Row → ℕ) → (List Row → Bool) → ℕ → Inbox → Inbox × Option Failure
persist encoded_len write now s =
    let t = prune now s in
    let rows = values t.items in
    (
      t,
      if ltb (16 * 1024 * 1024) (encoded_len rows)
          then some state_capacity
          else (if write rows then none else some state_unavailable),
    )

abbrev pub close_row : ℕ → Row → Row
close_row now row = record row { resolved = now; busy = "" }

unfoldable pub resolve_id : String → ℕ → Inbox → Inbox
resolve_id id now s = record s {
  items = adjust id (close_row now) s.items;
  diagnostics = remove id s.diagnostics;
  analysis = remove id s.analysis;
}

unfoldable pub resolve : String → String → ℕ → Inbox → Result (Inbox × Bool)
resolve source key now s =
    let id = id_of source key in
    if not (contains_key source s.registrations)
    then err unregistered_source
    else (if not (valid_key key) then err invalid_finding else (elim (get id s.items) [
      | none ↦ ok (s, false)
      | some row ↦ if row.resolved == 0 then ok (resolve_id id now s, true) else ok (s, false)
    ]))

unfoldable pub current : String → ℕ → Inbox → Result Row
current id revision s = elim (get id s.items) [
  | none ↦ err stale_finding
  | some row ↦ if row.resolved == 0 && row.revision == revision then ok row else err stale_finding
]

unfoldable pub operation : String → ℕ → String → Option ℕ → ℕ → Inbox → Result Inbox
operation id revision op seconds now s = elim (current id revision s) [
  | err failure ↦ err failure
  | ok row ↦
      if str_eq op "done"
      then (if not (is_notice row.lifecycle)
          then err publisher_owned_condition
          else (elim (resolve row.source row.key now s) [
            | err failure ↦ err failure
            | ok (t, known) ↦ ok t
          ]))
      else (if str_eq op "snooze"
          then (elim seconds [
            | none ↦ err invalid_duration
            | some n ↦
                if leb 60 n && leb n (30 * 86400)
                then ok (record s {
                  items = adjust id (λ r. record r { snoozed_until = now + n }) s.items;
                })
                else err invalid_duration
          ])
          else (if str_eq op "unsnooze"
              then ok (record s { items = adjust id (λ r. record r { snoozed_until = 0 }) s.items })
              else err invalid_operation))
]

unfoldable pub add_outcome : ℕ → String → Text → ℕ → Row → Row
add_outcome revision action result now row =
    let longer =
      row.outcomes
      ++ (record { action = action; at = now; result = result; revision = some revision }) ∷ [] in
    record row { busy = ""; outcomes = if ltb 20 (length longer) then drop 1 longer else longer }

unfoldable pub outcome : String → ℕ → String → Text → ℕ → Inbox → Inbox
outcome id revision action result now s = record s {
  items = adjust id (add_outcome revision action result now) s.items;
}
