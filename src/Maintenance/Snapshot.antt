-- ===== src/Maintenance/Snapshot.antt =====
-- projects/maintenance/src/model.rs: `Inbox::snapshot`.
use seele_shell.Prelude.{
  none, some, List, ℕ, Bool, Option, String, contains_key, sort_by, leb, ltb, not, retain, values,
  ◌&&◌, false, length, ◌==◌, ◌∷◌, first, get, some, ◌||◌, map, [], true, string_key,
}
use mathlib.Core.Option
use seele_shell.Maintenance.Inbox.{Inbox, prune}
use seele_shell.Maintenance.Model.{Registry, Row, Action, Urgency, urgency_rank}
use seele_shell.Json.{Value, as_u64, index, null}

-- What a client sees of a row.
pub record View : Type 0 where
  pub row : Row
  pub can_analyze : Bool
  pub analysis : Value
  pub analysis_stale : Bool
  pub actions : List (String × Action)

-- The actions of a row that its source has. The source is registered, for the inbox was pruned.
offered : Registry → List String → List (String × Action)
offered registry [] = []
offered registry (id ∷ ids) = elim (get id registry) [
  | none ↦ offered registry ids
  | some action ↦ (id, action) ∷ offered registry ids
]

is_stale : ℕ → Option Value → Bool
is_stale revision none = false
is_stale revision (some a) = elim (as_u64 (index a "revision")) [
  | none ↦ true
  | some n ↦ not (n == revision)
]

unfoldable pub view : Inbox → Row → View
unfolding offered is_stale
view s row = record {
  row = row;
  can_analyze = contains_key row.id s.diagnostics && row.resolved == 0;
  analysis = elim (get row.id s.analysis) [ none ↦ null | some a ↦ a ];
  analysis_stale = is_stale row.revision (get row.id s.analysis);
  actions = elim (get row.source s.registrations) [
    | none ↦ []
    | some registry ↦ offered registry row.actions
  ];
}

abbrev pub is_history : Row → Bool
is_history row = not (row.resolved == 0)

abbrev pub is_snoozed : ℕ → Row → Bool
is_snoozed now row = ltb now row.snoozed_until

-- The most urgent first, then the latest update.
unfoldable pub active_le : Row → Row → Bool
active_le a b =
    ltb (urgency_rank a.urgency) (urgency_rank b.urgency)
    || (urgency_rank a.urgency == urgency_rank b.urgency && leb b.updated a.updated)

unfoldable pub snoozed_le : Row → Row → Bool
snoozed_le a b = leb a.snoozed_until b.snoozed_until

unfoldable pub history_le : Row → Row → Bool
history_le a b = leb b.resolved a.resolved

unfoldable pub needs_attention : Row → Bool
needs_attention row = not (urgency_rank row.urgency == 3)

unfoldable pub active_rows : ℕ → List Row → List Row
active_rows now rows =
    sort_by active_le (retain (λ r. not (is_history r) && not (is_snoozed now r)) rows)

unfoldable pub snoozed_rows : ℕ → List Row → List Row
snoozed_rows now rows =
    sort_by snoozed_le (retain (λ r. not (is_history r) && is_snoozed now r) rows)

unfoldable pub history_rows : List Row → List Row
history_rows rows = sort_by history_le (retain is_history rows)

pub record Snapshot : Type 0 where
  pub attention : ℕ  -- "count"
  pub urgency : Option Urgency
  pub active : List View
  pub snoozed : List View
  pub history : List View

unfoldable pub snapshot : ℕ → Inbox → Inbox × Snapshot
snapshot now s =
    let t = prune now s in
    let rows = values t.items in
    let attention = retain needs_attention (active_rows now rows) in
    (
      t,
      record {
        attention = length attention;
        urgency = Option.map (λ (r : Row). r.urgency) (first attention);
        active = map (view t) (active_rows now rows);
        snoozed = map (view t) (snoozed_rows now rows);
        history = map (view t) (history_rows rows);
      },
    )
