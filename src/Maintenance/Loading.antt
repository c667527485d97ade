-- ===== src/Maintenance/Loading.antt =====
-- projects/maintenance/src/model.rs: `Inbox::new`, which reads the stored rows.
use seele_shell.Prelude.{
  none, some, ◌∷◌, [], List, Option, String, ℕ, Bool, if◌then◌else◌, contains_key, get, insert, leb,
  length, ltb, str_eq, drop, not, string_key, ◌&&◌, ◌||◌, retain, ◌-◌, ◌==◌, all,
}
use seele_shell.Maintenance.Model.{
  ok, err, Text, Outcome, Registry, Row, Urgency, Lifecycle, Result, id_of, clean,
  state_unavailable, valid_key, week, max_items,
}
use seele_shell.Maintenance.Inbox.{Inbox, empty, prune}
use seele_shell.Json.{codes}
use seele_shell.Prelude.Options.{◌>>=◌}

-- A stored number: a time, or one that is negative or not finite.
pub data Seconds : Type 0 where
  at : ℕ → Seconds
  invalid : Seconds

abbrev pub seconds : Seconds → Option ℕ
seconds (at n) = some n
seconds invalid = none

pub record StoredOutcome : Type 0 where
  pub action : String
  pub time : Seconds
  pub result : Text
  pub revision : Option ℕ

pub record StoredRow : Type 0 where
  pub source : String
  pub key : String
  pub title : Text
  pub explanation : Text
  pub details : Text
  pub urgency : Urgency
  pub lifecycle : Lifecycle
  pub actions : List String
  pub first_seen : Seconds
  pub updated : Seconds
  pub revision : ℕ  -- u64
  pub recurrence : ℕ  -- u64
  pub snoozed_until : Seconds
  pub resolved : Seconds
  pub outcomes : List StoredOutcome
  pub fingerprint : String

-- What is found at the path; `none` is a row that does not decode.
pub data File : Type 0 where
  missing unreadable malformed : File
  holds : List (Option StoredRow) → File

unfoldable pub dedup : List String → List String
dedup [] = []
dedup (a ∷ as_) =
    let rest = dedup as_ in
    elim rest [ [] ↦ a ∷ [] | b ∷ bs ↦ if str_eq a b then b ∷ bs else a ∷ b ∷ bs ]

is_hex : ℕ → Bool
is_hex c = (leb b'0' c && leb c b'9') || (leb b'A' c && leb c b'F') || (leb b'a' c && leb c b'f')

is_fingerprint : String → Bool
unfolding is_hex
is_fingerprint s = length (codes s) == 64 && all is_hex (codes s)

module _ (secrets : Text → Text) where
  read_outcomes : Registry → ℕ → List StoredOutcome → List Outcome
  read_outcomes registry now [] = []
  read_outcomes registry now (o ∷ os) =
      let rest = read_outcomes registry now os in
      elim (seconds o.time) [
        | none ↦ rest
        | some time ↦
            if (contains_key o.action registry || str_eq o.action "analyze")
              && leb (now - week) time
            then (record {
              action = o.action;
              at = time;
              result = clean secrets 160 o.result;
              revision = o.revision;
            })
              ∷ rest
            else rest
      ]

  unfoldable pub last_outcomes : List Outcome → List Outcome
  last_outcomes os = if ltb 20 (length os) then drop (length os - 20) os else os

  unfoldable pub read_fields : Registry → ℕ → StoredRow → ℕ → ℕ → ℕ → ℕ → Row
  unfolding read_outcomes is_fingerprint
  read_fields registry now r first_seen updated snoozed_until resolved = record {
    id = id_of r.source r.key;
    source = r.source;
    key = r.key;
    title = clean secrets 160 r.title;
    explanation = clean secrets 500 r.explanation;
    details = clean secrets 2000 r.details;
    urgency = r.urgency;
    lifecycle = r.lifecycle;
    actions = dedup (retain (λ a. contains_key a registry) r.actions);
    first_seen = first_seen;
    updated = updated;
    revision = r.revision;
    recurrence = r.recurrence;
    snoozed_until = snoozed_until;
    resolved = resolved;
    outcomes = last_outcomes (read_outcomes registry now r.outcomes);
    fingerprint = if is_fingerprint r.fingerprint then r.fingerprint else "";
    busy = "";
  }

  unfoldable pub read_row : List (String × Registry) → ℕ → StoredRow → Option Row
  read_row registrations now r = elim (get r.source registrations) [
    | none ↦ none
    | some registry ↦
        if not (valid_key r.key)
        then none
        else (seconds r.first_seen >>= λ first_seen. seconds r.updated >>= λ updated.
            seconds r.snoozed_until >>= λ snoozed_until. seconds r.resolved >>= λ resolved.
            some (read_fields registry now r first_seen updated snoozed_until resolved))
  ]

  unfoldable pub add_row : Option Row → List (String × Row) → List (String × Row)
  add_row none items = items
  add_row (some row) items = insert row.id row items

  unfoldable pub read_rows :
      List (String × Registry)
      → ℕ
      → List (Option StoredRow)
      → List (String × Row)
      → List (String × Row)
  read_rows registrations now [] items = items
  read_rows registrations now (none ∷ rs) items = read_rows registrations now rs items
  read_rows registrations now (some r ∷ rs) items =
      read_rows registrations now rs (add_row (read_row registrations now r) items)

  unfoldable pub load : List (String × Registry) → File → ℕ → Result Inbox
  load registrations unreadable now = err state_unavailable
  load registrations missing now = ok (empty registrations now)
  load registrations malformed now = ok (empty registrations now)
  load registrations (holds rs) now =
      if ltb max_items (length rs)
      then ok (empty registrations now)
      else ok (
          prune now (record {
            registrations = registrations;
            items = read_rows registrations now rs [];
            diagnostics = [];
            analysis = [];
          }))
