-- ===== src/Maintenance/Invariant.antt =====
-- The well-formedness of the inbox.
use seele_shell.Prelude.{
  List, Option, Entries, String, Bool, false, get, ◌≡◌, some, true, IsDistinct, ◌==◌, contains_key,
  length, none, All, string_key, ◌≤◌, ◌<◌, ◌^◌,
}
use seele_shell.Maintenance.Inbox.{Inbox}
use seele_shell.Maintenance.Model.{Row, Registry, id_of, valid_key, max_items}
use seele_shell.Maintenance.Ids.{no_colon}

abbrev pub is_action : List (String × Registry) → String → String → Bool
is_action registrations source action = elim (get source registrations) [
  | none ↦ false
  | some registry ↦ contains_key action registry
]

-- A row is stored under the id that its source and key spell, and is within its limits.
pub record IsFiled (registrations : List (String × Registry)) (k : String) (row : Row)
    : Type 0 where
  pub named : row.id ≡ k
  pub spelled : k ≡ id_of row.source row.key
  pub key_valid : valid_key row.key ≡ true
  pub registered : contains_key row.source registrations ≡ true
  pub actions_known : All (λ a. is_action registrations row.source a ≡ true) row.actions
  pub title_bounded : length row.title ≤ 160
  pub explanation_bounded : length row.explanation ≤ 500
  pub details_bounded : length row.details ≤ 2000
  pub outcomes_bounded : length row.outcomes ≤ 20
  pub revision_bounded : row.revision < 2 ^ 64
  pub recurrence_bounded : row.recurrence < 2 ^ 64

abbrev pub is_open : Option Row → Bool
is_open none = false
is_open (some row) = row.resolved == 0

-- No source holds a colon, so that the ids of different sources differ, and diagnostics are kept only of rows that are not resolved.
pub record WellFormed (s : Inbox) : Type 0 where
  pub plain : Entries (λ source registry. no_colon source ≡ true) s.registrations
  pub filed : Entries (IsFiled s.registrations) s.items
  pub distinct : IsDistinct s.items
  pub bounded : length s.items ≤ max_items
  pub described :
      Entries (λ id d. (is_open (get id s.items) ≡ true) × (length d ≤ 16384)) s.diagnostics
