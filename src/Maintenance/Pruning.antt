-- ===== src/Maintenance/Pruning.antt =====
-- Pruning keeps the inbox well formed.
use seele_shell.Prelude.{
  Bool, String, ℕ, ◌≡◌, contains_key, arith, get, string_key, retain, map_values,
  Entries-map_values, length-retain-le, Entries-retain, map_values-IsDistinct, retain-IsDistinct,
  length-map_values, Entries-retain_of, Entries-imp, IsDistinct, true, Option-cases, inl, inr,
  contains_key-get, get-map_values, get-retain,
}
use seele_shell.Maintenance.Kept.{Described}
use seele_shell.Maintenance.Model.{Row}
use seele_shell.Maintenance.Inbox.{Inbox, prune, prune_row, keeps_row, is_recent}
use seele_shell.Maintenance.Invariant.{IsFiled, WellFormed, is_open}
use seele_shell.Maintenance.Changes.{refile-IsFiled}

pub pruned_open :
    (now : ℕ) (id : String) (s : Inbox)
    → IsDistinct s.items
    → is_open (get id s.items) ≡ true
    → contains_key id (map_values (prune_row now) (retain (λ e. keeps_row s now e.1) s.items))
      ≡ true
    → is_open (get id (map_values (prune_row now) (retain (λ e. keeps_row s now e.1) s.items)))
      ≡ true
unfolding prune_row keeps_row
pruned_open now id s distinct o present = elim (Option-cases (get id s.items)) [
  | inl n ↦ absurd (ground (arith, n))
  | inr (row, at) ↦
      let p : String × Row → Bool = λ e. keeps_row s now e.1 in
      ground (
        arith,
        at,
        contains_key-get id (map_values (prune_row now) (retain p s.items)),
        get-map_values id (prune_row now) (retain p s.items),
        get-retain p id s.items distinct,
      )
]

pub prune-WellFormed : (now : ℕ) (s : Inbox) → WellFormed s → WellFormed (prune now s)
unfolding prune prune_row keeps_row Described
prune-WellFormed now s h =
    let kept = retain (λ e. keeps_row s now e.1) s.items in
    let items = map_values (prune_row now) kept in
    record {
      plain = h.plain;
      filed =
          Entries-map_values (IsFiled s.registrations) (IsFiled s.registrations) (prune_row now)
            (λ k row p.
              refile-IsFiled _ row.resolved row.snoozed_until row.busy
                (omega (
                  arith,
                  length-retain-le (λ o. is_recent now o.at) row.outcomes,
                  p.outcomes_bounded,
                ))
                p)
            kept (Entries-retain (IsFiled s.registrations) _ s.items h.filed);
      distinct =
          map_values-IsDistinct (prune_row now) kept (retain-IsDistinct _ s.items h.distinct);
      bounded = omega (
        arith,
        length-map_values (prune_row now) kept,
        length-retain-le (λ e. keeps_row s now e.1) s.items,
        h.bounded,
      );
      described =
          Entries-retain_of (Described items) (λ e. contains_key e.0 items) s.diagnostics
            (Entries-imp _ _ (λ id d g present. (pruned_open now id s h.distinct g.0 present, g.1))
              s.diagnostics h.described);
    }
