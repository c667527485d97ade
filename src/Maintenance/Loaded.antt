-- ===== src/Maintenance/Loaded.antt =====
-- Whatever a file holds, the inbox that is read from it is well formed.
use seele_shell.Prelude.{
  none, some, true, ◌∷◌, [], List, Option, String, All, get, if◌then◌else◌, ℕ, ◌<◌, Entries, length,
  option_cases, str_eq, ◌^◌, ◌≡◌, IsDistinct, if_cases, ◌≤◌, arith, not, retain, suc, ◌+◌,
  Entries-insert, contains_key, length-drop, string_key, All-retain_of, insert-IsDistinct, ◌-◌,
  contains_key-get, length-insert, subst, ltb, refl,
}
use seele_shell.Maintenance.Model.{
  ok, Text, Registry, Outcome, Row, registrations, valid_key, Result, max_items, id_of,
}
use seele_shell.Maintenance.Loading.{
  dedup, StoredRow, add_row, last_outcomes, load, read_row, read_rows, read_fields, holds, seconds,
}
use seele_shell.Json.{Value}
use seele_shell.Maintenance.Inbox.{Inbox}
use seele_shell.Maintenance.Invariant.{IsFiled, is_action, WellFormed}
use seele_shell.Maintenance.Listing.{All-of}
use seele_shell.Maintenance.Changes.{Holds}
use seele_shell.Maintenance.Keeps.{length-clean}
use seele_shell.Maintenance.Reachable.{empty-WellFormed, registrations-plain}
use seele_shell.Maintenance.Pruning.{prune-WellFormed}
use seele_shell.Prelude.Options.{◌>>=◌}

joined-All :
    (P : String → Type 0) (a : String) (rest : List String)
    → P a
    → All P rest
    → All P (elim rest [ [] ↦ a ∷ [] | b ∷ bs ↦ if str_eq a b then b ∷ bs else a ∷ b ∷ bs ])
joined-All P a [] p h = (p, tt)
joined-All P a (b ∷ bs) p h = if_cases (All P) (str_eq a b) _ _ (λ _. h) (λ _. (p, h))

dedup-All : (P : String → Type 0) (xs : List String) → All P xs → All P (dedup xs)
unfolding dedup
dedup-All P [] h = tt
dedup-All P (a ∷ as_) h = joined-All P a (dedup as_) h.0 (dedup-All P as_ h.1)

kept_actions :
    (registrations : List (String × Registry)) (source : String) (registry : Registry)
    (actions : List String)
    → get source registrations ≡ some registry
    → All
        (λ a. is_action registrations source a ≡ true)
        (retain (λ a. contains_key a registry) actions)
kept_actions registrations source registry actions at =
    All-retain_of _ (λ a. contains_key a registry) actions
      (All-of (λ a e. ground (arith, at)) actions)

-- The counters are 64-bit numbers.
abbrev pub Fits : Option StoredRow → Type 0
Fits none = Unit
Fits (some r) = (r.revision < 2 ^ 64) × (r.recurrence < 2 ^ 64)

module _ (secrets : Text → Text) where
  length-last_outcomes : (os : List Outcome) → length (last_outcomes secrets os) ≤ 20
  unfolding last_outcomes
  length-last_outcomes os = ground (arith, length-drop (length os - 20) os)

  abbrev RowFiled : List (String × Registry) → Option Row → Type 0
  RowFiled registrations none = Unit
  RowFiled registrations (some row) = IsFiled registrations row.id row

  read_fields-IsFiled :
      (registrations : List (String × Registry)) (registry : Registry) (now : ℕ) (r : StoredRow)
      (first_seen updated snoozed_until resolved : ℕ)
      → Fits (some r)
      → get r.source registrations ≡ some registry
      → valid_key r.key ≡ true
      → IsFiled registrations
          (id_of r.source r.key)
          (read_fields secrets registry now r first_seen updated snoozed_until resolved)
  unfolding read_fields
  read_fields-IsFiled registrations registry now r first_seen updated snoozed_until resolved fits at
        valid =
      record {
        named = refl;
        spelled = refl;
        key_valid = valid;
        registered = ground (arith, contains_key-get r.source registrations, at);
        actions_known =
            dedup-All _ (retain (λ a. contains_key a registry) r.actions)
              (kept_actions registrations r.source registry r.actions at);
        title_bounded = length-clean secrets 160 r.title;
        explanation_bounded = length-clean secrets 500 r.explanation;
        details_bounded = length-clean secrets 2000 r.details;
        outcomes_bounded = length-last_outcomes _;
        revision_bounded = fits.0;
        recurrence_bounded = fits.1;
      }

  bind-Filed {ℓ} :
      {A : Type ℓ} (registrations : List (String × Registry)) (o : Option A) (f : A → Option Row)
      → ((a : A) → RowFiled registrations (f a))
      → RowFiled registrations (o >>= f)
  bind-Filed registrations none f h = tt
  bind-Filed registrations (some a) f h = h a

  read_row-Filed :
      (registrations : List (String × Registry)) (now : ℕ) (r : StoredRow)
      → Fits (some r)
      → RowFiled registrations (read_row secrets registrations now r)
  unfolding read_row read_fields
  read_row-Filed registrations now r fits =
      let P : Option Row → Type 0 = RowFiled registrations in
      option_cases P (get r.source registrations) _ _ (λ _. tt)
        λ registry at.
          if_cases P (not (valid_key r.key)) _ _ (λ _. tt)
            λ valid. bind-Filed registrations (seconds r.first_seen) _ λ first_seen.
              bind-Filed registrations (seconds r.updated) _ λ updated.
                bind-Filed registrations (seconds r.snoozed_until) _ λ snoozed_until.
                  bind-Filed registrations (seconds r.resolved) _ λ resolved.
                    read_fields-IsFiled registrations registry now r first_seen updated
                      snoozed_until resolved fits at (ground arith)

  add_row-Filed :
      (registrations : List (String × Registry)) (o : Option Row) (items : List (String × Row))
      → RowFiled registrations o
      → Entries (IsFiled registrations) items
      → IsDistinct items
      → Entries (IsFiled registrations) (add_row secrets o items)
        × IsDistinct (add_row secrets o items)
        × (length (add_row secrets o items) ≤ suc (length items))
  unfolding add_row
  add_row-Filed registrations none items p h d = (h, d, omega arith)
  add_row-Filed registrations (some row) items p h d = (
    Entries-insert (IsFiled registrations) row.id row items p h,
    insert-IsDistinct row.id row items d,
    ground (arith, length-insert row.id row items),
  )

  read_rows-Filed :
      (registrations : List (String × Registry)) (now : ℕ) (rs : List (Option StoredRow))
      (items : List (String × Row))
      → All Fits rs
      → Entries (IsFiled registrations) items
      → IsDistinct items
      → Entries (IsFiled registrations) (read_rows secrets registrations now rs items)
        × IsDistinct (read_rows secrets registrations now rs items)
        × (length (read_rows secrets registrations now rs items) ≤ length rs + length items)
  unfolding read_rows
  read_rows-Filed registrations now [] items fits h d = (h, d, omega arith)
  read_rows-Filed registrations now (none ∷ rs) items fits h d =
      let (f, e, n) = read_rows-Filed registrations now rs items fits.1 h d in
      (f, e, omega (arith, n))
  read_rows-Filed registrations now (some r ∷ rs) items fits h d =
      let o = read_row secrets registrations now r in
      let (g, k, m) =
        add_row-Filed registrations o items (read_row-Filed registrations now r fits.0) h d in
      let (f, e, n) = read_rows-Filed registrations now rs (add_row secrets o items) fits.1 g k in
      (f, e, omega (arith, n, m))

  -- An inbox that is read from a file is well formed, whatever rows the file holds, with counters
  -- of 64 bits.
  pub load-WellFormed :
      (config : Value) (rs : List (Option StoredRow)) (now : ℕ) (t : Inbox)
      → All Fits rs
      → load secrets (registrations config) (holds rs) now ≡ ok t
      → WellFormed t
  unfolding load
  load-WellFormed config rs now t fits e =
      let P : Result Inbox → Type 0 = Holds WellFormed in
      subst P e (
        if_cases P (ltb max_items (length rs)) _ _ (λ _. empty-WellFormed config now)
          λ few.
            let (f, d, n) = read_rows-Filed (registrations config) now rs [] fits tt tt in
            prune-WellFormed now _ (record {
              plain = registrations-plain config;
              filed = f;
              distinct = d;
              bounded = ground (arith, n);
              described = tt;
            }))
