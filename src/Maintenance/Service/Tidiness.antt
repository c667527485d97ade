-- ===== src/Maintenance/Service/Tidiness.antt =====
-- Analyses and busy marks stay with what they belong to.
use seele_shell.Prelude.{
  String, Bool, Entries, ℕ, Entries-remove_other, Option, str_eq, ◌≡◌, adjust, get, if_cases,
  retain, true, ◌||◌, Entries-imp, contains_key, map_values, not, string_key, Entries-retain_of,
  arith, inl, refl, Entries-adjust, Entries-get, get-adjust, option_cases, Entries-map_values,
  get-insert, inr, leb, ◌==◌, Entries-insert, Entries-retain, subst, ◌&&◌, sym, ◌*◌, ◌+◌,
}
use seele_shell.Maintenance.Service.{Names}
use seele_shell.Maintenance.Model.{Text, Result, Row, Finding, err, id_of, ok, valid_key, is_notice}
use seele_shell.Maintenance.Inbox.{
  operation, outcome, prune, resolve, resolve_id, Inbox, add_outcome, prune_row, keeps_row,
  close_row, current,
}
use seele_shell.Maintenance.Publish.{Signed, fresh_row, renew, publish, cleaned, signed}
use seele_shell.Maintenance.Changes.{Holds, result_cases}
use seele_shell.Maintenance.Invariant.{WellFormed, is_open}
use seele_shell.Maintenance.Publishing.{IsOld, publish_cases}
use seele_shell.Maintenance.Kept.{adjusted_open}
use seele_shell.Maintenance.Pruning.{pruned_open}

abbrev pub is_free : Names → String → Row → Bool
is_free tasks k row = str_eq row.busy "" || contains_key k tasks

-- An analysis is kept only of an open row, and a row is busy only while a task runs on it.
pub record Tidy (tasks : Names) (s : Inbox) : Type 0 where
  pub analysed : Entries (λ id a. is_open (get id s.items) ≡ true) s.analysis
  pub busied : Entries (λ k row. is_free tasks k row ≡ true) s.items

pub adjust-Tidy :
    (tasks : Names) (id : String) (f : Row → Row) (s : Inbox)
    → ((row : Row) → (f row).resolved ≡ row.resolved)
    → ((row : Row) → is_free tasks id row ≡ true → is_free tasks id (f row) ≡ true)
    → Tidy tasks s
    → Tidy tasks (record s { items = adjust id f s.items })
adjust-Tidy tasks id f s same keeps h = record {
  analysed = Entries-imp _ _ (λ k a g. adjusted_open id k f s.items same g) s.analysis h.analysed;
  busied = Entries-adjust _ id f s.items (λ row _ g. keeps row g) h.busied;
}

pub outcome-Tidy :
    (tasks : Names) (id : String) (revision : ℕ) (action : String) (result : Text) (now : ℕ)
    (s : Inbox)
    → Tidy tasks s
    → Tidy tasks (outcome id revision action result now s)
unfolding outcome add_outcome
outcome-Tidy tasks id revision action result now s =
    adjust-Tidy tasks id (add_outcome revision action result now) s (λ _. refl) (λ _ _. refl)

pub prune-Tidy :
    (tasks : Names) (now : ℕ) (s : Inbox) → WellFormed s → Tidy tasks s → Tidy tasks (prune now s)
unfolding prune prune_row keeps_row
prune-Tidy tasks now s w h =
    let kept = retain (λ e. keeps_row s now e.1) s.items in
    let items = map_values (prune_row now) kept in
    record {
      analysed =
          Entries-retain_of (λ id a. is_open (get id items) ≡ true) (λ e. contains_key e.0 items)
            s.analysis
            (Entries-imp _ _ (λ id a g present. pruned_open now id s w.distinct g present)
              s.analysis h.analysed);
      busied =
          Entries-map_values (λ k row. is_free tasks k row ≡ true) _ (prune_row now) (λ k row g. g)
            kept (Entries-retain _ _ s.items h.busied);
    }

resolve_id-Tidy :
    (tasks : Names) (id : String) (now : ℕ) (s : Inbox)
    → Tidy tasks s
    → Tidy tasks (resolve_id id now s)
unfolding resolve_id
resolve_id-Tidy tasks id now s h = record {
  analysed =
      Entries-remove_other (λ k a. is_open (get k s.items) ≡ true)
        (λ k a. is_open (get k (adjust id (close_row now) s.items)) ≡ true) id s.analysis
        (λ k a ne g. ground (arith, get-adjust id k (close_row now) s.items)) h.analysed;
  busied = Entries-adjust _ id (close_row now) s.items (λ row _ _. refl) h.busied;
}

pub resolve-Tidy :
    (tasks : Names) (source key : String) (now : ℕ) (s : Inbox)
    → Tidy tasks s
    → Holds (λ x. Tidy tasks x.0) (resolve source key now s)
unfolding resolve
resolve-Tidy tasks source key now s h =
    let P : Result (Inbox × Bool) → Type 0 = Holds (λ x. Tidy tasks x.0) in
    if_cases P (not (contains_key source s.registrations)) _ _ (λ _. tt)
      λ _.
        if_cases P (not (valid_key key)) _ _ (λ _. tt)
          λ _.
            option_cases P (get (id_of source key) s.items) _ _ (λ _. h)
              λ row _.
                if_cases P (row.resolved == 0) _ _
                  (λ _. resolve_id-Tidy tasks (id_of source key) now s h) (λ _. h)

done_Tidy :
    (tasks : Names) (r : Result (Inbox × Bool))
    → Holds (λ x. Tidy tasks x.0) r
    → Holds (Tidy tasks) (elim r [ err failure ↦ err failure | ok (t, known) ↦ ok t ])
done_Tidy tasks (ok (t, known)) h = h
done_Tidy tasks (err e) h = tt

pub operation-Tidy :
    (tasks : Names) (id : String) (revision : ℕ) (op : String) (seconds : Option ℕ) (now : ℕ)
    (s : Inbox)
    → Tidy tasks s
    → Holds (Tidy tasks) (operation id revision op seconds now s)
unfolding operation
operation-Tidy tasks id revision op seconds now s h =
    let P : Result Inbox → Type 0 = Holds (Tidy tasks) in
    let snooze_to : (n : ℕ)
        → Tidy tasks
            (record s { items = adjust id (λ r. record r { snoozed_until = n }) s.items }) =
      λ n. adjust-Tidy tasks id (λ r. record r { snoozed_until = n }) s (λ _. refl) (λ _ g. g) h in
    result_cases P (current id revision s) _ _ (λ _. tt)
      λ row _.
        if_cases P (str_eq op "done") _ _
          (λ _.
            if_cases P (not (is_notice row.lifecycle)) _ _ (λ _. tt)
              (λ _.
                done_Tidy tasks (resolve row.source row.key now s)
                  (resolve-Tidy tasks row.source row.key now s h)))
          λ _.
            if_cases P (str_eq op "snooze") _ _
              (λ _.
                option_cases P seconds _ _ (λ _. tt)
                  λ n _.
                    if_cases P (leb 60 n && leb n (30 * 86400)) _ _ (λ _. snooze_to (now + n))
                      (λ _. tt))
              λ _. if_cases P (str_eq op "unsnooze") _ _ (λ _. snooze_to 0) (λ _. tt)

module _ (secrets : Text → Text) (digest : Signed → String) where
  old_free :
      (tasks : Names) (source : String) (f : Finding) (now : ℕ) (s : Inbox) (old : Row)
      (changed : Bool)
      → Tidy tasks s
      → IsOld secrets digest source f now s old changed
      → is_free tasks (id_of source f.key) old ≡ true
  unfolding fresh_row
  old_free tasks source f now s old changed h (inl (at, _)) =
      Entries-get (λ k row. is_free tasks k row ≡ true) (id_of source f.key) s.items h.busied at
  old_free tasks source f now s old changed h (inr (_, _, same, _)) =
      subst (λ (r : Row). is_free tasks (id_of source f.key) r ≡ true) (sym same) refl

  pub publish-Tidy :
      (tasks : Names) (source : String) (f : Finding) (now : ℕ) (s : Inbox)
      → Tidy tasks s
      → Holds (λ x. Tidy tasks x.0) (publish secrets digest source f now s)
  unfolding renew
  publish-Tidy tasks source f now s h =
      publish_cases secrets digest (Holds (λ x. Tidy tasks x.0)) source f now s (λ _. tt)
        λ registry _ _ old changed from n r _ _ _.
          let g = cleaned secrets digest f in
          let id = id_of source g.key in
          let row = renew g (digest (signed g)) changed n r now old in
          record {
            analysed =
                Entries-imp _ _ (λ k a open_. ground (arith, get-insert id k row s.items))
                  s.analysis h.analysed;
            busied =
                Entries-insert (λ k x. is_free tasks k x ≡ true) id row s.items
                  (old_free tasks source g now s old changed h from) h.busied;
          }
