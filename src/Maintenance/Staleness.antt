-- ===== src/Maintenance/Staleness.antt =====
-- What resolving and snoozing promise.
use seele_shell.Prelude.{
  String, ℕ, Option, ◌<◌, ◌≡◌, get, false, true, Option-cases, inl, none, some, inr, Bool, arith,
  ◌≤◌, if_cases, string_key, not, contains_key, ap, option_cases, sym, ◌==◌, subst, ◌∙◌, get-remove,
  eq_iff, get-adjust, some-injective,
}
use seele_shell.Maintenance.Model.{
  Text, Finding, err, ok, stale_finding, Row, id_of, Result, urgency_rank, valid_key,
}
use seele_shell.Maintenance.Inbox.{current, operation, resolve, resolve_id, Inbox, close_row}
use seele_shell.Maintenance.Publish.{Signed, renew, announces, cleaned, Published, publish}
use seele_shell.Maintenance.Invariant.{is_open}
use seele_shell.Maintenance.Publishing.{publish_cases, done, IsOld}
use seele_shell.Maintenance.Renewal.{ok-injective}

stale_current :
    (id : String) (revision : ℕ) (s : Inbox)
    → is_open (get id s.items) ≡ false
    → current id revision s ≡ err stale_finding
unfolding current
stale_current id revision s h = elim (Option-cases (get id s.items)) [
  | inl n ↦ ground (arith, n)
  | inr (row, at) ↦ ground (arith, at)
]

stale_operation :
    (id : String) (revision : ℕ) (op : String) (seconds : Option ℕ) (now : ℕ) (s : Inbox)
    → current id revision s ≡ err stale_finding
    → operation id revision op seconds now s ≡ err stale_finding
unfolding operation
stale_operation id revision op seconds now s h = ground (arith, h)

-- Once a row is resolved, at a time that is not 0, its diagnostic and its analysis are gone, and
-- every operation on it is refused as stale, whatever revision it names.
pub resolve_stale :
    (source key : String) (now : ℕ) (s t : Inbox)
    → 0 < now
    → resolve source key now s ≡ ok (t, true)
    → (get (id_of source key) t.diagnostics ≡ none)
      × (get (id_of source key) t.analysis ≡ none)
      × ((revision : ℕ) (op : String) (seconds : Option ℕ) (later : ℕ)
          → operation (id_of source key) revision op seconds later t ≡ err stale_finding)
unfolding resolve resolve_id
resolve_stale source key now s t late =
    let id = id_of source key in
    let Gone : Inbox → Type 0 = λ u.
      (get id u.diagnostics ≡ none)
      × (get id u.analysis ≡ none)
      × ((revision : ℕ) (op : String) (seconds : Option ℕ) (later : ℕ)
          → operation id revision op seconds later u ≡ err stale_finding) in
    let P : Result (Inbox × Bool) → Type 0 = λ x. x ≡ ok (t, true) → Gone t in
    if_cases P (not (contains_key source s.registrations)) _ _ (λ _ e. ground arith)
      λ _.
        if_cases P (not (valid_key key)) _ _ (λ _ e. ground arith)
          λ _.
            option_cases P (get id s.items) _ _ (λ _ e. ground arith)
              λ row at.
                if_cases P (row.resolved == 0) _ _
                  (λ _ e. subst Gone (ap (λ (x : Inbox × Bool). x.0) (ok-injective e)) (
                    ground (arith, get-remove id id s.diagnostics, eq_iff id id),
                    ground (arith, get-remove id id s.analysis, eq_iff id id),
                    λ revision op seconds later.
                        stale_operation id revision op seconds later (resolve_id id now s) (
                          stale_current id revision (resolve_id id now s) (
                            ground
                              (arith, get-adjust id id (close_row now) s.items, eq_iff id id, at))),
                  ))
                  (λ _ e. ground arith)

module _ (secrets : Text → Text) (digest : Signed → String) where
  known_old :
      (source : String) (f : Finding) (now : ℕ) (s : Inbox) (old row : Row) (changed : Bool)
      → get (id_of source f.key) s.items ≡ some row
      → IsOld secrets digest source f now s old changed
      → old ≡ row
  known_old source f now s old row changed at (inl (known, _)) =
      some-injective old row (sym known ∙ at)
  known_old source f now s old row changed at (inr (new, _, _, _)) = absurd (ground arith)

  -- A finding that is published while its row is snoozed is not announced, unless it is
  -- more urgent than the row was.
  pub snoozed_quiet :
      (source : String) (f : Finding) (now : ℕ) (s t : Inbox) (p : Published) (row : Row)
      → get (id_of source f.key) s.items ≡ some row
      → urgency_rank row.urgency ≤ urgency_rank f.urgency
      → now < row.snoozed_until
      → publish secrets digest source f now s ≡ ok (t, p)
      → p.notify ≡ false
  unfolding renew announces cleaned
  snoozed_quiet source f now s t p row at milder early =
      publish_cases secrets digest (λ x. x ≡ ok (t, p) → p.notify ≡ false) source f now s
        (λ _ e. ground arith)
        λ registry _ _ old changed from n r _ _ _ e.
          let quiet : (old ≡ row)
              → (done secrets digest source (cleaned secrets digest f) now s old changed n
                  r).1.notify
                ≡ false =
            λ same. ground (
              arith,
              same,
              ap (λ (x : Row). x.snoozed_until) same,
              ap (λ (x : Row). urgency_rank x.urgency) same,
            ) in
          ap (λ (x : Inbox × Published). x.1.notify) (sym (ok-injective e))
          ∙ quiet (known_old source (cleaned secrets digest f) now s old row changed at from)
