-- ===== src/Maintenance/Counting.antt =====
-- How publishing counts the changes of a row.
use seele_shell.Prelude.{
  Bool, ℕ, String, if◌then◌else◌, not, some, ◌≡◌, get, suc, arith, inl, ◌==◌, some-injective, true,
  sym, ◌∙◌, ◌≤◌, ap, inr, subst, string_key, get-insert, eq_iff, refl,
}
use seele_shell.Maintenance.Model.{Text, Finding, Row, id_of, ok, urgency_rank}
use seele_shell.Maintenance.Inbox.{Inbox}
use seele_shell.Maintenance.Publish.{
  Signed, renew, announces, checked_increment, cleaned, Published, publish, is_changed, signed,
}
use seele_shell.Maintenance.Publishing.{IsOld, publish_cases}
use seele_shell.Maintenance.Renewal.{ok-injective}

counted_revision :
    (b : Bool) (n m : ℕ)
    → (if not b then some n else checked_increment n) ≡ some m
    → m ≡ (if b then suc n else n)
counted_revision b n m e = ground arith

counted_recurrence :
    (b : Bool) (n m : ℕ)
    → (if b then some n else checked_increment n) ≡ some m
    → m ≡ (if b then n else suc n)
counted_recurrence b n m e = ground arith

module _ (secrets : Text → Text) (digest : Signed → String) where
  renewed_old :
      (source : String) (f : Finding) (now : ℕ) (s : Inbox) (old row : Row) (changed : Bool)
      → get (id_of source f.key) s.items ≡ some row
      → IsOld secrets digest source f now s old changed
      → (old ≡ row) × (changed ≡ is_changed (digest (signed f)) (some row))
  renewed_old source f now s old row changed at (inl (known, change)) =
      let same = some-injective old row (sym known ∙ at) in
      (same, change ∙ ap (λ x. is_changed (digest (signed f)) (some x)) same)
  renewed_old source f now s old row changed at (inr (new, _, _, _)) = absurd (ground arith)

  -- A finding that is published on a row raises its revision by one exactly if it is a change: the
  -- fingerprint differs or the row had been resolved. It raises the recurrence by one exactly if
  -- the row had been resolved, reopens the row, keeps its id, its first sighting and its outcomes,
  -- and is announced only as a change of a row that is urgent and not snoozed.
  pub publish_counts :
      (source : String) (f : Finding) (now : ℕ) (s t : Inbox) (p : Published) (row : Row)
      → get (id_of source f.key) s.items ≡ some row
      → publish secrets digest source f now s ≡ ok (t, p)
      → (get (id_of source f.key) t.items ≡ some p.row)
        × (p.changed ≡ is_changed (digest (signed (cleaned secrets digest f))) (some row))
        × (p.row.revision ≡ (if p.changed then suc row.revision else row.revision))
        × (p.row.recurrence ≡ (if row.resolved == 0 then row.recurrence else suc row.recurrence))
        × (p.row.resolved ≡ 0)
        × (p.row.id ≡ row.id)
        × (p.row.first_seen ≡ row.first_seen)
        × (p.row.outcomes ≡ row.outcomes)
        × (p.notify ≡ true
            → (p.changed ≡ true) × (urgency_rank p.row.urgency ≤ 1) × (p.row.snoozed_until ≤ now))
  unfolding renew announces cleaned
  publish_counts source f now s t p row at =
      let g = cleaned secrets digest f in
      let id = id_of source f.key in
      let Counts : Inbox × Published → Type 0 = λ x.
        (get id x.0.items ≡ some x.1.row)
        × (x.1.changed ≡ is_changed (digest (signed g)) (some row))
        × (x.1.row.revision ≡ (if x.1.changed then suc row.revision else row.revision))
        × (x.1.row.recurrence ≡ (if row.resolved == 0 then row.recurrence else suc row.recurrence))
        × (x.1.row.resolved ≡ 0)
        × (x.1.row.id ≡ row.id)
        × (x.1.row.first_seen ≡ row.first_seen)
        × (x.1.row.outcomes ≡ row.outcomes)
        × (x.1.notify ≡ true
            → (x.1.changed ≡ true)
              × (urgency_rank x.1.row.urgency ≤ 1)
              × (x.1.row.snoozed_until ≤ now)) in
      publish_cases secrets digest (λ x. x ≡ ok (t, p) → Counts (t, p)) source f now s
        (λ _ e. ground arith)
        λ registry _ _ old changed from n r en er _ e.
          let (same, change) = renewed_old source g now s old row changed at from in
          subst Counts (ok-injective e) (
            ground (
              arith,
              get-insert id id (renew g (digest (signed g)) changed n r now old) s.items,
              eq_iff id id,
            ),
            change,
            counted_revision changed old.revision r er
                ∙ ap (λ (x : Row). if changed then suc x.revision else x.revision) same,
            counted_recurrence (old.resolved == 0) old.recurrence n en
                ∙ ap (λ (x : Row). if x.resolved == 0 then x.recurrence else suc x.recurrence) same,
            refl,
            ap (λ (x : Row). x.id) same,
            ap (λ (x : Row). x.first_seen) same,
            ap (λ (x : Row). x.outcomes) same,
            λ told. ground arith,
          )
