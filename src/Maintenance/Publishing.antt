-- ===== src/Maintenance/Publishing.antt =====
-- The branches of `publish`.
use seele_shell.Prelude.{
  String, Bool, ℕ, Option, if◌then◌else◌, some, get, ◌≡◌, insert, ◌⊎◌, none, length, string_key,
  ◌<◌, true, ◌==◌, not, option_cases, false, arith, if_cases, leb, inr, inl, refl,
}
use seele_shell.Maintenance.Model.{
  Text, Finding, Result, Row, id_of, max_items, Failure, err, Registry, ok, revision_limit,
  unregistered_source, invalid_finding, capacity,
}
use seele_shell.Maintenance.Inbox.{Inbox}
use seele_shell.Maintenance.Publish.{
  Signed, publish, stage, enter, Published, checked_increment, renew, signed, is_changed,
  put_diagnostic, announces, fresh_row, refusal, cleaned, is_nil,
}

module _ (secrets : Text → Text) (digest : Signed → String) where
  -- The row that a cleaned finding `f` renews, and whether it changes.
  abbrev pub IsOld : String → Finding → ℕ → Inbox → Row → Bool → Type 0
  IsOld source f now s old changed =
      let id = id_of source f.key in
      ((get id s.items ≡ some old) × (changed ≡ is_changed (digest (signed f)) (some old)))
      ⊎ ((get id s.items ≡ none)
          × (length s.items < max_items)
          × (old ≡ fresh_row id source f now)
          × (changed ≡ true))

  abbrev pub counted : Bool → ℕ → Option ℕ
  counted b n = if b then some n else checked_increment n

  -- What a success leaves.
  abbrev pub done : String → Finding → ℕ → Inbox → Row → Bool → ℕ → ℕ → Inbox × Published
  done source f now s old changed recurrence revision =
      let id = id_of source f.key in
      let row = renew f (digest (signed f)) changed recurrence revision now old in
      (
        record s {
          diagnostics = put_diagnostic id f.diagnostic s.diagnostics;
          items = insert id row s.items;
        },
        record { row = row; notify = announces changed now row; changed = changed },
      )

  stage_cases {ℓ} :
      (P : Result (Inbox × Published) → Type ℓ) (source : String) (f : Finding) (now : ℕ)
      (s : Inbox) (old : Row) (changed : Bool)
      → ((e : Failure) → P (err e))
      → ((recurrence revision : ℕ)
          → counted (old.resolved == 0) old.recurrence ≡ some recurrence
          → counted (not changed) old.revision ≡ some revision
          → P (ok (done source f now s old changed recurrence revision)))
      → P (stage (id_of source f.key) f (digest (signed f)) changed now old s)
  unfolding stage
  stage_cases P source f now s old changed fails succeeds =
      option_cases P (counted (old.resolved == 0) old.recurrence) _ _ (λ _. fails revision_limit)
        λ recurrence e.
          option_cases P (if changed then checked_increment old.revision else some old.revision) _ _
            (λ _. fails revision_limit) λ revision g. succeeds recurrence revision e (ground arith)

  pub publish_cases {ℓ} :
      (P : Result (Inbox × Published) → Type ℓ) (source : String) (finding : Finding) (now : ℕ)
      (s : Inbox)
      → ((e : Failure) → P (err e))
      → ((registry : Registry)
          → get source s.registrations ≡ some registry
          → refusal registry finding ≡ none
          → (old : Row) (changed : Bool)
          → IsOld source (cleaned secrets digest finding) now s old changed
          → (recurrence revision : ℕ) → counted (old.resolved == 0) old.recurrence ≡ some recurrence
          → counted (not changed) old.revision ≡ some revision
          → is_nil (cleaned secrets digest finding).title ≡ false
          → P (
              ok (
                done source
                  (cleaned secrets digest finding)
                  now
                  s
                  old
                  changed
                  recurrence
                  revision)))
      → P (publish secrets digest source finding now s)
  unfolding publish enter
  publish_cases P source finding now s fails succeeds =
      let f = cleaned secrets digest finding in
      let id = id_of source f.key in
      option_cases P (get source s.registrations) _ _ (λ _. fails unregistered_source)
        λ registry at.
          option_cases P (refusal registry finding) _ _
            (λ accepted.
              if_cases P (is_nil f.title) _ _ (λ _. fails invalid_finding)
                λ titled.
                  option_cases P (get id s.items) _ _
                    (λ new.
                      if_cases P (leb max_items (length s.items)) _ _ (λ _. fails capacity)
                        λ room.
                          stage_cases P source f now s (fresh_row id source f now) true fails
                            λ n r en er.
                              succeeds registry at accepted _ _
                                (inr (new, ground arith, refl, refl)) n r en er titled)
                    λ old known.
                      stage_cases P source f now s old (is_changed (digest (signed f)) (some old))
                        fails
                        λ n r en er.
                          succeeds registry at accepted _ _ (inl (known, refl)) n r en er titled)
            λ e _. fails e
