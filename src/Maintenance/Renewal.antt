-- ===== src/Maintenance/Renewal.antt =====
-- What publishing a finding promises.
use seele_shell.Prelude.{
  ℕ, ltb, ◌≡◌, String, ap, false, Bool, arith, if◌then◌else◌, get, subst, some, none, string_key,
  refl, insert, ◌∙◌, get-insert, eq_iff,
}
use seele_shell.Maintenance.Model.{Text, ok, Finding, err, Row, urgency_rank, Registry, id_of}
use seele_shell.Maintenance.Inbox.{Inbox}
use seele_shell.Maintenance.Publish.{
  renew, Signed, enter, publish, Published, stage, announces, is_nil, is_changed, refusal, signed,
  cleaned, put_diagnostic,
}
use seele_shell.Maintenance.Publishing.{publish_cases, done}

same_not_less : (n : ℕ) → ltb n n ≡ false
same_not_less n = ground arith

pub ok-injective {ℓ} : {A : Type ℓ} {a b : A} → ok a ≡ ok b → a ≡ b
ok-injective {a = a} e = ap (λ r. elim r [ ok x ↦ x | err _ ↦ a ]) e

renew_again :
    (f : Finding) (signature : String) (changed : Bool) (n r now later : ℕ) (old : Row)
    → renew f signature false n r later (renew f signature changed n r now old)
      ≡ renew f signature changed n r now old
unfolding renew
renew_again f signature changed n r now later old =
    ap
      (λ b. record (renew f signature changed n r now old) {
        snoozed_until = if b then 0 else (renew f signature changed n r now old).snoozed_until;
      })
      (same_not_less (urgency_rank f.urgency))

module _ (secrets : Text → Text) (digest : Signed → String) where
  enter_same :
      (source : String) (f : Finding) (later : ℕ) (s : Inbox) (row : Row)
      → is_nil f.title ≡ false
      → get (id_of source f.key) s.items ≡ some row
      → is_changed (digest (signed f)) (some row) ≡ false
      → enter secrets digest source f later s
        ≡ stage (id_of source f.key) f (digest (signed f)) false later row s
  unfolding enter
  enter_same source f later s row titled at same = rw titled (rw at (rw same refl))

  publish-enter :
      (source : String) (registry : Registry) (finding : Finding) (later : ℕ) (s : Inbox)
      → get source s.registrations ≡ some registry
      → refusal registry finding ≡ none
      → publish secrets digest source finding later s
        ≡ enter secrets digest source (cleaned secrets digest finding) later s
  unfolding publish
  publish-enter source registry finding later s at accepted = ground (arith, at, accepted)

  republish_done :
      (source : String) (registry : Registry) (finding : Finding) (now later : ℕ) (s : Inbox)
      (old : Row) (changed : Bool) (n r : ℕ)
      → get source s.registrations ≡ some registry
      → refusal registry finding ≡ none
      → is_nil (cleaned secrets digest finding).title ≡ false
      → let (t, p) =
          done secrets digest source (cleaned secrets digest finding) now s old changed n r in
        (u : Inbox) × (publish secrets digest source finding later t
          ≡ ok (u, record { row = p.row; notify = false; changed = false }))
  unfolding renew stage announces is_changed
  republish_done source registry finding now later s old changed n r at accepted titled =
      let f = cleaned secrets digest finding in
      let id = id_of source f.key in
      let row = renew f (digest (signed f)) changed n r now old in
      let t = (done secrets digest source f now s old changed n r).0 in
      let again : Row → Inbox × Published = λ x. (
        record t {
          diagnostics = put_diagnostic id f.diagnostic t.diagnostics;
          items = insert id x t.items;
        },
        record { row = x; notify = false; changed = false },
      ) in
      (
        (again row).0,
        publish-enter source registry finding later t at accepted
            ∙ enter_same source f later t row titled
                (ground (arith, get-insert id id row s.items, eq_iff id id))
                (ground (arith, eq_iff (digest (signed f)) (digest (signed f))))
            ∙ ap (λ x. ok (again x)) (renew_again f (digest (signed f)) changed n r now later old),
      )

  -- Publishing the same finding again, at any time, succeeds, announces nothing, and leaves the
  -- row as the first time left it.
  pub republish :
      (source : String) (f : Finding) (now later : ℕ) (s t : Inbox) (p : Published)
      → publish secrets digest source f now s ≡ ok (t, p)
      → (u : Inbox) × (publish secrets digest source f later t
          ≡ ok (u, record { row = p.row; notify = false; changed = false }))
  republish source f now later s t p =
      let Again : Inbox × Published → Type 0 = λ x.
        (u : Inbox) × (publish secrets digest source f later x.0
          ≡ ok (u, record { row = x.1.row; notify = false; changed = false })) in
      publish_cases secrets digest (λ x. x ≡ ok (t, p) → Again (t, p)) source f now s
        (λ _ e. ground arith)
        λ registry at accepted old changed _ n r _ _ titled e.
          subst Again (ok-injective e)
            (republish_done source registry f now later s old changed n r at accepted titled)
