-- ===== src/Maintenance/Service/Openness.antt =====
-- Which rows of the inbox are open after `publish`, `resolve` and `prune`.
use seele_shell.Prelude.{
  String, ℕ, Bool, ◌<◌, ◌≡◌, get, if◌then◌else◌, str_eq, Option-cases, ap, false, inl, subst, sym,
  ◌||◌, arith, get-adjust, get-insert, get-map_values, if_cases, ◌∙◌, not, retain, contains_key,
  get-retain, inr, string_key, Entries-get, refl, option_cases, eq_iff, ◌==◌,
}
use seele_shell.Maintenance.Model.{Text, Finding, ok, Result, Row, id_of, valid_key}
use seele_shell.Maintenance.Inbox.{
  prune, resolve, resolve_id, prune_row, keeps_row, Inbox, close_row,
}
use seele_shell.Maintenance.Publish.{Signed, renew, cleaned, Published, publish, signed}
use seele_shell.Maintenance.Invariant.{WellFormed, is_open, IsFiled}
use seele_shell.Maintenance.Renewal.{ok-injective}
use seele_shell.Maintenance.Publishing.{publish_cases}

resolved_open :
    (id j : String) (now : ℕ) (s : Inbox)
    → 0 < now
    → is_open (get j (resolve_id id now s).items)
      ≡ (if str_eq id j then false else is_open (get j s.items))
unfolding resolve_id
resolved_open id j now s late = elim (Option-cases (get j s.items)) [
  | inl n ↦ ground (arith, n, get-adjust id j (close_row now) s.items)
  | inr (row, at) ↦ ground (arith, at, get-adjust id j (close_row now) s.items)
]

-- `resolve` closes the row of its id and no other.
pub resolve_open :
    (source key j : String) (now : ℕ) (s t : Inbox) (b : Bool)
    → 0 < now
    → resolve source key now s ≡ ok (t, b)
    → (is_open (get j t.items)
        ≡ (if str_eq (id_of source key) j then false else is_open (get j s.items)))
unfolding resolve
resolve_open source key j now s t b late =
    let id = id_of source key in
    let Closed : Inbox → Type 0 =
      λ u. is_open (get j u.items) ≡ (if str_eq id j then false else is_open (get j s.items)) in
    let P : Result (Inbox × Bool) → Type 0 = λ x. x ≡ ok (t, b) → Closed t in
    let moved : (u : Inbox) (c : Bool) → ok (u, c) ≡ ok (t, b) → Closed u → Closed t =
      λ u c e h. subst Closed (ap (λ (x : Inbox × Bool). x.0) (ok-injective e)) h in
    if_cases P (not (contains_key source s.registrations)) _ _ (λ _ e. ground arith)
      λ _.
        if_cases P (not (valid_key key)) _ _ (λ _ e. ground arith)
          λ _.
            option_cases P (get id s.items) _ _
              (λ n e. moved _ _ e (ground (arith, n, eq_iff id j)))
              λ row at.
                if_cases P (row.resolved == 0) _ _
                  (λ _ e. moved _ _ e (resolved_open id j now s late))
                  (λ c e. moved _ _ e (ground (arith, at, c, eq_iff id j)))

pub resolve_registrations :
    (source key : String) (now : ℕ) (s t : Inbox) (b : Bool)
    → resolve source key now s ≡ ok (t, b)
    → t.registrations ≡ s.registrations
unfolding resolve resolve_id
resolve_registrations source key now s t b =
    let P : Result (Inbox × Bool) → Type 0 =
      λ x. x ≡ ok (t, b) → t.registrations ≡ s.registrations in
    let same : (u : Inbox) (c : Bool)
        → u.registrations ≡ s.registrations
        → ok (u, c) ≡ ok (t, b)
        → t.registrations ≡ s.registrations =
      λ u c h e. ap (λ (x : Inbox × Bool). x.0.registrations) (sym (ok-injective e)) ∙ h in
    if_cases P (not (contains_key source s.registrations)) _ _ (λ _ e. ground arith)
      λ _.
        if_cases P (not (valid_key key)) _ _ (λ _ e. ground arith)
          λ _.
            option_cases P (get (id_of source key) s.items) _ _ (λ _. same _ _ refl)
              λ row _. if_cases P (row.resolved == 0) _ _ (λ _. same _ _ refl) (λ _. same _ _ refl)

module _ (secrets : Text → Text) (digest : Signed → String) where
  -- `publish` opens the row of its id and no other.
  pub publish_open :
      (source j : String) (f : Finding) (now : ℕ) (s t : Inbox) (p : Published)
      → publish secrets digest source f now s ≡ ok (t, p)
      → (is_open (get j t.items) ≡ (str_eq (id_of source f.key) j || is_open (get j s.items)))
        × (t.registrations ≡ s.registrations)
  unfolding renew cleaned
  publish_open source j f now s t p =
      let g = cleaned secrets digest f in
      let id = id_of source f.key in
      let Opened : Inbox × Published → Type 0 = λ x.
        (is_open (get j x.0.items) ≡ (str_eq id j || is_open (get j s.items)))
        × (x.0.registrations ≡ s.registrations) in
      publish_cases secrets digest (λ x. x ≡ ok (t, p) → Opened (t, p)) source f now s
        (λ _ e. ground arith)
        λ registry _ _ old changed _ n r _ _ _ e. subst Opened (ok-injective e) (
          ground (arith, get-insert id j (renew g (digest (signed g)) changed n r now old) s.items),
          refl,
        )

-- Pruning keeps every open row, for its source is registered.
pub prune_open :
    (now : ℕ) (j : String) (s : Inbox)
    → WellFormed s
    → is_open (get j (prune now s).items) ≡ is_open (get j s.items)
unfolding prune prune_row keeps_row
prune_open now j s h =
    let p : String × Row → Bool = λ e. keeps_row s now e.1 in
    elim (Option-cases (get j s.items)) [
      | inl n ↦ ground (
        arith,
        n,
        get-map_values j (prune_row now) (retain p s.items),
        get-retain p j s.items h.distinct,
      )
      | inr (row, at) ↦ ground (
        arith,
        at,
        (Entries-get (IsFiled s.registrations) j s.items h.filed at).registered,
        get-map_values j (prune_row now) (retain p s.items),
        get-retain p j s.items h.distinct,
      )
    ]
