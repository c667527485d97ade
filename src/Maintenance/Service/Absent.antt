-- ===== src/Maintenance/Service/Absent.antt =====
-- The rows that a report leaves out are resolved.
use seele_shell.Prelude.{
  String, List, Bool, false, ℕ, ◌∷◌, contains_key, get, str_eq, ◌<◌, ◌||◌, ◌≡◌, [], some, true, map,
  subst, retain, arith, values, ◌&&◌, Bool-cases, eq_iff, not, ap, inl, string_key, inr, refl,
  Option-cases, Entries-get, sym,
}
use seele_shell.Maintenance.Model.{Text, Finding, Row, ok, id_of, Result}
use seele_shell.Maintenance.Publish.{Signed}
use seele_shell.Maintenance.Service.Checks.{
  absent_keys, is_absent, mirror, resolve_all, Stage, stage_reports,
}
use seele_shell.Maintenance.Service.{Names}
use seele_shell.Maintenance.Inbox.{Inbox, resolve}
use seele_shell.Maintenance.Invariant.{WellFormed, is_open, IsFiled}
use seele_shell.Maintenance.Ids.{no_colon, id_of-injective}
use seele_shell.Maintenance.Service.Mirroring.{
  IsStaged, is_reported, stage_reports-IsStaged, id_of-str_eq,
}
use seele_shell.Maintenance.Renewal.{ok-injective}
use seele_shell.Maintenance.Changes.{result_cases, Holds, resolve-Holds}
use seele_shell.Maintenance.Service.Openness.{resolve_open}
use seele_shell.Maintenance.Keeps.{registered-no_colon}

is_listed : String → List String → Bool
is_listed k [] = false
is_listed k (a ∷ as_) = str_eq a k || is_listed k as_

module _ (secrets : Text → Text) (digest : Signed → String) where
  seen_not_listed :
      (source k : String) (seen : Names) (rows : List Row)
      → contains_key k seen ≡ true
      → is_listed k (map (λ (r : Row). r.key) (retain (is_absent secrets digest source seen) rows))
        ≡ false
  unfolding is_absent is_listed
  seen_not_listed source k seen [] h = refl
  seen_not_listed source k seen (r ∷ rs) h =
      ground (arith, seen_not_listed source k seen rs h, eq_iff r.key k)

  absent_listed :
      (source k id : String) (seen : Names) (m : List (String × Row)) (row : Row)
      → get id m ≡ some row
      → row.source ≡ source
      → row.key ≡ k
      → contains_key k seen ≡ false
      → is_listed k
          (map (λ (r : Row). r.key) (retain (is_absent secrets digest source seen) (values m)))
        ≡ true
  unfolding is_absent is_listed
  absent_listed source k id seen [] row at from key new = absurd (ground arith)
  absent_listed source k id seen ((j, r) ∷ m) row at from key new =
      ground (arith, absent_listed source k id seen m row, eq_iff r.source source, eq_iff r.key k)

  resolve_all-WellFormed :
      (source : String) (now : ℕ) (ks : List String) (s t : Inbox) (b c : Bool)
      → WellFormed s
      → resolve_all secrets digest source now ks (s, b) ≡ ok (t, c)
      → WellFormed t
  unfolding resolve_all
  resolve_all-WellFormed source now [] s t b c h =
      λ e. subst (λ (x : Inbox × Bool). WellFormed x.0) (ok-injective e) h
  resolve_all-WellFormed source now (k ∷ ks) s t b c h =
      let P : Result (Inbox × Bool) → Type 0 = λ x. x ≡ ok (t, c) → WellFormed t in
      result_cases P (resolve source k now s) _ _ (λ _ e. ground arith)
        λ r at.
          resolve_all-WellFormed source now ks r.0 t (b || r.1) c
            (subst (Holds (λ x. WellFormed x.0)) at (resolve-Holds source k now s h))

  resolve_all_open :
      (source l : String) (now : ℕ) (ks : List String) (s t : Inbox) (b c : Bool)
      → 0 < now
      → no_colon source ≡ true
      → resolve_all secrets digest source now ks (s, b) ≡ ok (t, c)
      → is_open (get (id_of source l) t.items)
        ≡ (is_open (get (id_of source l) s.items) && not (is_listed l ks))
  unfolding resolve_all is_listed
  resolve_all_open source l now [] s t b c late plain = λ e.
      ground (
        arith,
        ap (λ (x : Inbox × Bool). is_open (get (id_of source l) x.0.items)) (ok-injective e),
      )
  resolve_all_open source l now (k ∷ ks) s t b c late plain =
      let P : Result (Inbox × Bool) → Type 0 = λ x.
        x ≡ ok (t, c)
        → is_open (get (id_of source l) t.items)
          ≡ (is_open (get (id_of source l) s.items) && not (str_eq k l || is_listed l ks)) in
      result_cases P (resolve source k now s) _ _ (λ _ e. ground arith)
        λ r at e. ground (
          arith,
          resolve_all_open source l now ks r.0 t (b || r.1) c late plain e,
          resolve_open source k (id_of source l) now s r.0 r.1 late at,
          id_of-str_eq secrets digest source k l plain,
        )

  -- A stage, its absent keys resolved.
  finished_open :
      (source k : String) (now : ℕ) (reports : List Finding) (s : Inbox) (st : Stage) (t : Inbox)
      (c : Bool)
      → 0 < now
      → no_colon source ≡ true
      → IsStaged secrets digest source
          (record { inbox = s; seen = []; notifications = []; dirty = false })
          reports
          st
      → resolve_all secrets digest source now
          (absent_keys secrets digest source st)
          (st.inbox, st.dirty)
        ≡ ok (t, c)
      → is_open (get (id_of source k) t.items) ≡ is_reported k reports
  unfolding absent_keys
  finished_open source k now reports s st t c late plain staged e =
      let id = id_of source k in
      let closed =
        resolve_all_open source k now (absent_keys secrets digest source st) st.inbox t st.dirty c
          late plain e in
      elim (Bool-cases (is_reported k reports)) [
        | inl told ↦ ground (
          arith,
          closed,
          told,
          staged.opened k plain,
          seen_not_listed source k st.seen (values st.inbox.items)
              (ground (arith, staged.seen_all k, told)),
        )
        | inr quiet ↦ elim (Option-cases (get id st.inbox.items)) [
          | inl n ↦ ground (arith, closed, quiet, n)
          | inr (row, at) ↦
              let filed =
                Entries-get (IsFiled st.inbox.registrations) id st.inbox.items staged.sound.filed
                  at in
              let same =
                id_of-injective source row.source k row.key plain
                  (registered-no_colon st.inbox row.source staged.sound filed.registered)
                  filed.spelled in
              ground (
                arith,
                closed,
                quiet,
                absent_listed source k id st.seen st.inbox.items row at (sym same.0) (sym same.1)
                    (ground (arith, staged.seen_all k, quiet)),
              )
        ]
      ]

  -- What a report leaves in the copy of the inbox.
  pub mirror_open :
      (source : String) (now : ℕ) (reports : List Finding) (s t : Inbox) (c : Bool)
      (rows : List Row)
      → 0 < now
      → no_colon source ≡ true
      → WellFormed s
      → mirror secrets digest source now reports s ≡ ok ((t, c), rows)
      → WellFormed t
        × ((k : String) → is_open (get (id_of source k) t.items) ≡ is_reported k reports)
  unfolding mirror
  mirror_open source now reports s t c rows late plain h =
      let start : Stage = record { inbox = s; seen = []; notifications = []; dirty = false } in
      let Good : Inbox → Type 0 = λ u.
        WellFormed u
        × ((k : String) → is_open (get (id_of source k) u.items) ≡ is_reported k reports) in
      let P : Result ((Inbox × Bool) × List Row) → Type 0 = λ x. x ≡ ok ((t, c), rows) → Good t in
      result_cases P (stage_reports secrets digest source now reports start) _ _
        (λ _ e. ground arith)
        λ st staged.
          let is = stage_reports-IsStaged secrets digest source now reports start st h staged in
          result_cases P
            (resolve_all secrets digest source now (absent_keys secrets digest source st)
              (st.inbox, st.dirty))
            _ _ (λ _ e. ground arith)
            λ r resolved e.
              subst Good (ap (λ (x : (Inbox × Bool) × List Row). x.0.0) (ok-injective e)) (
                resolve_all-WellFormed source now _ st.inbox r.0 st.dirty r.1 is.sound resolved,
                λ k. finished_open source k now reports s st r.0 r.1 late plain is resolved,
              )
