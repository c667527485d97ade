-- ===== src/Maintenance/Service/Checked.antt =====
-- What a check leaves in the live inbox.
use seele_shell.Prelude.{
  String, List, Bool, ℕ, ◌<◌, contains_key, get, if◌then◌else◌, ◌≡◌, ltb, true, ◌∙◌, false,
  if_cases, string_key, length, subst, ap, arith, contains_key-remove, eq_iff, refl, remove, sym,
}
use seele_shell.Maintenance.Model.{
  Text, Finding, Result, Failure, Row, err, id_of, ok, state_capacity,
}
use seele_shell.Maintenance.Service.{commit, save, Storage, State, snapshot_limit}
use seele_shell.Maintenance.Publish.{Signed}
use seele_shell.Maintenance.Inbox.{persist, Inbox, prune}
use seele_shell.Maintenance.Snapshot.{snapshot}
use seele_shell.Maintenance.Service.Checks.{apply_reports, finish_check, mirror, end_check}
use seele_shell.Maintenance.Invariant.{WellFormed, is_open}
use seele_shell.Maintenance.Changes.{Holds, result_cases}
use seele_shell.Maintenance.Pruning.{prune-WellFormed}
use seele_shell.Maintenance.Ids.{no_colon}
use seele_shell.Maintenance.Service.Openness.{prune_open}
use seele_shell.Maintenance.Service.Mirroring.{is_reported}
use seele_shell.Maintenance.Service.Absent.{mirror_open}
use seele_shell.Maintenance.Keeps.{registered-no_colon}

saved_inbox :
    (P : Inbox → Type 0) (disk : Storage) (now : ℕ) (s : Inbox)
    → P (prune now s)
    → Holds P (save disk now s)
unfolding save persist
saved_inbox P disk now s h = ground arith

-- `commit` fails and leaves the state, or puts in place the copy, or the copy pruned twice.
pub commit_cases :
    (P : State × Result (Unit {0}) → Type 0) (disk : Storage) (dirty : Bool) (now : ℕ)
    (staged : Inbox) (s : State)
    → ((e : Failure) → P (s, err e))
    → P (record s { inbox = staged }, ok tt)
    → P (record s { inbox = prune now (prune now staged) }, ok tt)
    → P (commit disk dirty now staged s)
unfolding commit snapshot
commit_cases P disk dirty now staged s fails h k =
    let Q : Inbox → Type 0 = λ u. P (record s { inbox = u }, ok tt) in
    let is_large = ltb snapshot_limit (disk.snapshot_len (snapshot now staged).1) in
    let saved : Result Inbox =
      if is_large then err state_capacity else save disk now (snapshot now staged).0 in
    let inner : Holds Q (if dirty then saved else ok staged) =
      if_cases (Holds Q) dirty _ _
        (λ _.
          if_cases (Holds Q) is_large _ _ (λ _. tt)
            (λ _. saved_inbox Q disk now (prune now staged) k))
        (λ _. h) in
    result_cases P (if dirty then saved else ok staged) _ _ fails λ t at. subst (Holds Q) at inner

module _ (secrets : Text → Text) (digest : Signed → String) where
  -- A failure leaves the state; otherwise the mirror of the reports is put in place, or it pruned twice.
  pub apply_cases :
      (P : State × Result (List Row) → Type 0) (disk : Storage) (source : String) (now : ℕ)
      (reports : Result (List Finding)) (s : State)
      → ((e : Failure) → P (s, err e))
      → ((fs : List Finding) (m : (Inbox × Bool) × List Row)
          → reports ≡ ok fs
          → mirror secrets digest source now fs s.inbox ≡ ok m
          → P (record s { inbox = m.0.0; errors = remove source s.errors }, ok m.1)
            × P (
              record s { inbox = prune now (prune now m.0.0); errors = remove source s.errors },
              ok m.1,
            ))
      → P (apply_reports secrets digest disk source now reports s)
  unfolding apply_reports
  apply_cases P disk source now (err e) s fails done = fails e
  apply_cases P disk source now (ok fs) s fails done =
      if_cases P (ltb 512 (length fs)) _ _ (λ _. fails _)
        λ _. result_cases P (mirror secrets digest source now fs s.inbox) _ _ fails λ m at.
          let good = done fs m refl at in
          commit_cases
            (λ x. P (elim x.1 [
              | err e ↦ (x.0, err e)
              | ok _ ↦ (record (x.0) { errors = remove source x.0.errors }, ok m.1)
            ]))
            disk m.0.1 now m.0.0 s fails good.0 good.1

  -- The inbox of a state is well formed, and its open rows of `source` are those of the report.
  abbrev pub Mirrors : String → List Finding → Inbox → Type 0
  Mirrors source reports t =
      WellFormed t × ((k : String) → is_open (get (id_of source k) t.items) ≡ is_reported k reports)

  prune-Mirrors :
      (source : String) (reports : List Finding) (now : ℕ) (t : Inbox)
      → Mirrors source reports t
      → Mirrors source reports (prune now t)
  prune-Mirrors source reports now t h =
      (prune-WellFormed now t h.0, λ k. prune_open now (id_of source k) t h.0 ∙ h.1 k)

  abbrev Checked : String → List Finding → State → Type 0
  Checked source reports t = Mirrors source reports t.inbox × (contains_key source t.errors ≡ false)

  -- If the result is a success, the state satisfies `P`.
  abbrev Succeeds : (State → Type 0) → State × Result (List Row) → Type 0
  Succeeds P x = Holds (λ _. P x.0) x.1

  ok-injective : (a b : List Finding) → ok a ≡ ok b → a ≡ b
  ok-injective a b e = cc

  apply_reports-Checked :
      (disk : Storage) (source : String) (now : ℕ) (reports : List Finding) (s : State)
      → 0 < now
      → no_colon source ≡ true
      → WellFormed s.inbox
      → Succeeds
          (Checked source reports)
          (apply_reports secrets digest disk source now (ok reports) s)
  apply_reports-Checked disk source now reports s late plain h =
      apply_cases (Succeeds (Checked source reports)) disk source now (ok reports) s (λ _. tt)
        λ fs m same at.
          let good =
            subst (λ x. Mirrors source x m.0.0) (sym (ok-injective reports fs same))
              (mirror_open secrets digest source now fs s.inbox m.0.0 m.0.1 m.1 late plain h at) in
          let gone : contains_key source (remove source s.errors) ≡ false =
            ground (arith, contains_key-remove source source s.errors, eq_iff source source) in
          (
            (good, gone),
            (
              prune-Mirrors source reports now _ (prune-Mirrors source reports now m.0.0 good),
              gone,
            ),
          )

  -- After a check that succeeds, a key of its source has an open row exactly if the collector
  -- reported a finding with that key: the report is published as a whole, and what it leaves out
  -- is resolved. The time of the check is not 0, and the source is registered, so that its name has
  -- no colon.
  pub check_mirrors :
      (disk : Storage) (source : String) (now : ℕ) (reports : List Finding) (s t : State)
      (rows : List Row)
      → 0 < now
      → WellFormed s.inbox
      → contains_key source s.inbox.registrations ≡ true
      → finish_check secrets digest disk source now (ok reports) s ≡ (t, ok rows)
      → WellFormed t.inbox
        × (contains_key source t.errors ≡ false)
        × ((k : String) → is_open (get (id_of source k) t.inbox.items) ≡ is_reported k reports)
  unfolding finish_check end_check
  check_mirrors disk source now reports s t rows late h known =
      let plain = registered-no_colon s.inbox source h known in
      let Goal : State → Type 0 = λ x.
        WellFormed x.inbox
        × (contains_key source x.errors ≡ false)
        × ((k : String) → is_open (get (id_of source k) x.inbox.items) ≡ is_reported k reports) in
      let P : State × Result (List Row) → Type 0 = λ x. x ≡ (t, ok rows) → Goal t in
      let applied = apply_reports secrets digest disk source now (ok reports) s in
      let checked = apply_reports-Checked disk source now reports s late plain h in
      result_cases P applied.1 _ _ (λ _ e. ground arith)
        λ r at e.
          let c = subst (Holds (λ _. Checked source reports applied.0)) at checked in
          subst Goal (ap (λ (x : State × Result (List Row)). x.0) e) (c.0.0, c.1, c.0.1)
