-- ===== src/Maintenance/Service/Mirroring.antt =====
-- A check mirrors the report of its source.
use seele_shell.Prelude.{
  String, List, contains_key, Bool, insert, ℕ, ◌≡◌, false, str_eq, true, subst, ◌||◌, ◌∷◌,
  Bool-cases, [], arith, get, contains_key-get, inl, string_key, eq_iff, get-insert, if_cases, inr,
  ◌∙◌, refl,
}
use seele_shell.Maintenance.Model.{Text, Finding, ok, id_of, Result}
use seele_shell.Maintenance.Service.{Names}
use seele_shell.Maintenance.Publish.{Signed, publish}
use seele_shell.Maintenance.Service.Checks.{Stage, stage_report, stage_reports}
use seele_shell.Maintenance.Ids.{no_colon, id_of-injective}
use seele_shell.Maintenance.Invariant.{WellFormed, is_open}
use seele_shell.Maintenance.Renewal.{ok-injective}
use seele_shell.Maintenance.Changes.{result_cases, Holds}
use seele_shell.Maintenance.Reachable.{publish-Holds}
use seele_shell.Maintenance.Service.Openness.{publish_open}

pub is_reported : String → List Finding → Bool
is_reported k [] = false
is_reported k (f ∷ fs) = str_eq f.key k || is_reported k fs

pub contains_key-insert :
    (k j : String) (m : Names) → contains_key j (insert k tt m) ≡ (str_eq k j || contains_key j m)
contains_key-insert k j m =
    ground (arith, contains_key-get j (insert k tt m), contains_key-get j m, get-insert k j tt m)

module _ (secrets : Text → Text) (digest : Signed → String) where
  -- What a stage has done since `start`, after the findings `fs`.
  pub record IsStaged (source : String) (start : Stage) (fs : List Finding) (st : Stage)
      : Type 0 where
    pub sound : WellFormed st.inbox
    pub same_registrations : st.inbox.registrations ≡ start.inbox.registrations
    pub opened :
        (k : String)
        → no_colon source ≡ true
        → is_open (get (id_of source k) st.inbox.items)
          ≡ (is_reported k fs || is_open (get (id_of source k) start.inbox.items))
    pub seen_all :
        (k : String) → contains_key k st.seen ≡ (is_reported k fs || contains_key k start.seen)

  pub id_of-str_eq :
      (source k l : String)
      → no_colon source ≡ true
      → str_eq (id_of source k) (id_of source l) ≡ str_eq k l
  id_of-str_eq source k l plain = elim (Bool-cases (str_eq k l)) [
    | inl t ↦ ground (arith, t, eq_iff k l, eq_iff (id_of source k) (id_of source l))
    | inr n ↦ elim (Bool-cases (str_eq (id_of source k) (id_of source l))) [
      | inl t ↦
          let same =
            id_of-injective source source k l plain plain
              ((eq_iff (id_of source k) (id_of source l)).0 t) in
          absurd (ground (arith, n, eq_iff k l, same.1))
      | inr m ↦ ground (arith, n, m)
    ]
  ]

  stage_report-IsStaged :
      (source : String) (now : ℕ) (f : Finding) (st next : Stage)
      → WellFormed st.inbox
      → stage_report secrets digest source now f st ≡ ok next
      → IsStaged source st (f ∷ []) next
  unfolding stage_report is_reported
  stage_report-IsStaged source now f st next h =
      let P : Result Stage → Type 0 = λ x. x ≡ ok next → IsStaged source st (f ∷ []) next in
      if_cases P (contains_key f.key st.seen) _ _ (λ _ e. ground arith)
        λ _.
          result_cases P (publish secrets digest source f now st.inbox) _ _ (λ _ e. ground arith)
            λ r published e. subst (IsStaged source st (f ∷ [])) (ok-injective e) (record {
              sound =
                  subst (Holds (λ x. WellFormed x.0)) published
                    (publish-Holds secrets digest source f now st.inbox h);
              same_registrations =
                  (publish_open secrets digest source "" f now st.inbox r.0 r.1 published).1;
              opened = λ k plain. ground (
                arith,
                id_of-str_eq source f.key k plain,
                (publish_open secrets digest source (id_of source k) f now st.inbox r.0 r.1
                    published).0,
              );
              seen_all = λ k. ground (arith, contains_key-insert f.key k st.seen);
            })

  pub stage_reports-IsStaged :
      (source : String) (now : ℕ) (fs : List Finding) (st last : Stage)
      → WellFormed st.inbox
      → stage_reports secrets digest source now fs st ≡ ok last
      → IsStaged source st fs last
  unfolding stage_reports is_reported
  stage_reports-IsStaged source now [] st last h = λ e.
      subst (IsStaged source st []) (ok-injective e) (record {
        sound = h;
        same_registrations = refl;
        opened = λ k _. refl;
        seen_all = λ k. refl;
      })
  stage_reports-IsStaged source now (f ∷ fs) st last h =
      let P : Result Stage → Type 0 = λ x. x ≡ ok last → IsStaged source st (f ∷ fs) last in
      result_cases P (stage_report secrets digest source now f st) _ _ (λ _ e. ground arith)
        λ next staged e.
          let a = stage_report-IsStaged source now f st next h staged in
          let b = stage_reports-IsStaged source now fs next last a.sound e in
          record {
            sound = b.sound;
            same_registrations = b.same_registrations ∙ a.same_registrations;
            opened = λ k plain. ground (arith, b.opened k plain, a.opened k plain);
            seen_all = λ k. ground (arith, b.seen_all k, a.seen_all k);
          }
