-- ===== src/Maintenance/Service/Serving.antt =====
-- The histories of the service.
use seele_shell.Prelude.{
  Bool, String, ℕ, List, length, ◌∷◌, ◌≤◌, [], if_cases, contains_key, false, ◌||◌, subst,
  string_key,
}
use seele_shell.Maintenance.Service.{Names, State, Storage, commit}
use seele_shell.Maintenance.Model.{Result, Text, Finding, ok, err, Row}
use seele_shell.Maintenance.Changes.{Holds, outcome-WellFormed, resolve-Holds, result_cases}
use seele_shell.Maintenance.Inbox.{Inbox, outcome, prune, resolve}
use seele_shell.Maintenance.Publish.{Signed, publish}
use seele_shell.Maintenance.Invariant.{WellFormed}
use seele_shell.Maintenance.Service.Tidiness.{
  Tidy, outcome-Tidy, prune-Tidy, resolve-Tidy, publish-Tidy,
}
use seele_shell.Maintenance.Service.Checks.{
  mirror, resolve_all, stage_reports, apply_reports, stage_report, Stage, absent_keys,
}
use seele_shell.Maintenance.Service.Checked.{commit_cases, apply_cases}
use seele_shell.Maintenance.Pruning.{prune-WellFormed}
use seele_shell.Maintenance.Reachable.{publish-Holds}

-- What holds of the state between two critical sections.
pub record Steady (s : State) : Type 0 where
  pub sound : WellFormed s.inbox
  pub tidy : Tidy s.tasks s.inbox
  pub few : length s.tasks ≤ 8

abbrev pub Kept : Names → Inbox → Type 0
Kept tasks u = WellFormed u × Tidy tasks u

pub prune-Kept : (tasks : Names) (now : ℕ) (u : Inbox) → Kept tasks u → Kept tasks (prune now u)
prune-Kept tasks now u h = (prune-WellFormed now u h.0, prune-Tidy tasks now u h.0 h.1)

pub outcome-Kept :
    (tasks : Names) (id : String) (revision : ℕ) (action : String) (result : Text) (now : ℕ)
    (u : Inbox)
    → Kept tasks u
    → Kept tasks (outcome id revision action result now u)
outcome-Kept tasks id revision action result now u h = (
  outcome-WellFormed id revision action result now u h.0,
  outcome-Tidy tasks id revision action result now u h.1,
)

Holds-both {ℓ} :
    {A : Type ℓ} (P Q : A → Type 0) (r : Result A)
    → Holds P r
    → Holds Q r
    → Holds (λ a. P a × Q a) r
Holds-both P Q (ok a) p q = (p, q)
Holds-both P Q (err e) p q = tt

pub resolve-Kept :
    (tasks : Names) (source key : String) (now : ℕ) (u : Inbox)
    → Kept tasks u
    → Holds (λ x. Kept tasks x.0) (resolve source key now u)
resolve-Kept tasks source key now u h =
    Holds-both (λ x. WellFormed x.0) (λ x. Tidy tasks x.0) (resolve source key now u)
      (resolve-Holds source key now u h.0) (resolve-Tidy tasks source key now u h.1)

pub Steady-inbox :
    (s : State) (u : Inbox) → Steady s → Kept s.tasks u → Steady (record s { inbox = u })
Steady-inbox s u h k = record { sound = k.0; tidy = k.1; few = h.few }

pub commit-Steady :
    (disk : Storage) (dirty : Bool) (now : ℕ) (staged : Inbox) (s : State)
    → Steady s
    → Kept s.tasks staged
    → Steady (commit disk dirty now staged s).0
commit-Steady disk dirty now staged s h k =
    commit_cases (λ x. Steady x.0) disk dirty now staged s (λ _. h) (Steady-inbox s staged h k)
      (Steady-inbox s _ h (prune-Kept s.tasks now _ (prune-Kept s.tasks now staged k)))

module _ (secrets : Text → Text) (digest : Signed → String) where
  pub publish-Kept :
      (tasks : Names) (source : String) (f : Finding) (now : ℕ) (u : Inbox)
      → Kept tasks u
      → Holds (λ x. Kept tasks x.0) (publish secrets digest source f now u)
  publish-Kept tasks source f now u h =
      Holds-both (λ x. WellFormed x.0) (λ x. Tidy tasks x.0) (publish secrets digest source f now u)
        (publish-Holds secrets digest source f now u h.0)
        (publish-Tidy secrets digest tasks source f now u h.1)

  stage_reports-Kept :
      (tasks : Names) (source : String) (now : ℕ) (fs : List Finding) (st : Stage)
      → Kept tasks st.inbox
      → Holds (λ x. Kept tasks x.inbox) (stage_reports secrets digest source now fs st)
  unfolding stage_reports stage_report
  stage_reports-Kept tasks source now [] st h = h
  stage_reports-Kept tasks source now (f ∷ fs) st h =
      let P : Result Stage → Type 0 = Holds (λ (x : Stage). Kept tasks x.inbox) in
      let one : P (stage_report secrets digest source now f st) =
        if_cases P (contains_key f.key st.seen) _ _ (λ _. tt)
          λ _.
            result_cases P (publish secrets digest source f now st.inbox) _ _ (λ _. tt)
              λ r at.
                subst (Holds (λ x. Kept tasks x.0)) at
                  (publish-Kept tasks source f now st.inbox h) in
      result_cases P (stage_report secrets digest source now f st) _ _ (λ _. tt)
        λ next at. stage_reports-Kept tasks source now fs next (subst P at one)

  resolve_all-Kept :
      (tasks : Names) (source : String) (now : ℕ) (ks : List String) (u : Inbox) (b : Bool)
      → Kept tasks u
      → Holds (λ x. Kept tasks x.0) (resolve_all secrets digest source now ks (u, b))
  unfolding resolve_all
  resolve_all-Kept tasks source now [] u b h = h
  resolve_all-Kept tasks source now (k ∷ ks) u b h =
      let P : Result (Inbox × Bool) → Type 0 = Holds (λ x. Kept tasks x.0) in
      result_cases P (resolve source k now u) _ _ (λ _. tt)
        λ r at.
          resolve_all-Kept tasks source now ks r.0 (b || r.1)
            (subst P at (resolve-Kept tasks source k now u h))

  mirror-Kept :
      (tasks : Names) (source : String) (now : ℕ) (reports : List Finding) (u : Inbox)
      → Kept tasks u
      → Holds (λ x. Kept tasks x.0.0) (mirror secrets digest source now reports u)
  unfolding mirror
  mirror-Kept tasks source now reports u h =
      let start : Stage = record { inbox = u; seen = []; notifications = []; dirty = false } in
      let P : Result ((Inbox × Bool) × List Row) → Type 0 = Holds (λ x. Kept tasks x.0.0) in
      result_cases P (stage_reports secrets digest source now reports start) _ _ (λ _. tt)
        λ st at.
          result_cases P
            (resolve_all secrets digest source now (absent_keys secrets digest source st)
              (st.inbox, st.dirty))
            _ _ (λ _. tt)
            λ r resolved. subst (Holds (λ x. Kept tasks x.0)) resolved (
              resolve_all-Kept tasks source now _ st.inbox st.dirty (
                subst (Holds (λ (x : Stage). Kept tasks x.inbox)) at
                  (stage_reports-Kept tasks source now reports start h)))

  pub apply_reports-Steady :
      (disk : Storage) (source : String) (now : ℕ) (reports : Result (List Finding)) (s : State)
      → Steady s
      → Steady (apply_reports secrets digest disk source now reports s).0
  apply_reports-Steady disk source now reports s h =
      apply_cases secrets digest (λ x. Steady x.0) disk source now reports s (λ _. h)
        λ fs m _ at.
          let kept =
            subst (Holds (λ x. Kept s.tasks x.0.0)) at
              (mirror-Kept s.tasks source now fs s.inbox (h.sound, h.tidy)) in
          let twice = prune-Kept s.tasks now _ (prune-Kept s.tasks now m.0.0 kept) in
          (
            record { sound = kept.0; tidy = kept.1; few = h.few },
            record { sound = twice.0; tidy = twice.1; few = h.few },
          )
