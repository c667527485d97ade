-- ===== src/Broker/Actions/Promotion.antt =====
-- What `next` promises.
use seele_shell.Prelude.{
  String, get, ◌≡◌, false, some, adjust, map_values, Entries-adjust, true, Entries-map_values,
  Entries-unit, arith, get-adjust, get-map_values, eq_iff, string_key, refl, ap, subst,
}
use seele_shell.Broker.Job.{Config, Clock, Job, queued}
use seele_shell.Broker.Actions.{apply_action, act_on, demote, perform, refused}
use seele_shell.Broker.Scheduler.{State, pick, run_job}
use seele_shell.Broker.Turns.{Reply, next, replies, Turn}
use seele_shell.Broker.Invariant.{Store}
use seele_shell.Broker.Scheduler.Promotion.{IsNext, pick-IsNext}
use seele_shell.Broker.Validation.{Request}
use seele_shell.Broker.Actions.Keeps.{act_cases, perform-Store}

promoted-IsNext :
    (id : String) (c : Clock) (j : Job) (s : State)
    → get id s.jobs ≡ some j
    → j.phase ≡ queued
    → IsNext id (record s { jobs = adjust id (apply_action next c) (map_values demote s.jobs) })
unfolding apply_action
promoted-IsNext id c j s e q = record {
  alone =
      Entries-adjust (λ k x. x.promoted ≡ true → k ≡ id) id (apply_action next c)
        (map_values demote s.jobs) (λ _ _ _ _. refl)
        (Entries-map_values (λ _ _. Unit {0}) _ demote (λ k x _ p. cc) s.jobs
          (Entries-unit s.jobs));
  job = apply_action next c (demote j);
  at = ground (
    arith,
    get-adjust id id (apply_action next c) (map_values demote s.jobs),
    get-map_values id demote s.jobs,
    e,
    eq_iff id id,
  );
  waiting = q;
  promoted = refl;
}

-- A worker that picks when `next` was granted for a job, and nothing has happened since, begins this
-- job, however many jobs were queued, promoted or due in that state, unless the broker is closed.
pub next-pick :
    (config : Config) (c d : Clock) (id : String) (s t : State) (m : Reply)
    → Store config s.jobs
    → s.closed ≡ false
    → act_on config next c id s ≡ (t, replies m)
    → (r : Request) × ((pick d t).1 ≡ run_job id r)
unfolding perform refused
next-pick config c d id s t m h open_ =
    let Goal : State × Turn → Type 0 =
      λ r. r ≡ (t, replies m) → (q : Request) × ((pick d t).1 ≡ run_job id q) in
    act_cases Goal config next c id s (λ _ e. ground arith) (λ _ _ _ _ e. ground arith)
      (λ _ _ _ e. ground arith)
      λ j at ok _ e.
        let same : (perform config next c id j s).0 ≡ t = ap (λ (r : State × Turn). r.0) e in
        subst (λ x. (q : Request) × ((pick d x).1 ≡ run_job id q)) same
          (pick-IsNext config d id (perform config next c id j s).0
            (perform-Store config next c id j s ok at h) open_
            (promoted-IsNext id c j s at (ground arith)))
