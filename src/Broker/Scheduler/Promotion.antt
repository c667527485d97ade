-- ===== src/Broker/Scheduler/Promotion.antt =====
-- A promoted job is the next to run.
use seele_shell.Prelude.{
  String, Entries, first, ◌≡◌, false, true, ◌+◌, get, some, Bool-cases, string_key, Entries-get,
  str_eq, inl, Entries-adjust, arith, get-adjust, inr, refl, ap,
}
use seele_shell.Broker.Job.{Config, Clock, Job, u64, queued, is_queued}
use seele_shell.Broker.Scheduler.{requeue, State, queue, pick, queue_le, run_job, wake}
use seele_shell.Broker.Invariant.{Store}
use seele_shell.Broker.Validation.{Request}
use seele_shell.Broker.Scheduler.Order.{queue-head, queue-empty}
use seele_shell.Broker.Scheduler.Keeps.{wake_keeps, pick_cases}

-- `id` is queued and promoted, and no other job is promoted.
pub record IsNext (id : String) (s : State) : Type 0 where
  pub alone : Entries (λ k j. j.promoted ≡ true → k ≡ id) s.jobs
  pub job : Job
  pub at : get id s.jobs ≡ some job
  pub waiting : job.phase ≡ queued
  pub promoted : job.promoted ≡ true

requeue-IsNext : (id : String) (s : State) (j : Job) → IsNext id s → IsNext id (requeue s j)
unfolding requeue
requeue-IsNext id s j h =
    let n = u64 (s.sequence + 1) in
    let f = λ (k : Job). record k { phase = queued; sequence = n } in
    elim (Bool-cases (str_eq j.id id)) [
      | inl t ↦ record {
        alone = Entries-adjust _ j.id f s.jobs (λ k e p. p) h.alone;
        job = f h.job;
        at = ground (arith, get-adjust j.id id f s.jobs, h.at);
        waiting = refl;
        promoted = h.promoted;
      }
      | inr t ↦ record {
        alone = Entries-adjust _ j.id f s.jobs (λ k e p. p) h.alone;
        job = h.job;
        at = ground (arith, get-adjust j.id id f s.jobs, h.at);
        waiting = h.waiting;
        promoted = h.promoted;
      }
    ]

promoted_of : (j k : Job) → queue_le j k ≡ true → k.promoted ≡ true → j.promoted ≡ true
unfolding queue_le
promoted_of j k h p = ground arith

-- Of all jobs only the promoted one can be the head.
promoted_head :
    (id : String) (s : State) {j : Job}
    → IsNext id s
    → first (queue s) ≡ some j
    → get j.id s.jobs ≡ some j
    → j.id ≡ id
promoted_head id s {j} h f e =
    let before : queue_le j h.job ≡ true =
      Entries-get (λ k x. is_queued x.phase ≡ true → queue_le j x ≡ true) id s.jobs (queue-head s f)
        h.at (ground arith) in
    Entries-get (λ k x. x.promoted ≡ true → k ≡ id) j.id s.jobs h.alone e
      (promoted_of j h.job before h.promoted)

-- A worker that finds the broker open begins the promoted job.
pub pick-IsNext :
    (config : Config) (c : Clock) (id : String) (s : State)
    → Store config s.jobs
    → s.closed ≡ false
    → IsNext id s
    → (r : Request) × ((pick c s).1 ≡ run_job id r)
pick-IsNext config c id s h open_ n =
    let w = wake_keeps (IsNext id) config c.instant s (λ t j _. requeue-IsNext id t j) h n in
    pick_cases config (λ r. (q : Request) × (r.1 ≡ run_job id q)) c s h (λ e. cc)
      (λ e. absurd (
        ground (
          arith,
          w.waiting,
          Entries-get (λ k x. is_queued x.phase ≡ false) id (wake c.instant s).jobs
              (queue-empty (wake c.instant s) e) w.at,
        )))
      (λ j f at q.
        (j.request, ap (λ x. run_job x j.request) (promoted_head id (wake c.instant s) w f at)))
