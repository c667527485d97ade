-- ===== src/Broker/Settlement/Retries.antt =====
-- Failed attempts are bounded: every one of them uses up a budget, and a broken retry waits at
-- most thirty seconds.
use seele_shell.Prelude.{
  Bool, List, ℕ, arith, ◌-◌, ◌≡◌, ◌≤◌, refl, some, ◌+◌, ◌<◌, max, true, ◌^◌, false, length, ◌⊎◌,
  inl, none, ◌∷◌, [], if_cases, if◌then◌else◌, subst, sym, inr,
}
use seele_shell.Broker.Job.{Config, Job, finish, Clock, is_terminal, retrying}
use seele_shell.Broker.Settlement.{Outcome, settle_job, answered, retry_delay, broke}
use seele_shell.Broker.Scheduler.{begin}

-- What is left of the two budgets of a job.
pub budget : Config → Job → ℕ
budget config j = (3 - j.transient) + (max 1 config.schema_attempts - j.invalid_outputs)

pub is_success : Outcome → Bool
is_success (answered (some v) usage) = true
is_success (answered none usage) = false
is_success (broke code) = false

-- The counters of a job that is not over.
pub record IsLive (config : Config) (j : Job) : Type 0 where
  pub transient_bounded : j.transient ≤ 2
  pub invalid_bounded : j.invalid_outputs < max 1 config.schema_attempts

-- Of a live job, an outcome ends it or makes it wait for a retry; a retry uses up the budget,
-- leaves the job live, and starts within the backoff of the failures so far, thirty seconds at
-- most.
pub settle_job_ends :
    (config : Config) (o : Outcome) (c : Clock) (j : Job)
    → config.schema_attempts < 2 ^ 32
    → IsLive config j
    → (is_terminal (settle_job config o c j).phase ≡ true)
      ⊎ (((settle_job config o c j).phase ≡ retrying)
          × (is_success o ≡ false)
          × (budget config (settle_job config o c j) < budget config j)
          × IsLive config (settle_job config o c j)
          × ((settle_job config o c j).ready
              ≡ c.instant + retry_delay config (settle_job config o c j).transient)
          × (retry_delay config (settle_job config o c j).transient ≤ 30000))
unfolding settle_job budget is_success finish retry_delay
settle_job_ends config (answered (some v) usage) c j fits h = inl refl
settle_job_ends config (answered none usage) c j fits h = ground arith
settle_job_ends config (broke code) c j fits h = ground arith

-- A job's attempts one after the other, until it is over.
pub attempt_all : Config → List (Clock × Outcome) → Job → Job
attempt_all config [] j = j
attempt_all config ((c, o) ∷ rest) j =
    let next = attempt_all config rest (settle_job config o c (begin c.wall j)) in
    if is_terminal j.phase then j else next

begin-IsLive :
    (config : Config) (wall : ℕ) (j : Job) → IsLive config j → IsLive config (begin wall j)
unfolding begin
begin-IsLive config wall j h = ground arith

begin-budget :
    (config : Config) (wall : ℕ) (j : Job) → budget config (begin wall j) ≡ budget config j
unfolding begin budget
begin-budget config wall j = refl

over_stays :
    (config : Config) (rest : List (Clock × Outcome)) (j : Job)
    → is_terminal j.phase ≡ true
    → attempt_all config rest j ≡ j
unfolding attempt_all
over_stays config [] j h = refl
over_stays config ((c, o) ∷ rest) j h = rw h

live_budget : (config : Config) (j : Job) → IsLive config j → 2 ≤ budget config j
unfolding budget
live_budget config j h = omega arith

budget_bounded : (config : Config) (j : Job) → budget config j ≤ 3 + max 1 config.schema_attempts
unfolding budget
budget_bounded config j = omega arith

attempts_within :
    (config : Config) (rest : List (Clock × Outcome)) (j : Job)
    → config.schema_attempts < 2 ^ 32
    → IsLive config j
    → budget config j ≤ length rest + 1
    → is_terminal (attempt_all config rest j).phase ≡ true
unfolding attempt_all
attempts_within config [] j fits h b = absurd (omega (arith, live_budget config j h))
attempts_within config ((c, o) ∷ rest) j fits h b =
    let k = begin c.wall j in
    if_cases {A = Job} (λ x. is_terminal x.phase ≡ true) (is_terminal j.phase) _ _ (λ t. t)
      λ _. elim (settle_job_ends config o c k fits (begin-IsLive config c.wall j h)) [
        | inl over ↦
            subst (λ x. is_terminal x.phase ≡ true)
              (sym (over_stays config rest (settle_job config o c k) over)) over
        | inr (_, _, less, live, _, _) ↦
            attempts_within config rest (settle_job config o c k) fits live
              (omega (arith, less, begin-budget config c.wall j))
      ]

-- A job whose failure counters are below their limits is over after `2 + max 1 schema_attempts`
-- attempts, whatever they come to, with `schema_attempts` a 32-bit number.
pub attempts_end :
    (config : Config) (rest : List (Clock × Outcome)) (j : Job)
    → config.schema_attempts < 2 ^ 32
    → IsLive config j
    → 2 + max 1 config.schema_attempts ≤ length rest
    → is_terminal (attempt_all config rest j).phase ≡ true
attempts_end config rest j fits h n =
    attempts_within config rest j fits h (omega (arith, budget_bounded config j))
