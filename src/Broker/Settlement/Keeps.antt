-- ===== src/Broker/Settlement/Keeps.antt =====
-- The end of an attempt keeps its job sound.
use seele_shell.Prelude.{
  ◌<◌, ◌^◌, ◌≡◌, String, true, none, some, arith, get, false, adjust, option_cases, if_cases,
  string_key, refl,
}
use seele_shell.Broker.Validation.{Request}
use seele_shell.Broker.Job.{Job, Config, Clock, finish, is_running, terminal, is_terminal}
use seele_shell.Broker.Invariant.{IsSound, is_checked}
use seele_shell.Broker.Settlement.{
  Answer, refuses, returns, Outcome, broke, answered, settle_job, check_output, settle,
}
use seele_shell.Broker.Scheduler.{State}

-- An outcome that the request's own checks let through.
unfoldable pub IsChecked : Request → Outcome → Type 0
IsChecked r (broke code) = Unit {0}
IsChecked r (answered o usage) = is_checked r o ≡ true

pub check_output-IsChecked : (r : Request) (a : Answer) → IsChecked r (check_output r a)
unfolding check_output IsChecked
check_output-IsChecked r (refuses code) = tt
check_output-IsChecked r (returns v usage) = ground arith

pub settle_job-IsSound :
    (config : Config) (k : String) (o : Outcome) (c : Clock) (j : Job)
    → config.schema_attempts < 2 ^ 32
    → IsChecked j.request o
    → is_running j.phase ≡ true
    → IsSound config k j
    → IsSound config k (settle_job config o c j)
unfolding settle_job finish IsChecked
settle_job-IsSound config k (broke code) c j bound ok live h = ground arith
settle_job-IsSound config k (answered none usage) c j bound ok live h = ground arith
settle_job-IsSound config k (answered (some v) usage) c j bound ok live h = ground arith

pub settle_job-request :
    (config : Config) (o : Outcome) (c : Clock) (j : Job)
    → (settle_job config o c j).request ≡ j.request
unfolding settle_job finish
settle_job-request config (broke code) c j = ground arith
settle_job-request config (answered none usage) c j = ground arith
settle_job-request config (answered (some v) usage) c j = refl

pub settle_cases {ℓ} :
    (P : State → Type ℓ) (config : Config) (id : String) (o : Outcome) (c : Clock) (s : State)
    → P (record s { activity = c.instant })
    → ((j : Job)
        → get id s.jobs ≡ some j
        → is_terminal j.phase ≡ false
        → P (record s { activity = c.instant; jobs = adjust id (settle_job config o c) s.jobs }))
    → P (settle config id o c s)
unfolding settle terminal
settle_cases P config id o c s same changed =
    option_cases P (get id s.jobs) _ _ (λ _. same)
      λ (j : Job) e. if_cases P (is_terminal j.phase) _ _ (λ _. same) (changed j e)
