-- ===== src/Broker/Tests.antt =====
-- Histories of a small broker.
use seele_shell.Broker.Scheduler.{
  wake, begin, queue_le, sleep_for, requeue_all, is_due, requeue, sleep,
}
use seele_shell.Broker.Scheduler.{queue}
use seele_shell.Broker.Validation.{consumer, bounded_instance, inspect}
use seele_shell.Broker.Validation.{item}
use seele_shell.Broker.Job.{item_key, queued, succeeded, is_queued, finish, terminal}
use seele_shell.Broker.Protocol.{serve}
use seele_shell.Broker.Scheduler.{new}
use seele_shell.Prelude.{
  String, true, arith, remove, some, string_key, refl, List, ◌≡◌, ◌⊎◌, [], none, ◌∷◌, false, ◌<◌,
  ◌+◌, ◌≤◌, get, Entries, ℕ, insert,
}
use seele_shell.Broker.Job.{Job, Clock, default_config, is_terminal, model_failure, retrying}
use seele_shell.Broker.Scheduler.{State, pick, run_job}
use seele_shell.Broker.System.{System, launch, Inv, then_step, here, serves, picks, settles}
use seele_shell.Broker.Validation.{Request}
use seele_shell.Broker.Protocol.{turn, submits}
use seele_shell.Json.{object, field, string, number, end, null}
use seele_shell.Broker.System.Reachable.{started, reachable-Inv}
use seele_shell.Broker.Settlement.{
  Answer, settle, check_output, returns, settle_job, Outcome, broke, answered, retry_delay,
}
use seele_shell.Broker.System.Watermarks.{Grows, watermarks_grow}
use seele_shell.Broker.Submission.Supersession.{Supersedes, submit-Supersedes}
use seele_shell.Broker.Turns.{Turn, next, status}
use seele_shell.Broker.Submission.{new_job, submit_request, is_obsolete, enqueue, supersede_job}
use seele_shell.Broker.Settlement.Retries.{
  IsLive, attempt_all, attempts_end, is_success, budget, settle_job_ends,
}
use seele_shell.Broker.Actions.{act_on, perform, answer, apply_action, refused}
use seele_shell.Broker.Actions.Promotion.{next-pick}
use seele_shell.Broker.Invariant.{is_current}
use seele_shell.Broker.System.Results.{delivered_result}
use seele_shell.Broker.Scheduler.Order.{pick_serves_head}
use seele_shell.Broker.Submission.Keeps.{superseding}
use seele_shell.Broker.Submission.Outcomes.{Submitted, submit-Submitted}

abbrev soon : Clock
soon = record { instant = 10; wall = 1000 }

abbrev later : Clock
later = record { instant = 50; wall = 1040 }

-- A request for revision `n` of the item "mail" of "github".
abbrev asks : String → Request
asks n = record {
  value = object (
      field "consumer" (string "github")
        (field "item" (string "mail") (field "revision" (number n) end)));
  validator = λ v. true;
}

abbrev item_of_mail : String × String
item_of_mail = ("github", "mail")

abbrev epoch : String
epoch = "e"

abbrev submitted : System
submitted = record (started soon) {
  state = (turn default_config epoch "a" soon (submits (asks "1")) (started soon).state).0;
}

submitted-Inv : Inv default_config submitted
unfolding started
submitted-Inv =
    reachable-Inv default_config epoch soon (omega arith)
      (then_step here (serves "a" (submits (asks "1")) soon refl))

abbrev picked : System
picked = record {
  state = (pick later submitted.state).0;
  flight = launch (pick later submitted.state).1 submitted.flight;
}

reachable-Inv_example : Inv default_config picked
unfolding started
reachable-Inv_example =
    reachable-Inv default_config epoch soon (omega arith)
      (then_step (then_step here (serves "a" (submits (asks "1")) soon refl)) (picks later))

abbrev answer_one : Answer
answer_one = returns null null

abbrev settled : System
settled = record {
  state = settle default_config "a" (check_output (asks "1") answer_one) later picked.state;
  flight = remove "a" picked.flight;
}

pick_serves_head_example :
    ((j : Job) × (get j.id (wake later.instant submitted.state).jobs ≡ some j)
      × (j.phase ≡ queued)
      × ((pick later submitted.state).1 ≡ run_job j.id j.request)
      × (get j.id (pick later submitted.state).0.jobs ≡ some (begin later.wall j))
      × Entries
          (λ k x. is_queued x.phase ≡ true → queue_le j x ≡ true)
          (wake later.instant submitted.state).jobs)
    ⊎ ((n : ℕ) × ((pick later submitted.state).1 ≡ sleep_for n)
        × Entries (λ k x. is_queued x.phase ≡ false) (pick later submitted.state).0.jobs)
unfolding started launch pick turn new serve submit_request item_key item consumer queue wake
    requeue_all insert is_due requeue settle settle_job check_output finish is_obsolete enqueue
    new_job supersede_job act_on perform answer apply_action refused begin terminal superseding
    bounded_instance inspect sleep
pick_serves_head_example =
    pick_serves_head default_config later submitted.state submitted-Inv.jobwise.store refl

abbrev settled-Inv : Inv default_config settled
unfolding started launch pick turn new serve submit_request item_key item consumer queue wake
    requeue_all insert is_due requeue settle settle_job check_output finish is_obsolete enqueue
    new_job supersede_job act_on perform answer apply_action refused begin terminal superseding
    bounded_instance inspect sleep
settled-Inv = reachable-Inv default_config epoch soon (omega arith) (
    then_step (then_step (then_step here (serves "a" (submits (asks "1")) soon refl)) (picks later))
      (settles "a" (asks "1") answer_one later refl))

abbrev newer : State × Turn
newer = submit_request default_config "b" later (asks "2") settled.state

abbrev mail_key : String × String
mail_key = ("github", "mail")

submit-Supersedes_example : Supersedes mail_key 2 "b" later (asks "2") settled.state newer.0
unfolding started launch pick turn new serve submit_request item_key item consumer queue wake
    requeue_all insert is_due requeue settle settle_job check_output finish is_obsolete enqueue
    new_job supersede_job act_on perform answer apply_action refused begin terminal superseding
    bounded_instance inspect sleep
submit-Supersedes_example =
    submit-Supersedes default_config "b" later (asks "2") settled.state newer.0 _ mail_key 2 refl
      refl

submit-Submitted_example :
    Submitted default_config "b"
      (asks "1")
      settled.state
      (submit_request default_config "b" later (asks "1") settled.state)
submit-Submitted_example = submit-Submitted default_config "b" later (asks "1") settled.state

watermarks_grow_example :
    Grows submitted.state.revisions picked.state.revisions ⊎ (picked.state.revisions ≡ [])
unfolding started
watermarks_grow_example = watermarks_grow {epoch = epoch} submitted-Inv (picks later)

abbrev promoted : State × Turn
promoted = act_on default_config next soon "a" submitted.state

next-pick_example : (r : Request) × ((pick later promoted.0).1 ≡ run_job "a" r)
unfolding started launch pick turn new serve submit_request item_key item consumer queue wake
    requeue_all insert is_due requeue settle settle_job check_output finish is_obsolete enqueue
    new_job supersede_job act_on perform answer apply_action refused begin terminal superseding
    bounded_instance inspect sleep
next-pick_example =
    next-pick default_config soon later "a" submitted.state promoted.0 _ submitted-Inv.jobwise.store
      refl refl

abbrev asked : State × Turn
asked = act_on default_config status later "a" settled.state

delivered_result_example :
    (j : Job) × (get "a" settled.state.jobs ≡ some j)
    × (j.phase ≡ succeeded)
    × (j.request.validator null ≡ true)
    × (bounded_instance null ≡ true)
    × (is_current settled.state.revisions j ≡ true)
unfolding started launch pick turn new serve submit_request item_key item consumer queue wake
    requeue_all insert is_due requeue settle settle_job check_output finish is_obsolete enqueue
    new_job supersede_job act_on perform answer apply_action refused begin terminal superseding
    bounded_instance inspect sleep
delivered_result_example =
    delivered_result default_config status later "a" settled asked.0 _ null settled-Inv refl

abbrev fresh_job : Job
fresh_job = new_job 1 "a" soon (asks "1")

fresh-IsLive : IsLive default_config fresh_job
unfolding new_job
fresh-IsLive = record { transient_bounded = omega arith; invalid_bounded = omega arith }

settle_job_ends_example :
    let j = settle_job default_config (broke model_failure) later fresh_job in
    (is_terminal j.phase ≡ true)
    ⊎ ((j.phase ≡ retrying)
        × (is_success (broke model_failure) ≡ false)
        × (budget default_config j < budget default_config fresh_job)
        × IsLive default_config j
        × (j.ready ≡ later.instant + retry_delay default_config j.transient)
        × (retry_delay default_config j.transient ≤ 30000))
settle_job_ends_example =
    settle_job_ends default_config (broke model_failure) later fresh_job (omega arith) fresh-IsLive

-- Ten attempts without an answer.
abbrev outcomes : List (Clock × Outcome)
outcomes =
    let o : Clock × Outcome = (later, answered none null) in
    o ∷ o ∷ o ∷ o ∷ o ∷ o ∷ o ∷ o ∷ o ∷ o ∷ []

attempts_end_example : is_terminal (attempt_all default_config outcomes fresh_job).phase ≡ true
attempts_end_example =
    attempts_end default_config outcomes fresh_job (omega arith) fresh-IsLive (omega arith)
