-- ===== src/Broker/System/Results.antt =====
-- Which results leave the broker.
use seele_shell.Prelude.{
  String, ◌≡◌, get, some, true, string_key, Option, arith, ap, subst, Entries-get,
}
use seele_shell.Broker.Job.{Config, Clock, Metadata, Job, succeeded, finish}
use seele_shell.Broker.Turns.{
  Action, replies, job_result, Turn, release, next, status, wait, cancel, retry,
}
use seele_shell.Broker.System.{System, Inv}
use seele_shell.Broker.Scheduler.{State}
use seele_shell.Json.{Value}
use seele_shell.Broker.Actions.{act_on, perform, answer, apply_action, reset}
use seele_shell.Broker.Validation.{bounded_instance, Request}
use seele_shell.Broker.Invariant.{is_current, is_checked, IsSound}
use seele_shell.Broker.Actions.Keeps.{act_cases}

performed_result :
    (config : Config) (a : Action) (c : Clock) (id : String) (j : Job) (s : State) (m : Metadata)
    (v : Value)
    → (perform config a c id j s).1 ≡ replies (job_result m v)
    → (j.phase ≡ succeeded) × (j.result ≡ some v)
unfolding perform answer apply_action finish reset
performed_result config release c id j s m v e = absurd (ground arith)
performed_result config next c id j s m v e = ground arith
performed_result config status c id j s m v e = ground arith
performed_result config wait c id j s m v e = ground arith
performed_result config cancel c id j s m v e = ground arith
performed_result config retry c id j s m v e = ground arith

checked_result :
    (r : Request) (o : Option Value) (v : Value)
    → is_checked r o ≡ true
    → o ≡ some v
    → (r.validator v ≡ true) × (bounded_instance v ≡ true)
checked_result r o v h e =
    let p : is_checked r (some v) ≡ true = subst (λ x. is_checked r x ≡ true) e h in ground arith

-- A reply of `status` or `wait` with a result, in a reachable state, is for a job that succeeded
-- and whose request is the newest of its item, and the result fits the budget and the output
-- schema of that request.
pub delivered_result :
    (config : Config) (a : Action) (c : Clock) (id : String) (y : System) (t : State) (m : Metadata)
    (v : Value)
    → Inv config y
    → act_on config a c id y.state ≡ (t, replies (job_result m v))
    → (j : Job) × (get id y.state.jobs ≡ some j)
      × (j.phase ≡ succeeded)
      × (j.request.validator v ≡ true)
      × (bounded_instance v ≡ true)
      × (is_current y.state.revisions j ≡ true)
delivered_result config a c id y t m v h =
    let Goal : State × Turn → Type 0 = λ x.
      x ≡ (t, replies (job_result m v))
      → (j : Job) × (get id y.state.jobs ≡ some j)
        × (j.phase ≡ succeeded)
        × (j.request.validator v ≡ true)
        × (bounded_instance v ≡ true)
        × (is_current y.state.revisions j ≡ true) in
    act_cases Goal config a c id y.state (λ _ e. ground arith) (λ _ _ _ _ e. ground arith)
      (λ _ _ _ e. ground arith)
      λ j at _ _ e.
        let (done, result) =
          performed_result config a c id j y.state m v (ap (λ (x : State × Turn). x.1) e) in
        let (valid, small) =
          checked_result j.request j.result v
            (Entries-get (IsSound config) id y.state.jobs h.jobwise.store.sound at).checked
            result in
        (j, at, done, valid, small, Entries-get _ id y.state.jobs h.jobwise.current at)
