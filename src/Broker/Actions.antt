-- ===== src/Broker/Actions.antt =====
-- projects/broker/src/lifecycle.rs, the operations of `Broker::call` on one job.
pub mod Keeps
pub mod Promotion
use seele_shell.Prelude.{
  string_key, pair_key, ℕ, String, Bool, true, false, not, ◌&&◌, none, some, List, [], ◌∷◌, ◌++◌,
  ltb, str_eq, if◌then◌else◌, length, drop, get, adjust, remove, map_values,
}
use seele_shell.Json.{Value, index, as_str}
use seele_shell.Broker.Job.{
  Job, Phase, queued, cancelled, invalid_state, unknown_job, broker_restarted, Config, Clock,
  Metadata, is_terminal, is_queued, is_failed, is_succeeded, terminal, finish, metadata,
}
use seele_shell.Broker.Turns.{
  Action, status, wait, cancel, retry, next, release, Reply, job_reply, job_result, released, Turn,
  replies, fails, blocks,
}
use seele_shell.Broker.Scheduler.{State}

-- The states in which an action is an error.
unfoldable pub refused : Action → Phase → Bool
refused cancel p = is_terminal p
refused retry p = not (is_failed p)
refused next p = not (is_queued p)
refused release p = not (is_terminal p)
refused status p = false
refused wait p = false

unfoldable pub reset : ℕ → Job → Job
reset wall j = record j {
  phase = queued;
  selection = none;
  transient = 0;
  invalid_outputs = 0;
  error = none;
  stopped = false;
  updated = wall;
}

-- The bounded tail of released jobs; a failure leaves it no confirmation.
unfoldable pub retire : Metadata → Job → List Metadata → List Metadata
retire m j ms =
    if is_failed j.phase
    then ms
    else (let longer = ms ++ m ∷ [] in if ltb 128 (length longer) then drop 1 longer else longer)

unfoldable pub apply_action : Action → Clock → Job → Job
apply_action cancel c j = finish cancelled none c.wall j
apply_action retry c j = reset c.wall j
apply_action next c j = record j { promoted = true; updated = c.wall }
apply_action _ c j = j

unfoldable pub answer : Config → Action → Clock → Job → Reply
answer config a c j =
    let m = metadata config.model c.wall j in
    let reads : Bool = elim a [ status ↦ true | wait ↦ true | _ ↦ false ] in
    if is_succeeded j.phase && reads
    then elim j.result [ none ↦ job_reply m | some v ↦ job_result m v ]
    else job_reply m

abbrev pub demote : Job → Job
demote j = record j { promoted = false }

unfoldable pub perform : Config → Action → Clock → String → Job → State → State × Turn
perform config release c id j s = (
  record s {
    jobs = remove id s.jobs;
    retired = retire (metadata config.model c.wall j) j s.retired;
  },
  replies released,
)
perform config next c id j s = (
  record s { jobs = adjust id (apply_action next c) (map_values demote s.jobs) },
  replies (answer config next c (apply_action next c j)),
)
perform config a c id j s = (
  record s { jobs = adjust id (apply_action a c) s.jobs },
  replies (answer config a c (apply_action a c j)),
)

unfoldable pub is_wait : Action → Bool
is_wait wait = true
is_wait _ = false

unfoldable pub act_on : Config → Action → Clock → String → State → State × Turn
unfolding apply_action answer perform is_wait
act_on config a c id s = elim (get id s.jobs) [
  | none ↦ (s, fails unknown_job)
  | some j ↦
      if is_wait a && not (terminal j)
      then (s, blocks)
      else (if refused a j.phase then (s, fails invalid_state) else perform config a c id j s)
]

-- The checks of `epoch` and `id`, before the job is looked up.
unfoldable pub act_on_message : Config → String → Action → Clock → Value → State → State × Turn
act_on_message config epoch a c message s = elim (as_str (index message "epoch")) [
  | none ↦ (s, fails broker_restarted)
  | some e ↦
      if str_eq e epoch
      then elim (as_str (index message "id")) [
        | none ↦ (s, fails unknown_job)
        | some id ↦ act_on config a c id s
      ]
      else (s, fails broker_restarted)
]
