-- ===== src/Broker/Protocol.antt =====
-- projects/broker/src/lifecycle.rs: `Broker::call`, the requests of clients.
use seele_shell.Prelude.{
  string_key, pair_key, ℕ, ◌-◌, String, Bool, true, false, ◌&&◌, ◌||◌, Option, none, some, List, [],
  ◌∷◌, ◌++◌, ◌==◌, ltb, leb, str_eq, if◌then◌else◌, any, all, map, sort_by, retain, values,
}
use seele_shell.Json.{Value, index, as_str, as_object, keys}
use seele_shell.Broker.Validation.{Request, Validator, request}
use seele_shell.Broker.Job.{
  Job, Phase, running, retrying, Failure, invalid_input, broker_unavailable, Config, Clock,
  terminal, metadata,
}
use seele_shell.Broker.Turns.{
  Action, status, wait, cancel, retry, next, release, Reply, configured, jobs_reply, Turn, replies,
  fails,
}
use seele_shell.Broker.Scheduler.{State, queue}
use seele_shell.Broker.Submission.{submit_request}
use seele_shell.Broker.Actions.{act_on_message}

pub data Operation : Type 0 where
  submit configuration list : Operation
  act : Action → Operation

parse_operation : String → Option Operation
parse_operation s =
    if str_eq s "submit"
    then some submit
    else (if str_eq s "list"
        then some list
        else (if str_eq s "configuration"
            then some configuration
            else (if str_eq s "status"
                then some (act status)
                else (if str_eq s "wait"
                    then some (act wait)
                    else (if str_eq s "cancel"
                        then some (act cancel)
                        else (if str_eq s "retry"
                            then some (act retry)
                            else (if str_eq s "next"
                                then some (act next)
                                else (if str_eq s "release"
                                    then some (act release)
                                    else none))))))))

allowed : Operation → List String
allowed submit = "op" ∷ "request" ∷ []
allowed list = "op" ∷ []
allowed configuration = "op" ∷ []
allowed (act a) = "op" ∷ "id" ∷ "epoch" ∷ []

-- The checks before the lock is taken; `none` is `invalid_input`.
unfoldable pub admit : Value → Option Operation
unfolding parse_operation allowed
admit message = elim (as_object message) [
  | none ↦ none
  | some fields ↦ elim (as_str (index message "op")) [
    | none ↦ none
    | some op ↦ elim (parse_operation op) [
      | none ↦ none
      | some o ↦ if all (λ k. any (str_eq k) (allowed o)) (keys fields) then some o else none
    ]
  ]
]

abbrev is_active : Phase → Bool
is_active running = true
is_active retrying = true
is_active _ = false

sequence_le : Job → Job → Bool
sequence_le a b = leb a.sequence b.sequence

-- The latest update first, then the greatest sequence.
terminal_le : Job → Job → Bool
terminal_le a b = ltb b.updated a.updated || (a.updated == b.updated && leb b.sequence a.sequence)

-- Running and retrying jobs, the queue in its order, and the terminal ones.
unfoldable pub listed : State → List Job
unfolding sequence_le terminal_le
listed s =
    sort_by sequence_le (retain (λ j. is_active j.phase) (values s.jobs))
    ++ (queue s ++ sort_by terminal_le (retain terminal (values s.jobs)))

unfoldable pub list_jobs : Config → Clock → State → State × Turn
list_jobs config c s =
    let kept = retain (λ m. ltb (c.wall - m.updated) 5000) s.retired in
    (
      record s { retired = kept },
      replies (jobs_reply (map (metadata config.model c.wall) (listed s) ++ kept)),
    )

-- What the lock is taken for: an operation with what was validated before.
pub data Command : Type 0 where
  submits : Request → Command
  lists : Command
  acts : Action → Value → Command

-- What the lock is held for, in a broker that is not closed; `fresh` is the new random id.
unfoldable pub serve : Config → String → String → Clock → Command → State → State × Turn
serve config epoch fresh c (submits r) s = submit_request config fresh c r s
serve config epoch fresh c lists s = list_jobs config c s
serve config epoch fresh c (acts a message) s = act_on_message config epoch a c message s

-- One pass of the loop of `call` under the lock.
unfoldable pub turn : Config → String → String → Clock → Command → State → State × Turn
turn config epoch fresh c command s =
    let t = record s { activity = c.instant } in
    if s.closed then (t, fails broker_unavailable) else serve config epoch fresh c command t

-- What `call` does before it takes the lock: the model is told at once, and a submission is
-- validated here, once.
pub data Received : Type 0 where
  answers : Reply → Received
  rejects : Failure → Received
  enters : Command → Received

module _ (compile : Value → Option Validator) (encoded_len : Value → ℕ) where
  pub receive : Config → Value → Received
  receive config message = elim (admit message) [
    | none ↦ rejects invalid_input
    | some configuration ↦ answers (configured config.model)
    | some list ↦ enters lists
    | some (act a) ↦ enters (acts a message)
    | some submit ↦ elim (request compile encoded_len (index message "request")) [
      | none ↦ rejects invalid_input
      | some r ↦ enters (submits r)
    ]
  ]
