-- ===== src/Broker/Settlement.antt =====
-- projects/broker/src/lifecycle.rs, the last critical section of a worker: how an attempt ends.
pub mod Keeps
pub mod Retries
use seele_shell.Prelude.{
  string_key, ℕ, ◌+◌, ◌-◌, ◌*◌, ◌^◌, String, Bool, true, false, not, ◌&&◌, ◌||◌, Option, none, some,
  List, [], ◌∷◌, ◌==◌, ltb, leb, str_lt, if◌then◌else◌, min, max, sort_by, retain, first, all, get,
  adjust, map_values, values,
}
use seele_shell.Json.{Value, index, as_str, as_u64}
use seele_shell.Broker.Validation.{Request, interactive, identifier, bounded_instance}
use seele_shell.Broker.Scheduler.{State}
use seele_shell.Broker.Job.{
  Job, queued, running, retrying, succeeded, failed, cancelled, Failure, invalid_output,
  isolation_failure, authentication_unavailable, Selection, Config, Clock, Tokens, Metadata,
  is_queued, is_retrying, terminal, finish, u32, u64, saturating_add,
}

-- What the runner returns: an error code, or a value with its usage.
pub data Answer : Type 0 where
  refuses : Failure → Answer
  returns : Value → Value → Answer

-- The outcome that is recorded: `none` stands for `invalid_output`.
pub data Outcome : Type 0 where
  broke : Failure → Outcome
  answered : Option Value → Value → Outcome

-- The check of an answer: the node budget, and the output schema of the job's own request.
unfoldable pub check_output : Request → Answer → Outcome
check_output r (refuses code) = broke code
check_output r (returns v usage) =
    answered (if bounded_instance v && r.validator v then some v else none) usage

used_model : Value → Option Selection → Option Selection
used_model usage none = none
used_model usage (some s) = elim (as_str (index usage "model")) [
  | none ↦ some s
  | some m ↦ some (if identifier m then record s { model = m } else s)
]

used_tokens : Value → Tokens → Tokens
used_tokens usage t = record {
  input = elim (as_u64 (index usage "input")) [
    | none ↦ t.input
    | some n ↦ saturating_add t.input n
  ];
  output = elim (as_u64 (index usage "output")) [
    | none ↦ t.output
    | some n ↦ saturating_add t.output n
  ];
}

pub account : Value → Job → Job
account usage j = record j {
  selection = used_model usage j.selection;
  tokens = used_tokens usage j.tokens;
}

abbrev pub is_invalid_output : Failure → Bool
is_invalid_output invalid_output = true
is_invalid_output _ = false

abbrev pub is_final : Failure → Bool
is_final isolation_failure = true
is_final authentication_unavailable = true
is_final _ = false

pub count_failure : Failure → Job → Job
count_failure code j =
    if is_invalid_output code
    then record j { invalid_outputs = u32 (j.invalid_outputs + 1) }
    else record j { transient = u32 (j.transient + 1) }

unfoldable pub retry_delay : Config → ℕ → ℕ
retry_delay config transient = min (config.backoff * 2 ^ min transient 5) 30000

pub give_up_or_retry : Config → Failure → Clock → Job → Job
give_up_or_retry config code c j =
    if is_final code || ltb 2 j.transient || leb config.schema_attempts j.invalid_outputs
    then finish failed (some code) c.wall j
    else record j {
      phase = retrying;
      updated = c.wall;
      ready = c.instant + retry_delay config j.transient;
    }

unfoldable pub settle_job : Config → Outcome → Clock → Job → Job
unfolding count_failure give_up_or_retry account used_model used_tokens
settle_job config (broke code) c j = give_up_or_retry config code c (count_failure code j)
settle_job config (answered (some v) usage) c j =
    finish succeeded none c.wall (record (account usage j) { result = some v })
settle_job config (answered none usage) c j =
    give_up_or_retry config invalid_output c (count_failure invalid_output (account usage j))

-- The third: the outcome is recorded unless the job is gone or over.
unfoldable pub settle : Config → String → Outcome → Clock → State → State
settle config id outcome c s =
    let active = record s { activity = c.instant } in
    elim (get id s.jobs) [
      | none ↦ active
      | some j ↦
          if terminal j
          then active
          else record active { jobs = adjust id (settle_job config outcome c) s.jobs }
    ]
