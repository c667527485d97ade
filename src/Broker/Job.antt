-- ===== src/Broker/Job.antt =====
-- projects/broker/src/lifecycle.rs: a job and what leaves the broker of it. Wall-clock times and
-- instants are counts of milliseconds; a critical section reads each clock once.
use seele_shell.Prelude.{
  ℕ, ◌-◌, ◌+◌, ◌^◌, ◌%◌, String, Bool, true, false, Option, none, some, ◌==◌, if◌then◌else◌, min,
  ◌||◌,
}
use seele_shell.Json.{Value, index}
use seele_shell.Broker.Validation.{Request, consumer, item}

-- The codes that cross the protocol; `""` is the absence of one.
pub data Failure : Type 0 where
  invalid_input capacity superseded_item invalid_state unknown_job : Failure
  broker_restarted broker_unavailable model_failure runtime_failure : Failure
  isolation_failure authentication_unavailable invalid_output cancelled_work : Failure

pub data Phase : Type 0 where
  queued running retrying succeeded failed cancelled superseded : Phase

pub record Selection : Type 0 where
  pub model : String
  pub reason : String

pub record Config : Type 0 where
  pub model : String
  pub concurrency : ℕ
  pub capacity : ℕ
  pub backoff : ℕ
  pub schema_attempts : ℕ

-- `Config::default`.
abbrev pub default_config : Config
default_config = record {
  model = "gpt-5.6-luna";
  concurrency = 2;
  capacity = 128;
  backoff = 1000;
  schema_attempts = 8;
}

pub record Clock : Type 0 where
  pub instant : ℕ
  pub wall : ℕ

pub record Tokens : Type 0 where
  pub input : ℕ
  pub output : ℕ

pub record Job : Type 0 where
  pub request : Request
  pub sequence : ℕ
  pub id : String
  pub phase : Phase
  pub created : ℕ
  pub updated : ℕ
  pub started : ℕ
  pub attempts : ℕ  -- u32
  pub transient : ℕ  -- u32
  pub invalid_outputs : ℕ  -- u32
  pub tokens : Tokens  -- u64
  pub selection : Option Selection
  pub error : Option Failure
  pub result : Option Value
  pub promoted : Bool
  pub ready : ℕ
  pub stopped : Bool  -- `cancel`, shared with the attempt that runs

abbrev pub u32 : ℕ → ℕ
u32 n = n % 2 ^ 32

abbrev pub u64 : ℕ → ℕ
u64 n = n % 2 ^ 64

abbrev pub saturating_add : ℕ → ℕ → ℕ
saturating_add a b = min (a + b) (2 ^ 64 - 1)

abbrev pub is_terminal : Phase → Bool
is_terminal succeeded = true
is_terminal failed = true
is_terminal cancelled = true
is_terminal superseded = true
is_terminal _ = false

abbrev pub is_queued : Phase → Bool
is_queued queued = true
is_queued _ = false

abbrev pub is_retrying : Phase → Bool
is_retrying retrying = true
is_retrying _ = false

abbrev pub is_running : Phase → Bool
is_running running = true
is_running _ = false

-- It waits to be run.
abbrev pub is_pending : Phase → Bool
is_pending p = is_queued p || is_retrying p

abbrev pub is_failed : Phase → Bool
is_failed failed = true
is_failed _ = false

abbrev pub is_succeeded : Phase → Bool
is_succeeded succeeded = true
is_succeeded _ = false

unfoldable pub terminal : Job → Bool
terminal j = is_terminal j.phase

unfoldable pub finish : Phase → Option Failure → ℕ → Job → Job
finish phase error wall j = record j {
  phase = phase;
  error = error;
  updated = wall;
  result = if is_succeeded phase then j.result else none;
  stopped = true;
}

-- The item of a request with its consumer, and the revision. Of an accepted request both are
-- there whenever the value names an item.
unfoldable pub item_key : Request → Option ((String × String) × ℕ)
item_key r = elim (item r) [
  | none ↦ none
  | some none ↦ none
  | some (some (name, revision)) ↦ elim (consumer r) [
    | none ↦ none
    | some c ↦ some ((c, name), revision)
  ]
]

-- What `list` and the replies show of a job. It has no field for the request's private parts.
pub record Metadata : Type 0 where
  pub id : String
  pub consumer : Value
  pub label : Value
  pub phase : Phase
  pub created : ℕ
  pub updated : ℕ
  pub started : ℕ
  pub model : String
  pub selection_reason : String
  pub attempts : ℕ
  pub queue_duration : ℕ
  pub tokens : Tokens
  pub error : Option Failure

unfoldable pub metadata : String → ℕ → Job → Metadata
metadata model wall j = record {
  id = j.id;
  consumer = index j.request.value "consumer";
  label = index j.request.value "label";
  phase = j.phase;
  created = j.created;
  updated = j.updated;
  started = j.started;
  model = elim j.selection [ none ↦ model | some s ↦ s.model ];
  selection_reason = elim j.selection [ none ↦ "pending" | some s ↦ s.reason ];
  attempts = j.attempts;
  queue_duration = (if j.started == 0 then wall else j.started) - j.created;
  tokens = j.tokens;
  error = j.error;
}
