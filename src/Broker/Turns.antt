-- ===== src/Broker/Turns.antt =====
-- projects/broker/src/lifecycle.rs: what a request of a client comes back with.
use seele_shell.Prelude.{string_key, pair_key, String, List}
use seele_shell.Json.{Value}
use seele_shell.Broker.Job.{Failure, Metadata}

-- The operations that name a job.
pub data Action : Type 0 where
  status wait cancel retry next release : Action

pub data Reply : Type 0 where
  configured : String → Reply
  job_reply : Metadata → Reply
  job_result : Metadata → Value → Reply
  jobs_reply : List Metadata → Reply
  released : Reply

-- A critical section ends with a reply, with an error, or with a wait for the next change.
pub data Turn : Type 0 where
  replies : Reply → Turn
  fails : Failure → Turn
  blocks : Turn
