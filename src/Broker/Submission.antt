-- ===== src/Broker/Submission.antt =====
-- projects/broker/src/lifecycle.rs, `submit` in `Broker::call`: supersession and admission.
pub mod Keeps
pub mod Supersession
pub mod Outcomes
use seele_shell.Prelude.{
  string_key, pair_key, ℕ, ◌+◌, String, Bool, false, not, ◌&&◌, Option, none, some, leb, str_eq,
  if◌then◌else◌, length, get, insert, map_values, contains_key, pair_eq,
}
use seele_shell.Broker.Validation.{Request}
use seele_shell.Broker.Job.{
  Job, queued, superseded, capacity, superseded_item, Config, Clock, finish, item_key, metadata,
  u64,
}
use seele_shell.Broker.Turns.{job_reply, Turn, replies, fails}
use seele_shell.Broker.Scheduler.{State}

unfoldable pub new_job : ℕ → String → Clock → Request → Job
new_job sequence id c r = record {
  request = r;
  sequence = sequence;
  id = id;
  phase = queued;
  created = c.wall;
  updated = c.wall;
  started = 0;
  attempts = 0;
  transient = 0;
  invalid_outputs = 0;
  tokens = record { input = 0; output = 0 };
  selection = none;
  error = none;
  result = none;
  promoted = false;
  ready = c.instant;
  stopped = false;
}

-- The job's request names the item `key`.
unfoldable pub has_item : String × String → Request → Bool
has_item key r = elim (item_key r) [ none ↦ false | some (k, revision) ↦ pair_eq k key ]

unfoldable pub supersede_job : String × String → ℕ → Job → Job
supersede_job key wall j = if has_item key j.request then finish superseded none wall j else j

abbrev pub max_revisions : ℕ
max_revisions = 8192

unfoldable pub is_obsolete : ℕ → Option ℕ → Bool
is_obsolete revision none = false
is_obsolete revision (some r) = leb revision r

unfoldable pub enqueue : Config → String → Clock → Request → State → State × Turn
unfolding new_job
enqueue config id c r s =
    let n = u64 (s.sequence + 1) in
    let j = new_job n id c r in
    (
      record s { sequence = n; jobs = insert id j s.jobs },
      replies (job_reply (metadata config.model c.wall j)),
    )

unfoldable pub submit_request : Config → String → Clock → Request → State → State × Turn
unfolding enqueue is_obsolete supersede_job
submit_request config id c r s =
    if leb config.capacity (length s.jobs) then (s, fails capacity) else elim (item_key r) [
      | none ↦ enqueue config id c r s
      | some (key, revision) ↦
          if is_obsolete revision (get key s.revisions)
          then (s, fails superseded_item)
          else (if not (contains_key key s.revisions) && leb max_revisions (length s.revisions)
              then (s, fails capacity)
              else enqueue config id c r (record s {
                revisions = insert key revision s.revisions;
                jobs = map_values (supersede_job key c.wall) s.jobs;
              }))
    ]
