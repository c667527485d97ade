-- ===== src/Broker/Scheduler.antt =====
-- projects/broker/src/lifecycle.rs: the shared state and the three critical sections of a worker.
-- The notifications only wake waiting tasks, which look at the state again.
pub mod Keeps
pub mod Order
pub mod Promotion
use seele_shell.Prelude.{
  string_key, ℕ, ◌+◌, ◌-◌, ◌*◌, ◌^◌, String, Bool, true, false, not, ◌&&◌, ◌||◌, Option, none, some,
  List, [], ◌∷◌, ◌==◌, ltb, leb, str_lt, if◌then◌else◌, min, max, sort_by, retain, first, all, get,
  adjust, map_values, values,
}
use seele_shell.Json.{Value, index, as_str, as_u64}
use seele_shell.Broker.Validation.{Request, interactive, identifier, bounded_instance}
use seele_shell.Broker.Job.{
  Job, queued, running, retrying, succeeded, failed, cancelled, Failure, invalid_output,
  isolation_failure, authentication_unavailable, Selection, Config, Clock, Tokens, Metadata,
  is_queued, is_retrying, terminal, finish, u32, u64, saturating_add,
}

pub record State : Type 0 where
  pub jobs : List (String × Job)
  pub retired : List Metadata
  pub revisions : List ((String × String) × ℕ)
  pub sequence : ℕ  -- u64
  pub activity : ℕ
  pub closed : Bool

unfoldable pub new : Clock → State
new c = record {
  jobs = [];
  retired = [];
  revisions = [];
  sequence = 0;
  activity = c.instant;
  closed = false;
}

-- The order of `sort_by_key(|j| (!j.promoted, !j.request.interactive(), j.sequence))`.
abbrev rank : Bool → ℕ
rank true = 0
rank false = 1

unfoldable pub queue_le : Job → Job → Bool
queue_le a b =
    ltb (rank a.promoted) (rank b.promoted)
    || (rank a.promoted == rank b.promoted
        && (ltb (rank (interactive a.request)) (rank (interactive b.request))
            || (rank (interactive a.request) == rank (interactive b.request)
                && leb a.sequence b.sequence)))

unfoldable pub queue : State → List Job
queue s = sort_by queue_le (retain (λ j. is_queued j.phase) (values s.jobs))

pub worker_count : Config → ℕ
worker_count c = min 8 (max 1 c.concurrency)

pub idle : ℕ → Clock → State → Bool
idle duration c s = leb duration (c.instant - s.activity) && all terminal (values s.jobs)

pub close_job : ℕ → Job → Job
close_job wall j = if terminal j then j else finish cancelled none wall j

unfoldable pub close : Clock → State → State
unfolding close_job
close c s = record s { closed = true; jobs = map_values (close_job c.wall) s.jobs }

unfoldable pub clear : State → State
clear s = record s { jobs = []; retired = []; revisions = [] }

-- A retrying job whose time has come, before it is queued again.
unfoldable pub is_due : ℕ → Job → Bool
is_due current j = is_retrying j.phase && leb j.ready current

pub due_le : Job → Job → Bool
due_le a b =
    ltb a.ready b.ready
    || (a.ready == b.ready
        && (ltb a.sequence b.sequence || (a.sequence == b.sequence && not (str_lt b.id a.id))))

unfoldable pub requeue : State → Job → State
requeue s j =
    let n = u64 (s.sequence + 1) in
    record s {
      sequence = n;
      jobs = adjust j.id (λ k. record k { phase = queued; sequence = n }) s.jobs;
    }

unfoldable pub requeue_all : State → List Job → State
requeue_all s [] = s
requeue_all s (j ∷ js) = requeue_all (requeue s j) js

unfoldable pub wake : ℕ → State → State
wake current s = requeue_all s (sort_by due_le (retain (is_due current) (values s.jobs)))

-- How long a worker with nothing to run sleeps: until the next retry, or five minutes.
least : Option ℕ → List ℕ → Option ℕ
least m [] = m
least none (n ∷ ns) = least (some n) ns
least (some m) (n ∷ ns) = least (some (min m n)) ns

waits : ℕ → List Job → List ℕ
waits current [] = []
waits current (j ∷ js) =
    if is_retrying j.phase then (j.ready - current) ∷ waits current js else waits current js

unfoldable pub sleep : ℕ → State → ℕ
unfolding least waits
sleep current s = elim (least none (waits current (values s.jobs))) [ none ↦ 300000 | some n ↦ n ]

unfoldable pub begin : ℕ → Job → Job
begin wall j = record j {
  phase = running;
  selection = none;
  promoted = false;
  started = if j.started == 0 then wall else j.started;
  updated = wall;
  attempts = u32 (j.attempts + 1);
}

pub data Pick : Type 0 where
  leave : Pick
  sleep_for : ℕ → Pick
  run_job : String → Request → Pick

-- The first critical section: due retries are queued again, and the head of the queue is begun.
unfoldable pub pick : Clock → State → State × Pick
pick c s =
    if s.closed
    then (s, leave)
    else (let woken = wake c.instant s in
        elim (first (queue woken)) [
          | none ↦ (woken, sleep_for (sleep c.instant woken))
          | some j ↦ (
            record woken { jobs = adjust j.id (begin c.wall) woken.jobs },
            run_job j.id j.request,
          )
        ])

-- The second: the attempt goes on unless its job is gone, over or cancelled.
unfoldable pub choose : String → Selection → Clock → State → State × Bool
choose id selection c s = elim (get id s.jobs) [
  | none ↦ (s, false)
  | some j ↦ if terminal j || j.stopped then (s, false) else (
    record s {
      jobs = adjust id (λ k. record k { selection = some selection; updated = c.wall }) s.jobs;
    },
    true,
  )
]
