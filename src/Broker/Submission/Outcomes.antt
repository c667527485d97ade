-- ===== src/Broker/Submission/Outcomes.antt =====
-- How a submission ends, in each case that projects/broker/src/lifecycle.rs tells apart.
use seele_shell.Prelude.{
  string_key, pair_key, String, List, ℕ, ◌≡◌, contains_key, get, length, none, some, ◌≤◌, false,
  ◌<◌, arith, true, contains_key-get, ◌+◌, ◌⊎◌, get-insert, Option-cases, eq_iff, ap, inl, refl,
  inr, str_eq, get-map_values,
}
use seele_shell.Broker.Job.{Config, Clock, Job, item_key, queued, capacity, u64, superseded_item}
use seele_shell.Broker.Submission.{
  enqueue, is_obsolete, new_job, submit_request, max_revisions, has_item, supersede_job,
}
use seele_shell.Broker.Validation.{Request}
use seele_shell.Broker.Submission.Keeps.{superseding, submit_cases}
use seele_shell.Broker.Scheduler.{State}
use seele_shell.Broker.Turns.{Turn, fails, Reply, replies}

-- The request names no item, or an item without a watermark for which there is room, or a revision
-- above the watermark of its item.
pub data Admits (r : Request) (s : State) : Type 0 where
  no_item : item_key r ≡ none → Admits r s
  first_revision :
      (key : String × String) (revision : ℕ)
      → item_key r ≡ some (key, revision)
      → get key s.revisions ≡ none
      → length s.revisions < 8192
      → Admits r s
  next_revision :
      (key : String × String) (revision old : ℕ)
      → item_key r ≡ some (key, revision)
      → get key s.revisions ≡ some old
      → old < revision
      → Admits r s

-- The job is not of the item that the request names.
abbrev pub Apart : Request → Job → Type 0
Apart r j =
    (key : String × String) (revision : ℕ)
    → item_key r ≡ some (key, revision)
    → has_item key j.request ≡ false

-- The jobs of `m` that are not of the item of the request are in `n` as they were.
abbrev KeepsApart : Request → List (String × Job) → List (String × Job) → Type 0
KeepsApart r m n = (k : String) (j : Job) → get k m ≡ some j → Apart r j → get k n ≡ some j

-- From `s` to `t` the request got the next sequence number and a queued job under `id`; the jobs under
-- other ids that are not of its item are as they were.
pub record Admitted (id : String) (r : Request) (s t : State) : Type 0 where
  pub job : Job
  pub stored : get id t.jobs ≡ some job
  pub asked : job.request ≡ r
  pub waiting : job.phase ≡ queued
  pub last : (job.sequence ≡ t.sequence) × (t.sequence ≡ u64 (s.sequence + 1))
  pub others :
      (k : String) (j : Job)
      → get k s.jobs ≡ some j
      → str_eq id k ≡ false
      → Apart r j
      → get k t.jobs ≡ some j

-- The outcomes; no two of them fit one state.
pub data Submitted (config : Config) (id : String) (r : Request) (s : State)
    : State × Turn → Type 0 where
  full : config.capacity ≤ length s.jobs → Submitted config id r s (s, fails capacity)
  obsolete :
      (key : String × String) (revision old : ℕ)
      → length s.jobs < config.capacity
      → item_key r ≡ some (key, revision)
      → get key s.revisions ≡ some old
      → revision ≤ old
      → Submitted config id r s (s, fails superseded_item)
  crowded :
      (key : String × String) (revision : ℕ)
      → length s.jobs < config.capacity
      → item_key r ≡ some (key, revision)
      → get key s.revisions ≡ none
      → 8192 ≤ length s.revisions
      → Submitted config id r s (s, fails capacity)
  accepted :
      (t : State) (m : Reply)
      → length s.jobs < config.capacity
      → Admits r s
      → Admitted id r s t
      → Submitted config id r s (t, replies m)

enqueue-Submitted :
    (config : Config) (id : String) (c : Clock) (r : Request) (s u : State)
    → u.sequence ≡ s.sequence
    → length s.jobs < config.capacity
    → Admits r s
    → KeepsApart r s.jobs u.jobs
    → Submitted config id r s (enqueue config id c r u)
unfolding enqueue new_job
enqueue-Submitted config id c r s u same room h keeps =
    let n = new_job (u64 (u.sequence + 1)) id c r in
    accepted _ _ room h (record {
      job = n;
      stored = ground (arith, get-insert id id n u.jobs, eq_iff id id);
      asked = refl;
      waiting = refl;
      last = (refl, ap (λ k. u64 (k + 1)) same);
      others = λ k j e ne far. ground (arith, get-insert id k n u.jobs, ne, keeps k j e far);
    })

superseding-KeepsApart :
    (key : String × String) (revision wall : ℕ) (r : Request) (s : State)
    → item_key r ≡ some (key, revision)
    → KeepsApart r s.jobs (superseding key revision wall s).jobs
unfolding superseding supersede_job
superseding-KeepsApart key revision wall r s named k j e far =
    ground (arith, get-map_values k (supersede_job key wall) s.jobs, e, far key revision named)

absent :
    (key : String × String) (m : List ((String × String) × ℕ))
    → contains_key key m ≡ false
    → get key m ≡ none
absent key m h = ground (arith, contains_key-get key m, h)

fresh-Admits :
    (r : Request) (s : State) (key : String × String) (revision : ℕ)
    → item_key r ≡ some (key, revision)
    → is_obsolete revision (get key s.revisions) ≡ false
    → (contains_key key s.revisions ≡ true) ⊎ (length s.revisions < max_revisions)
    → Admits r s
unfolding is_obsolete
fresh-Admits r s key revision e new room = elim (Option-cases (get key s.revisions)) [
  | inl none_yet ↦
      first_revision key revision e none_yet
        (ground (arith, none_yet, room, contains_key-get key s.revisions))
  | inr (old, at) ↦
      next_revision key revision old e at (ground (arith, rw (at, is_obsolete) at new))
]

-- Every submission ends in one of four ways, which exclude each other: the broker is full; or the
-- revision is not above the watermark of its item; or the item has no watermark and at least 8192
-- items have one; or the request is admitted: its job is queued under its id with the next sequence
-- number, and the jobs under other ids that are not of its item are as they were. The first three
-- leave the state as it was, with `capacity`, `superseded` and `capacity`.
pub submit-Submitted :
    (config : Config) (id : String) (c : Clock) (r : Request) (s : State)
    → Submitted config id r s (submit_request config id c r s)
unfolding superseding
submit-Submitted config id c r s =
    submit_cases (Submitted config id r s) config id c r s full
      (λ room e. enqueue-Submitted config id c r s s refl room (no_item e) (λ _ _ h _. h)) obsolete
      (λ key revision room e n t. crowded key revision room e (absent key s.revisions n) t)
      λ key revision room e new t.
        enqueue-Submitted config id c r s (superseding key revision c.wall s) refl room
          (fresh-Admits r s key revision e new t) (superseding-KeepsApart key revision c.wall r s e)
