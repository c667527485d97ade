-- ===== src/Broker/Submission/Keeps.antt =====
-- A submission keeps the store and the watermarks.
use seele_shell.Prelude.{
  String, ℕ, List, insert, arith, insert-IsDistinct, map_values, Entries-insert,
  map_values-IsDistinct, pair_key, Entries-map_values, string_key, Option, ◌+◌, ◌≤◌, length, ◌≡◌,
  true, some, ◌<◌, none, get, refl, contains_key, false, ◌⊎◌, if_cases, leb, leb→le, option_cases,
  not, ◌&&◌,
}
use seele_shell.Broker.Job.{Config, finish, Clock, Job, u64, capacity, item_key, superseded_item}
use seele_shell.Broker.Submission.{
  enqueue, new_job, submit_request, supersede_job, is_obsolete, max_revisions,
}
use seele_shell.Broker.Scheduler.{State}
use seele_shell.Broker.Invariant.{IsSound, Store}
use seele_shell.Broker.Validation.{Request}
use seele_shell.Broker.Turns.{Turn, fails}

new_job-IsSound :
    (config : Config) (n : ℕ) (id : String) (c : Clock) (r : Request)
    → IsSound config id (new_job n id c r)
unfolding new_job
new_job-IsSound config n id c r = ground arith

supersede_job-IsSound :
    (config : Config) (key : String × String) (wall : ℕ) (k : String) (j : Job)
    → IsSound config k j
    → IsSound config k (supersede_job key wall j)
unfolding supersede_job finish
supersede_job-IsSound config key wall k j h = ground arith

pub enqueue-Store :
    (config : Config) (id : String) (c : Clock) (r : Request) (s : State)
    → Store config s.jobs
    → Store config (enqueue config id c r s).0.jobs
unfolding enqueue
enqueue-Store config id c r s h = record {
  distinct = insert-IsDistinct id _ s.jobs h.distinct;
  sound =
      Entries-insert (IsSound config) id _ s.jobs
        (new_job-IsSound config (u64 (s.sequence + 1)) id c r) h.sound;
}

pub supersede-Store :
    (config : Config) (key : String × String) (wall : ℕ) (m : List (String × Job))
    → Store config m
    → Store config (map_values (supersede_job key wall) m)
supersede-Store config key wall m h = record {
  distinct = map_values-IsDistinct _ m h.distinct;
  sound =
      Entries-map_values _ _ (supersede_job key wall)
        (λ k j p. supersede_job-IsSound config key wall k j p) m h.sound;
}

-- The state in which an accepted item is enqueued.
unfoldable pub superseding : String × String → ℕ → ℕ → State → State
unfolding supersede_job
superseding key revision wall s = record s {
  revisions = insert key revision s.revisions;
  jobs = map_values (supersede_job key wall) s.jobs;
}

obsolete_revision :
    (revision : ℕ) (o : Option ℕ)
    → is_obsolete revision o ≡ true
    → (old : ℕ) × (o ≡ some old) × (revision ≤ old)
unfolding is_obsolete
obsolete_revision revision none h = cc
obsolete_revision revision (some old) h = (old, refl, ground arith)

-- The five ways in which a submission ends.
pub submit_cases {ℓ} :
    (P : State × Turn → Type ℓ) (config : Config) (id : String) (c : Clock) (r : Request)
    (s : State)
    → (config.capacity ≤ length s.jobs → P (s, fails capacity))
    → (length s.jobs < config.capacity → item_key r ≡ none → P (enqueue config id c r s))
    → ((key : String × String) (revision old : ℕ)
        → length s.jobs < config.capacity
        → item_key r ≡ some (key, revision)
        → get key s.revisions ≡ some old
        → revision ≤ old
        → P (s, fails superseded_item))
    → ((key : String × String) (revision : ℕ)
        → length s.jobs < config.capacity
        → item_key r ≡ some (key, revision)
        → contains_key key s.revisions ≡ false
        → max_revisions ≤ length s.revisions
        → P (s, fails capacity))
    → ((key : String × String) (revision : ℕ)
        → length s.jobs < config.capacity
        → item_key r ≡ some (key, revision)
        → is_obsolete revision (get key s.revisions) ≡ false
        → (contains_key key s.revisions ≡ true) ⊎ (length s.revisions < max_revisions)
        → P (enqueue config id c r (superseding key revision c.wall s)))
    → P (submit_request config id c r s)
unfolding submit_request superseding
submit_cases P config id c r s full plain old table fresh =
    if_cases P (leb config.capacity (length s.jobs)) _ _ (λ h. full (leb→le _ _ h))
      λ room.
        option_cases P (item_key r) _ _ (plain (ground arith)) λ (k : (String × String) × ℕ) e.
          if_cases P (is_obsolete k.1 (get k.0 s.revisions)) _ _
            (λ o.
              let (w, at, le) = obsolete_revision k.1 (get k.0 s.revisions) o in
              old k.0 k.1 w (ground arith) e at le)
            λ n.
              if_cases P
                (not (contains_key k.0 s.revisions) && leb max_revisions (length s.revisions)) _ _
                (λ t. table k.0 k.1 (ground arith) e (ground arith) (ground arith))
                λ t. fresh k.0 k.1 (ground arith) e n (ground arith)
