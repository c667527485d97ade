-- ===== src/Broker/Scheduler/Keeps.antt =====
-- The other critical sections of a worker keep every job sound.
use seele_shell.Prelude.{
  string_key, String, List, get, All, All-map, get-adjust, none, some, values, retain, ◌∷◌, [], ◌+◌,
  string_key, ℕ, ◌≡◌, String, false, arith, Bool, true, All-retain_of, Entries-values, sort_by-All,
  Entries-zip, Entries-self, adjust, map_values-IsDistinct, Entries-map_values, first, subst, sym,
  All-first, if_cases, option_cases,
}
use seele_shell.Broker.Job.{
  Job, Config, queued, finish, terminal, is_terminal, u64, Clock, Selection, is_queued, is_pending,
}
use seele_shell.Broker.Invariant.{IsSound, Store, adjust-Store}
use seele_shell.Broker.Scheduler.{
  close_job, begin, State, is_due, requeue, requeue_all, wake, due_le, choose, close, pick, queue,
  Pick, queue_le, leave, sleep_for, sleep, run_job,
}

module _ (config : Config) where
  pub begin-IsSound :
      (k : String) (wall : ℕ) (j : Job)
      → is_terminal j.phase ≡ false
      → IsSound config k j
      → IsSound config k (begin wall j)
  unfolding begin
  begin-IsSound k wall j live h = ground arith

  pub close_job-IsSound :
      (k : String) (wall : ℕ) (j : Job) → IsSound config k j → IsSound config k (close_job wall j)
  unfolding close_job terminal finish
  close_job-IsSound k wall j h = ground arith

  pub requeued_job-IsSound :
      (k : String) (n : ℕ) (j : Job)
      → is_terminal j.phase ≡ false
      → IsSound config k j
      → IsSound config k (record j { phase = queued; sequence = n })
  requeued_job-IsSound k n j live h = ground arith

-- The job at the id, if there is one, waits to be run.
pub is_pending_at : State → String → Bool
is_pending_at s id = elim (get id s.jobs) [ none ↦ true | some e ↦ is_pending e.phase ]

pub pending_of :
    (s : State) (id : String) (j : Job)
    → get id s.jobs ≡ some j
    → is_pending_at s id ≡ true
    → is_pending j.phase ≡ true
unfolding is_pending_at
pending_of s id j e h = ground arith

is_pending_at-requeue :
    (s : State) (j : Job) (id : String)
    → is_pending_at s id ≡ true
    → is_pending_at (requeue s j) id ≡ true
unfolding is_pending_at requeue
is_pending_at-requeue s j id h = ground (
  arith,
  get-adjust j.id id (λ k. record k { phase = queued; sequence = u64 (s.sequence + 1) }) s.jobs,
)

-- What requeueing one pending job keeps, requeueing a list of them keeps.
requeue_all_keeps {ℓ} :
    (P : State → Type ℓ)
    → ((s : State) (j : Job) → is_pending_at s j.id ≡ true → P s → P (requeue s j))
    → (s : State) (js : List Job) → All (λ j. is_pending_at s j.id ≡ true) js
    → P s
    → P (requeue_all s js)
unfolding requeue_all
requeue_all_keeps P g s [] live h = h
requeue_all_keeps P g s (j ∷ js) live h =
    requeue_all_keeps P g (requeue s j) js (All-map (λ k. is_pending_at-requeue s j k.id) js live.1)
      (g s j live.0 h)

due_pending_at :
    (current : ℕ) (s : State) (k : String) (j : Job)
    → get k s.jobs ≡ some j
    → j.id ≡ k
    → is_due current j ≡ true
    → is_pending_at s j.id ≡ true
unfolding is_pending_at is_due
due_pending_at current s k j e i due =
    subst (λ x. is_pending_at s x ≡ true) (sym i) (rw (e, is_pending_at) (ground arith))

-- Under distinct keys each due job is pending where its id points.
due_pending :
    (config : Config) (current : ℕ) (s : State)
    → Store config s.jobs
    → All (λ j. is_pending_at s j.id ≡ true) (retain (is_due current) (values s.jobs))
due_pending config current s h = All-retain_of _ (is_due current) (values s.jobs) (
    Entries-values _ _ (λ k j e. due_pending_at current s k j e.0 e.1.keyed) s.jobs
      (Entries-zip _ _ s.jobs (Entries-self s.jobs h.distinct) h.sound))

-- A property of the state that requeueing a pending job keeps survives the waking of all.
pub wake_keeps {ℓ} :
    (P : State → Type ℓ) (config : Config) (current : ℕ) (s : State)
    → ((t : State) (j : Job) → is_pending_at t j.id ≡ true → P t → P (requeue t j))
    → Store config s.jobs
    → P s
    → P (wake current s)
unfolding wake
wake_keeps P config current s g h p =
    requeue_all_keeps P g s _
      (sort_by-All due_le _ (retain (is_due current) (values s.jobs))
        (due_pending config current s h))
      p

requeue-Store :
    (config : Config) (s : State) (j : Job)
    → is_pending_at s j.id ≡ true
    → Store config s.jobs
    → Store config (requeue s j).jobs
unfolding requeue is_pending_at
requeue-Store config s j live h =
    adjust-Store config j.id _ s.jobs
      (λ v e p. requeued_job-IsSound config j.id _ v (ground arith) p) h

pub wake-Store :
    (config : Config) (current : ℕ) (s : State)
    → Store config s.jobs
    → Store config (wake current s).jobs
wake-Store config current s h =
    wake_keeps (λ t. Store config t.jobs) config current s (requeue-Store config) h h

-- What the queue holds is queued, and stands in the map under its id.
pub queue-All :
    (config : Config) (s : State)
    → Store config s.jobs
    → All (λ j. (get j.id s.jobs ≡ some j) × (j.phase ≡ queued)) (queue s)
unfolding queue
queue-All config s h = sort_by-All queue_le _ (retain (λ j. is_queued j.phase) (values s.jobs)) (
    All-retain_of _ (λ j. is_queued j.phase) (values s.jobs)
      (Entries-values _ _
        (λ k j e q. (subst (λ x. get x s.jobs ≡ some j) (sym e.1.keyed) e.0, ground arith)) s.jobs
        (Entries-zip _ _ s.jobs (Entries-self s.jobs h.distinct) h.sound)))

-- What a worker finds: nothing left to do, nothing to run, or a queued job of the woken state.
pub pick_cases {ℓ} :
    (config : Config) (P : State × Pick → Type ℓ) (c : Clock) (s : State)
    → Store config s.jobs
    → (s.closed ≡ true → P (s, leave))
    → (first (queue (wake c.instant s)) ≡ none
        → P (wake c.instant s, sleep_for (sleep c.instant (wake c.instant s))))
    → ((j : Job)
        → first (queue (wake c.instant s)) ≡ some j
        → get j.id (wake c.instant s).jobs ≡ some j
        → j.phase ≡ queued
        → let woken = wake c.instant s in
          P (record woken { jobs = adjust j.id (begin c.wall) woken.jobs }, run_job j.id j.request))
    → P (pick c s)
unfolding pick
pick_cases config P c s h closed empty found = if_cases P s.closed _ _ closed λ _.
    option_cases P (first (queue (wake c.instant s))) _ _ empty λ j f.
      let (at, q) =
        All-first _ (queue (wake c.instant s))
          (queue-All config (wake c.instant s) (wake-Store config c.instant s h)) f in
      found j f at q

pub pick-Store :
    (config : Config) (c : Clock) (s : State) → Store config s.jobs → Store config (pick c s).0.jobs
pick-Store config c s h =
    pick_cases config (λ r. Store config r.0.jobs) c s h (λ _. h)
      (λ _. wake-Store config c.instant s h)
      (λ j f at q.
        adjust-Store config j.id (begin c.wall) _
          (λ k e p. begin-IsSound config j.id c.wall k (ground arith) p)
          (wake-Store config c.instant s h))

pub chosen_job-IsSound :
    (config : Config) (k : String) (n : Selection) (wall : ℕ) (j : Job)
    → IsSound config k j
    → IsSound config k (record j { selection = some n; updated = wall })
chosen_job-IsSound config k n wall j h = ground arith

pub choose-Store :
    (config : Config) (id : String) (n : Selection) (c : Clock) (s : State)
    → Store config s.jobs
    → Store config (choose id n c s).0.jobs
unfolding choose
choose-Store config id n c s h =
    let changed =
      adjust-Store config id _ s.jobs (λ j e p. chosen_job-IsSound config id n c.wall j p) h in
    ground (arith, h, changed)

pub close-Store :
    (config : Config) (c : Clock) (s : State) → Store config s.jobs → Store config (close c s).jobs
unfolding close
close-Store config c s h = record {
  distinct = map_values-IsDistinct _ s.jobs h.distinct;
  sound =
      Entries-map_values _ _ (close_job c.wall) (λ k j p. close_job-IsSound config k c.wall j p)
        s.jobs h.sound;
}
