-- ===== src/Broker/Scheduler/Order.antt =====
-- The queue is in order, and a worker takes its head.
use seele_shell.Prelude.{
  List, Ordered, first, ◌≡◌, none, some, true, All, Entries, arith, ◌⊎◌, ◌∷◌, false, retain,
  some-injective, inl, values, Entries-of_values, sym, All-map, All-retain_back, inr,
  sort_by-All_of, subst, [], sort_by, sort_by-Ordered, All-first-none, Bool, ℕ, String, refl, get,
  adjust, get-adjust, eq_iff, string_key,
}
use seele_shell.Broker.Scheduler.{
  queue, queue_le, State, wake, begin, pick, run_job, sleep_for, sleep,
}
use seele_shell.Broker.Job.{Job, is_queued, Config, Clock, queued}
use seele_shell.Broker.Invariant.{Store}
use seele_shell.Broker.Scheduler.Keeps.{pick_cases}

queue_le_total : (a b : Job) → (queue_le a b ≡ true) ⊎ (queue_le b a ≡ true)
unfolding queue_le
queue_le_total a b = ground arith

queue_le_trans : (a b c : Job) → queue_le a b ≡ true → queue_le b c ≡ true → queue_le a c ≡ true
unfolding queue_le
queue_le_trans a b c h k = ground arith

first-Ordered :
    (js : List Job) {j : Job}
    → Ordered queue_le js
    → first js ≡ some j
    → All (λ k. (j ≡ k) ⊎ (queue_le j k ≡ true)) js
first-Ordered [] o e = tt
first-Ordered (k ∷ ks) {j} o e =
    let same : k ≡ j = some-injective k j e in
    (inl (sym same), All-map (λ x q. inr (subst (λ y. queue_le y x ≡ true) same q)) ks o.0)

queue_le_refl : (j : Job) → queue_le j j ≡ true
unfolding queue_le
queue_le_refl j = ground arith

-- The head of the queue comes before every queued job of the map.
pub queue-head :
    (s : State) {j : Job}
    → first (queue s) ≡ some j
    → Entries (λ k x. is_queued x.phase ≡ true → queue_le j x ≡ true) s.jobs
unfolding queue
queue-head s {j} e =
    let js = retain (λ j. is_queued j.phase) (values s.jobs) in
    Entries-of_values _ _ (λ k x h. h) s.jobs
      (All-retain_back _ (λ j. is_queued j.phase) (values s.jobs)
        (sort_by-All_of queue_le _ js (
          All-map
            (λ x. elim [
              | inl same ↦ subst (λ y. queue_le j y ≡ true) same (queue_le_refl j)
              | inr h ↦ h
            ])
            (sort_by queue_le js)
            (first-Ordered (sort_by queue_le js)
              (sort_by-Ordered queue_le queue_le_total queue_le_trans js) e))))

not_queued : (b : Bool) → (b ≡ true → ⊥) → b ≡ false
not_queued true h = absurd (h refl)
not_queued false h = refl

begun_at :
    (j : Job) (wall : ℕ) (m : List (String × Job))
    → get j.id m ≡ some j
    → get j.id (adjust j.id (begin wall) m) ≡ some (begin wall j)
begun_at j wall m e = ground (arith, get-adjust j.id j.id (begin wall) m, eq_iff j.id j.id, e)

-- With an empty queue no job of the map is queued.
pub queue-empty :
    (s : State) → first (queue s) ≡ none → Entries (λ k x. is_queued x.phase ≡ false) s.jobs
unfolding queue
queue-empty s e =
    let js = retain (λ j. is_queued j.phase) (values s.jobs) in
    Entries-of_values _ (λ x. is_queued x.phase ≡ true → ⊥)
      (λ k x h. not_queued (is_queued x.phase) h) s.jobs
      (All-retain_back (λ _. ⊥) (λ j. is_queued j.phase) (values s.jobs)
        (sort_by-All_of queue_le _ js (All-first-none _ (sort_by queue_le js) e)))

-- A worker that finds the broker open either begins the job of a due or queued request that comes
-- before every other queued job (promoted first, then interactive, then the older sequence), or
-- goes to sleep, and then no job is queued.
pub pick_serves_head :
    (config : Config) (c : Clock) (s : State)
    → Store config s.jobs
    → s.closed ≡ false
    → ((j : Job) × (get j.id (wake c.instant s).jobs ≡ some j)
        × (j.phase ≡ queued)
        × ((pick c s).1 ≡ run_job j.id j.request)
        × (get j.id (pick c s).0.jobs ≡ some (begin c.wall j))
        × Entries (λ k x. is_queued x.phase ≡ true → queue_le j x ≡ true) (wake c.instant s).jobs)
      ⊎ ((n : ℕ) × ((pick c s).1 ≡ sleep_for n)
          × Entries (λ k x. is_queued x.phase ≡ false) (pick c s).0.jobs)
pick_serves_head config c s h open_ =
    pick_cases config
      (λ r.
        ((j : Job) × (get j.id (wake c.instant s).jobs ≡ some j)
          × (j.phase ≡ queued)
          × (r.1 ≡ run_job j.id j.request)
          × (get j.id r.0.jobs ≡ some (begin c.wall j))
          × Entries (λ k x. is_queued x.phase ≡ true → queue_le j x ≡ true) (wake c.instant s).jobs)
        ⊎ ((n : ℕ) × (r.1 ≡ sleep_for n) × Entries (λ k x. is_queued x.phase ≡ false) r.0.jobs))
      c s h (λ e. cc)
      (λ e. inr (sleep c.instant (wake c.instant s), refl, queue-empty (wake c.instant s) e))
      (λ j f at q. inl (
        j,
        at,
        q,
        refl,
        begun_at j c.wall (wake c.instant s).jobs at,
        queue-head (wake c.instant s) f,
      ))
