-- ===== src/Broker/System/Workers.antt =====
-- The steps of the workers, of `close` and of `clear` keep the invariant.
use seele_shell.Prelude.{
  List, String, ℕ, ◌≡◌, true, refl, arith, get, some, ◌∷◌, adjust, contains_key, false,
  Option-cases, get-adjust, eq_iff, inl, contains_key-get, string_key, inr, Entries-get, Bool,
  Entries-imp, option_cases, if_cases, ◌||◌,
}
use seele_shell.Broker.Job.{Config, Clock, Job, queued, Selection, terminal, finish}
use seele_shell.Broker.Invariant.{Revisions}
use seele_shell.Broker.System.{System, Inv, Jobwise, launch, Flying, FliesAt}
use seele_shell.Broker.Validation.{Request}
use seele_shell.Broker.Scheduler.{
  State, pick, requeue, wake, begin, choose, clear, close, close_job,
}
use seele_shell.Broker.Scheduler.Keeps.{
  is_pending_at, wake_keeps, requeued_job-IsSound, pending_of, pick_cases, begin-IsSound,
  chosen_job-IsSound, close_job-IsSound,
}
use seele_shell.Broker.System.Kept.{adjust-Jobwise, kept_current, map_values-Jobwise}

module _ (config : Config) (revisions : Revisions) (flight : List (String × Request)) where
  requeue-Jobwise :
      (s : State) (j : Job)
      → is_pending_at s j.id ≡ true
      → Jobwise config revisions flight s.jobs
      → Jobwise config revisions flight (requeue s j).jobs
  unfolding requeue
  requeue-Jobwise s j p h =
      adjust-Jobwise config revisions flight j.id _ s.jobs
        (λ k e q. requeued_job-IsSound config j.id _ k (ground (arith, pending_of s j.id k e p)) q)
        (λ k e q. kept_current revisions k _ refl (ground (arith, pending_of s j.id k e p)) q)
        (λ k r e q. ground (arith, pending_of s j.id k e p)) h

requeue-Inv :
    (config : Config) (flight : List (String × Request)) (s : State) (j : Job)
    → is_pending_at s j.id ≡ true
    → Inv config (record { state = s; flight = flight })
    → Inv config (record { state = requeue s j; flight = flight })
unfolding requeue
requeue-Inv config flight s j p h = record {
  jobwise = requeue-Jobwise config s.revisions flight s j p h.jobwise;
  alone = h.alone;
  retired_bounded = h.retired_bounded;
  revisions_bounded = h.revisions_bounded;
}

wake-Inv :
    (config : Config) (current : ℕ) (y : System)
    → Inv config y
    → Inv config (record y { state = wake current y.state })
wake-Inv config current y h =
    wake_keeps (λ t. Inv config (record y { state = t })) config current y.state
      (λ t j. requeue-Inv config y.flight t j) h.jobwise.store h

-- Of a queued job no attempt runs.
queued_alone :
    (m : List (String × Job)) (flight : List (String × Request)) (id : String) (j : Job)
    → get id m ≡ some j
    → j.phase ≡ queued
    → Flying m flight
    → contains_key id flight ≡ false
queued_alone m flight id j e q h = elim (Option-cases (get id flight)) [
  | inl n ↦ ground (arith, contains_key-get id flight, n)
  | inr (r, f) ↦
      let flies = Entries-get (λ at x. FliesAt (get at m) x) id flight h f in
      absurd (ground (arith, flies))
]

begun-Jobwise :
    (config : Config) (revisions : Revisions) (flight : List (String × Request)) (wall : ℕ)
    (m : List (String × Job)) (j : Job)
    → get j.id m ≡ some j
    → j.phase ≡ queued
    → Jobwise config revisions flight m
    → Jobwise config revisions ((j.id, j.request) ∷ flight) (adjust j.id (begin wall) m)
unfolding begin
begun-Jobwise config revisions flight wall m j e q h =
    let kept =
      adjust-Jobwise config revisions flight j.id (begin wall) m
        (λ k f p. begin-IsSound config j.id wall k (ground arith) p)
        (λ k f p. kept_current revisions k _ refl (ground arith) p) (λ k r f p. ground arith) h in
    record {
      store = kept.store;
      current = kept.current;
      flying = (ground (arith, get-adjust j.id j.id (begin wall) m, eq_iff j.id j.id), kept.flying);
      bounded = kept.bounded;
    }

pub pick-Inv :
    (config : Config) (c : Clock) (y : System)
    → Inv config y
    → Inv config
        (record { state = (pick c y.state).0; flight = launch (pick c y.state).1 y.flight })
unfolding launch
pick-Inv config c y h =
    let w = wake-Inv config c.instant y h in
    pick_cases config (λ r. Inv config (record { state = r.0; flight = launch r.1 y.flight })) c
      y.state h.jobwise.store (λ _. h) (λ _. w)
      λ j f at q. record {
        jobwise = begun-Jobwise config _ y.flight c.wall _ j at q w.jobwise;
        alone = (queued_alone _ y.flight j.id j at q w.jobwise.flying, h.alone);
        retired_bounded = w.retired_bounded;
        revisions_bounded = w.revisions_bounded;
      }

chosen-Inv :
    (config : Config) (id : String) (n : Selection) (wall : ℕ) (y : System)
    → Inv config y
    → Inv config (record y {
      state = record y.state {
        jobs = adjust id (λ j. record j { selection = some n; updated = wall }) y.state.jobs;
      };
    })
chosen-Inv config id n wall y h = record {
  jobwise =
      adjust-Jobwise config y.state.revisions y.flight id _ y.state.jobs
        (λ j e p. chosen_job-IsSound config id n wall j p)
        (λ j e p. kept_current y.state.revisions j _ refl (λ s. s) p) (λ j r e p. p) h.jobwise;
  alone = h.alone;
  retired_bounded = h.retired_bounded;
  revisions_bounded = h.revisions_bounded;
}

pub choose-Inv :
    (config : Config) (id : String) (n : Selection) (c : Clock) (y : System)
    → Inv config y
    → Inv config (record y { state = (choose id n c y.state).0 })
unfolding choose
choose-Inv config id n c y h =
    let P : State × Bool → Type 0 = λ r. Inv config (record y { state = r.0 }) in
    option_cases P (get id y.state.jobs) _ _ (λ _. h)
      λ (j : Job) e.
        if_cases P (terminal j || j.stopped) _ _ (λ _. h) (λ _. chosen-Inv config id n c.wall y h)

pub close-Inv :
    (config : Config) (c : Clock) (y : System)
    → Inv config y
    → Inv config (record y { state = close c y.state })
unfolding close terminal finish
close-Inv config c y h = record {
  jobwise =
      map_values-Jobwise config y.state.revisions y.flight (close_job c.wall) y.state.jobs
        (λ k j. close_job-IsSound config k c.wall j)
        (λ j p. kept_current y.state.revisions j _ (ground arith) (ground arith) p)
        (λ j r p. ground arith) h.jobwise;
  alone = h.alone;
  retired_bounded = h.retired_bounded;
  revisions_bounded = h.revisions_bounded;
}

pub clear-Inv :
    (config : Config) (y : System) → Inv config y → Inv config (record y { state = clear y.state })
unfolding clear
clear-Inv config y h = record {
  jobwise = record {
    store = record { distinct = tt; sound = tt };
    current = tt;
    flying = Entries-imp _ _ (λ k r _. tt) y.flight h.jobwise.flying;
    bounded = omega arith;
  };
  alone = h.alone;
  retired_bounded = omega arith;
  revisions_bounded = omega arith;
}
