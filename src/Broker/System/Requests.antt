-- ===== src/Broker/System/Requests.antt =====
-- The requests of clients keep the invariant.
use seele_shell.Prelude.{
  List, ℕ, String, ◌≡◌, contains_key, true, false, insert, ◌⊎◌, length, pair_key, ◌<◌, ◌+◌,
  Entries-map_values, Entries-imp, Entries-insert, Entries-other, arith, subst, length-map_values,
  length-insert, sym, get-insert, if_cases, str_eq, string_key, Option-cases, inl, none, some, inr,
  pair_eq_iff, length-retain-le, ltb, ◌-◌,
}
use seele_shell.Broker.Job.{Config, finish, Clock, Job, u64, item_key, Metadata}
use seele_shell.Broker.Invariant.{Revisions, is_current}
use seele_shell.Broker.Submission.{
  enqueue, supersede_job, has_item, new_job, max_revisions, submit_request,
}
use seele_shell.Broker.Submission.Keeps.{superseding, supersede-Store, enqueue-Store, submit_cases}
use seele_shell.Broker.Validation.{Request}
use seele_shell.Broker.Scheduler.{State}
use seele_shell.Broker.Turns.{Turn}
use seele_shell.Broker.System.{Inv, FliesAt, System}
use seele_shell.Broker.System.Kept.{map_values-FliesAt}
use seele_shell.Broker.Protocol.{list_jobs, serve, turn, Command, submits, acts, lists}
use seele_shell.Broker.System.Performing.{message-Inv}

-- The parts of a state on which the invariant depends, with a running set of attempts.
abbrev Holds : Config → List (String × Request) → State × Turn → Type 0
Holds config flight r = Inv config (record { state = r.0; flight = flight })

enqueue-Inv :
    (config : Config) (flight : List (String × Request)) (id : String) (c : Clock) (r : Request)
    (s : State)
    → contains_key id flight ≡ false
    → length s.jobs < config.capacity
    → ((n : ℕ) → is_current s.revisions (new_job n id c r) ≡ true)
    → Inv config (record { state = s; flight = flight })
    → Holds config flight (enqueue config id c r s)
unfolding enqueue
enqueue-Inv config flight id c r s fresh room now h =
    let j = new_job (u64 (s.sequence + 1)) id c r in
    record {
      jobwise = record {
        store = enqueue-Store config id c r s h.jobwise.store;
        current = Entries-insert _ id j s.jobs (now _) h.jobwise.current;
        flying =
            Entries-other _ _ id flight fresh
              (λ at x ne p.
                subst (λ o. FliesAt o x) (sym (get-insert id at j s.jobs))
                  (if_cases (λ o. FliesAt o x) (str_eq id at) _ _ (λ e. cc) (λ _. p)))
              h.jobwise.flying;
        bounded = ground (arith, length-insert id j s.jobs);
      };
      alone = h.alone;
      retired_bounded = h.retired_bounded;
      revisions_bounded = h.revisions_bounded;
    }

-- Superseding an item leaves the other jobs current under the new watermark.
supersede_current :
    (revisions : Revisions) (key : String × String) (revision wall : ℕ) (j : Job)
    → is_current revisions j ≡ true
    → is_current (insert key revision revisions) (supersede_job key wall j) ≡ true
unfolding is_current supersede_job has_item finish
supersede_current revisions key revision wall j h = elim (Option-cases (item_key j.request)) [
  | inl e ↦ ground (arith, e)
  | inr (k, e) ↦
      ground
        (arith, e, get-insert key k.0 revision revisions, pair_eq_iff k.0 key, pair_eq_iff key k.0)
]

superseding-Inv :
    (config : Config) (flight : List (String × Request)) (key : String × String) (revision wall : ℕ)
    (s : State)
    → (contains_key key s.revisions ≡ true) ⊎ (length s.revisions < max_revisions)
    → Inv config (record { state = s; flight = flight })
    → Inv config (record { state = superseding key revision wall s; flight = flight })
unfolding superseding supersede_job finish
superseding-Inv config flight key revision wall s room h = record {
  jobwise = record {
    store = supersede-Store config key wall s.jobs h.jobwise.store;
    current =
        Entries-map_values _ _ _ (λ k j p. supersede_current s.revisions key revision wall j p)
          s.jobs h.jobwise.current;
    flying =
        Entries-imp _ _ (λ at r p. map_values-FliesAt at _ s.jobs r (λ j q. ground arith) p) flight
          h.jobwise.flying;
    bounded = rw (length-map_values (supersede_job key wall) s.jobs) h.jobwise.bounded;
  };
  alone = h.alone;
  retired_bounded = h.retired_bounded;
  revisions_bounded = ground (arith, length-insert key revision s.revisions, h.revisions_bounded);
}

new_current :
    (revisions : Revisions) (key : String × String) (revision n : ℕ) (id : String) (c : Clock)
    (r : Request)
    → item_key r ≡ some (key, revision)
    → is_current (insert key revision revisions) (new_job n id c r) ≡ true
unfolding is_current new_job
new_current revisions key revision n id c r e =
    ground (arith, e, get-insert key key revision revisions, pair_eq_iff key key)

new_plain :
    (revisions : Revisions) (n : ℕ) (id : String) (c : Clock) (r : Request)
    → item_key r ≡ none
    → is_current revisions (new_job n id c r) ≡ true
unfolding is_current new_job
new_plain revisions n id c r e = ground (arith, e)

superseding_room :
    (key : String × String) (revision wall : ℕ) (s : State) {n : ℕ}
    → length s.jobs < n
    → length (superseding key revision wall s).jobs < n
unfolding superseding
superseding_room key revision wall s h = rw (length-map_values (supersede_job key wall) s.jobs) h

superseding_new :
    (key : String × String) (revision : ℕ) (c : Clock) (s : State) (n : ℕ) (id : String)
    (r : Request)
    → item_key r ≡ some (key, revision)
    → is_current (superseding key revision c.wall s).revisions (new_job n id c r) ≡ true
unfolding superseding
superseding_new key revision c s n id r = new_current s.revisions key revision n id c r

submit-Inv :
    (config : Config) (flight : List (String × Request)) (id : String) (c : Clock) (r : Request)
    (s : State)
    → contains_key id flight ≡ false
    → Inv config (record { state = s; flight = flight })
    → Holds config flight (submit_request config id c r s)
submit-Inv config flight id c r s fresh h =
    submit_cases (Holds config flight) config id c r s (λ _. h)
      (λ room e.
        enqueue-Inv config flight id c r s fresh room (λ n. new_plain s.revisions n id c r e) h)
      (λ _ _ _ _ _ _ _. h) (λ _ _ _ _ _ _. h)
      λ key revision room e _ t.
        enqueue-Inv config flight id c r (superseding key revision c.wall s) fresh
          (superseding_room key revision c.wall s room)
          (λ n. superseding_new key revision c s n id r e)
          (superseding-Inv config flight key revision c.wall s t h)

list-Inv :
    (config : Config) (flight : List (String × Request)) (c : Clock) (s : State)
    → Inv config (record { state = s; flight = flight })
    → Holds config flight (list_jobs config c s)
unfolding list_jobs
list-Inv config flight c s h = record {
  jobwise = h.jobwise;
  alone = h.alone;
  retired_bounded = omega (
    arith,
    length-retain-le {0} (λ (m : Metadata). ltb (c.wall - m.updated) 5000) s.retired,
    h.retired_bounded,
  );
  revisions_bounded = h.revisions_bounded;
}

served-Inv :
    (config : Config) (epoch : String) (flight : List (String × Request)) (fresh : String)
    (c : Clock) (command : Command) (s : State)
    → contains_key fresh flight ≡ false
    → Inv config (record { state = s; flight = flight })
    → Holds config flight (serve config epoch fresh c command s)
unfolding serve
served-Inv config epoch flight fresh c (submits r) s new h =
    submit-Inv config flight fresh c r s new h
served-Inv config epoch flight fresh c lists s new h = list-Inv config flight c s h
served-Inv config epoch flight fresh c (acts a message) s new h =
    message-Inv config epoch flight a c message s h

-- One pass of `call` under the lock keeps the invariant.
pub turn-Inv :
    (config : Config) (epoch fresh : String) (c : Clock) (command : Command) (y : System)
    → contains_key fresh y.flight ≡ false
    → Inv config y
    → Inv config (record y { state = (turn config epoch fresh c command y.state).0 })
unfolding turn
turn-Inv config epoch fresh c command y new h =
    let P : State × Turn → Type 0 = Holds config y.flight in
    let h' : Inv config (record y { state = record y.state { activity = c.instant } }) = record {
      jobwise = h.jobwise;
      alone = h.alone;
      retired_bounded = h.retired_bounded;
      revisions_bounded = h.revisions_bounded;
    } in
    if_cases P y.state.closed _ _ (λ _. h')
      λ _.
        served-Inv config epoch y.flight fresh c command (record y.state { activity = c.instant })
          new h'
