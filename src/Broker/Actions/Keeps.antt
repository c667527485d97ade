-- ===== src/Broker/Actions/Keeps.antt =====
-- An action on a job keeps the store, and how it ends.
use seele_shell.Prelude.{
  String, get, ◌≡◌, false, none, true, some, arith, remove-IsDistinct, Entries-remove, string_key,
  option_cases, if_cases, ◌&&◌, not, List, refl, adjust, map_values, get-map_values,
  map_values-IsDistinct, Entries-map_values,
}
use seele_shell.Broker.Actions.{act_on, apply_action, is_wait, refused, reset, perform, demote}
use seele_shell.Broker.Job.{
  finish, terminal, Config, Clock, Job, unknown_job, is_terminal, invalid_state,
}
use seele_shell.Broker.Scheduler.{State}
use seele_shell.Broker.Turns.{
  status, cancel, retry, next, release, Turn, Action, fails, wait, blocks,
}
use seele_shell.Broker.Invariant.{IsSound, Store, adjust-Store}

is_wait_of : (a : Action) → is_wait a ≡ true → a ≡ wait
unfolding is_wait
is_wait_of wait h = refl
is_wait_of status h = cc
is_wait_of cancel h = cc
is_wait_of retry h = cc
is_wait_of next h = cc
is_wait_of release h = cc

-- The ways in which an action ends.
pub act_cases {ℓ} :
    (P : State × Turn → Type ℓ) (config : Config) (a : Action) (c : Clock) (id : String) (s : State)
    → (get id s.jobs ≡ none → P (s, fails unknown_job))
    → ((j : Job) → get id s.jobs ≡ some j → a ≡ wait → is_terminal j.phase ≡ false → P (s, blocks))
    → ((j : Job) → get id s.jobs ≡ some j → refused a j.phase ≡ true → P (s, fails invalid_state))
    → ((j : Job)
        → get id s.jobs ≡ some j
        → refused a j.phase ≡ false
        → (a ≡ wait → is_terminal j.phase ≡ true)
        → P (perform config a c id j s))
    → P (act_on config a c id s)
unfolding act_on is_wait terminal
act_cases P config a c id s missing pending bad good =
    option_cases P (get id s.jobs) _ _ missing λ (j : Job) e.
      if_cases P (is_wait a && not (terminal j)) _ _
        (λ w. pending j e (is_wait_of a (ground arith)) (ground arith))
        λ w. if_cases P (refused a j.phase) _ _ (bad j e) λ r. good j e r (λ q. ground arith)

pub applied-IsSound :
    (config : Config) (k : String) (a : Action) (c : Clock) (j : Job)
    → refused a j.phase ≡ false
    → IsSound config k j
    → IsSound config k (apply_action a c j)
unfolding apply_action refused finish reset
applied-IsSound config k cancel c j r h = ground arith
applied-IsSound config k retry c j r h = ground arith
applied-IsSound config k next c j r h = ground arith
applied-IsSound config k status c j r h = h
applied-IsSound config k wait c j r h = h
applied-IsSound config k release c j r h = h

pub demote-IsSound :
    (config : Config) (k : String) (j : Job) → IsSound config k j → IsSound config k (demote j)
demote-IsSound config k j h = ground arith

demoted-Store :
    (config : Config) (m : List (String × Job))
    → Store config m
    → Store config (map_values demote m)
demoted-Store config m h = record {
  distinct = map_values-IsDistinct demote m h.distinct;
  sound = Entries-map_values _ _ demote (demote-IsSound config) m h.sound;
}

changed-Store :
    (config : Config) (a : Action) (c : Clock) (id : String) (j : Job) (m : List (String × Job))
    → refused a j.phase ≡ false
    → get id m ≡ some j
    → Store config m
    → Store config (adjust id (apply_action a c) m)
changed-Store config a c id j m r e h =
    adjust-Store config id (apply_action a c) m
      (λ k g p. applied-IsSound config id a c k (ground (arith, e, g)) p) h

pub perform-Store :
    (config : Config) (a : Action) (c : Clock) (id : String) (j : Job) (s : State)
    → refused a j.phase ≡ false
    → get id s.jobs ≡ some j
    → Store config s.jobs
    → Store config (perform config a c id j s).0.jobs
unfolding perform
perform-Store config release c id j s r e h = record {
  distinct = remove-IsDistinct id s.jobs h.distinct;
  sound = Entries-remove (IsSound config) id s.jobs h.sound;
}
perform-Store config next c id j s r e h =
    adjust-Store config id (apply_action next c) (map_values demote s.jobs)
      (λ k g p.
        applied-IsSound config id next c k (ground (arith, e, get-map_values id demote s.jobs)) p)
      (demoted-Store config s.jobs h)
perform-Store config status c id j s r e h = changed-Store config status c id j s.jobs r e h
perform-Store config wait c id j s r e h = changed-Store config wait c id j s.jobs r e h
perform-Store config cancel c id j s r e h = changed-Store config cancel c id j s.jobs r e h
perform-Store config retry c id j s r e h = changed-Store config retry c id j s.jobs r e h

pub act_on-Store :
    (config : Config) (a : Action) (c : Clock) (id : String) (s : State)
    → Store config s.jobs
    → Store config (act_on config a c id s).0.jobs
act_on-Store config a c id s h =
    act_cases (λ t. Store config t.0.jobs) config a c id s (λ _. h) (λ _ _ _ _. h) (λ _ _ _. h)
      (λ j e r _. perform-Store config a c id j s r e h)
