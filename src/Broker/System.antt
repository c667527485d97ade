-- ===== src/Broker/System.antt =====
-- The broker as a whole: the shared state with the attempts that its workers run, and its steps.
-- Each step is one critical section of projects/broker/src/lifecycle.rs, in any order and number.
pub mod Kept
pub mod Workers
pub mod Settling
pub mod Performing
pub mod Requests
pub mod Reachable
pub mod Watermarks
pub mod Results
use seele_shell.Prelude.{
  List, Option, Bool, String, Entries, IsDistinct, true, false, get, length, some, string_key, ◌∷◌,
  ◌≡◌, ◌≤◌, remove, contains_key, none,
}
use seele_shell.Broker.Job.{Config, Phase, Job, Clock, Selection, running, cancelled, superseded}
use seele_shell.Broker.Scheduler.{
  Pick, State, pick, run_job, choose, sleep_for, close, clear, leave,
}
use seele_shell.Broker.Invariant.{Revisions, Store, is_current}
use seele_shell.Broker.Validation.{Request}
use seele_shell.Broker.Submission.{max_revisions}
use seele_shell.Broker.Settlement.{Answer, settle, check_output}
use seele_shell.Broker.Protocol.{Command, turn}

pub record System : Type 0 where
  pub state : State
  pub flight : List (String × Request)  -- the attempts outside the lock

unfoldable pub launch : Pick → List (String × Request) → List (String × Request)
launch (run_job id r) flight = (id, r) ∷ flight
launch leave flight = flight
launch (sleep_for n) flight = flight

-- A fresh id is no running attempt's: `fresh` is a new random UUID.
pub data Step (config : Config) (epoch : String) (y : System) : System → Type 0 where
  picks :
      (c : Clock)
      → Step config epoch y
          (record { state = (pick c y.state).0; flight = launch (pick c y.state).1 y.flight })
  chooses :
      (id : String) (selection : Selection) (c : Clock)
      → Step config epoch y (record y { state = (choose id selection c y.state).0 })
  settles :
      (id : String) (r : Request) (a : Answer) (c : Clock)
      → get id y.flight ≡ some r
      → Step config epoch y (record {
        state = settle config id (check_output r a) c y.state;
        flight = remove id y.flight;
      })
  serves :
      (fresh : String) (command : Command) (c : Clock)
      → contains_key fresh y.flight ≡ false
      → Step config epoch y (record y { state = (turn config epoch fresh c command y.state).0 })
  closes : (c : Clock) → Step config epoch y (record y { state = close c y.state })
  clears : Step config epoch y (record y { state = clear y.state })

pub data Reach (config : Config) (epoch : String) (y : System) : System → Type 0 where
  here : Reach config epoch y y
  then_step :
      {z w : System} → Reach config epoch y z → Step config epoch z w → Reach config epoch y w

abbrev pub is_flying : Phase → Bool
is_flying running = true
is_flying cancelled = true
is_flying superseded = true
is_flying _ = false

-- The job of a running attempt, if it is still there, runs that request or was given up.
abbrev pub FliesAt : Option Job → Request → Type 0
FliesAt none r = Unit {0}
FliesAt (some j) r = (is_flying j.phase ≡ true) × (j.request ≡ r)

abbrev pub Flying : List (String × Job) → List (String × Request) → Type 0
Flying m = Entries (λ id r. FliesAt (get id m) r)

abbrev pub Current : Revisions → List (String × Job) → Type 0
Current revisions = Entries (λ k j. is_current revisions j ≡ true)

-- The parts of the invariant that a change of jobs must keep.
pub record Jobwise (config : Config) (revisions : Revisions) (flight : List (String × Request))
    (m : List (String × Job)) : Type 0 where
  pub store : Store config m
  pub current : Current revisions m
  pub flying : Flying m flight
  pub bounded : length m ≤ config.capacity

-- What holds between two critical sections.
pub record Inv (config : Config) (y : System) : Type 0 where
  pub jobwise : Jobwise config y.state.revisions y.flight y.state.jobs
  pub alone : IsDistinct y.flight
  pub retired_bounded : length y.state.retired ≤ 128
  pub revisions_bounded : length y.state.revisions ≤ max_revisions
