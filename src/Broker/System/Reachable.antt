-- ===== src/Broker/System/Reachable.antt =====
-- Every state that the broker can reach satisfies the invariant.
use seele_shell.Prelude.{String, [], arith, ◌<◌, ◌^◌}
use seele_shell.Broker.Job.{Clock, Config}
use seele_shell.Broker.Scheduler.{new}
use seele_shell.Broker.System.{
  Inv, System, Reach, Step, picks, then_step, here, chooses, settles, serves, closes, clears,
}
use seele_shell.Broker.System.Workers.{pick-Inv, choose-Inv, close-Inv, clear-Inv}
use seele_shell.Broker.System.Settling.{settle-Inv}
use seele_shell.Broker.System.Requests.{turn-Inv}

step-Inv :
    {config : Config} {epoch : String} {y z : System}
    → config.schema_attempts < 2 ^ 32
    → Step config epoch y z
    → Inv config y
    → Inv config z
step-Inv {config = config} {y = y} fits (picks c) h = pick-Inv config c y h
step-Inv {config = config} {y = y} fits (chooses id n c) h = choose-Inv config id n c y h
step-Inv {config = config} {y = y} fits (settles id r a c f) h =
    settle-Inv config id r a c y fits f h
step-Inv {config = config} {epoch = epoch} {y = y} fits (serves fresh command c fresh_id) h =
    turn-Inv config epoch fresh c command y fresh_id h
step-Inv {config = config} {y = y} fits (closes c) h = close-Inv config c y h
step-Inv {config = config} {y = y} fits clears h = clear-Inv config y h

unfoldable pub started : Clock → System
started c = record { state = new c; flight = [] }

started-Inv : (config : Config) (c : Clock) → Inv config (started c)
unfolding started new
started-Inv config c = record {
  jobwise = record {
    store = record { distinct = tt; sound = tt };
    current = tt;
    flying = tt;
    bounded = omega arith;
  };
  alone = tt;
  retired_bounded = omega arith;
  revisions_bounded = omega arith;
}

reach-Inv :
    {config : Config} {epoch : String} {y z : System}
    → config.schema_attempts < 2 ^ 32
    → Inv config y
    → Reach config epoch y z
    → Inv config z
reach-Inv fits h here = h
reach-Inv fits h (then_step r s) = step-Inv fits s (reach-Inv fits h r)

-- Whatever workers, clients and the owner do, in any order, with `schema_attempts` a 32-bit number
-- and fresh ids unlike those of running attempts: every job is sound (it is stored under its id,
-- has a result exactly when it succeeded, one that passed its own output schema, and an error
-- exactly when it failed, and its failure counters stay below their limits while it is not over),
-- a job that is not superseded carries the newest revision of its item, every running attempt
-- runs a job of its own that is running, cancelled, superseded or gone, and the jobs, the tail of
-- released jobs and the watermarks stay within their capacities.
pub reachable-Inv :
    (config : Config) (epoch : String) (c : Clock) {y : System}
    → config.schema_attempts < 2 ^ 32
    → Reach config epoch (started c) y
    → Inv config y
reachable-Inv config epoch c fits r = reach-Inv fits (started-Inv config c) r
