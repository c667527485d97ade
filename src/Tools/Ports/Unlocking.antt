-- ===== src/Tools/Ports/Unlocking.antt =====
-- Which tokens a stop of projects/tools/src/ports/worker.rs unlocks for force.
use seele_shell.Prelude.{chars_key, Chars, Bool, ◌≡◌, false, some, none, All}
use seele_shell.Tools.Ports.{Review, parse}
use seele_shell.Tools.Ports.Worker.{Scene, Stopped, perform, Act}
use seele_shell.Tools.Ports.Stopping.{Fresh}
use seele_shell.Tools.Ports.Readings.{Bound, readings}

-- How a token comes to be unlocked: it was stopped gracefully for a review that the fresh scan
-- supported, the system did what it was asked, and the socket was bound in all 13 readings after that.
pub record Earned (scene : Scene) (t text : Chars) (force : Bool) (a : Stopped) : Type 0 where
  pub same : t ≡ text
  pub graceful : force ≡ false
  pub reviewed : Review
  pub parsed : parse text ≡ some reviewed
  pub current : Review
  pub fresh : Fresh scene reviewed current
  pub act : Act
  pub carried_out : perform scene reviewed current.target false ≡ (some act, none)
  pub told : a.act ≡ some act
  pub left : All (λ n. Bound reviewed (scene.listeners n)) (readings 13 1)
