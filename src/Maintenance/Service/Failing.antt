-- ===== src/Maintenance/Service/Failing.antt =====
-- What a check of projects/maintenance/src/service.rs leaves when it fails.
use seele_shell.Prelude.{
  string_key, String, Option, contains_key, ◌≡◌, List, true, not, ◌⊎◌, some, str_eq, get, ◌&&◌,
  if◌then◌else◌, none,
}
use seele_shell.Maintenance.Model.{Failure, Result, unregistered_source, Row, closing, err, ok}
use seele_shell.Maintenance.Service.{State, check_unavailable}

-- The check was refused and nothing changed; or it ran, and the inbox, the tasks and the errors of other
-- sources are as they were, an error of its source is noted, and its source can be checked again.
pub data Failed (source : String) (s : State) (e : Failure) : State → Type 0 where
  was_refused : (e ≡ unregistered_source) ⊎ (e ≡ closing) → Failed source s e s
  was_noted :
      (t : State)
      → contains_key source s.inbox.registrations ≡ true
      → t.inbox ≡ s.inbox
      → t.tasks ≡ s.tasks
      → ((k : String)
          → get k t.errors ≡ (if str_eq source k then some check_unavailable else get k s.errors))
      → ((k : String)
          → contains_key k t.checking ≡ (not (str_eq source k) && contains_key k s.checking))
      → Failed source s e t

-- If `x` is a failure, its state is one that a failed check leaves.
abbrev FailsWell : String → State → State × Option (Result (List Row)) → Type 0
FailsWell source s (t, none) = Unit
FailsWell source s (t, some (ok rows)) = Unit
FailsWell source s (t, some (err e)) = Failed source s e t
