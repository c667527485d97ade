-- ===== src/Tools/Ports/Worker.antt =====
-- projects/tools/src/ports/worker.rs: `stop` and what it calls.
use seele_shell.Prelude.{
  chars_key, Bool, Chars, List, Option, String, some, ℕ, any, false, if◌then◌else◌, true, chars_eq,
  first, none, suc, ◌&&◌, ◌==◌, not, retain, zero, ◌∷◌, [], ltb, length,
}
use seele_shell.Json.{codes}
use seele_shell.Decimal.{show}
use seele_shell.Tools.Ports.{
  Review, Listener, Row, Target, parse, review, service_kind, token, user_scope, process_kind,
}
use seele_shell.Prelude.Options.{◌>>=◌}

-- What the worker asks of the system: `systemctl` of the user's manager or not, the helper with
-- authentication, and a signal, SIGKILL or SIGTERM.
pub data Act : Type 0 where
  systemctl : Bool → List Chars → Act
  elevate : List Chars → Act
  signal : ℕ → Bool → Act

-- What `/proc` shows during one stop, the rows of the scan at its start, and what the host answers.
-- `listeners n` is the n-th reading of the sockets.
pub record Scene : Type 0 where
  pub listeners : ℕ → List Listener
  pub rows : List Row
  pub selected : Chars → ℕ
  pub self_uid : ℕ
  pub start_time : ℕ → Option ℕ
  pub process_uid : ℕ → Option ℕ
  pub holds_socket : ℕ → ℕ → Bool
  pub obeys : Act → Bool
  pub elevates : List Chars → Option String

abbrev pub is_reviewed : Review → Listener → Bool
is_reviewed r l = l.inode == r.inode && l.port == r.port && chars_eq l.binding r.binding

abbrev pub find_listener : List Listener → Review → Option Listener
find_listener ls r = first (retain (is_reviewed r) ls)

abbrev pub find_row : List Row → Chars → Option Row
find_row rows id = first (retain (λ r. chars_eq r.listener.id id) rows)

-- The review that the scan supports now; `none` is the error `gone`.
unfoldable pub revalidate : Scene → Review → Option Review
revalidate scene r = find_listener (scene.listeners 0) r >>= λ l.
    find_row scene.rows l.id >>= λ row. some (review row (scene.selected l.id) scene.self_uid)

-- Whether the socket is there at the n-th reading and at those of the attempts that follow.
unfoldable pub remaining : Scene → Review → ℕ → ℕ → Bool
remaining scene r zero n = any (is_reviewed r) (scene.listeners n)
remaining scene r (suc attempts) n =
    let rest = remaining scene r attempts (suc n) in
    if any (is_reviewed r) (scene.listeners n) then rest else false

abbrev pub word : Bool → Chars
word force = if force then codes "force" else codes "graceful"

abbrev pub service_arguments : Bool → Chars → List Chars
service_arguments force unit =
    if force
    then codes "kill" ∷ codes "--kill-whom=all" ∷ codes "--signal=SIGKILL" ∷ codes "--" ∷ unit ∷ []
    else codes "stop" ∷ codes "--" ∷ unit ∷ []

-- What was asked of the system, with the error.
abbrev pub Performed : Type 0
Performed = Option Act × Option String

abbrev pub ask : Scene → Act → Performed
ask scene act = (some act, if scene.obeys act then none else some "failed")

abbrev pub is_number : Option ℕ → ℕ → Bool
is_number none n = false
is_number (some m) n = m == n

-- The checks before an unprivileged signal.
unfoldable pub still_current : Scene → Review → Target → Bool
still_current scene r t =
    is_number (scene.start_time t.pid) t.start
    && is_number (scene.process_uid t.pid) t.uid
    && scene.holds_socket t.pid r.inode

unfoldable pub perform : Scene → Review → Target → Bool → Performed
perform scene r t force =
    if chars_eq t.kind service_kind
    then (if t.privileged
        then (let arguments =
              codes "service" ∷ word force ∷ t.unit ∷ show r.inode ∷ r.binding ∷ show r.port ∷ [] in
            (some (elevate arguments), scene.elevates arguments))
        else ask scene (systemctl (chars_eq t.scope user_scope) (service_arguments force t.unit)))
    else (if chars_eq t.kind process_kind
        then (if t.privileged
            then (let arguments =
                  codes "process"
                  ∷ word force
                  ∷ show t.pid
                  ∷ show t.start
                  ∷ show t.uid
                  ∷ show r.inode
                  ∷ r.binding
                  ∷ show r.port
                  ∷ [] in
                (some (elevate arguments), scene.elevates arguments))
            else (if still_current scene r t
                then ask scene (signal t.pid force)
                else (none, some "changed")))
        else (none, some "unavailable"))

-- The reply, with what was asked of the system.
pub record Stopped : Type 0 where
  pub error : String
  pub still : Bool
  pub can_force : Bool
  pub act : Option Act

abbrev pub has_token : Chars → List Chars → Bool
has_token text es = any (chars_eq text) es

abbrev pub max_escalations : ℕ
max_escalations = 64

unfoldable pub escalate : Chars → Bool → Bool → List Chars → List Chars
escalate text force still es =
    if still && not force
    then (if ltb (length es) max_escalations && not (has_token text es) then text ∷ es else es)
    else (if not still then retain (λ t. not (chars_eq t text)) es else es)

abbrev pub failure : String → Bool → Option Act → Stopped
failure error still act = record { error = error; still = still; can_force = false; act = act }

abbrev pub grace : Bool → ℕ
grace force = if force then 8 else 12

unfoldable pub conclude :
    Scene → Review → Chars → Bool → List Chars → Performed → List Chars × Stopped
conclude scene r text force es (act, some error) = (es, failure error true act)
conclude scene r text force es (act, none) =
    let still = remaining scene r (grace force) 1 in
    let next = escalate text force still es in
    (next, record { error = ""; still = still; can_force = has_token text next; act = act })

unfoldable pub stop : Scene → Chars → Bool → List Chars → List Chars × Stopped
stop scene text force es = elim (parse text) [
  | none ↦ (es, failure "invalid" false none)
  | some r ↦
      if force && not (has_token text es)
      then (es, failure "not-escalatable" true none)
      else (elim (revalidate scene r) [
        | none ↦ (es, failure "gone" false none)
        | some current ↦
            if not (chars_eq (token current) text)
            then (es, failure "changed" true none)
            else conclude scene r text force es (perform scene r current.target force)
      ])
]
