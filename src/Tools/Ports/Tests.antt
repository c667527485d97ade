-- ===== src/Tools/Ports/Tests.antt =====
-- Examples for projects/tools/src/ports: a web server that holds one socket.
use seele_shell.Prelude.{
  chars_key, Chars, [], all, arith, false, ◌∷◌, inl, not, some, ◌≡◌, refl, true, ◌==◌, none, inr,
  List, insert, length,
}
use seele_shell.Json.{codes}
use seele_shell.Split.{split, join, Without}
use seele_shell.Tools.Ports.{
  Listener, Process, Row, parse, target, token, review, service, owner, process_target, bar,
  valid_unit,
}
use seele_shell.Tools.Ports.Worker.{
  Scene, stop, signal, revalidate, conclude, perform, still_current, remaining, escalate,
}
use seele_shell.Tools.Ports.Stopping.{Confirmed, parse-token_of_row, stop-Confirmed, token_decides}
use seele_shell.Tools.Ports.Rows.{Plausible, PlausibleRow, IsStoppable}
use seele_shell.Tools.Ports.Targets.{Decided, target-Decided}
use seele_shell.Tools.Ports.Tokens.{decision}
use seele_shell.Decimal.{parse_int, show_digits}
use seele_shell.Tools.Ports.Selection.{
  Live, handle_all, Event, fresh_panel, handle, panel-Live, rescan, scans, select, selects,
}

abbrev socket : Listener
socket = record {
  binding = codes "127.0.0.1:80";
  id = codes "4:7";
  port = 80;
  uid = 1000;
  inode = 7;
}

abbrev server : Process
server = record {
  pid = 12;
  start = 345;
  name = codes "web";
  uid = 1000;
  user = codes "me";
  scope = [];
  service = [];
}

abbrev served : Row
served = record { listener = socket; owners = server ∷ [] }

abbrev served_token : Chars
served_token = codes "1|7|127.0.0.1:80|80|process|||12|345|1000"

abbrev machine : Scene
machine = record {
  listeners = λ _. socket ∷ [];
  rows = served ∷ [];
  selected = λ _. 0;
  self_uid = 1000;
  start_time = λ _. some 345;
  process_uid = λ _. some 1000;
  holds_socket = λ _ _. true;
  obeys = λ _. true;
  elevates = λ _. none;
}

writes_token : token (review served 0 1000) ≡ served_token
unfolding token review target service owner process_target join show_digits
writes_token = refl

server-Plausible : Plausible server
server-Plausible = record {
  pid_fits = omega arith;
  start_fits = omega arith;
  uid_fits = omega arith;
  scope_known = inl refl;
  service_valid = inl refl;
}

plain_text : (cs : Chars) → all (λ c. not (c == bar)) cs ≡ true → Without bar cs
plain_text [] h = tt
plain_text (c ∷ cs) h = (ground (arith, h), plain_text cs (ground (arith, h)))

served-PlausibleRow : PlausibleRow served
served-PlausibleRow = record {
  inode_fits = omega arith;
  port_fits = omega arith;
  uid_fits = omega arith;
  binding_plain = plain_text (codes "127.0.0.1:80") refl;
  owners = (server-Plausible, tt);
}

served-IsStoppable : IsStoppable (target served 0 1000)
unfolding target service owner process_target
served-IsStoppable = inr refl

parse-token_of_row_example :
    parse (token (review served 0 1000)) ≡ some (decision (review served 0 1000))
parse-token_of_row_example = parse-token_of_row served 0 1000 served-PlausibleRow served-IsStoppable

token_decides_example : decision (review served 0 1000) ≡ decision (review served 0 1000)
token_decides_example =
    token_decides served served 0 0 1000 served-PlausibleRow served-PlausibleRow served-IsStoppable
      served-IsStoppable refl

target-Decided_example : Decided served 0 1000 (target served 0 1000)
target-Decided_example = target-Decided served 0 1000

signals : (stop machine served_token false []).1.act ≡ some (signal 12 false)
unfolding stop parse split parse_int revalidate review target service owner process_target token
    join show_digits valid_unit conclude perform still_current remaining escalate
signals = refl

stop-Confirmed_example : Confirmed machine served_token false [] (signal 12 false)
stop-Confirmed_example =
    stop-Confirmed machine served_token false [] (signal 12 false) (served-PlausibleRow, tt) signals

abbrev events : List Event
events = scans (served ∷ []) ∷ selects (codes "4:7") 12 ∷ []

one_selected : length (handle_all events fresh_panel).selection ≡ 1
unfolding handle_all handle rescan select insert
one_selected = refl

panel-Live_example : Live (handle_all events fresh_panel)
panel-Live_example = panel-Live events
