-- ===== src/Maintenance/Service/Tests.antt =====
-- A service with the sources of the shell.
use seele_shell.Prelude.{
  ◌≡◌, List, Option, String, contains_key, get, true, ◌∷◌, [], false, none, some, refl, insert,
  string_key, arith, text_len, utf8_width, length,
}
use seele_shell.Maintenance.Model.{
  Finding, Result, Text, err, Row, registrations, collect, ok, soon, id_of, ongoing, valid_key,
  source_actions, clean, is_key_char, is_text, visible,
}
use seele_shell.Maintenance.Publish.{
  Signed, publish, refusal, enter, stage, cleaned, renew, announces, put_diagnostic, fresh_row,
  is_changed, has_duplicate, signed,
}
use seele_shell.Maintenance.Service.{State, Storage, new, commit, save}
use seele_shell.Maintenance.Service.Serving.{Steady}
use seele_shell.Json.{Value, null, object, field, string, number, end}
use seele_shell.Maintenance.Invariant.{WellFormed, is_open}
use seele_shell.Maintenance.Service.Checks.{
  finish_check, apply_reports, mirror, stage_reports, stage_report, absent_keys, is_absent,
  resolve_all, begin_check, end_check, check,
}
use seele_shell.Maintenance.Inbox.{
  resolve_id, empty, prune, resolve, resolve_id, keeps_row, prune_row, persist, current, outcome,
}
use seele_shell.Maintenance.Reachable.{empty-WellFormed}
use seele_shell.Maintenance.Service.Histories.{
  then_step, reachable-Steady, here, ends_check, begins_check, applies_reports, calls,
  keeps_analysis, records_analysis, ends_task,
}
use seele_shell.Maintenance.Service.Checked.{check_mirrors}
use seele_shell.Maintenance.Service.Mirroring.{is_reported}
use seele_shell.Maintenance.Snapshot.{snapshot}
use seele_shell.Maintenance.Service.Requests.{
  call, admit, parse_operation, serve, serve_id, serve_row, begin_task, task_action, allowed_keys,
}
use seele_shell.Maintenance.Service.Tasks.{
  end_task, keep_analysis, record_analysis, clear_row, save_live,
}

abbrev same_text : Text → Text
same_text t = t

abbrev first_title : Signed → String
first_title f = elim f.title [ [] ↦ "" | c ∷ cs ↦ "t" ]

abbrev no_finding : Value → Option Finding
no_finding v = none

abbrev disk : Storage
disk = record { snapshot_len = λ _. 10; rows_len = λ _. 10; write = λ _. true }

abbrev finding : Finding
finding = record {
  key = "root";
  title = 102 ∷ [];
  explanation = [];
  details = [];
  urgency = soon;
  lifecycle = ongoing;
  actions = "recheck" ∷ [];
  diagnostic = none;
}

abbrev idle : State
idle = new (empty (registrations null) 100)

abbrev checked : State × Result (List Row)
checked = finish_check same_text first_title disk "disk" 120 (ok (finding ∷ [])) idle

abbrev announced : Result (List Row) → List Row
announced (ok rows) = rows
announced (err e) = []

idle_registered : contains_key "disk" idle.inbox.registrations ≡ true
unfolding new empty prune registrations collect insert
idle_registered = refl

idle_Steady : WellFormed idle.inbox
unfolding new
idle_Steady = empty-WellFormed null 100

check_ends :
    finish_check same_text first_title disk "disk" 120 (ok (finding ∷ [])) idle
    ≡ (checked.0, ok (announced checked.1))
unfolding new empty prune registrations collect insert finish_check apply_reports end_check mirror
    stage_reports stage_report publish refusal valid_key source_actions enter stage cleaned clean
    renew announces put_diagnostic fresh_row is_changed is_key_char text_len utf8_width
    has_duplicate is_text visible id_of signed resolve resolve_id keeps_row prune_row commit save
    persist snapshot absent_keys is_absent resolve_all
check_ends = refl

check_mirrors_example :
    WellFormed checked.0.inbox
    × (contains_key "disk" checked.0.errors ≡ false)
    × ((k : String)
        → is_open (get (id_of "disk" k) checked.0.inbox.items) ≡ is_reported k (finding ∷ []))
check_mirrors_example =
    check_mirrors same_text first_title disk "disk" 120 (finding ∷ []) idle checked.0
      (announced checked.1) (omega arith) idle_Steady idle_registered check_ends

-- A disk that refuses what is written.
abbrev full_disk : Storage
full_disk = record disk { write = λ _. false }

abbrev unsaved : State × Option (Result (List Row))
unsaved = check same_text first_title full_disk false "disk" 120 (ok (finding ∷ [])) idle

-- A check that the disk refuses; then one that it takes, with a diagnostic; then an analysis.
abbrev diagnosed : Finding
diagnosed = record finding { diagnostic = some (102 ∷ []) }

abbrev request : Value
request = object (
    field "op" (string "analyze")
      (field "id" (string "disk:root") (field "revision" (number "1") end)))

abbrev began : State
began = (begin_check false "disk" idle).0

abbrev failed : State
failed = (apply_reports same_text first_title full_disk "disk" 110 (ok (diagnosed ∷ [])) began).0

abbrev again : State
again = (begin_check false "disk" (end_check true "disk" failed)).0

abbrev filed : State
filed = (apply_reports same_text first_title disk "disk" 120 (ok (diagnosed ∷ [])) again).0

abbrev tasked : State
tasked =
    (call same_text first_title no_finding disk false request 130 (end_check false "disk" filed)).0

abbrev row : Row
row = elim (get "disk:root" tasked.inbox.items) [
  | none ↦ fresh_row "disk:root" "disk" diagnosed 0
  | some r ↦ r
]

abbrev analysed : State
analysed = (keep_analysis disk row null 140 tasked).0

abbrev ended : State
ended = end_task "disk:root" (record_analysis full_disk false false row 150 analysed)

task_runs : (length tasked.tasks ≡ 1) × (length ended.inbox.analysis ≡ 1) × (length ended.tasks ≡ 0)
unfolding new empty prune registrations collect insert begin_check apply_reports call admit
    parse_operation serve serve_id serve_row begin_task task_action current keep_analysis
    record_analysis clear_row save_live end_task outcome end_check mirror stage_reports stage_report
    publish refusal valid_key source_actions enter stage cleaned clean renew announces
    put_diagnostic fresh_row is_changed is_key_char text_len utf8_width has_duplicate is_text
    visible id_of signed resolve resolve_id keeps_row prune_row commit save persist snapshot
    absent_keys allowed_keys is_absent resolve_all
task_runs = (refl, refl, refl)

reachable-Steady_example : Steady ended
reachable-Steady_example = reachable-Steady same_text first_title no_finding null 100 (
    then_step
      (then_step
        (then_step
          (then_step
            (then_step
              (then_step
                (then_step
                  (then_step
                    (then_step (then_step here (begins_check false "disk"))
                      (applies_reports full_disk "disk" 110 (ok (diagnosed ∷ []))))
                    (ends_check true "disk"))
                  (begins_check false "disk"))
                (applies_reports disk "disk" 120 (ok (diagnosed ∷ []))))
              (ends_check false "disk"))
            (calls disk false request 130))
          (keeps_analysis disk row null 140))
        (records_analysis full_disk false false row 150))
      (ends_task "disk:root"))
