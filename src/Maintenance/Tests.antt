-- ===== src/Maintenance/Tests.antt =====
-- An inbox with the sources of the shell.
use mathlib.Core.Option
use seele_shell.Prelude.{
  String, ◌∷◌, ◌≡◌, [], false, refl, some, adjust, get, arith, insert, none, string_key, ℕ, Option,
  true, ◌≤◌, Perm, ◌++◌, values, Ordered, All, ◌<◌, if◌then◌else◌, suc, ◌==◌, List, text_len,
  utf8_width,
}
use seele_shell.Maintenance.Model.{
  Finding, Result, Text, ok, registrations, err, soon, ongoing, collect, id_of, valid_key,
  source_actions, stale_finding, clean, is_key_char, is_text, visible, urgency_rank, Row,
}
use seele_shell.Maintenance.Inbox.{
  Inbox, empty, prune, resolve_id, operation, resolve, keeps_row, prune_row, current,
}
use seele_shell.Maintenance.Publish.{
  Signed, publish, Published, fresh_row, refusal, enter, stage, cleaned, renew, announces,
  put_diagnostic, is_changed, has_duplicate, signed,
}
use seele_shell.Maintenance.Invariant.{WellFormed}
use seele_shell.Maintenance.Reachable.{reachable-WellFormed, then_step, here, publishes}
use seele_shell.Json.{null}
use seele_shell.Maintenance.Renewal.{republish}
use seele_shell.Maintenance.Staleness.{snoozed_quiet, resolve_stale}
use seele_shell.Maintenance.Snapshot.{snapshot, active_le, snoozed_le, history_le}
use seele_shell.Maintenance.Listing.{rows_of, snapshot_lists}
use seele_shell.Maintenance.Counting.{publish_counts}
use seele_shell.Maintenance.Loading.{
  add_row, read_row, read_fields, dedup, StoredRow, load, read_rows, at, holds,
}
use seele_shell.Maintenance.Loaded.{load-WellFormed}

abbrev same_text : Text → Text
same_text t = t

abbrev first_title : Signed → String
first_title f = elim f.title [ [] ↦ "" | c ∷ cs ↦ "t" ]

abbrev finding : Finding
finding = record {
  key = "root";
  title = 102 ∷ [];
  explanation = [];
  details = [];
  urgency = soon;
  lifecycle = ongoing;
  actions = "recheck" ∷ [];
  diagnostic = some (102 ∷ []);
}

abbrev start : Inbox
start = empty (registrations null) 100

abbrev success : Result (Inbox × Published) → Inbox → Inbox × Published
success (ok x) s = x
success (err e) s = (s, record { row = fresh_row "" "" finding 0; notify = false; changed = false })

abbrev published : Inbox × Published
published = success (publish same_text first_title "disk" finding 100 start) start

publishes_first :
    publish same_text first_title "disk" finding 100 start ≡ ok (published.0, published.1)
unfolding publish empty registrations prune collect insert refusal valid_key source_actions enter
    stage cleaned clean renew announces put_diagnostic fresh_row is_changed is_key_char text_len
    utf8_width has_duplicate is_text visible id_of signed resolve resolve_id keeps_row prune_row
    operation current
publishes_first = refl

published_row : get (id_of "disk" "root") published.0.items ≡ some published.1.row
unfolding publish empty registrations prune collect insert refusal valid_key source_actions enter
    stage cleaned clean renew announces put_diagnostic fresh_row is_changed is_key_char text_len
    utf8_width has_duplicate is_text visible id_of signed resolve resolve_id keeps_row prune_row
    operation current
published_row = refl

abbrev snoozed : Inbox
snoozed = record (published.0) {
  items = adjust (id_of "disk" "root") (λ r. record r { snoozed_until = 400 }) published.0.items;
}

snoozed_row :
    get (id_of "disk" "root") snoozed.items
    ≡ some (record (published.1.row) { snoozed_until = 400 })
unfolding publish empty registrations prune collect insert refusal valid_key source_actions enter
    stage cleaned clean renew announces put_diagnostic fresh_row is_changed is_key_char text_len
    utf8_width has_duplicate is_text visible id_of signed resolve resolve_id keeps_row prune_row
    operation current
snoozed_row = refl

abbrev changed_finding : Finding
changed_finding = record finding { title = 103 ∷ [] }

abbrev told_again : Inbox × Published
told_again = success (publish same_text first_title "disk" changed_finding 160 snoozed) snoozed

publishes_again :
    publish same_text first_title "disk" changed_finding 160 snoozed
    ≡ ok (told_again.0, told_again.1)
unfolding publish empty registrations prune collect insert refusal valid_key source_actions enter
    stage cleaned clean renew announces put_diagnostic fresh_row is_changed is_key_char text_len
    utf8_width has_duplicate is_text visible id_of signed resolve resolve_id keeps_row prune_row
    operation current
publishes_again = refl

same_urgency : urgency_rank published.1.row.urgency ≤ 1
unfolding publish empty registrations prune collect insert refusal valid_key source_actions enter
    stage cleaned clean renew announces put_diagnostic fresh_row is_changed is_key_char text_len
    utf8_width has_duplicate is_text visible id_of signed resolve resolve_id keeps_row prune_row
    operation current
same_urgency = omega arith

snoozed_quiet_example : told_again.1.notify ≡ false
snoozed_quiet_example =
    snoozed_quiet same_text first_title "disk" changed_finding 160 snoozed told_again.0 told_again.1
      (record (published.1.row) { snoozed_until = 400 }) snoozed_row same_urgency (omega arith)
      publishes_again

abbrev closed : Inbox
closed = resolve_id (id_of "disk" "root") 200 published.0

resolves_first : resolve "disk" "root" 200 published.0 ≡ ok (closed, true)
unfolding publish empty registrations prune collect insert refusal valid_key source_actions enter
    stage cleaned clean renew announces put_diagnostic fresh_row is_changed is_key_char text_len
    utf8_width has_duplicate is_text visible id_of signed resolve resolve_id keeps_row prune_row
    operation current
resolves_first = refl

resolve_stale_example :
    (get (id_of "disk" "root") closed.diagnostics ≡ none)
    × (get (id_of "disk" "root") closed.analysis ≡ none)
    × ((revision : ℕ) (op : String) (seconds : Option ℕ) (later : ℕ)
        → operation (id_of "disk" "root") revision op seconds later closed ≡ err stale_finding)
resolve_stale_example =
    resolve_stale "disk" "root" 200 published.0 closed (omega arith) resolves_first

reachable-WellFormed_example : WellFormed published.0
reachable-WellFormed_example =
    reachable-WellFormed same_text first_title null 100
      (then_step here (publishes "disk" finding 100 published.0 published.1 publishes_first))

republish_example :
    (u : Inbox) × (publish same_text first_title "disk" finding 160 published.0
      ≡ ok (u, record { row = published.1.row; notify = false; changed = false }))
republish_example =
    republish same_text first_title "disk" finding 100 160 start published.0 published.1
      publishes_first

snapshot_lists_example :
    let v = (snapshot 160 snoozed).1 in
    Perm
      (rows_of v.active ++ (rows_of v.snoozed ++ rows_of v.history))
      (values (prune 160 snoozed).items)
    × Ordered active_le (rows_of v.active)
    × Ordered snoozed_le (rows_of v.snoozed)
    × Ordered history_le (rows_of v.history)
    × All (λ r. (r.resolved ≡ 0) × (r.snoozed_until ≤ 160)) (rows_of v.active)
    × All (λ r. (r.resolved ≡ 0) × (160 < r.snoozed_until)) (rows_of v.snoozed)
    × All (λ r. 0 < r.resolved) (rows_of v.history)
snapshot_lists_example = snapshot_lists 160 snoozed

abbrev quiet_row : Row
quiet_row = record (published.1.row) { snoozed_until = 400 }

publish_counts_example :
    (get (id_of "disk" "root") told_again.0.items ≡ some told_again.1.row)
    × (told_again.1.changed
        ≡ is_changed
            (first_title (signed (cleaned same_text first_title changed_finding)))
            (some quiet_row))
    × (told_again.1.row.revision
        ≡ (if told_again.1.changed then suc quiet_row.revision else quiet_row.revision))
    × (told_again.1.row.recurrence
        ≡ (if quiet_row.resolved == 0 then quiet_row.recurrence else suc quiet_row.recurrence))
    × (told_again.1.row.resolved ≡ 0)
    × (told_again.1.row.id ≡ quiet_row.id)
    × (told_again.1.row.first_seen ≡ quiet_row.first_seen)
    × (told_again.1.row.outcomes ≡ quiet_row.outcomes)
    × (told_again.1.notify ≡ true
        → (told_again.1.changed ≡ true)
          × (urgency_rank told_again.1.row.urgency ≤ 1)
          × (told_again.1.row.snoozed_until ≤ 160))
publish_counts_example =
    publish_counts same_text first_title "disk" changed_finding 160 snoozed told_again.0
      told_again.1 quiet_row snoozed_row publishes_again

abbrev stored_row : StoredRow
stored_row = record {
  source = "disk";
  key = "root";
  title = 102 ∷ [];
  explanation = [];
  details = [];
  urgency = soon;
  lifecycle = ongoing;
  actions = "recheck" ∷ "recheck" ∷ "gone" ∷ [];
  first_seen = at 10;
  updated = at 20;
  revision = 3;
  recurrence = 1;
  snoozed_until = at 0;
  resolved = at 0;
  outcomes = [];
  fingerprint = "short";
}

abbrev stored : List (Option StoredRow)
stored = some stored_row ∷ none ∷ []

abbrev loaded : Inbox
loaded = prune 100 (record {
  registrations = registrations null;
  items = read_rows same_text (registrations null) 100 stored [];
  diagnostics = [];
  analysis = [];
})

loads_stored : load same_text (registrations null) (holds stored) 100 ≡ ok loaded
unfolding load
loads_stored = refl

load-WellFormed_example : WellFormed loaded
load-WellFormed_example =
    load-WellFormed same_text null stored 100 loaded ((omega arith, omega arith), (tt, tt))
      loads_stored

-- The stored row is kept, with its only action that is still offered.
stored_actions :
    Option.map (λ (r : Row). r.actions) (get (id_of "disk" "root") loaded.items)
    ≡ some ("recheck" ∷ [])
unfolding prune read_rows add_row read_row registrations collect insert valid_key keeps_row
    read_fields id_of prune_row dedup source_actions
stored_actions = refl
