-- ===== src/Maintenance/Service/Requests.antt =====
-- projects/maintenance/src/service.rs: `Service::call`.
use seele_shell.Prelude.{
  List, Option, String, Bool, if◌then◌else◌, ◌∷◌, [], str_eq, contains_key, false, leb, none, some,
  length, ℕ, ◌||◌, get, not, string_key, all, any, true, insert, ◌&&◌, adjust,
}
use seele_shell.Maintenance.Model.{
  Text, Result, Row, Finding, err, ok, closing, invalid_request, no_diagnostic, stale_finding,
  unregistered_action, invalid_operation, unregistered_source, busy, invalid_finding,
  confirmation_required,
}
use seele_shell.Json.{Value, as_object, bool, as_str, index, as_u64, keys}
use seele_shell.Maintenance.Publish.{Signed, publish}
use seele_shell.Maintenance.Snapshot.{Snapshot, snapshot}
use seele_shell.Maintenance.Service.{State, Names, Storage, Trouble, commit}
use seele_shell.Maintenance.Inbox.{Inbox, operation, current, resolve}

-- What the lock is taken for.
pub data Operation : Type 0 where
  list publish_op resolve_op done_op snooze_op unsnooze_op action_op analyze_op : Operation

unfoldable pub parse_operation : String → Option Operation
parse_operation s =
    if str_eq s "list"
    then some list
    else (if str_eq s "publish"
        then some publish_op
        else (if str_eq s "resolve"
            then some resolve_op
            else (if str_eq s "snooze"
                then some snooze_op
                else (if str_eq s "action"
                    then some action_op
                    else (if str_eq s "done"
                        then some done_op
                        else (if str_eq s "unsnooze"
                            then some unsnooze_op
                            else (if str_eq s "analyze" then some analyze_op else none)))))))

unfoldable pub allowed_keys : Operation → List String
allowed_keys list = "op" ∷ []
allowed_keys publish_op = "op" ∷ "source" ∷ "finding" ∷ []
allowed_keys resolve_op = "op" ∷ "source" ∷ "key" ∷ []
allowed_keys snooze_op = "op" ∷ "id" ∷ "revision" ∷ "seconds" ∷ []
allowed_keys action_op = "op" ∷ "id" ∷ "revision" ∷ "action" ∷ "confirmed" ∷ []
allowed_keys done_op = "op" ∷ "id" ∷ "revision" ∷ []
allowed_keys unsnooze_op = "op" ∷ "id" ∷ "revision" ∷ []
allowed_keys analyze_op = "op" ∷ "id" ∷ "revision" ∷ []

-- The checks before the lock is taken.
unfoldable pub admit : Value → Result Operation
admit message = elim (as_object message) [
  | none ↦ err invalid_request
  | some fields ↦ elim (as_str (index message "op")) [
    | none ↦ err invalid_operation
    | some op ↦ elim (parse_operation op) [
      | none ↦ err invalid_operation
      | some o ↦
          if all (λ k. any (str_eq k) (allowed_keys o)) (keys fields)
          then ok o
          else err invalid_request
    ]
  ]
]

-- What a caller gets; `begins` is an answer that has started a task on a row.
pub data Reply : Type 0 where
  accepted : Option Row → Reply
  listing : Snapshot → Names → List (String × Trouble) → Reply
  begins : Row → String → Reply

abbrev pub is_confirmed : Value → Bool
is_confirmed (bool true) = true
is_confirmed _ = false

-- The action of a request: one that the row offers, confirmed if it is disruptive.
unfoldable pub chosen_action : Value → Row → State → Result String
chosen_action message row s = elim (as_str (index message "action")) [
  | none ↦ err unregistered_action
  | some action ↦ elim (get row.source s.inbox.registrations) [
    | none ↦ err unregistered_action
    | some registry ↦ elim (get action registry) [
      | none ↦ err unregistered_action
      | some registered ↦
          if not (any (str_eq action) row.actions)
          then err unregistered_action
          else (if registered.disruptive && not (is_confirmed (index message "confirmed"))
              then err confirmation_required
              else ok action)
    ]
  ]
]

unfoldable pub task_action : Operation → Value → String → Row → State → Result String
task_action action_op message id row s = chosen_action message row s
task_action _ message id row s =
    if contains_key id s.inbox.diagnostics then ok "analyze" else err no_diagnostic

abbrev pub with_busy : String → Row → Row
with_busy action row = record row { busy = action }

-- A task is started: at most eight run, and one for a row.
unfoldable pub begin_task : Operation → Value → String → Row → State → State × Result Reply
begin_task op message id row s =
    if leb 8 (length s.tasks) || contains_key id s.tasks || not (str_eq row.busy "")
    then (s, err busy)
    else (elim (task_action op message id row s) [
      | err e ↦ (s, err e)
      | ok action ↦ (
        record s {
          tasks = insert id tt s.tasks;
          inbox = record (s.inbox) { items = adjust id (with_busy action) s.inbox.items };
        },
        ok (begins row action),
      )
    ])

module _ (secrets : Text → Text) (digest : Signed → String) (decode : Value → Option Finding)
    (disk : Storage) where
  -- `publish` and `resolve`, on a copy of the inbox.
  unfoldable pub stage_publish : Value → ℕ → Inbox → Result ((Inbox × Bool) × Option Row)
  stage_publish message now inbox = elim (as_str (index message "source")) [
    | none ↦ err unregistered_source
    | some source ↦ elim (decode (index message "finding")) [
      | none ↦ err invalid_finding
      | some f ↦ elim (publish secrets digest source f now inbox) [
        | err e ↦ err e
        | ok (t, p) ↦ ok ((t, p.changed), if p.notify then some p.row else none)
      ]
    ]
  ]

  unfoldable pub stage_resolve : Value → ℕ → Inbox → Result ((Inbox × Bool) × Option Row)
  stage_resolve message now inbox = elim (as_str (index message "source")) [
    | none ↦ err unregistered_source
    | some source ↦ elim (as_str (index message "key")) [
      | none ↦ err invalid_finding
      | some key ↦ elim (resolve source key now inbox) [
        | err e ↦ err e
        | ok (t, known) ↦ ok ((t, known), none)
      ]
    ]
  ]

  unfoldable pub commit_staged :
      ℕ → Result ((Inbox × Bool) × Option Row) → State → State × Result Reply
  commit_staged now (err e) s = (s, err e)
  commit_staged now (ok ((staged, dirty), row)) s =
      let (t, done) = commit disk dirty now staged s in
      elim done [ err e ↦ (t, err e) | ok _ ↦ (t, ok (accepted row)) ]

  unfoldable pub operate : String → String → ℕ → Value → ℕ → State → State × Result Reply
  operate op id revision message now s =
      elim (operation id revision op (as_u64 (index message "seconds")) now s.inbox) [
        | err e ↦ (s, err e)
        | ok staged ↦ commit_staged now (ok ((staged, true), none)) s
      ]

  -- An operation on one row, at the revision that the caller saw.
  unfoldable pub serve_row : Operation → String → ℕ → Row → Value → ℕ → State → State × Result Reply
  serve_row done_op id revision row message now s = operate "done" id revision message now s
  serve_row snooze_op id revision row message now s = operate "snooze" id revision message now s
  serve_row unsnooze_op id revision row message now s = operate "unsnooze" id revision message now s
  serve_row op id revision row message now s = begin_task op message id row s

  unfoldable pub serve_id : Operation → Value → ℕ → State → State × Result Reply
  serve_id op message now s = elim (as_str (index message "id")) [
    | none ↦ (s, err stale_finding)
    | some id ↦ elim (as_u64 (index message "revision")) [
      | none ↦ (s, err stale_finding)
      | some revision ↦ elim (current id revision s.inbox) [
        | err e ↦ (s, err e)
        | ok row ↦ serve_row op id revision row message now s
      ]
    ]
  ]

  -- What the lock is held for, in a service that is not closing. `list` prunes the live inbox.
  unfoldable pub serve : Operation → Value → ℕ → State → State × Result Reply
  serve list message now s =
      let (t, shot) = snapshot now s.inbox in
      (record s { inbox = t }, ok (listing shot s.checking s.errors))
  serve publish_op message now s = commit_staged now (stage_publish message now s.inbox) s
  serve resolve_op message now s = commit_staged now (stage_resolve message now s.inbox) s
  serve op message now s = serve_id op message now s

  unfoldable pub call : Bool → Value → ℕ → State → State × Result Reply
  call stop message now s = elim (admit message) [
    | err e ↦ (s, err e)
    | ok op ↦ if stop then (s, err closing) else serve op message now s
  ]
