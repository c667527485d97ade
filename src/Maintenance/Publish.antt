-- ===== src/Maintenance/Publish.antt =====
-- projects/maintenance/src/model.rs: `Inbox::publish`. It changes nothing before it fails.
use mathlib.Core.Option
use seele_shell.Prelude.{
  Bool, List, String, ℕ, Option, false, leb, true, get, if◌then◌else◌, remove, ◌-◌, ◌∷◌, [], any,
  contains_key, ltb, not, some, insert, str_eq, ◌^◌, none, suc, ◌||◌, string_key, ◌==◌, length,
  ◌&&◌, text_len,
}
use seele_shell.Maintenance.Model.{
  Failure, capacity, Finding, Text, Result, Urgency, clean, Lifecycle, err, id_of, invalid_finding,
  ok, unregistered_source, valid_key, max_items, Registry, Row, revision_limit, urgency_rank,
  diagnostic_too_large,
}
use seele_shell.Maintenance.Inbox.{Inbox}

unfoldable pub has_duplicate : List String → Bool
has_duplicate [] = false
has_duplicate (a ∷ as_) = any (str_eq a) as_ || has_duplicate as_

-- Why a finding is refused.
unfoldable pub refusal : Registry → Finding → Option Failure
unfolding has_duplicate
refusal registry f =
    if not (valid_key f.key)
      || ltb (length registry) (length f.actions)
      || any (λ a. not (contains_key a registry)) f.actions
    then some invalid_finding
    else (if has_duplicate f.actions then some invalid_finding else (elim f.diagnostic [
      | none ↦ none
      | some d ↦ if ltb 16384 (text_len d) then some diagnostic_too_large else none
    ]))

abbrev pub checked_increment : ℕ → Option ℕ
checked_increment n = if ltb n (2 ^ 64 - 1) then some (suc n) else none

unfoldable pub fresh_row : String → String → Finding → ℕ → Row
fresh_row id source f now = record {
  id = id;
  source = source;
  key = f.key;
  title = [];
  explanation = [];
  details = [];
  urgency = f.urgency;
  lifecycle = f.lifecycle;
  actions = [];
  first_seen = now;
  updated = now;
  revision = 0;
  recurrence = 0;
  snoozed_until = 0;
  resolved = 0;
  outcomes = [];
  fingerprint = "";
  busy = "";
}

-- What the publisher is told.
pub record Published : Type 0 where
  pub row : Row
  pub notify : Bool
  pub changed : Bool

unfoldable pub renew : Finding → String → Bool → ℕ → ℕ → ℕ → Row → Row
renew f signature changed recurrence revision now row = record row {
  title = f.title;
  explanation = f.explanation;
  details = f.details;
  urgency = f.urgency;
  lifecycle = f.lifecycle;
  actions = f.actions;
  fingerprint = signature;
  resolved = 0;
  recurrence = recurrence;
  revision = revision;
  updated = if changed then now else row.updated;
  snoozed_until =
      if ltb (urgency_rank f.urgency) (urgency_rank row.urgency) then 0 else row.snoozed_until;
}

unfoldable pub put_diagnostic : String → Option Text → List (String × Text) → List (String × Text)
put_diagnostic id none m = remove id m
put_diagnostic id (some d) m = insert id d m

unfoldable pub announces : Bool → ℕ → Row → Bool
announces changed now row = changed && leb (urgency_rank row.urgency) 1 && leb row.snoozed_until now

unfoldable pub is_changed : String → Option Row → Bool
is_changed signature none = true
is_changed signature (some row) = not (str_eq row.fingerprint signature) || not (row.resolved == 0)

-- The end of `publish`, from the old row or a fresh one.
unfoldable pub stage :
    String → Finding → String → Bool → ℕ → Row → Inbox → Result (Inbox × Published)
stage id f signature changed now old s =
    elim (if old.resolved == 0 then some old.recurrence else checked_increment old.recurrence) [
      | none ↦ err revision_limit
      | some recurrence ↦
          elim (if changed then checked_increment old.revision else some old.revision) [
            | none ↦ err revision_limit
            | some revision ↦
                let row = renew f signature changed recurrence revision now old in
                ok (
                  record s {
                    diagnostics = put_diagnostic id f.diagnostic s.diagnostics;
                    items = insert id row s.items;
                  },
                  record { row = row; notify = announces changed now row; changed = changed },
                )
          ]
    ]

-- `digest` is SHA-256 of the canonical JSON of the fields that `fingerprint` takes.
pub record Signed : Type 0 where
  pub title : Text
  pub explanation : Text
  pub details : Text
  pub urgency : Urgency
  pub lifecycle : Lifecycle
  pub actions : List String
  pub diagnostic : Option Text

unfoldable pub signed : Finding → Signed
signed f = record {
  title = f.title;
  explanation = f.explanation;
  details = f.details;
  urgency = f.urgency;
  lifecycle = f.lifecycle;
  actions = f.actions;
  diagnostic = f.diagnostic;
}

abbrev pub is_nil {ℓ} : {A : Type ℓ} → List A → Bool
is_nil [] = true
is_nil (x ∷ xs) = false

module _ (secrets : Text → Text) (digest : Signed → String) where
  unfoldable pub cleaned : Finding → Finding
  cleaned f = record f {
    title = clean secrets 160 f.title;
    explanation = clean secrets 500 f.explanation;
    details = clean secrets 2000 f.details;
    diagnostic = Option.map (clean secrets 16384) f.diagnostic;
  }

  -- A cleaned finding enters the inbox.
  unfoldable pub enter : String → Finding → ℕ → Inbox → Result (Inbox × Published)
  enter source f now s =
      let id = id_of source f.key in
      let signature = digest (signed f) in
      if is_nil f.title then err invalid_finding else (elim (get id s.items) [
        | none ↦
            if leb max_items (length s.items)
            then err capacity
            else stage id f signature true now (fresh_row id source f now) s
        | some row ↦ stage id f signature (is_changed signature (some row)) now row s
      ])

  unfoldable pub publish : String → Finding → ℕ → Inbox → Result (Inbox × Published)
  publish source finding now s = elim (get source s.registrations) [
    | none ↦ err unregistered_source
    | some registry ↦ elim (refusal registry finding) [
      | some failure ↦ err failure
      | none ↦ enter source (cleaned finding) now s
    ]
  ]
