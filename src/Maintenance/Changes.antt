-- ===== src/Maintenance/Changes.antt =====
-- Resolving, snoozing and recording outcomes keep the inbox well formed.
use seele_shell.Prelude.{
  Bool, String, ℕ, ◌<◌, ◌^◌, Entries-adjust, if_cases, if◌then◌else◌, ◌≡◌, adjust, not, some,
  Option, adjust-IsDistinct, contains_key, arith, length-adjust, option_cases, Entries-remove_other,
  get, get-adjust, string_key, refl, ◌==◌, List, length, str_eq, ◌≤◌, leb, length-append, ◌&&◌, ◌∷◌,
  [], ◌*◌, length-drop, ◌+◌, ◌++◌,
}
use seele_shell.Maintenance.Kept.{Described, adjust-Described}
use seele_shell.Maintenance.Model.{
  Result, Text, ok, Row, err, valid_key, id_of, Registry, Outcome, is_notice, Failure,
}
use seele_shell.Maintenance.Inbox.{
  outcome, resolve, resolve_id, add_outcome, Inbox, close_row, operation, current,
}
use seele_shell.Maintenance.Publish.{checked_increment}
use seele_shell.Maintenance.Invariant.{IsFiled, WellFormed}

-- What holds of the inbox of a success.
abbrev pub Holds {ℓ κ} : {A : Type ℓ} → (A → Type κ) → Result A → Type κ
Holds P (ok a) = P a
Holds P (err e) = Unit

pub counted_bounded :
    (b : Bool) (n m : ℕ)
    → n < 2 ^ 64
    → (if b then some n else checked_increment n) ≡ some m
    → m < 2 ^ 64
counted_bounded b n m h e = ground arith

-- A row stays filed whatever becomes of the fields that no limit is on.
pub refile-IsFiled :
    {registrations : List (String × Registry)} {k : String} {row : Row} (outcomes : List Outcome)
    (resolved snoozed_until : ℕ) (busy : String)
    → length outcomes ≤ 20
    → IsFiled registrations k row
    → IsFiled registrations k (record row {
      outcomes = outcomes;
      resolved = resolved;
      snoozed_until = snoozed_until;
      busy = busy;
    })
refile-IsFiled outcomes resolved snoozed_until busy short p = record {
  named = p.named;
  spelled = p.spelled;
  key_valid = p.key_valid;
  registered = p.registered;
  actions_known = p.actions_known;
  title_bounded = p.title_bounded;
  explanation_bounded = p.explanation_bounded;
  details_bounded = p.details_bounded;
  outcomes_bounded = short;
  revision_bounded = p.revision_bounded;
  recurrence_bounded = p.recurrence_bounded;
}

resolve_id-WellFormed :
    (id : String) (now : ℕ) (s : Inbox) → WellFormed s → WellFormed (resolve_id id now s)
unfolding resolve_id Described
resolve_id-WellFormed id now s h = record {
  plain = h.plain;
  filed =
      Entries-adjust (IsFiled s.registrations) id (close_row now) s.items
        (λ row _ p. refile-IsFiled row.outcomes now row.snoozed_until "" p.outcomes_bounded p)
        h.filed;
  distinct = adjust-IsDistinct id (close_row now) s.items h.distinct;
  bounded = ground (arith, length-adjust id (close_row now) s.items, h.bounded);
  described =
      Entries-remove_other (Described s.items) (Described (adjust id (close_row now) s.items)) id
        s.diagnostics
        (λ k d ne g. (ground (arith, get-adjust id k (close_row now) s.items, g.0), g.1))
        h.described;
}

pub changed-WellFormed :
    (id : String) (f : Row → Row) (s : Inbox)
    → ((row : Row) → IsFiled s.registrations id row → IsFiled s.registrations id (f row))
    → ((row : Row) → (f row).resolved ≡ row.resolved)
    → WellFormed s
    → WellFormed (record s { items = adjust id f s.items })
unfolding Described
changed-WellFormed id f s keeps same h = record {
  plain = h.plain;
  filed = Entries-adjust (IsFiled s.registrations) id f s.items (λ row _ p. keeps row p) h.filed;
  distinct = adjust-IsDistinct id f s.items h.distinct;
  bounded = ground (arith, length-adjust id f s.items, h.bounded);
  described = adjust-Described id f s.items s.diagnostics same h.described;
}

add_outcome-short :
    (revision : ℕ) (action : String) (result : Text) (now : ℕ) (row : Row)
    → length row.outcomes ≤ 20
    → length (add_outcome revision action result now row).outcomes ≤ 20
unfolding add_outcome
add_outcome-short revision action result now row h =
    let o : Outcome = record {
      action = action;
      at = now;
      result = result;
      revision = some revision;
    } in
    ground (arith, length-append row.outcomes (o ∷ []), length-drop 1 (row.outcomes ++ o ∷ []))

pub outcome-WellFormed :
    (id : String) (revision : ℕ) (action : String) (result : Text) (now : ℕ) (s : Inbox)
    → WellFormed s
    → WellFormed (outcome id revision action result now s)
unfolding outcome add_outcome
outcome-WellFormed id revision action result now s h =
    changed-WellFormed id (add_outcome revision action result now) s
      (λ row p.
        refile-IsFiled _ row.resolved row.snoozed_until ""
          (add_outcome-short revision action result now row p.outcomes_bounded) p)
      (λ row. refl) h

pub resolve-Holds :
    (source key : String) (now : ℕ) (s : Inbox)
    → WellFormed s
    → Holds (λ x. WellFormed x.0) (resolve source key now s)
unfolding resolve
resolve-Holds source key now s h =
    let P : Result (Inbox × Bool) → Type 0 = Holds (λ x. WellFormed x.0) in
    if_cases P (not (contains_key source s.registrations)) _ _ (λ _. tt)
      λ _.
        if_cases P (not (valid_key key)) _ _ (λ _. tt)
          λ _.
            option_cases P (get (id_of source key) s.items) _ _ (λ _. h)
              λ row _.
                if_cases P (row.resolved == 0) _ _
                  (λ _. resolve_id-WellFormed (id_of source key) now s h) (λ _. h)

pub result_cases {ℓ κ μ} :
    {A : Type ℓ} {B : Type κ} (P : B → Type μ) (r : Result A) (x : Failure → B) (f : A → B)
    → ((e : Failure) → P (x e))
    → ((a : A) → r ≡ ok a → P (f a))
    → P (elim r [ err e ↦ x e | ok a ↦ f a ])
result_cases P (ok a) x f h k = k a refl
result_cases P (err e) x f h k = h e

done_Holds :
    (r : Result (Inbox × Bool))
    → Holds (λ x. WellFormed x.0) r
    → Holds WellFormed (elim r [ err failure ↦ err failure | ok (t, known) ↦ ok t ])
done_Holds (ok (t, known)) h = h
done_Holds (err e) h = tt

pub operation-Holds :
    (id : String) (revision : ℕ) (op : String) (seconds : Option ℕ) (now : ℕ) (s : Inbox)
    → WellFormed s
    → Holds WellFormed (operation id revision op seconds now s)
unfolding operation
operation-Holds id revision op seconds now s h =
    let P : Result Inbox → Type 0 = Holds WellFormed in
    let snooze_to : (n : ℕ)
        → WellFormed
            (record s { items = adjust id (λ r. record r { snoozed_until = n }) s.items }) =
      λ n.
        changed-WellFormed id (λ r. record r { snoozed_until = n }) s
          (λ row p. refile-IsFiled row.outcomes row.resolved n row.busy p.outcomes_bounded p)
          (λ row. refl) h in
    result_cases P (current id revision s) _ _ (λ _. tt)
      λ row _.
        if_cases P (str_eq op "done") _ _
          (λ _.
            if_cases P (not (is_notice row.lifecycle)) _ _ (λ _. tt)
              (λ _.
                done_Holds (resolve row.source row.key now s)
                  (resolve-Holds row.source row.key now s h)))
          λ _.
            if_cases P (str_eq op "snooze") _ _
              (λ _.
                option_cases P seconds _ _ (λ _. tt)
                  λ n _.
                    if_cases P (leb 60 n && leb n (30 * 86400)) _ _ (λ _. snooze_to (now + n))
                      (λ _. tt))
              λ _. if_cases P (str_eq op "unsnooze") _ _ (λ _. snooze_to 0) (λ _. tt)
