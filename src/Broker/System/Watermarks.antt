-- ===== src/Broker/System/Watermarks.antt =====
-- Watermarks only grow, until the broker is cleared.
use seele_shell.Prelude.{
  String, arith, ◌≡◌, subst, ℕ, get, sym, false, some, if_cases, insert, option_cases, ◌≤◌, ◌⊎◌,
  Bool-cases, [], pair_key, pair_eq, inl, refl, str_eq, get-insert, pair_eq_iff, inr,
}
use seele_shell.Broker.Invariant.{Revisions, Store}
use seele_shell.Broker.Actions.{act_on_message, perform}
use seele_shell.Broker.Scheduler.{choose, clear, requeue, close, State, pick}
use seele_shell.Broker.Submission.{enqueue, is_obsolete, submit_request}
use seele_shell.Broker.Protocol.{turn, serve, list_jobs, Command, submits, acts, lists}
use seele_shell.Broker.Job.{Config, Clock, Selection, Job}
use seele_shell.Broker.Submission.Keeps.{superseding, submit_cases}
use seele_shell.Broker.Turns.{Action, Turn, release, next, status, wait, cancel, retry}
use seele_shell.Broker.System.{System, Inv, Step, picks, chooses, settles, serves, closes, clears}
use seele_shell.Broker.Validation.{Request}
use seele_shell.Json.{Value, as_str, index}
use seele_shell.Broker.Scheduler.Keeps.{wake_keeps, pick_cases}
use seele_shell.Broker.Actions.Keeps.{act_cases}
use seele_shell.Broker.Settlement.Keeps.{settle_cases}
use seele_shell.Broker.Settlement.{check_output}

-- Each watermark of `old` stands in `new`, or a greater one does.
abbrev pub Grows : Revisions → Revisions → Type 0
Grows old new =
    (key : String × String) (n : ℕ)
    → get key old ≡ some n
    → (m : ℕ) × (get key new ≡ some m) × (n ≤ m)

Grows-refl : (r : Revisions) → Grows r r
Grows-refl r key n e = (n, e, omega arith)

Grows-of : {a b : Revisions} → b ≡ a → Grows a b
Grows-of {a} e = subst (Grows a) (sym e) (Grows-refl a)

insert-Grows :
    (r : Revisions) (key : String × String) (revision : ℕ)
    → is_obsolete revision (get key r) ≡ false
    → Grows r (insert key revision r)
unfolding is_obsolete
insert-Grows r key revision new k n e = elim (Bool-cases (pair_eq key k)) [
  | inl t ↦
      (revision, ground (arith, get-insert key k revision r), ground (arith, pair_eq_iff key k))
  | inr t ↦ (n, ground (arith, get-insert key k revision r), omega arith)
]

submit-Grows :
    (config : Config) (id : String) (c : Clock) (r : Request) (s : State)
    → Grows s.revisions (submit_request config id c r s).0.revisions
unfolding enqueue superseding
submit-Grows config id c r s =
    submit_cases (λ t. Grows s.revisions t.0.revisions) config id c r s (λ _. Grows-refl _)
      (λ _ _. Grows-refl _) (λ _ _ _ _ _ _ _. Grows-refl _) (λ _ _ _ _ _ _. Grows-refl _)
      λ key revision _ _ new _. insert-Grows s.revisions key revision new

performed_revisions :
    (config : Config) (a : Action) (c : Clock) (id : String) (j : Job) (s : State)
    → (perform config a c id j s).0.revisions ≡ s.revisions
unfolding perform
performed_revisions config release c id j s = refl
performed_revisions config next c id j s = refl
performed_revisions config status c id j s = refl
performed_revisions config wait c id j s = refl
performed_revisions config cancel c id j s = refl
performed_revisions config retry c id j s = refl

message_revisions :
    (config : Config) (epoch : String) (a : Action) (c : Clock) (message : Value) (s : State)
    → (act_on_message config epoch a c message s).0.revisions ≡ s.revisions
unfolding act_on_message
message_revisions config epoch a c message s =
    let P : State × Turn → Type 0 = λ t. t.0.revisions ≡ s.revisions in
    option_cases P (as_str (index message "epoch")) _ _ (λ _. refl)
      λ (e : String) _.
        if_cases P (str_eq e epoch) _ _
          (λ _.
            option_cases P (as_str (index message "id")) _ _ (λ _. refl)
              λ (id : String) _.
                act_cases P config a c id s (λ _. refl) (λ _ _ _ _. refl) (λ _ _ _. refl)
                  (λ j _ _ _. performed_revisions config a c id j s))
          (λ _. refl)

turn-Grows :
    (config : Config) (epoch fresh : String) (c : Clock) (command : Command) (s : State)
    → Grows s.revisions (turn config epoch fresh c command s).0.revisions
unfolding turn serve list_jobs
turn-Grows config epoch fresh c (submits r) s =
    let P : State × Turn → Type 0 = λ t. Grows s.revisions t.0.revisions in
    if_cases P s.closed _ _ (λ _. Grows-refl _)
      (λ _. submit-Grows config fresh c r (record s { activity = c.instant }))
turn-Grows config epoch fresh c lists s =
    let P : State × Turn → Type 0 = λ t. Grows s.revisions t.0.revisions in
    if_cases P s.closed _ _ (λ _. Grows-refl _) (λ _. Grows-refl _)
turn-Grows config epoch fresh c (acts a message) s =
    let P : State × Turn → Type 0 = λ t. Grows s.revisions t.0.revisions in
    if_cases P s.closed _ _ (λ _. Grows-refl _)
      (λ _.
        Grows-of (message_revisions config epoch a c message (record s { activity = c.instant })))

pick-Grows :
    (config : Config) (c : Clock) (s : State)
    → Store config s.jobs
    → Grows s.revisions (pick c s).0.revisions
unfolding requeue
pick-Grows config c s h =
    let w = wake_keeps (λ t. t.revisions ≡ s.revisions) config c.instant s (λ t j _ e. e) h refl in
    pick_cases config (λ r. Grows s.revisions r.0.revisions) c s h (λ _. Grows-refl _)
      (λ _. Grows-of w) (λ j _ _ _. Grows-of w)

choose_revisions :
    (id : String) (n : Selection) (c : Clock) (s : State)
    → (choose id n c s).0.revisions ≡ s.revisions
unfolding choose
choose_revisions id n c s = ground arith

-- No step takes a watermark back: a step keeps each one or raises it, or clears them all.
pub watermarks_grow :
    {config : Config} {epoch : String} {y z : System}
    → Inv config y
    → Step config epoch y z
    → Grows y.state.revisions z.state.revisions ⊎ (z.state.revisions ≡ [])
unfolding clear close
watermarks_grow {config} {y = y} h (picks c) = inl (pick-Grows config c y.state h.jobwise.store)
watermarks_grow {y = y} h (chooses id n c) = inl (Grows-of (choose_revisions id n c y.state))
watermarks_grow {config} {y = y} h (settles id r a c f) = inl (
    settle_cases (λ s. Grows y.state.revisions s.revisions) config id (check_output r a) c y.state
      (Grows-refl _) (λ _ _ _. Grows-refl _))
watermarks_grow {config} {epoch} {y = y} h (serves fresh command c free) =
    inl (turn-Grows config epoch fresh c command y.state)
watermarks_grow h (closes c) = inl (Grows-refl _)
watermarks_grow h clears = inr refl
