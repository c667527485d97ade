-- ===== src/Broker/System/Performing.antt =====
-- An action of a client on one job keeps the invariant.
use seele_shell.Prelude.{
  List, String, length, get, map_values, remove, ◌≡◌, ◌≤◌, arith, false, remove-IsDistinct, some,
  Entries-remove, adjust, length-append, option_cases, Entries-imp, true, ◌∷◌, [], subst, if_cases,
  length-drop, string_key, sym, get-remove, str_eq, ◌++◌, length-remove-le, refl, get-map_values,
}
use seele_shell.Broker.Job.{Config, Metadata, Job, finish, Clock}
use seele_shell.Broker.Actions.{
  act_on_message, apply_action, retire, refused, reset, perform, act_on, demote,
}
use seele_shell.Broker.Invariant.{Revisions, is_current}
use seele_shell.Broker.Validation.{Request}
use seele_shell.Broker.Turns.{Action, Turn, cancel, retry, next, status, wait, release}
use seele_shell.Broker.System.{Jobwise, Inv, FliesAt}
use seele_shell.Broker.Scheduler.{State}
use seele_shell.Json.{Value, as_str, index}
use seele_shell.Broker.Actions.Keeps.{act_cases, applied-IsSound, demote-IsSound}
use seele_shell.Broker.System.Kept.{adjust-Jobwise, kept_current, map_values-Jobwise}

applied_current :
    (revisions : Revisions) (a : Action) (c : Clock) (j : Job)
    → refused a j.phase ≡ false
    → is_current revisions j ≡ true
    → is_current revisions (apply_action a c j) ≡ true
unfolding apply_action refused finish reset
applied_current revisions cancel c j r p = kept_current revisions j _ refl (ground arith) p
applied_current revisions retry c j r p = kept_current revisions j _ refl (ground arith) p
applied_current revisions next c j r p = kept_current revisions j _ refl (ground arith) p
applied_current revisions status c j r p = p
applied_current revisions wait c j r p = p
applied_current revisions release c j r p = p

applied_flies :
    (a : Action) (c : Clock) (j : Job) (x : Request)
    → refused a j.phase ≡ false
    → FliesAt (some j) x
    → FliesAt (some (apply_action a c j)) x
unfolding apply_action refused finish reset
applied_flies cancel c j x r p = (ground arith, p.1)
applied_flies retry c j x r p = absurd (ground arith)
applied_flies next c j x r p = absurd (ground arith)
applied_flies status c j x r p = p
applied_flies wait c j x r p = p
applied_flies release c j x r p = p

performed-Jobwise :
    (config : Config) (revisions : Revisions) (flight : List (String × Request)) (a : Action)
    (c : Clock) (id : String) (m : List (String × Job)) (j : Job)
    → get id m ≡ some j
    → refused a j.phase ≡ false
    → Jobwise config revisions flight m
    → Jobwise config revisions flight (adjust id (apply_action a c) m)
performed-Jobwise config revisions flight a c id m j e r h =
    adjust-Jobwise config revisions flight id (apply_action a c) m
      (λ k g p. applied-IsSound config id a c k (ground (arith, e, g)) p)
      (λ k g p. applied_current revisions a c k (ground (arith, e, g)) p)
      (λ k x g p. applied_flies a c k x (ground (arith, e, g)) p) h

retire_bounded :
    (m : Metadata) (j : Job) (ms : List Metadata) → length ms ≤ 128 → length (retire m j ms) ≤ 128
unfolding retire
retire_bounded m j ms h = ground (arith, length-append ms (m ∷ []), length-drop 1 (ms ++ m ∷ []))

removed-Jobwise :
    (config : Config) (revisions : Revisions) (flight : List (String × Request)) (id : String)
    (m : List (String × Job))
    → Jobwise config revisions flight m
    → Jobwise config revisions flight (remove id m)
removed-Jobwise config revisions flight id m h = record {
  store = record {
    distinct = remove-IsDistinct id m h.store.distinct;
    sound = Entries-remove _ id m h.store.sound;
  };
  current = Entries-remove _ id m h.current;
  flying =
      Entries-imp _ _
        (λ at r p.
          subst (λ o. FliesAt o r) (sym (get-remove id at m))
            (if_cases (λ o. FliesAt o r) (str_eq id at) _ _ (λ _. tt) (λ _. p)))
        flight h.flying;
  bounded = omega (arith, length-remove-le {0, 0} id m, h.bounded);
}

demoted-Jobwise :
    (config : Config) (revisions : Revisions) (flight : List (String × Request))
    (m : List (String × Job))
    → Jobwise config revisions flight m
    → Jobwise config revisions flight (map_values demote m)
demoted-Jobwise config revisions flight m h =
    map_values-Jobwise config revisions flight demote m (demote-IsSound config)
      (λ j p. kept_current revisions j _ refl (λ s. s) p) (λ j r p. p) h

changed-Inv :
    (config : Config) (flight : List (String × Request)) (s : State) (m : List (String × Job))
    → Jobwise config s.revisions flight m
    → Inv config (record { state = s; flight = flight })
    → Inv config (record { state = record s { jobs = m }; flight = flight })
changed-Inv config flight s m w h = record {
  jobwise = w;
  alone = h.alone;
  retired_bounded = h.retired_bounded;
  revisions_bounded = h.revisions_bounded;
}

module _ (config : Config) (flight : List (String × Request)) (c : Clock) (id : String) where
  pub perform-Inv :
      (a : Action) (j : Job) (s : State)
      → get id s.jobs ≡ some j
      → refused a j.phase ≡ false
      → Inv config (record { state = s; flight = flight })
      → Inv config (record { state = (perform config a c id j s).0; flight = flight })
  unfolding perform
  perform-Inv release j s e r h = record {
    jobwise = removed-Jobwise config s.revisions flight id s.jobs h.jobwise;
    alone = h.alone;
    retired_bounded = retire_bounded _ j s.retired h.retired_bounded;
    revisions_bounded = h.revisions_bounded;
  }
  perform-Inv next j s e r h =
      changed-Inv config flight s _
        (performed-Jobwise config s.revisions flight next c id (map_values demote s.jobs) (demote j)
          (rw (get-map_values id demote s.jobs, e)) r
          (demoted-Jobwise config s.revisions flight s.jobs h.jobwise))
        h
  perform-Inv status j s e r h =
      changed-Inv config flight s _
        (performed-Jobwise config s.revisions flight status c id s.jobs j e r h.jobwise) h
  perform-Inv wait j s e r h =
      changed-Inv config flight s _
        (performed-Jobwise config s.revisions flight wait c id s.jobs j e r h.jobwise) h
  perform-Inv cancel j s e r h =
      changed-Inv config flight s _
        (performed-Jobwise config s.revisions flight cancel c id s.jobs j e r h.jobwise) h
  perform-Inv retry j s e r h =
      changed-Inv config flight s _
        (performed-Jobwise config s.revisions flight retry c id s.jobs j e r h.jobwise) h

  act_on-Inv :
      (a : Action) (s : State)
      → Inv config (record { state = s; flight = flight })
      → Inv config (record { state = (act_on config a c id s).0; flight = flight })
  act_on-Inv a s h =
      act_cases (λ t. Inv config (record { state = t.0; flight = flight })) config a c id s (λ _. h)
        (λ _ _ _ _. h) (λ _ _ _. h) (λ j e r _. perform-Inv a j s e r h)

pub message-Inv :
    (config : Config) (epoch : String) (flight : List (String × Request)) (a : Action) (c : Clock)
    (message : Value) (s : State)
    → Inv config (record { state = s; flight = flight })
    → Inv config (record { state = (act_on_message config epoch a c message s).0; flight = flight })
unfolding act_on_message
message-Inv config epoch flight a c message s h =
    let P : State × Turn → Type 0 = λ t. Inv config (record { state = t.0; flight = flight }) in
    option_cases P (as_str (index message "epoch")) _ _ (λ _. h)
      λ (e : String) _.
        if_cases P (str_eq e epoch) _ _
          (λ _.
            option_cases P (as_str (index message "id")) _ _ (λ _. h)
              λ (id : String) _. act_on-Inv config flight c id a s h)
          (λ _. h)
