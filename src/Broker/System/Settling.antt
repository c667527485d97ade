-- ===== src/Broker/System/Settling.antt =====
-- The end of an attempt keeps the invariant.
use seele_shell.Prelude.{
  List, String, adjust, get, remove, ◌<◌, ◌≡◌, Entries-remove_other, some, ◌^◌, subst, false, sym,
  get-adjust, true, Entries-get, Entries-remove, if_cases, arith, remove-IsDistinct, str_eq,
  string_key, some-injective, ◌∙◌, ap, Entries-adjust, length-adjust,
}
use seele_shell.Broker.Job.{Config, Job, Clock, is_terminal, is_running}
use seele_shell.Broker.Invariant.{Revisions, adjust-Store}
use seele_shell.Broker.Validation.{Request}
use seele_shell.Broker.Settlement.{Answer, settle, check_output, settle_job}
use seele_shell.Broker.System.{Flying, System, Inv, FliesAt, Jobwise}
use seele_shell.Broker.Settlement.Keeps.{
  settle_cases, settle_job-IsSound, IsChecked, check_output-IsChecked, settle_job-request,
}
use seele_shell.Broker.System.Kept.{kept_current}

-- The attempts other than the settled one.
settled-Flying :
    (f : Job → Job) (m : List (String × Job)) (flight : List (String × Request)) (id : String)
    → Flying m flight
    → Flying (adjust id f m) (remove id flight)
settled-Flying f m flight id = Entries-remove_other _ _ id flight λ at r ne p.
    subst (λ o. FliesAt o r) (sym (get-adjust id at f m))
      (if_cases (λ o. FliesAt o r) (str_eq id at) _ _ (λ e. cc) (λ _. p))

running_of :
    (m : List (String × Job)) (flight : List (String × Request)) (id : String) (r : Request)
    (j : Job)
    → Flying m flight
    → get id flight ≡ some r
    → get id m ≡ some j
    → is_terminal j.phase ≡ false
    → (is_running j.phase ≡ true) × (j.request ≡ r)
running_of m flight id r j h f e live =
    let flies : FliesAt (some j) r =
      subst (λ o. FliesAt o r) e (Entries-get (λ at x. FliesAt (get at m) x) id flight h f) in
    (ground (arith, flies.0), flies.1)

settled-Jobwise :
    (config : Config) (revisions : Revisions) (flight : List (String × Request)) (id : String)
    (r : Request) (a : Answer) (c : Clock) (m : List (String × Job)) (j : Job)
    → config.schema_attempts < 2 ^ 32
    → get id flight ≡ some r
    → get id m ≡ some j
    → is_terminal j.phase ≡ false
    → Jobwise config revisions flight m
    → Jobwise config revisions
        (remove id flight)
        (adjust id (settle_job config (check_output r a) c) m)
settled-Jobwise config revisions flight id r a c m j fits f e live h =
    let o = check_output r a in
    let (runs, same) = running_of m flight id r j h.flying f e live in
    let is_j : (k : Job) → get id m ≡ some k → k ≡ j = λ k g. some-injective k j (sym g ∙ e) in
    record {
      store =
          adjust-Store config id (settle_job config o c) m
            (λ k g p.
              settle_job-IsSound config id o c k fits
                (subst (λ x. IsChecked x o) (sym (ap (λ (x : Job). x.request) (is_j k g) ∙ same))
                  (check_output-IsChecked r a))
                (ap (λ (x : Job). is_running x.phase) (is_j k g) ∙ runs) p)
            h.store;
      current =
          Entries-adjust _ id _ m
            (λ k g p.
              kept_current revisions k _ (settle_job-request config o c k)
                (λ s. ground (arith, ap (λ (x : Job). x.phase) (is_j k g), runs)) p)
            h.current;
      flying = settled-Flying _ m flight id h.flying;
      bounded = rw (length-adjust id (settle_job config o c) m) h.bounded;
    }

pub settle-Inv :
    (config : Config) (id : String) (r : Request) (a : Answer) (c : Clock) (y : System)
    → config.schema_attempts < 2 ^ 32
    → get id y.flight ≡ some r
    → Inv config y
    → Inv config (record {
      state = settle config id (check_output r a) c y.state;
      flight = remove id y.flight;
    })
settle-Inv config id r a c y fits f h =
    settle_cases (λ s. Inv config (record { state = s; flight = remove id y.flight })) config id
      (check_output r a) c y.state
      (record {
        jobwise = record {
          store = h.jobwise.store;
          current = h.jobwise.current;
          flying = Entries-remove _ id y.flight h.jobwise.flying;
          bounded = h.jobwise.bounded;
        };
        alone = remove-IsDistinct id y.flight h.alone;
        retired_bounded = h.retired_bounded;
        revisions_bounded = h.revisions_bounded;
      })
      λ j e live. record {
        jobwise = settled-Jobwise config _ y.flight id r a c y.state.jobs j fits f e live h.jobwise;
        alone = remove-IsDistinct id y.flight h.alone;
        retired_bounded = h.retired_bounded;
        revisions_bounded = h.revisions_bounded;
      }
