-- ===== src/Broker/Submission/Supersession.antt =====
-- Newer revisions of an item replace older ones.
use seele_shell.Prelude.{
  String, ℕ, List, get, ◌≡◌, some, true, str_eq, arith, false, insert, pair_key, map_values, none,
  get-insert, string_key, get-map_values, subst, some-injective, sym, ◌+◌, pair_eq_iff, ◌∙◌, ap,
  eq_iff, refl,
}
use seele_shell.Broker.Job.{Config, Clock, Job, item_key, queued, finish, superseded, u64}
use seele_shell.Broker.Submission.{submit_request, supersede_job, has_item, enqueue, new_job}
use seele_shell.Broker.Validation.{Request}
use seele_shell.Broker.Scheduler.{State}
use seele_shell.Broker.Turns.{Reply, replies, Turn}
use seele_shell.Broker.Submission.Keeps.{submit_cases, superseding}

superseded_at :
    (key : String × String) (revision : ℕ) (id : String) (c : Clock) (n : Job)
    (m : List (String × Job)) (k : String) (j : Job)
    → get k m ≡ some j
    → has_item key j.request ≡ true
    → str_eq id k ≡ false
    → get k (insert id n (map_values (supersede_job key c.wall) m))
      ≡ some (finish superseded none c.wall j)
unfolding supersede_job
superseded_at key revision id c n m k j e owns ne = ground (
  arith,
  get-insert id k n (map_values (supersede_job key c.wall) m),
  get-map_values k (supersede_job key c.wall) m,
  e,
)

-- From `s` to `t` the request of a new job under `id` has replaced the older jobs of its item.
pub record Supersedes (key : String × String) (revision : ℕ) (id : String) (c : Clock) (r : Request)
    (s t : State) : Type 0 where
  pub watermark : get key t.revisions ≡ some revision
  pub new_job_of : Job
  pub stored : get id t.jobs ≡ some new_job_of
  pub waiting : new_job_of.phase ≡ queued
  pub asked : new_job_of.request ≡ r
  pub replaced :
      (k : String) (j : Job)
      → get k s.jobs ≡ some j
      → has_item key j.request ≡ true
      → str_eq id k ≡ false
      → get k t.jobs ≡ some (finish superseded none c.wall j)

enqueued-Supersedes :
    (config : Config) (key : String × String) (revision : ℕ) (id : String) (c : Clock) (r : Request)
    (s : State)
    → Supersedes key revision id c r s (enqueue config id c r (superseding key revision c.wall s)).0
unfolding enqueue superseding new_job
enqueued-Supersedes config key revision id c r s =
    let n = new_job (u64 (s.sequence + 1)) id c r in
    record {
      watermark = ground (arith, get-insert key key revision s.revisions, pair_eq_iff key key);
      new_job_of = n;
      stored =
          ground (
            arith,
            get-insert id id n (map_values (supersede_job key c.wall) s.jobs),
            eq_iff id id,
          );
      waiting = refl;
      asked = refl;
      replaced = λ k j. superseded_at key revision id c n s.jobs k j;
    }

-- An accepted submission of an item leaves its revision as the item's watermark, is queued under
-- its id, and supersedes every job of the item that stands under another id, whatever its state
-- was, also one that was over: its result is gone and its attempt is stopped.
pub submit-Supersedes :
    (config : Config) (id : String) (c : Clock) (r : Request) (s t : State) (m : Reply)
    (key : String × String) (revision : ℕ)
    → item_key r ≡ some (key, revision)
    → submit_request config id c r s ≡ (t, replies m)
    → Supersedes key revision id c r s t
submit-Supersedes config id c r s t m key revision e =
    let Goal : State × Turn → Type 0 =
      λ x. x ≡ (t, replies m) → Supersedes key revision id c r s t in
    submit_cases Goal config id c r s (λ _ q. ground arith) (λ _ n q. ground (arith, n, e))
      (λ _ _ _ _ _ _ _ q. ground arith) (λ _ _ _ _ _ _ q. ground arith)
      λ k v _ f _ _ q.
        let Result : (String × String) × ℕ → Type 0 =
          λ x. (enqueue config id c r (superseding x.0 x.1 c.wall s)).0 ≡ t in
        let at : Result (key, revision) =
          subst Result (some-injective (k, v) (key, revision) (sym f ∙ e))
            (ap (λ (x : State × Turn). x.0) q) in
        subst (Supersedes key revision id c r s) at
          (enqueued-Supersedes config key revision id c r s)
