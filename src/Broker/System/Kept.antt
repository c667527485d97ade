-- ===== src/Broker/System/Kept.antt =====
-- Changes of one job, and of all jobs, that keep the watermarks and the attempts.
use seele_shell.Prelude.{
  String, List, ◌≡◌, get, true, arith, some, adjust, map_values, string_key, Option, subst, none,
  sym, get-map_values, refl, get-adjust, if_cases, map_values-IsDistinct, str_eq, Entries-adjust,
  Entries-map_values, eq_iff, Entries-imp, length-adjust, length-map_values,
}
use seele_shell.Broker.Invariant.{is_current, Revisions, is_superseded, IsSound, adjust-Store}
use seele_shell.Broker.Job.{Job, Config}
use seele_shell.Broker.Validation.{Request}
use seele_shell.Broker.System.{FliesAt, Jobwise}
use mathlib.Core.Option

pub kept_current :
    (revisions : Revisions) (j k : Job)
    → k.request ≡ j.request
    → (is_superseded j.phase ≡ true → is_superseded k.phase ≡ true)
    → is_current revisions j ≡ true
    → is_current revisions k ≡ true
unfolding is_current
kept_current revisions j k r p h = rw r (ground arith)

mapped-FliesAt :
    (f : Job → Job) (o : Option Job) (r : Request)
    → ((j : Job) → o ≡ some j → FliesAt (some j) r → FliesAt (some (f j)) r)
    → FliesAt o r
    → FliesAt (Option.map f o) r
mapped-FliesAt f none r g h = tt
mapped-FliesAt f (some j) r g h = g j refl h

-- Adjusting one job keeps every attempt that the adjusted job keeps.
pub adjust-FliesAt :
    (id at : String) (f : Job → Job) (m : List (String × Job)) (r : Request)
    → ((j : Job) → get id m ≡ some j → FliesAt (some j) r → FliesAt (some (f j)) r)
    → FliesAt (get at m) r
    → FliesAt (get at (adjust id f m)) r
adjust-FliesAt id at f m r g h =
    subst (λ o. FliesAt o r) (sym (get-adjust id at f m))
      (if_cases (λ o. FliesAt o r) (str_eq id at) _ _
        (λ t.
          mapped-FliesAt f (get at m) r
            (λ j e. g j (subst (λ x. get x m ≡ some j) (sym ((eq_iff id at).0 t)) e)) h)
        (λ _. h))

pub map_values-FliesAt :
    (at : String) (f : Job → Job) (m : List (String × Job)) (r : Request)
    → ((j : Job) → FliesAt (some j) r → FliesAt (some (f j)) r)
    → FliesAt (get at m) r
    → FliesAt (get at (map_values f m)) r
map_values-FliesAt at f m r g h =
    subst (λ o. FliesAt o r) (sym (get-map_values at f m))
      (mapped-FliesAt f (get at m) r (λ j _. g j) h)

module _ (config : Config) (revisions : Revisions) (flight : List (String × Request)) where
  -- A change of one job that keeps it sound and current, and keeps its attempt.
  pub adjust-Jobwise :
      (id : String) (f : Job → Job) (m : List (String × Job))
      → ((j : Job) → get id m ≡ some j → IsSound config id j → IsSound config id (f j))
      → ((j : Job)
          → get id m ≡ some j
          → is_current revisions j ≡ true
          → is_current revisions (f j) ≡ true)
      → ((j : Job) (r : Request) → get id m ≡ some j → FliesAt (some j) r → FliesAt (some (f j)) r)
      → Jobwise config revisions flight m
      → Jobwise config revisions flight (adjust id f m)
  adjust-Jobwise id f m sound current flies h = record {
    store = adjust-Store config id f m sound h.store;
    current = Entries-adjust _ id f m current h.current;
    flying =
        Entries-imp _ _ (λ at r. adjust-FliesAt id at f m r (λ j e. flies j r e)) flight h.flying;
    bounded = rw (length-adjust id f m) h.bounded;
  }

  -- A change of every job.
  pub map_values-Jobwise :
      (f : Job → Job) (m : List (String × Job))
      → ((k : String) (j : Job) → IsSound config k j → IsSound config k (f j))
      → ((j : Job) → is_current revisions j ≡ true → is_current revisions (f j) ≡ true)
      → ((j : Job) (r : Request) → FliesAt (some j) r → FliesAt (some (f j)) r)
      → Jobwise config revisions flight m
      → Jobwise config revisions flight (map_values f m)
  map_values-Jobwise f m sound current flies h = record {
    store = record {
      distinct = map_values-IsDistinct f m h.store.distinct;
      sound = Entries-map_values _ _ f sound m h.store.sound;
    };
    current = Entries-map_values _ _ f (λ _ j. current j) m h.current;
    flying = Entries-imp _ _ (λ at r. map_values-FliesAt at f m r (λ j. flies j r)) flight h.flying;
    bounded = rw (length-map_values f m) h.bounded;
  }
