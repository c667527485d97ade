-- ===== src/Maintenance/Reachable.antt =====
-- The histories of an inbox: each step is a successful operation of projects/maintenance/src/model.rs.
use seele_shell.Prelude.{
  List, String, ℕ, All, subst, ◌≡◌, arith, true, Bool, Entries, ◌∷◌, Option, if_cases, ◌==◌,
  Entries-insert, not, [], string_key, refl,
}
use seele_shell.Maintenance.Model.{
  Text, collect, registrations, Finding, sources, Result, ok, is_disabled, source_actions,
}
use seele_shell.Maintenance.Inbox.{empty, Inbox, resolve, operation, outcome, prune}
use seele_shell.Maintenance.Publish.{Signed, Published, publish}
use seele_shell.Json.{Value, index}
use seele_shell.Maintenance.Invariant.{WellFormed}
use seele_shell.Maintenance.Changes.{
  Holds, resolve-Holds, operation-Holds, outcome-WellFormed, counted_bounded,
}
use seele_shell.Maintenance.Pruning.{prune-WellFormed}
use seele_shell.Maintenance.Ids.{no_colon}
use seele_shell.Maintenance.Publishing.{publish_cases}
use seele_shell.Maintenance.Kept.{old_bounded, done-WellFormed}

module _ (secrets : Text → Text) (digest : Signed → String) where
  pub data Step (s : Inbox) : Inbox → Type 0 where
    publishes :
        (source : String) (f : Finding) (now : ℕ) (t : Inbox) (p : Published)
        → publish secrets digest source f now s ≡ ok (t, p)
        → Step s t
    resolves :
        (source key : String) (now : ℕ) (t : Inbox) (b : Bool)
        → resolve source key now s ≡ ok (t, b)
        → Step s t
    operates :
        (id : String) (revision : ℕ) (op : String) (seconds : Option ℕ) (now : ℕ) (t : Inbox)
        → operation id revision op seconds now s ≡ ok t
        → Step s t
    records :
        (id : String) (revision : ℕ) (action : String) (result : Text) (now : ℕ)
        → Step s (outcome id revision action result now s)
    prunes : (now : ℕ) → Step s (prune now s)

  pub data Reach (s : Inbox) : Inbox → Type 0 where
    here : Reach s s
    then_step : {t u : Inbox} → Reach s t → Step t u → Reach s u

collect-plain :
    (config : Value) (names : List String)
    → All (λ n. no_colon n ≡ true) names
    → Entries (λ source registry. no_colon source ≡ true) (collect config names)
unfolding collect
collect-plain config [] h = tt
collect-plain config (source ∷ rest) h =
    if_cases (Entries (λ source registry. no_colon source ≡ true))
      (is_disabled (index (index config source) "enabled")) _ _ (λ _. collect-plain config rest h.1)
      λ _.
        Entries-insert (λ source registry. no_colon source ≡ true) source (source_actions source)
          (collect config rest) h.0 (collect-plain config rest h.1)

pub registrations-plain :
    (config : Value) → Entries (λ source registry. no_colon source ≡ true) (registrations config)
unfolding registrations
registrations-plain config =
    collect-plain config sources (refl, (refl, (refl, (refl, (refl, (refl, (refl, tt)))))))

pub empty-WellFormed : (config : Value) (now : ℕ) → WellFormed (empty (registrations config) now)
unfolding empty registrations
empty-WellFormed config now = prune-WellFormed now _ (record {
  plain = collect-plain config sources (refl, (refl, (refl, (refl, (refl, (refl, (refl, tt)))))));
  filed = tt;
  distinct = tt;
  bounded = omega arith;
  described = tt;
})

module _ (secrets : Text → Text) (digest : Signed → String) where
  pub publish-Holds :
      (source : String) (f : Finding) (now : ℕ) (s : Inbox)
      → WellFormed s
      → Holds (λ x. WellFormed x.0) (publish secrets digest source f now s)
  publish-Holds source f now s h =
      let P : Result (Inbox × Published) → Type 0 = Holds (λ x. WellFormed x.0) in
      publish_cases secrets digest P source f now s (λ _. tt)
        λ registry at accepted old changed from n r en er _.
          let bounds = old_bounded secrets digest source f now s old changed h at from in
          done-WellFormed secrets digest source registry f changed n r now old s h at accepted from
            (counted_bounded (old.resolved == 0) old.recurrence n bounds.0 en)
            (counted_bounded (not changed) old.revision r bounds.1 er)

  pub Step-WellFormed : {s t : Inbox} → Step secrets digest s t → WellFormed s → WellFormed t
  Step-WellFormed {s = s} (publishes source f now t p e) h =
      subst (Holds (λ x. WellFormed x.0)) e (publish-Holds source f now s h)
  Step-WellFormed {s = s} (resolves source key now t b e) h =
      subst (Holds (λ x. WellFormed x.0)) e (resolve-Holds source key now s h)
  Step-WellFormed {s = s} (operates id revision op seconds now t e) h =
      subst (Holds WellFormed) e (operation-Holds id revision op seconds now s h)
  Step-WellFormed {s = s} (records id revision action result now) h =
      outcome-WellFormed id revision action result now s h
  Step-WellFormed {s = s} (prunes now) h = prune-WellFormed now s h

  Reach-WellFormed : {s t : Inbox} → WellFormed s → Reach secrets digest s t → WellFormed t
  Reach-WellFormed h here = h
  Reach-WellFormed h (then_step r st) = Step-WellFormed st (Reach-WellFormed h r)

  -- Whatever is published, resolved, snoozed, recorded and pruned, in any order, from an inbox
  -- without rows: every row is stored under the id that its source and key spell, its source is
  -- registered, its key is valid, its actions are among those of its source, its texts, outcomes
  -- and counters are within their limits, there are at most 4096 rows, and diagnostics are kept
  -- only of rows that are not resolved.
  pub reachable-WellFormed :
      (config : Value) (now : ℕ) {t : Inbox}
      → Reach secrets digest (empty (registrations config) now) t
      → WellFormed t
  reachable-WellFormed config now r = Reach-WellFormed (empty-WellFormed config now) r
