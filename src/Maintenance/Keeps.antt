-- ===== src/Maintenance/Keeps.antt =====
-- What the rows that `publish` renews keep, and that their texts are within the limits.
use seele_shell.Prelude.{
  List, String, Bool, get, ℕ, ◌≡◌, contains_key, length, none, refl, some, any, true, ◌≤◌, arith,
  not, ◌<◌, Option-cases, false, inl, length-take, ◌^◌, All, contains_key-get, retain, string_key,
  Entries-get, inr, ◌&&◌, ◌∷◌, [], sym, subst,
}
use seele_shell.Maintenance.Inbox.{Inbox}
use seele_shell.Maintenance.Publish.{refusal, renew, Signed, fresh_row}
use seele_shell.Maintenance.Model.{
  Text, Finding, Registry, clean, Row, id_of, valid_key, is_text, visible,
}
use seele_shell.Maintenance.Invariant.{WellFormed, IsFiled, is_action}
use seele_shell.Maintenance.Publishing.{IsOld}
use seele_shell.Maintenance.Ids.{no_colon, id_of-injective}

module _ (secrets : Text → Text) where
  pub length-clean : (n : ℕ) (t : Text) → length (clean secrets n t) ≤ n
  unfolding clean
  length-clean n t = omega (arith, length-take n (retain (λ c. is_text c && visible c) (secrets t)))

renew-outcomes :
    (f : Finding) (signature : String) (changed : Bool) (n r now : ℕ) (row : Row)
    → (renew f signature changed n r now row).outcomes ≡ row.outcomes
unfolding renew
renew-outcomes f signature changed n r now row = refl

pub refusal-known :
    (registry : Registry) (f : Finding)
    → refusal registry f ≡ none
    → (valid_key f.key ≡ true) × (any (λ a. not (contains_key a registry)) f.actions ≡ false)
unfolding refusal
refusal-known registry f e = ground arith

pub known_actions :
    (registrations : List (String × Registry)) (source : String) (registry : Registry)
    (actions : List String)
    → get source registrations ≡ some registry
    → any (λ a. not (contains_key a registry)) actions ≡ false
    → All (λ a. is_action registrations source a ≡ true) actions
known_actions registrations source registry [] at h = tt
known_actions registrations source registry (a ∷ as_) at h =
    (ground (arith, at), known_actions registrations source registry as_ at (ground arith))

-- The part of a filed row that `publish` does not write.
pub record IsBase (registrations : List (String × Registry)) (source key : String) (row : Row)
    : Type 0 where
  pub named : row.id ≡ id_of source key
  pub source_kept : row.source ≡ source
  pub key_kept : row.key ≡ key
  pub outcomes_bounded : length row.outcomes ≤ 20
  pub revision_bounded : row.revision < 2 ^ 64
  pub recurrence_bounded : row.recurrence < 2 ^ 64

pub registered-no_colon :
    (s : Inbox) (source : String)
    → WellFormed s
    → contains_key source s.registrations ≡ true
    → no_colon source ≡ true
registered-no_colon s source h e = elim (Option-cases (get source s.registrations)) [
  | inl n ↦ absurd (ground (arith, contains_key-get source s.registrations, n, e))
  | inr (registry, at) ↦
      Entries-get (λ source registry. no_colon source ≡ true) source s.registrations h.plain at
]

module _ (secrets : Text → Text) (digest : Signed → String) where
  pub old-IsBase :
      (source : String) (f : Finding) (now : ℕ) (s : Inbox) (old : Row) (changed : Bool)
      → WellFormed s
      → contains_key source s.registrations ≡ true
      → IsOld secrets digest source f now s old changed
      → IsBase s.registrations source f.key old
  unfolding fresh_row
  old-IsBase source f now s old changed h known (inl (at, _)) =
      let filed : IsFiled s.registrations (id_of source f.key) old =
        Entries-get (IsFiled s.registrations) (id_of source f.key) s.items h.filed at in
      let same : (source ≡ old.source) × (f.key ≡ old.key) =
        id_of-injective source old.source f.key old.key (registered-no_colon s source h known)
          (registered-no_colon s old.source h filed.registered) filed.spelled in
      record {
        named = filed.named;
        source_kept = sym same.0;
        key_kept = sym same.1;
        outcomes_bounded = filed.outcomes_bounded;
        revision_bounded = filed.revision_bounded;
        recurrence_bounded = filed.recurrence_bounded;
      }
  old-IsBase source f now s old changed h known (inr (_, _, same, _)) =
      subst (IsBase s.registrations source f.key) (sym same) (record {
        named = refl;
        source_kept = refl;
        key_kept = refl;
        outcomes_bounded = omega arith;
        revision_bounded = omega arith;
        recurrence_bounded = omega arith;
      })
