-- ===== src/Tools/Ports/Targets.antt =====
-- What `Row::target` of projects/tools/src/ports/model.rs decides.
use seele_shell.Prelude.{
  chars_key, Chars, ℕ, List, some, ◌≡◌, [], all, first, none, ◌∷◌, ◌≢◌, ◌⊎◌, All, chars_eq, inl,
  length, retain, Option, some-injective, ◌&&◌, ◌==◌, Bool-cases, inr, option_cases, true, ◌≤◌,
  chars_eq_iff, if_cases, subst, ==_iff, arith, refl, sym, ◌∙◌,
}
use seele_shell.Tools.Ports.{
  Process, Row, owner, service, Target, no_target, no_kind, service_target, process_target,
  ambiguous, target, Listener,
}
use seele_shell.Json.{codes}

-- `o` is one of the processes.
abbrev pub IsOwner : Process → List Process → Type 0
IsOwner o [] = ⊥
IsOwner o (p ∷ ps) = (p ≡ o) ⊎ IsOwner o ps

-- No service has all the owners.
abbrev pub Unshared : Row → Type 0
Unshared row =
    (unit scope : Chars)
    → unit ≢ []
    → ¬ All (λ o. (o.service ≡ unit) × (o.scope ≡ scope)) row.owners

-- The four decisions, each with its reason; no two of them fit one row.
pub data Decided (row : Row) (selected : ℕ) (self_uid : ℕ) : Target → Type 0 where
  nobody :
      (reason : Chars)
      → row.owners ≡ []
      → Decided row selected self_uid (no_target no_kind reason row.listener.uid)
  one_service :
      (unit scope : Chars)
      → unit ≢ []
      → All (λ o. (o.service ≡ unit) × (o.scope ≡ scope)) row.owners
      → 1 ≤ length row.owners
      → Decided row selected self_uid (service_target row unit scope)
  one_process :
      (o : Process)
      → Unshared row
      → IsOwner o row.owners
      → (o.pid ≡ selected) ⊎ (length row.owners ≡ 1)
      → Decided row selected self_uid (process_target o self_uid)
  several :
      (reason : Chars)
      → Unshared row
      → 2 ≤ length row.owners
      → All (λ o. o.pid ≢ selected) row.owners
      → Decided row selected self_uid (no_target ambiguous reason row.listener.uid)

first-IsOwner : (o : Process) (ps : List Process) → first ps ≡ some o → IsOwner o ps
first-IsOwner o [] e = cc
first-IsOwner o (p ∷ ps) e = inl (some-injective p o e)

found-IsOwner :
    (n : ℕ) (o : Process) (ps : List Process)
    → first (retain (λ p. p.pid == n) ps) ≡ some o
    → IsOwner o ps × (o.pid ≡ n)
found-IsOwner n o [] e = cc
found-IsOwner n o (p ∷ ps) e = elim (Bool-cases (p.pid == n)) [
  | inl t ↦
      let same = some-injective p o (rw t at e) in
      (inl same, subst (λ q. q.pid ≡ n) same ((==_iff p.pid n).0 t))
  | inr t ↦ let rest = found-IsOwner n o ps (rw t at e) in (inr rest.0, rest.1)
]

no_some : (p : Process) → some p ≡ none → ⊥
no_some p e = cc

unfound :
    (n : ℕ) (ps : List Process)
    → first (retain (λ p. p.pid == n) ps) ≡ none
    → All (λ p. p.pid ≢ n) ps
unfound n [] e = tt
unfound n (p ∷ ps) e = elim (Bool-cases (p.pid == n)) [
  | inl t ↦ absurd (no_some p (rw t at e))
  | inr t ↦ (λ same. ground (arith, t, same), unfound n ps (rw t at e))
]

all_same :
    (unit scope : Chars) (ps : List Process)
    → all (λ p. chars_eq p.service unit && chars_eq p.scope scope) ps ≡ true
    → All (λ o. (o.service ≡ unit) × (o.scope ≡ scope)) ps
all_same unit scope [] h = tt
all_same unit scope (p ∷ ps) h = (
  (
    (chars_eq_iff p.service unit).0 (ground (arith, h)),
    (chars_eq_iff p.scope scope).0 (ground (arith, h)),
  ),
  all_same unit scope ps (ground (arith, h)),
)

-- What `service` finds.
service-Shared :
    (row : Row) (unit scope : Chars)
    → service row ≡ some (unit, scope)
    → (unit ≢ []) × All (λ o. (o.service ≡ unit) × (o.scope ≡ scope)) row.owners
unfolding service
service-Shared row unit scope =
    let Finds : Option (Chars × Chars) → Type 0 = λ x.
      x ≡ some (unit, scope)
      → (unit ≢ []) × All (λ o. (o.service ≡ unit) × (o.scope ≡ scope)) row.owners in
    option_cases Finds (first row.owners) _ _ (λ _ n. cc)
      λ o _.
        if_cases Finds (chars_eq o.service []) _ _ (λ _ n. cc)
          λ filled.
            if_cases Finds
              (all (λ p. chars_eq p.service o.service && chars_eq p.scope o.scope) row.owners) _ _
              (λ same e.
                let pair = some-injective (o.service, o.scope) (unit, scope) e in
                subst (λ x. (x.0 ≢ []) × All (λ o. (o.service ≡ x.0) × (o.scope ≡ x.1)) row.owners)
                  pair
                  (
                    λ empty. ground (arith, filled, (chars_eq_iff o.service []).1 empty),
                    all_same o.service o.scope row.owners same,
                  ))
              (λ _ n. cc)

same_all :
    (unit scope : Chars) (ps : List Process)
    → All (λ o. (o.service ≡ unit) × (o.scope ≡ scope)) ps
    → all (λ p. chars_eq p.service unit && chars_eq p.scope scope) ps ≡ true
same_all unit scope [] h = refl
same_all unit scope (p ∷ ps) h =
    rw ((chars_eq_iff p.service unit).1 h.0.0)
      (rw ((chars_eq_iff p.scope scope).1 h.0.1) (same_all unit scope ps h.1))

-- A service that has all of at least one owner is found.
service-found :
    (l : Listener) (p : Process) (ps : List Process)
    → p.service ≢ []
    → All (λ o. (o.service ≡ p.service) × (o.scope ≡ p.scope)) (p ∷ ps)
    → service (record { listener = l; owners = p ∷ ps }) ≡ some (p.service, p.scope)
unfolding service
service-found l p ps n h =
    if_cases (λ x. x ≡ some (p.service, p.scope)) (chars_eq p.service []) _ _
      (λ e. absurd (n ((chars_eq_iff p.service []).0 e)))
      (λ _. rw (same_all p.service p.scope (p ∷ ps) h) refl)

none-some : {A : Type 0} (a : A) → none ≡ some a → ⊥
none-some a e = cc

service-Unshared :
    (l : Listener) (ps : List Process)
    → 1 ≤ length ps
    → service (record { listener = l; owners = ps }) ≡ none
    → Unshared (record { listener = l; owners = ps })
service-Unshared l [] some_owner e unit scope n h = ground (arith, some_owner)
service-Unshared l (p ∷ ps) some_owner e unit scope n h = none-some _ (
    sym e
    ∙ service-found l p ps (subst (λ u. u ≢ []) (sym h.0.0) n) (
        subst (λ x. All (λ o. (o.service ≡ x) × (o.scope ≡ p.scope)) (p ∷ ps)) (sym h.0.0)
          (subst (λ x. All (λ o. (o.service ≡ unit) × (o.scope ≡ x)) (p ∷ ps)) (sym h.0.1) h)))

-- What `owner` finds, and what is known if it finds none.
Chosen : Row → ℕ → Option Process → Type 0
Chosen row selected none = All (λ o. o.pid ≢ selected) row.owners × (length row.owners ≢ 1)
Chosen row selected (some o) = IsOwner o row.owners × ((o.pid ≡ selected) ⊎ (length row.owners ≡ 1))

single : (ps : List Process) → length ps ≡ 1 → (o : Process) × (first ps ≡ some o)
single [] e = absurd (ground (arith, e))
single (p ∷ ps) e = (p, refl)

owner-Chosen : (row : Row) (selected : ℕ) → Chosen row selected (owner row selected)
unfolding owner Chosen
owner-Chosen row selected =
    option_cases (Chosen row selected) (first (retain (λ p. p.pid == selected) row.owners)) _ _
      (λ e.
        if_cases (Chosen row selected) (length row.owners == 1) _ _
          (λ one.
            let alone = (==_iff (length row.owners) 1).0 one in
            let (o, f) = single row.owners alone in
            subst (Chosen row selected) (sym f) (first-IsOwner o row.owners f, inr alone))
          (λ more. (unfound selected row.owners e, λ one. ground (arith, more, one))))
      (λ o e. let (is, same) = found-IsOwner selected o row.owners e in (is, inl same))

length-zero : (ps : List Process) → (length ps == 0) ≡ true → ps ≡ []
length-zero [] e = refl
length-zero (p ∷ ps) e = ground (arith, e)

Chosen-Decided :
    (row : Row) (selected self_uid : ℕ) (c : Option Process)
    → Chosen row selected c
    → 1 ≤ length row.owners
    → Unshared row
    → Decided row selected self_uid (elim c [
      | some o ↦ process_target o self_uid
      | none ↦
          no_target ambiguous
            (codes "Several processes share this socket. Choose the one to stop.")
            row.listener.uid
    ])
unfolding Chosen
Chosen-Decided row selected self_uid none h l u = several _ u (ground (arith, l, h.1)) h.0
Chosen-Decided row selected self_uid (some o) h l u = one_process o u h.0 h.1

-- `target` decides for one of four cases, which exclude each other: nobody is visible; all owners
-- belong to one named service, which is then the target; or no service has all owners, and a single
-- owner, or the one that was selected, is the target; or no service has all owners, there are
-- several, and none was selected.
pub target-Decided :
    (row : Row) (selected self_uid : ℕ)
    → Decided row selected self_uid (target row selected self_uid)
unfolding target Chosen
target-Decided row selected self_uid =
    let Fits = Decided row selected self_uid in
    if_cases Fits (length row.owners == 0) _ _ (λ e. nobody _ (length-zero row.owners e))
      λ some_owner.
        option_cases Fits (service row) _ _
          (λ unshared.
            Chosen-Decided row selected self_uid (owner row selected) (owner-Chosen row selected)
              (ground (arith, some_owner))
              (service-Unshared row.listener row.owners (ground (arith, some_owner)) unshared))
          λ pair e.
            let (named, same) = service-Shared row pair.0 pair.1 e in
            one_service pair.0 pair.1 named same (ground (arith, some_owner))
