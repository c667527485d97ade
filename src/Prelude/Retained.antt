-- ===== src/Prelude/Retained.antt =====
-- Maps from which entries are dropped.
use mathlib.Core.Path.{◌≡◌, refl}
use mathlib.Core.Logic.{inl, inr}
use mathlib.Core.Bool.{Bool, true, false}
use mathlib.Core.List.{List, [], ◌∷◌}
use mathlib.Core.Option.{none, some}
use native.Mathlib.Omega.{arith}
use seele_shell.Prelude.Tests.{Key, Bool-cases, if◌then◌else◌}
use seele_shell.Prelude.Lists.{retain}
use seele_shell.Prelude.Maps.{get, contains_key, contains_key-get, Entries}
use seele_shell.Prelude.Distinct.{IsDistinct}

module _ {ℓ κ μ} {K : Type ℓ} {V : Type κ} (P : K → V → Type μ) where
  pub Entries-retain : (p : K × V → Bool) (m : List (K × V)) → Entries P m → Entries P (retain p m)
  Entries-retain p [] h = tt
  Entries-retain p ((k, v) ∷ m) h = elim (Bool-cases (p (k, v))) [
    | inl t ↦ rw t (h.0, Entries-retain p m h.1)
    | inr t ↦ rw t (Entries-retain p m h.1)
  ]

  pub Entries-retain_of :
      (p : K × V → Bool) (m : List (K × V))
      → Entries (λ k v. p (k, v) ≡ true → P k v) m
      → Entries P (retain p m)
  Entries-retain_of p [] h = tt
  Entries-retain_of p ((k, v) ∷ m) h = elim (Bool-cases (p (k, v))) [
    | inl t ↦ rw t (h.0 t, Entries-retain_of p m h.1)
    | inr t ↦ rw t (Entries-retain_of p m h.1)
  ]

module _ {ℓ κ} {K : Type ℓ} {V : Type κ} ⦃key : Key K⦄ where
  pub absent-retain :
      (p : K × V → Bool) (k : K) (m : List (K × V))
      → contains_key k m ≡ false
      → contains_key k (retain p m) ≡ false
  absent-retain p k [] h = refl
  absent-retain p k ((j, v) ∷ m) h = ground (arith, absent-retain p k m)

  pub retain-IsDistinct :
      (p : K × V → Bool) (m : List (K × V)) → IsDistinct m → IsDistinct (retain p m)
  retain-IsDistinct p [] h = tt
  retain-IsDistinct p ((k, v) ∷ m) h = elim (Bool-cases (p (k, v))) [
    | inl t ↦ rw t (absent-retain p k m h.0, retain-IsDistinct p m h.1)
    | inr t ↦ rw t (retain-IsDistinct p m h.1)
  ]

  -- Under distinct keys an entry is found if it is there and kept.
  pub get-retain :
      (p : K × V → Bool) (k : K) (m : List (K × V))
      → IsDistinct m
      → get k (retain p m)
        ≡ (elim (get k m) [ none ↦ none | some v ↦ if p (k, v) then some v else none ])
  get-retain p k [] h = refl
  get-retain p k ((j, v) ∷ m) h = elim (Bool-cases (key.beq j k)) [
    | inl t ↦ ground (
      arith,
      t,
      h.0,
      key.beq_iff j k,
      get-retain p k m h.1,
      contains_key-get j m,
      contains_key-get k m,
    )
    | inr t ↦ ground (arith, t, get-retain p k m h.1)
  ]
