-- ===== src/Prelude/Maps.antt =====
-- A map as an association list that is walked in the order of its keys.
use Prim.Native.Nat.{suc, ◌≤◌}
use mathlib.Core.Path.{◌≡◌, refl, sym, subst}
use mathlib.Core.Logic.{inl, inr}
use mathlib.Core.Bool.{Bool, true, false, ◌||◌}
use mathlib.Core.List.{List, [], ◌∷◌}
use mathlib.Core.Option
use mathlib.Core.Option.{Option, none, some, some-injective}
use native.Mathlib.Omega.{arith}
use seele_shell.Prelude.Tests.{if◌then◌else◌, Key, Bool-cases}
use seele_shell.Prelude.Lists.{length, All}

module _ {ℓ κ} {K : Type ℓ} {V : Type κ} where
  abbrev pub map_values : (V → V) → List (K × V) → List (K × V)
  map_values f [] = []
  map_values f ((j, v) ∷ m) = (j, f v) ∷ map_values f m

  abbrev pub values : List (K × V) → List V
  values [] = []
  values ((j, v) ∷ m) = v ∷ values m

module _ {ℓ κ} {K : Type ℓ} {V : Type κ} ⦃key : Key K⦄ where
  abbrev pub get : K → List (K × V) → Option V
  get k [] = none
  get k ((j, v) ∷ m) = if key.beq j k then some v else get k m

  abbrev pub contains_key : K → List (K × V) → Bool
  contains_key k [] = false
  contains_key k ((j, v) ∷ m) = key.beq j k || contains_key k m

  abbrev pub remove : K → List (K × V) → List (K × V)
  remove k [] = []
  remove k ((j, v) ∷ m) = if key.beq j k then remove k m else (j, v) ∷ remove k m

  -- `if let Some(v) = map.get_mut(k) { *v = f(v) }`
  abbrev pub adjust : K → (V → V) → List (K × V) → List (K × V)
  adjust k f [] = []
  adjust k f ((j, v) ∷ m) = if key.beq j k then (j, f v) ∷ m else (j, v) ∷ adjust k f m

  abbrev pub insert_new : K → V → List (K × V) → List (K × V)
  insert_new k v [] = (k, v) ∷ []
  insert_new k v ((j, w) ∷ m) =
      if key.blt k j then (k, v) ∷ (j, w) ∷ m else (j, w) ∷ insert_new k v m

  -- A present key keeps its place; a new one goes before the first greater one.
  unfoldable pub insert : K → V → List (K × V) → List (K × V)
  insert k v m = if contains_key k m then adjust k (λ _. v) m else insert_new k v m

module _ {ℓ κ} {K : Type ℓ} {V : Type κ} ⦃key : Key K⦄ where
  pub get-remove :
      (k j : K) (m : List (K × V)) → get j (remove k m) ≡ (if key.beq k j then none else get j m)
  get-remove k j [] = ground arith
  get-remove k j ((i, w) ∷ m) =
      ground (arith, key.beq_iff k j, key.beq_iff i k, key.beq_iff i j, get-remove k j m)

  pub get-adjust :
      (k j : K) (f : V → V) (m : List (K × V))
      → get j (adjust k f m) ≡ (if key.beq k j then Option.map f (get j m) else get j m)
  get-adjust k j f [] = ground arith
  get-adjust k j f ((i, w) ∷ m) =
      ground (arith, key.beq_iff k j, key.beq_iff i k, key.beq_iff i j, get-adjust k j f m)

  pub get-map_values :
      (k : K) (f : V → V) (m : List (K × V)) → get k (map_values f m) ≡ Option.map f (get k m)
  get-map_values k f [] = refl
  get-map_values k f ((j, v) ∷ m) = ground (arith, get-map_values k f m)

  pub contains_key-get :
      (k : K) (m : List (K × V))
      → contains_key k m ≡ (elim (get k m) [ none ↦ false | some _ ↦ true ])
  contains_key-get k [] = refl
  contains_key-get k ((j, v) ∷ m) = ground (arith, contains_key-get k m)

  get-insert_new :
      (k j : K) (v : V) (m : List (K × V))
      → get k m ≡ none
      → get j (insert_new k v m) ≡ (if key.beq k j then some v else get j m)
  get-insert_new k j v [] h = refl
  get-insert_new k j v ((i, w) ∷ m) h =
      ground (arith, key.beq_iff k j, key.beq_iff i k, key.beq_iff i j, get-insert_new k j v m)

  pub get-insert :
      (k j : K) (v : V) (m : List (K × V))
      → get j (insert k v m) ≡ (if key.beq k j then some v else get j m)
  unfolding insert
  get-insert k j v m = ground (
    arith,
    get-insert_new k j v m,
    get-adjust k j (λ (_ : V). v) m,
    contains_key-get k m,
    contains_key-get j m,
    key.beq_iff k j,
  )

  pub length-adjust : (k : K) (f : V → V) (m : List (K × V)) → length (adjust k f m) ≡ length m
  length-adjust k f [] = refl
  length-adjust k f ((j, v) ∷ m) = ground (arith, length-adjust k f m)

  length-insert_new :
      (k : K) (v : V) (m : List (K × V)) → length (insert_new k v m) ≡ suc (length m)
  length-insert_new k v [] = refl
  length-insert_new k v ((j, w) ∷ m) = ground (arith, length-insert_new k v m)

  pub length-insert :
      (k : K) (v : V) (m : List (K × V))
      → length (insert k v m) ≡ (if contains_key k m then length m else suc (length m))
  unfolding insert
  length-insert k v m = elim (Bool-cases (contains_key k m)) [
    | inl e ↦ rw e (length-adjust k _ m)
    | inr e ↦ rw e (length-insert_new k v m)
  ]

  pub length-remove-le : (k : K) (m : List (K × V)) → length (remove k m) ≤ length m
  length-remove-le k [] = omega arith
  length-remove-le k ((j, v) ∷ m) = ground (arith, length-remove-le k m)

  pub length-map_values : (f : V → V) (m : List (K × V)) → length (map_values f m) ≡ length m
  length-map_values f [] = refl
  length-map_values f ((j, v) ∷ m) = ground (arith, length-map_values f m)

-- Every entry of a map satisfies `P`.
abbrev pub Entries {ℓ κ μ} : {K : Type ℓ} {V : Type κ} → (K → V → Type μ) → List (K × V) → Type μ
Entries P [] = Unit
Entries P ((k, v) ∷ m) = P k v × Entries P m

module _ {ℓ κ μ ν} {K : Type ℓ} {V : Type κ} (P : K → V → Type μ) (Q : K → V → Type ν) where
  pub Entries-map_values :
      (f : V → V)
      → ((k : K) (v : V) → P k v → Q k (f v))
      → (m : List (K × V)) → Entries P m
      → Entries Q (map_values f m)
  Entries-map_values f g [] h = tt
  Entries-map_values f g ((k, v) ∷ m) h = (g k v h.0, Entries-map_values f g m h.1)

  pub Entries-imp :
      ((k : K) (v : V) → P k v → Q k v) → (m : List (K × V)) → Entries P m → Entries Q m
  Entries-imp g [] h = tt
  Entries-imp g ((k, v) ∷ m) h = (g k v h.0, Entries-imp g m h.1)

  pub Entries-zip :
      (m : List (K × V)) → Entries P m → Entries Q m → Entries (λ k v. P k v × Q k v) m
  Entries-zip [] p q = tt
  Entries-zip ((k, v) ∷ m) p q = ((p.0, q.0), Entries-zip m p.1 q.1)

pub Entries-unit {ℓ κ} :
    {K : Type ℓ} {V : Type κ} (m : List (K × V)) → Entries (λ (k : K) (v : V). Unit {0}) m
Entries-unit [] = tt
Entries-unit ((k, v) ∷ m) = (tt, Entries-unit m)

module _ {ℓ κ μ ν} {K : Type ℓ} {V : Type κ} (P : K → V → Type μ) (Q : V → Type ν) where
  pub Entries-values :
      ((k : K) (v : V) → P k v → Q v) → (m : List (K × V)) → Entries P m → All Q (values m)
  Entries-values g [] h = tt
  Entries-values g ((k, v) ∷ m) h = (g k v h.0, Entries-values g m h.1)

  pub Entries-of_values :
      ((k : K) (v : V) → Q v → P k v) → (m : List (K × V)) → All Q (values m) → Entries P m
  Entries-of_values g [] h = tt
  Entries-of_values g ((k, v) ∷ m) h = (g k v h.0, Entries-of_values g m h.1)

module _ {ℓ κ μ} {K : Type ℓ} {V : Type κ} ⦃key : Key K⦄ (P : K → V → Type μ) where
  pub Entries-get : (k : K) (m : List (K × V)) {v : V} → Entries P m → get k m ≡ some v → P k v
  Entries-get k [] h e = cc
  Entries-get k ((j, w) ∷ m) h e = elim (Bool-cases (key.beq j k)) [
    | inl t ↦
        subst (P k) (some-injective w _ (rw t at e))
          (subst (λ x. P x w) ((key.beq_iff j k).0 t) h.0)
    | inr t ↦ Entries-get k m h.1 (rw t at e)
  ]

  pub Entries-remove : (k : K) (m : List (K × V)) → Entries P m → Entries P (remove k m)
  Entries-remove k [] h = tt
  Entries-remove k ((j, w) ∷ m) h = elim (Bool-cases (key.beq j k)) [
    | inl t ↦ rw t (Entries-remove k m h.1)
    | inr t ↦ rw t (h.0, Entries-remove k m h.1)
  ]

  pub Entries-adjust :
      (k : K) (f : V → V) (m : List (K × V))
      → ((v : V) → get k m ≡ some v → P k v → P k (f v))
      → Entries P m
      → Entries P (adjust k f m)
  Entries-adjust k f [] g h = tt
  Entries-adjust k f ((j, w) ∷ m) g h = elim (Bool-cases (key.beq j k)) [
    | inl t ↦
        let e = (key.beq_iff j k).0 t in
        rw t (subst (λ x. P x (f w)) (sym e) (g w (rw t) (subst (λ x. P x w) e h.0)), h.1)
    | inr t ↦ rw t (h.0, Entries-adjust k f m (λ v e. g v (rw t e)) h.1)
  ]

  Entries-insert_new :
      (k : K) (v : V) (m : List (K × V)) → P k v → Entries P m → Entries P (insert_new k v m)
  Entries-insert_new k v [] p h = (p, tt)
  Entries-insert_new k v ((j, w) ∷ m) p h = elim (Bool-cases (key.blt k j)) [
    | inl t ↦ rw t (p, h)
    | inr t ↦ rw t (h.0, Entries-insert_new k v m p h.1)
  ]

  pub Entries-insert :
      (k : K) (v : V) (m : List (K × V)) → P k v → Entries P m → Entries P (insert k v m)
  unfolding insert
  Entries-insert k v m p h = elim (Bool-cases (contains_key k m)) [
    | inl t ↦ rw t (Entries-adjust k _ m (λ _ _ _. p) h)
    | inr t ↦ rw t (Entries-insert_new k v m p h)
  ]
