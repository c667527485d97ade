-- ===== src/Prelude/Distinct.antt =====
-- Maps whose keys are distinct.
use mathlib.Core.Path.{◌≡◌, refl}
use mathlib.Core.Logic.{inl, inr}
use mathlib.Core.Bool.{false, ◌||◌, not, ◌&&◌}
use mathlib.Core.List.{List, [], ◌∷◌}
use mathlib.Core.Option.{some}
use native.Mathlib.Omega.{arith}
use seele_shell.Prelude.Tests.{Key, Bool-cases}
use seele_shell.Prelude.Maps.{
  get, contains_key, contains_key-get, remove, adjust, insert_new, insert, map_values, Entries,
  Entries-imp,
}

module _ {ℓ κ} {K : Type ℓ} {V : Type κ} ⦃key : Key K⦄ where
  abbrev pub IsDistinct : List (K × V) → Type 0
  IsDistinct [] = Unit
  IsDistinct ((k, v) ∷ m) = (contains_key k m ≡ false) × IsDistinct m

  pub contains_key-adjust :
      (k j : K) (f : V → V) (m : List (K × V)) → contains_key j (adjust k f m) ≡ contains_key j m
  contains_key-adjust k j f [] = refl
  contains_key-adjust k j f ((i, w) ∷ m) = ground (arith, contains_key-adjust k j f m)

  pub contains_key-map_values :
      (j : K) (f : V → V) (m : List (K × V)) → contains_key j (map_values f m) ≡ contains_key j m
  contains_key-map_values j f [] = refl
  contains_key-map_values j f ((i, w) ∷ m) = ground (arith, contains_key-map_values j f m)

  pub contains_key-insert_new :
      (k j : K) (v : V) (m : List (K × V))
      → contains_key j (insert_new k v m) ≡ (key.beq k j || contains_key j m)
  contains_key-insert_new k j v [] = ground arith
  contains_key-insert_new k j v ((i, w) ∷ m) = ground (arith, contains_key-insert_new k j v m)

  pub contains_key-remove :
      (k j : K) (m : List (K × V))
      → contains_key j (remove k m) ≡ (not (key.beq k j) && contains_key j m)
  contains_key-remove k j [] = ground arith
  contains_key-remove k j ((i, w) ∷ m) =
      ground (arith, key.beq_iff k j, key.beq_iff i k, key.beq_iff i j, contains_key-remove k j m)

module _ {ℓ κ} {K : Type ℓ} {V : Type κ} ⦃key : Key K⦄ where
  pub adjust-IsDistinct :
      (k : K) (f : V → V) (m : List (K × V)) → IsDistinct m → IsDistinct (adjust k f m)
  adjust-IsDistinct k f [] h = tt
  adjust-IsDistinct k f ((j, w) ∷ m) h = elim (Bool-cases (key.beq j k)) [
    | inl t ↦ rw t h
    | inr t ↦ rw t (rw (contains_key-adjust k j f m) h.0, adjust-IsDistinct k f m h.1)
  ]

  pub map_values-IsDistinct :
      (f : V → V) (m : List (K × V)) → IsDistinct m → IsDistinct (map_values f m)
  map_values-IsDistinct f [] h = tt
  map_values-IsDistinct f ((j, w) ∷ m) h =
      (rw (contains_key-map_values j f m) h.0, map_values-IsDistinct f m h.1)

  pub remove-IsDistinct : (k : K) (m : List (K × V)) → IsDistinct m → IsDistinct (remove k m)
  remove-IsDistinct k [] h = tt
  remove-IsDistinct k ((j, w) ∷ m) h = elim (Bool-cases (key.beq j k)) [
    | inl t ↦ rw t (remove-IsDistinct k m h.1)
    | inr t ↦ rw t (ground (arith, contains_key-remove k j m, h.0), remove-IsDistinct k m h.1)
  ]

  insert_new-IsDistinct :
      (k : K) (v : V) (m : List (K × V))
      → contains_key k m ≡ false
      → IsDistinct m
      → IsDistinct (insert_new k v m)
  insert_new-IsDistinct k v [] n h = (refl, tt)
  insert_new-IsDistinct k v ((j, w) ∷ m) n h = elim (Bool-cases (key.blt k j)) [
    | inl t ↦ rw t (n, h)
    | inr t ↦ rw t (
      ground (arith, contains_key-insert_new k j v m, key.beq_iff k j, key.beq_iff j k, h.0),
      insert_new-IsDistinct k v m (ground arith) h.1,
    )
  ]

  pub insert-IsDistinct :
      (k : K) (v : V) (m : List (K × V)) → IsDistinct m → IsDistinct (insert k v m)
  unfolding insert
  insert-IsDistinct k v m h = elim (Bool-cases (contains_key k m)) [
    | inl t ↦ rw t (adjust-IsDistinct k _ m h)
    | inr t ↦ rw t (insert_new-IsDistinct k v m t h)
  ]

  -- Under distinct keys each entry is the one that `get` finds.
  pub Entries-self : (m : List (K × V)) → IsDistinct m → Entries (λ k v. get k m ≡ some v) m
  Entries-self [] h = tt
  Entries-self ((j, w) ∷ m) h = (
    rw ((key.beq_iff j j).1 refl),
    Entries-imp _ _
        (λ k v e. ground (arith, key.beq_iff j k, contains_key-get k m, contains_key-get j m, h.0))
        m (Entries-self m h.1),
  )

module _ {ℓ κ μ ν} {K : Type ℓ} {V : Type κ} ⦃key : Key K⦄ (P : K → V → Type μ)
    (Q : K → V → Type ν) where
  -- What holds of the other entries holds of all that are left.
  pub Entries-remove_other :
      (k : K) (m : List (K × V))
      → ((j : K) (v : V) → key.beq k j ≡ false → P j v → Q j v)
      → Entries P m
      → Entries Q (remove k m)
  Entries-remove_other k [] g h = tt
  Entries-remove_other k ((j, v) ∷ m) g h = elim (Bool-cases (key.beq j k)) [
    | inl t ↦ rw t (Entries-remove_other k m g h.1)
    | inr t ↦ rw t (
      g j v (ground (arith, key.beq_iff j k, key.beq_iff k j)) h.0,
      Entries-remove_other k m g h.1,
    )
  ]

  pub Entries-other :
      (k : K) (m : List (K × V))
      → contains_key k m ≡ false
      → ((j : K) (v : V) → key.beq k j ≡ false → P j v → Q j v)
      → Entries P m
      → Entries Q m
  Entries-other k [] n g h = tt
  Entries-other k ((j, v) ∷ m) n g h = (
    g j v (ground (arith, key.beq_iff j k, key.beq_iff k j)) h.0,
    Entries-other k m (ground arith) g h.1,
  )
