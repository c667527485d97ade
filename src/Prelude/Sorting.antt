-- ===== src/Prelude/Sorting.antt =====
-- Stable sorting by a Boolean order, as `sort_by` and `sort_by_key` do it.
use mathlib.Core.Path.{◌≡◌}
use mathlib.Core.Logic.{◌⊎◌, inl, inr}
use mathlib.Core.Bool.{Bool, true}
use mathlib.Core.List.{List, [], ◌∷◌, Perm}
use mathlib.Core.List.Perm
use seele_shell.Prelude.Tests.{if◌then◌else◌, Bool-cases}
use seele_shell.Prelude.Lists.{All, All-map}

module _ {ℓ} {A : Type ℓ} (le : A → A → Bool) where
  abbrev pub insert_by : A → List A → List A
  insert_by x [] = x ∷ []
  insert_by x (y ∷ ys) = if le x y then x ∷ y ∷ ys else y ∷ insert_by x ys

  -- A stable sort: of equal elements the earlier one stays first.
  abbrev pub sort_by : List A → List A
  sort_by [] = []
  sort_by (x ∷ xs) = insert_by x (sort_by xs)

  abbrev pub Ordered : List A → Type ℓ
  Ordered [] = Unit
  Ordered (x ∷ xs) = All (λ y. le x y ≡ true) xs × Ordered xs

module _ {ℓ} {A : Type ℓ} (le : A → A → Bool) where
  pub insert_by-Perm : (x : A) (ys : List A) → Perm (insert_by le x ys) (x ∷ ys)
  insert_by-Perm x [] = Perm.refl (x ∷ [])
  insert_by-Perm x (y ∷ ys) = elim (Bool-cases (le x y)) [
    | inl e ↦ rw e (Perm.refl (x ∷ y ∷ ys))
    | inr e ↦ rw e (Perm.trans (Perm.cons y (insert_by-Perm x ys)) (Perm.swap x y ys))
  ]

  pub sort_by-Perm : (xs : List A) → Perm (sort_by le xs) xs
  sort_by-Perm [] = Perm.refl []
  sort_by-Perm (x ∷ xs) =
      Perm.trans (insert_by-Perm x (sort_by le xs)) (Perm.cons x (sort_by-Perm xs))

  pub insert_by-All {κ} :
      (P : A → Type κ) (x : A) (ys : List A) → P x → All P ys → All P (insert_by le x ys)
  insert_by-All P x [] p h = (p, tt)
  insert_by-All P x (y ∷ ys) p h = elim (Bool-cases (le x y)) [
    | inl e ↦ rw e (p, h)
    | inr e ↦ rw e (h.0, insert_by-All P x ys p h.1)
  ]

  pub sort_by-All {κ} : (P : A → Type κ) (xs : List A) → All P xs → All P (sort_by le xs)
  sort_by-All P [] h = tt
  sort_by-All P (x ∷ xs) h = insert_by-All P x (sort_by le xs) h.0 (sort_by-All P xs h.1)

module _ {ℓ} {A : Type ℓ} (le : A → A → Bool)
    (le_total : (a b : A) → (le a b ≡ true) ⊎ (le b a ≡ true))
    (le_trans : (a b c : A) → le a b ≡ true → le b c ≡ true → le a c ≡ true) where
  insert_by-Ordered : (x : A) (ys : List A) → Ordered le ys → Ordered le (insert_by le x ys)
  insert_by-Ordered x [] h = (tt, tt)
  insert_by-Ordered x (y ∷ ys) h = elim (Bool-cases (le x y)) [
    | inl e ↦ rw e ((e, All-map (λ z q. le_trans x y z e q) ys h.0), (h.0, h.1))
    | inr e ↦ rw e (
      insert_by-All le _ x ys (elim (le_total x y) [ inl p ↦ cc | inr q ↦ q ]) h.0,
      insert_by-Ordered x ys h.1,
    )
  ]

  pub sort_by-Ordered : (xs : List A) → Ordered le (sort_by le xs)
  sort_by-Ordered [] = tt
  sort_by-Ordered (x ∷ xs) = insert_by-Ordered x (sort_by le xs) (sort_by-Ordered xs)

module _ {ℓ κ} {A : Type ℓ} (le : A → A → Bool) (P : A → Type κ) where
  insert_by-All_of : (x : A) (ys : List A) → All P (insert_by le x ys) → P x × All P ys
  insert_by-All_of x [] h = h
  insert_by-All_of x (y ∷ ys) h = elim (Bool-cases (le x y)) [
    | inl e ↦ (rw e at h)
    | inr e ↦
        let h' : P y × All P (insert_by le x ys) = rw e at h in
        let (p, q) = insert_by-All_of x ys h'.1 in (p, (h'.0, q))
  ]

  -- What holds of a sorted list holds of the list.
  pub sort_by-All_of : (xs : List A) → All P (sort_by le xs) → All P xs
  sort_by-All_of [] h = tt
  sort_by-All_of (x ∷ xs) h =
      let (p, q) = insert_by-All_of x (sort_by le xs) h in (p, sort_by-All_of xs q)
