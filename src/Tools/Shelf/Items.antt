-- ===== src/Tools/Shelf/Items.antt =====
-- Items of projects/tools/src/shelf.rs that differ in their selection and caption only, and the order
-- of their ids.
use seele_shell.Prelude.{
  Bool, Chars, List, ℕ, length, retain, ◌&&◌, ◌<◌, ◌∷◌, ◌≡◌, ◌≤◌, [], arith, chars_eq, count,
  if_cases, ◌++◌, ap, subst, any, suc, refl, String, Option, some, none, ◌⊎◌, inl, inr,
}
use seele_shell.Tools.Shelf.{
  Item, set_all, change_first, has_path, Checked, passed, refused, set_all,
}

abbrev pub Alike : List Item → List Item → Type 0
Alike [] [] = Unit
Alike [] (y ∷ ys) = ⊥
Alike (x ∷ xs) [] = ⊥
Alike (x ∷ xs) (y ∷ ys) = (x.id ≡ y.id) × (x.text ≡ y.text) × (x.path ≡ y.path) × Alike xs ys

pub Alike-same : (xs : List Item) → Alike xs xs
Alike-same [] = tt
Alike-same (x ∷ xs) = (refl, refl, refl, Alike-same xs)

pub change_first-Alike :
    (p : Item → Bool) (f : Item → Item)
    → ((i : Item) → (i.id ≡ (f i).id) × (i.text ≡ (f i).text) × (i.path ≡ (f i).path))
    → (xs : List Item) → Alike xs (change_first p f xs)
change_first-Alike p f k [] = tt
change_first-Alike p f k (x ∷ xs) =
    if_cases (Alike (x ∷ xs)) (p x) _ _ (λ _. ((k x).0, (k x).1, (k x).2, Alike-same xs))
      (λ _. (refl, refl, refl, change_first-Alike p f k xs))

pub set_all-Alike : (b : Option Bool) (xs : List Item) → Alike xs (set_all b xs).0
set_all-Alike b [] = tt
set_all-Alike none (x ∷ xs) = Alike-same (x ∷ xs)
set_all-Alike (some b) (x ∷ xs) = (refl, refl, refl, set_all-Alike (some b) xs)

-- What alike lists share: their measures, and the owners of a path.
abbrev pub owns : Chars → Item → Bool
owns path i = i.text && chars_eq i.path path

pub record Shared (xs ys : List Item) : Type 0 where
  pub lengths : length ys ≡ length xs
  pub texts : count (λ i. i.text) ys ≡ count (λ i. i.text) xs
  pub paths : (p : Chars) → has_path p ys ≡ has_path p xs
  pub owners : (p : Chars) → any (owns p) ys ≡ any (owns p) xs

pub Alike-Shared : (xs ys : List Item) → Alike xs ys → Shared xs ys
Alike-Shared [] [] h = record {
  lengths = refl;
  texts = refl;
  paths = λ p. refl;
  owners = λ p. refl;
}
Alike-Shared [] (y ∷ ys) h = absurd h
Alike-Shared (x ∷ xs) [] h = absurd h
Alike-Shared (x ∷ xs) (y ∷ ys) (i, t, e, h) =
    let k = Alike-Shared xs ys h in
    record {
      lengths = ap suc k.lengths;
      texts = rw t (rw k.texts refl);
      paths = λ p. rw e (rw (k.paths p) refl);
      owners = λ p. rw e (rw t (rw (k.owners p) refl));
    }

-- The ids ascend, from above `lo` up to `hi`.
abbrev pub Ascending : ℕ → ℕ → List Item → Type 0
Ascending lo hi [] = lo ≤ hi
Ascending lo hi (x ∷ xs) = (lo < x.id) × Ascending x.id hi xs

pub Ascending-le : (lo hi : ℕ) (xs : List Item) → Ascending lo hi xs → lo ≤ hi
Ascending-le lo hi [] h = h
Ascending-le lo hi (x ∷ xs) h = omega (arith, h.0, Ascending-le x.id hi xs h.1)

pub Ascending-lower :
    (lo mid hi : ℕ) (xs : List Item) → lo ≤ mid → Ascending mid hi xs → Ascending lo hi xs
Ascending-lower lo mid hi [] l h = omega (arith, l, h)
Ascending-lower lo mid hi (x ∷ xs) l h = (omega (arith, l, h.0), h.1)

pub Ascending-raise :
    (lo mid hi : ℕ) (xs : List Item) → mid ≤ hi → Ascending lo mid xs → Ascending lo hi xs
Ascending-raise lo mid hi [] l h = omega (arith, l, h)
Ascending-raise lo mid hi (x ∷ xs) l h = (h.0, Ascending-raise x.id mid hi xs l h.1)

pub Ascending-Alike :
    (lo hi : ℕ) (xs ys : List Item) → Alike xs ys → Ascending lo hi xs → Ascending lo hi ys
Ascending-Alike lo hi [] [] a h = h
Ascending-Alike lo hi [] (y ∷ ys) a h = absurd a
Ascending-Alike lo hi (x ∷ xs) [] a h = absurd a
Ascending-Alike lo hi (x ∷ xs) (y ∷ ys) a h = (
  subst (λ n. lo < n) a.0 h.0,
  subst (λ n. Ascending n hi ys) a.0 (Ascending-Alike x.id hi xs ys a.3 h.1),
)

pub Ascending-retain :
    (p : Item → Bool) (lo hi : ℕ) (xs : List Item)
    → Ascending lo hi xs
    → Ascending lo hi (retain p xs)
Ascending-retain p lo hi [] h = h
Ascending-retain p lo hi (x ∷ xs) h =
    if_cases (Ascending lo hi) (p x) _ _ (λ _. (h.0, Ascending-retain p x.id hi xs h.1))
      (λ _.
        Ascending-lower lo x.id hi (retain p xs) (omega (arith, h.0))
          (Ascending-retain p x.id hi xs h.1))

pub Ascending-push :
    (lo hi : ℕ) (xs : List Item) (i : Item)
    → hi < i.id
    → Ascending lo hi xs
    → Ascending lo i.id (xs ++ i ∷ [])
Ascending-push lo hi [] i l h = (omega (arith, l, h), omega arith)
Ascending-push lo hi (x ∷ xs) i l h = (h.0, Ascending-push x.id hi xs i l h.1)

pub checked_cases {ℓ κ μ} :
    {A : Type ℓ} {B : Type κ} (P : B → Type μ) (c : Checked A) (x : String → B) (f : A → B)
    → ((e : String) → P (x e))
    → ((a : A) → c ≡ passed a → P (f a))
    → P (elim c [ refused e ↦ x e | passed a ↦ f a ])
checked_cases P (refused e) x f h k = h e
checked_cases P (passed a) x f h k = k a refl

pub Checked-cases {ℓ} :
    {A : Type ℓ} (c : Checked A) → ((e : String) × (c ≡ refused e)) ⊎ ((a : A) × (c ≡ passed a))
Checked-cases (refused e) = inl (e, refl)
Checked-cases (passed a) = inr (a, refl)

pub refused_passed {ℓ} : {A : Type ℓ} (e : String) (a : A) → refused e ≡ passed a → ⊥
refused_passed e a h = cc
