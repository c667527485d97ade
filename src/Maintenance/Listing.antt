-- ===== src/Maintenance/Listing.antt =====
-- Every row of a snapshot stands in one list, in its order.
use seele_shell.Prelude.{
  Bool, List, All, Perm, map, retain, ◌∷◌, ◌≡◌, [], ap, not, true, arith, refl, ℕ, ◌&&◌, ◌⊎◌, ◌++◌,
  Bool-cases, values, Ordered, inl, inr, ◌≤◌, ◌<◌, sort_by, sort_by-Perm, sort_by-Ordered,
  sort_by-All, All-retain_of, subst, sym,
}
use mathlib.Core.List.Perm
use mathlib.Core.List.{perm_middle}
use seele_shell.Maintenance.Snapshot.{
  active_le, history_le, snapshot, snoozed_le, view, View, active_rows, snoozed_rows, history_rows,
  is_history, is_snoozed,
}
use seele_shell.Maintenance.Inbox.{Inbox, prune}
use seele_shell.Maintenance.Model.{Row}

module _ {ℓ} {A : Type ℓ} (p q : A → Bool) where
  three_ways :
      (xs : List A)
      → Perm
          (retain (λ x. not (p x) && not (q x)) xs
            ++ (retain (λ x. not (p x) && q x) xs ++ retain p xs))
          xs
  three_ways [] = Perm.refl []
  three_ways (x ∷ xs) =
      let a = retain (λ x. not (p x) && not (q x)) xs in
      let s = retain (λ x. not (p x) && q x) xs in
      let h = retain p xs in
      elim (Bool-cases (p x)) [
        | inl t ↦ rw t (
            Perm.trans (Perm.append_left a (perm_middle s h))
              (Perm.trans (perm_middle a (s ++ h)) (Perm.cons x (three_ways xs))))
        | inr t ↦ elim (Bool-cases (q x)) [
          | inl u ↦ rw (t, u) (Perm.trans (perm_middle a (s ++ h)) (Perm.cons x (three_ways xs)))
          | inr u ↦ rw (t, u) (Perm.cons x (three_ways xs))
        ]
      ]

abbrev pub rows_of : List View → List Row
rows_of vs = map (λ (v : View). v.row) vs

rows_of-map-view : (s : Inbox) (rows : List Row) → rows_of (map (view s) rows) ≡ rows
unfolding view
rows_of-map-view s [] = refl
rows_of-map-view s (r ∷ rs) = ap (λ x. r ∷ x) (rows_of-map-view s rs)

active_le_total : (a b : Row) → (active_le a b ≡ true) ⊎ (active_le b a ≡ true)
unfolding active_le
active_le_total a b = ground arith

active_le_trans : (a b c : Row) → active_le a b ≡ true → active_le b c ≡ true → active_le a c ≡ true
unfolding active_le
active_le_trans a b c h k = ground arith

snoozed_le_total : (a b : Row) → (snoozed_le a b ≡ true) ⊎ (snoozed_le b a ≡ true)
unfolding snoozed_le
snoozed_le_total a b = ground arith

snoozed_le_trans :
    (a b c : Row) → snoozed_le a b ≡ true → snoozed_le b c ≡ true → snoozed_le a c ≡ true
unfolding snoozed_le
snoozed_le_trans a b c h k = ground arith

history_le_total : (a b : Row) → (history_le a b ≡ true) ⊎ (history_le b a ≡ true)
unfolding history_le
history_le_total a b = ground arith

history_le_trans :
    (a b c : Row) → history_le a b ≡ true → history_le b c ≡ true → history_le a c ≡ true
unfolding history_le
history_le_trans a b c h k = ground arith

pub All-of {ℓ κ} : {A : Type ℓ} {P : A → Type κ} → ((a : A) → P a) → (xs : List A) → All P xs
All-of f [] = tt
All-of f (x ∷ xs) = (f x, All-of f xs)

-- A snapshot is taken of the pruned inbox: each of its rows stands in exactly one of the three
-- lists, the active ones by urgency and then the latest update first, the snoozed ones by the end
-- of their snooze, and the resolved ones the latest first.
pub snapshot_lists :
    (now : ℕ) (s : Inbox)
    → let v = (snapshot now s).1 in
      Perm
        (rows_of v.active ++ (rows_of v.snoozed ++ rows_of v.history))
        (values (prune now s).items)
      × Ordered active_le (rows_of v.active)
      × Ordered snoozed_le (rows_of v.snoozed)
      × Ordered history_le (rows_of v.history)
      × All (λ r. (r.resolved ≡ 0) × (r.snoozed_until ≤ now)) (rows_of v.active)
      × All (λ r. (r.resolved ≡ 0) × (now < r.snoozed_until)) (rows_of v.snoozed)
      × All (λ r. 0 < r.resolved) (rows_of v.history)
unfolding snapshot active_rows snoozed_rows history_rows
snapshot_lists now s =
    let t = prune now s in
    let rows = values t.items in
    let a = retain (λ r. not (is_history r) && not (is_snoozed now r)) rows in
    let z = retain (λ r. not (is_history r) && is_snoozed now r) rows in
    let h = retain is_history rows in
    let Fine : List Row → List Row → List Row → Type 0 = λ x y w.
      Perm (x ++ (y ++ w)) rows
      × Ordered active_le x
      × Ordered snoozed_le y
      × Ordered history_le w
      × All (λ (r : Row). (r.resolved ≡ 0) × (r.snoozed_until ≤ now)) x
      × All (λ (r : Row). (r.resolved ≡ 0) × (now < r.snoozed_until)) y
      × All (λ (r : Row). 0 < r.resolved) w in
    let plain : Fine (sort_by active_le a) (sort_by snoozed_le z) (sort_by history_le h) = (
      Perm.trans
          (Perm.append (sort_by-Perm active_le a)
            (Perm.append (sort_by-Perm snoozed_le z) (sort_by-Perm history_le h)))
          (three_ways is_history (is_snoozed now) rows),
      sort_by-Ordered active_le active_le_total active_le_trans a,
      sort_by-Ordered snoozed_le snoozed_le_total snoozed_le_trans z,
      sort_by-Ordered history_le history_le_total history_le_trans h,
      sort_by-All active_le _ a (All-retain_of _ _ rows (All-of (λ r e. ground arith) rows)),
      sort_by-All snoozed_le _ z (All-retain_of _ _ rows (All-of (λ r e. ground arith) rows)),
      sort_by-All history_le _ h (All-retain_of _ _ rows (All-of (λ r e. ground arith) rows)),
    ) in
    subst
      (λ x.
        Fine x (rows_of (map (view t) (sort_by snoozed_le z)))
          (rows_of (map (view t) (sort_by history_le h))))
      (sym (rows_of-map-view t (sort_by active_le a)))
      (subst (λ y. Fine (sort_by active_le a) y (rows_of (map (view t) (sort_by history_le h))))
        (sym (rows_of-map-view t (sort_by snoozed_le z)))
        (subst (λ w. Fine (sort_by active_le a) (sort_by snoozed_le z) w)
          (sym (rows_of-map-view t (sort_by history_le h))) plain))
