-- ===== src/Tools/Shelf/Keeping.antt =====
-- The invariant of projects/tools/src/shelf.rs: its bounds, and ids that ascend in the order of
-- collection.
use seele_shell.Prelude.{
  Chars, ℕ, Bool, List, length, ◌+◌, ◌≤◌, arith, count, ◌++◌, ◌<◌, ◌^◌, ◌∷◌, ◌≡◌, [], chars_eq,
  if◌then◌else◌, true, length-append, refl, subst, retain, if_cases, false, length-retain-le, not,
  suc, ◌-◌,
}
use seele_shell.Tools.Shelf.{
  Item, Shelf, add_files, additional, has_path, max_items, change_first, max_texts, next_serial,
  select_item, Host, add_file, apply, remove_items, drops, store_text, leave_text,
}
use seele_shell.Tools.Shelf.Items.{
  Alike, Alike-Shared, Ascending, Ascending-Alike, change_first-Alike, Ascending-push,
  Ascending-retain, Ascending-raise,
}
use seele_shell.Json.{Value}
use seele_shell.Tools.Shelf.Branches.{apply_branches}

-- `n` bounds the serial.
pub record Sound (n : ℕ) (s : Shelf) : Type 0 where
  pub few : length s.items ≤ max_items
  pub texts : count (λ i. i.text) s.items ≤ max_texts
  pub ordered : Ascending 0 s.serial s.items
  pub small : s.serial ≤ n

next_serial-suc : (s : Shelf) → s.serial + 1 < 2 ^ 64 → next_serial s ≡ s.serial + 1
next_serial-suc s h = omega arith

pub raise-Sound : (n m : ℕ) (s : Shelf) → n ≤ m → Sound n s → Sound m s
raise-Sound n m s l h = record {
  few = h.few;
  texts = h.texts;
  ordered = h.ordered;
  small = omega (arith, l, h.small);
}

Alike-Sound :
    (n : ℕ) (s : Shelf) (items : List Item)
    → Alike s.items items
    → Sound n s
    → Sound n (record s { items = items })
Alike-Sound n s items a h =
    let k = Alike-Shared s.items items a in
    record {
      few = rw k.lengths h.few;
      texts = rw k.texts h.texts;
      ordered = Ascending-Alike 0 s.serial s.items items a h.ordered;
      small = h.small;
    }

count-append :
    (p : Item → Bool) (xs : List Item) (i : Item)
    → count p (xs ++ i ∷ []) ≡ count p xs + (if p i then 1 else 0)
count-append p [] i = ground arith
count-append p (x ∷ xs) i = ground (arith, count-append p xs i)

push-Sound :
    (n : ℕ) (s : Shelf) (i : Item) (files : List (Chars × Chars))
    → n + 1 < 2 ^ 64
    → length s.items < max_items
    → count (λ i. i.text) s.items + (if i.text then 1 else 0) ≤ max_texts
    → i.id ≡ next_serial s
    → Sound n s
    → Sound (n + 1) (record s { serial = next_serial s; files = files; items = s.items ++ i ∷ [] })
push-Sound n s i files r f t e h =
    let up = next_serial-suc s (omega (arith, r, h.small)) in
    record {
      few = omega (arith, f, length-append s.items (i ∷ []));
      texts = rw (count-append (λ i. i.text) s.items i) t;
      ordered =
          subst (λ m. Ascending 0 m (s.items ++ i ∷ [])) e
            (Ascending-push 0 s.serial s.items i (omega (arith, e, up)) h.ordered);
      small = omega (arith, up, h.small);
    }

count-retain-le : (q p : Item → Bool) (xs : List Item) → count q (retain p xs) ≤ count q xs
count-retain-le q p [] = omega arith
count-retain-le q p (x ∷ xs) = ground (arith, count-retain-le q p xs)

-- The room that the incoming files need.
has_path-push :
    (p : Chars) (xs : List Item) (i : Item)
    → has_path p xs ≡ true
    → has_path p (xs ++ i ∷ []) ≡ true
has_path-push p [] i h = ground arith
has_path-push p (x ∷ xs) i h = ground (arith, has_path-push p xs i)

additional-push :
    (ps : List Chars) (xs : List Item) (i : Item) → additional ps (xs ++ i ∷ []) ≤ additional ps xs
unfolding additional
additional-push [] xs i = omega arith
additional-push (p ∷ ps) xs i = ground (arith, has_path-push p xs i, additional-push ps xs i)

additional-Alike :
    (ps : List Chars) (xs ys : List Item) → Alike xs ys → additional ps ys ≡ additional ps xs
unfolding additional
additional-Alike [] xs ys a = refl
additional-Alike (p ∷ ps) xs ys a =
    rw ((Alike-Shared xs ys a).paths p) (rw (additional-Alike ps xs ys a) refl)

pub select_path-Alike :
    (p : Chars) (xs : List Item) → Alike xs (change_first (λ i. chars_eq i.path p) select_item xs)
select_path-Alike p xs = change_first-Alike _ select_item (λ i. (refl, refl, refl)) xs

add_files-Sound :
    (ps : List Chars) (n m : ℕ) (s : Shelf)
    → additional ps s.items ≤ m
    → n + m < 2 ^ 64
    → length s.items + m ≤ max_items
    → Sound n s
    → Sound (n + m) (add_files ps s)
unfolding add_files add_file additional
add_files-Sound [] n m s a r f h = raise-Sound n (n + m) s (omega arith) h
add_files-Sound (p ∷ ps) n m s a r f h =
    if_cases (λ s'. Sound (n + m) (add_files ps s')) (has_path p s.items) _ _
      (λ e.
        let items = change_first (λ i. chars_eq i.path p) select_item s.items in
        let alike = select_path-Alike p s.items in
        add_files-Sound ps n m (record s { items = items })
          (ground (arith, a, e, additional-Alike ps s.items items alike)) r
          (omega (arith, f, (Alike-Shared s.items items alike).lengths))
          (Alike-Sound n s items alike h))
      (λ e.
        let i : Item = record {
          id = next_serial s;
          path = p;
          text = false;
          selected = true;
          caption = [];
        } in
        let need : suc (additional ps s.items) ≤ m = ground (arith, a, e) in
        let same : n + 1 + (m - 1) ≡ n + m = omega (arith, need) in
        subst
          (λ k.
            Sound k (add_files ps (record s { serial = next_serial s; items = s.items ++ i ∷ [] })))
          same
          (add_files-Sound ps (n + 1) (m - 1)
            (record s { serial = next_serial s; items = s.items ++ i ∷ [] })
            (omega (arith, need, additional-push ps s.items i)) (omega (arith, need, r))
            (omega (arith, f, need, length-append s.items (i ∷ [])))
            (push-Sound n s i s.files (omega (arith, need, r)) (omega (arith, f, need))
              (omega (arith, h.texts)) refl h)))

-- Every operation keeps the invariant, and raises the serial by at most 64.
pub apply-Sound :
    (n : ℕ) (host : Host) (value : Value) (s : Shelf)
    → n + 64 < 2 ^ 64
    → Sound n s
    → Sound (n + 64) (apply host value s).0
unfolding store_text leave_text remove_items
apply-Sound n host value s r h =
    let up = next_serial-suc s (omega (arith, r, h.small)) in
    let same = raise-Sound n (n + 64) s (omega arith) h in
    apply_branches host s (λ x. Sound (n + 64) x.0)
      (record {
        stays = λ _. same;
        collects = λ incoming room.
            raise-Sound (n + additional incoming s.items) (n + 64) _ (omega (arith, room)) (
              add_files-Sound incoming n (additional incoming s.items) s (omega arith)
                (omega (arith, room, r)) room h);
        fails_to_write = λ _. record {
          few = h.few;
          texts = h.texts;
          ordered =
              Ascending-raise 0 s.serial (next_serial s) s.items (omega (arith, up)) h.ordered;
          small = omega (arith, up, h.small);
        };
        leaves = λ _ _ _. record {
          few = h.few;
          texts = h.texts;
          ordered =
              Ascending-raise 0 s.serial (next_serial s) s.items (omega (arith, up)) h.ordered;
          small = omega (arith, up, h.small);
        };
        stores = λ text room few _.
            raise-Sound (n + 1) (n + 64) _ (omega arith)
              (push-Sound n s _ _ (omega (arith, r)) room (omega (arith, few)) refl h);
        changes = λ items a. Alike-Sound (n + 64) s items a same;
        removes = λ clear. record {
          few = omega (arith, h.few, length-retain-le (λ i. not (drops clear i)) s.items);
          texts =
              omega
                (arith, h.texts, count-retain-le (λ i. i.text) (λ i. not (drops clear i)) s.items);
          ordered = Ascending-retain _ 0 s.serial s.items h.ordered;
          small = omega (arith, h.small);
        };
      })
      value
