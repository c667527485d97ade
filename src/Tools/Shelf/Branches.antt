-- ===== src/Tools/Shelf/Branches.antt =====
-- The branches of `Shelf::apply` in projects/tools/src/shelf.rs: what has to hold of each of them holds
-- of every operation.
use seele_shell.Prelude.{
  Bool, Option, List, String, Chars, option_cases, some, ◌≡◌, if_cases, length, none, ◌⊎◌, chars_eq,
  inr, not, ◌+◌, ◌∷◌, [], inl, leb, any, false, refl, ◌&&◌, ◌||◌, ◌≤◌, ltb, true, ◌==◌, text_len,
  arith, ◌<◌, count,
}
use seele_shell.Json.{Value, as_array, as_bool, as_str, index, codes}
use seele_shell.Tools.Shelf.{
  Host, Shelf, Ended, Item, apply, apply_operation, collect_clipboard, collect_files, collect_text,
  select, select_all, set_all, Operation, parse_operation, additional, parse_id, max_items,
  add_files, max_text, gather, next_serial, toggle_item, max_texts, store_text, remove_items,
  status_op, files_op, text_op, clipboard_op, select_op, all_op, remove_op, clear_op, unknown_op,
  Writing, left_behind, leave_text, written, unwritten,
}
use seele_shell.Tools.Shelf.Items.{set_all-Alike, change_first-Alike, checked_cases, Alike}

pub record Branches (host : Host) (s : Shelf) (P : Ended → Type 0) : Type 0 where
  pub stays : (e : Option String) → P (s, e)
  pub collects :
      (incoming : List Chars)
      → length s.items + additional incoming s.items ≤ max_items
      → P (add_files incoming s, none)
  pub fails_to_write : (e : String) → P (record s { serial = next_serial s }, some e)
  pub leaves :
      (text : Chars) (e : String)
      → host.writes (host.text_path (next_serial s)) text ≡ left_behind
      → P (leave_text host text s, some e)
  pub stores :
      (text : Chars)
      → length s.items < max_items
      → count (λ i. i.text) s.items < max_texts
      → host.writes (host.text_path (next_serial s)) text ≡ written
      → P (store_text host text s, none)
  pub changes : (items : List Item) → Alike s.items items → P (record s { items = items }, none)
  pub removes : (clear : Bool) → P (remove_items host clear s)

set_all_done : (b : Bool) (xs : List Item) → (set_all (some b) xs).1 ≡ none
set_all_done b [] = refl
set_all_done b (x ∷ xs) = set_all_done b xs

set_all_cases :
    (b : Option Bool) (xs : List Item)
    → (set_all b xs ≡ (xs, some "Invalid selection")) ⊎ ((set_all b xs).1 ≡ none)
set_all_cases b [] = inr refl
set_all_cases none (x ∷ xs) = inl refl
set_all_cases (some b) (x ∷ xs) = inr (set_all_done b xs)

writing_cases :
    (P : Ended → Type 0) (w : Writing) (x y z : Ended)
    → (w ≡ written → P x)
    → P y
    → (w ≡ left_behind → P z)
    → P (elim w [ written ↦ x | unwritten ↦ y | left_behind ↦ z ])
writing_cases P written x y z h k l = h refl
writing_cases P unwritten x y z h k l = k
writing_cases P left_behind x y z h k l = l refl

module _ (host : Host) (s : Shelf) (P : Ended → Type 0) (b : Branches host s P) where
  files_branches : (value : Value) → P (collect_files host value s)
  unfolding collect_files
  files_branches value =
      option_cases P (as_array (index value "paths")) _ _ (λ _. b.stays _)
        λ values _.
          if_cases P (not (leb 1 (length values) && leb (length values) max_items)) _ _
            (λ _. b.stays _)
            λ _.
              checked_cases P (gather host values []) _ _ (λ e. b.stays (some e))
                λ incoming _.
                  if_cases P (ltb max_items (length s.items + additional incoming s.items)) _ _
                    (λ _. b.stays _) λ e. b.collects incoming (ground (arith, e))

  text_branches : (text : Chars) → P (collect_text host text s)
  unfolding collect_text
  text_branches text =
      if_cases P (chars_eq text [] || ltb max_text (text_len text)) _ _ (λ _. b.stays _)
        λ _.
          if_cases P (leb max_items (length s.items) || leb max_texts (count (λ i. i.text) s.items))
            _ _ (λ _. b.stays _)
            λ room.
              writing_cases P (host.writes (host.text_path (next_serial s)) text) _ _ _
                (λ w. b.stores text (ground (arith, room)) (ground (arith, room)) w)
                (b.fails_to_write _) (λ w. b.leaves text _ w)

  clipboard_branches : P (collect_clipboard host s)
  unfolding collect_clipboard
  clipboard_branches =
      option_cases P host.capture _ _ (λ _. b.stays _)
        λ output _.
          if_cases P (not output.success) _ _ (λ _. b.stays _)
            λ _. option_cases P output.stdout _ _ (λ _. b.stays _) λ text _. text_branches text

  select_branches : (value : Value) → P (select value s)
  unfolding select
  select_branches value =
      option_cases P (as_str (index value "id")) _ _ (λ _. b.stays _)
        λ text _.
          option_cases P (parse_id (codes text)) _ _ (λ _. b.stays _)
            λ id _.
              if_cases P (any (λ i. i.id == id) s.items) _ _
                (λ _.
                  b.changes _ (change_first-Alike _ toggle_item (λ i. (refl, refl, refl)) s.items))
                λ _. b.stays _

  all_branches : (value : Value) → P (select_all value s)
  unfolding select_all
  all_branches value =
      let selected = as_bool (index value "selected") in
      elim (set_all_cases selected s.items) [
        | inl e ↦ rw e (b.stays (some "Invalid selection"))
        | inr e ↦ rw e (b.changes _ (set_all-Alike selected s.items))
      ]

  operation_branches : (op : Operation) (value : Value) → P (apply_operation op host value s)
  unfolding apply_operation
  operation_branches status_op value = b.stays none
  operation_branches files_op value = files_branches value
  operation_branches text_op value =
      option_cases P (as_str (index value "text")) _ _ (λ _. b.stays _)
        λ t _. text_branches (codes t)
  operation_branches clipboard_op value = clipboard_branches
  operation_branches select_op value = select_branches value
  operation_branches all_op value = all_branches value
  operation_branches remove_op value = b.removes false
  operation_branches clear_op value = b.removes true
  operation_branches unknown_op value = b.stays _

  pub apply_branches : (value : Value) → P (apply host value s)
  unfolding apply
  apply_branches value = operation_branches (parse_operation value) value
