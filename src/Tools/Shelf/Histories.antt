-- ===== src/Tools/Shelf/Histories.antt =====
-- The histories of a shelf of projects/tools/src/shelf.rs: operations in any order, each with what
-- the libraries and the file system answer at that time.
use seele_shell.Prelude.{
  chars_key, List, Chars, All, Entries, length, retain, ℕ, ◌≡◌, String, false, not, true, ◌+◌, ◌<◌,
  ◌∷◌, [], some, ◌*◌, ◌^◌, refl, arith, ap, subst, any, suc, sym, ◌≢◌, ◌⊎◌, inl, inr, insert,
}
use seele_shell.Json.{Value}
use seele_shell.Tools.Shelf.{
  Host, apply, remove_items, Item, apply_operation, Shelf, parse_operation, clear_op, drops, new,
  Ended, leave_text, left_behind, next_serial,
}
use seele_shell.Tools.Shelf.Keeping.{Sound, raise-Sound, apply-Sound}
use seele_shell.Tools.Shelf.Ownership.{
  Owned, add_files-Owned, store_text-Owned, Alike-Owned, remove_items-Owned,
}
use seele_shell.Tools.Shelf.Branches.{apply_branches}
use seele_shell.Tools.Shelf.Items.{owns}

unfoldable pub run : List (Host × Value) → Shelf → Shelf
run [] s = s
run ((host, value) ∷ ms) s = run ms (apply host value s).0

run-Sound :
    (ms : List (Host × Value)) (n : ℕ) (s : Shelf)
    → n + 64 * length ms < 2 ^ 64
    → Sound n s
    → Sound (n + 64 * length ms) (run ms s)
unfolding run
run-Sound [] n s r h = raise-Sound n _ s (omega arith) h
run-Sound ((host, value) ∷ ms) n s r h =
    let same : n + 64 + 64 * length ms ≡ n + 64 * suc (length ms) = omega arith in
    subst (λ k. Sound k (run ms (apply host value s).0)) same
      (run-Sound ms (n + 64) (apply host value s).0 (omega (arith, r))
        (apply-Sound n host value s (omega (arith, r)) h))

-- After any history of fewer than 2^58 operations, the shelf holds at most 64 items and 16 texts,
-- their ids ascend in the order of collection, from 1 up to the serial, and the serial is at most 64
-- for an operation.
pub history-Sound :
    (ms : List (Host × Value)) → length ms < 2 ^ 58 → Sound (64 * length ms) (run ms new)
history-Sound ms r =
    let same : 0 + 64 * length ms ≡ 64 * length ms = omega arith in
    subst (λ k. Sound k (run ms new)) same
      (run-Sound ms 0 new (omega (arith, r)) (record {
        few = omega arith;
        texts = omega arith;
        ordered = omega arith;
        small = omega arith;
      }))

-- The private files after a failure: as before, or with the text that a failed write left behind.
abbrev pub KeepsFiles : Host → Shelf → Shelf → Type 0
KeepsFiles host s t =
    (t.files ≡ s.files)
    ⊎ ((text : Chars) × (host.writes (host.text_path (next_serial s)) text ≡ left_behind)
        × (t.files ≡ insert (host.text_path (next_serial s)) text s.files))

-- An operation that fails does not change the items; nor does it change the private files, unless
-- the write of a text failed after the file was linked to its name, and then this file is added.
-- Temporary files of a write are not counted among the private files.
pub refused_keeps :
    (host : Host) (value : Value) (s : Shelf) (e : String)
    → (apply host value s).1 ≡ some e
    → ((apply host value s).0.items ≡ s.items) × KeepsFiles host s (apply host value s).0
unfolding remove_items leave_text
refused_keeps host value s e =
    let Same : Ended → Type 0 = λ x. x.1 ≡ some e → (x.0.items ≡ s.items) × KeepsFiles host s x.0 in
    apply_branches host s Same
      (record {
        stays = λ _ _. (refl, inl refl);
        collects = λ _ _ n. cc;
        fails_to_write = λ _ _. (refl, inl refl);
        leaves = λ text _ w _. (refl, inr (text, w, refl));
        stores = λ _ _ _ _ n. cc;
        changes = λ _ _ n. cc;
        removes = λ _ n. cc;
      })
      value

-- The file system removes what it is asked to remove, and a write that fails leaves no file.
abbrev pub Cleans : Host → Type 0
Cleans host =
    ((path : Chars) → host.removes path ≡ true)
    × ((path text : Chars) → host.writes path text ≢ left_behind)

abbrev pub Cleaning : Host × Value → Type 0
Cleaning m = Cleans m.0

apply-Owned :
    (host : Host) (value : Value) (s : Shelf) → Cleans host → Owned s → Owned (apply host value s).0
apply-Owned host value s all h =
    apply_branches host s (λ x. Owned x.0)
      (record {
        stays = λ _. h;
        collects = λ incoming _. add_files-Owned incoming s h;
        fails_to_write = λ _. h;
        leaves = λ text _ w. absurd (all.1 _ text w);
        stores = λ text _ _ _. store_text-Owned host text s h;
        changes = λ items a. Alike-Owned s items a h;
        removes = λ clear. remove_items-Owned host clear all.0 s h;
      })
      value

run-Owned : (ms : List (Host × Value)) (s : Shelf) → All Cleaning ms → Owned s → Owned (run ms s)
unfolding run
run-Owned [] s r h = h
run-Owned ((host, value) ∷ ms) s r h =
    run-Owned ms (apply host value s).0 r.1 (apply-Owned host value s r.0 h)

-- After any history in which the file system removes what it is asked to remove, and no failed write
-- leaves its file, every private file is the file of a text item on the shelf.
pub history-Owned : (ms : List (Host × Value)) → All Cleaning ms → Owned (run ms new)
history-Owned ms r = run-Owned ms new r tt

all_dropped : (is : List Item) → retain (λ i. not (drops true i)) is ≡ []
all_dropped [] = refl
all_dropped (i ∷ is) = all_dropped is

no_entries : (m : List (Chars × Chars)) → Entries (λ _ _. false ≡ true) m → m ≡ []
no_entries [] h = refl
no_entries ((k, v) ∷ m) h = cc

apply_clear :
    (host : Host) (value : Value) (s : Shelf)
    → parse_operation value ≡ clear_op
    → apply host value s ≡ remove_items host true s
unfolding apply apply_operation
apply_clear host value s e = ap (λ op. apply_operation op host value s) e

cleared :
    (host : Host) (s : Shelf)
    → ((path : Chars) → host.removes path ≡ true)
    → Owned s
    → ((remove_items host true s).0.items ≡ []) × ((remove_items host true s).0.files ≡ [])
unfolding remove_items
cleared host s all h =
    let none_left = all_dropped s.items in
    (
      none_left,
      no_entries _ (
          subst (λ is. Entries (λ p _. any (owns p) is ≡ true) (remove_items host true s).0.files)
            none_left (remove_items-Owned host true all s h)),
    )

-- After any history in which the file system removes what it is asked to remove, and no failed write
-- leaves its file, `clear` leaves neither an item nor a private file.
pub clear_empties :
    (ms : List (Host × Value)) (host : Host) (value : Value)
    → All Cleaning ms
    → Cleaning (host, value)
    → parse_operation value ≡ clear_op
    → ((apply host value (run ms new)).0.items ≡ [])
      × ((apply host value (run ms new)).0.files ≡ [])
clear_empties ms host value r q e =
    subst (λ (x : Ended). (x.0.items ≡ []) × (x.0.files ≡ []))
      (sym (apply_clear host value (run ms new) e))
      (cleared host (run ms new) q.0 (history-Owned ms r))
