-- ===== src/Tools/Shelf/Ownership.antt =====
-- Who owns the private files of projects/tools/src/shelf.rs.
use seele_shell.Prelude.{
  chars_key, Bool, Chars, Entries, List, ℕ, any, ◌++◌, ◌∷◌, ◌≡◌, [], if_cases, true, Entries-imp,
  arith, false, ◌||◌, Entries-insert, retain, ◌&&◌, Entries-remove_other, chars_eq_iff, not, refl,
  Bool-cases, inl, inr, ◌∙◌,
}
use seele_shell.Tools.Shelf.{
  Host, Item, Shelf, add_files, store_text, add_file, next_serial, drop_file, drop_files, has_path,
  label, remove_items, first_line, select_item, drops,
}
use seele_shell.Tools.Shelf.Items.{Alike, Alike-Shared, owns, change_first-Alike}

-- Every private file is the file of a text item.
abbrev pub Owned : Shelf → Type 0
Owned s = Entries (λ path _. any (owns path) s.items ≡ true) s.files

any-push_left :
    (p : Item → Bool) (xs : List Item) (i : Item) → any p xs ≡ true → any p (xs ++ i ∷ []) ≡ true
any-push_left p [] i h = ground arith
any-push_left p (x ∷ xs) i h = ground (arith, any-push_left p xs i)

any-push_right :
    (p : Item → Bool) (xs : List Item) (i : Item) → p i ≡ true → any p (xs ++ i ∷ []) ≡ true
any-push_right p [] i h = ground arith
any-push_right p (x ∷ xs) i h = ground (arith, any-push_right p xs i h)

pub Alike-Owned :
    (s : Shelf) (items : List Item)
    → Alike s.items items
    → Owned s
    → Owned (record s { items = items })
Alike-Owned s items a h =
    let k = Alike-Shared s.items items a in Entries-imp _ _ (λ p _ e. k.owners p ∙ e) s.files h

push-Owned :
    (s : Shelf) (i : Item) (n : ℕ)
    → Owned s
    → Owned (record s { serial = n; items = s.items ++ i ∷ [] })
push-Owned s i n h = Entries-imp _ _ (λ p _ e. any-push_left (owns p) s.items i e) s.files h

pub add_files-Owned : (ps : List Chars) (s : Shelf) → Owned s → Owned (add_files ps s)
unfolding add_files add_file
add_files-Owned [] s h = h
add_files-Owned (p ∷ ps) s h =
    if_cases (λ x. Owned (add_files ps x)) (has_path p s.items) _ _
      (λ _.
        add_files-Owned ps _
          (Alike-Owned s _ (change_first-Alike _ select_item (λ i. (refl, refl, refl)) s.items) h))
      (λ _. add_files-Owned ps _ (push-Owned s _ (next_serial s) h))

pub store_text-Owned :
    (host : Host) (text : Chars) (s : Shelf) → Owned s → Owned (store_text host text s)
unfolding store_text
store_text-Owned host text s h =
    let path = host.text_path (next_serial s) in
    let i : Item = record {
      id = next_serial s;
      path = path;
      text = true;
      selected = true;
      caption = label (first_line text);
    } in
    Entries-insert _ path text s.files
      (any-push_right (owns path) s.items i ((chars_eq_iff path path).1 refl))
      (push-Owned s i s.serial h)

module _ (host : Host) (clear : Bool) (all : (p : Chars) → host.removes p ≡ true) where
  drop_file-Owned :
      (r : Chars → Bool) (i : Item) (files : List (Chars × Chars))
      → Entries (λ p _. (owns p i || r p) ≡ true) files
      → Entries (λ p _. r p ≡ true) (drop_file host i files)
  unfolding drop_file
  drop_file-Owned r i files h =
      if_cases (Entries (λ p _. r p ≡ true)) (i.text && host.removes i.path) _ _
        (λ _. Entries-remove_other _ _ i.path files (λ p _ n e. ground (arith, n, e)) h)
        (λ e. Entries-imp _ _ (λ p _ o. ground (arith, e, o, all i.path)) files h)

  drop_files-Owned :
      (r : Chars → Bool) (is : List Item) (files : List (Chars × Chars))
      → Entries (λ p _. (any (owns p) is || r p) ≡ true) files
      → Entries
          (λ p _. (any (owns p) (retain (λ i. not (drops clear i)) is) || r p) ≡ true)
          (drop_files host clear is files)
  unfolding drop_files
  drop_files-Owned r [] files h = h
  drop_files-Owned r (i ∷ is) files h = elim (Bool-cases (drops clear i)) [
    | inl e ↦ rw e (
        drop_files-Owned r is (drop_file host i files) (
          drop_file-Owned (λ p. any (owns p) is || r p) i files
            (Entries-imp _ _ (λ p _ o. ground (arith, o)) files h)))
    | inr e ↦ rw e (
        Entries-imp _ _ (λ p _ o. ground (arith, o)) _
          (drop_files-Owned (λ p. owns p i || r p) is files
            (Entries-imp _ _ (λ p _ o. ground (arith, o)) files h)))
  ]

  pub remove_items-Owned : (s : Shelf) → Owned s → Owned (remove_items host clear s).0
  unfolding remove_items
  remove_items-Owned s h =
      Entries-imp _ _ (λ p _ o. ground (arith, o)) _
        (drop_files-Owned (λ _. false) s.items s.files
          (Entries-imp _ _ (λ p _ o. ground (arith, o)) s.files h))
