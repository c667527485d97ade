-- ===== src/Tools/Shelf/Collected.antt =====
-- What the collection of files in projects/tools/src/shelf.rs leaves on the shelf.
use seele_shell.Prelude.{
  Chars, List, ◌≡◌, any, true, All, Bool, chars_eq, if_cases, ◌++◌, ◌∷◌, Bool-cases, [], arith,
  subst, ◌&&◌, chars_eq_iff, inl, refl, sym, inr, some, none, option_cases, not, leb, length, ltb,
  ◌+◌, All-map, some-injective, ◌∙◌,
}
use seele_shell.Json.{Value, as_array, index}
use seele_shell.Tools.Shelf.{
  Host, add_file, add_files, gather, passed, Shelf, Item, change_first, has_path, reference,
  push_new, select_item, collect_files, Ended, max_items, additional,
}
use seele_shell.Tools.Shelf.Items.{Checked-cases, refused_passed, checked_cases}

-- `path` is on the shelf, and selected.
abbrev pub is_chosen : Chars → List Item → Bool
is_chosen path items = any (λ i. chars_eq i.path path && i.selected) items

choose_first :
    (p : Chars) (xs : List Item)
    → has_path p xs ≡ true
    → is_chosen p (change_first (λ i. chars_eq i.path p) select_item xs) ≡ true
choose_first p [] h = h
choose_first p (x ∷ xs) h = ground (arith, choose_first p xs)

chosen-first :
    (p q : Chars) (xs : List Item)
    → is_chosen q xs ≡ true
    → is_chosen q (change_first (λ i. chars_eq i.path p) select_item xs) ≡ true
chosen-first p q [] h = h
chosen-first p q (x ∷ xs) h = ground (arith, chosen-first p q xs)

chosen-push_left :
    (q : Chars) (xs : List Item) (i : Item)
    → is_chosen q xs ≡ true
    → is_chosen q (xs ++ i ∷ []) ≡ true
chosen-push_left q [] i h = ground arith
chosen-push_left q (x ∷ xs) i h = ground (arith, chosen-push_left q xs i)

chosen-push_right :
    (q : Chars) (xs : List Item) (i : Item)
    → (chars_eq i.path q && i.selected) ≡ true
    → is_chosen q (xs ++ i ∷ []) ≡ true
chosen-push_right q [] i h = ground arith
chosen-push_right q (x ∷ xs) i h = ground (arith, chosen-push_right q xs i h)

add_file-chosen : (p : Chars) (s : Shelf) → is_chosen p (add_file p s).items ≡ true
unfolding add_file
add_file-chosen p s =
    if_cases (λ (x : Shelf). is_chosen p x.items ≡ true) (has_path p s.items) _ _
      (λ e. choose_first p s.items e)
      (λ _. chosen-push_right p s.items _ (ground (arith, (chars_eq_iff p p).1 refl)))

add_file-keeps :
    (p q : Chars) (s : Shelf) → is_chosen q s.items ≡ true → is_chosen q (add_file p s).items ≡ true
unfolding add_file
add_file-keeps p q s h =
    if_cases (λ (x : Shelf). is_chosen q x.items ≡ true) (has_path p s.items) _ _
      (λ _. chosen-first p q s.items h) (λ _. chosen-push_left q s.items _ h)

add_files-keeps :
    (ps : List Chars) (q : Chars) (s : Shelf)
    → is_chosen q s.items ≡ true
    → is_chosen q (add_files ps s).items ≡ true
unfolding add_files
add_files-keeps [] q s h = h
add_files-keeps (p ∷ ps) q s h = add_files-keeps ps q (add_file p s) (add_file-keeps p q s h)

add_files-chosen :
    (ps : List Chars) (q : Chars) (s : Shelf)
    → any (chars_eq q) ps ≡ true
    → is_chosen q (add_files ps s).items ≡ true
unfolding add_files
add_files-chosen [] q s h = cc
add_files-chosen (p ∷ ps) q s h = elim (Bool-cases (chars_eq q p)) [
  | inl e ↦ add_files-keeps ps q (add_file p s) (
      subst (λ x. is_chosen x (add_file p s).items ≡ true) (sym ((chars_eq_iff q p).0 e))
        (add_file-chosen p s))
  | inr e ↦ add_files-chosen ps q (add_file p s) (ground (arith, e, h))
]

contains-push :
    (q : Chars) (ps : List Chars) (p : Chars)
    → any (chars_eq q) ps ≡ true
    → any (chars_eq q) (ps ++ p ∷ []) ≡ true
contains-push q [] p h = ground arith
contains-push q (x ∷ ps) p h = ground (arith, contains-push q ps p)

contains-last : (p : Chars) (ps : List Chars) → any (chars_eq p) (ps ++ p ∷ []) ≡ true
contains-last p [] = ground (arith, (chars_eq_iff p p).1 refl)
contains-last p (x ∷ ps) = ground (arith, contains-last p ps)

push_new-contains : (p : Chars) (ps : List Chars) → any (chars_eq p) (push_new p ps) ≡ true
push_new-contains p ps =
    if_cases (λ x. any (chars_eq p) x ≡ true) (any (chars_eq p) ps) _ _ (λ e. e)
      (λ _. contains-last p ps)

push_new-keeps :
    (p q : Chars) (ps : List Chars)
    → any (chars_eq q) ps ≡ true
    → any (chars_eq q) (push_new p ps) ≡ true
push_new-keeps p q ps h =
    if_cases (λ x. any (chars_eq q) x ≡ true) (any (chars_eq p) ps) _ _ (λ _. h)
      (λ _. contains-push q ps p h)

-- `v` names a file, and `incoming` has it.
abbrev Gathered : Host → List Chars → Value → Type 0
Gathered host incoming v =
    (path : Chars) × (reference host v ≡ passed path) × (any (chars_eq path) incoming ≡ true)

passed-injective : {A : Type 0} (a b : A) → passed a ≡ passed b → a ≡ b
passed-injective a b e = cc

gather-keeps :
    (host : Host) (vs : List Value) (acc incoming : List Chars) (q : Chars)
    → gather host vs acc ≡ passed incoming
    → any (chars_eq q) acc ≡ true
    → any (chars_eq q) incoming ≡ true
unfolding gather
gather-keeps host [] acc incoming q e h =
    subst (λ x. any (chars_eq q) x ≡ true) (passed-injective acc incoming e) h
gather-keeps host (v ∷ vs) acc incoming q e h = elim (Checked-cases (reference host v)) [
  | inl (m, r) ↦ absurd (refused_passed m incoming (rw (r, gather) at e))
  | inr (p, r) ↦
      gather-keeps host vs (push_new p acc) incoming q (rw (r, gather) at e)
        (push_new-keeps p q acc h)
]

gather-Gathered :
    (host : Host) (vs : List Value) (acc incoming : List Chars)
    → gather host vs acc ≡ passed incoming
    → All (Gathered host incoming) vs
unfolding gather
gather-Gathered host [] acc incoming e = tt
gather-Gathered host (v ∷ vs) acc incoming e = elim (Checked-cases (reference host v)) [
  | inl (m, r) ↦ absurd (refused_passed m incoming (rw (r, gather) at e))
  | inr (p, r) ↦ (
    (
      p,
      r,
      gather-keeps host vs (push_new p acc) incoming p (rw (r, gather) at e)
          (push_new-contains p acc),
    ),
    gather-Gathered host vs (push_new p acc) incoming (rw (r, gather) at e),
  )
]

-- `v` names a file, and it is on the shelf, selected.
abbrev pub Shelved : Host → List Item → Value → Type 0
Shelved host items v =
    (path : Chars) × (reference host v ≡ passed path) × (is_chosen path items ≡ true)

-- If `files` succeeds, every value that it was given names a file, and that file is on the shelf and
-- selected.
pub files-Shelved :
    (host : Host) (value : Value) (s : Shelf) (values : List Value)
    → as_array (index value "paths") ≡ some values
    → (collect_files host value s).1 ≡ none
    → All (Shelved host (collect_files host value s).0.items) values
unfolding collect_files
files-Shelved host value s values e =
    let Done : Ended → Type 0 = λ x. x.1 ≡ none → All (Shelved host x.0.items) values in
    option_cases Done (as_array (index value "paths")) _ _ (λ _ n. cc)
      λ given g.
        if_cases Done (not (leb 1 (length given) && leb (length given) max_items)) _ _ (λ _ n. cc)
          λ _.
            checked_cases Done (gather host given []) _ _ (λ m n. cc)
              λ incoming r.
                if_cases Done (ltb max_items (length s.items + additional incoming s.items)) _ _
                  (λ _ n. cc)
                  λ _ _.
                    All-map (λ v w. (w.0, w.1, add_files-chosen incoming w.0 s w.2)) values
                      (gather-Gathered host values [] incoming (
                        subst (λ x. gather host x [] ≡ passed incoming)
                          (some-injective given values (sym g ∙ e)) r))
