-- ===== src/Split.antt =====
-- Fields joined by a separator, and `text.split(separator)`.
use seele_shell.Prelude.{
  ℕ, Chars, List, All, ◌++◌, ◌∷◌, ◌≡◌, ==_iff, [], if◌then◌else◌, ◌==◌, ◌∙◌, ap, false, refl,
}

abbrev pub push_head : ℕ → List Chars → List Chars
push_head c [] = (c ∷ []) ∷ []
push_head c (f ∷ fs) = (c ∷ f) ∷ fs

unfoldable pub split : ℕ → Chars → List Chars
split sep [] = [] ∷ []
split sep (c ∷ cs) = let rest = split sep cs in if c == sep then [] ∷ rest else push_head c rest

unfoldable pub join : ℕ → List Chars → Chars
join sep [] = []
join sep (f ∷ []) = f
join sep (f ∷ g ∷ fs) = f ++ sep ∷ join sep (g ∷ fs)

-- `f` is without the separator.
abbrev pub Without : ℕ → Chars → Type 0
Without sep f = All (λ c. (c == sep) ≡ false) f

split_last : (sep : ℕ) (f : Chars) → Without sep f → split sep f ≡ f ∷ []
unfolding split
split_last sep [] h = refl
split_last sep (c ∷ f) h = rw h.0 (rw (split_last sep f h.1) refl)

split_first :
    (sep : ℕ) (f rest : Chars) → Without sep f → split sep (f ++ sep ∷ rest) ≡ f ∷ split sep rest
unfolding split
split_first sep [] rest h = rw ((==_iff sep sep).1 refl) refl
split_first sep (c ∷ f) rest h = rw h.0 (rw (split_first sep f rest h.1) refl)

-- Splitting gives back the fields that were joined.
pub split-join :
    (sep : ℕ) (f : Chars) (fs : List Chars)
    → All (Without sep) (f ∷ fs)
    → split sep (join sep (f ∷ fs)) ≡ f ∷ fs
unfolding join
split-join sep f [] h = split_last sep f h.0
split-join sep f (g ∷ fs) h =
    split_first sep f (join sep (g ∷ fs)) h.0 ∙ ap (λ gs. f ∷ gs) (split-join sep g fs h.1)
