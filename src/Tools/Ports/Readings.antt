-- ===== src/Tools/Ports/Readings.antt =====
-- What the readings of `/proc` show of the socket of a review: projects/tools/src/ports/worker.rs.
use seele_shell.Prelude.{
  chars_key, Bool, List, ℕ, [], any, first, ◌∷◌, retain, suc, ◌≡◌, some, true, zero, ◌⊎◌, ==_iff,
  All, Bool-cases, arith, inl, chars_eq_iff, inr, some-injective, refl, subst,
}
use seele_shell.Tools.Ports.{Review, Listener}
use seele_shell.Tools.Ports.Worker.{remaining, Scene, is_reviewed}

abbrev pub IsIn : {A : Type 0} → A → List A → Type 0
IsIn a [] = ⊥
IsIn a (x ∷ xs) = (x ≡ a) ⊎ IsIn a xs

-- The listener is the reviewed socket, at the reviewed address and port.
abbrev pub Same : Review → Listener → Type 0
Same r l = (l.inode ≡ r.inode) × (l.port ≡ r.port) × (l.binding ≡ r.binding)

-- One of the listeners is the reviewed socket.
abbrev pub Bound : Review → List Listener → Type 0
Bound r ls = (l : Listener) × IsIn l ls × Same r l

pub found-IsIn :
    {A : Type 0} (p : A → Bool) (a : A) (xs : List A)
    → first (retain p xs) ≡ some a
    → IsIn a xs × (p a ≡ true)
found-IsIn p a [] e = cc
found-IsIn p a (x ∷ xs) e = elim (Bool-cases (p x)) [
  | inl t ↦ let same = some-injective x a (rw t at e) in (inl same, subst (λ y. p y ≡ true) same t)
  | inr t ↦ let rest = found-IsIn p a xs (rw t at e) in (inr rest.0, rest.1)
]

any-IsIn :
    {A : Type 0} (p : A → Bool) (xs : List A) → any p xs ≡ true → (a : A) × IsIn a xs × (p a ≡ true)
any-IsIn p [] e = cc
any-IsIn p (x ∷ xs) e = elim (Bool-cases (p x)) [
  | inl t ↦ (x, inl refl, t)
  | inr t ↦ let rest = any-IsIn p xs (rw t at e) in (rest.0, inr rest.1, rest.2)
]

pub reviewed-Same : (r : Review) (l : Listener) → is_reviewed r l ≡ true → Same r l
reviewed-Same r l e = (
  (==_iff l.inode r.inode).0 (ground (arith, e)),
  (==_iff l.port r.port).0 (ground (arith, e)),
  (chars_eq_iff l.binding r.binding).0 (ground (arith, e)),
)

-- The numbers of `count` readings from the n-th.
abbrev pub readings : ℕ → ℕ → List ℕ
readings zero n = []
readings (suc count) n = n ∷ readings count (suc n)

-- If `remaining` holds, each of its readings shows the reviewed socket.
pub remaining-Bound :
    (scene : Scene) (r : Review) (attempts n : ℕ)
    → remaining scene r attempts n ≡ true
    → All (λ k. Bound r (scene.listeners k)) (readings (suc attempts) n)
unfolding remaining
remaining-Bound scene r zero n e =
    let (l, i, t) = any-IsIn (is_reviewed r) (scene.listeners n) e in
    ((l, i, reviewed-Same r l t), tt)
remaining-Bound scene r (suc attempts) n e =
    let (l, i, t) = any-IsIn (is_reviewed r) (scene.listeners n) (ground (arith, e)) in
    ((l, i, reviewed-Same r l t), remaining-Bound scene r attempts (suc n) (ground (arith, e)))
