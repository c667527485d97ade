-- ===== src/Tools/Battery/Cleaning.antt =====
-- What `clean` of projects/tools/src/battery_alert.rs leaves, and that it leaves it alone.
use seele_shell.Prelude.{
  Chars, ℕ, All, Bool, length, take, ◌∷◌, ◌≡◌, [], false, if_cases, retain, suc, true, ◌++◌, ◌≤◌,
  All-retain_of, Bool-cases, ap, arith, not, refl, zero, ◌+◌, All-append, inl, length-take, inr,
  length-append, List,
}
use seele_shell.Tools.Battery.{clean, trim_end, trim_start, is_space, is_shown, push_front}

abbrev pub starts_plain : Chars → Bool
starts_plain [] = true
starts_plain (c ∷ cs) = not (is_space c)

-- A text that `clean n` does not change: what it shows, its length, and its two ends.
pub record Good (n : ℕ) (cs : Chars) : Type 0 where
  pub shown : All (λ c. is_shown c ≡ true) cs
  pub short : length cs ≤ n
  pub plain : starts_plain cs ≡ true
  pub ended : trim_end cs ≡ cs

retain-All : (p : ℕ → Bool) (xs : Chars) → All (λ c. p c ≡ true) xs → retain p xs ≡ xs
retain-All p [] h = refl
retain-All p (x ∷ xs) h = rw h.0 (ap (λ ys. x ∷ ys) (retain-All p xs h.1))

pub take-length {ℓ} : {A : Type ℓ} (n : ℕ) (xs : List A) → length xs ≤ n → take n xs ≡ xs
take-length zero [] h = refl
take-length zero (x ∷ xs) h = ground arith
take-length (suc n) [] h = refl
take-length (suc n) (x ∷ xs) h = ap (λ ys. x ∷ ys) (take-length n xs (omega arith))

trim_start_plain : (cs : Chars) → starts_plain cs ≡ true → trim_start cs ≡ cs
unfolding trim_start
trim_start_plain [] h = refl
trim_start_plain (c ∷ cs) h = ground arith

pub Good-clean : (n : ℕ) (cs : Chars) → Good n cs → clean n cs ≡ cs
unfolding clean
Good-clean n cs h =
    rw (retain-All is_shown cs h.shown)
      (rw (take-length n cs h.short) (rw (trim_start_plain cs h.plain) h.ended))

module _ {A : Type 0} (P : A → Type 0) where
  pub All-take : (n : ℕ) (xs : List A) → All P xs → All P (take n xs)
  All-take zero xs h = tt
  All-take (suc n) [] h = tt
  All-take (suc n) (x ∷ xs) h = (h.0, All-take n xs h.1)

module _ (P : ℕ → Type 0) where
  All-trim_start : (xs : Chars) → All P xs → All P (trim_start xs)
  unfolding trim_start
  All-trim_start [] h = tt
  All-trim_start (x ∷ xs) h =
      if_cases (All P) (is_space x) _ _ (λ _. All-trim_start xs h.1) (λ _. h)

  All-push_front : (c : ℕ) (cs : Chars) → P c → All P cs → All P (push_front c cs)
  All-push_front c [] p h = if_cases (All P) (is_space c) _ _ (λ _. tt) (λ _. (p, tt))
  All-push_front c (d ∷ ds) p h = (p, h)

  All-trim_end : (xs : Chars) → All P xs → All P (trim_end xs)
  unfolding trim_end
  All-trim_end [] h = tt
  All-trim_end (x ∷ xs) h = All-push_front x (trim_end xs) h.0 (All-trim_end xs h.1)

length-trim_start : (xs : Chars) → length (trim_start xs) ≤ length xs
unfolding trim_start
length-trim_start [] = omega arith
length-trim_start (x ∷ xs) = ground (arith, length-trim_start xs)

length-push_front : (c : ℕ) (cs : Chars) → length (push_front c cs) ≤ suc (length cs)
length-push_front c [] = ground arith
length-push_front c (d ∷ ds) = omega arith

length-trim_end : (xs : Chars) → length (trim_end xs) ≤ length xs
unfolding trim_end
length-trim_end [] = omega arith
length-trim_end (x ∷ xs) = omega (arith, length-push_front x (trim_end xs), length-trim_end xs)

plain-trim_start : (xs : Chars) → starts_plain (trim_start xs) ≡ true
unfolding trim_start
plain-trim_start [] = refl
plain-trim_start (x ∷ xs) = ground (arith, plain-trim_start xs)

plain-push_front : (c : ℕ) (cs : Chars) → is_space c ≡ false → starts_plain (push_front c cs) ≡ true
plain-push_front c [] h = ground arith
plain-push_front c (d ∷ ds) h = ground arith

plain-trim_end : (xs : Chars) → starts_plain xs ≡ true → starts_plain (trim_end xs) ≡ true
unfolding trim_end
plain-trim_end [] h = refl
plain-trim_end (x ∷ xs) h = plain-push_front x (trim_end xs) (ground arith)

trim_end-push_front :
    (c : ℕ) (cs : Chars) → trim_end cs ≡ cs → trim_end (push_front c cs) ≡ push_front c cs
unfolding trim_end
trim_end-push_front c [] h = elim (Bool-cases (is_space c)) [
  | inl e ↦ rw e refl
  | inr e ↦ rw e (rw e refl)
]
trim_end-push_front c (d ∷ ds) h = rw h refl

trim_end_idem : (xs : Chars) → trim_end (trim_end xs) ≡ trim_end xs
unfolding trim_end
trim_end_idem [] = refl
trim_end_idem (x ∷ xs) = trim_end-push_front x (trim_end xs) (trim_end_idem xs)

All-self : (p : ℕ → Bool) (cs : Chars) → All (λ c. p c ≡ true → p c ≡ true) cs
All-self p [] = tt
All-self p (c ∷ cs) = (λ e. e, All-self p cs)

pub clean-Good : (n : ℕ) (cs : Chars) → Good n (clean n cs)
unfolding clean
clean-Good n cs =
    let kept = take n (retain is_shown cs) in
    record {
      shown = All-trim_end _ (trim_start kept) (
          All-trim_start _ kept (
            All-take _ n (retain is_shown cs)
              (All-retain_of _ is_shown cs (All-self is_shown cs))));
      short = omega (
        arith,
        length-trim_end (trim_start kept),
        length-trim_start kept,
        length-take n (retain is_shown cs),
      );
      plain = plain-trim_end (trim_start kept) (plain-trim_start kept);
      ended = trim_end_idem (trim_start kept);
    }

trim_end-append :
    (xs : Chars) (y : ℕ) (ys : Chars)
    → trim_end (y ∷ ys) ≡ y ∷ ys
    → trim_end (xs ++ y ∷ ys) ≡ xs ++ y ∷ ys
unfolding trim_end
trim_end-append [] y ys h = h
trim_end-append (x ∷ []) y ys h = rw h refl
trim_end-append (x ∷ z ∷ xs) y ys h = ap (push_front x) (trim_end-append (z ∷ xs) y ys h)

push_solid : (c : ℕ) (b : Chars) → is_space c ≡ false → trim_end b ≡ b → trim_end (c ∷ b) ≡ c ∷ b
unfolding trim_end
push_solid c [] s h = rw s refl
push_solid c (d ∷ ds) s h = rw h refl

plain_append :
    (c : ℕ) (a b : Chars)
    → is_space c ≡ false
    → starts_plain a ≡ true
    → starts_plain (a ++ c ∷ b) ≡ true
plain_append c [] b s h = rw s refl
plain_append c (x ∷ a) b s h = h

pub join-Good :
    (n m : ℕ) (c : ℕ) (a b : Chars)
    → is_space c ≡ false
    → is_shown c ≡ true
    → Good n a
    → Good m b
    → Good (n + suc m) (a ++ c ∷ b)
join-Good n m c a b s t ha hb = record {
  shown = All-append _ a (c ∷ b) ha.shown (t, hb.shown);
  short = omega (arith, length-append a (c ∷ b), ha.short, hb.short);
  plain = plain_append c a b s ha.plain;
  ended = trim_end-append a c b (push_solid c b s hb.ended);
}
