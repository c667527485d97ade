-- ===== src/Decimal.antt =====
-- Numbers as `format!("{}")` writes them and as `parse` of an unsigned integer type reads them.
use seele_shell.Prelude.{
  Chars, ℕ, All, Option, [], suc, ◌<◌, ◌≤◌, if_cases, length, none, ◌*◌, ◌/◌, ◌^◌, ◌≡◌,
  if◌then◌else◌, ltb, some, zero, ◌∷◌, arith, ◌++◌, ◌+◌, ◌==◌, All-append, length-append, ◌%◌, ◌-◌,
  ap, Bool-cases, lt→ltb, inl, inr, ◌∙◌, refl,
}
use seele_shell.Json.{digits_value}

-- On fuel for the digits: 20 are enough for 64 bits.
unfoldable pub show_digits : ℕ → ℕ → Chars
show_digits zero n = []
show_digits (suc fuel) n =
    let rest = show_digits fuel (n / 10) in
    if ltb n 10 then (b'0' + n) ∷ [] else rest ++ (b'0' + n % 10) ∷ []

abbrev pub show : ℕ → Chars
show n = show_digits 20 n

abbrev pub read_digits : ℕ → Chars → Option ℕ
read_digits values [] = none
read_digits values (d ∷ ds) = elim (digits_value 0 (d ∷ ds)) [
  | none ↦ none
  | some n ↦ if ltb n values then some n else none
]

abbrev pub strip_plus : ℕ → Chars → Chars
strip_plus c cs = if c == b'+' then cs else c ∷ cs

-- `text.parse()` of a type with the given number of values; a leading `+` is allowed.
unfoldable pub parse_int : ℕ → Chars → Option ℕ
parse_int values [] = none
parse_int values (c ∷ cs) = read_digits values (strip_plus c cs)

abbrev pub IsDigit : ℕ → Type 0
IsDigit c = (b'0' ≤ c) × (c ≤ b'9')

abbrev ten_to : ℕ → ℕ
ten_to zero = 1
ten_to (suc n) = 10 * ten_to n

digits_value-append :
    (cs : Chars) (acc v d : ℕ)
    → digits_value acc cs ≡ some v
    → IsDigit d
    → digits_value acc (cs ++ d ∷ []) ≡ some (v * 10 + (d - b'0'))
digits_value-append [] acc v d e h = ground (arith, e, h)
digits_value-append (c ∷ cs) acc v d e h =
    ground (arith, e, h, digits_value-append cs (acc * 10 + (c - b'0')) v d)

show_digits-value : (fuel n : ℕ) → n < ten_to fuel → digits_value 0 (show_digits fuel n) ≡ some n
unfolding show_digits
show_digits-value zero n h = ap some (omega (arith, h))
show_digits-value (suc fuel) n h = elim (Bool-cases (ltb n 10)) [
  | inl e ↦ rw e (ground (arith, e))
  | inr e ↦
      let same : n / 10 * 10 + (b'0' + n % 10 - b'0') ≡ n = omega arith in
      rw e (
        digits_value-append (show_digits fuel (n / 10)) 0 (n / 10) (b'0' + n % 10)
          (show_digits-value fuel (n / 10) (omega (arith, h))) (omega arith, omega arith)
        ∙ ap some same)
]

pub show_digits-IsDigit : (fuel n : ℕ) → All IsDigit (show_digits fuel n)
unfolding show_digits
show_digits-IsDigit zero n = tt
show_digits-IsDigit (suc fuel) n =
    if_cases (All IsDigit) (ltb n 10) _ _ (λ e. ((omega arith, ground (arith, e)), tt))
      (λ _.
        All-append IsDigit (show_digits fuel (n / 10)) _ (show_digits-IsDigit fuel (n / 10))
          ((omega arith, omega arith), tt))

parse_int-digits :
    (values : ℕ) (cs : Chars) (n : ℕ)
    → All IsDigit cs
    → 1 ≤ length cs
    → digits_value 0 cs ≡ some n
    → n < values
    → parse_int values cs ≡ some n
unfolding parse_int
parse_int-digits values [] n h l e b = ground (arith, l)
parse_int-digits values (c ∷ cs) n h l e b =
    let bare : strip_plus c cs ≡ c ∷ cs = ground (arith, h.0) in
    ap (read_digits values) bare ∙ rw (e, read_digits) (rw (lt→ltb n values b) refl)

show_digits-length : (fuel n : ℕ) → 1 ≤ length (show_digits (suc fuel) n)
unfolding show_digits
show_digits-length fuel n =
    if_cases (λ (cs : Chars). 1 ≤ length cs) (ltb n 10) _ _ (λ _. omega arith)
      (λ _. omega (arith, length-append (show_digits fuel (n / 10)) ((b'0' + n % 10) ∷ [])))

-- What is shown is read back.
pub parse_int-show :
    (values n : ℕ) → n < values → values ≤ 2 ^ 64 → parse_int values (show n) ≡ some n
parse_int-show values n b w =
    parse_int-digits values (show n) n (show_digits-IsDigit 20 n) (show_digits-length 19 n)
      (show_digits-value 20 n (omega (arith, b, w))) b
