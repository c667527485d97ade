-- ===== src/Prelude/Texts.antt =====
-- Texts as lists of code points, and as the keys of maps.
use Prim.Native.Nat.{ℕ, ◌+◌}
use mathlib.Core.Path.{◌≡◌}
use mathlib.Core.Logic.{◌↔◌}
use mathlib.Core.Bool.{Bool, true, false, ◌&&◌, ◌||◌}
use mathlib.Core.List.{List, [], ◌∷◌}
use native.Mathlib.Omega.{arith}
use seele_shell.Prelude.Tests.{Key, ltb, ◌==◌, if◌then◌else◌}

abbrev pub Chars : Type 0
Chars = List ℕ

abbrev pub chars_eq : Chars → Chars → Bool
chars_eq [] [] = true
chars_eq [] (d ∷ ds) = false
chars_eq (c ∷ cs) [] = false
chars_eq (c ∷ cs) (d ∷ ds) = c == d && chars_eq cs ds

abbrev pub chars_lt : Chars → Chars → Bool
chars_lt cs [] = false
chars_lt [] (d ∷ ds) = true
chars_lt (c ∷ cs) (d ∷ ds) = ltb c d || (c == d && chars_lt cs ds)

unfoldable pub utf8_width : ℕ → ℕ
utf8_width c =
    if ltb c 0x80 then 1 else (if ltb c 0x800 then 2 else (if ltb c 0x10000 then 3 else 4))

-- The bytes of a text.
unfoldable pub text_len : Chars → ℕ
unfolding utf8_width
text_len [] = 0
text_len (c ∷ cs) = utf8_width c + text_len cs

pub chars_eq_iff : (a b : Chars) → (chars_eq a b ≡ true) ↔ (a ≡ b)
chars_eq_iff [] [] = ground arith
chars_eq_iff [] (d ∷ ds) = ground arith
chars_eq_iff (c ∷ cs) [] = ground arith
chars_eq_iff (c ∷ cs) (d ∷ ds) = ground (arith, chars_eq_iff cs ds)

instance abbrev pub chars_key : Key Chars
chars_key = record { beq = chars_eq; blt = chars_lt; beq_iff = chars_eq_iff }

-- `text.starts_with(prefix)`
abbrev pub starts_with : Chars → Chars → Bool
starts_with [] text = true
starts_with (c ∷ cs) [] = false
starts_with (c ∷ cs) (d ∷ ds) = c == d && starts_with cs ds
