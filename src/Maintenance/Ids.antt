-- ===== src/Maintenance/Ids.antt =====
-- The ids of rows.
use seele_shell.Prelude.{
  String, Bool, if◌then◌else◌, ◌≡◌, true, ◌==◌, not, sym, ◌&&◌, ◌∙◌, ap, arith,
}
use Prim.Native.String.{[], ◌∷◌, ◌++◌}
use Prim.Native.String.append
use Prim.Native.Char.{Char, code}
use seele_shell.Maintenance.Model.{id_of}

abbrev pub no_colon : String → Bool
no_colon [] = true
no_colon (c ∷ s) = not (code c == 58) && no_colon s

id_of-nil : (key : String) → id_of [] key ≡ (":" ∷ key)
unfolding id_of
id_of-nil key =
    append.nil (":" ++ key) ∙ append.cons ":" [] key ∙ ap (λ t. ":" ∷ t) (append.nil key)

id_of-cons : (c : Char) (s key : String) → id_of (c ∷ s) key ≡ (c ∷ id_of s key)
unfolding id_of
id_of-cons c s key = append.cons c s (":" ++ key)

before_colon : String → String
before_colon [] = []
before_colon (c ∷ s) = let rest = before_colon s in if code c == 58 then [] else c ∷ rest

before_colon-id_of :
    (source key : String) → no_colon source ≡ true → before_colon (id_of source key) ≡ source
unfolding before_colon
before_colon-id_of [] key h = ap before_colon (id_of-nil key)
before_colon-id_of (c ∷ s) key h =
    ap before_colon (id_of-cons c s key) ∙ ground (arith, before_colon-id_of s key)

after_colon : String → String
after_colon [] = []
after_colon (c ∷ s) = let rest = after_colon s in if code c == 58 then s else rest

after_colon-id_of :
    (source key : String) → no_colon source ≡ true → after_colon (id_of source key) ≡ key
unfolding after_colon
after_colon-id_of [] key h = ap after_colon (id_of-nil key)
after_colon-id_of (c ∷ s) key h =
    ap after_colon (id_of-cons c s key) ∙ ground (arith, after_colon-id_of s key)

-- Rows of sources without a colon have the same id only if source and key agree.
pub id_of-injective :
    (a b k l : String)
    → no_colon a ≡ true
    → no_colon b ≡ true
    → id_of a k ≡ id_of b l
    → (a ≡ b) × (k ≡ l)
id_of-injective a b k l h g e = (
  sym (before_colon-id_of a k h) ∙ ap before_colon e ∙ before_colon-id_of b l g,
  sym (after_colon-id_of a k h) ∙ ap after_colon e ∙ after_colon-id_of b l g,
)
