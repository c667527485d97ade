-- ===== src/Tools/Ports/Tokens.antt =====
-- The token of a review of projects/tools/src/ports/model.rs carries its decision.
use seele_shell.Prelude.{
  chars_key, Chars, ℕ, all, false, ◌<◌, ◌≡◌, [], some, true, ◌^◌, ◌==◌, ◌∷◌, ◌⊎◌, All-map, arith,
  chars_eq, inl, not, inr, ◌&&◌, subst, sym, refl, All, Option, ap, ◌∙◌,
}
use seele_shell.Decimal.{show, show_digits-IsDigit, parse_int-show}
use seele_shell.Split.{Without, split-join}
use seele_shell.Tools.Ports.{
  Review, valid_unit, is_unit_char, kind_of, bar, scope_of, service_kind, parse, parse_list,
  process_kind, read_review, system_scope, fields_of, token, user_scope,
}
use seele_shell.Json.{codes}

-- What the token carries: the labels and the privilege are left out.
unfoldable pub decision : Review → Review
decision r = record r {
  target = record r.target { privileged = false; name = []; user = []; reason = [] };
}

-- A review of a listener that can be stopped.
pub record Reviewable (r : Review) : Type 0 where
  pub inode_fits : r.inode < 2 ^ 64
  pub port_fits : r.port < 2 ^ 16
  pub pid_fits : r.target.pid < 2 ^ 32
  pub start_fits : r.target.start < 2 ^ 64
  pub uid_fits : r.target.uid < 2 ^ 32
  pub binding_plain : Without bar r.binding
  pub kind_known : (r.target.kind ≡ service_kind) ⊎ (r.target.kind ≡ process_kind)
  pub scope_known :
      (r.target.scope ≡ []) ⊎ ((r.target.scope ≡ system_scope) ⊎ (r.target.scope ≡ user_scope))
  pub unit_valid : (r.target.unit ≡ []) ⊎ (valid_unit r.target.unit ≡ true)

show-Without : (n : ℕ) → Without bar (show n)
show-Without n = All-map (λ c d. ground (arith, d)) (show n) (show_digits-IsDigit 20 n)

-- What reading a field needs of it: that it holds no bar, and is read back.
abbrev Field : (Chars → Option Chars) → Chars → Type 0
Field read_field f = Without bar f × (read_field f ≡ some f)

known_text : (f : Chars) → all (λ c. not (c == bar)) f ≡ true → Without bar f
known_text [] h = tt
known_text (c ∷ cs) h = (ground (arith, h), known_text cs (ground (arith, h)))

kind-Field : (k : Chars) → (k ≡ service_kind) ⊎ (k ≡ process_kind) → Field kind_of k
kind-Field k (inl e) = subst (Field kind_of) (sym e) (known_text service_kind refl, refl)
kind-Field k (inr e) = subst (Field kind_of) (sym e) (known_text process_kind refl, refl)

scope-Field : (s : Chars) → (s ≡ []) ⊎ ((s ≡ system_scope) ⊎ (s ≡ user_scope)) → Field scope_of s
scope-Field s (inl e) = subst (Field scope_of) (sym e) (tt, refl)
scope-Field s (inr (inl e)) = subst (Field scope_of) (sym e) (known_text system_scope refl, refl)
scope-Field s (inr (inr e)) = subst (Field scope_of) (sym e) (known_text user_scope refl, refl)

unit_char-bar : (c : ℕ) → is_unit_char c ≡ true → (c == bar) ≡ false
unit_char-bar c h = ground (arith, h)

all-Without : (cs : Chars) → all is_unit_char cs ≡ true → Without bar cs
all-Without [] h = tt
all-Without (c ∷ cs) h = (unit_char-bar c (ground (arith, h)), all-Without cs (ground (arith, h)))

valid_unit-Without : (u : Chars) → (u ≡ []) ⊎ (valid_unit u ≡ true) → Without bar u
unfolding valid_unit
valid_unit-Without [] h = tt
valid_unit-Without (c ∷ cs) (inl e) = cc
valid_unit-Without (c ∷ cs) (inr e) = all-Without (c ∷ cs) (ground (arith, e))

unit_accepted :
    (u : Chars)
    → (u ≡ []) ⊎ (valid_unit u ≡ true)
    → (not (chars_eq u []) && not (valid_unit u)) ≡ false
unit_accepted [] h = refl
unit_accepted (c ∷ cs) (inl e) = cc
unit_accepted (c ∷ cs) (inr e) = rw e refl

fields-Without : (r : Review) → Reviewable r → All (Without bar) (fields_of r)
fields-Without r h = (
  known_text (codes "1") refl,
  (
    show-Without r.inode,
    (
      h.binding_plain,
      (
        show-Without r.port,
        (
          (kind-Field r.target.kind h.kind_known).0,
          (
            valid_unit-Without r.target.unit h.unit_valid,
            (
              (scope-Field r.target.scope h.scope_known).0,
              (
                show-Without r.target.pid,
                (show-Without r.target.start, (show-Without r.target.uid, tt)),
              ),
            ),
          ),
        ),
      ),
    ),
  ),
)

read_review-decision : (r : Review) → Reviewable r → read_review (fields_of r) ≡ some (decision r)
unfolding decision
read_review-decision r h = rw (parse_int-show (2 ^ 64) r.inode h.inode_fits (omega arith)) (
    rw (parse_int-show (2 ^ 16) r.port h.port_fits (omega arith)) (
      rw ((kind-Field r.target.kind h.kind_known).1) (
        rw ((scope-Field r.target.scope h.scope_known).1) (
          rw (parse_int-show (2 ^ 32) r.target.pid h.pid_fits (omega arith)) (
            rw (parse_int-show (2 ^ 64) r.target.start h.start_fits (omega arith))
              (rw (parse_int-show (2 ^ 32) r.target.uid h.uid_fits (omega arith)) refl))))))

parse_list-decision : (r : Review) → Reviewable r → parse_list (fields_of r) ≡ some (decision r)
parse_list-decision r h = rw (unit_accepted r.target.unit h.unit_valid) (read_review-decision r h)

-- The token of a review of a listener that can be stopped parses to the decision of that review.
pub parse-token : (r : Review) → Reviewable r → parse (token r) ≡ some (decision r)
unfolding parse token
parse-token r h =
    ap parse_list (split-join bar (codes "1") _ (fields-Without r h)) ∙ parse_list-decision r h
