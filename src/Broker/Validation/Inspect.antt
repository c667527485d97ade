-- ===== src/Broker/Validation/Inspect.antt =====
-- `inspect` against a description that counts nodes and levels.
use seele_shell.Prelude.{
  ℕ, suc, ◌+◌, ◌-◌, ◌≤◌, ◌≡◌, Bool, true, ◌&&◌, Option, none, some, leb, not, if◌then◌else◌, arith,
  max,
}
use seele_shell.Json.{
  Value, null, bool, number, string, array, object, Items, nil, cons, Fields, end, field,
}
use seele_shell.Broker.Validation.{
  inspect, inspect_fields, inspect_items, number_allowed, is_reference, max_depth,
}

-- How many nodes a value has.
unfoldable mutual
  pub nodes : Value → ℕ
  nodes (object fs) = suc (nodes_fields fs)
  nodes (array vs) = suc (nodes_items vs)
  nodes null = 1
  nodes (bool b) = 1
  nodes (number n) = 1
  nodes (string s) = 1

  pub nodes_fields : Fields → ℕ
  nodes_fields end = 0
  nodes_fields (field k v fs) = nodes v + nodes_fields fs

  pub nodes_items : Items → ℕ
  nodes_items nil = 0
  nodes_items (cons v vs) = nodes v + nodes_items vs

-- How many levels of nesting it has.
unfoldable mutual
  pub levels : Value → ℕ
  levels (object fs) = suc (levels_fields fs)
  levels (array vs) = suc (levels_items vs)
  levels null = 1
  levels (bool b) = 1
  levels (number n) = 1
  levels (string s) = 1

  pub levels_fields : Fields → ℕ
  levels_fields end = 0
  levels_fields (field k v fs) = max (levels v) (levels_fields fs)

  pub levels_items : Items → ℕ
  levels_items nil = 0
  levels_items (cons v vs) = max (levels v) (levels_items vs)

-- All its numbers are short, and in a schema no key is a reference.
unfoldable mutual
  pub is_plain : Bool → Value → Bool
  is_plain schema (object fs) = is_plain_fields schema fs
  is_plain schema (array vs) = is_plain_items schema vs
  is_plain schema (number n) = number_allowed n
  is_plain schema null = true
  is_plain schema (bool b) = true
  is_plain schema (string s) = true

  pub is_plain_fields : Bool → Fields → Bool
  is_plain_fields schema end = true
  is_plain_fields schema (field k v fs) =
      not (schema && is_reference k) && (is_plain schema v && is_plain_fields schema fs)

  pub is_plain_items : Bool → Items → Bool
  is_plain_items schema nil = true
  is_plain_items schema (cons v vs) = is_plain schema v && is_plain_items schema vs

abbrev within : ℕ → ℕ → ℕ → ℕ → ℕ → Bool → Option ℕ
within limit depth remaining n l plain =
    if plain && (leb (depth + l) (suc limit) && leb n remaining) then some (remaining - n) else none

mutual
  unfolding inspect nodes levels is_plain

  inspect-within :
      (s : Bool) (d r : ℕ) (v : Value)
      → inspect s d r v ≡ within (max_depth s) d r (nodes v) (levels v) (is_plain s v)
  inspect-within s d r null = ground arith
  inspect-within s d r (bool b) = ground arith
  inspect-within s d r (string t) = ground arith
  inspect-within s d r (number t) = ground arith
  inspect-within s d r (array vs) = ground (arith, inspect_items-within s (suc d) (r - 1) vs)
  inspect-within s d r (object fs) = ground (arith, inspect_fields-within s (suc d) (r - 1) fs)

  inspect_fields-within :
      (s : Bool) (d r : ℕ) (fs : Fields)
      → d ≤ suc (max_depth s)
      → inspect_fields s d r fs
        ≡ within (max_depth s) d r (nodes_fields fs) (levels_fields fs) (is_plain_fields s fs)
  inspect_fields-within s d r end h = ground arith
  inspect_fields-within s d r (field k v fs) h =
      ground (arith, inspect-within s d r v, inspect_fields-within s d (r - nodes v) fs)

  inspect_items-within :
      (s : Bool) (d r : ℕ) (vs : Items)
      → d ≤ suc (max_depth s)
      → inspect_items s d r vs
        ≡ within (max_depth s) d r (nodes_items vs) (levels_items vs) (is_plain_items s vs)
  inspect_items-within s d r nil h = ground arith
  inspect_items-within s d r (cons v vs) h =
      ground (arith, inspect-within s d r v, inspect_items-within s d (r - nodes v) vs)

-- `inspect` accepts a value exactly when its numbers and keys are allowed, no node lies deeper
-- than the limit of its kind and its nodes fit the remaining budget, and then it spends one unit
-- of the budget for each node.
pub inspect_exact :
    (schema : Bool) (depth remaining : ℕ) (v : Value)
    → inspect schema depth remaining v ≡ (
        if is_plain schema v
          && (leb (depth + levels v) (suc (max_depth schema)) && leb (nodes v) remaining)
        then some (remaining - nodes v)
        else none)
inspect_exact schema depth remaining v = inspect-within schema depth remaining v
