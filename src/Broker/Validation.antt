-- ===== src/Broker/Validation.antt =====
-- projects/broker/src/validation.rs: what a client may submit. The JSON Schema compiler and the
-- JSON serializer are libraries: they are the parameters `compile` and `encoded_len`.
pub mod Inspect
pub mod Accepted
mod Tests
use Prim.Native.String.{len}
use seele_shell.Prelude.{
  ℕ, suc, ◌+◌, ◌*◌, ◌-◌, ◌^◌, ◌≡◌, String, Bool, true, false, not, ◌&&◌, ◌||◌, Option, none, some,
  List, [], ◌∷◌, str_eq, ltb, leb, ◌==◌, if◌then◌else◌, length, any, all,
}
use seele_shell.Prelude.Options.{◌>>=◌, ◌>>◌, guard}
use seele_shell.Json.{
  Value, null, bool, number, string, array, object, Items, nil, cons, Fields, end, field, codes,
  digits_value, get, get_field, keys, index, as_str, as_u64, as_object,
}

abbrev pub max_message : ℕ
max_message = 256 * 1024

abbrev pub Validator : Type 0
Validator = Value → Bool

pub record Request : Type 0 where
  pub value : Value
  pub validator : Validator

-- `unwrap` of a missing text is a panic: `none`.
unfoldable pub consumer : Request → Option String
consumer r = as_str (index r.value "consumer")

unfoldable pub item : Request → Option (Option (String × ℕ))
item r = elim (get "item" r.value) [
  | none ↦ some none
  | some v ↦ do
    name ← as_str v
    revision ← as_u64 (index r.value "revision")
    some (some (name, revision))
]

is_interactive : Value → Bool
is_interactive (string s) = str_eq s "interactive"
is_interactive _ = false

pub interactive : Request → Bool
unfolding is_interactive
interactive r = is_interactive (index r.value "class")

-- The text behind the first `e` or `E`.
after_exponent : List ℕ → Option (List ℕ)
after_exponent [] = none
after_exponent (c ∷ cs) =
    let rest = after_exponent cs in if c == b'e' || c == b'E' then some cs else rest

unsigned : List ℕ → List ℕ
unsigned [] = []
unsigned (c ∷ cs) = if c == b'-' || c == b'+' then cs else c ∷ cs

-- `parse::<i32>()` fails, or the magnitude is above 308: a value that does not fit is above too.
exponent_too_large : List ℕ → Bool
unfolding unsigned
exponent_too_large cs = elim (unsigned cs) [
  | [] ↦ true
  | d ∷ ds ↦ elim (digits_value 0 (d ∷ ds)) [ none ↦ true | some n ↦ ltb 308 n ]
]

pub number_allowed : String → Bool
unfolding after_exponent exponent_too_large
number_allowed text = not (
    ltb 128 (len text)
    || (elim (after_exponent (codes text)) [ none ↦ false | some e ↦ exponent_too_large e ]))

pub is_reference : String → Bool
is_reference key = str_eq key "$ref" || str_eq key "$dynamicRef" || str_eq key "$recursiveRef"

abbrev pub max_depth : Bool → ℕ
max_depth schema = if schema then 32 else 64

-- `none` is `Err("invalid_input")`; a success returns what is left of the node budget.
unfoldable mutual
  pub inspect : Bool → ℕ → ℕ → Value → Option ℕ
  inspect schema depth remaining (object fs) =
      let rest = inspect_fields schema (suc depth) (remaining - 1) fs in
      if ltb (max_depth schema) depth || remaining == 0 then none else rest
  inspect schema depth remaining (array vs) =
      let rest = inspect_items schema (suc depth) (remaining - 1) vs in
      if ltb (max_depth schema) depth || remaining == 0 then none else rest
  inspect schema depth remaining (number text) =
      if ltb (max_depth schema) depth || remaining == 0
      then none
      else (if number_allowed text then some (remaining - 1) else none)
  inspect schema depth remaining null =
      if ltb (max_depth schema) depth || remaining == 0 then none else some (remaining - 1)
  inspect schema depth remaining (bool b) =
      if ltb (max_depth schema) depth || remaining == 0 then none else some (remaining - 1)
  inspect schema depth remaining (string s) =
      if ltb (max_depth schema) depth || remaining == 0 then none else some (remaining - 1)

  pub inspect_fields : Bool → ℕ → ℕ → Fields → Option ℕ
  inspect_fields schema depth remaining end = some remaining
  inspect_fields schema depth remaining (field k v fs) =
      let rest = inspect schema depth remaining v >>= λ left. inspect_fields schema depth left fs in
      if schema && is_reference k then none else rest

  pub inspect_items : Bool → ℕ → ℕ → Items → Option ℕ
  inspect_items schema depth remaining nil = some remaining
  inspect_items schema depth remaining (cons v vs) =
      inspect schema depth remaining v >>= λ left. inspect_items schema depth left vs

is_some {ℓ} : {A : Type ℓ} → Option A → Bool
is_some none = false
is_some (some a) = true

unfoldable pub bounded_instance : Value → Bool
unfolding is_some
bounded_instance v = is_some (inspect false 0 16384 v)

field_count : Value → ℕ
field_count (object fs) = length (keys fs)
field_count _ = 0

property_count : Option Value → ℕ
property_count none = 0
property_count (some v) = field_count v

mutual
  pub pattern_count : Value → ℕ
  pattern_count (object fs) =
      (elim (get_field "pattern" fs) [ none ↦ 0 | some _ ↦ 1 ])
      + property_count (get_field "patternProperties" fs)
      + pattern_count_fields fs
  pattern_count (array vs) = pattern_count_items vs
  pattern_count null = 0
  pattern_count (bool b) = 0
  pattern_count (number n) = 0
  pattern_count (string s) = 0

  pub pattern_count_fields : Fields → ℕ
  pattern_count_fields end = 0
  pattern_count_fields (field k v fs) = pattern_count v + pattern_count_fields fs

  pub pattern_count_items : Items → ℕ
  pattern_count_items nil = 0
  pattern_count_items (cons v vs) = pattern_count v + pattern_count_items vs

is_identifier_byte : ℕ → Bool
is_identifier_byte c =
    (leb b'a' c && leb c b'z')
    || (leb b'A' c && leb c b'Z')
    || (leb b'0' c && leb c b'9')
    || c == b'_'
    || c == b'.'
    || c == b':'
    || c == b'-'

pub identifier : String → Bool
unfolding is_identifier_byte
identifier s = ltb 0 (len s) && leb (len s) 100 && all is_identifier_byte (codes s)

-- `char::is_whitespace` and `char::is_control`.
is_whitespace : ℕ → Bool
is_whitespace c =
    (leb 9 c && leb c 13)
    || c == 32
    || c == 0x85
    || c == 0xa0
    || c == 0x1680
    || (leb 0x2000 c && leb c 0x200a)
    || c == 0x2028
    || c == 0x2029
    || c == 0x202f
    || c == 0x205f
    || c == 0x3000

is_control : ℕ → Bool
is_control c = ltb c 32 || (leb 127 c && leb c 159)

-- `value.as_str().is_none_or(|v| v.trim().is_empty())`
is_blank : Value → Bool
unfolding is_whitespace
is_blank v = elim (as_str v) [ none ↦ true | some s ↦ all is_whitespace (codes s) ]

abbrev is_allowed : String → Bool
is_allowed k = any (str_eq k) (
    "consumer" ∷ "label" ∷ "prompt" ∷ "context" ∷ "input" ∷ "output" ∷ "class" ∷ "item" ∷ "revision"
    ∷ [])

class_allowed : Option Value → Bool
class_allowed none = true
class_allowed (some (string s)) = str_eq s "interactive" || str_eq s "background"
class_allowed (some _) = false

-- The checks of `item` and `revision`: both or neither, a bounded name, a revision below 2^63.
item_allowed : Value → Bool
item_allowed v = elim (get "item" v) [
  | none ↦ (elim (get "revision" v) [ none ↦ true | some _ ↦ false ])
  | some i ↦ elim (as_str i) [
    | none ↦ false
    | some s ↦
        leb (length (codes s)) 200
        && (elim (as_u64 (index v "revision")) [ none ↦ false | some n ↦ ltb n (2 ^ 63) ])
  ]
]

label_allowed : Value → Bool
unfolding is_control
label_allowed v = elim (as_str v) [
  | none ↦ false
  | some s ↦ leb (length (codes s)) 120 && not (any is_control (codes s))
]

consumer_allowed : Value → Bool
consumer_allowed v = elim (as_str v) [ none ↦ false | some s ↦ identifier s ]

module _ (compile : Value → Option Validator) (encoded_len : Value → ℕ) where
  pub schema : Value → Option Validator
  schema v = do
    version ← as_str (index v "version")
    document ← get "schema" v
    guard (not (ltb 100 (len version) || ltb (64 * 1024) (encoded_len document)))
    left ← inspect true 0 4096 document
    guard (leb (pattern_count document) 32)
    compile document

  -- `none` is `Err("invalid_input")`, the only failure.
  pub request : Value → Option Request
  request v = do
    fields ← as_object v
    guard (all is_allowed (keys fields) && leb (encoded_len v) max_message)
    guard (
        not (
          is_blank (index v "consumer")
          || is_blank (index v "label")
          || is_blank (index v "prompt")))
    guard (consumer_allowed (index v "consumer") && label_allowed (index v "label"))
    guard (class_allowed (get "class" v) && item_allowed v)
    left ← inspect false 0 16384 (index v "context")
    input ← schema (index v "input")
    guard (input (index v "context"))
    output ← schema (index v "output")
    some (record { value = v; validator = output })
