-- ===== src/Json.antt =====
-- JSON values as `serde_json` gives them with `arbitrary_precision`: a number is its decimal
-- text, and `value[key]` on a missing key or on another kind of value is `null`.
use Prim.Native.Char.{code}
use seele_shell.Prelude.{
  ℕ, ◌+◌, ◌*◌, ◌-◌, ◌^◌, String, Bool, ◌&&◌, Option, none, some, List, [], ◌∷◌, str_eq, ltb, leb,
  if◌then◌else◌,
}

mutual
  pub data Value : Type 0 where
    null : Value
    bool : Bool → Value
    number : String → Value
    string : String → Value
    array : Items → Value
    object : Fields → Value

  pub data Items : Type 0 where
    nil : Items
    cons : Value → Items → Items

  pub data Fields : Type 0 where
    end : Fields
    field : String → Value → Fields → Fields

abbrev pub codes : String → List ℕ
codes String.[] = []
codes (String.◌∷◌ c s) = code c ∷ codes s

abbrev pub get_field : String → Fields → Option Value
get_field k end = none
get_field k (field j v fs) = if str_eq j k then some v else get_field k fs

abbrev pub keys : Fields → List String
keys end = []
keys (field k v fs) = k ∷ keys fs

-- `value.get(key)`
abbrev pub get : String → Value → Option Value
get k (object fs) = get_field k fs
get k _ = none

-- `value[key]`
abbrev pub index : Value → String → Value
index v k = elim (get k v) [ none ↦ null | some w ↦ w ]

abbrev pub as_str : Value → Option String
as_str (string s) = some s
as_str _ = none

abbrev pub as_object : Value → Option Fields
as_object (object fs) = some fs
as_object _ = none

-- The value of a text of decimal digits.
abbrev pub digits_value : ℕ → List ℕ → Option ℕ
digits_value n [] = some n
digits_value n (c ∷ cs) =
    let rest = digits_value (n * 10 + (c - b'0')) cs in
    if leb b'0' c && leb c b'9' then rest else none

-- `text.parse::<u64>()`, of a text that JSON allows as a number.
abbrev pub parse_u64 : String → Option ℕ
parse_u64 s = elim (codes s) [
  | [] ↦ none
  | c ∷ cs ↦ elim (digits_value 0 (c ∷ cs)) [
    | none ↦ none
    | some n ↦ if ltb n (2 ^ 64) then some n else none
  ]
]

abbrev pub as_u64 : Value → Option ℕ
as_u64 (number s) = parse_u64 s
as_u64 _ = none

abbrev pub elements : Items → List Value
elements nil = []
elements (cons v vs) = v ∷ elements vs

abbrev pub as_array : Value → Option (List Value)
as_array (array vs) = some (elements vs)
as_array _ = none

abbrev pub as_bool : Value → Option Bool
as_bool (bool b) = some b
as_bool _ = none
