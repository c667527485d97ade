-- ===== src/Broker/Validation/Tests.antt =====
-- Inputs of the request checks.
use seele_shell.Prelude.{Option, false, true, ℕ, ◌≡◌, none, some, refl, String, ◌⊎◌, ◌<◌, ◌^◌, ◌≢◌}
use seele_shell.Broker.Validation.{
  Request, inspect, number_allowed, is_reference, Validator, request, schema, pattern_count,
  is_blank, consumer_allowed, label_allowed, class_allowed, item_allowed, identifier, field_count,
  property_count, consumer, item,
}
use seele_shell.Json.{
  Value, array, object, cons, field, number, null, string, bool, end, nil, index,
}
use seele_shell.Broker.Validation.Inspect.{inspect_exact, nodes, levels, is_plain}
use seele_shell.Broker.Validation.Accepted.{request_accepts}

abbrev pair_array : Value
pair_array = array (cons (number "1e5") (cons (string "a") nil))

inspect_exact_example : inspect false 0 10 pair_array ≡ some 7
unfolding nodes levels is_plain number_allowed
inspect_exact_example = inspect_exact false 0 10 pair_array

inspect_rejects_exponent : inspect false 0 10 (number "1e1000") ≡ none
unfolding inspect number_allowed
inspect_rejects_exponent = refl

inspect_rejects_reference : inspect true 0 10 (object (field "$ref" null end)) ≡ none
unfolding inspect is_reference
inspect_rejects_reference = refl

abbrev any_schema : Value
any_schema = object (field "version" (string "1") (field "schema" (bool true) end))

abbrev payload : Value
payload = object (
    field "consumer" (string "fixture") (
      field "label" (string "Fixture job") (
        field "prompt" (string "Private prompt") (
          field "context" (object (field "value" (number "1") end)) (
            field "input" any_schema (
              field "output" any_schema
                (field "item" (string "n-1") (field "revision" (number "7") end))))))))

abbrev accept_all : Value → Option Validator
accept_all document = some (λ v. true)

abbrev small : Value → ℕ
small v = 10

abbrev accepted : Request
accepted = record { value = payload; validator = λ v. true }

request_accepts_example :
    (accepted.value ≡ payload)
    × ((c : String) × (consumer accepted ≡ some c) × (identifier c ≡ true))
    × ((item accepted ≡ some none)
        ⊎ ((name : String) × (revision : ℕ) × (item accepted ≡ some (some (name, revision)))
            × (revision < 2 ^ 63)))
    × (inspect false 0 16384 (index payload "context") ≢ none)
    × (schema accept_all small (index payload "output") ≡ some accepted.validator)
unfolding request schema inspect pattern_count number_allowed is_reference is_blank consumer_allowed
    label_allowed class_allowed item_allowed identifier field_count property_count
request_accepts_example = request_accepts accept_all small payload accepted refl
