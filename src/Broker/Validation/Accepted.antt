-- ===== src/Broker/Validation/Accepted.antt =====
-- What an accepted request guarantees.
use seele_shell.Prelude.{ℕ, ◌<◌, ◌^◌, ◌≡◌, ◌≢◌, ◌⊎◌, true, false, Option, none, some, arith, String}
use seele_shell.Json.{Value, index}
use seele_shell.Broker.Validation.{
  Request, Validator, request, schema, consumer, item, identifier, consumer_allowed, item_allowed,
  inspect,
}

consumer_of_allowed :
    (r : Request)
    → consumer_allowed (index r.value "consumer") ≡ true
    → (c : String) × (consumer r ≡ some c) × (identifier c ≡ true)
unfolding consumer consumer_allowed
consumer_of_allowed r h = ground arith

item_of_allowed :
    (r : Request)
    → item_allowed r.value ≡ true
    → (item r ≡ some none)
      ⊎ ((name : String) × (revision : ℕ) × (item r ≡ some (some (name, revision)))
          × (revision < 2 ^ 63))
unfolding item item_allowed
item_of_allowed r h = ground arith

module _ (compile : Value → Option Validator) (encoded_len : Value → ℕ) where
  request_checks :
      (v : Value) (r : Request)
      → request compile encoded_len v ≡ some r
      → (r.value ≡ v)
        × (consumer_allowed (index v "consumer") ≡ true)
        × (item_allowed v ≡ true)
        × (schema compile encoded_len (index v "output") ≡ some r.validator)
        × (inspect false 0 16384 (index v "context") ≢ none)
  unfolding request
  request_checks v r h = ground arith

-- An accepted request is the submitted value, its `consumer` is a valid identifier, its `item` is
-- absent or has a revision below 2^63, so neither accessor panics, its context passes the node
-- and depth budget, and its validator is the one compiled from its own output schema.
pub request_accepts :
    (compile : Value → Option Validator) (encoded_len : Value → ℕ) (v : Value) (r : Request)
    → request compile encoded_len v ≡ some r
    → (r.value ≡ v)
      × ((c : String) × (consumer r ≡ some c) × (identifier c ≡ true))
      × ((item r ≡ some none)
          ⊎ ((name : String) × (revision : ℕ) × (item r ≡ some (some (name, revision)))
              × (revision < 2 ^ 63)))
      × (inspect false 0 16384 (index v "context") ≢ none)
      × (schema compile encoded_len (index v "output") ≡ some r.validator)
request_accepts compile encoded_len v r h =
    let (same, named, itemed, validator, context) = request_checks compile encoded_len v r h in
    (
      same,
      consumer_of_allowed r (rw same named),
      item_of_allowed r (rw same itemed),
      context,
      validator,
    )
