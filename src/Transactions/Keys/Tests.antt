-- ===== src/Transactions/Keys/Tests.antt =====
-- Tests of the keys of operations. The digest that stands for SHA-256 is the first 64 characters.
use lazy_layers.Prelude.{
  ℕ, zero, suc, ◌≡◌, refl, some, ap, false, [], ◌∷◌, Text, codes, every, length,
}
use lazy_layers.Transactions.Replies.{Identity}
use lazy_layers.Transactions.Replies.Tests.{op}
use lazy_layers.Transactions.Admission.{
  bounded_string, is_well_formed_after, byte_length, validate_reference, validate_fingerprint,
  validate_identity,
}
use lazy_layers.Transactions.Keys.{
  is_namespace, validate_namespace, json_unit, json_units, json_string, json_rest, json_array,
  operation_key, key_text,
}
use lazy_layers.Transactions.Keys.Distinct.{operation_key-same}

padded : ℕ → Text → Text
padded zero s = []
padded (suc n) [] = 48 ∷ padded n []
padded (suc n) (c ∷ s) = c ∷ padded n s

length-padded : (n : ℕ) (s : Text) → length (padded n s) ≡ n
unfolding padded
length-padded zero s = refl
length-padded (suc n) [] = ap suc (length-padded n [])
length-padded (suc n) (c ∷ s) = ap suc (length-padded n s)

json_array-escapes : json_array (codes "a\"b" ∷ codes "\\" ∷ []) ≡ codes "[\"a\\\"b\",\"\\\\\"]"
unfolding json_array json_rest json_string json_units json_unit
json_array-escapes = refl

validate_namespace-brace : validate_namespace (codes "a{b}") ≡ false
unfolding validate_namespace is_namespace bounded_string is_well_formed_after byte_length every
validate_namespace-brace = refl

-- The same operation as it stands in another record.
abbrev other_record : Identity
other_record = record op { durable_id = codes "op:2" }

abbrev shop_key : Text
shop_key = key_text (padded 64) (codes "shop") op

op-key : operation_key (padded 64) (codes "shop") op ≡ some shop_key
unfolding operation_key validate_namespace is_namespace validate_identity validate_fingerprint
    validate_reference bounded_string is_well_formed_after byte_length every
op-key = refl

other_record-key : operation_key (padded 64) (codes "shop") other_record ≡ some shop_key
unfolding operation_key validate_namespace is_namespace validate_identity validate_fingerprint
    validate_reference bounded_string is_well_formed_after byte_length every
other_record-key = refl

operation_key-same_example :
    (codes "shop" ≡ codes "shop")
    × (op.tenant ≡ other_record.tenant)
    × (op.operation ≡ other_record.operation)
    × (op.idempotency_key ≡ other_record.idempotency_key)
operation_key-same_example =
    operation_key-same (padded 64) (codes "shop") (codes "shop") op other_record shop_key
      (length-padded 64) (λ e. refl) op-key other_record-key
