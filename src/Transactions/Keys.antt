-- ===== src/Transactions/Keys.antt =====
-- The key of an operation's record (src/transactions/keys.ts). Texts are lists of UTF-16 code units; the
-- digest, in 64 hexadecimal digits, is a parameter.
pub mod Distinct
mod Tests
use lazy_layers.Prelude.{
  ℕ, ◌/◌, ◌%◌, ◌+◌, Bool, true, false, ◌&&◌, ◌||◌, not, List, [], ◌∷◌, ◌++◌, ltb, leb, ◌==◌,
  if◌then◌else◌, Text, codes, every, Option, none, some,
}
use lazy_layers.Transactions.Replies.{Identity}
use lazy_layers.Transactions.Admission.{bounded_string, validate_identity}

abbrev pub is_alphanumeric : ℕ → Bool
is_alphanumeric c = (leb 65 c && leb c 90) || (leb 97 c && leb c 122) || (leb 48 c && leb c 57)

-- [A-Za-z0-9_.:-]
abbrev pub is_namespace_char : ℕ → Bool
is_namespace_char c = is_alphanumeric c || c == b'_' || c == b'.' || c == b':' || c == b'-'

-- /^[A-Za-z0-9][A-Za-z0-9_.:-]*$/, which admits no braces.
unfoldable pub is_namespace : Text → Bool
is_namespace [] = false
is_namespace (c ∷ s) = is_alphanumeric c && every is_namespace_char s

unfoldable pub validate_namespace : Text → Bool
unfolding bounded_string is_namespace
validate_namespace s = bounded_string 96 s && is_namespace s

abbrev hex_digit : ℕ → ℕ
hex_digit n = if ltb n 10 then 48 + n else 87 + n

-- A code unit in JSON.stringify of a text that is well formed.
unfoldable pub json_unit : ℕ → Text
json_unit c =
    if c == 34
    then codes "\\\""
    else if c == 92
    then codes "\\\\"
    else if c == 8
    then codes "\\b"
    else if c == 9
    then codes "\\t"
    else if c == 10
    then codes "\\n"
    else if c == 12
    then codes "\\f"
    else if c == 13
    then codes "\\r"
    else if ltb c 32
    then codes "\\u00" ++ hex_digit (c / 16) ∷ hex_digit (c % 16) ∷ []
    else c ∷ []

unfoldable pub json_units : Text → Text
unfolding json_unit
json_units [] = []
json_units (c ∷ s) = json_unit c ++ json_units s

unfoldable pub json_string : Text → Text
unfolding json_units
json_string s = 34 ∷ json_units s ++ 34 ∷ []

-- What follows the first element of an array, with the bracket that closes it.
unfoldable pub json_rest : List Text → Text
unfolding json_string
json_rest [] = codes "]"
json_rest (s ∷ ss) = 44 ∷ json_string s ++ json_rest ss

-- JSON.stringify of an array of texts
unfoldable pub json_array : List Text → Text
unfolding json_string json_rest
json_array [] = codes "[]"
json_array (s ∷ ss) = 91 ∷ json_string s ++ json_rest ss

-- What is hashed for an operation.
abbrev pub operation_text : Text → Identity → Text
operation_text ns i = json_array (ns ∷ i.tenant ∷ i.operation ∷ i.idempotency_key ∷ [])

module _ (digest : Text → Text) where
  abbrev pub key_text : Text → Identity → Text
  key_text ns i =
      let scope = digest (json_array (ns ∷ i.tenant ∷ [])) in
      let operation = digest (operation_text ns i) in
      codes "lltx:v1:" ++ scope ++ codes ":{" ++ operation ++ codes "}:record"

  -- operationKey; `none` is an OperationValidationError.
  unfoldable pub operation_key : Text → Identity → Option Text
  unfolding validate_namespace validate_identity
  operation_key ns i =
      if not (validate_namespace ns)
      then none
      else if not (validate_identity i)
      then none
      else some (key_text ns i)
