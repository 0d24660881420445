-- ===== src/Transactions/Record.antt =====
-- The operation record of src/transactions/scripts.ts and its validation by the Lua script. All
-- texts are byte strings; the numbers of the script are whole and below 2 ^ 53, where Lua's are exact.
pub mod Validation
pub mod Spelling
use lazy_layers.Prelude.{
  ℕ, ◌≤◌, ◌<◌, ◌≡◌, Bool, true, false, ◌&&◌, ◌||◌, not, Option, none, some, [], ltb, leb, ◌==◌,
  if◌then◌else◌, length, Text, codes, text_eq, every,
}
use lazy_layers.Prelude.Decimal.{print, value, is_positive_decimal}

-- 2 ^ 53 - 1
abbrev pub max_time : ℕ
max_time = 9007199254740991

-- [0-9a-f]
abbrev pub is_hex : ℕ → Bool
is_hex c = (leb 48 c && leb c 57) || (leb 97 c && leb c 102)

-- [A-Za-z0-9_:/%.%-], where the percent sign is Lua's escape and not in the class.
abbrev pub is_reference_char : ℕ → Bool
is_reference_char c =
    (leb 65 c && leb c 90)
    || (leb 97 c && leb c 122)
    || (leb 48 c && leb c 57)
    || c == b'_'
    || c == b':'
    || c == b'/'
    || c == b'.'
    || c == b'-'

abbrev pub bounded : Text → ℕ → Bool
bounded s n = ltb 0 (length s) && leb (length s) n

unfoldable pub hex64 : Text → Bool
hex64 s = bounded s 64 && length s == 64 && every is_hex s

unfoldable pub reference : Text → ℕ → Bool
reference s cap = bounded s cap && every is_reference_char s

-- The number that a stored timestamp stands for; `none` is nil.
unfoldable pub timestamp : Text → Option ℕ
timestamp s =
    if ltb 16 (length s)
    then none
    else if not (text_eq s (codes "0")) && not (is_positive_decimal s)
    then none
    else if ltb max_time (value s)
    then none
    else some (value s)

pub data Phase : Type 0 where
  pending completed : Phase

-- A valid record. `owner` is the fencing token of the last acquisition.
pub record Record : Type 0 where
  pub fingerprint : Text
  pub durable_id : Text
  pub owner : Text
  pub state : Phase
  pub lease_until : ℕ
  pub retain_until : ℕ
  pub result_ref : Text

-- What a key of a decoded table can hold.
pub data Value : Type 0 where
  absent : Value
  text : Text → Value
  number : ℕ → Value
  other : Value

-- A decoded table: the eight keys of the schema, and how many keys it has besides.
pub record Table : Type 0 where
  pub schema : Value
  pub fingerprint : Value
  pub durable_id : Value
  pub owner : Value
  pub state : Value
  pub lease_until_ms : Value
  pub retain_until_ms : Value
  pub result_ref : Value
  pub unknown_keys : ℕ

pub data Decoded : Type 0 where
  table : Table → Decoded
  not_table : Decoded

abbrev pub text_passes : (Text → Bool) → Value → Bool
text_passes p (text s) = p s
text_passes p absent = false
text_passes p (number n) = false
text_passes p other = false

abbrev pub is_text : Text → Value → Bool
is_text s v = text_passes (text_eq s) v

abbrev pub is_number : ℕ → Value → Bool
is_number n (number m) = m == n
is_number n absent = false
is_number n (text s) = false
is_number n other = false

abbrev pub timestamp_of : Value → Option ℕ
timestamp_of (text s) = timestamp s
timestamp_of absent = none
timestamp_of (number n) = none
timestamp_of other = none

abbrev pub text_of : Value → Text
text_of (text s) = s
text_of absent = []
text_of (number n) = []
text_of other = []

abbrev pub is_present : Value → Bool
is_present absent = false
is_present (text s) = true
is_present (number n) = true
is_present other = true

-- `count ~= 8` over allowed keys only.
abbrev pub has_all_keys : Table → Bool
has_all_keys t =
    t.unknown_keys == 0
    && is_present t.schema
    && is_present t.fingerprint
    && is_present t.durable_id
    && is_present t.owner
    && is_present t.state
    && is_present t.lease_until_ms
    && is_present t.retain_until_ms
    && is_present t.result_ref

abbrev pub make : Table → Phase → ℕ → ℕ → Record
make t state lease_until retain_until = record {
  fingerprint = text_of t.fingerprint;
  durable_id = text_of t.durable_id;
  owner = text_of t.owner;
  state = state;
  lease_until = lease_until;
  retain_until = retain_until;
  result_ref = text_of t.result_ref;
}

-- The part of `validate_record` behind the timestamps.
unfoldable pub validate_state : Table → ℕ → ℕ → Option Record
validate_state t until retain =
    if not (ltb 0 retain)
    then none
    else if is_text (codes "pending") t.state
    then if ltb 0 until && leb until retain && is_text [] t.result_ref
      then some (make t pending until retain)
      else none
    else if is_text (codes "completed") t.state
        && until == 0
        && text_passes (λ s. reference s 256) t.result_ref
    then some (make t completed until retain)
    else none

abbrev pub with_timestamps : Table → Option ℕ → Option ℕ → Option Record
with_timestamps t none b = none
with_timestamps t (some a) none = none
with_timestamps t (some a) (some b) = validate_state t a b

-- validate_record, with the record that passes it.
unfoldable pub validate_table : Table → Option Record
validate_table t =
    if is_number 1 t.schema
      && text_passes hex64 t.fingerprint
      && text_passes hex64 t.owner
      && text_passes (λ s. reference s 128) t.durable_id
      && has_all_keys t
    then with_timestamps t (timestamp_of t.lease_until_ms) (timestamp_of t.retain_until_ms)
    else none

unfoldable pub validate_record : Decoded → Option Record
validate_record (table t) = validate_table t
validate_record not_table = none

abbrev pub phase_text : Phase → Text
phase_text pending = codes "pending"
phase_text completed = codes "completed"

-- The table of a record, as the script builds it.
abbrev pub to_table : Record → Table
to_table r = record {
  schema = number 1;
  fingerprint = text r.fingerprint;
  durable_id = text r.durable_id;
  owner = text r.owner;
  state = text (phase_text r.state);
  lease_until_ms = text (print r.lease_until);
  retain_until_ms = text (print r.retain_until);
  result_ref = text r.result_ref;
  unknown_keys = 0;
}

-- What the timestamps and the result of a record have to satisfy in each state.
abbrev pub IsTimed : Phase → ℕ → ℕ → Text → Type 0
IsTimed pending until retain result = (0 < until) × (until ≤ retain) × (result ≡ [])
IsTimed completed until retain result = (until ≡ 0) × (reference result 256 ≡ true)

pub record IsValid (r : Record) : Type 0 where
  pub fingerprint_hex : hex64 r.fingerprint ≡ true
  pub owner_hex : hex64 r.owner ≡ true
  pub durable_reference : reference r.durable_id 128 ≡ true
  pub retained : 0 < r.retain_until
  pub lease_in_range : r.lease_until ≤ max_time
  pub retain_in_range : r.retain_until ≤ max_time
  pub timed : IsTimed r.state r.lease_until r.retain_until r.result_ref
