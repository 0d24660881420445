-- ===== src/Transactions/Admission.antt =====
-- What the operation store admits before it dispatches a command: the validators of
-- src/transactions/keys.ts, and of src/transactions/operationStore.ts the durations of the constructor,
-- validateLease and the tests with which the operations begin. A validator returns its argument or
-- throws an error of the code OPERATION_INVALID_INPUT; it is the test whether it returns. Texts are
-- lists of UTF-16 code units here; those that go to the script are ASCII, where these are its bytes.
pub mod Passing
mod Tests
use lazy_layers.Prelude.{
  ℕ, ◌+◌, Bool, true, false, ◌&&◌, ◌||◌, not, Option, none, some, get_or, [], ◌∷◌, ltb, leb, ◌==◌,
  if◌then◌else◌, length, Text, every, Number, natural, is_safe_positive, to_natural,
}
use lazy_layers.Transactions.Record.{is_hex}
use lazy_layers.Transactions.Script.{Request, max_lease, max_retention}
use lazy_layers.Transactions.Replies.{
  Identity, Lease, Durations, is_store_char, begin_request, renew_request, complete_request,
  status_request,
}

abbrev pub is_high_surrogate : ℕ → Bool
is_high_surrogate c = leb 55296 c && leb c 56319

abbrev pub is_low_surrogate : ℕ → Bool
is_low_surrogate c = leb 56320 c && leb c 57343

-- The loop of isWellFormedUnicode, after a high surrogate or not.
unfoldable pub is_well_formed_after : Bool → Text → Bool
is_well_formed_after true [] = false
is_well_formed_after false [] = true
is_well_formed_after true (c ∷ s) = is_low_surrogate c && is_well_formed_after false s
is_well_formed_after false (c ∷ s) =
    not (is_low_surrogate c) && is_well_formed_after (is_high_surrogate c) s

-- The bytes of a code unit in UTF-8: a pair of surrogates has four.
abbrev pub unit_bytes : ℕ → ℕ
unit_bytes c =
    if ltb c 128
    then 1
    else if ltb c 2048
    then 2
    else if is_high_surrogate c || is_low_surrogate c
    then 2
    else 3

-- Buffer.byteLength(value, 'utf8') of a well-formed text.
unfoldable pub byte_length : Text → ℕ
byte_length [] = 0
byte_length (c ∷ s) = unit_bytes c + byte_length s

-- Not matched by /\u0000|[\u0001-\u001f\u007f]/u
abbrev pub is_not_control : ℕ → Bool
is_not_control c = not (ltb c 32) && not (c == 127)

unfoldable pub bounded_string : ℕ → Text → Bool
unfolding is_well_formed_after byte_length
bounded_string most s =
    not (length s == 0)
    && is_well_formed_after false s
    && leb (byte_length s) most
    && every is_not_control s

-- /^[A-Za-z0-9_:/%.\-]+$/
abbrev pub is_reference_text : Text → Bool
is_reference_text s = ltb 0 (length s) && every is_store_char s

-- /^[0-9a-f]{64}$/
abbrev pub is_hex_64 : Text → Bool
is_hex_64 s = length s == 64 && every is_hex s

unfoldable pub validate_reference : ℕ → Text → Bool
unfolding bounded_string
validate_reference most s = bounded_string most s && is_reference_text s

unfoldable pub validate_fingerprint : Text → Bool
unfolding bounded_string
validate_fingerprint s = bounded_string 64 s && is_hex_64 s

unfoldable pub validate_owner : Text → Bool
unfolding bounded_string
validate_owner s = bounded_string 64 s && is_hex_64 s

-- An Identity has just the fields that the source tests for.
unfoldable pub validate_identity : Identity → Bool
unfolding bounded_string validate_fingerprint validate_reference
validate_identity i =
    bounded_string 128 i.tenant
    && bounded_string 96 i.operation
    && bounded_string 256 i.idempotency_key
    && validate_fingerprint i.fingerprint
    && validate_reference 128 i.durable_id

-- positiveInteger
unfoldable pub positive_integer : ℕ → Number → Bool
positive_integer most v = is_safe_positive v && leb (to_natural v) most

-- The durations of the constructor; DEFAULT_OPERATION_LEASE_MS and DEFAULT_OPERATION_RETENTION_MS are
-- 30 seconds and 7 days.
unfoldable pub construct_durations : Option Number → Option Number → Option Durations
unfolding positive_integer
construct_durations lease retention =
    let l = get_or lease (natural 30000) in
    let r = get_or retention (natural 604800000) in
    let d : Durations = record { lease_ms = to_natural l; retention_ms = to_natural r } in
    if not (positive_integer max_lease l)
    then none
    else if not (positive_integer max_retention r)
    then none
    else if ltb d.retention_ms d.lease_ms
    then none
    else some d

-- What a caller can hand over as `remainingMs`: `between n` lies between n and n + 1.
pub data Remaining : Type 0 where
  whole between : ℕ → Remaining
  below_zero not_finite : Remaining

-- The lease that a caller hands over, with the fields that the source tests for.
pub record GivenLease : Type 0 where
  pub identity : Identity
  pub owner : Text
  pub remaining : Remaining

abbrev pub is_within : ℕ → Remaining → Bool
is_within most (whole n) = leb n most
is_within most (between n) = ltb n most
is_within most below_zero = false
is_within most not_finite = false

unfoldable pub validate_lease : Durations → GivenLease → Bool
unfolding validate_identity validate_owner
validate_lease d l =
    validate_identity l.identity && validate_owner l.owner && is_within d.lease_ms l.remaining

-- The milliseconds that remain, rounded down; no request carries them.
abbrev pub rounded : Remaining → ℕ
rounded (whole n) = n
rounded (between n) = n
rounded below_zero = 0
rounded not_finite = 0

abbrev pub to_lease : GivenLease → Lease
to_lease l = record { identity = l.identity; owner = l.owner; remaining_ms = rounded l.remaining }

-- A call of the store, with the fresh owner that newOwner draws for `begin`.
pub data Call : Type 0 where
  begins : Identity → Text → Call
  renews : GivenLease → Call
  completes : GivenLease → Text → Call
  reads : Identity → Call

-- Whether the input of the call is valid.
unfoldable pub is_valid_call : Durations → Call → Bool
unfolding validate_identity validate_lease validate_reference
is_valid_call d (begins i owner) = validate_identity i
is_valid_call d (renews l) = validate_lease d l
is_valid_call d (completes l result) = validate_lease d l && validate_reference 256 result
is_valid_call d (reads i) = validate_identity i

-- The arguments of the script.
unfoldable pub arguments : Durations → Call → Request
unfolding begin_request renew_request complete_request status_request
arguments d (begins i owner) = begin_request d i owner
arguments d (renews l) = renew_request d (to_lease l)
arguments d (completes l result) = complete_request d (to_lease l) result
arguments d (reads i) = status_request d i

-- What an operation does first: OperationUnavailableError once the store has closed, an error for
-- invalid input, or the dispatch of a request.
pub data Admitted : Type 0 where
  closed_store invalid_input : Admitted
  dispatches : Request → Admitted

unfoldable pub admit_call : Bool → Durations → Call → Admitted
unfolding is_valid_call arguments
admit_call is_closed d c =
    if is_closed
    then closed_store
    else if not (is_valid_call d c)
    then invalid_input
    else dispatches (arguments d c)
