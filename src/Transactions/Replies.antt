-- ===== src/Transactions/Replies.antt =====
-- src/transactions/types.ts and src/transactions/operationStore.ts: the results of the operations,
-- and the decoding of the replies of the coordination script. `none` is InvalidReplyError.
pub mod Agreement
pub mod Leases
pub mod Outcomes
pub mod Tests
use lazy_layers.Prelude.{
  ℕ, ◌≡◌, Bool, true, false, ◌||◌, not, Option, none, some, List, [], ◌∷◌, ltb, leb, ◌==◌,
  if◌then◌else◌, Text, codes, text_eq, natural, every, ◌&&◌,
}
use lazy_layers.Prelude.Decimal.{value, is_positive_decimal}
use lazy_layers.Transactions.Record.{is_reference_char, bounded, max_time}
use lazy_layers.Transactions.Script.{Command, begin, renew, complete, read, Request}

pub record Identity : Type 0 where
  pub tenant : Text
  pub operation : Text
  pub idempotency_key : Text
  pub fingerprint : Text
  pub durable_id : Text

pub record Lease : Type 0 where
  pub identity : Identity
  pub owner : Text
  pub remaining_ms : ℕ

pub data BeginResult : Type 0 where
  acquired : Lease → BeginResult
  in_progress : ℕ → BeginResult
  completed : Text → BeginResult
  conflict : BeginResult

pub data Status : Type 0 where
  missing : Status
  in_progress : ℕ → Status
  recovery_required : Status
  completed : Text → Status
  conflict : Status

pub data RenewResult : Type 0 where
  renewed : ℕ → RenewResult
  lost : RenewResult
  conflict : RenewResult

pub data CompleteResult : Type 0 where
  completed : Text → CompleteResult
  lost : CompleteResult
  conflict : CompleteResult

-- What the client hands over: an array of strings and buffers, if all is well.
pub data Field : Type 0 where
  string : Text → Field
  buffer : Text → Field
  other : Field

pub data Wire : Type 0 where
  array : List Field → Wire
  not_array : Wire

unfoldable pub wire_string : Field → Option Text
wire_string (string s) = some s
wire_string (buffer s) = some s
wire_string other = none

abbrev pub cons_part : Option Text → Option (List Text) → Option (List Text)
cons_part none ps = none
cons_part (some s) none = none
cons_part (some s) (some ps) = some (s ∷ ps)

unfoldable pub wire_fields : List Field → Option (List Text)
unfolding wire_string
wire_fields [] = some []
wire_fields (f ∷ fs) = cons_part (wire_string f) (wire_fields fs)

unfoldable pub wire_parts : Wire → Option (List Text)
unfolding wire_fields
wire_parts (array fs) = wire_fields fs
wire_parts not_array = none

-- `decimal` without `allowZero`. A number above the safe integers is refused as JavaScript reads it too.
unfoldable pub decimal : Text → ℕ → Option ℕ
decimal s most =
    if not (is_positive_decimal s)
    then none
    else if ltb max_time (value s) || ltb most (value s)
    then none
    else some (value s)

-- [A-Za-z0-9_:/%.\-] of src/transactions/keys.ts, which has the percent sign besides what the script's
-- class has.
abbrev pub is_store_char : ℕ → Bool
is_store_char c = is_reference_char c || c == b'%'

-- `isReference` of src/transactions/keys.ts
unfoldable pub is_reference : Text → Bool
is_reference s = bounded s 256 && every is_store_char s

abbrev pub with_decimal {ℓ} : {A : Type ℓ} → Option ℕ → (ℕ → A) → Option A
with_decimal none f = none
with_decimal (some n) f = some (f n)

-- The bodies of the cases, by the number of parts.
abbrev pub acquired_case : Identity → Text → ℕ → List Text → Option BeginResult
acquired_case identity owner lease_ms (o ∷ ms ∷ flag ∷ []) =
    if not (text_eq o owner) || not (text_eq flag (codes "reconcile"))
    then none
    else with_decimal (decimal ms lease_ms)
        (λ n. acquired (record { identity = identity; owner = owner; remaining_ms = n }))
acquired_case identity owner lease_ms _ = none

abbrev pub one_decimal {ℓ} : {A : Type ℓ} → ℕ → (ℕ → A) → List Text → Option A
one_decimal most f (ms ∷ []) = with_decimal (decimal ms most) f
one_decimal most f _ = none

abbrev pub one_reference {ℓ} : {A : Type ℓ} → (Text → A) → List Text → Option A
one_reference f (result ∷ []) = if is_reference result then some (f result) else none
one_reference f _ = none

abbrev pub no_more {ℓ} : {A : Type ℓ} → A → List Text → Option A
no_more a [] = some a
no_more a _ = none

unfoldable pub begin_parts : Identity → Text → ℕ → List Text → Option BeginResult
unfolding is_reference
begin_parts identity owner lease_ms [] = none
begin_parts identity owner lease_ms (w ∷ ws) =
    if text_eq w (codes "acquired")
    then acquired_case identity owner lease_ms ws
    else if text_eq w (codes "in_progress")
    then one_decimal lease_ms BeginResult.in_progress ws
    else if text_eq w (codes "completed")
    then one_reference BeginResult.completed ws
    else if text_eq w (codes "conflict")
    then no_more BeginResult.conflict ws
    else none

unfoldable pub renew_parts : ℕ → List Text → Option RenewResult
renew_parts lease_ms [] = none
renew_parts lease_ms (w ∷ ws) =
    if text_eq w (codes "renewed")
    then one_decimal lease_ms RenewResult.renewed ws
    else if text_eq w (codes "lost")
    then no_more RenewResult.lost ws
    else if text_eq w (codes "conflict")
    then no_more RenewResult.conflict ws
    else none

abbrev pub expected_reference : Text → List Text → Option CompleteResult
expected_reference expected (result ∷ []) =
    if text_eq result expected then some (CompleteResult.completed result) else none
expected_reference expected _ = none

unfoldable pub complete_parts : Text → List Text → Option CompleteResult
complete_parts expected [] = none
complete_parts expected (w ∷ ws) =
    if text_eq w (codes "completed")
    then expected_reference expected ws
    else if text_eq w (codes "lost")
    then no_more CompleteResult.lost ws
    else if text_eq w (codes "conflict")
    then no_more CompleteResult.conflict ws
    else none

unfoldable pub status_parts : ℕ → List Text → Option Status
status_parts lease_ms [] = none
status_parts lease_ms (w ∷ ws) =
    if text_eq w (codes "missing")
    then no_more Status.missing ws
    else if text_eq w (codes "in_progress")
    then one_decimal lease_ms Status.in_progress ws
    else if text_eq w (codes "recovery_required")
    then no_more Status.recovery_required ws
    else if text_eq w (codes "completed")
    then one_reference Status.completed ws
    else if text_eq w (codes "conflict")
    then no_more Status.conflict ws
    else none

abbrev pub decode_parts {ℓ} : {A : Type ℓ} → (List Text → Option A) → Option (List Text) → Option A
decode_parts f none = none
decode_parts f (some ws) = f ws

unfoldable pub decode_begin : Identity → Text → ℕ → Wire → Option BeginResult
decode_begin identity owner lease_ms w =
    decode_parts (begin_parts identity owner lease_ms) (wire_parts w)

unfoldable pub decode_renew : ℕ → Wire → Option RenewResult
decode_renew lease_ms w = decode_parts (renew_parts lease_ms) (wire_parts w)

unfoldable pub decode_complete : Text → Wire → Option CompleteResult
decode_complete expected w = decode_parts (complete_parts expected) (wire_parts w)

unfoldable pub decode_status : ℕ → Wire → Option Status
decode_status lease_ms w = decode_parts (status_parts lease_ms) (wire_parts w)

-- The durations of a store; its constructor holds them to 1 ≤ lease_ms ≤ retention_ms and to the
-- bounds of the protocol.
pub record Durations : Type 0 where
  pub lease_ms : ℕ
  pub retention_ms : ℕ

-- The arguments with which `begin`, `renew`, `complete` and `readStatus` call the script.
abbrev pub request : Command → Durations → Identity → Text → Text → Request
request command d identity owner result = record {
  command = command;
  fingerprint = identity.fingerprint;
  durable_id = identity.durable_id;
  owner = owner;
  lease = natural d.lease_ms;
  retention = natural d.retention_ms;
  result = result;
}

unfoldable pub begin_request : Durations → Identity → Text → Request
begin_request d identity owner = request begin d identity owner []

unfoldable pub renew_request : Durations → Lease → Request
renew_request d lease = request renew d lease.identity lease.owner []

unfoldable pub complete_request : Durations → Lease → Text → Request
complete_request d lease result = request complete d lease.identity lease.owner result

unfoldable pub status_request : Durations → Identity → Request
status_request d identity = request read d identity [] []
