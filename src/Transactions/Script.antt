-- ===== src/Transactions/Script.antt =====
-- The Lua script OPERATION_COORDINATION_LUA of src/transactions/scripts.ts, which Redis runs as one
-- atomic step on one key. `cjson` is a parameter. A cell is what Redis holds under the key, with
-- the time up to which it keeps it. Redis passes the script one key and seven arguments, so the
-- test of their number (TX_INVALID_ARGS) is not modelled.
pub mod Cases
pub mod Holding
pub mod Exclusion
pub mod Renewal
pub mod Progress
pub mod Finality
use lazy_layers.Prelude.{
  ℕ, ◌+◌, ◌-◌, ◌*◌, ◌/◌, ◌≤◌, ◌≡◌, Bool, true, false, ◌&&◌, ◌||◌, not, Option, none, some, List, [],
  ◌∷◌, ltb, leb, ◌==◌, if◌then◌else◌, max, Text, codes, text_eq, Number, natural, negative,
  not_integer, to_natural,
}
use lazy_layers.Prelude.Decimal.{print}
use lazy_layers.Transactions.Record.{
  Record, Table, Decoded, table, Phase, pending, completed, IsValid, hex64, reference, max_time,
  validate_record, validate_table, to_table,
}

-- cjson.encode and cjson.decode; `none` is a text that does not decode.
pub record Codec : Type 1 where
  pub Raw : Type 0
  pub size : Raw → ℕ
  pub encode : Table → Raw
  pub decode : Raw → Option Decoded

-- What the script relies on: the encoding of a valid record is short, and decodes to what it was.
pub record CodecLaws (c : Codec) : Type 0 where
  pub decode-encode :
      (r : Record) → IsValid r → c.decode (c.encode (to_table r)) ≡ some (table (to_table r))
  pub size-encode : (r : Record) → IsValid r → c.size (c.encode (to_table r)) ≤ 2048

pub data Command : Type 0 where
  begin renew complete read unknown_command : Command

-- ARGV, with the two durations read by `tonumber`.
pub record Request : Type 0 where
  pub command : Command
  pub fingerprint : Text
  pub durable_id : Text
  pub owner : Text
  pub lease : Number
  pub retention : Number
  pub result : Text

pub data Code : Type 0 where
  invalid_command invalid_id invalid_owner invalid_ttl invalid_result invalid_record : Code
  invalid_time fresh_owner_required wrong_type : Code

pub data Reply : Type 0 where
  wire : List Text → Reply
  error_reply : Code → Reply

-- The reply of TIME.
pub record Time : Type 0 where
  pub seconds : ℕ
  pub microseconds : ℕ

abbrev pub to_ms : Time → ℕ
to_ms t = t.seconds * 1000 + t.microseconds / 1000

abbrev pub max_lease : ℕ
max_lease = 3600000

abbrev pub max_retention : ℕ
max_retention = 2592000000

abbrev pub is_between : ℕ → ℕ → Number → Bool
is_between lo hi (natural n) = leb lo n && leb n hi
is_between lo hi (negative n) = false
is_between lo hi not_integer = false

abbrev pub is_valid_ttl : Request → Bool
is_valid_ttl q =
    is_between 1 max_lease q.lease && is_between (to_natural q.lease) max_retention q.retention

abbrev pub is_unknown : Command → Bool
is_unknown c = elim c [ unknown_command ↦ true | _ ↦ false ]

abbrev pub is_read : Command → Bool
is_read c = elim c [ read ↦ true | _ ↦ false ]

abbrev pub is_complete : Command → Bool
is_complete c = elim c [ complete ↦ true | _ ↦ false ]

-- The tests of the arguments, in order.
unfoldable pub check_request : Request → Option Code
check_request q =
    if is_unknown q.command
    then some invalid_command
    else if not (hex64 q.fingerprint && reference q.durable_id 128)
    then some invalid_id
    else if not (is_read q.command) && not (hex64 q.owner)
    then some invalid_owner
    else if not (is_valid_ttl q)
    then some invalid_ttl
    else if is_complete q.command && not (reference q.result 256)
    then some invalid_result
    else none

abbrev pub remaining : Record → ℕ → ℕ
remaining r now = r.lease_until - now

abbrev pub is_completed : Record → Bool
is_completed r = elim r.state [ completed ↦ true | pending ↦ false ]

abbrev pub retained_deadline : Request → ℕ → Option Record → ℕ
retained_deadline q now none = now + to_natural q.retention
retained_deadline q now (some r) = max (now + to_natural q.retention) r.retain_until

-- What a command decides: to answer only, or to store a record and then answer.
pub data Decision : Type 0 where
  answer : Reply → Decision
  store : Record → List Text → Decision

abbrev pub fresh : Request → ℕ → Option Record → Record
fresh q now o = record {
  fingerprint = q.fingerprint;
  durable_id = q.durable_id;
  owner = q.owner;
  state = pending;
  lease_until = now + to_natural q.lease;
  retain_until = retained_deadline q now o;
  result_ref = [];
}

abbrev pub acquired : Request → ℕ → List Text
acquired q ms = codes "acquired" ∷ q.owner ∷ print ms ∷ codes "reconcile" ∷ []

abbrev pub in_progress : ℕ → List Text
in_progress ms = codes "in_progress" ∷ print ms ∷ []

abbrev pub completed_reply : Text → List Text
completed_reply result = codes "completed" ∷ result ∷ []

abbrev pub conflict : List Text
conflict = codes "conflict" ∷ []

abbrev pub lost : List Text
lost = codes "lost" ∷ []

unfoldable pub decide_read : ℕ → Option Record → Reply
decide_read now none = wire (codes "missing" ∷ [])
decide_read now (some r) =
    if is_completed r
    then wire (completed_reply r.result_ref)
    else if remaining r now == 0
    then wire (codes "recovery_required" ∷ [])
    else wire (in_progress (remaining r now))

unfoldable pub decide_begin : Request → ℕ → Option Record → Decision
decide_begin q now none = store (fresh q now none) (acquired q (to_natural q.lease))
decide_begin q now (some r) =
    if ltb 0 (remaining r now)
    then answer (
        wire (
          if text_eq r.owner q.owner
          then acquired q (remaining r now)
          else in_progress (remaining r now)))
    else if text_eq r.owner q.owner
    then answer (error_reply fresh_owner_required)
    else store (fresh q now (some r)) (acquired q (to_natural q.lease))

abbrev pub extend : Request → ℕ → Record → Record
extend q now r = record r {
  lease_until = now + to_natural q.lease;
  retain_until = retained_deadline q now (some r);
}

abbrev pub finish : Request → ℕ → Record → Record
finish q now r = record r {
  state = completed;
  result_ref = q.result;
  lease_until = 0;
  retain_until = retained_deadline q now (some r);
}

abbrev pub is_owned : Request → ℕ → Record → Bool
is_owned q now r = text_eq r.owner q.owner && not (remaining r now == 0)

unfoldable pub decide_renew : Request → ℕ → Option Record → Decision
decide_renew q now none = answer (wire lost)
decide_renew q now (some r) =
    if is_owned q now r
    then store (extend q now r) (codes "renewed" ∷ print (to_natural q.lease) ∷ [])
    else answer (wire lost)

unfoldable pub decide_complete : Request → ℕ → Option Record → Decision
decide_complete q now none = answer (wire lost)
decide_complete q now (some r) =
    if is_owned q now r
    then store (finish q now r) (completed_reply q.result)
    else answer (wire lost)

-- The commands on a completed record.
unfoldable pub decide_completed : Request → Record → Reply
decide_completed q r = elim q.command [
  | renew ↦ wire lost
  | complete ↦
      if text_eq r.result_ref q.result then wire (completed_reply r.result_ref) else wire conflict
  | _ ↦ wire (completed_reply r.result_ref)
]

abbrev pub is_done : Option Record → Bool
is_done none = false
is_done (some r) = is_completed r

abbrev pub done_reply : Request → Option Record → Reply
done_reply q none = wire lost
done_reply q (some r) = decide_completed q r

unfoldable pub decide : Request → ℕ → Option Record → Decision
decide q now o =
    if is_read q.command
    then answer (decide_read now o)
    else if is_done o
    then answer (done_reply q o)
    else elim q.command [
      | begin ↦ decide_begin q now o
      | renew ↦ decide_renew q now o
      | _ ↦ decide_complete q now o
    ]

-- What GET and the validation find.
pub data Loaded : Type 0 where
  no_record : Loaded
  refused : Code → Loaded
  found : Record → Loaded

abbrev pub validated : Option Record → Loaded
validated none = refused invalid_record
validated (some r) = found r

abbrev pub decoded : Option Decoded → Loaded
decoded none = refused invalid_record
decoded (some d) = validated (validate_record d)

module _ (c : Codec) where
  -- What Redis holds under the key; `stored raw e` is kept up to the time `e`.
  pub data Cell : Type 0 where
    empty : Cell
    stored : c.Raw → ℕ → Cell
    other_type : Cell

  -- The key as a command finds it: an expired value is gone.
  abbrev pub live : ℕ → Cell → Cell
  live now empty = empty
  live now other_type = other_type
  live now (stored raw e) = if ltb e now then empty else stored raw e

  -- GET, the size test and the validation.
  unfoldable pub load : Cell → Loaded
  load empty = no_record
  load other_type = refused wrong_type
  load (stored raw e) =
      if ltb 2048 (c.size raw) then refused invalid_record else decoded (c.decode raw)

  abbrev pub persist_valid : Record → ℕ → List Text → Cell → Option Record → Cell × Reply
  persist_valid r now reply cell none = (cell, error_reply invalid_record)
  persist_valid r now reply cell (some _) =
      if ltb 2048 (c.size (c.encode (to_table r)))
      then (cell, error_reply invalid_record)
      else if not (ltb 0 (r.retain_until - now) && leb (r.retain_until - now) max_retention)
      then (cell, error_reply invalid_ttl)
      else (stored (c.encode (to_table r)) (now + (r.retain_until - now)), wire reply)

  -- `persist`, and the reply behind it.
  unfoldable pub persist : Record → ℕ → List Text → Cell → Cell × Reply
  persist r now reply cell = persist_valid r now reply cell (validate_table (to_table r))

  abbrev pub apply : Decision → ℕ → Cell → Cell × Reply
  apply (answer reply) now cell = (cell, reply)
  apply (store r reply) now cell = persist r now reply cell

  abbrev pub is_same_operation : Request → Record → Bool
  is_same_operation q r = text_eq r.fingerprint q.fingerprint && text_eq r.durable_id q.durable_id

  unfoldable pub run_command : Request → ℕ → Option Record → Cell → Cell × Reply
  run_command q now o cell =
      if ltb max_time (now + to_natural q.retention)
      then (cell, error_reply invalid_time)
      else apply (decide q now o) now cell

  unfoldable pub with_loaded : Request → ℕ → Loaded → Cell → Cell × Reply
  with_loaded q now (refused code) cell = (cell, error_reply code)
  with_loaded q now no_record cell = run_command q now none cell
  with_loaded q now (found r) cell =
      if is_same_operation q r then run_command q now (some r) cell else (cell, wire conflict)

  abbrev pub after_check : Option Code → Request → ℕ → Cell → Cell × Reply
  after_check (some code) q now cell = (cell, error_reply code)
  after_check none q now cell = with_loaded q now (load cell) cell

  -- One run of the script.
  unfoldable pub eval : Request → Time → Cell → Cell × Reply
  eval q t cell = after_check (check_request q) q (to_ms t) (live (to_ms t) cell)

  -- Runs of the script one after another, as Redis orders them.
  unfoldable pub run_all : List (Request × Time) → Cell → Cell × List Reply
  run_all [] cell = (cell, [])
  run_all ((q, t) ∷ es) cell =
      let (cell', reply) = eval q t cell in
      let (cell'', replies) = run_all es cell' in (cell'', reply ∷ replies)
