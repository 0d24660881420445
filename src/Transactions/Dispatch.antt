-- ===== src/Transactions/Dispatch.antt =====
-- `dispatch` of src/transactions/operationStore.ts: how a command reaches the script, and what the
-- caller hears. What the gate, the transport and the network do to one command is an Attempt; the key
-- in Redis is the cell. An error that the script replies carries its code, by which `protocolError`
-- knows it; an error of the transport itself does not look like one.
pub mod Outcomes
mod Tests
use lazy_layers.Prelude.{◌≡◌, Bool, true, false, Option, none, some, List, Text, if◌then◌else◌}
use lazy_layers.Transactions.Script.{Codec, Request, Reply, wire, error_reply, Time, Cell, eval}
use lazy_layers.Transactions.Replies.{Wire}
use lazy_layers.Transactions.Replies.Agreement.{to_wire}

-- The errors of the transport, by their class; `other` has any other class, also
-- OperationDispatchTimeoutError and InvalidReplyError.
pub data Failure : Type 0 where
  configuration unavailable unknown other : Failure

pub data Attempt : Type 0 where
  refused_by_gate : Attempt
  too_late : Attempt
  not_ready : Attempt
  unsent : Failure → Attempt
  replied : Time → Attempt
  reply_lost : Time → Failure → Attempt

-- The flag `dispatched` when the outcome is known.
unfoldable pub is_dispatched : Attempt → Bool
is_dispatched refused_by_gate = false
is_dispatched too_late = false
is_dispatched not_ready = false
is_dispatched (unsent e) = true
is_dispatched (replied t) = true
is_dispatched (reply_lost t e) = true

pub data Thrown : Type 0 where
  protocol : Thrown
  failure : Failure → Thrown

-- What the caller hears: a result, or OperationProtocolError, OperationConfigurationError,
-- OperationUnavailableError or OperationUnknownError.
pub data Outcome (A : Type 0) : Type 0 where
  result : A → Outcome A
  protocol_error configuration_error unavailable_error unknown_error : Outcome A

-- The `catch` clause.
unfoldable pub classify : {A : Type 0} → Bool → Thrown → Outcome A
classify dispatched protocol = protocol_error
classify dispatched (failure configuration) = configuration_error
classify dispatched (failure unavailable) = if dispatched then unknown_error else unavailable_error
classify dispatched (failure unknown) = if dispatched then unknown_error else unavailable_error
classify dispatched (failure other) = if dispatched then unknown_error else unavailable_error

pub data Heard : Type 0 where
  hears : Wire → Heard
  throws : Thrown → Heard

abbrev pub heard : Reply → Heard
heard (wire ws) = hears (to_wire ws)
heard (error_reply code) = throws protocol

module _ (c : Codec) where
  -- The `await` of the gate: what happens to the key, and what comes back.
  unfoldable pub attempt_run : Request → Attempt → Cell c → Cell c × Heard
  attempt_run q refused_by_gate cell = (cell, throws (failure unavailable))
  attempt_run q too_late cell = (cell, throws (failure unavailable))
  attempt_run q not_ready cell = (cell, throws (failure unavailable))
  attempt_run q (unsent e) cell = (cell, throws (failure e))
  attempt_run q (replied t) cell = let (cell', reply) = eval c q t cell in (cell', heard reply)
  attempt_run q (reply_lost t e) cell = ((eval c q t cell).0, throws (failure e))

  module _ {A : Type 0} (decode : Wire → Option A) where
    abbrev pub decoded_outcome : Bool → Option A → Outcome A
    decoded_outcome dispatched (some a) = result a
    decoded_outcome dispatched none = classify dispatched (failure other)

    abbrev pub conclude : Bool → Heard → Outcome A
    conclude dispatched (hears w) = decoded_outcome dispatched (decode w)
    conclude dispatched (throws e) = classify dispatched e

    unfoldable pub dispatch : Request → Attempt → Cell c → Cell c × Outcome A
    dispatch q attempt cell =
        let (cell', h) = attempt_run q attempt cell in (cell', conclude (is_dispatched attempt) h)
