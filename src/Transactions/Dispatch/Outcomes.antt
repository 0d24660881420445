-- ===== src/Transactions/Dispatch/Outcomes.antt =====
-- What the outcome of a command says of the key.
use lazy_layers.Prelude.{
  ◌≡◌, refl, Bool, true, false, Option, none, some, Text, ◌⊎◌, inl, inr, sym, ◌∙◌, arith,
}
use lazy_layers.Transactions.Script.{
  Codec, Request, Reply, wire, error_reply, Time, to_ms, Cell, live, load, eval,
}
use lazy_layers.Transactions.Script.Exclusion.{grants}
use lazy_layers.Transactions.Script.Finality.{writes_only_on_grant}
use lazy_layers.Transactions.Replies.{
  Wire, Identity, BeginResult, Durations, begin_request, decode_begin,
}
use lazy_layers.Transactions.Replies.Agreement.{to_wire, Agrees, meaning, IsBounded, IsWithin}
use lazy_layers.Transactions.Replies.Leases.{begin-Agrees, begin_result}
use lazy_layers.Transactions.Dispatch.{
  Attempt, refused_by_gate, too_late, not_ready, unsent, replied, reply_lost, Outcome, result,
  protocol_error, configuration_error, unavailable_error, unknown_error, heard, classify,
  is_dispatched, attempt_run, conclude, decoded_outcome, dispatch, configuration, unavailable,
  unknown, other,
}

-- Errors after which nothing has been written.
abbrev pub is_definite : {A : Type 0} → Outcome A → Bool
is_definite (result a) = false
is_definite protocol_error = true
is_definite configuration_error = false
is_definite unavailable_error = true
is_definite unknown_error = false

module _ (c : Codec) {A : Type 0} (decode : Wire → Option A) (q : Request) (cell : Cell c) where
  -- The key is as it was, but that Redis may have dropped what had expired.
  abbrev pub Untouched : Cell c → Type 0
  Untouched cell' = (cell' ≡ cell) ⊎ ((t : Time) × (cell' ≡ live c (to_ms t) cell))

  decoded-definite : (o : Option A) → is_definite (decoded_outcome c decode true o) ≡ true → ⊥
  unfolding classify
  decoded-definite none h = cc
  decoded-definite (some a) h = cc

  definite_reply :
      (reply : Reply)
      → is_definite (conclude c decode true (heard reply)) ≡ true
      → grants reply ≡ false
  definite_reply (error_reply code) h = refl
  definite_reply (wire ws) h = absurd (decoded-definite (decode (to_wire ws)) h)

  -- After OperationProtocolError or OperationUnavailableError the key is as it was before the
  -- command, but that Redis may have dropped what had expired, whatever the gate, the transport and
  -- the network did.
  pub definite_errors_write_nothing :
      (attempt : Attempt)
      → is_definite (dispatch c decode q attempt cell).1 ≡ true
      → Untouched (dispatch c decode q attempt cell).0
  unfolding dispatch attempt_run classify is_dispatched
  definite_errors_write_nothing refused_by_gate h = inl refl
  definite_errors_write_nothing too_late h = inl refl
  definite_errors_write_nothing not_ready h = inl refl
  definite_errors_write_nothing (unsent e) h = inl refl
  definite_errors_write_nothing (replied t) h =
      inr (t, writes_only_on_grant c q t cell (inl (definite_reply (eval c q t cell).1 h)))
  definite_errors_write_nothing (reply_lost t configuration) h = cc
  definite_errors_write_nothing (reply_lost t unavailable) h = cc
  definite_errors_write_nothing (reply_lost t unknown) h = cc
  definite_errors_write_nothing (reply_lost t other) h = cc

-- What a `begin` reports when the reply of the script arrives: the protocol error, or the result that
-- the record under the key means.
abbrev pub IsTold : Option BeginResult → Outcome BeginResult → Type 0
IsTold meant (result r) = meant ≡ some r
IsTold meant protocol_error = Unit
IsTold meant configuration_error = ⊥
IsTold meant unavailable_error = ⊥
IsTold meant unknown_error = ⊥

module _ (c : Codec) (d : Durations) (id : Identity) (owner : Text) (t : Time) (cell : Cell c)
    (b : IsBounded d) (w : IsWithin d.lease_ms (to_ms t) (load c (live c (to_ms t) cell))) where
  agreed-IsTold :
      (o m : Option BeginResult)
      → Agrees BeginResult o m
      → IsTold m (decoded_outcome c (decode_begin id owner d.lease_ms) true o)
  unfolding classify
  agreed-IsTold none m a = absurd (ground (arith, a.is_read))
  agreed-IsTold (some r) m a = a.is_meant ∙ sym a.is_read

  reply-IsTold :
      (reply : Reply)
      → (eval c (begin_request d id owner) t cell).1 ≡ reply
      → IsTold
          (meaning c
            (begin_request d id owner)
            (begin_result d id owner (to_ms t))
            BeginResult.conflict
            (load c (live c (to_ms t) cell)))
          (conclude c (decode_begin id owner d.lease_ms) true (heard reply))
  unfolding classify
  reply-IsTold (error_reply code) e = tt
  reply-IsTold (wire ws) e =
      agreed-IsTold (decode_begin id owner d.lease_ms (to_wire ws)) _
        (begin-Agrees c d id owner t cell ws b w e)

-- When the reply of the script to a `begin` arrives, the outcome is never unknown: the caller hears
-- the protocol error, or the result that the record under the key means, if the lease of the store is
-- within the bounds of the protocol and no record under the key runs for longer.
pub replied_begin-IsTold :
    (c : Codec) (d : Durations) (id : Identity) (owner : Text) (t : Time) (cell : Cell c)
    → IsBounded d
    → IsWithin d.lease_ms (to_ms t) (load c (live c (to_ms t) cell))
    → IsTold
        (meaning c
          (begin_request d id owner)
          (begin_result d id owner (to_ms t))
          BeginResult.conflict
          (load c (live c (to_ms t) cell)))
        (dispatch c
          (decode_begin id owner d.lease_ms)
          (begin_request d id owner)
          (replied t)
          cell).1
unfolding dispatch attempt_run is_dispatched
replied_begin-IsTold c d id owner t cell b w =
    reply-IsTold c d id owner t cell b w (eval c (begin_request d id owner) t cell).1 refl
