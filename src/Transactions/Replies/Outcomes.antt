-- ===== src/Transactions/Replies/Outcomes.antt =====
-- src/transactions/operationStore.ts: `complete` and `readStatus` against the script. Every reply of
-- the script, other than an error, is decoded, and says what the record under the key says.
use lazy_layers.Prelude.{
  ℕ, ◌≡◌, refl, ◌&&◌, Option, none, some, List, arith, ltb, if◌then◌else◌, Text, text_eq,
  text_eq_iff, text_eq_refl,
}
use lazy_layers.Transactions.Record.{Record}
use lazy_layers.Transactions.Script.{
  Codec, Request, Reply, wire, Time, to_ms, Cell, live, Loaded, no_record, refused, found, load,
  eval, is_same_operation, is_completed, remaining, decide, decide_read, decide_begin, decide_renew,
  decide_complete, decide_completed, Decision, answer, store, max_lease, is_owned,
}
use lazy_layers.Transactions.Script
use lazy_layers.Transactions.Replies.{
  Identity, Lease, Status, CompleteResult, Durations, complete_parts, status_parts, decode_complete,
  decode_status, complete_request, status_request,
}
use lazy_layers.Transactions.Replies.Agreement.{
  agrees, Agrees, IsBounded, IsWithin, IsFit, meaning, to_wire, decimal-print, completed_reference,
}

-- What `complete` means: the owner of a record that runs stores the result, and a record that has
-- the result confirms it to everyone.
pub complete_result : Text → Text → ℕ → Option Record → CompleteResult
complete_result owner result now none = CompleteResult.lost
complete_result owner result now (some r) =
    if is_completed r
    then if text_eq r.result_ref result
      then CompleteResult.completed result
      else CompleteResult.conflict
    else if ltb 0 (remaining r now) && text_eq r.owner owner
    then CompleteResult.completed result
    else CompleteResult.lost

complete_answer :
    (d : Durations) (lease : Lease) (result : Text) (now : ℕ) (o : Option Record) (ws : List Text)
    → IsFit d.lease_ms now o
    → decide (complete_request d lease result) now o ≡ answer (wire ws)
    → complete_parts result ws ≡ some (complete_result lease.owner result now o)
unfolding decide decide_complete decide_completed complete_request complete_parts complete_result
    text_eq
complete_answer d lease result now none ws fit e = ground arith
complete_answer d lease result now (some r) ws fit e =
    ground (arith, text_eq_iff r.result_ref result, text_eq_refl result)

complete_stored :
    (d : Durations) (lease : Lease) (result : Text) (now : ℕ) (o : Option Record) (s : Record)
    (ws : List Text)
    → decide (complete_request d lease result) now o ≡ store s ws
    → complete_parts result ws ≡ some (complete_result lease.owner result now o)
unfolding decide decide_complete complete_request complete_parts complete_result text_eq
complete_stored d lease result now none s ws e = ground arith
complete_stored d lease result now (some r) s ws e = ground (arith, text_eq_refl result)

complete_conflict :
    (result : Text) → complete_parts result Script.conflict ≡ some CompleteResult.conflict
unfolding complete_parts text_eq
complete_conflict result = refl

-- Every reply of the script to a `complete` of the store, other than an error, is decoded, and the
-- result is what the record under the key says, if no record under the key runs for longer than the
-- lease of the store.
pub complete-Agrees :
    (c : Codec) (d : Durations) (lease : Lease) (result : Text) (t : Time) (cell : Cell c)
    (ws : List Text)
    → IsWithin d.lease_ms (to_ms t) (load c (live c (to_ms t) cell))
    → (eval c (complete_request d lease result) t cell).1 ≡ wire ws
    → Agrees CompleteResult (decode_complete result (to_wire ws)) (
        meaning c
          (complete_request d lease result)
          (complete_result lease.owner result (to_ms t))
          CompleteResult.conflict
          (load c (live c (to_ms t) cell)))
unfolding decode_complete
complete-Agrees c d lease result t cell ws w =
    agrees c (complete_request d lease result) d.lease_ms (complete_parts result)
      (complete_result lease.owner result (to_ms t)) CompleteResult.conflict t cell
      (complete_conflict result) (complete_answer d lease result (to_ms t))
      (complete_stored d lease result (to_ms t)) w ws

-- What `readStatus` means.
pub status_result : ℕ → Option Record → Status
status_result now none = Status.missing
status_result now (some r) =
    if is_completed r
    then Status.completed r.result_ref
    else if ltb 0 (remaining r now)
    then Status.in_progress (remaining r now)
    else Status.recovery_required

status_answer :
    (d : Durations) (id : Identity) (now : ℕ) (o : Option Record) (ws : List Text)
    → IsBounded d
    → IsFit d.lease_ms now o
    → decide (status_request d id) now o ≡ answer (wire ws)
    → status_parts d.lease_ms ws ≡ some (status_result now o)
unfolding decide decide_read status_request status_parts status_result text_eq
status_answer d id now none ws b fit e = ground arith
status_answer d id now (some r) ws b fit e =
    ground (arith, completed_reference r fit.0, decimal-print (remaining r now) d.lease_ms)

status_stored :
    (d : Durations) (id : Identity) (now : ℕ) (o : Option Record) (s : Record) (ws : List Text)
    → decide (status_request d id) now o ≡ store s ws
    → status_parts d.lease_ms ws ≡ some (status_result now o)
unfolding decide status_request
status_stored d id now o s ws e = cc

status_conflict : (d : Durations) → status_parts d.lease_ms Script.conflict ≡ some Status.conflict
unfolding status_parts text_eq
status_conflict d = refl

-- Every reply of the script to a `readStatus` of the store, other than an error, is decoded, and the
-- result is what the record under the key says, if the lease of the store is within the bounds of
-- the protocol and no record under the key runs for longer.
pub status-Agrees :
    (c : Codec) (d : Durations) (id : Identity) (t : Time) (cell : Cell c) (ws : List Text)
    → IsBounded d
    → IsWithin d.lease_ms (to_ms t) (load c (live c (to_ms t) cell))
    → (eval c (status_request d id) t cell).1 ≡ wire ws
    → Agrees Status (decode_status d.lease_ms (to_wire ws)) (
        meaning c
          (status_request d id)
          (status_result (to_ms t))
          Status.conflict
          (load c (live c (to_ms t) cell)))
unfolding decode_status
status-Agrees c d id t cell ws b w =
    agrees c (status_request d id) d.lease_ms (status_parts d.lease_ms) (status_result (to_ms t))
      Status.conflict t cell (status_conflict d)
      (λ o v fit e. status_answer d id (to_ms t) o v b fit e) (status_stored d id (to_ms t)) w ws
