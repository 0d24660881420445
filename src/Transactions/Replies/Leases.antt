-- ===== src/Transactions/Replies/Leases.antt =====
-- src/transactions/operationStore.ts: `begin` and `renew` against the script. Every reply of the
-- script, other than an error, is decoded, and says what the record under the key says.
use lazy_layers.Prelude.{
  ℕ, ◌≡◌, refl, ◌&&◌, not, Option, none, some, List, arith, ltb, if◌then◌else◌, Text, text_eq,
  text_eq_iff, text_eq_refl, sym, ap, ◌∙◌,
}
use lazy_layers.Transactions.Record.{Record}
use lazy_layers.Transactions.Script.{
  Codec, Request, Reply, wire, Time, to_ms, Cell, live, Loaded, no_record, refused, found, load,
  eval, is_same_operation, is_completed, remaining, decide, decide_read, decide_begin, decide_renew,
  decide_complete, decide_completed, Decision, answer, store, max_lease, is_owned,
}
use lazy_layers.Transactions.Script
use lazy_layers.Transactions.Replies.{
  Identity, Lease, BeginResult, RenewResult, Durations, begin_parts, renew_parts, decode_begin,
  decode_renew, begin_request, renew_request,
}
use lazy_layers.Transactions.Replies.Agreement.{
  agrees, Agrees, IsBounded, IsWithin, IsFit, meaning, to_wire, decimal-print, completed_reference,
}

-- What `begin` means, from what is under the key.
pub begin_result : Durations → Identity → Text → ℕ → Option Record → BeginResult
begin_result d identity owner now none =
    BeginResult.acquired (record { identity = identity; owner = owner; remaining_ms = d.lease_ms })
begin_result d identity owner now (some r) =
    if is_completed r
    then BeginResult.completed r.result_ref
    else if ltb 0 (remaining r now)
    then if text_eq r.owner owner
      then BeginResult.acquired
          (record { identity = identity; owner = owner; remaining_ms = remaining r now })
      else BeginResult.in_progress (remaining r now)
    else BeginResult.acquired
        (record { identity = identity; owner = owner; remaining_ms = d.lease_ms })

module _ (d : Durations) (id : Identity) (owner : Text) (now : ℕ) (b : IsBounded d) where
  begin_answer :
      (o : Option Record) (ws : List Text)
      → IsFit d.lease_ms now o
      → decide (begin_request d id owner) now o ≡ answer (wire ws)
      → begin_parts id owner d.lease_ms ws ≡ some (begin_result d id owner now o)
  unfolding decide decide_begin decide_completed begin_request begin_parts begin_result text_eq
  begin_answer none ws fit e = cc
  begin_answer (some r) ws fit e = ground (
    arith,
    completed_reference r fit.0,
    text_eq_iff r.owner owner,
    text_eq_refl owner,
    decimal-print (remaining r now) d.lease_ms,
  )

  begin_full :
      begin_parts id owner d.lease_ms (Script.acquired (begin_request d id owner) d.lease_ms)
      ≡ some (
          BeginResult.acquired (record { identity = id; owner = owner; remaining_ms = d.lease_ms }))
  unfolding begin_request begin_parts text_eq
  begin_full = ground (arith, text_eq_refl owner, decimal-print d.lease_ms d.lease_ms)

  begin_store :
      (o : Option Record) (s : Record) (ws : List Text)
      → decide (begin_request d id owner) now o ≡ store s ws
      → (ws ≡ Script.acquired (begin_request d id owner) d.lease_ms)
        × (begin_result d id owner now o
            ≡ BeginResult.acquired
                (record { identity = id; owner = owner; remaining_ms = d.lease_ms }))
  unfolding decide decide_begin begin_request begin_result
  begin_store none s ws e = ground arith
  begin_store (some r) s ws e = ground arith

  begin_stored :
      (o : Option Record) (s : Record) (ws : List Text)
      → decide (begin_request d id owner) now o ≡ store s ws
      → begin_parts id owner d.lease_ms ws ≡ some (begin_result d id owner now o)
  begin_stored o s ws e =
      let told = begin_store o s ws e in
      ap (begin_parts id owner d.lease_ms) told.0 ∙ begin_full ∙ ap some (sym told.1)

begin_conflict :
    (d : Durations) (id : Identity) (owner : Text)
    → begin_parts id owner d.lease_ms Script.conflict ≡ some BeginResult.conflict
unfolding begin_parts text_eq
begin_conflict d id owner = refl

-- Every reply of the script to a `begin` of the store, other than an error, is decoded, and the
-- result is what the record under the key says, if the lease of the store is within the bounds of
-- the protocol and no record under the key runs for longer.
pub begin-Agrees :
    (c : Codec) (d : Durations) (id : Identity) (owner : Text) (t : Time) (cell : Cell c)
    (ws : List Text)
    → IsBounded d
    → IsWithin d.lease_ms (to_ms t) (load c (live c (to_ms t) cell))
    → (eval c (begin_request d id owner) t cell).1 ≡ wire ws
    → Agrees BeginResult (decode_begin id owner d.lease_ms (to_wire ws)) (
        meaning c
          (begin_request d id owner)
          (begin_result d id owner (to_ms t))
          BeginResult.conflict
          (load c (live c (to_ms t) cell)))
unfolding decode_begin
begin-Agrees c d id owner t cell ws b w =
    agrees c (begin_request d id owner) d.lease_ms (begin_parts id owner d.lease_ms)
      (begin_result d id owner (to_ms t)) BeginResult.conflict t cell (begin_conflict d id owner)
      (begin_answer d id owner (to_ms t) b) (begin_stored d id owner (to_ms t) b) w ws

-- What `renew` means: the owner of a record that runs has the full lease again.
pub renew_result : Durations → Text → ℕ → Option Record → RenewResult
renew_result d owner now none = RenewResult.lost
renew_result d owner now (some r) =
    if not (is_completed r) && ltb 0 (remaining r now) && text_eq r.owner owner
    then RenewResult.renewed d.lease_ms
    else RenewResult.lost

renew_answer :
    (d : Durations) (lease : Lease) (now : ℕ) (o : Option Record) (ws : List Text)
    → IsFit d.lease_ms now o
    → decide (renew_request d lease) now o ≡ answer (wire ws)
    → renew_parts d.lease_ms ws ≡ some (renew_result d lease.owner now o)
unfolding decide decide_renew decide_completed renew_request renew_parts renew_result text_eq
renew_answer d lease now none ws fit e = ground arith
renew_answer d lease now (some r) ws fit e = ground arith

renew_stored :
    (d : Durations) (lease : Lease) (now : ℕ) (o : Option Record) (s : Record) (ws : List Text)
    → IsBounded d
    → decide (renew_request d lease) now o ≡ store s ws
    → renew_parts d.lease_ms ws ≡ some (renew_result d lease.owner now o)
unfolding decide decide_renew renew_request renew_parts renew_result text_eq
renew_stored d lease now none s ws b e = ground arith
renew_stored d lease now (some r) s ws b e = ground (arith, decimal-print d.lease_ms d.lease_ms)

renew_conflict :
    (d : Durations) → renew_parts d.lease_ms Script.conflict ≡ some RenewResult.conflict
unfolding renew_parts text_eq
renew_conflict d = refl

-- Every reply of the script to a `renew` of the store, other than an error, is decoded, and the
-- result is what the record under the key says, if the lease of the store is within the bounds of
-- the protocol and no record under the key runs for longer.
pub renew-Agrees :
    (c : Codec) (d : Durations) (lease : Lease) (t : Time) (cell : Cell c) (ws : List Text)
    → IsBounded d
    → IsWithin d.lease_ms (to_ms t) (load c (live c (to_ms t) cell))
    → (eval c (renew_request d lease) t cell).1 ≡ wire ws
    → Agrees RenewResult (decode_renew d.lease_ms (to_wire ws)) (
        meaning c
          (renew_request d lease)
          (renew_result d lease.owner (to_ms t))
          RenewResult.conflict
          (load c (live c (to_ms t) cell)))
unfolding decode_renew
renew-Agrees c d lease t cell ws b w =
    agrees c (renew_request d lease) d.lease_ms (renew_parts d.lease_ms)
      (renew_result d lease.owner (to_ms t)) RenewResult.conflict t cell (renew_conflict d)
      (renew_answer d lease (to_ms t)) (λ o s v e. renew_stored d lease (to_ms t) o s v b e) w ws
