-- ===== src/Transactions/Script/Renewal.antt =====
-- Mutual exclusion after a renewal (src/transactions/scripts.ts): an owner that has renewed its lease
-- is as alone as one that has acquired it.
use lazy_layers.Prelude.{
  ℕ, ◌+◌, ◌≡◌, ap, ◌∙◌, Option, none, some, List, [], ◌∷◌, arith, Text, codes, text_eq_iff,
  to_natural,
}
use lazy_layers.Prelude.Decimal.{print, value-print}
use lazy_layers.Transactions.Record.{Record}
use lazy_layers.Transactions.Script.{
  Codec, CodecLaws, Request, wire, Time, to_ms, Cell, eval, run_all, answer, store, decide,
  decide_read, decide_begin, decide_renew, decide_complete, decide_completed,
}
use lazy_layers.Transactions.Script.Cases.{eval_cases}
use lazy_layers.Transactions.Script.Holding.{stored-Holds}
use lazy_layers.Transactions.Script.Exclusion.{
  IsAcquired, IsPending, FromOthers, AllDenied, run_all_denied, wire-injective,
}

abbrev pub renewed_reply : ℕ → List Text
renewed_reply ms = codes "renewed" ∷ print ms ∷ []

no_answer-renewed :
    (q : Request) (now ms : ℕ) (o : Option Record)
    → decide q now o ≡ answer (wire (renewed_reply ms))
    → ⊥
unfolding decide decide_read decide_begin decide_renew decide_complete decide_completed
no_answer-renewed q now ms none e = ground arith
no_answer-renewed q now ms (some r) e = ground arith

store_renewed :
    (q : Request) (now ms : ℕ) (o : Option Record) (r : Record)
    → decide q now o ≡ store r (renewed_reply ms)
    → IsAcquired q now ms r
unfolding decide decide_begin decide_renew decide_complete
store_renewed q now ms none r e = absurd (ground arith)
store_renewed q now ms (some s) r e =
    ground (arith, text_eq_iff s.owner q.owner, value-print ms, value-print (to_natural q.lease))

module _ (c : Codec) where
  record Renews (cell : Cell c) (q : Request) (now ms : ℕ) : Type 0 where
    holder : Record
    holding : IsPending c cell holder
    renewal : IsAcquired q now ms holder

  eval-Renews :
      CodecLaws c
      → (q : Request) (t : Time) (cell : Cell c) (ms : ℕ)
      → (eval c q t cell).1 ≡ wire (renewed_reply ms)
      → Renews (eval c q t cell).0 q (to_ms t) ms
  eval-Renews laws q t cell ms =
      eval_cases c (λ res. res.1 ≡ wire (renewed_reply ms) → Renews res.0 q (to_ms t) ms) q t cell
        (λ code e. cc) (λ r reads differs e. absurd (ground arith))
        (λ o reply ready d e. absurd (no_answer-renewed q (to_ms t) ms o (d ∙ ap answer e)))
        (λ o r reply ready d v kept e.
          let re = store_renewed q (to_ms t) ms o r (d ∙ ap (store r) (wire-injective e)) in
          record {
            holder = r;
            holding = record { holds = stored-Holds c laws r v; is_pending = re.acquired_pending };
            renewal = re;
          })

  -- When a run of the script answers an owner that it has renewed its lease to `ms` milliseconds, then
  -- over any later runs for other owners within that time the record stays as it is, and none of them
  -- is told that it has acquired, renewed or completed anything.
  pub exclusive_renewed :
      CodecLaws c
      → (q : Request) (t : Time) (cell : Cell c) (ms : ℕ) (es : List (Request × Time))
      → (eval c q t cell).1 ≡ wire (renewed_reply ms)
      → FromOthers q.owner (to_ms t + ms) es
      → let cell' = (eval c q t cell).0 in
        ((run_all c es cell').0 ≡ cell') × AllDenied (run_all c es cell').1
  exclusive_renewed laws q t cell ms es e others =
      let a = eval-Renews laws q t cell ms e in
      run_all_denied c es (eval c q t cell).0 a.holder a.holding
        (rw (a.renewal.acquired_owner, a.renewal.acquired_lease) others)
