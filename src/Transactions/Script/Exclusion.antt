-- ===== src/Transactions/Script/Exclusion.antt =====
-- Mutual exclusion: while the lease of an owner runs, nobody else is granted anything.
use lazy_layers.Prelude.{
  ℕ, ◌+◌, ◌-◌, ◌≤◌, ◌<◌, ◌≡◌, ◌≢◌, refl, ap, Bool, false, ◌||◌, Option, none, some, List, [], ◌∷◌,
  arith, Text, codes, text_eq, text_eq_iff, to_natural, ◌∙◌, subst,
}
use lazy_layers.Prelude.Decimal.{value-print}
use lazy_layers.Transactions.Record.{Record, IsValid, pending}
use lazy_layers.Transactions.Script.{
  Codec, CodecLaws, Request, Reply, wire, error_reply, Time, to_ms, Cell, live, eval, run_all,
  acquired, conflict, Decision, answer, store, decide, decide_read, decide_begin, decide_renew,
  decide_complete, decide_completed,
}
use lazy_layers.Transactions.Script.Cases.{eval_cases, IsReady, Reads}
use lazy_layers.Transactions.Script.Holding.{
  Holds, IsKept, live_now, stored-Holds, Reads-Holds, load-IsValid, live-IsKept,
}

-- Replies that let the caller go on: acquired, renewed and completed.
abbrev pub grants : Reply → Bool
grants (error_reply code) = false
grants (wire []) = false
grants (wire (w ∷ ws)) =
    text_eq w (codes "acquired") || text_eq w (codes "renewed") || text_eq w (codes "completed")

-- A decision that only answers, and grants nothing.
abbrev IsDenial : Decision → Type 0
IsDenial (answer reply) = grants reply ≡ false
IsDenial (store r reply) = ⊥

decide_denied :
    (q : Request) (now : ℕ) (r : Record)
    → r.state ≡ pending
    → now < r.lease_until
    → q.owner ≢ r.owner
    → IsDenial (decide q now (some r))
unfolding decide decide_read decide_begin decide_renew decide_complete decide_completed text_eq
decide_denied q now r p l o = ground (arith, text_eq_iff r.owner q.owner)

pub wire-injective : {v w : List Text} → wire v ≡ wire w → v ≡ w
wire-injective e = cc

-- Every request comes from another owner, before the time `until`.
abbrev pub FromOthers : Text → ℕ → List (Request × Time) → Type 0
FromOthers owner until [] = Unit
FromOthers owner until ((q, t) ∷ es) =
    (q.owner ≢ owner) × (to_ms t < until) × FromOthers owner until es

abbrev pub AllDenied : List Reply → Type 0
AllDenied [] = Unit
AllDenied (reply ∷ replies) = (grants reply ≡ false) × AllDenied replies

answer_denied :
    (d : Decision) (reply : Reply) → IsDenial d → d ≡ answer reply → grants reply ≡ false
answer_denied (answer reply') reply h e = ground arith
answer_denied (store r w) reply h e = absurd h

store_denied : (d : Decision) (r : Record) (w : List Text) → IsDenial d → d ≡ store r w → ⊥
store_denied (answer reply') r w h e = cc
store_denied (store r' w') r w h e = h

lease-lt-retain : (r : Record) → IsValid r → r.state ≡ pending → r.lease_until ≤ r.retain_until
lease-lt-retain r v p = ground (arith, v.timed)

conflict_denied : grants (wire conflict) ≡ false
unfolding text_eq
conflict_denied = refl

-- Which records an acquisition is about.
pub record IsAcquired (q : Request) (now ms : ℕ) (r : Record) : Type 0 where
  pub acquired_pending : r.state ≡ pending
  pub acquired_owner : r.owner ≡ q.owner
  pub acquired_lease : r.lease_until ≡ now + ms

no_answer-acquired :
    (q : Request) (now ms : ℕ) → decide q now none ≡ answer (wire (acquired q ms)) → ⊥
unfolding decide decide_read decide_begin decide_renew decide_complete
no_answer-acquired q now ms e = ground arith

answer-acquired :
    (q : Request) (now ms : ℕ) (o : Option Record)
    → decide q now o ≡ answer (wire (acquired q ms))
    → (r : Record) × (o ≡ some r) × IsAcquired q now ms r
unfolding decide decide_read decide_begin decide_renew decide_complete decide_completed
answer-acquired q now ms none e = absurd (no_answer-acquired q now ms e)
answer-acquired q now ms (some r) e = (
  r,
  refl,
  ground (arith, text_eq_iff r.owner q.owner, value-print ms, value-print (r.lease_until - now)),
)

store_acquired :
    (q : Request) (now ms : ℕ) (o : Option Record) (r : Record)
    → decide q now o ≡ store r (acquired q ms)
    → IsAcquired q now ms r
unfolding decide decide_begin decide_renew decide_complete
store_acquired q now ms none r e = ground (arith, value-print ms, value-print (to_natural q.lease))
store_acquired q now ms (some s) r e =
    ground (arith, value-print ms, value-print (to_natural q.lease))

module _ (c : Codec) where
  -- A pending record of some owner.
  pub record IsPending (cell : Cell c) (r : Record) : Type 0 where
    pub holds : Holds c cell r
    pub is_pending : r.state ≡ pending

  -- One request of another owner, while the lease runs.
  eval_denied :
      (q : Request) (t : Time) (cell : Cell c) (r : Record)
      → IsPending cell r
      → q.owner ≢ r.owner
      → to_ms t < r.lease_until
      → ((eval c q t cell).0 ≡ cell) × (grants (eval c q t cell).1 ≡ false)
  eval_denied q t cell r h o l =
      let valid = load-IsValid c cell h.holds.reads in
      let there : live c (to_ms t) cell ≡ cell =
        live_now c cell (to_ms t) h.holds (omega (arith, lease-lt-retain r valid h.is_pending)) in
      let denied : (o' : Option Record)
          → IsReady c q (to_ms t) (live c (to_ms t) cell) o'
          → IsDenial (decide q (to_ms t) o') =
        λ o' ready.
          rw (Reads-Holds c cell r o' h.holds (rw there at ready.reads))
            (decide_denied q (to_ms t) r h.is_pending l o) in
      eval_cases c (λ res. (res.0 ≡ cell) × (grants res.1 ≡ false)) q t cell (λ code. (there, refl))
        (λ r' reads differs. (there, conflict_denied))
        (λ o' reply ready e. (there, answer_denied _ reply (denied o' ready) e))
        (λ o' r' reply ready e v k. absurd (store_denied _ r' reply (denied o' ready) e))

  pub run_all_denied :
      (es : List (Request × Time)) (cell : Cell c) (r : Record)
      → IsPending cell r
      → FromOthers r.owner r.lease_until es
      → ((run_all c es cell).0 ≡ cell) × AllDenied (run_all c es cell).1
  unfolding run_all
  run_all_denied [] cell r h o = (refl, tt)
  run_all_denied ((q, t) ∷ es) cell r h o =
      let (same, denied) = eval_denied q t cell r h o.0 o.1 in
      let (later, all) = run_all_denied es cell r h o.2 in rw same (later, (denied, all))

  -- The cell after an acquisition.
  record Acquires (cell : Cell c) (q : Request) (now ms : ℕ) : Type 0 where
    holder : Record
    holding : IsPending cell holder
    acquisition : IsAcquired q now ms holder

  eval-acquired :
      CodecLaws c
      → (q : Request) (t : Time) (cell : Cell c) (ms : ℕ) → IsKept c cell
      → (eval c q t cell).1 ≡ wire (acquired q ms)
      → Acquires (eval c q t cell).0 q (to_ms t) ms
  eval-acquired laws q t cell ms k =
      eval_cases c (λ res. res.1 ≡ wire (acquired q ms) → Acquires res.0 q (to_ms t) ms) q t cell
        (λ code e. cc) (λ r reads differs e. absurd (ground arith))
        (λ o reply ready d e.
          let (r, is_r, acq) = answer-acquired q (to_ms t) ms o (d ∙ ap answer e) in
          let k' = live-IsKept c (to_ms t) cell k in
          record {
            holder = r;
            holding = record {
              holds = k'.holds r (subst (Reads c (live c (to_ms t) cell)) is_r ready.reads);
              is_pending = acq.acquired_pending;
            };
            acquisition = acq;
          })
        (λ o r reply ready d v kept e.
          let acq = store_acquired q (to_ms t) ms o r (d ∙ ap (store r) (wire-injective e)) in
          record {
            holder = r;
            holding = record { holds = stored-Holds c laws r v; is_pending = acq.acquired_pending };
            acquisition = acq;
          })

  -- Mutual exclusion, if the codec meets its laws and Redis keeps what the key holds up to its
  -- retention deadline. When a run of the script answers an owner that it has acquired the operation
  -- for `ms` milliseconds, then over any later runs for other owners within that time the record
  -- stays as it is, and none of them is told that it has acquired, renewed or completed anything.
  pub exclusive :
      CodecLaws c
      → (q : Request) (t : Time) (cell : Cell c) (ms : ℕ) (es : List (Request × Time))
      → IsKept c cell
      → (eval c q t cell).1 ≡ wire (acquired q ms)
      → FromOthers q.owner (to_ms t + ms) es
      → let cell' = (eval c q t cell).0 in
        ((run_all c es cell').0 ≡ cell') × AllDenied (run_all c es cell').1
  exclusive laws q t cell ms es k e others =
      let a = eval-acquired laws q t cell ms k e in
      run_all_denied es (eval c q t cell).0 a.holder a.holding
        (rw (a.acquisition.acquired_owner, a.acquisition.acquired_lease) others)
