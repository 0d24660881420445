-- ===== src/L2Gate/Reached.antt =====
-- What holds of an L2 gate (src/cache/l2OperationGate.ts) after any history: from its construction
-- on, and from its closing on.
use lazy_layers.Prelude.{◌≡◌, refl, true, List, [], ◌∷◌, some, arith}
use lazy_layers.L2Gate.{Gate, Options, Effect, construct, run, expire, time_out, settle, close}
use lazy_layers.L2Gate.Invariant.{
  Inv, construct-Inv, run-Inv, expire-Inv, time_out-Inv, settle-Inv, close-Inv,
}
use lazy_layers.L2Gate.Order.{starts-append, starts-refuse_all}
use lazy_layers.L2Gate.History.{
  Event, runs, expires, times_out, settles, closes, step, run_all, starts,
}

step-Inv : (g : Gate) (e : Event) → Inv g → Inv (step g e).0
unfolding step
step-Inv g (runs id op n) = run-Inv id op n g
step-Inv g (expires id) = expire-Inv id g
step-Inv g (times_out id) = time_out-Inv id g
step-Inv g (settles id) = settle-Inv id g
step-Inv g closes = close-Inv g

run_all-Inv : (g : Gate) (es : List Event) → Inv g → Inv (run_all g es).0
unfolding run_all
run_all-Inv g [] v = v
run_all-Inv g (e ∷ es) v = run_all-Inv (step g e).0 es (step-Inv g e v)

-- After any history of a gate that was constructed, its counters are exact and within the limits:
-- `active` and `active_bytes` are those of the calls that run, `queued_bytes` that of the queue, no
-- more calls run than `max_concurrent`, no more wait than `max_queued` and `max_queued_bytes` allow,
-- a call waits only while all places are taken, and none waits once the gate is closed.
pub constructed-Inv :
    (o : Options) (g : Gate) (es : List Event) → construct o ≡ some g → Inv (run_all g es).0
constructed-Inv o g es e = run_all-Inv g es (construct-Inv o e)

-- A closed gate starts nothing and stays closed.
abbrev StaysShut : Gate × List Effect → Type 0
StaysShut (g, fx) = (g.closed ≡ true) × (starts fx ≡ [])

step-StaysShut : (g : Gate) (e : Event) → g.closed ≡ true → StaysShut (step g e)
unfolding step run expire time_out settle close
step-StaysShut g (runs id op n) h = ground arith
step-StaysShut g (expires id) h = ground arith
step-StaysShut g (times_out id) h = ground arith
step-StaysShut g (settles id) h = ground arith
step-StaysShut g closes h = (refl, starts-refuse_all g.queue)

run_all-StaysShut : (g : Gate) (es : List Event) → g.closed ≡ true → StaysShut (run_all g es)
unfolding run_all
run_all-StaysShut g [] h = (h, refl)
run_all-StaysShut g (e ∷ es) h =
    let first = step-StaysShut g e h in
    let rest = run_all-StaysShut (step g e).0 es first.0 in
    (rest.0, cc (starts-append (step g e).1 (run_all (step g e).0 es).1, first.1, rest.1))

-- Once a gate is closed, no history starts a call on it, and it stays closed.
pub closed_starts_nothing :
    (g : Gate) (es : List Event)
    → ((run_all (close g).0 es).0.closed ≡ true) × (starts (run_all (close g).0 es).1 ≡ [])
unfolding close
closed_starts_nothing g es = run_all-StaysShut (close g).0 es refl
