-- ===== src/Transactions/Gate/History.antt =====
-- Histories of the operation gate: its invariant over them, and the answers that calls get.
use lazy_layers.Prelude.{
  ℕ, ◌+◌, ◌-◌, ◌≡◌, refl, Bool, List, [], ◌∷◌, ◌++◌, arith, Option, none, some, sum_by, take_out,
  take_out-AddsUp, AddsUp, sum_by-append, Number, if◌then◌else◌,
}
use lazy_layers.Transactions.Gate.{
  Gate, Waiter, Running, Options, Effect, started, refused, late, settled, construct, run, abort,
  expire, time_out, settle, settle_found, close, refuse_all, pump_loop, drop_waiter, start,
}
use lazy_layers.Transactions.Gate.Invariant.{
  Inv, construct-Inv, run-Inv, abort-Inv, expire-Inv, time_out-Inv, settle-Inv, close-Inv,
}

pub data Event : Type 0 where
  runs : ℕ → ℕ → Option Number → Option Number → Bool → Event
  aborts expires times_out : ℕ → Event
  settles : (ℕ → ℕ) → ℕ → Event
  closes : Event

unfoldable pub step : Gate → Event → Gate × List Effect
step g (runs now id bytes deadline is_aborted) = run now id bytes deadline is_aborted g
step g (aborts id) = abort id g
step g (expires id) = expire id g
step g (times_out id) = time_out id g
step g (settles clock id) = settle clock id g
step g closes = close g

unfoldable pub dispatch_all : Gate → List Event → Gate × List Effect
dispatch_all g [] = (g, [])
dispatch_all g (e ∷ es) =
    let (g', fx) = step g e in let (g'', later) = dispatch_all g' es in (g'', fx ++ later)

step-Inv : (g : Gate) (e : Event) → Inv g → Inv (step g e).0
unfolding step
step-Inv g (runs now id bytes deadline is_aborted) v = run-Inv now id bytes deadline is_aborted g v
step-Inv g (aborts id) v = abort-Inv id g v
step-Inv g (expires id) v = expire-Inv id g v
step-Inv g (times_out id) v = time_out-Inv id g v
step-Inv g (settles clock id) v = settle-Inv clock id g v
step-Inv g closes v = close-Inv g v

dispatch_all_from-Inv : (g : Gate) (es : List Event) → Inv g → Inv (dispatch_all g es).0
unfolding dispatch_all
dispatch_all_from-Inv g [] v = v
dispatch_all_from-Inv g (e ∷ es) v = dispatch_all_from-Inv (step g e).0 es (step-Inv g e v)

-- After any history of a gate that was constructed, whatever the clock reads: `active` and
-- `active_bytes` are those of the calls that run, `queued_bytes` those of the queue, no more calls run
-- than `max_concurrent`, no more wait than `max_queued` and `max_queued_bytes` allow, a call waits
-- only while all places are taken, and none waits once the gate is closed.
pub dispatch_all-Inv :
    (o : Options) (g : Gate) (es : List Event) → construct o ≡ some g → Inv (dispatch_all g es).0
dispatch_all-Inv o g es e = dispatch_all_from-Inv g es (construct-Inv o e)

abbrev pub arrivals : List Event → List ℕ
arrivals [] = []
arrivals (runs now id bytes deadline is_aborted ∷ es) = id ∷ arrivals es
arrivals (_ ∷ es) = arrivals es

abbrev pub answers : List Effect → List ℕ
answers [] = []
answers (started id ∷ fx) = answers fx
answers (refused id e ∷ fx) = id ∷ answers fx
answers (late id e ∷ fx) = id ∷ answers fx
answers (settled id ∷ fx) = id ∷ answers fx

abbrev pub open_running : (ℕ → ℕ) → List Running → ℕ
open_running f rs = sum_by (λ (r : Running). if r.timed_out then 0 else f r.id) rs

-- A measure summed over the calls that still wait for an answer.
abbrev pub unanswered : (ℕ → ℕ) → Gate → ℕ
unanswered f g = sum_by (λ (w : Waiter). f w.id) g.queue + open_running f g.running

abbrev pub Conserves : (ℕ → ℕ) → Gate → List ℕ → Gate × List Effect → Type 0
Conserves f g ids (g', fx) = sum_by f ids + unanswered f g ≡ sum_by f (answers fx) + unanswered f g'

answers-append :
    (f : ℕ → ℕ) (fx gx : List Effect)
    → sum_by f (answers (fx ++ gx)) ≡ sum_by f (answers fx) + sum_by f (answers gx)
answers-append f [] gx = omega arith
answers-append f (started id ∷ fx) gx = answers-append f fx gx
answers-append f (refused id e ∷ fx) gx = omega (arith, answers-append f fx gx)
answers-append f (late id e ∷ fx) gx = omega (arith, answers-append f fx gx)
answers-append f (settled id ∷ fx) gx = omega (arith, answers-append f fx gx)

answers-refuse_all :
    (f : ℕ → ℕ) (ws : List Waiter)
    → sum_by f (answers (refuse_all ws)) ≡ sum_by (λ (w : Waiter). f w.id) ws
answers-refuse_all f [] = refl
answers-refuse_all f (w ∷ ws) = omega (arith, answers-refuse_all f ws)

run-Conserves :
    (f : ℕ → ℕ) (now id : ℕ) (bytes deadline : Option Number) (is_aborted : Bool) (g : Gate)
    → Conserves f g (id ∷ []) (run now id bytes deadline is_aborted g)
unfolding run
run-Conserves f now id bytes deadline is_aborted g = grind (arith, sum_by-append)

abort-Conserves : (f : ℕ → ℕ) (id : ℕ) (g : Gate) → Conserves f g [] (abort id g)
unfolding abort
abort-Conserves f id g =
    ground (arith, take_out-AddsUp (λ (w : Waiter). f w.id) (λ (w : Waiter). w.id) id g.queue)

expire-Conserves : (f : ℕ → ℕ) (id : ℕ) (g : Gate) → Conserves f g [] (expire id g)
unfolding expire
expire-Conserves f id g =
    ground (arith, take_out-AddsUp (λ (w : Waiter). f w.id) (λ (w : Waiter). w.id) id g.queue)

time_out-Conserves : (f : ℕ → ℕ) (id : ℕ) (g : Gate) → Conserves f g [] (time_out id g)
unfolding time_out
time_out-Conserves f id g = ground (
  arith,
  take_out-AddsUp (λ (r : Running). if r.timed_out then 0 else f r.id) (λ (r : Running). r.id) id
      g.running,
)

pump_loop-Conserves :
    (f clock : ℕ → ℕ) (ws : List Waiter) (g : Gate)
    → g.queue ≡ ws
    → Conserves f g [] (pump_loop clock ws g)
unfolding pump_loop
pump_loop-Conserves f clock [] g q = omega arith
pump_loop-Conserves f clock (w ∷ ws) g q =
    let g' = drop_waiter w ws g in
    ground (
      arith,
      pump_loop-Conserves f clock ws (record g' { expired = g'.expired + 1 }) refl,
      pump_loop-Conserves f clock ws (start w.id w.bytes g').0 refl,
    )

settle_found-Conserves :
    (f clock : ℕ → ℕ) (o : Option (Running × List Running)) (g : Gate)
    → AddsUp (λ (r : Running). if r.timed_out then 0 else f r.id) g.running o
    → Conserves f g [] (settle_found clock o g)
settle_found-Conserves f clock none g h = omega arith
settle_found-Conserves f clock (some (r, rest)) g h =
    let g' : Gate = record g {
      active = g.active - 1;
      active_bytes = g.active_bytes - r.bytes;
      running = rest;
    } in
    ground (arith, h.0, pump_loop-Conserves f clock g.queue g' refl)

settle-Conserves : (f clock : ℕ → ℕ) (id : ℕ) (g : Gate) → Conserves f g [] (settle clock id g)
unfolding settle
settle-Conserves f clock id g =
    settle_found-Conserves f clock (take_out (λ (r : Running). r.id) id g.running) g (
      take_out-AddsUp (λ (r : Running). if r.timed_out then 0 else f r.id) (λ (r : Running). r.id)
        id g.running)

close-Conserves : (f : ℕ → ℕ) (g : Gate) → Conserves f g [] (close g)
unfolding close
close-Conserves f g = ground (arith, answers-refuse_all f g.queue)

step-Conserves : (f : ℕ → ℕ) (g : Gate) (e : Event) → Conserves f g (arrivals (e ∷ [])) (step g e)
unfolding step
step-Conserves f g (runs now id bytes deadline is_aborted) =
    run-Conserves f now id bytes deadline is_aborted g
step-Conserves f g (aborts id) = abort-Conserves f id g
step-Conserves f g (expires id) = expire-Conserves f id g
step-Conserves f g (times_out id) = time_out-Conserves f id g
step-Conserves f g (settles clock id) = settle-Conserves f clock id g
step-Conserves f g closes = close-Conserves f g

arrivals-cons :
    (f : ℕ → ℕ) (e : Event) (es : List Event)
    → sum_by f (arrivals (e ∷ es)) ≡ sum_by f (arrivals (e ∷ [])) + sum_by f (arrivals es)
arrivals-cons f (runs now id bytes deadline is_aborted) es = omega arith
arrivals-cons f _ es = omega arith

-- Over any history, whatever the clock reads, and for every measure `f` of the calls (the count of
-- one call among them), the calls that arrive and those that were unanswered before are those that
-- are answered in the history and those that are unanswered after it: no call is lost, and none is
-- answered twice.
pub dispatch_all-Conserves :
    (f : ℕ → ℕ) (g : Gate) (es : List Event) → Conserves f g (arrivals es) (dispatch_all g es)
unfolding dispatch_all
dispatch_all-Conserves f g [] = omega arith
dispatch_all-Conserves f g (e ∷ es) = omega (
  arith,
  arrivals-cons f e es,
  step-Conserves f g e,
  dispatch_all-Conserves f (step g e).0 es,
  answers-append f (step g e).1 (dispatch_all (step g e).0 es).1,
)
