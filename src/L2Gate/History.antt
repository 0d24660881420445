-- ===== src/L2Gate/History.antt =====
-- Histories of the L2 gate: every call is answered exactly once, and calls start in the order in
-- which they arrive.
use lazy_layers.Prelude.{
  ℕ, ◌+◌, ◌≡◌, refl, List, [], ◌∷◌, ◌++◌, arith, sum_by, take_out-AddsUp, sum_by-append, String,
  Number, if◌then◌else◌,
}
use lazy_layers.L2Gate.{
  Gate, Waiter, Running, Effect, started, refused, late, settled, run, expire, time_out, settle,
  close, refuse_all,
}

pub data Event : Type 0 where
  runs : ℕ → String → Number → Event
  expires times_out settles : ℕ → Event
  closes : Event

unfoldable pub step : Gate → Event → Gate × List Effect
step g (runs id operation bytes) = run id operation bytes g
step g (expires id) = expire id g
step g (times_out id) = time_out id g
step g (settles id) = settle id g
step g closes = close g

unfoldable pub run_all : Gate → List Event → Gate × List Effect
run_all g [] = (g, [])
run_all g (e ∷ es) =
    let (g', fx) = step g e in let (g'', later) = run_all g' es in (g'', fx ++ later)

abbrev pub arrivals : List Event → List ℕ
arrivals [] = []
arrivals (runs id operation bytes ∷ es) = id ∷ arrivals es
arrivals (_ ∷ es) = arrivals es

-- The calls that have been started, in order.
abbrev pub starts : List Effect → List ℕ
starts [] = []
starts (started id ∷ fx) = id ∷ starts fx
starts (_ ∷ fx) = starts fx

-- The calls whose promise has been answered: refused, past the deadline, or settled.
abbrev pub answers : List Effect → List ℕ
answers [] = []
answers (started id ∷ fx) = answers fx
answers (refused id e ∷ fx) = id ∷ answers fx
answers (late id e ∷ fx) = id ∷ answers fx
answers (settled id ∷ fx) = id ∷ answers fx

-- A measure summed over the calls that still wait for an answer.
abbrev pub open_running : (ℕ → ℕ) → List Running → ℕ
open_running f rs = sum_by (λ (r : Running). if r.timed_out then 0 else f r.id) rs

abbrev pub unanswered : (ℕ → ℕ) → Gate → ℕ
unanswered f g = sum_by (λ (w : Waiter). f w.id) g.queue + open_running f g.running

answers-refuse_all :
    (f : ℕ → ℕ) (ws : List Waiter)
    → sum_by f (answers (refuse_all ws)) ≡ sum_by (λ (w : Waiter). f w.id) ws
answers-refuse_all f [] = refl
answers-refuse_all f (w ∷ ws) = omega (arith, answers-refuse_all f ws)

answers-append :
    (f : ℕ → ℕ) (fx gx : List Effect)
    → sum_by f (answers (fx ++ gx)) ≡ sum_by f (answers fx) + sum_by f (answers gx)
answers-append f [] gx = omega arith
answers-append f (started id ∷ fx) gx = answers-append f fx gx
answers-append f (refused id e ∷ fx) gx = omega (arith, answers-append f fx gx)
answers-append f (late id e ∷ fx) gx = omega (arith, answers-append f fx gx)
answers-append f (settled id ∷ fx) gx = omega (arith, answers-append f fx gx)

-- One event: the calls that arrive and those that waited are answered or still wait.
abbrev pub Conserves : (ℕ → ℕ) → Gate → List ℕ → Gate × List Effect → Type 0
Conserves f g ids (g', fx) = sum_by f ids + unanswered f g ≡ sum_by f (answers fx) + unanswered f g'

run-Conserves :
    (f : ℕ → ℕ) (id : ℕ) (op : String) (n : Number) (g : Gate)
    → Conserves f g (id ∷ []) (run id op n g)
unfolding run
run-Conserves f id op n g = grind (arith, sum_by-append)

expire-Conserves : (f : ℕ → ℕ) (id : ℕ) (g : Gate) → Conserves f g [] (expire id g)
unfolding expire
expire-Conserves f id g =
    ground (arith, take_out-AddsUp (λ (w : Waiter). f w.id) (λ (w : Waiter). w.id) id g.queue)

time_out-Conserves : (f : ℕ → ℕ) (id : ℕ) (g : Gate) → Conserves f g [] (time_out id g)
unfolding time_out
time_out-Conserves f id g = ground (
  arith,
  take_out-AddsUp (λ (r : Running). if r.timed_out then 0 else f r.id) (λ (r : Running). r.id) id
      g.running,
)

settle-Conserves : (f : ℕ → ℕ) (id : ℕ) (g : Gate) → Conserves f g [] (settle id g)
unfolding settle
settle-Conserves f id g = ground (
  arith,
  take_out-AddsUp (λ (r : Running). if r.timed_out then 0 else f r.id) (λ (r : Running). r.id) id
      g.running,
)

close-Conserves : (f : ℕ → ℕ) (g : Gate) → Conserves f g [] (close g)
unfolding close
close-Conserves f g = ground (arith, answers-refuse_all f g.queue)

step-Conserves : (f : ℕ → ℕ) (g : Gate) (e : Event) → Conserves f g (arrivals (e ∷ [])) (step g e)
unfolding step
step-Conserves f g (runs id op n) = run-Conserves f id op n g
step-Conserves f g (expires id) = expire-Conserves f id g
step-Conserves f g (times_out id) = time_out-Conserves f id g
step-Conserves f g (settles id) = settle-Conserves f id g
step-Conserves f g closes = close-Conserves f g

arrivals-cons :
    (f : ℕ → ℕ) (e : Event) (es : List Event)
    → sum_by f (arrivals (e ∷ es)) ≡ sum_by f (arrivals (e ∷ [])) + sum_by f (arrivals es)
arrivals-cons f (runs id op n) es = omega arith
arrivals-cons f _ es = omega arith

-- Over any history, and for every measure `f` of the calls (the count of one call among them), what
-- arrives and what was unanswered before is what is answered in the history and what is unanswered
-- after it: no call is lost, and none is answered twice.
pub run_all-Conserves :
    (f : ℕ → ℕ) (g : Gate) (es : List Event) → Conserves f g (arrivals es) (run_all g es)
unfolding run_all
run_all-Conserves f g [] = omega arith
run_all-Conserves f g (e ∷ es) = omega (
  arith,
  arrivals-cons f e es,
  step-Conserves f g e,
  run_all-Conserves f (step g e).0 es,
  answers-append f (step g e).1 (run_all (step g e).0 es).1,
)
