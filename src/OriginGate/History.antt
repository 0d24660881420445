-- ===== src/OriginGate/History.antt =====
-- Histories of the origin gate: its invariant over them, and the answers that loads get.
use lazy_layers.Prelude.{
  ℕ, ◌+◌, ◌≡◌, refl, Bool, List, [], ◌∷◌, ◌++◌, arith, Option, some, true, sum_by, take_out-AddsUp,
  sum_by-append, Text,
}
use lazy_layers.MemoryBudget.{Budget}
use lazy_layers.OriginGate.{
  Gate, Waiter, Options, Effect, granted, refused, construct, acquire, expire, abort, release,
  close, refuse_all, drop_waiter,
}
use lazy_layers.OriginGate.Invariant.{
  Inv, construct-Inv, acquire-Inv, expire-Inv, abort-Inv, release-Inv, close-Inv,
}

pub data Event : Type 0 where
  acquires : ℕ → Text → ℕ → Bool → Event
  expires aborts releases : ℕ → Event
  closes : Event

unfoldable pub step : Gate → Event → Gate × List Effect
step g (acquires id key n is_aborted) = acquire id key n is_aborted g
step g (expires id) = expire id g
step g (aborts id) = abort id g
step g (releases id) = release id g
step g closes = close g

unfoldable pub serve_all : Gate → List Event → Gate × List Effect
serve_all g [] = (g, [])
serve_all g (e ∷ es) =
    let (g', fx) = step g e in let (g'', later) = serve_all g' es in (g'', fx ++ later)

pub step-Inv : (g : Gate) (e : Event) → Inv g → Inv (step g e).0
unfolding step
step-Inv g (acquires id key n is_aborted) v = acquire-Inv id key n is_aborted g v
step-Inv g (expires id) v = expire-Inv id g v
step-Inv g (aborts id) v = abort-Inv id g v
step-Inv g (releases id) v = release-Inv id g v
step-Inv g closes v = close-Inv g v

serve_all_from-Inv : (g : Gate) (es : List Event) → Inv g → Inv (serve_all g es).0
unfolding serve_all
serve_all_from-Inv g [] v = v
serve_all_from-Inv g (e ∷ es) v = serve_all_from-Inv (step g e).0 es (step-Inv g e v)

-- After any history of a gate that was constructed, with any memory budget or none: `active` counts
-- the reservations that are not released and is at most `max_concurrent`, `queued_bytes` are the
-- bytes of the queue and at most 2 MiB, the queue is no longer than `max_queued`, `max_observed`
-- lies between `active` and `max_concurrent`, a load waits only while all places are taken, and none
-- waits once the gate is closed.
pub serve_all-Inv :
    (o : Options) (b : Option Budget) (g : Gate) (es : List Event)
    → construct o b ≡ some g
    → Inv (serve_all g es).0
serve_all-Inv o b g es e = serve_all_from-Inv g es (construct-Inv o b e)

abbrev pub arrivals : List Event → List ℕ
arrivals [] = []
arrivals (acquires id key n is_aborted ∷ es) = id ∷ arrivals es
arrivals (_ ∷ es) = arrivals es

abbrev pub answers : List Effect → List ℕ
answers [] = []
answers (granted id ∷ fx) = id ∷ answers fx
answers (refused id e ∷ fx) = id ∷ answers fx

-- A measure summed over the loads that still wait.
abbrev pub unanswered : (ℕ → ℕ) → Gate → ℕ
unanswered f g = sum_by (λ (w : Waiter). f w.id) g.queue

abbrev pub Conserves : (ℕ → ℕ) → Gate → List ℕ → Gate × List Effect → Type 0
Conserves f g ids (g', fx) = sum_by f ids + unanswered f g ≡ sum_by f (answers fx) + unanswered f g'

answers-append :
    (f : ℕ → ℕ) (fx gx : List Effect)
    → sum_by f (answers (fx ++ gx)) ≡ sum_by f (answers fx) + sum_by f (answers gx)
answers-append f [] gx = omega arith
answers-append f (granted id ∷ fx) gx = omega (arith, answers-append f fx gx)
answers-append f (refused id e ∷ fx) gx = omega (arith, answers-append f fx gx)

acquire-Conserves :
    (f : ℕ → ℕ) (id : ℕ) (key : Text) (n : ℕ) (is_aborted : Bool) (g : Gate)
    → Conserves f g (id ∷ []) (acquire id key n is_aborted g)
unfolding acquire
acquire-Conserves f id key n is_aborted g = grind (arith, sum_by-append)

expire-Conserves : (f : ℕ → ℕ) (id : ℕ) (g : Gate) → Conserves f g [] (expire id g)
unfolding expire
expire-Conserves f id g =
    ground (arith, take_out-AddsUp (λ (w : Waiter). f w.id) (λ (w : Waiter). w.id) id g.queue)

abort-Conserves : (f : ℕ → ℕ) (id : ℕ) (g : Gate) → Conserves f g [] (abort id g)
unfolding abort
abort-Conserves f id g =
    ground (arith, take_out-AddsUp (λ (w : Waiter). f w.id) (λ (w : Waiter). w.id) id g.queue)

release-Conserves : (f : ℕ → ℕ) (id : ℕ) (g : Gate) → Conserves f g [] (release id g)
unfolding release
release-Conserves f id g = ground arith

refuse_all-Conserves :
    (f : ℕ → ℕ) (ws : List Waiter) (g : Gate) → g.queue ≡ ws → Conserves f g [] (refuse_all ws g)
refuse_all-Conserves f [] g q = omega arith
refuse_all-Conserves f (w ∷ ws) g q =
    ground (arith, refuse_all-Conserves f ws (drop_waiter w ws g) refl)

close-Conserves : (f : ℕ → ℕ) (g : Gate) → Conserves f g [] (close g)
unfolding close
close-Conserves f g = refuse_all-Conserves f g.queue (record g { closed = true }) refl

step-Conserves : (f : ℕ → ℕ) (g : Gate) (e : Event) → Conserves f g (arrivals (e ∷ [])) (step g e)
unfolding step
step-Conserves f g (acquires id key n is_aborted) = acquire-Conserves f id key n is_aborted g
step-Conserves f g (expires id) = expire-Conserves f id g
step-Conserves f g (aborts id) = abort-Conserves f id g
step-Conserves f g (releases id) = release-Conserves f id g
step-Conserves f g closes = close-Conserves f g

arrivals-cons :
    (f : ℕ → ℕ) (e : Event) (es : List Event)
    → sum_by f (arrivals (e ∷ es)) ≡ sum_by f (arrivals (e ∷ [])) + sum_by f (arrivals es)
arrivals-cons f (acquires id key n is_aborted) es = omega arith
arrivals-cons f _ es = omega arith

-- Over any history, and for every measure `f` of the loads (the count of one load among them), the
-- loads that arrive and those that waited before are those that are granted or refused in the
-- history and those that wait after it: no load is lost, and none is answered twice.
pub serve_all-Conserves :
    (f : ℕ → ℕ) (g : Gate) (es : List Event) → Conserves f g (arrivals es) (serve_all g es)
unfolding serve_all
serve_all-Conserves f g [] = omega arith
serve_all-Conserves f g (e ∷ es) = omega (
  arith,
  arrivals-cons f e es,
  step-Conserves f g e,
  serve_all-Conserves f (step g e).0 es,
  answers-append f (step g e).1 (serve_all (step g e).0 es).1,
)
