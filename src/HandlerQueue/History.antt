-- ===== src/HandlerQueue/History.antt =====
-- Histories of the handler queue (src/event-bus/handlerQueue.ts): its invariant over them, and what
-- becomes of the items that it accepts.
use lazy_layers.Prelude.{
  ℕ, ◌+◌, ◌-◌, ◌≡◌, refl, Bool, Option, none, some, List, [], ◌∷◌, ◌++◌, arith, sum_by,
  sum_by-append, take_out, take_out-AddsUp, AddsUp, if◌then◌else◌, if_lem, ltb, leb, length, ◌||◌,
  ◌&&◌, ◌==◌, not,
}
use lazy_layers.HandlerQueue.{
  Queue, Item, Options, Effect, started, settled, overflow, idle, construct, start, drain_loop,
  push, enqueue_item, enqueue, finish_found, finish, close, discard_pending, settle_all, note_idle,
  is_empty,
}
use lazy_layers.HandlerQueue.Invariant.{
  Inv, construct-Inv, enqueue-Inv, finish-Inv, close-Inv, discard_pending-Inv,
}

pub data Event : Type 0 where
  enqueues : ℕ → Option ℕ → Event
  finishes : ℕ → Bool → Event
  closes discards : Event

unfoldable pub step : Queue → Event → Queue × List Effect
step q (enqueues id encoded) = let (q', is_added, fx) = enqueue id encoded q in (q', fx)
step q (finishes id failed) = finish id failed q
step q closes = close q
step q discards = discard_pending q

unfoldable pub deliver_all : Queue → List Event → Queue × List Effect
deliver_all q [] = (q, [])
deliver_all q (e ∷ es) =
    let (q', fx) = step q e in let (q'', later) = deliver_all q' es in (q'', fx ++ later)

step-Inv : (q : Queue) (e : Event) → Inv q → Inv (step q e).0
unfolding step
step-Inv q (enqueues id encoded) v = enqueue-Inv id encoded q v
step-Inv q (finishes id failed) v = finish-Inv id failed q v
step-Inv q closes v = close-Inv q v
step-Inv q discards v = discard_pending-Inv q v

deliver_all_from-Inv : (q : Queue) (es : List Event) → Inv q → Inv (deliver_all q es).0
unfolding deliver_all
deliver_all_from-Inv q [] v = v
deliver_all_from-Inv q (e ∷ es) v = deliver_all_from-Inv (step q e).0 es (step-Inv q e v)

-- After any history of a queue that was constructed: `active` and `active_bytes` are those of the
-- handlers that run, `pending_bytes` those of the pending items, no more handlers run than
-- `concurrency`, the items that run or wait are at most `max_size` with at most `max_bytes`, an item
-- waits only while all handlers are busy, and none waits once the queue is closed.
pub deliver_all-Inv :
    (o : Options) (q : Queue) (es : List Event) → construct o ≡ some q → Inv (deliver_all q es).0
deliver_all-Inv o q es e = deliver_all_from-Inv q es (construct-Inv o e)

-- The items that a history accepts, in order.
abbrev pub accepted_by : Queue → Event → List ℕ
accepted_by q (enqueues id encoded) = if (enqueue id encoded q).1 then id ∷ [] else []
accepted_by q _ = []

unfoldable pub accepted : Queue → List Event → List ℕ
accepted q [] = []
accepted q (e ∷ es) = accepted_by q e ++ accepted (step q e).0 es

abbrev pub settles : List Effect → List ℕ
settles [] = []
settles (started id ∷ fx) = settles fx
settles (settled id failed ∷ fx) = id ∷ settles fx
settles (overflow n ∷ fx) = settles fx
settles (idle ∷ fx) = settles fx

-- A measure summed over the items that wait or whose handler runs.
abbrev pub outstanding : (ℕ → ℕ) → Queue → ℕ
outstanding f q = sum_by (λ (i : Item). f i.id) q.pending + sum_by (λ (i : Item). f i.id) q.running

abbrev pub Conserves : (ℕ → ℕ) → Queue → List ℕ → Queue × List Effect → Type 0
Conserves f q ids (q', fx) =
    sum_by f ids + outstanding f q ≡ sum_by f (settles fx) + outstanding f q'

settles-append :
    (f : ℕ → ℕ) (fx gx : List Effect)
    → sum_by f (settles (fx ++ gx)) ≡ sum_by f (settles fx) + sum_by f (settles gx)
settles-append f [] gx = omega arith
settles-append f (started id ∷ fx) gx = settles-append f fx gx
settles-append f (settled id failed ∷ fx) gx = omega (arith, settles-append f fx gx)
settles-append f (overflow n ∷ fx) gx = settles-append f fx gx
settles-append f (idle ∷ fx) gx = settles-append f fx gx

settles-settle_all :
    (f : ℕ → ℕ) (is : List Item)
    → sum_by f (settles (settle_all is)) ≡ sum_by (λ (i : Item). f i.id) is
settles-settle_all f [] = refl
settles-settle_all f (i ∷ is) = omega (arith, settles-settle_all f is)

drain_loop-Conserves :
    (f : ℕ → ℕ) (is : List Item) (q : Queue) → q.pending ≡ is → Conserves f q [] (drain_loop is q)
unfolding drain_loop
drain_loop-Conserves f [] q e = omega arith
drain_loop-Conserves f (i ∷ is) q e = ground (arith, drain_loop-Conserves f is (start i is q) refl)

push-Conserves :
    (f : ℕ → ℕ) (i : Item) (q : Queue) → outstanding f (push i q) ≡ f i.id + outstanding f q
push-Conserves f i q = grind (arith, sum_by-append)

abbrev ConservesAdded : (ℕ → ℕ) → Queue → ℕ → Queue × Bool × List Effect → Type 0
ConservesAdded f q id (q', is_added, fx) = Conserves f q (if is_added then id ∷ [] else []) (q', fx)

enqueue_item-ConservesAdded :
    (f : ℕ → ℕ) (i : Item) (q : Queue) → ConservesAdded f q i.id (enqueue_item i q)
unfolding enqueue_item
enqueue_item-ConservesAdded f i q = if_lem (ConservesAdded f q i.id) q.closed (omega arith) (
    if_lem (ConservesAdded f q i.id)
      (leb q.max_size (length q.pending + q.active)
        || ltb q.max_bytes (q.active_bytes + q.pending_bytes + i.bytes))
      (omega arith)
      (omega
        (arith, push-Conserves f i q, drain_loop-Conserves f (push i q).pending (push i q) refl)))

enqueue-ConservesAdded :
    (f : ℕ → ℕ) (id : ℕ) (encoded : Option ℕ) (q : Queue)
    → ConservesAdded f q id (enqueue id encoded q)
unfolding enqueue
enqueue-ConservesAdded f id none q = omega arith
enqueue-ConservesAdded f id (some n) q =
    if_lem (ConservesAdded f q id) q.closed (omega arith)
      (enqueue_item-ConservesAdded f (record { id = id; bytes = n }) q)

note_idle-Conserves :
    (f : ℕ → ℕ) (q : Queue) (ids : List ℕ) (r : Queue × List Effect)
    → Conserves f q ids r
    → Conserves f q ids (note_idle r)
note_idle-Conserves f q ids (q', fx) h =
    if_lem (λ gx. Conserves f q ids (q', gx))
      (q'.active == 0 && is_empty q'.pending && not q'.closed)
      (omega (arith, h, settles-append f fx (idle ∷ []))) h

finish_found-Conserves :
    (f : ℕ → ℕ) (failed : Bool) (o : Option (Item × List Item)) (q : Queue)
    → AddsUp (λ (i : Item). f i.id) q.running o
    → Conserves f q [] (finish_found failed o q)
finish_found-Conserves f failed none q h = omega arith
finish_found-Conserves f failed (some (i, rest)) q h =
    let q' : Queue = record q {
      active = q.active - 1;
      active_bytes = q.active_bytes - i.bytes;
      running = rest;
    } in
    omega (
      arith,
      h.0,
      note_idle-Conserves f q' [] (drain_loop q.pending q')
          (drain_loop-Conserves f q.pending q' refl),
    )

finish-Conserves :
    (f : ℕ → ℕ) (id : ℕ) (failed : Bool) (q : Queue) → Conserves f q [] (finish id failed q)
unfolding finish
finish-Conserves f id failed q =
    finish_found-Conserves f failed (take_out (λ (i : Item). i.id) id q.running) q
      (take_out-AddsUp (λ (i : Item). f i.id) (λ (i : Item). i.id) id q.running)

step-Conserves : (f : ℕ → ℕ) (q : Queue) (e : Event) → Conserves f q (accepted_by q e) (step q e)
unfolding step close discard_pending
step-Conserves f q (enqueues id encoded) = enqueue-ConservesAdded f id encoded q
step-Conserves f q (finishes id failed) = finish-Conserves f id failed q
step-Conserves f q closes = omega (arith, settles-settle_all f q.pending)
step-Conserves f q discards = omega (arith, settles-settle_all f q.pending)

-- Over any history, and for every measure `f` of the items (the count of one item among them), the
-- items that are accepted and those that were outstanding before are those that are settled in the
-- history and those that are outstanding after it: every accepted item is settled once, by its
-- handler, by `close` or by `discardPending`, or still waits or runs.
pub deliver_all-Conserves :
    (f : ℕ → ℕ) (q : Queue) (es : List Event) → Conserves f q (accepted q es) (deliver_all q es)
unfolding deliver_all accepted
deliver_all-Conserves f q [] = omega arith
deliver_all-Conserves f q (e ∷ es) = omega (
  arith,
  sum_by-append f (accepted_by q e) (accepted (step q e).0 es),
  step-Conserves f q e,
  deliver_all-Conserves f (step q e).0 es,
  settles-append f (step q e).1 (deliver_all (step q e).0 es).1,
)
