-- ===== src/HandlerQueue/Invariant.antt =====
-- What holds of the handler queue (src/event-bus/handlerQueue.ts) between two events.
use lazy_layers.Prelude.{
  ℕ, ◌+◌, ◌-◌, ◌≡◌, ◌≤◌, ◌<◌, refl, Bool, true, Option, none, some, List, [], ◌∷◌, arith, length,
  length-append, sum_by, sum_by-append, take_out, take_out-AddsUp, AddsUp, if_lem, if_cases, ltb,
  leb, ◌||◌,
}
use lazy_layers.HandlerQueue.{
  Queue, Item, Options, Effect, construct, start, drain_loop, push, enqueue_item, enqueue,
  finish_found, finish, close, discard_pending,
}

pub record Counts (q : Queue) : Type 0 where
  pub active_exact : q.active ≡ length q.running
  pub active_bytes_exact : q.active_bytes ≡ sum_by (λ (i : Item). i.bytes) q.running
  pub pending_bytes_exact : q.pending_bytes ≡ sum_by (λ (i : Item). i.bytes) q.pending
  pub active_bounded : q.active ≤ q.concurrency
  pub size_bounded : length q.pending + q.active ≤ q.max_size
  pub bytes_bounded : q.active_bytes + q.pending_bytes ≤ q.max_bytes

pub record Inv (q : Queue) : Type 0 where
  pub counts : Counts q
  pub busy : 0 < length q.pending → q.active ≡ q.concurrency
  pub closed_empty : q.closed ≡ true → q.pending ≡ []

abbrev InvAfter : Queue × List Effect → Type 0
InvAfter (q, fx) = Inv q

abbrev InvAdded : Queue × Bool × List Effect → Type 0
InvAdded (q, b, fx) = Inv q

pub construct-Inv : (o : Options) {q : Queue} → construct o ≡ some q → Inv q
unfolding construct
construct-Inv o h = ground arith

drain_loop-Inv :
    (is : List Item) (q : Queue)
    → q.pending ≡ is
    → (q.closed ≡ true → q.pending ≡ [])
    → Counts q
    → InvAfter (drain_loop is q)
unfolding drain_loop
drain_loop-Inv [] q e o v = ground (arith, v)
drain_loop-Inv (i ∷ is) q e o v =
    if_cases InvAfter (ltb q.active q.concurrency)
      (λ h. drain_loop-Inv is (start i is q) refl (ground (arith, o)) (ground (arith, v)))
      (λ h. ground (arith, v))

push-Counts :
    (i : Item) (q : Queue)
    → Counts q
    → length q.pending + q.active < q.max_size
    → q.active_bytes + q.pending_bytes + i.bytes ≤ q.max_bytes
    → Counts (push i q)
push-Counts i q v h k = grind (arith, v, length-append, sum_by-append)

pub enqueue_item-Inv : (i : Item) (q : Queue) → Inv q → InvAdded (enqueue_item i q)
unfolding enqueue_item
enqueue_item-Inv i q v =
    if_cases InvAdded q.closed (λ e. ground (arith, v.counts))
      (λ o.
        if_cases InvAdded
          (leb q.max_size (length q.pending + q.active)
            || ltb q.max_bytes (q.active_bytes + q.pending_bytes + i.bytes))
          (λ e. ground (arith, v.counts))
          (λ e.
            drain_loop-Inv (push i q).pending (push i q) refl (λ c. cc)
              (push-Counts i q v.counts (ground arith) (ground arith))))

pub enqueue-Inv :
    (id : ℕ) (encoded : Option ℕ) (q : Queue) → Inv q → InvAdded (enqueue id encoded q)
unfolding enqueue
enqueue-Inv id none q v = ground (arith, v.counts)
enqueue-Inv id (some n) q v =
    if_lem InvAdded q.closed (ground (arith, v.counts))
      (enqueue_item-Inv (record { id = id; bytes = n }) q v)

finish_found-Inv :
    (failed : Bool) (o : Option (Item × List Item)) (q : Queue)
    → AddsUp (λ (i : Item). i.bytes) q.running o
    → Inv q
    → InvAfter (finish_found failed o q)
finish_found-Inv failed none q h v = v
finish_found-Inv failed (some (i, rest)) q h v =
    drain_loop-Inv q.pending
      (record q { active = q.active - 1; active_bytes = q.active_bytes - i.bytes; running = rest })
      refl v.closed_empty (ground (arith, v.counts))

pub finish-Inv : (id : ℕ) (failed : Bool) (q : Queue) → Inv q → Inv (finish id failed q).0
unfolding finish
finish-Inv id failed q v =
    finish_found-Inv failed (take_out (λ (i : Item). i.id) id q.running) q
      (take_out-AddsUp (λ (i : Item). i.bytes) (λ (i : Item). i.id) id q.running) v

pub close-Inv : (q : Queue) → Inv q → Inv (close q).0
unfolding close
close-Inv q v = ground (arith, v.counts)

pub discard_pending-Inv : (q : Queue) → Inv q → Inv (discard_pending q).0
unfolding discard_pending
discard_pending-Inv q v = ground (arith, v.counts)
