-- ===== src/OriginGate/Invariant.antt =====
-- What holds of the origin gate between two events: its counters are exact and within the limits.
use lazy_layers.Prelude.{
  ℕ, ◌≤◌, ◌<◌, ◌≡◌, Bool, true, some, Option, List, [], ◌∷◌, arith, length, sum_by, take_out-AddsUp,
  length-append, refl, sum_by-append, Text,
}
use lazy_layers.MemoryBudget.{Budget}
use lazy_layers.OriginGate.{
  Gate, Waiter, Options, construct, acquire, expire, abort, release, close, max_queued_key_bytes,
  refuse_all, drop_waiter,
}

pub record Inv (g : Gate) : Type 0 where
  pub active_exact : g.active ≡ length g.holders
  pub queued_bytes_exact : g.queued_bytes ≡ sum_by (λ (w : Waiter). w.bytes) g.queue
  pub active_bounded : g.active ≤ g.max_concurrent
  pub queue_bounded : length g.queue ≤ g.max_queued
  pub queued_bytes_bounded : g.queued_bytes ≤ max_queued_key_bytes
  pub observed : (g.active ≤ g.max_observed) × (g.max_observed ≤ g.max_concurrent)
  pub busy : 0 < length g.queue → g.active ≡ g.max_concurrent
  pub concurrent : 0 < g.max_concurrent
  pub closed_empty : g.closed ≡ true → g.queue ≡ []

pub construct-Inv : (o : Options) (b : Option Budget) {g : Gate} → construct o b ≡ some g → Inv g
unfolding construct
construct-Inv o b h = ground arith

pub acquire-Inv :
    (id : ℕ) (key : Text) (n : ℕ) (is_aborted : Bool) (g : Gate)
    → Inv g
    → Inv (acquire id key n is_aborted g).0
unfolding acquire
acquire-Inv id key n is_aborted g v = grind (arith, length-append, sum_by-append)

pub expire-Inv : (id : ℕ) (g : Gate) → Inv g → Inv (expire id g).0
unfolding expire
expire-Inv id g v =
    ground (arith, take_out-AddsUp (λ (w : Waiter). w.bytes) (λ (w : Waiter). w.id) id g.queue)

pub abort-Inv : (id : ℕ) (g : Gate) → Inv g → Inv (abort id g).0
unfolding abort
abort-Inv id g v =
    ground (arith, take_out-AddsUp (λ (w : Waiter). w.bytes) (λ (w : Waiter). w.id) id g.queue)

pub release-Inv : (id : ℕ) (g : Gate) → Inv g → Inv (release id g).0
unfolding release
release-Inv id g v = ground (arith, take_out-AddsUp (λ (k : ℕ). k) (λ (k : ℕ). k) id g.holders)

-- The loop of `close` empties the queue and keeps the rest.
refuse_all-Inv :
    (ws : List Waiter) (g : Gate)
    → g.queue ≡ ws
    → g.queued_bytes ≡ sum_by (λ (w : Waiter). w.bytes) ws
    → let g' = (refuse_all ws g).0 in
      (g'.queue ≡ [])
      × (g'.queued_bytes ≡ 0)
      × (g'.active ≡ g.active)
      × (g'.holders ≡ g.holders)
      × (g'.limits ≡ g.limits)
      × (g'.max_observed ≡ g.max_observed)
refuse_all-Inv [] g q b = (q, b, refl, refl, refl, refl)
refuse_all-Inv (w ∷ ws) g q b = refuse_all-Inv ws (drop_waiter w ws g) refl (omega arith)

pub close-Inv : (g : Gate) → Inv g → Inv (close g).0
unfolding close
close-Inv g v =
    ground (arith, v, refuse_all-Inv g.queue (record g { closed = true }) refl v.queued_bytes_exact)
