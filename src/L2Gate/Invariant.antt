-- ===== src/L2Gate/Invariant.antt =====
-- What holds of the L2 gate between two events: its counters are exact and within the limits.
use lazy_layers.Prelude.{
  ℕ, ◌≤◌, ◌<◌, ◌≡◌, true, some, [], arith, length, sum_by, take_out-AddsUp, length-append,
  sum_by-append, String, Number,
}
use lazy_layers.L2Gate.{
  Gate, Waiter, Running, Options, construct, run, expire, time_out, settle, close,
}

pub record Inv (g : Gate) : Type 0 where
  pub active_exact : g.active ≡ length g.running
  pub active_bytes_exact : g.active_bytes ≡ sum_by (λ (r : Running). r.bytes) g.running
  pub queued_bytes_exact : g.queued_bytes ≡ sum_by (λ (w : Waiter). w.bytes) g.queue
  pub active_bounded : g.active ≤ g.max_concurrent
  pub queue_bounded : length g.queue ≤ g.max_queued
  pub queued_bytes_bounded : g.queued_bytes ≤ g.max_queued_bytes
  pub busy : 0 < length g.queue → g.active ≡ g.max_concurrent
  pub closed_empty : g.closed ≡ true → g.queue ≡ []

pub construct-Inv : (o : Options) {g : Gate} → construct o ≡ some g → Inv g
unfolding construct
construct-Inv o h = ground arith

pub run-Inv : (id : ℕ) (op : String) (n : Number) (g : Gate) → Inv g → Inv (run id op n g).0
unfolding run
run-Inv id op n g v = grind (arith, length-append, sum_by-append)

pub expire-Inv : (id : ℕ) (g : Gate) → Inv g → Inv (expire id g).0
unfolding expire
expire-Inv id g v =
    ground (arith, take_out-AddsUp (λ (w : Waiter). w.bytes) (λ (w : Waiter). w.id) id g.queue)

pub time_out-Inv : (id : ℕ) (g : Gate) → Inv g → Inv (time_out id g).0
unfolding time_out
time_out-Inv id g v =
    ground (arith, take_out-AddsUp (λ (r : Running). r.bytes) (λ (r : Running). r.id) id g.running)

pub settle-Inv : (id : ℕ) (g : Gate) → Inv g → Inv (settle id g).0
unfolding settle
settle-Inv id g v =
    ground (arith, take_out-AddsUp (λ (r : Running). r.bytes) (λ (r : Running). r.id) id g.running)

pub close-Inv : (g : Gate) → Inv g → Inv (close g).0
unfolding close
close-Inv g v = ground arith
