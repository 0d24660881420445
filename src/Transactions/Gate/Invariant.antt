-- ===== src/Transactions/Gate/Invariant.antt =====
-- What holds of the operation gate between two events: its counters are exact and within the limits.
use lazy_layers.Prelude.{
  ℕ, ◌+◌, ◌-◌, ◌≤◌, ◌<◌, ◌≡◌, refl, Bool, true, false, some, List, [], ◌∷◌, arith, length, sum_by,
  take_out-AddsUp, AddsUp, take_out, length-append, sum_by-append, Number, Option, none, Bool-cases,
  inl, inr, leb, if_lem, if_cases, is_safe_natural, to_natural, get_or, natural, negative,
  not_integer,
}
use lazy_layers.Transactions.Gate.{
  Gate, Effect, Waiter, Running, Options, construct, run, abort, expire, time_out, settle,
  settle_found, close, pump_loop, drop_waiter, start, pump, admit, with_deadline,
}

-- All but the last two.
pub record Counts (g : Gate) : Type 0 where
  pub active_exact : g.active ≡ length g.running
  pub active_bytes_exact : g.active_bytes ≡ sum_by (λ (r : Running). r.bytes) g.running
  pub queued_bytes_exact : g.queued_bytes ≡ sum_by (λ (w : Waiter). w.bytes) g.queue
  pub active_bounded : g.active ≤ g.max_concurrent
  pub queue_bounded : length g.queue ≤ g.max_queued
  pub queued_bytes_bounded : g.queued_bytes ≤ g.max_queued_bytes

pub record Inv (g : Gate) : Type 0 where
  pub counts : Counts g
  pub busy : 0 < length g.queue → g.active ≡ g.max_concurrent
  pub closed_empty : g.closed ≡ true → g.queue ≡ []

abbrev InvAfter : Gate × List Effect → Type 0
InvAfter (g, fx) = Inv g

pub construct-Inv : (o : Options) {g : Gate} → construct o ≡ some g → Inv g
unfolding construct
construct-Inv o h = ground arith

-- The loop of `pump` goes on until all places are taken or the queue is empty.
pump_loop-Inv :
    (clock : ℕ → ℕ) (ws : List Waiter) (g : Gate)
    → g.queue ≡ ws
    → g.closed ≡ false
    → Counts g
    → Inv (pump_loop clock ws g).0
unfolding pump_loop
pump_loop-Inv clock [] g q o v = ground (arith, v)
pump_loop-Inv clock (w ∷ ws) g q o v =
    let g' = drop_waiter w ws g in
    elim (Bool-cases (leb g.max_concurrent g.active)) [
      | inl e ↦ rw e (ground (arith, v))
      | inr e ↦ elim (Bool-cases (leb w.deadline (clock w.id))) [
        | inl f ↦
            rw (e, f)
              (pump_loop-Inv clock ws (record g' { expired = g'.expired + 1 }) refl o
                (ground (arith, v)))
        | inr f ↦
            rw (e, f) (pump_loop-Inv clock ws (start w.id w.bytes g').0 refl o (ground (arith, v)))
      ]
    ]

admit-Inv :
    (id bytes deadline : ℕ) (is_aborted : Bool) (g : Gate)
    → g.closed ≡ false
    → Inv g
    → Inv (admit id bytes deadline is_aborted g).0
admit-Inv id bytes deadline is_aborted g o v = grind (arith, v.counts, length-append, sum_by-append)

with_deadline-Inv :
    (now id bytes : ℕ) (deadline : Number) (is_aborted : Bool) (g : Gate)
    → g.closed ≡ false
    → Inv g
    → Inv (with_deadline now id bytes deadline is_aborted g).0
with_deadline-Inv now id bytes not_integer is_aborted g o v = v
with_deadline-Inv now id bytes (negative n) is_aborted g o v = v
with_deadline-Inv now id bytes (natural deadline) is_aborted g o v =
    if_lem InvAfter (leb deadline now) v (admit-Inv id bytes deadline is_aborted g o v)

pub run-Inv :
    (now id : ℕ) (bytes deadline : Option Number) (is_aborted : Bool) (g : Gate)
    → Inv g
    → Inv (run now id bytes deadline is_aborted g).0
unfolding run
run-Inv now id bytes deadline is_aborted g v =
    if_cases InvAfter g.closed (λ e. v)
      (λ o.
        if_lem InvAfter (is_safe_natural (get_or bytes (natural 0)))
          (with_deadline-Inv now id (to_natural (get_or bytes (natural 0)))
            (get_or deadline (natural (now + g.operation_timeout_ms))) is_aborted g o v)
          v)

pub abort-Inv : (id : ℕ) (g : Gate) → Inv g → Inv (abort id g).0
unfolding abort
abort-Inv id g v =
    ground
      (arith, v.counts, take_out-AddsUp (λ (w : Waiter). w.bytes) (λ (w : Waiter). w.id) id g.queue)

pub expire-Inv : (id : ℕ) (g : Gate) → Inv g → Inv (expire id g).0
unfolding expire
expire-Inv id g v =
    ground
      (arith, v.counts, take_out-AddsUp (λ (w : Waiter). w.bytes) (λ (w : Waiter). w.id) id g.queue)

pub time_out-Inv : (id : ℕ) (g : Gate) → Inv g → Inv (time_out id g).0
unfolding time_out
time_out-Inv id g v = ground (
  arith,
  v.counts,
  take_out-AddsUp (λ (r : Running). r.bytes) (λ (r : Running). r.id) id g.running,
)

pump-Inv :
    (clock : ℕ → ℕ) (g : Gate) → Counts g → (g.closed ≡ true → g.queue ≡ []) → Inv (pump clock g).0
pump-Inv clock g v h =
    if_cases InvAfter g.closed
      (λ e. record { counts = v; busy = ground (arith, h); closed_empty = h })
      (λ e. pump_loop-Inv clock g.queue g refl e v)

settle_found-Inv :
    (clock : ℕ → ℕ) (o : Option (Running × List Running)) (g : Gate)
    → AddsUp (λ (r : Running). r.bytes) g.running o
    → Inv g
    → Inv (settle_found clock o g).0
settle_found-Inv clock none g h v = v
settle_found-Inv clock (some (r, rest)) g h v =
    pump-Inv clock
      (record g { active = g.active - 1; active_bytes = g.active_bytes - r.bytes; running = rest })
      (ground (arith, v.counts)) v.closed_empty

pub settle-Inv : (clock : ℕ → ℕ) (id : ℕ) (g : Gate) → Inv g → Inv (settle clock id g).0
unfolding settle
settle-Inv clock id g v =
    settle_found-Inv clock (take_out (λ (r : Running). r.id) id g.running) g
      (take_out-AddsUp (λ (r : Running). r.bytes) (λ (r : Running). r.id) id g.running) v

pub close-Inv : (g : Gate) → Inv g → Inv (close g).0
unfolding close
close-Inv g v = ground (arith, v.counts)
