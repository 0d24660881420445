-- ===== src/Breaker/Invariant.antt =====
-- What holds of a circuit breaker between two calls.
use lazy_layers.Prelude.{ℕ, ◌<◌, ◌≡◌, true, Option, arith}
use lazy_layers.Breaker.{
  Breaker, Options, closed, half_open, init, can_call, record_success, record_failure,
  get_failure_threshold,
}

pub record Inv (b : Breaker) : Type 0 where
  pub probe_half_open : b.probe_in_flight ≡ true → b.state ≡ half_open
  pub closed_below :
      b.state ≡ closed → 0 < get_failure_threshold b → b.failures < get_failure_threshold b

pub init-Inv : (o : Options) → Inv (init o)
unfolding init
init-Inv o = ground arith

pub can_call-Inv : (now : ℕ) (b : Breaker) → Inv b → Inv (can_call now b).0
unfolding can_call
can_call-Inv now b h = ground arith

pub record_success-Inv : (r : Option ℕ) (b : Breaker) → Inv b → Inv (record_success r b)
unfolding record_success
record_success-Inv r b h = ground arith

pub record_failure-Inv :
    (now : ℕ) (r : Option ℕ) (b : Breaker) → Inv b → Inv (record_failure now r b)
unfolding record_failure
record_failure-Inv now r b h = ground arith
