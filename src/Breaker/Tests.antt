-- ===== src/Breaker/Tests.antt =====
-- Tests of the circuit breaker, and examples of its theorems.
use lazy_layers.Prelude.{◌≡◌, refl, false, none, some, List, [], ◌∷◌}
use lazy_layers.Breaker.{
  Breaker, Options, closed, opened, init, can_call, record_success, record_failure,
}
use lazy_layers.Breaker.Trace.{
  Call, calls, succeeds, fails, run, step, probes, next_probe, Ascends, probes-Ascends,
}

-- Two failures open it, for ten milliseconds.
abbrev two_strikes : Options
two_strikes = record { enabled = none; failure_threshold = some 2; cooldown_ms = some 10 }

abbrev fresh : Breaker
fresh = record {
  options = two_strikes;
  state = closed;
  failures = 0;
  opened_at = 0;
  epoch = 0;
  probe_in_flight = false;
}

-- It opens, admits a probe that fails, and admits another one that succeeds.
abbrev rough_day : List Call
rough_day =
    fails 1 none
    ∷ fails 2 none
    ∷ calls 5
    ∷ calls 12
    ∷ calls 13
    ∷ fails 14 (some 2)
    ∷ calls 24
    ∷ succeeds (some 4)
    ∷ []

init-two_strikes : init two_strikes ≡ fresh
unfolding init
init-two_strikes = refl

probes-rough_day : probes fresh rough_day ≡ 2 ∷ 4 ∷ []
unfolding probes step can_call record_success record_failure
probes-rough_day = refl

run-rough_day : (run fresh rough_day).state ≡ closed
unfolding run step can_call record_success record_failure
run-rough_day = refl

probes-Ascends_example : Ascends (next_probe fresh) (probes fresh rough_day)
probes-Ascends_example = probes-Ascends fresh rough_day refl

abbrev strained : Breaker
strained = record {
  options = two_strikes;
  state = closed;
  failures = 1;
  opened_at = 0;
  epoch = 0;
  probe_in_flight = false;
}

strained_opens : (record_failure 3 none strained).state ≡ opened
unfolding record_failure
strained_opens = refl
