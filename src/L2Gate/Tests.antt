-- ===== src/L2Gate/Tests.antt =====
-- Tests of the L2 gate, and examples of its theorems.
use lazy_layers.Prelude.{
  ◌≡◌, refl, none, some, List, [], ◌∷◌, natural, if◌then◌else◌, ◌==◌, negative,
}
use lazy_layers.L2Gate.{
  Gate, Options, started, refused, late, settled, overload, timeout, construct, empty, run,
  default_options, expire, time_out, settle,
}
use lazy_layers.L2Gate.Invariant.{Inv}
use lazy_layers.L2Gate.History.{
  Event, runs, expires, times_out, settles, run_all, step, arrivals, Conserves, run_all-Conserves,
}
use lazy_layers.L2Gate.Order.{InOrder, run_all-InOrder}
use lazy_layers.L2Gate.Reached.{constructed-Inv}

-- One call at a time, and two that wait with at most a hundred bytes.
abbrev narrow : Options
narrow = record {
  max_concurrent = some (natural 1);
  max_queued = some (natural 2);
  max_queued_bytes = some (natural 100);
  queue_timeout_ms = none;
  operation_timeout_ms = none;
}

abbrev narrow_gate : Gate
narrow_gate = empty (record {
  max_concurrent = 1;
  max_queued = 2;
  max_queued_bytes = 100;
  queue_timeout_ms = 250;
  operation_timeout_ms = 2000;
})

construct-narrow : construct narrow ≡ some narrow_gate
unfolding construct default_options
construct-narrow = refl

construct-negative : construct (record narrow { max_queued = some (negative 1) }) ≡ none
unfolding construct default_options
construct-negative = refl

abbrev busy_day : List Event
busy_day =
    runs 1 "get" (natural 10)
    ∷ runs 2 "set" (natural 60)
    ∷ runs 3 "set" (natural 50)
    ∷ runs 4 "get" (natural 40)
    ∷ times_out 1
    ∷ expires 2
    ∷ settles 1
    ∷ settles 4
    ∷ []

run_all-busy_day :
    (run_all narrow_gate busy_day).1
    ≡ started 1
      ∷ refused 3 (overload "set")
      ∷ late 1 (timeout "get" 2000)
      ∷ refused 2 (overload "set")
      ∷ started 4
      ∷ settled 4
      ∷ []
unfolding run_all step run expire time_out settle
run_all-busy_day = refl

run_all-Conserves_example :
    Conserves
      (λ id. if id == 2 then 1 else 0)
      narrow_gate
      (arrivals busy_day)
      (run_all narrow_gate busy_day)
run_all-Conserves_example = run_all-Conserves (λ id. if id == 2 then 1 else 0) narrow_gate busy_day

run_all-InOrder_example : InOrder narrow_gate (arrivals busy_day) (run_all narrow_gate busy_day)
run_all-InOrder_example = run_all-InOrder narrow_gate busy_day

constructed-Inv_example : Inv (run_all narrow_gate busy_day).0
constructed-Inv_example = constructed-Inv narrow narrow_gate busy_day construct-narrow
