-- ===== src/Transactions/Gate/Tests.antt =====
-- Tests of the operation gate, and examples of its theorems.
use lazy_layers.Prelude.{◌≡◌, refl, false, true, none, some, List, [], ◌∷◌, natural, not_integer}
use lazy_layers.Transactions.Gate.{
  Gate, Options, started, refused, late, settled, dispatch_timeout, deadline_elapsed, queue_full,
  cancelled, invalid_size, construct, empty, run, abort, expire, time_out, settle, pump_loop,
}
use lazy_layers.Transactions.Gate.Invariant.{Inv}
use lazy_layers.Transactions.Gate.History.{
  Event, runs, times_out, settles, step, dispatch_all, dispatch_all-Inv,
}

abbrev narrow : Options
narrow = record {
  max_concurrent = some (natural 1);
  max_queued = some (natural 3);
  max_queued_bytes = some (natural 100);
  queue_timeout_ms = none;
  operation_timeout_ms = none;
}

abbrev narrow_gate : Gate
narrow_gate = empty (record {
  max_concurrent = 1;
  max_queued = 3;
  max_queued_bytes = 100;
  queue_timeout_ms = 250;
  operation_timeout_ms = 2000;
})

construct-narrow : construct narrow ≡ some narrow_gate
unfolding construct
construct-narrow = refl

-- When the first call settles, at 150, the deadline of the second has passed, and the third starts.
abbrev busy_day : List Event
busy_day =
    runs 0 1 (some (natural 10)) none false
    ∷ runs 5 2 (some (natural 10)) (some (natural 100)) false
    ∷ runs 6 3 none none false
    ∷ runs 7 4 (some (natural 95)) none false
    ∷ runs 8 5 (some not_integer) none false
    ∷ runs 9 6 none none true
    ∷ times_out 1
    ∷ settles (λ id. 150) 1
    ∷ settles (λ id. 160) 3
    ∷ []

dispatch_all-busy_day :
    (dispatch_all narrow_gate busy_day).1
    ≡ started 1
      ∷ refused 4 queue_full
      ∷ refused 5 invalid_size
      ∷ refused 6 cancelled
      ∷ late 1 dispatch_timeout
      ∷ refused 2 deadline_elapsed
      ∷ started 3
      ∷ settled 3
      ∷ []
unfolding dispatch_all step run abort expire time_out settle pump_loop
dispatch_all-busy_day = refl

dispatch_all-Inv_example : Inv (dispatch_all narrow_gate busy_day).0
dispatch_all-Inv_example = dispatch_all-Inv narrow narrow_gate busy_day construct-narrow
