-- ===== src/HandlerQueue/Tests.antt =====
-- Tests of the handler queue, and examples of its theorems: one handler, and three items of a hundred
-- bytes in all.
use lazy_layers.Prelude.{
  ◌≡◌, ◌==◌, refl, true, false, none, some, List, [], ◌∷◌, natural, if◌then◌else◌,
}
use lazy_layers.HandlerQueue.{
  Queue, Options, started, settled, overflow, idle, construct, enqueue, enqueue_item, drain_loop,
  finish, close,
}
use lazy_layers.HandlerQueue.Invariant.{Inv}
use lazy_layers.HandlerQueue.History.{
  Event, enqueues, finishes, closes, step, deliver_all, deliver_all-Inv, deliver_all-Conserves,
  accepted, Conserves,
}

abbrev narrow : Options
narrow = record { concurrency = none; max_size = some (natural 3); max_bytes = some (natural 100) }

abbrev narrow_queue : Queue
narrow_queue = record {
  concurrency = 1;
  max_size = 3;
  max_bytes = 100;
  pending = [];
  pending_bytes = 0;
  active = 0;
  active_bytes = 0;
  dropped = 0;
  closed = false;
  running = [];
}

construct-narrow : construct narrow ≡ some narrow_queue
unfolding construct
construct-narrow = refl

abbrev busy_day : List Event
busy_day =
    enqueues 1 (some 40)
    ∷ enqueues 2 (some 40)
    ∷ enqueues 3 (some 40)
    ∷ enqueues 4 none
    ∷ finishes 1 false
    ∷ enqueues 5 (some 20)
    ∷ finishes 2 true
    ∷ finishes 5 false
    ∷ enqueues 6 (some 1)
    ∷ enqueues 7 (some 1)
    ∷ closes
    ∷ enqueues 8 (some 1)
    ∷ []

deliver_all-busy_day :
    (deliver_all narrow_queue busy_day).1
    ≡ started 1
      ∷ overflow 40
      ∷ settled 1 false
      ∷ started 2
      ∷ settled 2 true
      ∷ started 5
      ∷ settled 5 false
      ∷ idle
      ∷ started 6
      ∷ settled 7 true
      ∷ []
unfolding deliver_all step enqueue enqueue_item drain_loop finish close
deliver_all-busy_day = refl

deliver_all-Inv_example : Inv (deliver_all narrow_queue busy_day).0
deliver_all-Inv_example = deliver_all-Inv narrow narrow_queue busy_day construct-narrow

deliver_all-Conserves_example :
    Conserves
      (λ id. if id == 7 then 1 else 0)
      narrow_queue
      (accepted narrow_queue busy_day)
      (deliver_all narrow_queue busy_day)
deliver_all-Conserves_example =
    deliver_all-Conserves (λ id. if id == 7 then 1 else 0) narrow_queue busy_day
