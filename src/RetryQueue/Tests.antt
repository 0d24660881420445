-- ===== src/RetryQueue/Tests.antt =====
-- Tests of the retry queue, and examples of its theorems: two entries wait, of a hundred bytes.
use lazy_layers.Prelude.{◌≡◌, refl, true, false, none, some, List, [], ◌∷◌, arith, length, natural}
use lazy_layers.RetryQueue.{
  Queue, Options, construct, enqueue, take_next, finish, drop_oldest, waiting_size,
}
use lazy_layers.RetryQueue.Bounds.{Inv, construct-Inv}
use lazy_layers.RetryQueue.Backlog.{
  Event, enqueues, takes, finishes, step, queue_all, queue_all-Inv, tally_all, no_events,
  enqueue_accepts,
}

abbrev small : Options
small = record { enabled = none; max_size = some (natural 2); max_bytes = some (natural 100) }

abbrev small_queue : Queue
small_queue = record {
  enabled = true;
  max_size = 2;
  max_bytes = 100;
  events = [];
  bytes = 0;
  dropped = 0;
  flushing = false;
}

construct-small : construct small ≡ some small_queue
unfolding construct
construct-small = refl

-- The first event is published, the second is dropped for the fourth.
abbrev busy_day : List Event
busy_day =
    enqueues 1 (some 40)
    ∷ enqueues 2 (some 30)
    ∷ takes
    ∷ finishes true
    ∷ enqueues 3 (some 30)
    ∷ enqueues 4 (some 60)
    ∷ enqueues 5 none
    ∷ enqueues 6 (some 101)
    ∷ []

queue_all-busy_day :
    let q = queue_all small_queue busy_day in
    (q.bytes ≡ 90) × (q.dropped ≡ 3) × (length q.events ≡ 2)
unfolding queue_all step enqueue take_next finish drop_oldest
queue_all-busy_day = (refl, refl, refl)

-- While the first event is being published two more may wait. When its publication fails it waits
-- again, and the backlog stays one above `max_size` over later events.
abbrev failed_publication : List Event
failed_publication =
    enqueues 1 (some 10)
    ∷ takes
    ∷ enqueues 2 (some 10)
    ∷ enqueues 3 (some 10)
    ∷ finishes false
    ∷ enqueues 4 (some 10)
    ∷ []

backlog_above_max_size : waiting_size (queue_all small_queue failed_publication) ≡ 3
unfolding queue_all step enqueue take_next finish drop_oldest
backlog_above_max_size = refl

queue_all-Inv_example : Inv (queue_all small_queue busy_day)
queue_all-Inv_example = queue_all-Inv small small_queue busy_day construct-small

tally-busy_day :
    tally_all small_queue busy_day no_events ≡ record { added = 6; published = 1; cleared = 0 }
unfolding tally_all step enqueue take_next finish drop_oldest
tally-busy_day = refl

enqueue_accepts_example : (enqueue 1 (some 100) small_queue).1 ≡ true
enqueue_accepts_example =
    enqueue_accepts 1 100 small_queue (construct-Inv small construct-small) refl refl (omega arith)
      (omega arith) (omega arith)
