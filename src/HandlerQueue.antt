-- ===== src/HandlerQueue.antt =====
-- src/event-bus/handlerQueue.ts: the queue between the transport of invalidation events and their
-- handler. An item is known by a number; its encoding is known by its length. What the queue does to
-- the callbacks of items and to `onOverflow` and `onIdle` comes back as effects. The end of a handler
-- is one event: it settles the item and runs the `finally` clause. Reports to `onError` are left out.
pub mod Invariant
pub mod History
mod Tests
use lazy_layers.Prelude.{
  ℕ, ◌+◌, ◌-◌, Bool, true, false, Option, none, some, List, [], ◌∷◌, ◌++◌, ltb, leb, ◌==◌, ◌&&◌,
  ◌||◌, not, if◌then◌else◌, get_or, length, take_out, Number, natural, is_safe_natural,
  is_safe_positive, to_natural,
}

-- EventBusHandlerQueueOptions
pub record Options : Type 0 where
  pub concurrency : Option Number
  pub max_size : Option Number
  pub max_bytes : Option Number

-- PendingEvent
pub record Item : Type 0 where
  pub id : ℕ
  pub bytes : ℕ

pub record Queue : Type 0 where
  pub concurrency : ℕ
  pub max_size : ℕ
  pub max_bytes : ℕ
  pub pending : List Item
  pub pending_bytes : ℕ
  pub active : ℕ
  pub active_bytes : ℕ
  pub dropped : ℕ
  pub closed : Bool
  pub running : List Item

-- `settled id failed`: the callback `settle` of the item, with an error or without.
pub data Effect : Type 0 where
  started : ℕ → Effect
  settled : ℕ → Bool → Effect
  overflow : ℕ → Effect
  idle : Effect

-- The constructor; `none` is its RangeError.
unfoldable pub construct : Options → Option Queue
construct o =
    let concurrency = get_or o.concurrency (natural 1) in
    let size = get_or o.max_size (natural 10000) in
    let bytes = get_or o.max_bytes (natural 16777216) in
    if is_safe_positive concurrency && is_safe_natural size && is_safe_natural bytes
    then some (record {
      concurrency = to_natural concurrency;
      max_size = to_natural size;
      max_bytes = to_natural bytes;
      pending = [];
      pending_bytes = 0;
      active = 0;
      active_bytes = 0;
      dropped = 0;
      closed = false;
      running = [];
    })
    else none

abbrev pub start : Item → List Item → Queue → Queue
start i rest q = record q {
  pending = rest;
  pending_bytes = q.pending_bytes - i.bytes;
  active = q.active + 1;
  active_bytes = q.active_bytes + i.bytes;
  running = i ∷ q.running;
}

-- The loop of `drain`, on what is left of the pending items.
unfoldable pub drain_loop : List Item → Queue → Queue × List Effect
drain_loop [] q = (q, [])
drain_loop (i ∷ is) q =
    let (q', fx) = drain_loop is (start i is q) in
    if ltb q.active q.concurrency then (q', started i.id ∷ fx) else (q, [])

abbrev pub drain : Queue → Queue × List Effect
drain q = drain_loop q.pending q

abbrev pub push : Item → Queue → Queue
push i q = record q { pending = q.pending ++ i ∷ []; pending_bytes = q.pending_bytes + i.bytes }

abbrev pub added : Queue × List Effect → Queue × Bool × List Effect
added (q, fx) = (q, true, fx)

unfoldable pub enqueue_item : Item → Queue → Queue × Bool × List Effect
enqueue_item i q =
    if q.closed
    then (record q { dropped = q.dropped + 1 }, false, [])
    else if leb q.max_size (length q.pending + q.active)
        || ltb q.max_bytes (q.active_bytes + q.pending_bytes + i.bytes)
    then (record q { dropped = q.dropped + 1 }, false, overflow i.bytes ∷ [])
    else added (drain (push i q))

-- `enqueue`; `encoded` is missing when the encoder throws.
unfoldable pub enqueue : ℕ → Option ℕ → Queue → Queue × Bool × List Effect
enqueue id none q = (record q { dropped = q.dropped + 1 }, false, [])
enqueue id (some bytes) q =
    if q.closed
    then (record q { dropped = q.dropped + 1 }, false, [])
    else enqueue_item (record { id = id; bytes = bytes }) q

abbrev pub is_empty : List Item → Bool
is_empty [] = true
is_empty (i ∷ is) = false

-- The test behind the call of `onIdle`.
abbrev pub note_idle : Queue × List Effect → Queue × List Effect
note_idle (q, fx) =
    (q, if q.active == 0 && is_empty q.pending && not q.closed then fx ++ idle ∷ [] else fx)

abbrev pub tell : ℕ → Bool → Queue × List Effect → Queue × List Effect
tell id failed (q, fx) = (q, settled id failed ∷ fx)

abbrev pub finish_found : Bool → Option (Item × List Item) → Queue → Queue × List Effect
finish_found failed none q = (q, [])
finish_found failed (some (i, rest)) q = tell i.id failed (
    note_idle (
      drain (record q {
        active = q.active - 1;
        active_bytes = q.active_bytes - i.bytes;
        running = rest;
      })))

-- The handler of an item has ended, with an error or without.
unfoldable pub finish : ℕ → Bool → Queue → Queue × List Effect
finish id failed q = finish_found failed (take_out (λ (i : Item). i.id) id q.running) q

abbrev pub settle_all : List Item → List Effect
settle_all [] = []
settle_all (i ∷ is) = settled i.id true ∷ settle_all is

unfoldable pub close : Queue → Queue × List Effect
close q = (record q { closed = true; pending = []; pending_bytes = 0 }, settle_all q.pending)

unfoldable pub discard_pending : Queue → Queue × List Effect
discard_pending q = (record q { pending = []; pending_bytes = 0 }, settle_all q.pending)
