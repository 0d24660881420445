-- ===== src/RetryQueue.antt =====
-- src/event-bus/retryQueue.ts: the backlog of invalidation events that could not be published. An
-- entry is known by the number of its event; its encoding is known by its length, which is missing
-- when the encoder throws. The entry that is being published is the first of the set: `drain` takes
-- the first, and entries are only added at the end. The calls of `onOverflow` come back as a list.
pub mod Bounds
pub mod Backlog
mod Tests
use lazy_layers.Prelude.{
  ℕ, zero, suc, ◌+◌, ◌-◌, Bool, true, false, Option, none, some, List, [], ◌∷◌, ◌++◌, ltb, leb,
  ◌==◌, ◌&&◌, ◌||◌, if◌then◌else◌, get_or, length, cons_rest, Number, natural, is_safe_natural,
  to_natural,
}

-- EventBusRetryQueueOptions
pub record Options : Type 0 where
  pub enabled : Option Bool
  pub max_size : Option Number
  pub max_bytes : Option Number

pub record Entry : Type 0 where
  pub event : ℕ
  pub bytes : ℕ
  pub discard_after_publish : Bool

pub record Queue : Type 0 where
  pub enabled : Bool
  pub max_size : ℕ
  pub max_bytes : ℕ
  pub events : List Entry
  pub bytes : ℕ
  pub dropped : ℕ
  pub flushing : Bool

pub data Overflow : Type 0 where
  disabled : Overflow
  over_count : ℕ → Overflow
  over_bytes : ℕ → Overflow

-- The constructor, with the defaults of the limits; `none` is its RangeError.
unfoldable pub construct : Options → Option Queue
construct o =
    let size = get_or o.max_size (natural 10000) in
    let bytes = get_or o.max_bytes (natural 16777216) in
    if is_safe_natural size && is_safe_natural bytes
    then some (record {
      enabled = get_or o.enabled true;
      max_size = to_natural size;
      max_bytes = to_natural bytes;
      events = [];
      bytes = 0;
      dropped = 0;
      flushing = false;
    })
    else none

abbrev pub waiting_size : Queue → ℕ
waiting_size q = length q.events - (if q.flushing then 1 else 0)

abbrev pub first_of : List Entry → Option (Entry × List Entry)
first_of [] = none
first_of (e ∷ es) = some (e, es)

-- `removeOldestWaiting` skips the entry that is being published.
abbrev pub oldest_waiting : Bool → List Entry → Option (Entry × List Entry)
oldest_waiting false es = first_of es
oldest_waiting true [] = none
oldest_waiting true (e ∷ es) = cons_rest e (first_of es)

-- An entry is removed and counted as dropped.
abbrev pub drop_found : Option (Entry × List Entry) → Queue → Queue
drop_found none q = record q { dropped = q.dropped + 1 }
drop_found (some (e, rest)) q = record q {
  events = rest;
  bytes = q.bytes - e.bytes;
  dropped = q.dropped + 1;
}

abbrev pub bytes_found : Option (Entry × List Entry) → ℕ
bytes_found none = 0
bytes_found (some (e, rest)) = e.bytes

-- The `while` loop of `enqueue`, for at most as many rounds as entries wait.
unfoldable pub drop_oldest : ℕ → ℕ → Queue → Queue × List Overflow
drop_oldest zero n q = (q, [])
drop_oldest (suc k) n q =
    let found = oldest_waiting q.flushing q.events in
    let (q', told) = drop_oldest k n (drop_found found q) in
    if ltb 0 (waiting_size q) && ltb q.max_bytes (q.bytes + n)
    then (q', over_bytes (bytes_found found) ∷ told)
    else (q, [])

abbrev pub add : ℕ → ℕ → Queue → Queue
add event n q = record q {
  events = q.events ++ record { event = event; bytes = n; discard_after_publish = false } ∷ [];
  bytes = q.bytes + n;
}

-- `enqueue` from the loop on.
abbrev pub fit : ℕ → ℕ → Queue → Queue × Bool × List Overflow
fit event n q =
    let (q', told) = drop_oldest (waiting_size q) n q in
    if ltb q'.max_bytes (q'.bytes + n)
    then (record q' { dropped = q'.dropped + 1 }, false, told ++ over_bytes n ∷ [])
    else (add event n q', true, told)

-- `enqueue` from the test of the backlog on.
abbrev pub make_room : Option (Entry × List Entry) → ℕ → ℕ → Queue → Queue × Bool × List Overflow
make_room none event n q = (record q { dropped = q.dropped + 1 }, false, over_count n ∷ [])
make_room (some (e, rest)) event n q =
    let (q', added, told) = fit event n (drop_found (some (e, rest)) q) in
    (q', added, over_count e.bytes ∷ told)

abbrev pub enqueue_encoded : ℕ → ℕ → Queue → Queue × Bool × List Overflow
enqueue_encoded event n q =
    if q.max_bytes == 0 || ltb q.max_bytes n
    then (record q { dropped = q.dropped + 1 }, false, over_bytes n ∷ [])
    else if leb q.max_size (waiting_size q)
    then make_room (oldest_waiting q.flushing q.events) event n q
    else fit event n q

abbrev pub with_encoded : Option ℕ → ℕ → Queue → Queue × Bool × List Overflow
with_encoded none event q = (record q { dropped = q.dropped + 1 }, false, over_bytes 0 ∷ [])
with_encoded (some n) event q = enqueue_encoded event n q

unfoldable pub enqueue : ℕ → Option ℕ → Queue → Queue × Bool × List Overflow
enqueue event encoded q =
    if q.enabled
    then if q.max_size == 0
      then (record q { dropped = q.dropped + 1 }, false, over_count 0 ∷ [])
      else with_encoded encoded event q
    else (record q { dropped = q.dropped + 1 }, false, disabled ∷ [])

-- The head of the loop of `drain`: the entry whose event is published now.
unfoldable pub take_next : Queue → Queue × Option ℕ
take_next q =
    if q.flushing
    then (q, none)
    else elim q.events [ [] ↦ (q, none) | e ∷ es ↦ (record q { flushing = true }, some e.event) ]

abbrev pub delete_first : List Entry → Queue → Queue
delete_first [] q = q
delete_first (e ∷ es) q = record q { events = es; bytes = q.bytes - e.bytes }

abbrev pub is_discarded : List Entry → Bool
is_discarded [] = false
is_discarded (e ∷ es) = e.discard_after_publish

-- The end of one round of `drain`, after the publication or after its failure.
unfoldable pub finish : Bool → Queue → Queue
finish published q =
    if q.flushing
    then if published || is_discarded q.events
      then delete_first q.events (record q { flushing = false })
      else record q { flushing = false }
    else q

abbrev pub keep_first : List Entry → Queue → Queue
keep_first [] q = record q { events = []; bytes = 0 }
keep_first (e ∷ es) q = record q {
  events = record e { discard_after_publish = true } ∷ [];
  bytes = e.bytes;
}

unfoldable pub clear : Queue → Queue
clear q = if q.flushing then keep_first q.events q else record q { events = []; bytes = 0 }
