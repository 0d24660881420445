-- ===== src/RetryQueue/Bounds.antt =====
-- What holds of the retry queue (src/event-bus/retryQueue.ts) after any history.
use lazy_layers.Prelude.{
  ℕ, zero, suc, ◌+◌, ◌≡◌, ◌≤◌, ◌<◌, refl, Bool, true, false, Option, none, some, List, [], ◌∷◌,
  arith, length, length-append, sum_by, sum_by-append, if_lem, if_cases, subst, ◌==◌, ◌||◌, ltb,
  leb, ◌&&◌,
}
use lazy_layers.RetryQueue.{
  Queue, Entry, Options, Overflow, construct, waiting_size, oldest_waiting, drop_found, drop_oldest,
  fit, add, make_room, enqueue_encoded, with_encoded, enqueue, take_next, finish, clear,
}

-- The bytes are those of the entries, and within the limit, and there are at most `max_size` entries
-- and one more; while an entry is being published, there is one.
pub record Inv (q : Queue) : Type 0 where
  pub bytes_exact : q.bytes ≡ sum_by (λ (e : Entry). e.bytes) q.events
  pub bytes_bounded : q.bytes ≤ q.max_bytes
  pub size_bounded : length q.events ≤ q.max_size + 1
  pub publishes : q.flushing ≡ true → 0 < length q.events

pub construct-Inv : (o : Options) {q : Queue} → construct o ≡ some q → Inv q
unfolding construct
construct-Inv o h = ground arith

abbrev IsShorter : Queue → Queue → Type 0
IsShorter q q' =
    (waiting_size q' + 1 ≡ waiting_size q)
    × (q'.max_size ≡ q.max_size)
    × (q'.max_bytes ≡ q.max_bytes)
    × (q'.flushing ≡ q.flushing)
    × (q'.dropped ≡ q.dropped + 1)
    × (q'.bytes ≤ q.bytes)
    × (length q'.events + 1 ≡ length q.events)

-- Dropping the oldest entry that waits.
pub drop_found-Inv :
    (q : Queue)
    → Inv q
    → 0 < waiting_size q
    → let q' = drop_found (oldest_waiting q.flushing q.events) q in Inv q' × IsShorter q q'
drop_found-Inv q v h = ground (arith, v)

-- What the loop comes to: room for `n` bytes, or no entry left that waits.
pub record Dropped (n : ℕ) (q q' : Queue) : Type 0 where
  pub inv : Inv q'
  pub same_size : q'.max_size ≡ q.max_size
  pub same_bytes : q'.max_bytes ≡ q.max_bytes
  pub same_flushing : q'.flushing ≡ q.flushing
  pub counted : q'.dropped + length q'.events ≡ q.dropped + length q.events
  pub fewer : length q'.events ≤ length q.events
  pub done : q'.max_bytes < q'.bytes + n → waiting_size q' ≡ 0

abbrev DroppedAfter : ℕ → Queue → Queue × List Overflow → Type 0
DroppedAfter n q (q', told) = Dropped n q q'

Dropped-then : (n : ℕ) (q q' q'' : Queue) → IsShorter q q' → Dropped n q' q'' → Dropped n q q''
Dropped-then n q q' q'' s d = ground (arith, s, d)

-- As many rounds as entries wait are enough.
pub drop_oldest-Dropped :
    (k n : ℕ) (q : Queue) → k ≡ waiting_size q → Inv q → DroppedAfter n q (drop_oldest k n q)
unfolding drop_oldest
drop_oldest-Dropped zero n q e v = ground (arith, v)
drop_oldest-Dropped (suc k) n q e v =
    let (v', s) = drop_found-Inv q v (omega arith) in
    let q' = drop_found (oldest_waiting q.flushing q.events) q in
    let rest = drop_oldest-Dropped k n q' (omega (arith, s.0, e)) v' in
    if_cases (DroppedAfter n q) (ltb 0 (waiting_size q) && ltb q.max_bytes (q.bytes + n))
      (λ h. Dropped-then n q q' (drop_oldest k n q').0 s rest) (λ h. ground (arith, v))

-- What a call of `enqueue` comes to: every event is added or counted as dropped, or an older one is.
abbrev pub Counted : Queue → Queue × Bool × List Overflow → Type 0
Counted q (q', added, told) =
    (q'.dropped + length q'.events ≡ q.dropped + length q.events + 1) × (q'.flushing ≡ q.flushing)

abbrev Enqueued : Queue → Queue × Bool × List Overflow → Type 0
Enqueued q (q', added, told) = Inv q' × Counted q (q', added, told)

abbrev new : ℕ → ℕ → Entry
new event n = record { event = event; bytes = n; discard_after_publish = false }

add-Inv :
    (event n : ℕ) (q : Queue)
    → Inv q
    → length q.events ≤ q.max_size
    → q.bytes + n ≤ q.max_bytes
    → Inv (add event n q)
add-Inv event n q v h k = grind (arith, v, length-append, sum_by-append)

fit-Enqueued :
    (event n : ℕ) (q : Queue) → Inv q → length q.events ≤ q.max_size → Enqueued q (fit event n q)
fit-Enqueued event n q v h =
    let (q', told) = drop_oldest (waiting_size q) n q in
    let d : Dropped n q q' = drop_oldest-Dropped (waiting_size q) n q refl v in
    if_cases (Enqueued q) (ltb q'.max_bytes (q'.bytes + n)) (λ e. ground (arith, d))
      (λ e. (
        add-Inv event n q' d.inv (omega (arith, d.fewer, d.same_size)) (ground arith),
        (omega (arith, d.counted, length-append q'.events (new event n ∷ [])), d.same_flushing),
      ))

Enqueued-then :
    (q q' : Queue) (r : Queue × Bool × List Overflow)
    → IsShorter q q'
    → Enqueued q' r
    → Enqueued q r
Enqueued-then q q' (q'', added, told) s h = ground (arith, s, h)

make_room-Enqueued :
    (o : Option (Entry × List Entry)) (event n : ℕ) (q : Queue)
    → oldest_waiting q.flushing q.events ≡ o
    → Inv q
    → 0 < waiting_size q
    → Enqueued q (make_room o event n q)
make_room-Enqueued none event n q e v h = ground (arith, v)
make_room-Enqueued (some (e, rest)) event n q same v h =
    let q' = drop_found (some (e, rest)) q in
    let (v', s) =
      subst (λ o. Inv (drop_found o q) × IsShorter q (drop_found o q)) same
        (drop_found-Inv q v h) in
    Enqueued-then q q' (fit event n q') s
      (fit-Enqueued event n q' v' (ground (arith, s, v.size_bounded)))

enqueue_encoded-Enqueued :
    (event n : ℕ) (q : Queue) → Inv q → 0 < q.max_size → Enqueued q (enqueue_encoded event n q)
enqueue_encoded-Enqueued event n q v h =
    if_lem (Enqueued q) (q.max_bytes == 0 || ltb q.max_bytes n) (ground (arith, v)) (
      if_cases (Enqueued q) (leb q.max_size (waiting_size q))
        (λ e.
          make_room-Enqueued (oldest_waiting q.flushing q.events) event n q refl v
            (ground (arith, h)))
        (λ e. fit-Enqueued event n q v (ground arith)))

with_encoded-Enqueued :
    (o : Option ℕ) (event : ℕ) (q : Queue)
    → Inv q
    → 0 < q.max_size
    → Enqueued q (with_encoded o event q)
with_encoded-Enqueued none event q v h = ground (arith, v)
with_encoded-Enqueued (some n) event q v h = enqueue_encoded-Enqueued event n q v h

pub enqueue-Enqueued :
    (event : ℕ) (encoded : Option ℕ) (q : Queue) → Inv q → Enqueued q (enqueue event encoded q)
unfolding enqueue
enqueue-Enqueued event encoded q v =
    if_lem (Enqueued q) q.enabled
      (if_cases (Enqueued q) (q.max_size == 0) (λ e. ground (arith, v))
        (λ e. with_encoded-Enqueued encoded event q v (ground arith)))
      (ground (arith, v))

pub take_next-Inv : (q : Queue) → Inv q → Inv (take_next q).0
unfolding take_next
take_next-Inv q v = ground (arith, v)

pub finish-Inv : (published : Bool) (q : Queue) → Inv q → Inv (finish published q)
unfolding finish
finish-Inv published q v = ground (arith, v)

pub clear-Inv : (q : Queue) → Inv q → Inv (clear q)
unfolding clear
clear-Inv q v = ground (arith, v)
