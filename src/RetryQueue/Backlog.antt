-- ===== src/RetryQueue/Backlog.antt =====
-- Histories of the retry queue (src/event-bus/retryQueue.ts): its bounds, the account of its events,
-- and the acceptance of new ones.
use lazy_layers.Prelude.{
  ℕ, ◌+◌, ◌≡◌, ◌≤◌, ◌<◌, refl, ◌∙◌, Bool, true, false, Option, none, some, List, [], ◌∷◌, arith,
  length, sum_by, subst, if_cases, ltb, leb, ◌==◌, ◌||◌, ◌&&◌, if◌then◌else◌,
}
use lazy_layers.RetryQueue.{
  Queue, Entry, Options, Overflow, construct, waiting_size, oldest_waiting, drop_found, drop_oldest,
  fit, make_room, enqueue, take_next, finish, clear, is_discarded,
}
use lazy_layers.RetryQueue.Bounds.{
  Inv, Dropped, construct-Inv, drop_found-Inv, drop_oldest-Dropped, enqueue-Enqueued, take_next-Inv,
  finish-Inv, clear-Inv,
}

pub data Event : Type 0 where
  enqueues : ℕ → Option ℕ → Event
  takes : Event
  finishes : Bool → Event
  clears : Event

unfoldable pub step : Queue → Event → Queue
step q (enqueues event encoded) = (enqueue event encoded q).0
step q takes = (take_next q).0
step q (finishes published) = finish published q
step q clears = clear q

unfoldable pub queue_all : Queue → List Event → Queue
queue_all q [] = q
queue_all q (e ∷ es) = queue_all (step q e) es

step-Inv : (q : Queue) (e : Event) → Inv q → Inv (step q e)
unfolding step
step-Inv q (enqueues event encoded) v = (enqueue-Enqueued event encoded q v).0
step-Inv q takes v = take_next-Inv q v
step-Inv q (finishes published) v = finish-Inv published q v
step-Inv q clears v = clear-Inv q v

queue_all_from-Inv : (q : Queue) (es : List Event) → Inv q → Inv (queue_all q es)
unfolding queue_all
queue_all_from-Inv q [] v = v
queue_all_from-Inv q (e ∷ es) v = queue_all_from-Inv (step q e) es (step-Inv q e v)

-- After any history of a queue that was constructed, its bytes are those of its entries and at most
-- `max_bytes`, and it has at most `max_size` entries and one more.
pub queue_all-Inv :
    (o : Options) (q : Queue) (es : List Event) → construct o ≡ some q → Inv (queue_all q es)
queue_all-Inv o q es e = queue_all_from-Inv q es (construct-Inv o e)

-- What a history does to the events, one by one: `added` are handed to `enqueue`, `published` were
-- being published and the publication succeeded, and `cleared` waited when `clear` was called, or were
-- being published then by a publication that failed.
pub record Tally : Type 0 where
  pub added : ℕ
  pub published : ℕ
  pub cleared : ℕ

abbrev pub tally_step : Queue → Event → Tally → Tally
tally_step q (enqueues event encoded) t = record t { added = t.added + 1 }
tally_step q takes t = t
tally_step q (finishes true) t = if q.flushing then record t { published = t.published + 1 } else t
tally_step q (finishes false) t =
    if q.flushing && is_discarded q.events then record t { cleared = t.cleared + 1 } else t
tally_step q clears t = record t { cleared = t.cleared + waiting_size q }

unfoldable pub tally_all : Queue → List Event → Tally → Tally
tally_all q [] t = t
tally_all q (e ∷ es) t = tally_all (step q e) es (tally_step q e t)

-- Every event is accounted for.
abbrev pub IsCounted : Queue → Tally → Type 0
IsCounted q t = q.dropped + length q.events + t.published + t.cleared ≡ t.added

abbrev pub no_events : Tally
no_events = record { added = 0; published = 0; cleared = 0 }

abbrev Accepted : Queue × Bool × List Overflow → Type 0
Accepted (q, added, told) = added ≡ true

sum_by_none : (f : Entry → ℕ) (es : List Entry) → length es ≡ 0 → sum_by f es ≡ 0
sum_by_none f [] h = refl
sum_by_none f (e ∷ es) h = absurd (omega (arith, h))

room : (n : ℕ) (q : Queue) → Inv q → waiting_size q ≡ 0 → q.flushing ≡ false → q.bytes ≡ 0
room n q v w f = ground (arith, v.bytes_exact, sum_by_none (λ (e : Entry). e.bytes) q.events)

fit-Accepted :
    (event n : ℕ) (q : Queue)
    → Inv q
    → q.flushing ≡ false
    → n ≤ q.max_bytes
    → Accepted (fit event n q)
fit-Accepted event n q v f h =
    let (q', told) = drop_oldest (waiting_size q) n q in
    let d : Dropped n q q' = drop_oldest-Dropped (waiting_size q) n q refl v in
    if_cases Accepted (ltb q'.max_bytes (q'.bytes + n))
      (λ e.
        let over : q'.max_bytes < q'.bytes + n = ground arith in
        absurd (
          omega
            (arith, over, h, d.same_bytes, room n q' d.inv (d.done over) (d.same_flushing ∙ f))))
      (λ e. refl)

make_room-Accepted :
    (o : Option (Entry × List Entry)) (event n : ℕ) (q : Queue)
    → oldest_waiting q.flushing q.events ≡ o
    → Inv q
    → 0 < waiting_size q
    → q.flushing ≡ false
    → n ≤ q.max_bytes
    → Accepted (make_room o event n q)
make_room-Accepted none event n q same v w f h = ground (arith, v)
make_room-Accepted (some (e, rest)) event n q same v w f h =
    let v' = subst (λ o. Inv (drop_found o q)) same (drop_found-Inv q v w).0 in
    fit-Accepted event n (drop_found (some (e, rest)) q) v' f h

-- An enabled queue within its bounds that is not publishing accepts every event that fits into
-- `max_bytes`, if both of its limits are positive: older entries make room for it.
pub enqueue_accepts :
    (event n : ℕ) (q : Queue)
    → Inv q
    → q.enabled ≡ true
    → q.flushing ≡ false
    → 0 < q.max_size
    → 0 < q.max_bytes
    → n ≤ q.max_bytes
    → (enqueue event (some n) q).1 ≡ true
unfolding enqueue
enqueue_accepts event n q v on f s b h =
    if_cases Accepted q.enabled
      (λ e.
        if_cases Accepted (q.max_size == 0) (λ k. absurd (ground arith))
          (λ k.
            if_cases Accepted (q.max_bytes == 0 || ltb q.max_bytes n) (λ l. absurd (ground arith))
              (λ l.
                if_cases Accepted (leb q.max_size (waiting_size q))
                  (λ m.
                    make_room-Accepted (oldest_waiting q.flushing q.events) event n q refl v
                      (ground arith) f h)
                  (λ m. fit-Accepted event n q v f h))))
      (λ e. absurd (ground arith))
