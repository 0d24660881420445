-- ===== src/OriginGate.antt =====
-- src/cache/originLoadGate.ts: the gate in front of the origin. A load is known by its number `id`.
-- What a method does to promises comes back as effects. `holders` are the reservations whose
-- `release` has not been called. The gate holds the memory budget that it shares, if it has one.
pub mod Invariant
pub mod History
pub mod Order
pub mod Accounts
mod Tests
use lazy_layers.Prelude.{
  ℕ, ◌+◌, ◌-◌, ◌*◌, Bool, true, false, Option, none, some, List, [], ◌∷◌, ◌++◌, ltb, leb, ◌==◌,
  ◌&&◌, ◌||◌, if◌then◌else◌, get_or, length, take_out, max, Number, natural, is_safe_natural,
  is_safe_positive, to_natural, Text, codes,
}
use lazy_layers.MemoryBudget.{Budget, try_reserve}
use lazy_layers.MemoryBudget

-- OriginLoadOptions
pub record Options : Type 0 where
  pub max_concurrent : Option Number
  pub max_queued : Option Number
  pub queue_timeout_ms : Option Number

pub record Limits : Type 0 where
  pub max_concurrent : ℕ
  pub max_queued : ℕ
  pub queue_timeout_ms : ℕ

-- OriginLoadOverloadError, OriginLoadClosedError and the reason of an abort
pub data Error : Type 0 where
  overload : Text → Error
  closed_error : Error
  aborted : Error

pub record Waiter : Type 0 where
  pub id : ℕ
  pub key : Text
  pub bytes : ℕ

pub record Gate : Type 0 where
  pub limits : Limits
  pub open limits use *
  pub active : ℕ
  pub queue : List Waiter
  pub closed : Bool
  pub rejected : ℕ
  pub max_observed : ℕ
  pub queued_bytes : ℕ
  pub holders : List ℕ
  pub budget : Option Budget

pub data Effect : Type 0 where
  granted : ℕ → Effect
  refused : ℕ → Error → Effect

-- MAX_QUEUED_KEY_BYTES
abbrev pub max_queued_key_bytes : ℕ
max_queued_key_bytes = 2097152

abbrev pub is_valid : Number → Number → Number → Bool
is_valid concurrent queued timeout =
    is_safe_positive concurrent
    && is_safe_natural queued
    && is_safe_natural timeout
    && leb (to_natural timeout) 2147483647

abbrev pub empty : Limits → Option Budget → Gate
empty l b = record {
  limits = l;
  active = 0;
  queue = [];
  closed = false;
  rejected = 0;
  max_observed = 0;
  queued_bytes = 0;
  holders = [];
  budget = b;
}

-- The constructor; `none` is its RangeError.
unfoldable pub construct : Options → Option Budget → Option Gate
construct o b =
    let concurrent = get_or o.max_concurrent (natural 32) in
    let queued = get_or o.max_queued (natural 1024) in
    let timeout = get_or o.queue_timeout_ms (natural 1000) in
    if is_valid concurrent queued timeout
    then some (
        empty
          (record {
            max_concurrent = to_natural concurrent;
            max_queued = to_natural queued;
            queue_timeout_ms = to_natural timeout;
          })
          b)
    else none

-- `this.memoryBudget.tryReserve(bytes, 'queue')`, if there is a budget.
abbrev pub reserve : ℕ → Option Budget → Option Budget × Bool
reserve bytes none = (none, true)
reserve bytes (some b) =
    let (b', admitted) = try_reserve (natural bytes) (codes "queue") b in (some b', admitted)

abbrev pub give_back : ℕ → Option Budget → Option Budget
give_back bytes none = none
give_back bytes (some b) = some (MemoryBudget.release (natural bytes) (codes "queue") b)

-- A new reservation: `active` and `maxObserved`, and its `release` to come.
abbrev pub grant : ℕ → Gate → Gate × List Effect
grant id g = (
  record g {
    active = g.active + 1;
    max_observed = max g.max_observed (g.active + 1);
    holders = id ∷ g.holders;
  },
  granted id ∷ [],
)

abbrev pub reject : ℕ → Text → Gate → Gate × List Effect
reject id key g = (record g { rejected = g.rejected + 1 }, refused id (overload key) ∷ [])

abbrev pub enqueue : Waiter → Gate → Gate × List Effect
enqueue w g = (record g { queue = g.queue ++ w ∷ []; queued_bytes = g.queued_bytes + w.bytes }, [])

abbrev pub enqueue_reserved : Waiter → Gate → Option Budget × Bool → Gate × List Effect
enqueue_reserved w g (b, admitted) =
    if admitted
    then enqueue w (record g { budget = b })
    else reject w.id w.key (record g { budget = b })

-- `acquire`; `is_aborted` says whether the signal, if there is one, is aborted already, and
-- `key_bytes` is `Buffer.byteLength(String(key))`.
unfoldable pub acquire : ℕ → Text → ℕ → Bool → Gate → Gate × List Effect
acquire id key key_bytes is_aborted g =
    let bytes = key_bytes * 2 + 128 in
    if g.closed
    then (g, refused id closed_error ∷ [])
    else if is_aborted
    then (g, refused id aborted ∷ [])
    else if ltb g.active g.max_concurrent
    then grant id g
    else if leb g.max_queued (length g.queue) || g.max_queued == 0
    then reject id key g
    else if ltb max_queued_key_bytes (g.queued_bytes + bytes)
    then reject id key g
    else enqueue_reserved (record { id = id; key = key; bytes = bytes }) g (reserve bytes g.budget)

-- `cleanupWaiter`, and the waiter taken out of the queue.
abbrev pub drop_waiter : Waiter → List Waiter → Gate → Gate
drop_waiter w rest g = record g {
  queue = rest;
  queued_bytes = g.queued_bytes - w.bytes;
  budget = give_back w.bytes g.budget;
}

abbrev pub expire_found : Option (Waiter × List Waiter) → Gate → Gate × List Effect
expire_found none g = (g, [])
expire_found (some (w, rest)) g = reject w.id w.key (drop_waiter w rest g)

-- The timer of a load that waits.
unfoldable pub expire : ℕ → Gate → Gate × List Effect
expire id g = expire_found (take_out (λ (w : Waiter). w.id) id g.queue) g

abbrev pub abort_found : Option (Waiter × List Waiter) → Gate → Gate × List Effect
abort_found none g = (g, [])
abort_found (some (w, rest)) g = (drop_waiter w rest g, refused w.id aborted ∷ [])

-- The abort of the signal of a load that waits.
unfoldable pub abort : ℕ → Gate → Gate × List Effect
abort id g = abort_found (take_out (λ (w : Waiter). w.id) id g.queue) g

abbrev pub grant_next : List Waiter → Gate → Gate × List Effect
grant_next [] g = (g, [])
grant_next (w ∷ rest) g = grant w.id (drop_waiter w rest g)

-- The private method `release`.
abbrev pub release_slot : Gate → Gate × List Effect
release_slot g =
    grant_next g.queue (if ltb 0 g.active then record g { active = g.active - 1 } else g)

abbrev pub release_found : Option (ℕ × List ℕ) → Gate → Gate × List Effect
release_found none g = (g, [])
release_found (some (id, rest)) g = release_slot (record g { holders = rest })

-- The `release` that `acquire` has handed out; it works once.
unfoldable pub release : ℕ → Gate → Gate × List Effect
release id g = release_found (take_out (λ (k : ℕ). k) id g.holders) g

-- The loop of `close`.
abbrev pub refuse_all : List Waiter → Gate → Gate × List Effect
refuse_all [] g = (g, [])
refuse_all (w ∷ ws) g =
    let (g', fx) = refuse_all ws (drop_waiter w ws g) in (g', refused w.id closed_error ∷ fx)

unfoldable pub close : Gate → Gate × List Effect
close g = refuse_all g.queue (record g { closed = true })
