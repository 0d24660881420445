-- ===== src/L2Gate.antt =====
-- src/cache/l2OperationGate.ts: the bounded gate in front of the shared L2 store.
-- A call is known by its number `id`, which stands for its promise and its closures. What a method
-- does to promises comes back as a list of effects. `running` holds what the closures of the
-- started calls remember: the `finally` handler with its bytes, and whether the deadline timer of
-- the call has fired. Byte counts are whole numbers.
pub mod Invariant
pub mod History
pub mod Order
pub mod Reached
mod Tests
use lazy_layers.Prelude.{
  ℕ, ◌+◌, ◌-◌, Bool, true, false, Option, none, some, List, [], ◌∷◌, ◌++◌, ltb, leb, ◌==◌, ◌&&◌,
  ◌||◌, if◌then◌else◌, get_or, length, take_out, map, String, Number, natural, is_safe_natural,
  is_safe_positive, to_natural,
}

-- L2OperationGateOptions
pub record Options : Type 0 where
  pub max_concurrent : Option Number
  pub max_queued : Option Number
  pub max_queued_bytes : Option Number
  pub queue_timeout_ms : Option Number
  pub operation_timeout_ms : Option Number

-- The options with the defaults filled in, and the limits once they are known to be valid.
pub record Filled : Type 0 where
  pub max_concurrent : Number
  pub max_queued : Number
  pub max_queued_bytes : Number
  pub queue_timeout_ms : Number
  pub operation_timeout_ms : Number

pub record Limits : Type 0 where
  pub max_concurrent : ℕ
  pub max_queued : ℕ
  pub max_queued_bytes : ℕ
  pub queue_timeout_ms : ℕ
  pub operation_timeout_ms : ℕ

-- L2OperationOverloadError, L2OperationTimeoutError and L2OperationClosedError
pub data Error : Type 0 where
  overload : String → Error
  timeout : String → ℕ → Error
  closed_error : Error

-- A call that waits in the queue.
pub record Waiter : Type 0 where
  pub id : ℕ
  pub operation : String
  pub bytes : ℕ

pub record Running : Type 0 where
  pub id : ℕ
  pub operation : String
  pub bytes : ℕ
  pub timed_out : Bool

pub record Gate : Type 0 where
  pub limits : Limits
  pub open limits use *
  pub active : ℕ
  pub active_bytes : ℕ
  pub queued_bytes : ℕ
  pub queue : List Waiter
  pub closed : Bool
  pub rejected : ℕ
  pub expired : ℕ
  pub command_timeouts : ℕ
  pub running : List Running

pub data Effect : Type 0 where
  started : ℕ → Effect
  refused : ℕ → Error → Effect
  late : ℕ → Error → Effect
  settled : ℕ → Effect

-- defaultL2OperationGateOptions
unfoldable pub default_options : Options → Filled
default_options o = record {
  max_concurrent = get_or o.max_concurrent (natural 64);
  max_queued = get_or o.max_queued (natural 1024);
  max_queued_bytes = get_or o.max_queued_bytes (natural 33554432);
  queue_timeout_ms = get_or o.queue_timeout_ms (natural 250);
  operation_timeout_ms = get_or o.operation_timeout_ms (natural 2000);
}

abbrev pub is_valid : Filled → Bool
is_valid f =
    is_safe_positive f.max_concurrent
    && is_safe_natural f.max_queued
    && is_safe_natural f.max_queued_bytes
    && is_safe_natural f.queue_timeout_ms
    && is_safe_positive f.operation_timeout_ms

abbrev pub to_limits : Filled → Limits
to_limits f = record {
  max_concurrent = to_natural f.max_concurrent;
  max_queued = to_natural f.max_queued;
  max_queued_bytes = to_natural f.max_queued_bytes;
  queue_timeout_ms = to_natural f.queue_timeout_ms;
  operation_timeout_ms = to_natural f.operation_timeout_ms;
}

abbrev pub empty : Limits → Gate
empty l = record {
  limits = l;
  active = 0;
  active_bytes = 0;
  queued_bytes = 0;
  queue = [];
  closed = false;
  rejected = 0;
  expired = 0;
  command_timeouts = 0;
  running = [];
}

-- The constructor; `none` is its RangeError.
unfoldable pub construct : Options → Option Gate
unfolding default_options
construct o =
    if is_valid (default_options o) then some (empty (to_limits (default_options o))) else none

abbrev pub start : ℕ → String → ℕ → Gate → Gate × List Effect
start id operation bytes g = (
  record g {
    active = g.active + 1;
    active_bytes = g.active_bytes + bytes;
    running =
        record { id = id; operation = operation; bytes = bytes; timed_out = false } ∷ g.running;
  },
  started id ∷ [],
)

abbrev pub start_waiter : Waiter → List Waiter → Gate → Gate × List Effect
start_waiter w rest g =
    start w.id w.operation w.bytes
      (record g { queue = rest; queued_bytes = g.queued_bytes - w.bytes })

-- The body of `pump` behind its guard.
abbrev pub shift : List Waiter → Gate → Gate × List Effect
shift [] g = (g, [])
shift (w ∷ rest) g = start_waiter w rest g

abbrev pub pump : Gate → Gate × List Effect
pump g = if g.closed || leb g.max_concurrent g.active then (g, []) else shift g.queue g

-- `this.queue.length === 0`
abbrev pub is_empty : List Waiter → Bool
is_empty [] = true
is_empty (w ∷ ws) = false

abbrev pub enqueue : Waiter → Gate → Gate × List Effect
enqueue w g = (record g { queue = g.queue ++ w ∷ []; queued_bytes = g.queued_bytes + w.bytes }, [])

unfoldable pub run : ℕ → String → Number → Gate → Gate × List Effect
run id operation payload_bytes g =
    let bytes = to_natural payload_bytes in
    if g.closed
    then (g, refused id closed_error ∷ [])
    else if ltb g.active g.max_concurrent && is_empty g.queue
    then start id operation bytes g
    else if leb g.max_queued (length g.queue) || ltb g.max_queued_bytes (g.queued_bytes + bytes)
    then (record g { rejected = g.rejected + 1 }, refused id (overload operation) ∷ [])
    else enqueue (record { id = id; operation = operation; bytes = bytes }) g

abbrev pub expire_found : Option (Waiter × List Waiter) → Gate → Gate × List Effect
expire_found none g = (g, [])
expire_found (some (w, rest)) g = (
  record g { queue = rest; queued_bytes = g.queued_bytes - w.bytes; expired = g.expired + 1 },
  refused w.id (overload w.operation) ∷ [],
)

-- The timer of a waiting call.
unfoldable pub expire : ℕ → Gate → Gate × List Effect
expire id g = expire_found (take_out (λ (w : Waiter). w.id) id g.queue) g

abbrev pub time_out_found : Option (Running × List Running) → Gate → Gate × List Effect
time_out_found none g = (g, [])
time_out_found (some (r, rest)) g = if r.timed_out then (g, []) else (
  record g {
    command_timeouts = g.command_timeouts + 1;
    running = record r { timed_out = true } ∷ rest;
  },
  late r.id (timeout r.operation g.operation_timeout_ms) ∷ [],
)

-- The deadline timer of a started call; it fires at most once.
unfoldable pub time_out : ℕ → Gate → Gate × List Effect
time_out id g = time_out_found (take_out (λ (r : Running). r.id) id g.running) g

-- `Promise.race`: the caller hears of the call only if the deadline has not answered before.
abbrev pub answer : Running → Gate × List Effect → Gate × List Effect
answer r (g, fx) = (g, if r.timed_out then fx else settled r.id ∷ fx)

abbrev pub settle_found : Option (Running × List Running) → Gate → Gate × List Effect
settle_found none g = (g, [])
settle_found (some (r, rest)) g = answer r (
    pump
      (record g { active = g.active - 1; active_bytes = g.active_bytes - r.bytes; running = rest }))

-- The `finally` handler of a started call.
unfoldable pub settle : ℕ → Gate → Gate × List Effect
settle id g = settle_found (take_out (λ (r : Running). r.id) id g.running) g

abbrev pub refuse_all : List Waiter → List Effect
refuse_all [] = []
refuse_all (w ∷ ws) = refused w.id closed_error ∷ refuse_all ws

unfoldable pub close : Gate → Gate × List Effect
close g = (record g { closed = true; queue = []; queued_bytes = 0 }, refuse_all g.queue)
