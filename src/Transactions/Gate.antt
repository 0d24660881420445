-- ===== src/Transactions/Gate.antt =====
-- The class BoundedOperationGate of src/transactions/redisTransport.ts. A call is known by its number
-- `id`; what a method does to promises comes back as effects. `running` holds what the closures of
-- the started calls remember. `monotonicNow()` is an argument: `now` where a method reads it once,
-- and `clock id` for the reading when the loop of `pump` looks at the call `id`. Byte counts and
-- times are whole, or not finite.
pub mod Invariant
pub mod History
mod Tests
use lazy_layers.Prelude.{
  ℕ, ◌+◌, ◌-◌, Bool, true, false, Option, none, some, List, [], ◌∷◌, ◌++◌, ltb, leb, ◌==◌, ◌&&◌,
  ◌||◌, if◌then◌else◌, get_or, length, take_out, Number, natural, negative, not_integer,
  is_safe_natural, is_safe_positive, to_natural,
}

-- BoundedOperationGateOptions
pub record Options : Type 0 where
  pub max_concurrent : Option Number
  pub max_queued : Option Number
  pub max_queued_bytes : Option Number
  pub queue_timeout_ms : Option Number
  pub operation_timeout_ms : Option Number

pub record Limits : Type 0 where
  pub max_concurrent : ℕ
  pub max_queued : ℕ
  pub max_queued_bytes : ℕ
  pub queue_timeout_ms : ℕ
  pub operation_timeout_ms : ℕ

-- OperationGateClosedError, OperationDispatchTimeoutError, and OperationUnavailableError by what its
-- message says.
pub data Error : Type 0 where
  closed_error dispatch_timeout : Error
  invalid_size invalid_deadline deadline_elapsed queue_full cancelled queue_expired : Error

pub record Waiter : Type 0 where
  pub id : ℕ
  pub bytes : ℕ
  pub deadline : ℕ

pub record Running : Type 0 where
  pub id : ℕ
  pub bytes : ℕ
  pub timed_out : Bool

pub record Gate : Type 0 where
  pub limits : Limits
  pub open limits use *
  pub active : ℕ
  pub active_bytes : ℕ
  pub queued_bytes : ℕ
  pub queue : List Waiter
  pub closed : Bool
  pub rejected : ℕ
  pub expired : ℕ
  pub command_timeouts : ℕ
  pub running : List Running

pub data Effect : Type 0 where
  started : ℕ → Effect
  refused : ℕ → Error → Effect
  late : ℕ → Error → Effect
  settled : ℕ → Effect

abbrev pub empty : Limits → Gate
empty l = record {
  limits = l;
  active = 0;
  active_bytes = 0;
  queued_bytes = 0;
  queue = [];
  closed = false;
  rejected = 0;
  expired = 0;
  command_timeouts = 0;
  running = [];
}

-- `positiveInteger`, without and with `allowZero`, is a test of the limits in order; `none` is the
-- OperationConfigurationError of the constructor.
unfoldable pub construct : Options → Option Gate
construct o =
    let concurrent = get_or o.max_concurrent (natural 64) in
    let queued = get_or o.max_queued (natural 1024) in
    let bytes = get_or o.max_queued_bytes (natural 4194304) in
    let wait = get_or o.queue_timeout_ms (natural 250) in
    let operation = get_or o.operation_timeout_ms (natural 2000) in
    if is_safe_positive concurrent
      && is_safe_natural queued
      && is_safe_natural bytes
      && is_safe_natural wait
      && is_safe_positive operation
    then some (
        empty (record {
          max_concurrent = to_natural concurrent;
          max_queued = to_natural queued;
          max_queued_bytes = to_natural bytes;
          queue_timeout_ms = to_natural wait;
          operation_timeout_ms = to_natural operation;
        }))
    else none

abbrev pub start : ℕ → ℕ → Gate → Gate × List Effect
start id bytes g = (
  record g {
    active = g.active + 1;
    active_bytes = g.active_bytes + bytes;
    running = record { id = id; bytes = bytes; timed_out = false } ∷ g.running;
  },
  started id ∷ [],
)

abbrev pub drop_waiter : Waiter → List Waiter → Gate → Gate
drop_waiter w rest g = record g { queue = rest; queued_bytes = g.queued_bytes - w.bytes }

-- The loop of `pump`, on what is left of the queue.
unfoldable pub pump_loop : (ℕ → ℕ) → List Waiter → Gate → Gate × List Effect
pump_loop clock [] g = (g, [])
pump_loop clock (w ∷ ws) g =
    let g' = drop_waiter w ws g in
    let (skipped, fx) = pump_loop clock ws (record g' { expired = g'.expired + 1 }) in
    let (served, gx) = pump_loop clock ws (start w.id w.bytes g').0 in
    if leb g.max_concurrent g.active
    then (g, [])
    else if leb w.deadline (clock w.id)
    then (skipped, refused w.id deadline_elapsed ∷ fx)
    else (served, started w.id ∷ gx)

abbrev pub pump : (ℕ → ℕ) → Gate → Gate × List Effect
pump clock g = if g.closed then (g, []) else pump_loop clock g.queue g

abbrev pub is_empty : List Waiter → Bool
is_empty [] = true
is_empty (w ∷ ws) = false

abbrev pub enqueue : Waiter → Gate → Gate × List Effect
enqueue w g = (record g { queue = g.queue ++ w ∷ []; queued_bytes = g.queued_bytes + w.bytes }, [])

-- `run` behind the tests of its options.
abbrev pub admit : ℕ → ℕ → ℕ → Bool → Gate → Gate × List Effect
admit id bytes deadline is_aborted g =
    if ltb g.active g.max_concurrent && is_empty g.queue
    then start id bytes g
    else if leb g.max_queued (length g.queue) || ltb g.max_queued_bytes (g.queued_bytes + bytes)
    then (record g { rejected = g.rejected + 1 }, refused id queue_full ∷ [])
    else if is_aborted
    then (g, refused id cancelled ∷ [])
    else enqueue (record { id = id; bytes = bytes; deadline = deadline }) g

abbrev pub with_deadline : ℕ → ℕ → ℕ → Number → Bool → Gate → Gate × List Effect
with_deadline now id bytes not_integer is_aborted g = (g, refused id invalid_deadline ∷ [])
with_deadline now id bytes (negative n) is_aborted g = (g, refused id deadline_elapsed ∷ [])
with_deadline now id bytes (natural deadline) is_aborted g =
    if leb deadline now
    then (g, refused id deadline_elapsed ∷ [])
    else admit id bytes deadline is_aborted g

abbrev pub with_bytes : ℕ → ℕ → Number → Number → Bool → Gate → Gate × List Effect
with_bytes now id bytes deadline is_aborted g =
    if is_safe_natural bytes
    then with_deadline now id (to_natural bytes) deadline is_aborted g
    else (g, refused id invalid_size ∷ [])

-- `run`; `is_aborted` says whether the signal, if there is one, is aborted already.
unfoldable pub run : ℕ → ℕ → Option Number → Option Number → Bool → Gate → Gate × List Effect
run now id bytes deadline is_aborted g =
    if g.closed
    then (g, refused id closed_error ∷ [])
    else with_bytes now id (get_or bytes (natural 0))
        (get_or deadline (natural (now + g.operation_timeout_ms))) is_aborted g

abbrev pub abort_found : Option (Waiter × List Waiter) → Gate → Gate × List Effect
abort_found none g = (g, [])
abort_found (some (w, rest)) g = (drop_waiter w rest g, refused w.id cancelled ∷ [])

-- The abort of the signal of a call that waits.
unfoldable pub abort : ℕ → Gate → Gate × List Effect
abort id g = abort_found (take_out (λ (w : Waiter). w.id) id g.queue) g

abbrev pub expire_found : Option (Waiter × List Waiter) → Gate → Gate × List Effect
expire_found none g = (g, [])
expire_found (some (w, rest)) g =
    (record (drop_waiter w rest g) { expired = g.expired + 1 }, refused w.id queue_expired ∷ [])

-- The timer of a call that waits.
unfoldable pub expire : ℕ → Gate → Gate × List Effect
expire id g = expire_found (take_out (λ (w : Waiter). w.id) id g.queue) g

abbrev pub time_out_found : Option (Running × List Running) → Gate → Gate × List Effect
time_out_found none g = (g, [])
time_out_found (some (r, rest)) g = if r.timed_out then (g, []) else (
  record g {
    command_timeouts = g.command_timeouts + 1;
    running = record r { timed_out = true } ∷ rest;
  },
  late r.id dispatch_timeout ∷ [],
)

-- The deadline timer of a started call; it fires at most once.
unfoldable pub time_out : ℕ → Gate → Gate × List Effect
time_out id g = time_out_found (take_out (λ (r : Running). r.id) id g.running) g

-- `Promise.race`: the caller hears of the call only if the deadline has not answered before.
abbrev pub answer : Running → Gate × List Effect → Gate × List Effect
answer r (g, fx) = (g, if r.timed_out then fx else settled r.id ∷ fx)

abbrev pub settle_found : (ℕ → ℕ) → Option (Running × List Running) → Gate → Gate × List Effect
settle_found clock none g = (g, [])
settle_found clock (some (r, rest)) g = answer r (
    pump clock
      (record g { active = g.active - 1; active_bytes = g.active_bytes - r.bytes; running = rest }))

-- The `finally` handler of a started call.
unfoldable pub settle : (ℕ → ℕ) → ℕ → Gate → Gate × List Effect
settle clock id g = settle_found clock (take_out (λ (r : Running). r.id) id g.running) g

abbrev pub refuse_all : List Waiter → List Effect
refuse_all [] = []
refuse_all (w ∷ ws) = refused w.id closed_error ∷ refuse_all ws

unfoldable pub close : Gate → Gate × List Effect
close g =
    if g.closed
    then (g, [])
    else (record g { closed = true; queue = []; queued_bytes = 0 }, refuse_all g.queue)
