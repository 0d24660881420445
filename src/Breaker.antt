-- ===== src/Breaker.antt =====
-- src/cache/circuitBreaker.ts: the circuit breaker in front of the L2 store and the event bus.
-- `Date.now()` is the argument `now` of the calls that read it; times and counts do not wrap.
pub mod Invariant
pub mod Trace
mod Tests
use lazy_layers.Prelude.{
  ℕ, ◌+◌, Bool, true, false, Option, none, some, leb, ◌==◌, if◌then◌else◌, get_or,
}

-- The constructors stand for 'closed', 'open' and 'half-open'.
pub data Phase : Type 0 where
  closed opened half_open : Phase

pub record Options : Type 0 where
  pub enabled : Option Bool
  pub failure_threshold : Option ℕ
  pub cooldown_ms : Option ℕ

pub record Breaker : Type 0 where
  pub options : Options
  pub open options use *
  pub state : Phase
  pub failures : ℕ
  pub opened_at : ℕ
  pub epoch : ℕ
  pub probe_in_flight : Bool

abbrev pub default_failure_threshold : ℕ
default_failure_threshold = 3

abbrev pub default_cooldown_ms : ℕ
default_cooldown_ms = 30000

unfoldable pub init : Options → Breaker
init o = record {
  options = o;
  state = closed;
  failures = 0;
  opened_at = 0;
  epoch = 0;
  probe_in_flight = false;
}

-- `this.options.enabled === false`
abbrev pub is_disabled : Breaker → Bool
is_disabled b = elim b.enabled [ some false ↦ true | _ ↦ false ]

abbrev pub get_failure_threshold : Breaker → ℕ
get_failure_threshold b = get_or b.failure_threshold default_failure_threshold

abbrev pub get_cooldown_ms : Breaker → ℕ
get_cooldown_ms b = get_or b.cooldown_ms default_cooldown_ms

-- The private method `open()`.
abbrev pub open_circuit : ℕ → Breaker → Breaker
open_circuit now b = record b {
  state = opened;
  opened_at = now;
  epoch = b.epoch + 1;
  probe_in_flight = false;
}

-- The transition of an open circuit whose cooldown has elapsed.
abbrev pub cool_down : ℕ → Breaker → Breaker
cool_down now b = elim b.state [
  | opened ↦
      if leb (b.opened_at + get_cooldown_ms b) now
      then record b { state = half_open; epoch = b.epoch + 1; probe_in_flight = false }
      else b
  | _ ↦ b
]

-- The test that admits one probe of a half-open circuit.
abbrev pub admit_probe : Breaker → Breaker × Bool
admit_probe b = elim b.state [
  | half_open ↦
      if b.probe_in_flight then (b, false) else (record b { probe_in_flight = true }, true)
  | _ ↦ (b, false)
]

unfoldable pub can_call : ℕ → Breaker → Breaker × Bool
can_call now b =
    if is_disabled b
    then (b, true)
    else elim b.state [ closed ↦ (b, true) | _ ↦ admit_probe (cool_down now b) ]

-- `epoch !== undefined && epoch !== this.epoch`
abbrev pub is_stale : Option ℕ → Breaker → Bool
is_stale none b = false
is_stale (some e) b = if e == b.epoch then false else true

unfoldable pub record_success : Option ℕ → Breaker → Breaker
record_success report b =
    if is_disabled b
    then b
    else if is_stale report b
    then b
    else record b { state = closed; probe_in_flight = false; failures = 0; opened_at = 0 }

-- The count of a failure outside the half-open phase.
abbrev pub count_failure : ℕ → Breaker → Breaker
count_failure now b =
    let b' : Breaker = record b { failures = b.failures + 1 } in
    if leb (get_failure_threshold b) b'.failures then open_circuit now b' else b'

unfoldable pub record_failure : ℕ → Option ℕ → Breaker → Breaker
record_failure now report b =
    if is_disabled b
    then b
    else if is_stale report b
    then b
    else elim b.state [ half_open ↦ open_circuit now b | _ ↦ count_failure now b ]
