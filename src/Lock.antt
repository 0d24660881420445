-- ===== src/Lock.antt =====
-- `maintainLock` of src/cache/distributedLock.ts: the local view of a distributed lock. `wall` is a
-- reading of `Date.now()` and `now` one of `performance.now()`; the readings that one callback makes
-- without waiting are taken to be equal. Times are whole milliseconds. The timers and the answers of
-- `renew` are events, which may come at any time.
pub mod Safety
mod Tests
use lazy_layers.Prelude.{
  ℕ, ◌+◌, ◌-◌, Bool, true, false, Option, none, some, List, [], ◌∷◌, leb, ◌&&◌, not, if◌then◌else◌,
}

-- `asked_at` is `startedAt` of a renewal that is on its way, and `is_lost` stands for `error`.
pub record Controller : Type 0 where
  pub ttl_ms : ℕ
  pub deadline : ℕ
  pub stopped : Bool
  pub is_lost : Bool
  pub asked_at : Option ℕ

unfoldable pub maintain : ℕ → ℕ → ℕ → ℕ → Controller
maintain ttl_ms acquired_at wall now = record {
  ttl_ms = ttl_ms;
  deadline = now + (ttl_ms - (wall - acquired_at));
  stopped = false;
  is_lost = false;
  asked_at = none;
}

unfoldable pub lose : Controller → Controller
lose s = if s.stopped then s else record s { is_lost = true; stopped = true }

-- `assertOwned`; the flag says whether it throws.
unfoldable pub assert_owned : ℕ → Controller → Controller × Bool
assert_owned now s =
    let s' = if not s.stopped && leb s.deadline now then lose s else s in (s', s'.is_lost)

-- The renewal timer, up to the call of `renew`.
unfoldable pub wake : ℕ → Controller → Controller
wake now s =
    let (s', throws) = assert_owned now s in
    if throws then lose s' else record s' { asked_at = some now }

-- What `renew` comes to; `none` is an error.
abbrev pub renewal : ℕ → ℕ → Option Bool → Controller → Controller
renewal asked_at now none s = lose s
renewal asked_at now (some renewed) s =
    let (s', throws) = assert_owned now s in
    if s.stopped
    then s
    else if throws
    then lose s'
    else if renewed
    then record s' { deadline = asked_at + s'.ttl_ms }
    else lose s'

abbrev pub answered : Option ℕ → ℕ → Option Bool → Controller → Controller
answered none now o s = s
answered (some asked_at) now o s = renewal asked_at now o (record s { asked_at = none })

-- The renewal timer from the answer of `renew` on.
unfoldable pub answer : ℕ → Option Bool → Controller → Controller
answer now o s = answered s.asked_at now o s

pub data Event : Type 0 where
  expires : Event
  wakes : ℕ → Event
  answers : ℕ → Option Bool → Event
  asserts : ℕ → Event

unfoldable pub step : Controller → Event → Controller
step s expires = lose s
step s (wakes now) = wake now s
step s (answers now o) = answer now o s
step s (asserts now) = (assert_owned now s).0

unfoldable pub run : Controller → List Event → Controller
run s [] = s
run s (e ∷ es) = run (step s e) es
