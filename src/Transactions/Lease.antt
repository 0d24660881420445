-- ===== src/Transactions/Lease.antt =====
-- `maintainOperationLease` of src/transactions/operationStore.ts: the local view of a lease. A reading
-- of `monotonicNow()` is an argument of the step that makes it; the timers and the answers of
-- `store.renew` are events, which may come at any time. The readings that one callback makes without
-- waiting are taken to be equal. Times are whole milliseconds.
pub mod Safety
mod Tests
use lazy_layers.Prelude.{
  ℕ, ◌+◌, Bool, true, false, Option, none, some, List, [], ◌∷◌, leb, ◌&&◌, ◌||◌, not, if◌then◌else◌,
}
use lazy_layers.Transactions.Replies.{Lease, RenewResult, renewed, lost, conflict}

-- `asked_at` is `requestStartedAt` of a renewal that is on its way.
pub record Controller : Type 0 where
  pub deadline : ℕ
  pub stopped : Bool
  pub is_lost : Bool
  pub asked_at : Option ℕ

abbrev pub stop : Controller → Controller
stop s = record s { stopped = true }

unfoldable pub lose : Controller → Controller
lose s = if s.stopped || s.is_lost then s else record s { is_lost = true; stopped = true }

-- `assertLive`; the flag says whether it throws.
unfoldable pub assert_live : ℕ → Controller → Controller × Bool
assert_live now s =
    let s' = if not s.stopped && leb s.deadline now then lose s else s in (s', s'.is_lost)

-- `schedule`, whose timers are the events `expires` and `wakes`; that `stop` clears them is not in the
-- model, where they may still fire and find the controller stopped.
abbrev pub schedule : ℕ → Controller → Controller
schedule now s = if s.stopped then s else if leb s.deadline now then lose s else s

-- The whole function: from `options.startedAt` and `lease.remainingMs`.
unfoldable pub maintain : ℕ → ℕ → ℕ → Controller
maintain started_at remaining_ms now =
    let s : Controller = record {
      deadline = started_at + remaining_ms;
      stopped = false;
      is_lost = false;
      asked_at = none;
    } in
    if leb s.deadline now then lose s else schedule now s

-- The renewal timer: up to the call of `store.renew`.
unfoldable pub wake : ℕ → Controller → Controller
wake now s =
    let (s', throws) = assert_live now s in
    if throws then lose s' else record s' { asked_at = some now }

-- What `store.renew` comes to; `none` is an error.
abbrev pub extend : ℕ → ℕ → ℕ → Controller → Controller
extend asked_at now remaining_ms s =
    let s' : Controller = record s { deadline = asked_at + remaining_ms } in
    if leb s'.deadline now then lose s' else schedule now s'

abbrev pub renewal : ℕ → ℕ → Option RenewResult → Controller → Controller
renewal asked_at now none s = lose s
renewal asked_at now (some (renewed remaining_ms)) s =
    if leb s.deadline now then lose s else extend asked_at now remaining_ms s
renewal asked_at now (some lost) s = lose s
renewal asked_at now (some conflict) s = lose s

abbrev pub answered : Option ℕ → ℕ → Option RenewResult → Controller → Controller
answered none now o s = s
answered (some asked_at) now o s =
    let s' : Controller = record s { asked_at = none } in
    if s.stopped then s' else renewal asked_at now o s'

-- The renewal timer from the answer of `store.renew` on.
unfoldable pub answer : ℕ → Option RenewResult → Controller → Controller
answer now o s = answered s.asked_at now o s

pub data Event : Type 0 where
  expires : Event
  wakes : ℕ → Event
  answers : ℕ → Option RenewResult → Event
  asserts : ℕ → Event
  stops : Event

unfoldable pub step : Controller → Event → Controller
step s expires = lose s
step s (wakes now) = wake now s
step s (answers now o) = answer now o s
step s (asserts now) = (assert_live now s).0
step s stops = stop s

unfoldable pub run : Controller → List Event → Controller
run s [] = s
run s (e ∷ es) = run (step s e) es
