-- ===== src/Lock/Safety.antt =====
-- The local view of a lock (src/cache/distributedLock.ts) ends with its deadline.
use lazy_layers.Prelude.{
  ℕ, ◌≤◌, ◌≡◌, refl, Bool, true, false, Option, none, some, List, [], ◌∷◌, arith, ◌⊎◌, inr,
}
use lazy_layers.Lock.{
  Controller, Event, expires, wakes, answers, asserts, lose, assert_owned, wake, answer, step, run,
}

-- Everything happens at the time `from` or later.
abbrev pub After : ℕ → List Event → Type 0
After from [] = Unit
After from (expires ∷ es) = After from es
After from (wakes now ∷ es) = (from ≤ now) × After from es
After from (answers now o ∷ es) = (from ≤ now) × After from es
After from (asserts now ∷ es) = (from ≤ now) × After from es

-- The lock is lost, or is held on paper only: its deadline is `end`.
abbrev IsOver : ℕ → Controller → Type 0
IsOver end s = (s.is_lost ≡ true) ⊎ ((s.stopped ≡ false) × (s.deadline ≡ end))

lose-IsOver : (end : ℕ) (s : Controller) → IsOver end s → IsOver end (lose s)
unfolding lose
lose-IsOver end s h = ground arith

assert-IsOver : (end now : ℕ) (s : Controller) → IsOver end s → IsOver end (assert_owned now s).0
unfolding assert_owned lose
assert-IsOver end now s h = ground arith

wake-IsOver : (end now : ℕ) (s : Controller) → IsOver end s → IsOver end (wake now s)
unfolding wake assert_owned lose
wake-IsOver end now s h = ground arith

answer-IsOver :
    (end now : ℕ) (o : Option Bool) (s : Controller)
    → end ≤ now
    → IsOver end s
    → IsOver end (answer now o s)
unfolding answer assert_owned lose
answer-IsOver end now none s k h = ground arith
answer-IsOver end now (some renewed) s k h = ground arith

run-IsOver :
    (end : ℕ) (s : Controller) (es : List Event)
    → After end es
    → IsOver end s
    → IsOver end (run s es)
unfolding run step
run-IsOver end s [] k h = h
run-IsOver end s (expires ∷ es) k h = run-IsOver end (lose s) es k (lose-IsOver end s h)
run-IsOver end s (wakes now ∷ es) k h = run-IsOver end (wake now s) es k.1 (wake-IsOver end now s h)
run-IsOver end s (answers now o ∷ es) k h =
    run-IsOver end (answer now o s) es k.1 (answer-IsOver end now o s k.0 h)
run-IsOver end s (asserts now ∷ es) k h =
    run-IsOver end (assert_owned now s).0 es k.1 (assert-IsOver end now s h)

over_throws :
    (end now : ℕ) (s : Controller) → end ≤ now → IsOver end s → (assert_owned now s).1 ≡ true
unfolding assert_owned lose
over_throws end now s k h = ground arith

-- A lock that is not stopped: from its deadline on, whatever the timers do and whatever renewals are
-- answered, `assertOwned` throws; a late acknowledgement cannot revive it.
pub lock_not_revived :
    (s : Controller) (es : List Event) (now : ℕ)
    → s.stopped ≡ false
    → After s.deadline es
    → s.deadline ≤ now
    → (assert_owned now (run s es)).1 ≡ true
lock_not_revived s es now n k l =
    over_throws s.deadline now (run s es) l (run-IsOver s.deadline s es k (inr (n, refl)))
