-- ===== src/MemoryBudget/Tests.antt =====
-- Tests of the memory budget, and examples of its theorems, with one client that gives 40 bytes back
-- whenever it is asked, and with fractions that round down.
use lazy_layers.Prelude.{
  ◌*◌, ◌/◌, ◌≡◌, refl, true, false, none, some, List, [], ◌∷◌, arith, codes, text_eq, natural,
}
use lazy_layers.MemoryBudget.{
  Budget, Clients, Fractions, Windows, Signals, reserves, releases, fresh_budget, construct,
  try_reserve, release, permits_promotion, perform, perform_all, sample, adjust, evict_bounded,
  lookup, put,
}
use lazy_layers.MemoryBudget.Bounds.{
  Inv, Event, performs, samples, use_all-Inv, use_all, step, Shrinks,
}

abbrev one_client : Clients
one_client = record {
  World = Unit;
  count = λ w. 1;
  evict_one = λ i w. (tt, releases (natural 40) (codes "fresh") ∷ [], some true);
}

abbrev rounded_down : Fractions
rounded_down = record { seven_tenths = λ n. n * 7 / 10; twentieth = λ n. n / 20 }

rounded_down-Shrinks : Shrinks rounded_down
rounded_down-Shrinks n = omega arith

abbrev default_windows : Windows
default_windows = record { pressure_ms = none; recovery_ms = none }

abbrev hundred : Budget
hundred = fresh_budget 100 (some 10)

construct-hundred : construct (natural 100) (some (natural 10)) ≡ some hundred
unfolding construct
construct-hundred = refl

construct-floor_above : construct (natural 100) (some (natural 101)) ≡ none
unfolding construct
construct-floor_above = refl

abbrev low_memory : Signals
low_memory = record { low = true; scarce = true; stalled = false; slowed = false }

abbrev busy_day : List (Event Unit)
busy_day =
    performs (reserves (natural 60) (codes "fresh"))
    ∷ performs (reserves (natural 30) (codes "queue"))
    ∷ performs (reserves (natural 20) (codes "stale"))
    ∷ samples 1000 low_memory
    ∷ []

-- The third reservation fails, and the sample evicts down to the lower target.
use_all-busy_day :
    let b = (use_all one_client rounded_down default_windows busy_day (tt, hundred)).1 in
    (b.used ≡ 50) × (b.target ≡ 70) × (b.evictions ≡ 1) × (b.failed_admissions ≡ 1)
unfolding use_all step perform perform_all try_reserve release sample adjust evict_bounded lookup
    put text_eq
use_all-busy_day = (refl, refl, refl, refl)

use_all-Inv_example : Inv (use_all one_client rounded_down default_windows busy_day (tt, hundred)).1
use_all-Inv_example =
    use_all-Inv one_client rounded_down default_windows (natural 100) (some (natural 10)) hundred tt
      busy_day rounded_down-Shrinks construct-hundred

admits : (try_reserve (natural 60) (codes "fresh") hundred).1 ≡ true
unfolding try_reserve
admits = refl

permits : permits_promotion (natural 60) hundred ≡ true
unfolding permits_promotion
permits = refl
