-- ===== src/OriginGate/Tests.antt =====
-- Tests of the origin gate, and examples of its theorems: one place, a queue of two, and a memory
-- budget of 300 bytes.
use lazy_layers.Prelude.{
  ◌≡◌, refl, false, none, some, List, [], ◌∷◌, arith, codes, text_eq, natural,
}
use lazy_layers.MemoryBudget.{Budget, fresh_budget, try_reserve, lookup, put}
use lazy_layers.MemoryBudget
use lazy_layers.MemoryBudget.Bounds
use lazy_layers.OriginGate.{
  Gate, Options, granted, refused, overload, aborted, closed_error, construct, empty, acquire,
  expire, abort, release, close,
}
use lazy_layers.OriginGate.Invariant.{Inv, construct-Inv}
use lazy_layers.OriginGate.History.{
  Event, acquires, aborts, releases, closes, step, serve_all, serve_all-Inv,
}
use lazy_layers.OriginGate.Accounts.{Covers, Balances, serve_all-Balances}

abbrev narrow : Options
narrow = record {
  max_concurrent = some (natural 1);
  max_queued = some (natural 2);
  queue_timeout_ms = none;
}

abbrev small : Budget
small = fresh_budget 300 none

abbrev narrow_gate : Gate
narrow_gate =
    empty (record { max_concurrent = 1; max_queued = 2; queue_timeout_ms = 1000 }) (some small)

construct-narrow : construct narrow (some small) ≡ some narrow_gate
unfolding construct
construct-narrow = refl

construct-timeout_too_long :
    construct (record narrow { queue_timeout_ms = some (natural 2147483648) }) none ≡ none
unfolding construct
construct-timeout_too_long = refl

-- The third load finds no room in the budget.
abbrev busy_day : List Event
busy_day =
    acquires 1 (codes "a") 1 false
    ∷ acquires 2 (codes "b") 1 false
    ∷ acquires 3 (codes "c") 30 false
    ∷ acquires 4 (codes "d") 1 false
    ∷ aborts 2
    ∷ releases 1
    ∷ releases 1
    ∷ closes
    ∷ acquires 5 (codes "e") 1 false
    ∷ []

serve_all-busy_day :
    (serve_all narrow_gate busy_day).1
    ≡ granted 1
      ∷ refused 3 (overload (codes "c"))
      ∷ refused 2 aborted
      ∷ granted 4
      ∷ refused 5 closed_error
      ∷ []
unfolding serve_all step acquire expire abort release close try_reserve MemoryBudget.release lookup
    put text_eq
serve_all-busy_day = refl

serve_all-Inv_example : Inv (serve_all narrow_gate busy_day).0
serve_all-Inv_example = serve_all-Inv narrow (some small) narrow_gate busy_day construct-narrow

narrow_gate-Inv : Inv narrow_gate
narrow_gate-Inv = construct-Inv narrow (some small) construct-narrow

small-Inv : Bounds.Inv small
small-Inv = ground arith

serve_all-Balances_example :
    let g' = (serve_all narrow_gate busy_day).0 in
    Covers g'.queued_bytes g'.budget × Balances 0 (some small) g'.queued_bytes g'.budget
serve_all-Balances_example =
    serve_all-Balances narrow_gate busy_day narrow_gate-Inv (small-Inv, omega arith)
