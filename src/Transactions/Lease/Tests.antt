-- ===== src/Transactions/Lease/Tests.antt =====
-- Tests of the lease controller, and examples of its theorems.
use lazy_layers.Prelude.{
  ◌≡◌, refl, false, none, some, List, [], ◌∷◌, arith, inl, inr, every, text_eq,
}
use lazy_layers.Transactions.Replies.{renewed}
use lazy_layers.Transactions.Script.{
  begin, renew, wire, eval, empty, check_request, with_loaded, run_command, decide, decide_renew,
  persist,
}
use lazy_layers.Transactions.Record.{hex64, reference, validate_table, timestamp, validate_state}
use lazy_layers.Prelude.Decimal.{print, is_positive_decimal, value_from}
use lazy_layers.Transactions.Script.Renewal.{renewed_reply}
use lazy_layers.Transactions.Script.Holding.{empty-IsKept}
use lazy_layers.Transactions.Tests.{
  plain, plain_laws, held_cell, load-held_cell, held-IsKept, ask, ann, at_second, later_runs, begun,
  bob≢ann,
}
use lazy_layers.Transactions.Lease.{
  Controller, Event, wakes, answers, asserts, maintain, assert_live, wake, answer, step, run,
}
use lazy_layers.Transactions.Lease.Safety.{Grant, AllBacked, Undisturbed, live_means_alone}

-- A lease of 30 milliseconds from the start, renewed at 10 for as much.
abbrev fresh : Controller
fresh = record { deadline = 30; stopped = false; is_lost = false; asked_at = none }

maintain-fresh : maintain 0 30 5 ≡ fresh
unfolding maintain
maintain-fresh = refl

renewed_in_time :
    (run fresh (wakes 10 ∷ answers 15 (some (renewed 30)) ∷ asserts 35 ∷ [])).deadline ≡ 40
unfolding run step wake answer assert_live
renewed_in_time = refl

-- Ann's clock is 800 milliseconds behind; she asks at 100 and renews at 200, and Redis runs the script
-- at 1000 for both.
abbrev renewing : List Event
renewing = asserts 150 ∷ wakes 200 ∷ answers 400 (some (renewed 1000)) ∷ []

renewing-lem :
    run (maintain 100 1000 110) renewing
    ≡ record { deadline = 1200; stopped = false; is_lost = false; asked_at = none }
unfolding run step maintain assert_live wake answer
renewing-lem = refl

still_live : (run (maintain 100 1000 110) renewing).stopped ≡ false
still_live = rw renewing-lem refl

passes : (assert_live 1150 (run (maintain 100 1000 110) renewing)).1 ≡ false
unfolding assert_live
passes = rw renewing-lem refl

renews : (eval plain (ask renew ann []) (at_second 1) held_cell).1 ≡ wire (renewed_reply 1000)
unfolding eval check_request hex64 reference every with_loaded run_command decide decide_renew
    text_eq persist validate_table timestamp print is_positive_decimal value_from validate_state
renews = rw load-held_cell refl

first_grant : Grant plain ann 800 100 1000
first_grant = record {
  request = ask begin ann [];
  time = at_second 1;
  before = empty;
  kept = empty-IsKept plain;
  by_owner = refl;
  sent = omega arith;
  said = inl begun;
}

second_grant : Grant plain ann 800 200 1000
second_grant = record {
  request = ask renew ann [];
  time = at_second 1;
  before = held_cell;
  kept = held-IsKept;
  by_owner = refl;
  sent = omega arith;
  said = inr renews;
}

renewing-AllBacked : AllBacked plain ann 800 (maintain 100 1000 110) renewing
unfolding step maintain assert_live wake answer
renewing-AllBacked = (tt, (tt, (second_grant, tt)))

live_means_alone_example :
    Undisturbed plain ann 800 (run (maintain 100 1000 110) renewing).deadline later_runs
live_means_alone_example =
    live_means_alone plain plain_laws ann 800 100 1000 110 1150 renewing later_runs first_grant
      renewing-AllBacked still_live passes
      (bob≢ann, omega arith, (bob≢ann, omega arith, (bob≢ann, omega arith, tt)))
