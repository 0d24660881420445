-- ===== src/Transactions/Dispatch/Tests.antt =====
-- Examples of the outcomes of commands.
use lazy_layers.Prelude.{◌≡◌, refl, true, Option, some, [], arith, every, subst, sym}
use lazy_layers.Transactions.Record.{hex64, reference}
use lazy_layers.Transactions.Script.{begin, eval, check_request, empty, live, load}
use lazy_layers.Transactions.Tests.{plain, ask, ann, at_second, held_cell, load-empty}
use lazy_layers.Transactions.Replies.{Wire, BeginResult, begin_request, decode_begin}
use lazy_layers.Transactions.Replies.Agreement.{meaning, IsWithin}
use lazy_layers.Transactions.Replies.Leases.{begin_result}
use lazy_layers.Transactions.Replies.Tests.{one_second, op}
use lazy_layers.Transactions.Dispatch.{replied, dispatch, attempt_run, is_dispatched, classify}
use lazy_layers.Transactions.Dispatch.Outcomes.{
  is_definite, Untouched, definite_errors_write_nothing, IsTold, replied_begin-IsTold,
}

-- A decoder that takes any reply for a result.
abbrev any_reply : Wire → Option Wire
any_reply w = some w

no_owner :
    is_definite (dispatch plain any_reply (ask begin [] []) (replied (at_second 2)) held_cell).1
    ≡ true
unfolding dispatch attempt_run is_dispatched classify eval check_request hex64 reference every
no_owner = refl

definite_errors_write_nothing_example :
    Untouched plain any_reply
      (ask begin [] [])
      held_cell
      (dispatch plain any_reply (ask begin [] []) (replied (at_second 2)) held_cell).0
definite_errors_write_nothing_example =
    definite_errors_write_nothing plain any_reply (ask begin [] []) held_cell
      (replied (at_second 2)) no_owner

abbrev full_lease : BeginResult
full_lease = BeginResult.acquired (record { identity = op; owner = ann; remaining_ms = 1000 })

replied_begin-IsTold_example :
    IsTold
      (meaning plain
        (begin_request one_second op ann)
        (begin_result one_second op ann 1000)
        BeginResult.conflict
        (load plain (live plain 1000 empty)))
      (dispatch plain
        (decode_begin op ann 1000)
        (begin_request one_second op ann)
        (replied (at_second 1))
        empty).1
replied_begin-IsTold_example =
    replied_begin-IsTold plain one_second op ann (at_second 1) empty (omega arith, omega arith)
      (subst (IsWithin 1000 1000) (sym load-empty) tt)
