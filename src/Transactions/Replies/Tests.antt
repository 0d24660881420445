-- ===== src/Transactions/Replies/Tests.antt =====
-- Examples of the decoding of replies: a store with a lease of one second, on a key that is empty or
-- that Ann holds up to the second second.
use lazy_layers.Prelude.{◌≡◌, refl, none, arith, codes, every, ap, text_eq}
use lazy_layers.Transactions.Record.{hex64, reference}
use lazy_layers.Transactions.Script.{
  live, load, eval, wire, acquired, decide, decide_read, decide_renew, check_request, empty, lost,
  completed_reply, in_progress, with_loaded, run_command,
}
use lazy_layers.Transactions.Script.Progress.{begin_acquires, owner_completes}
use lazy_layers.Transactions.Tests.{
  plain, plain_laws, print_a, ann, bob, at_second, held, held_cell, mine, load-held_cell,
  load-empty,
}
use lazy_layers.Transactions.Replies.{
  Identity, Lease, Durations, BeginResult, RenewResult, CompleteResult, Status, begin_request,
  renew_request, complete_request, status_request, decode_begin, decode_renew, decode_complete,
  decode_status,
}
use lazy_layers.Transactions.Replies.Agreement.{Agrees, meaning, to_wire, IsWithin}
use lazy_layers.Transactions.Replies.Leases.{begin-Agrees, begin_result, renew-Agrees, renew_result}
use lazy_layers.Transactions.Replies.Outcomes.{
  complete-Agrees, complete_result, status-Agrees, status_result,
}

abbrev pub one_second : Durations
one_second = record { lease_ms = 1000; retention_ms = 5000 }

abbrev pub op : Identity
op = record {
  tenant = codes "t";
  operation = codes "op";
  idempotency_key = codes "k";
  fingerprint = print_a;
  durable_id = codes "op:1";
}

abbrev pub lease : Lease
lease = record { identity = op; owner = ann; remaining_ms = 1000 }

pub asks_begin :
    (eval plain (begin_request one_second op ann) (at_second 1) empty).1
    ≡ wire (acquired (begin_request one_second op ann) 1000)
unfolding check_request hex64 reference every begin_request
asks_begin =
    ap (λ r. r.1)
      (begin_acquires plain plain_laws (begin_request one_second op ann) (at_second 1) empty none
        refl refl load-empty tt tt (omega arith))

begin-Agrees_example :
    Agrees BeginResult
      (decode_begin op ann 1000 (to_wire (acquired (begin_request one_second op ann) 1000)))
      (meaning plain
        (begin_request one_second op ann)
        (begin_result one_second op ann 1000)
        BeginResult.conflict
        (load plain (live plain 1000 empty)))
begin-Agrees_example =
    begin-Agrees plain one_second op ann (at_second 1) empty
      (acquired (begin_request one_second op ann) 1000) (omega arith, omega arith)
      (rw load-empty tt) asks_begin

within : IsWithin 1000 1000 (load plain (live plain 1000 held_cell))
within = rw load-held_cell (omega arith)

asks_complete :
    (eval plain (complete_request one_second lease mine) (at_second 1) held_cell).1
    ≡ wire (completed_reply mine)
unfolding check_request hex64 reference every complete_request
asks_complete =
    ap (λ r. r.1)
      (owner_completes plain plain_laws (complete_request one_second lease mine) (at_second 1)
        held_cell held refl refl load-held_cell (refl, refl) refl refl (omega arith) (omega arith)
        (omega arith))

complete-Agrees_example :
    Agrees CompleteResult (decode_complete mine (to_wire (completed_reply mine))) (
      meaning plain
        (complete_request one_second lease mine)
        (complete_result ann mine 1000)
        CompleteResult.conflict
        (load plain (live plain 1000 held_cell)))
complete-Agrees_example =
    complete-Agrees plain one_second lease mine (at_second 1) held_cell (completed_reply mine)
      within asks_complete

asks_status :
    (eval plain (status_request one_second op) (at_second 1) held_cell).1 ≡ wire (in_progress 1000)
unfolding eval check_request hex64 reference every status_request with_loaded run_command decide
    decide_read text_eq
asks_status = rw load-held_cell refl

status-Agrees_example : Agrees Status (decode_status 1000 (to_wire (in_progress 1000))) (
    meaning plain
      (status_request one_second op)
      (status_result 1000)
      Status.conflict
      (load plain (live plain 1000 held_cell)))
status-Agrees_example =
    status-Agrees plain one_second op (at_second 1) held_cell (in_progress 1000)
      (omega arith, omega arith) within asks_status

abbrev stranger : Lease
stranger = record { identity = op; owner = bob; remaining_ms = 1000 }

asks_renew : (eval plain (renew_request one_second stranger) (at_second 1) held_cell).1 ≡ wire lost
unfolding eval check_request hex64 reference every renew_request with_loaded run_command decide
    decide_renew text_eq
asks_renew = rw load-held_cell refl

renew-Agrees_example : Agrees RenewResult (decode_renew 1000 (to_wire lost)) (
    meaning plain
      (renew_request one_second stranger)
      (renew_result one_second bob 1000)
      RenewResult.conflict
      (load plain (live plain 1000 held_cell)))
renew-Agrees_example =
    renew-Agrees plain one_second stranger (at_second 1) held_cell lost (omega arith, omega arith)
      within asks_renew
