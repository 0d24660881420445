-- ===== src/Transactions/Tests.antt =====
-- Tests of the coordination script and of the decoding of its replies, and examples of their
-- theorems, with a codec that stores the table as it is.
use lazy_layers.Prelude.{
  ℕ, ◌≡◌, ◌≢◌, refl, none, some, List, [], ◌∷◌, arith, Text, codes, every, natural, inr, ap, subst,
}
use lazy_layers.Transactions.Record.{
  Record, Table, table, pending, IsValid, to_table, hex64, reference, validate_table,
}
use lazy_layers.Transactions.Record.Validation.{validate_table-to_table}
use lazy_layers.Transactions.Record.Spelling.{IsWritten, validate_table-IsWritten}
use lazy_layers.Transactions.Script.{
  Codec, CodecLaws, Command, begin, complete, read, Request, wire, Time, Cell, empty, stored, live,
  load, found, no_record, eval, run_all, acquired, completed_reply, finish, check_request,
}
use lazy_layers.Transactions.Script.Holding.{load-stored, IsKept, empty-IsKept, eval-IsKept}
use lazy_layers.Transactions.Script.Exclusion.{exclusive, AllDenied}
use lazy_layers.Transactions.Script.Finality.{
  one_result, AllConfirm, writes_only_on_grant, Before, expiry,
}
use lazy_layers.Transactions.Script.Progress.{begin_acquires, owner_completes}

abbrev pub plain : Codec
plain = record { Raw = Table; size = λ t. 0; encode = λ t. t; decode = λ t. some (table t) }

pub plain_laws : CodecLaws plain
plain_laws = record { decode-encode = λ r v. refl; size-encode = λ r v. omega arith }

abbrev pub print_a : Text
print_a = codes "aaaaaaaaaaaaaaaaaaaaaaaaaaaaaaaaaaaaaaaaaaaaaaaaaaaaaaaaaaaaaaaa"

abbrev pub ann : Text
ann = codes "0123456789abcdef0123456789abcdef0123456789abcdef0123456789abcdef"

abbrev pub bob : Text
bob = codes "fedcba9876543210fedcba9876543210fedcba9876543210fedcba9876543210"

abbrev pub ask : Command → Text → Text → Request
ask command owner result = record {
  command = command;
  fingerprint = print_a;
  durable_id = codes "op:1";
  owner = owner;
  lease = natural 1000;
  retention = natural 5000;
  result = result;
}

abbrev pub at_second : ℕ → Time
at_second s = record { seconds = s; microseconds = 0 }

abbrev pub later_runs : List (Request × Time)
later_runs =
    (ask begin bob [], at_second 1)
    ∷ (ask complete bob (codes "theirs"), at_second 1)
    ∷ (ask read bob [], at_second 1)
    ∷ []

-- The record that Ann's `begin` stores in the first second.
abbrev pub held : Record
held = record {
  fingerprint = print_a;
  durable_id = codes "op:1";
  owner = ann;
  state = pending;
  lease_until = 2000;
  retain_until = 6000;
  result_ref = [];
}

held-IsValid : IsValid held
unfolding hex64 reference every
held-IsValid = record {
  fingerprint_hex = refl;
  owner_hex = refl;
  durable_reference = refl;
  retained = omega arith;
  lease_in_range = omega arith;
  retain_in_range = omega arith;
  timed = (omega arith, omega arith, refl);
}

abbrev pub held_cell : Cell plain
held_cell = stored (to_table held) 6000

checked_begin : check_request (ask begin ann []) ≡ none
unfolding check_request hex64 reference every
checked_begin = refl

checked_complete : check_request (ask complete ann (codes "mine")) ≡ none
unfolding check_request hex64 reference every
checked_complete = refl

pub load-held_cell : load plain held_cell ≡ found held
load-held_cell = load-stored plain plain_laws held 6000 held-IsValid

pub load-empty : load plain empty ≡ no_record
unfolding load
load-empty = refl

validate_table-to_table_example : validate_table (to_table held) ≡ some held
validate_table-to_table_example = validate_table-to_table held held-IsValid

validate_table-IsWritten_example : IsWritten held
validate_table-IsWritten_example =
    validate_table-IsWritten (to_table held) (validate_table-to_table held held-IsValid)

begin_acquires_example :
    eval plain (ask begin ann []) (at_second 1) empty
    ≡ (held_cell, wire (acquired (ask begin ann []) 1000))
begin_acquires_example =
    begin_acquires plain plain_laws (ask begin ann []) (at_second 1) empty none checked_begin refl
      load-empty tt tt (omega arith)

pub begun :
    (eval plain (ask begin ann []) (at_second 1) empty).1 ≡ wire (acquired (ask begin ann []) 1000)
begun = ap (λ r. r.1) begin_acquires_example

pub bob≢ann : bob ≢ ann
bob≢ann = ground arith

exclusive_example :
    let cell' = (eval plain (ask begin ann []) (at_second 1) empty).0 in
    ((run_all plain later_runs cell').0 ≡ cell') × AllDenied (run_all plain later_runs cell').1
exclusive_example =
    exclusive plain plain_laws (ask begin ann []) (at_second 1) empty 1000 later_runs
      (empty-IsKept plain) begun
      (bob≢ann, omega arith, (bob≢ann, omega arith, (bob≢ann, omega arith, tt)))

eval-IsKept_example : IsKept plain (eval plain (ask begin ann []) (at_second 1) empty).0
eval-IsKept_example =
    eval-IsKept plain plain_laws (ask begin ann []) (at_second 1) empty (empty-IsKept plain)

abbrev pub mine : Text
mine = codes "mine"

owner_completes_example : eval plain (ask complete ann mine) (at_second 1) held_cell ≡ (
  stored (to_table (finish (ask complete ann mine) 1000 held)) 6000,
  wire (completed_reply mine),
)
owner_completes_example =
    owner_completes plain plain_laws (ask complete ann mine) (at_second 1) held_cell held
      checked_complete refl load-held_cell (refl, refl) refl refl (omega arith) (omega arith)
      (omega arith)

pub held-IsKept : IsKept plain held_cell
held-IsKept =
    subst (λ r. IsKept plain r.0) begin_acquires_example
      (eval-IsKept plain plain_laws (ask begin ann []) (at_second 1) empty (empty-IsKept plain))

completes :
    (eval plain (ask complete ann mine) (at_second 1) held_cell).1 ≡ wire (completed_reply mine)
completes = ap (λ r. r.1) owner_completes_example

still_there :
    Before plain
      (expiry plain (eval plain (ask complete ann mine) (at_second 1) held_cell).0)
      later_runs
still_there = rw owner_completes_example (omega arith, (omega arith, (omega arith, tt)))

one_result_example :
    let cell' = (eval plain (ask complete ann mine) (at_second 1) held_cell).0 in
    ((run_all plain later_runs cell').0 ≡ cell')
    × AllConfirm mine (run_all plain later_runs cell').1
one_result_example =
    one_result plain plain_laws (ask complete ann mine) (at_second 1) held_cell mine later_runs
      held-IsKept completes still_there

writes_only_on_grant_example :
    (eval plain (ask read bob []) (at_second 2) held_cell).0 ≡ live plain 2000 held_cell
writes_only_on_grant_example =
    writes_only_on_grant plain (ask read bob []) (at_second 2) held_cell (inr refl)
