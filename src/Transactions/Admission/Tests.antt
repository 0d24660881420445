-- ===== src/Transactions/Admission/Tests.antt =====
-- Tests of what the operation store admits.
use lazy_layers.Prelude.{◌≡◌, refl, true, false, none, some, codes, every, natural, [], ◌∷◌}
use lazy_layers.Transactions.Script.{check_request, invalid_result}
use lazy_layers.Transactions.Tests.{ann}
use lazy_layers.Transactions.Replies.{complete_request}
use lazy_layers.Transactions.Replies.Agreement.{IsBounded}
use lazy_layers.Transactions.Replies.Tests.{one_second, op}
use lazy_layers.Transactions.Admission.{
  bounded_string, is_well_formed_after, byte_length, validate_reference, validate_fingerprint,
  validate_owner, validate_identity, validate_lease, construct_durations, positive_integer,
  admit_call, GivenLease, between, to_lease, is_valid_call, arguments, completes, begins,
  dispatches, closed_store,
}
use lazy_layers.Transactions.Admission.Passing.{admit_call-check_request}

-- A pair of surrogates has four bytes, and half of one is refused.
bounded_string-pair : bounded_string 4 (55357 ∷ 56832 ∷ []) ≡ true
unfolding bounded_string is_well_formed_after byte_length every
bounded_string-pair = refl

bounded_string-half : bounded_string 4 (55357 ∷ []) ≡ false
unfolding bounded_string is_well_formed_after byte_length every
bounded_string-half = refl

construct-shorter_retention : construct_durations (some (natural 5000)) (some (natural 1000)) ≡ none
unfolding construct_durations positive_integer
construct-shorter_retention = refl

construct-one_second :
    construct_durations (some (natural 1000)) (some (natural 5000)) ≡ some one_second
unfolding construct_durations positive_integer
construct-one_second = refl

admit_call-closed : admit_call true one_second (begins op ann) ≡ closed_store
unfolding admit_call
admit_call-closed = refl

abbrev given : GivenLease
given = record { identity = op; owner = ann; remaining = between 999 }

-- A result with a percent sign, which the script refuses.
admits_completion :
    admit_call false one_second (completes given (codes "charge%7"))
    ≡ dispatches (complete_request one_second (to_lease given) (codes "charge%7"))
unfolding admit_call is_valid_call arguments validate_lease validate_owner validate_identity
    validate_fingerprint validate_reference bounded_string is_well_formed_after byte_length every
    complete_request
admits_completion = refl

admit_call-check_request_example :
    (check_request (complete_request one_second (to_lease given) (codes "charge%7"))
      ≡ some invalid_result)
    × IsBounded one_second
unfolding every
admit_call-check_request_example =
    admit_call-check_request (some (natural 1000)) (some (natural 5000)) one_second false
      (completes given (codes "charge%7"))
      (complete_request one_second (to_lease given) (codes "charge%7")) construct-one_second tt
      admits_completion
