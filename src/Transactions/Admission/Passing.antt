-- ===== src/Transactions/Admission/Passing.antt =====
-- A request that the operation store (src/transactions/operationStore.ts) dispatches passes the tests
-- of the script (src/transactions/scripts.ts).
use lazy_layers.Prelude.{
  ℕ, ◌≡◌, ◌≤◌, ◌<◌, refl, subst, Bool, true, false, Option, none, some, [], ◌∷◌, arith, length,
  Text, every, Number, natural, negative, not_integer, get_or, ◌&&◌, not, ltb, leb, ◌==◌,
  to_natural, if◌then◌else◌, if_cases,
}
use lazy_layers.Transactions.Record.{bounded, hex64, reference, is_reference_char}
use lazy_layers.Transactions.Script.{
  Command, begin, renew, complete, read, is_valid_ttl, Request, check_request, max_lease,
  max_retention, Code, invalid_id, invalid_result,
}
use lazy_layers.Transactions.Replies.{
  request, is_store_char, Identity, Durations, begin_request, renew_request, complete_request,
  status_request,
}
use lazy_layers.Transactions.Replies.Agreement.{IsBounded}
use lazy_layers.Transactions.Admission.{
  is_hex_64, is_not_control, byte_length, bounded_string, validate_reference, validate_fingerprint,
  validate_owner, validate_identity, positive_integer, construct_durations, validate_lease,
  GivenLease, is_within, Call, begins, renews, completes, reads, is_valid_call, arguments,
  closed_store, invalid_input, dispatches, admit_call,
}

length-le-byte_length : (s : Text) → length s ≤ byte_length s
unfolding byte_length
length-le-byte_length [] = omega arith
length-le-byte_length (c ∷ s) = ground (arith, length-le-byte_length s)

leb→le : (a b : ℕ) → leb a b ≡ true → a ≤ b
leb→le a b h = ground (arith, h)

le→leb : (a b : ℕ) → a ≤ b → leb a b ≡ true
le→leb a b h = ground (arith, h)

ltb-false : (a b : ℕ) → ltb a b ≡ false → b ≤ a
ltb-false a b h = ground (arith, h)

not-false : (b : Bool) → not b ≡ false → b ≡ true
not-false true h = refl
not-false false h = cc

pub both : (a b : Bool) → (a && b) ≡ true → (a ≡ true) × (b ≡ true)
both true b h = (refl, h)
both false b h = cc

bounded_string-length : (most : ℕ) (s : Text) → bounded_string most s ≡ true → length s ≤ most
unfolding bounded_string
bounded_string-length most s h =
    let (g, _) = both _ (every is_not_control s) h in
    let (_, b) = both _ (leb (byte_length s) most) g in
    let l = length-le-byte_length s in omega (arith, l, leb→le (byte_length s) most b)

abbrev pub has_no_percent : Text → Bool
has_no_percent s = every (λ c. not (c == b'%')) s

-- What sets the class of the store apart from that of the script.
every-no_percent :
    (s : Text) → every is_store_char s ≡ true → every is_reference_char s ≡ has_no_percent s
unfolding every
every-no_percent [] h = refl
every-no_percent (c ∷ s) h =
    let (p, t) = both (is_store_char c) (every is_store_char s) h in
    let same : is_reference_char c ≡ not (c == b'%') = ground (arith, p) in
    rw (every-no_percent s t, same) refl

validate_reference-reference :
    (most : ℕ) (s : Text) → validate_reference most s ≡ true → reference s most ≡ has_no_percent s
unfolding validate_reference reference
validate_reference-reference most s h =
    let (b, t) = both (bounded_string most s) _ h in
    let (p, e) = both (ltb 0 (length s)) _ t in
    let l = bounded_string-length most s b in
    rw (p, le→leb (length s) most l, every-no_percent s e) refl

length→bounded : (s : Text) → (length s == 64) ≡ true → (bounded s 64 && length s == 64) ≡ true
length→bounded s n = ground (arith, n)

hex-hex64 : (s : Text) → (bounded_string 64 s && is_hex_64 s) ≡ true → hex64 s ≡ true
unfolding hex64
hex-hex64 s h =
    let (b, t) = both (bounded_string 64 s) _ h in
    let (n, e) = both (length s == 64) _ t in rw (e, length→bounded s n) refl

abbrev IsFit : Identity → Type 0
IsFit i = (hex64 i.fingerprint ≡ true) × (reference i.durable_id 128 ≡ has_no_percent i.durable_id)

validate_identity-IsFit : (i : Identity) → validate_identity i ≡ true → IsFit i
unfolding validate_identity validate_fingerprint
validate_identity-IsFit i h =
    let (g, r) = both _ (validate_reference 128 i.durable_id) h in
    let (_, f) = both _ (validate_fingerprint i.fingerprint) g in
    (hex-hex64 i.fingerprint f, validate_reference-reference 128 i.durable_id r)

-- The bounds that the script puts on the durations.
abbrev IsInOrder : Durations → Type 0
IsInOrder d =
    (0 < d.lease_ms)
    × (d.lease_ms ≤ max_lease)
    × (d.lease_ms ≤ d.retention_ms)
    × (d.retention_ms ≤ max_retention)

positive_integer-bounds :
    (most : ℕ) (v : Number)
    → positive_integer most v ≡ true
    → (0 < to_natural v) × (to_natural v ≤ most)
unfolding positive_integer
positive_integer-bounds most (natural n) h = (ground (arith, h), ground (arith, h))
positive_integer-bounds most (negative n) h = cc
positive_integer-bounds most not_integer h = cc

construct_durations-IsInOrder :
    (lease retention : Option Number) (d : Durations)
    → construct_durations lease retention ≡ some d
    → IsInOrder d
unfolding construct_durations positive_integer
construct_durations-IsInOrder lease retention d e =
    let l = get_or lease (natural 30000) in
    let r = get_or retention (natural 604800000) in
    let own : Durations = record { lease_ms = to_natural l; retention_ms = to_natural r } in
    let P : Option Durations → Type 0 = λ o. o ≡ some d → IsInOrder d in
    if_cases P (not (positive_integer max_lease l)) (λ t. λ e. cc)
      (λ t.
        if_cases P (not (positive_integer max_retention r)) (λ u. λ e. cc)
          (λ u.
            if_cases P (ltb own.retention_ms own.lease_ms) (λ w. λ e. cc)
              (λ w e.
                let (p, b) = positive_integer-bounds max_lease l (not-false _ t) in
                let (_, b') = positive_integer-bounds max_retention r (not-false _ u) in
                let same : own ≡ d = cc in
                subst IsInOrder same (p, b, ltb-false own.retention_ms own.lease_ms w, b'))))
      e

-- The owner that newOwner draws is 64 hexadecimal digits.
abbrev pub HasHexOwner : Call → Type 0
HasHexOwner (begins i owner) = hex64 owner ≡ true
HasHexOwner (renews l) = Unit
HasHexOwner (completes l result) = Unit
HasHexOwner (reads i) = Unit

-- The pattern of the durations that every request carries.
request-is_valid_ttl :
    (k : Command) (d : Durations) (i : Identity) (owner result : Text)
    → IsInOrder d
    → is_valid_ttl (request k d i owner result) ≡ true
request-is_valid_ttl k d i owner result o = ground (arith, o)

validate_lease-IsFit :
    (d : Durations) (l : GivenLease)
    → validate_lease d l ≡ true
    → IsFit l.identity × (hex64 l.owner ≡ true)
unfolding validate_lease validate_owner
validate_lease-IsFit d l h =
    let (g, _) = both _ (is_within d.lease_ms l.remaining) h in
    let (i, w) = both (validate_identity l.identity) (validate_owner l.owner) g in
    (validate_identity-IsFit l.identity i, hex-hex64 l.owner w)

-- What the script answers to the arguments of a call that the store has found valid: the store takes a
-- percent sign in the durable identity and in the result, and the script does not.
abbrev pub disagreement : Call → Option Code
disagreement (begins i owner) = if has_no_percent i.durable_id then none else some invalid_id
disagreement (renews l) = if has_no_percent l.identity.durable_id then none else some invalid_id
disagreement (completes l result) =
    if not (has_no_percent l.identity.durable_id)
    then some invalid_id
    else if has_no_percent result
    then none
    else some invalid_result
disagreement (reads i) = if has_no_percent i.durable_id then none else some invalid_id

arguments-disagreement :
    (d : Durations) (c : Call)
    → IsInOrder d
    → HasHexOwner c
    → is_valid_call d c ≡ true
    → check_request (arguments d c) ≡ disagreement c
unfolding is_valid_call arguments check_request begin_request renew_request complete_request
    status_request
arguments-disagreement d (begins i owner) o h v =
    let (f, r) = validate_identity-IsFit i v in
    let ttl = request-is_valid_ttl begin d i owner [] o in ground (arith, f, r, h, ttl)
arguments-disagreement d (renews l) o h v =
    let ((f, r), w) = validate_lease-IsFit d l v in
    let ttl = request-is_valid_ttl renew d l.identity l.owner [] o in ground (arith, f, r, w, ttl)
arguments-disagreement d (completes l result) o h v =
    let (u, t) = both (validate_lease d l) (validate_reference 256 result) v in
    let ((f, r), w) = validate_lease-IsFit d l u in
    let e = validate_reference-reference 256 result t in
    let ttl = request-is_valid_ttl complete d l.identity l.owner result o in
    ground (arith, f, r, w, e, ttl)
arguments-disagreement d (reads i) o h v =
    let (f, r) = validate_identity-IsFit i v in
    let ttl = request-is_valid_ttl read d i [] [] o in ground (arith, f, r, ttl)

dispatched :
    (is_closed is_valid : Bool) (r q : Request)
    → (if is_closed then closed_store else if not is_valid then invalid_input else dispatches r)
      ≡ dispatches q
    → (is_valid ≡ true) × (r ≡ q)
dispatched true v r q e = cc
dispatched false false r q e = cc
dispatched false true r q e = (refl, cc)

-- A store whose constructor has accepted its durations dispatches a request whose arguments the
-- script accepts, if newOwner draws owners of 64 hexadecimal digits, with one exception: the store
-- takes the percent sign in a durable identity and in a result, and the script refuses it with its
-- code for invalid identities, or for invalid results. What passes the store's own validation has in
-- any case a valid command, fingerprint, owner and durations for the script, and the lease of the store
-- is within the bounds of the protocol.
pub admit_call-check_request :
    (lease retention : Option Number) (d : Durations) (is_closed : Bool) (c : Call) (q : Request)
    → construct_durations lease retention ≡ some d
    → HasHexOwner c
    → admit_call is_closed d c ≡ dispatches q
    → (check_request q ≡ disagreement c) × IsBounded d
unfolding admit_call
admit_call-check_request lease retention d is_closed c q e h a =
    let o = construct_durations-IsInOrder lease retention d e in
    let (valid, same) = dispatched is_closed (is_valid_call d c) (arguments d c) q a in
    (
      subst (λ r. check_request r ≡ disagreement c) same (arguments-disagreement d c o h valid),
      (o.0, o.1),
    )
