-- ===== src/Transactions/Record/Validation.antt =====
-- The validation of a stored record: a valid record passes and is read back, and what passes is valid.
use lazy_layers.Prelude.{
  ℕ, zero, suc, ◌≤◌, ◌<◌, ◌≡◌, refl, Bool, true, Option, none, some, [], codes, arith, Text,
  text_eq, text_eq_iff,
}
use lazy_layers.Prelude.Decimal.{
  print, value_from, value-print, is_positive_decimal-print, length-print, value,
}
use lazy_layers.Transactions.Record.{
  Record, Value, Table, absent, text, number, other, hex64, reference, timestamp, max_time,
  text_passes, text_of, timestamp_of, validate_state, with_timestamps, validate_table, to_table,
  IsValid, IsTimed, phase_text, Phase, pending, completed,
}

timestamp-zero : timestamp (print 0) ≡ some 0
unfolding timestamp print text_eq value_from
timestamp-zero = refl

timestamp-print : (n : ℕ) → n ≤ max_time → timestamp (print n) ≡ some n
timestamp-print zero h = timestamp-zero
timestamp-print (suc n) h =
    unfold timestamp in
    ground (
      arith,
      length-print 15 (suc n) (omega arith),
      is_positive_decimal-print (suc n) (omega arith),
      value-print (suc n),
    )

with_timestamps-print :
    (t : Table) (a b : ℕ)
    → a ≤ max_time
    → b ≤ max_time
    → with_timestamps t (timestamp (print a)) (timestamp (print b)) ≡ validate_state t a b
with_timestamps-print t a b h k = rw (timestamp-print a h, timestamp-print b k)

validate_state-to_table :
    (r : Record) → IsValid r → validate_state (to_table r) r.lease_until r.retain_until ≡ some r
unfolding validate_state text_eq
validate_state-to_table r v = ground (arith, text_eq_iff [] r.result_ref)

-- A valid record passes the script's own validation in the form in which the script stores it, and
-- is read back as it was.
pub validate_table-to_table : (r : Record) → IsValid r → validate_table (to_table r) ≡ some r
unfolding validate_table
validate_table-to_table r v = ground (
  arith,
  with_timestamps-print (to_table r) r.lease_until r.retain_until v.lease_in_range
      v.retain_in_range,
  validate_state-to_table r v,
)

-- Whatever the table, what passes the validation is a valid record.
timestamp_in_range : (s : Text) {n : ℕ} → timestamp s ≡ some n → n ≤ max_time
unfolding timestamp
timestamp_in_range s h = ground arith

timestamp_of_in_range : (v : Value) {n : ℕ} → timestamp_of v ≡ some n → n ≤ max_time
timestamp_of_in_range (text s) h = timestamp_in_range s h
timestamp_of_in_range absent h = cc
timestamp_of_in_range (number n) h = cc
timestamp_of_in_range other h = cc

record IsMade (t : Table) (until retain : ℕ) (r : Record) : Type 0 where
  fingerprint : r.fingerprint ≡ text_of t.fingerprint
  durable : r.durable_id ≡ text_of t.durable_id
  owner : r.owner ≡ text_of t.owner
  phase : text_of t.state ≡ phase_text r.state
  result : r.result_ref ≡ text_of t.result_ref
  lease_end : r.lease_until ≡ until
  retain_end : r.retain_until ≡ retain
  retained : 0 < retain
  timed : IsTimed r.state r.lease_until r.retain_until r.result_ref

validate_state-IsMade :
    (t : Table) (until retain : ℕ) {r : Record}
    → validate_state t until retain ≡ some r
    → IsMade t until retain r
unfolding validate_state
validate_state-IsMade t until retain h = ground (
  arith,
  text_eq_iff [] (text_of t.result_ref),
  text_eq_iff (codes "pending") (text_of t.state),
  text_eq_iff (codes "completed") (text_of t.state),
)

with_timestamps-IsMade :
    (t : Table) (a b : Option ℕ) {r : Record}
    → with_timestamps t a b ≡ some r
    → (until : ℕ) × (retain : ℕ) × (a ≡ some until) × (b ≡ some retain) × IsMade t until retain r
with_timestamps-IsMade t none b h = cc
with_timestamps-IsMade t (some a) none h = cc
with_timestamps-IsMade t (some a) (some b) h = (a, b, refl, refl, validate_state-IsMade t a b h)

passes_text_of : (p : Text → Bool) (v : Value) → text_passes p v ≡ true → p (text_of v) ≡ true
passes_text_of p (text s) h = h
passes_text_of p absent h = cc
passes_text_of p (number n) h = cc
passes_text_of p other h = cc

validate_table_parts :
    (t : Table) {r : Record}
    → validate_table t ≡ some r
    → (text_passes hex64 t.fingerprint ≡ true)
      × (text_passes hex64 t.owner ≡ true)
      × (text_passes (λ s. reference s 128) t.durable_id ≡ true)
      × (with_timestamps t (timestamp_of t.lease_until_ms) (timestamp_of t.retain_until_ms)
          ≡ some r)
unfolding validate_table
validate_table_parts t h = ground arith

-- Every table that passes the script's validation is read as a valid record.
pub validate_table-IsValid : (t : Table) {r : Record} → validate_table t ≡ some r → IsValid r
validate_table-IsValid t {r} h =
    let (fp, own, dur, times) = validate_table_parts t h in
    let (a, b, ea, eb, m) = with_timestamps-IsMade t _ _ times in
    record {
      fingerprint_hex = rw m.fingerprint (passes_text_of hex64 t.fingerprint fp);
      owner_hex = rw m.owner (passes_text_of hex64 t.owner own);
      durable_reference = rw m.durable (passes_text_of (λ s. reference s 128) t.durable_id dur);
      retained = rw m.retain_end m.retained;
      lease_in_range = rw m.lease_end (timestamp_of_in_range t.lease_until_ms ea);
      retain_in_range = rw m.retain_end (timestamp_of_in_range t.retain_until_ms eb);
      timed = m.timed;
    }

timestamp-value : (s : Text) {n : ℕ} → timestamp s ≡ some n → n ≡ value s
unfolding timestamp
timestamp-value s h = ground arith

phase_text-injective : (p q : Phase) → phase_text p ≡ phase_text q → p ≡ q
phase_text-injective pending pending h = refl
phase_text-injective pending completed h = ground arith
phase_text-injective completed pending h = ground arith
phase_text-injective completed completed h = refl

-- What the validation reads in the table of a record is that record.
pub validate_table-eq : (r s : Record) → validate_table (to_table r) ≡ some s → s ≡ r
validate_table-eq r s h =
    let (fp, own, dur, times) = validate_table_parts (to_table r) h in
    let (a, b, ea, eb, m) = with_timestamps-IsMade (to_table r) _ _ times in
    ground (
      arith,
      m.fingerprint,
      m.durable,
      m.owner,
      phase_text-injective r.state s.state m.phase,
      m.result,
      m.lease_end,
      m.retain_end,
      timestamp-value (print r.lease_until) ea,
      timestamp-value (print r.retain_until) eb,
      value-print r.lease_until,
      value-print r.retain_until,
    )
