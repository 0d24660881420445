-- ===== src/Transactions/Replies/Agreement.antt =====
-- The store and the script agree: every reply of the script to a request of the store is decoded, and
-- means what the record under the key says.
use lazy_layers.Prelude.{
  ℕ, ◌≤◌, ◌<◌, ◌≡◌, refl, true, Option, none, some, List, [], ◌∷◌, arith, map, if◌then◌else◌, subst,
  ap, ◌∙◌, Text, text_eq_iff, every,
}
use lazy_layers.Prelude.Decimal.{print, value-print, is_positive_decimal-print}
use lazy_layers.Transactions.Record.{Record, IsValid, completed, reference, is_reference_char}
use lazy_layers.Transactions.Script.{
  Codec, Request, Reply, wire, Time, to_ms, Cell, live, Loaded, no_record, refused, found, load,
  eval, is_same_operation, is_completed, remaining, decide, decide_read, decide_begin, decide_renew,
  decide_complete, decide_completed, Decision, answer, store, max_lease, is_owned,
}
use lazy_layers.Transactions.Script
use lazy_layers.Transactions.Script.Cases.{eval_cases, IsReady}
use lazy_layers.Transactions.Script.Holding.{load-IsValid}
use lazy_layers.Transactions.Replies.{
  string, Wire, array, Durations, wire_fields, wire_parts, decimal, decode_parts, is_reference,
  is_store_char,
}

-- The reply of the script as the client hands it over.
abbrev pub to_wire : List Text → Wire
to_wire ws = array (map string ws)

wire_fields-map : (ws : List Text) → wire_fields (map string ws) ≡ some ws
unfolding wire_fields
wire_fields-map [] = refl
wire_fields-map (w ∷ ws) = rw (wire_fields-map ws)

pub wire_parts-to_wire : (ws : List Text) → wire_parts (to_wire ws) ≡ some ws
unfolding wire_parts
wire_parts-to_wire ws = wire_fields-map ws

-- A duration that the script prints is read back, if it is positive and at most the lease.
pub decimal-print :
    (n most : ℕ) → 0 < n → n ≤ most → most ≤ max_lease → decimal (print n) most ≡ some n
unfolding decimal
decimal-print n most p h k = ground (arith, value-print n, is_positive_decimal-print n p)

-- The lease of the store is within the bounds of the protocol.
abbrev pub IsBounded : Durations → Type 0
IsBounded d = (0 < d.lease_ms) × (d.lease_ms ≤ max_lease)

-- No record under the key runs for longer than `lease_ms`.
abbrev pub IsWithin : ℕ → ℕ → Loaded → Type 0
IsWithin lease_ms now no_record = Unit
IsWithin lease_ms now (refused code) = Unit
IsWithin lease_ms now (found r) = remaining r now ≤ lease_ms

every-store : (s : Text) → every is_reference_char s ≡ true → every is_store_char s ≡ true
unfolding every
every-store [] h = refl
every-store (c ∷ s) h = ground (arith, every-store s, h)

-- The store reads every result that the script takes for one.
reference-is_reference : (s : Text) → reference s 256 ≡ true → is_reference s ≡ true
unfolding reference is_reference
reference-is_reference s h = ground (arith, every-store s, h)

pub completed_reference :
    (r : Record) → IsValid r → r.state ≡ completed → is_reference r.result_ref ≡ true
completed_reference r v e = reference-is_reference r.result_ref (ground (arith, v.timed))

wire-injective : {v w : List Text} → wire v ≡ wire w → v ≡ w
wire-injective e = cc

-- The result that is decoded and the result that is meant.
pub record Agrees (A : Type 0) (read meant : Option A) : Type 0 where
  pub result : A
  pub is_read : read ≡ some result
  pub is_meant : meant ≡ some result

-- What a reply has to say, by what is under the key: `meant` of the record if it is of the operation
-- that the request names, and `differs` if it is not.
abbrev pub meaning :
    (c : Codec) {A : Type 0} → Request → (Option Record → A) → A → Loaded → Option A
meaning c q meant differs no_record = some (meant none)
meaning c q meant differs (refused code) = none
meaning c q meant differs (found r) =
    if is_same_operation c q r then some (meant (some r)) else some differs

-- A valid record that does not run for longer than `lease_ms`, or none.
abbrev pub IsFit : ℕ → ℕ → Option Record → Type 0
IsFit lease_ms now none = Unit
IsFit lease_ms now (some r) = IsValid r × (remaining r now ≤ lease_ms)

module _ (c : Codec) {A : Type 0} (q : Request) (lease_ms : ℕ) (parts : List Text → Option A)
    (meant : Option Record → A) (differs : A) (t : Time) (cell : Cell c)
    (at_conflict : parts Script.conflict ≡ some differs)
    (at_answer : (o : Option Record) (ws : List Text)
      → IsFit lease_ms (to_ms t) o
      → decide q (to_ms t) o ≡ answer (wire ws)
      → parts ws ≡ some (meant o))
    (at_store : (o : Option Record) (s : Record) (ws : List Text)
      → decide q (to_ms t) o ≡ store s ws
      → parts ws ≡ some (meant o))
    (within : IsWithin lease_ms (to_ms t) (load c (live c (to_ms t) cell))) where
  abbrev Told : Loaded → List Text → Type 0
  Told l ws = Agrees A (decode_parts parts (wire_parts (to_wire ws))) (meaning c q meant differs l)

  tell :
      (l : Loaded) (ws : List Text) (result : A)
      → parts ws ≡ some result
      → meaning c q meant differs l ≡ some result
      → Told l ws
  tell l ws result e k = record {
    result = result;
    is_read = rw (wire_parts-to_wire ws, e);
    is_meant = k;
  }

  is_same-IsReady :
      (r : Record)
      → IsReady c q (to_ms t) (live c (to_ms t) cell) (some r)
      → is_same_operation c q r ≡ true
  is_same-IsReady r ready = ground (
    arith,
    ready.same,
    text_eq_iff r.fingerprint q.fingerprint,
    text_eq_iff r.durable_id q.durable_id,
  )

  meaning-IsReady :
      (o : Option Record)
      → IsReady c q (to_ms t) (live c (to_ms t) cell) o
      → meaning c q meant differs (load c (live c (to_ms t) cell)) ≡ some (meant o)
  meaning-IsReady none ready = rw ready.reads
  meaning-IsReady (some r) ready = rw (ready.reads, is_same-IsReady r ready)

  IsFit-IsReady :
      (o : Option Record)
      → IsReady c q (to_ms t) (live c (to_ms t) cell) o
      → IsFit lease_ms (to_ms t) o
  IsFit-IsReady none ready = tt
  IsFit-IsReady (some r) ready = (
    load-IsValid c (live c (to_ms t) cell) ready.reads,
    subst (IsWithin lease_ms (to_ms t)) ready.reads within,
  )

  -- Every reply other than an error is decoded, and the result is what the record under the key says.
  pub agrees :
      (ws : List Text) → (eval c q t cell).1 ≡ wire ws → Told (load c (live c (to_ms t) cell)) ws
  agrees ws =
      let l = load c (live c (to_ms t) cell) in
      eval_cases c (λ res. res.1 ≡ wire ws → Told l ws) q t cell (λ code e. cc)
        (λ r reads other e.
          subst (Told l) (wire-injective e)
            (tell l Script.conflict differs at_conflict (rw (reads, other))))
        (λ o reply ready e k.
          tell l ws (meant o) (at_answer o ws (IsFit-IsReady o ready) (e ∙ ap answer k))
            (meaning-IsReady o ready))
        (λ o s reply ready e v later k.
          subst (Told l) (wire-injective k)
            (tell l reply (meant o) (at_store o s reply e) (meaning-IsReady o ready)))
