-- ===== src/Transactions/Script/Finality.antt =====
-- A completed operation stays completed with its result, and retention deadlines only move forward.
use lazy_layers.Prelude.{
  ℕ, ◌≤◌, ◌≡◌, refl, ap, false, Option, none, some, List, [], ◌∷◌, arith, Text, text_eq, ◌∙◌, subst,
  ◌⊎◌,
}
use lazy_layers.Transactions.Record.{Record, completed}
use lazy_layers.Transactions.Script.{
  Codec, CodecLaws, Request, Reply, wire, Time, to_ms, Cell, empty, stored, other_type, live, eval,
  run_all, completed_reply, conflict, Decision, answer, store, decide, decide_read, decide_begin,
  decide_renew, decide_complete, decide_completed, read,
}
use lazy_layers.Transactions.Script.Cases.{eval_cases, IsReady, Reads}
use lazy_layers.Transactions.Script.Holding.{Holds, IsKept, stored-Holds, Reads-Holds, live-IsKept}
use lazy_layers.Transactions.Script.Exclusion.{grants}

-- A reply that reports a result reports this one.
abbrev pub Confirms : Text → Reply → Type 0
Confirms result reply = (result' : Text) → reply ≡ wire (completed_reply result') → result' ≡ result

abbrev pub AllConfirm : Text → List Reply → Type 0
AllConfirm result [] = Unit
AllConfirm result (reply ∷ replies) = Confirms result reply × AllConfirm result replies

-- A decision that only answers, and confirms the result.
abbrev IsConfirmation : Text → Decision → Type 0
IsConfirmation result (answer reply) = Confirms result reply
IsConfirmation result (store r reply) = ⊥

record IsResult (result : Text) (r : Record) : Type 0 where
  is_completed : r.state ≡ completed
  is_result : r.result_ref ≡ result

answers_only :
    (q : Request) (now : ℕ) (r : Record) (s : Record) (w : List Text)
    → r.state ≡ completed
    → decide q now (some r) ≡ store s w
    → ⊥
unfolding decide
answers_only q now r s w e h = ground arith

answers-IsResult :
    (q : Request) (now : ℕ) (o : Option Record) (result : Text)
    → decide q now o ≡ answer (wire (completed_reply result))
    → (r : Record) × (o ≡ some r) × IsResult result r
unfolding decide decide_read decide_begin decide_renew decide_complete decide_completed
answers-IsResult q now none result h = absurd (ground arith)
answers-IsResult q now (some r) result h = (r, refl, ground arith)

stores-IsResult :
    (q : Request) (now : ℕ) (o : Option Record) (r : Record) (result : Text)
    → decide q now o ≡ store r (completed_reply result)
    → IsResult result r
unfolding decide decide_begin decide_renew decide_complete
stores-IsResult q now none r result h = ground arith
stores-IsResult q now (some s) r result h = ground arith

store_grants :
    (q : Request) (now : ℕ) (o : Option Record) (r : Record) (w : List Text)
    → decide q now o ≡ store r w
    → (grants (wire w) ≡ false) ⊎ (q.command ≡ read)
    → ⊥
unfolding decide decide_begin decide_renew decide_complete text_eq
store_grants q now none r w e h = ground arith
store_grants q now (some s) r w e h = ground arith

wire-injective : {v w : List Text} → wire v ≡ wire w → v ≡ w
wire-injective e = cc

conflict-Confirms : (result : Text) → Confirms result (wire conflict)
conflict-Confirms result result' e = ground arith

module _ (c : Codec) where
  -- The time up to which Redis keeps what the cell holds.
  abbrev pub expiry : Cell c → ℕ
  expiry empty = 0
  expiry other_type = 0
  expiry (stored raw e) = e

  -- Every run takes place before that time.
  abbrev pub Before : ℕ → List (Request × Time) → Type 0
  Before end [] = Unit
  Before end ((q, t) ∷ es) = (to_ms t ≤ end) × Before end es

  live_until_expiry :
      (cell : Cell c) (now : ℕ) {r : Record}
      → Holds c cell r
      → now ≤ expiry cell
      → live c now cell ≡ cell
  live_until_expiry cell now h k =
      let k' : now ≤ h.expires = subst (λ x. now ≤ expiry x) h.is_stored k in
      rw h.is_stored (ground arith)

  eval-Confirms :
      (q : Request) (t : Time) (cell : Cell c) (r : Record)
      → Holds c cell r
      → r.state ≡ completed
      → to_ms t ≤ expiry cell
      → ((eval c q t cell).0 ≡ cell) × Confirms r.result_ref (eval c q t cell).1
  eval-Confirms q t cell r h d l =
      let there : live c (to_ms t) cell ≡ cell = live_until_expiry cell (to_ms t) h l in
      let same : (o : Option Record)
          → IsReady c q (to_ms t) (live c (to_ms t) cell) o
          → o ≡ some r =
        λ o ready. Reads-Holds c cell r o h (rw there at ready.reads) in
      eval_cases c (λ res. (res.0 ≡ cell) × Confirms r.result_ref res.1) q t cell
        (λ code. (there, λ result' e. cc))
        (λ r' reads differs. (there, conflict-Confirms r.result_ref))
        (λ o reply ready e. (
          there,
          λ result' x.
              let (s, is_s, done) = answers-IsResult q (to_ms t) o result' (e ∙ ap answer x) in
              let is_r = same o ready in cc done.is_result,
        ))
        (λ o s w ready e v k. absurd (answers_only q (to_ms t) r s w d (rw (same o ready) at e)))

  run_all_confirms :
      (es : List (Request × Time)) (cell : Cell c) (r : Record)
      → Holds c cell r
      → r.state ≡ completed
      → Before (expiry cell) es
      → ((run_all c es cell).0 ≡ cell) × AllConfirm r.result_ref (run_all c es cell).1
  unfolding run_all
  run_all_confirms [] cell r h d b = (refl, tt)
  run_all_confirms ((q, t) ∷ es) cell r h d b =
      let (same, confirms) = eval-Confirms q t cell r h d b.0 in
      let (later, all) = run_all_confirms es cell r h d b.1 in rw same (later, (confirms, all))

  record Completes (cell : Cell c) (result : Text) : Type 0 where
    holder : Record
    holding : Holds c cell holder
    completion : IsResult result holder

  eval_completed :
      CodecLaws c
      → (q : Request) (t : Time) (cell : Cell c) (result : Text) → IsKept c cell
      → (eval c q t cell).1 ≡ wire (completed_reply result)
      → Completes (eval c q t cell).0 result
  eval_completed laws q t cell result k =
      eval_cases c (λ res. res.1 ≡ wire (completed_reply result) → Completes res.0 result) q t cell
        (λ code e. cc) (λ r reads differs e. absurd (ground arith))
        (λ o reply ready d e.
          let (r, is_r, done) = answers-IsResult q (to_ms t) o result (d ∙ ap answer e) in
          let k' = live-IsKept c (to_ms t) cell k in
          record {
            holder = r;
            holding = k'.holds r (subst (Reads c (live c (to_ms t) cell)) is_r ready.reads);
            completion = done;
          })
        (λ o r reply ready d v kept e. record {
          holder = r;
          holding = stored-Holds c laws r v;
          completion = stores-IsResult q (to_ms t) o r result (d ∙ ap (store r) (wire-injective e));
        })

  -- Finality, if the codec meets its laws and Redis keeps what the key holds up to its retention
  -- deadline. Once a run of the script has reported a result, to whatever command, then over any
  -- later runs up to the time at which Redis drops the record, the record stays as it is, and every
  -- run that reports a result reports this one.
  pub one_result :
      CodecLaws c
      → (q : Request) (t : Time) (cell : Cell c) (result : Text) (es : List (Request × Time))
      → IsKept c cell
      → (eval c q t cell).1 ≡ wire (completed_reply result)
      → Before (expiry (eval c q t cell).0) es
      → let cell' = (eval c q t cell).0 in
        ((run_all c es cell').0 ≡ cell') × AllConfirm result (run_all c es cell').1
  one_result laws q t cell result es k e b =
      let f = eval_completed laws q t cell result k e in
      let done = f.completion in
      let (same, all) =
        run_all_confirms es (eval c q t cell).0 f.holder f.holding done.is_completed b in
      (same, subst (λ x. AllConfirm x (run_all c es (eval c q t cell).0).1) done.is_result all)

  -- A run that grants nothing (an error, a conflict, a lost lease, an operation in progress or
  -- missing) writes nothing, and neither does a `read`, whatever it answers.
  pub writes_only_on_grant :
      (q : Request) (t : Time) (cell : Cell c)
      → (grants (eval c q t cell).1 ≡ false) ⊎ (q.command ≡ read)
      → (eval c q t cell).0 ≡ live c (to_ms t) cell
  writes_only_on_grant q t cell =
      eval_cases c
        (λ res. (grants res.1 ≡ false) ⊎ (q.command ≡ read) → res.0 ≡ live c (to_ms t) cell) q t
        cell (λ code h. refl) (λ r reads differs h. refl) (λ o reply ready d h. refl)
        (λ o r reply ready d v k h. absurd (store_grants q (to_ms t) o r reply d h))
