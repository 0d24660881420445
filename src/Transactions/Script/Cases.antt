-- ===== src/Transactions/Script/Cases.antt =====
-- The outcomes of one run of the coordination script, as a rule by cases.
use lazy_layers.Prelude.{
  ℕ, ◌+◌, ◌-◌, ◌≤◌, ◌<◌, ◌≡◌, refl, true, false, Option, none, some, List, arith, ltb, leb, not,
  ◌&&◌, Text, text_eq_iff, Bool-cases, inl, inr, to_natural, subst,
}
use lazy_layers.Transactions.Record.{Record, IsValid, to_table, validate_table, max_time}
use lazy_layers.Transactions.Record.Validation.{validate_table-IsValid, validate_table-eq}
use lazy_layers.Transactions.Script.{
  Codec, Request, Code, Reply, wire, error_reply, Time, to_ms, Decision, answer, store,
  invalid_record, invalid_ttl, invalid_time, check_request, after_check, decide, conflict, Cell,
  stored, live, Loaded, no_record, refused, found, load, persist, persist_valid, apply,
  is_same_operation, run_command, with_loaded, eval, max_retention,
}

module _ (c : Codec) where
  -- What the script has read under the key.
  abbrev pub Reads : Cell c → Option Record → Type 0
  Reads cell none = load c cell ≡ no_record
  Reads cell (some r) = load c cell ≡ found r

  abbrev pub IsSame : Request → Option Record → Type 0
  IsSame q none = Unit
  IsSame q (some r) = (r.fingerprint ≡ q.fingerprint) × (r.durable_id ≡ q.durable_id)

  -- The command is reached: the arguments and the clock are valid, and the record, if there is one,
  -- is of the same operation.
  pub record IsReady (q : Request) (now : ℕ) (cell : Cell c) (o : Option Record) : Type 0 where
    pub checked : check_request q ≡ none
    pub reads : Reads cell o
    pub same : IsSame q o
    pub in_time : now + to_natural q.retention ≤ max_time

  persist_valid_cases {ℓ} :
      (P : Cell c × Reply → Type ℓ) (r : Record) (now : ℕ) (reply : List Text) (cell : Cell c)
      → ((code : Code) → P (cell, error_reply code))
      → (IsValid r
          → now < r.retain_until
          → P (stored (c.encode (to_table r)) r.retain_until, wire reply))
      → (o : Option Record) → validate_table (to_table r) ≡ o
      → P (persist_valid c r now reply cell o)
  persist_valid_cases P r now reply cell fails writes none e = fails invalid_record
  persist_valid_cases P r now reply cell fails writes (some s) e =
      elim (Bool-cases (ltb 2048 (c.size (c.encode (to_table r))))) [
        | inl long ↦ rw long (fails invalid_record)
        | inr short ↦
            elim (Bool-cases
              (not (ltb 0 (r.retain_until - now) && leb (r.retain_until - now) max_retention))) [
                | inl out ↦ rw (short, out) (fails invalid_ttl)
                | inr within ↦
                    let kept : now + (r.retain_until - now) ≡ r.retain_until = ground arith in
                    let valid : IsValid r =
                      subst IsValid (validate_table-eq r s e)
                        (validate_table-IsValid (to_table r) e) in
                    rw (short, within, kept) (writes valid (ground arith))
              ]
      ]

  persist_cases {ℓ} :
      (P : Cell c × Reply → Type ℓ) (r : Record) (now : ℕ) (reply : List Text) (cell : Cell c)
      → ((code : Code) → P (cell, error_reply code))
      → (IsValid r
          → now < r.retain_until
          → P (stored (c.encode (to_table r)) r.retain_until, wire reply))
      → P (persist c r now reply cell)
  unfolding persist
  persist_cases P r now reply cell fails writes =
      persist_valid_cases P r now reply cell fails writes (validate_table (to_table r)) refl

  module _ {ℓ} (P : Cell c × Reply → Type ℓ) (q : Request) (now : ℕ) (cell : Cell c)
      (fails : (code : Code) → P (cell, error_reply code))
      (conflicts : (r : Record)
        → Reads cell (some r)
        → is_same_operation c q r ≡ false
        → P (cell, wire conflict))
      (answers : (o : Option Record) (reply : Reply)
        → IsReady q now cell o
        → decide q now o ≡ answer reply
        → P (cell, reply))
      (writes : (o : Option Record) (r : Record) (reply : List Text)
        → IsReady q now cell o
        → decide q now o ≡ store r reply
        → IsValid r
        → now < r.retain_until
        → P (stored (c.encode (to_table r)) r.retain_until, wire reply)) where
    apply_cases :
        (o : Option Record)
        → IsReady q now cell o
        → (d : Decision) → decide q now o ≡ d
        → P (apply c d now cell)
    apply_cases o ready (answer reply) e = answers o reply ready e
    apply_cases o ready (store r reply) e =
        persist_cases P r now reply cell fails (writes o r reply ready e)

    run_cases :
        (o : Option Record)
        → check_request q ≡ none
        → Reads cell o
        → IsSame q o
        → P (run_command c q now o cell)
    unfolding run_command
    run_cases o checked reads same =
        elim (Bool-cases (ltb max_time (now + to_natural q.retention))) [
          | inl out ↦ rw out (fails invalid_time)
          | inr within ↦
              let ready : IsReady q now cell o = record {
                checked = checked;
                reads = reads;
                same = same;
                in_time = ground arith;
              } in
              rw within (apply_cases o ready (decide q now o) refl)
        ]

    IsSame-parts : (r : Record) → is_same_operation c q r ≡ true → IsSame q (some r)
    IsSame-parts r e =
        ground
          (arith, text_eq_iff r.fingerprint q.fingerprint, text_eq_iff r.durable_id q.durable_id)

    loaded_cases :
        check_request q ≡ none → (l : Loaded) → load c cell ≡ l → P (with_loaded c q now l cell)
    unfolding with_loaded
    loaded_cases checked no_record e = run_cases none checked e tt
    loaded_cases checked (refused code) e = fails code
    loaded_cases checked (found r) e = elim (Bool-cases (is_same_operation c q r)) [
      | inl same ↦ rw same (run_cases (some r) checked e (IsSame-parts r same))
      | inr differs ↦ rw differs (conflicts r e differs)
    ]

    check_cases : (k : Option Code) → check_request q ≡ k → P (after_check c k q now cell)
    check_cases (some code) e = fails code
    check_cases none e = loaded_cases e (load c cell) refl

  -- One run answers with an error or a conflict and leaves the cell, or answers as `decide` says and
  -- leaves the cell, or stores the record that `decide` says, valid and kept up to its retention.
  pub eval_cases {ℓ} :
      (P : Cell c × Reply → Type ℓ) (q : Request) (t : Time) (cell : Cell c)
      → let cell' = live c (to_ms t) cell in
        ((code : Code) → P (cell', error_reply code))
        → ((r : Record)
            → Reads cell' (some r)
            → is_same_operation c q r ≡ false
            → P (cell', wire conflict))
        → ((o : Option Record) (reply : Reply)
            → IsReady q (to_ms t) cell' o
            → decide q (to_ms t) o ≡ answer reply
            → P (cell', reply))
        → ((o : Option Record) (r : Record) (reply : List Text)
            → IsReady q (to_ms t) cell' o
            → decide q (to_ms t) o ≡ store r reply
            → IsValid r
            → to_ms t < r.retain_until
            → P (stored (c.encode (to_table r)) r.retain_until, wire reply))
        → P (eval c q t cell)
  unfolding eval
  eval_cases P q t cell fails conflicts answers writes =
      check_cases P q (to_ms t) (live c (to_ms t) cell) fails conflicts answers writes
        (check_request q) refl
