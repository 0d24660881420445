-- ===== src/Transactions/Script/Holding.antt =====
-- What a cell holds: the record under the key, kept at least up to its retention deadline.
use lazy_layers.Prelude.{
  ℕ, ◌≤◌, ◌≡◌, refl, Option, none, some, arith, ltb, Bool-cases, inl, inr, subst,
}
use lazy_layers.Transactions.Record.{
  Record, IsValid, Decoded, table, not_table, to_table, validate_record,
}
use lazy_layers.Transactions.Record.Validation.{validate_table-to_table, validate_table-IsValid}
use lazy_layers.Transactions.Script.{
  Codec, CodecLaws, Request, Time, to_ms, Cell, empty, stored, other_type, live, found, load, eval,
  decoded, validated,
}
use lazy_layers.Transactions.Script.Cases.{eval_cases, Reads}

module _ (c : Codec) where
  pub record Holds (cell : Cell c) (r : Record) : Type 0 where
    pub raw : c.Raw
    pub expires : ℕ
    pub is_stored : cell ≡ stored raw expires
    pub reads : load c cell ≡ found r
    pub kept : r.retain_until ≤ expires

  -- Redis keeps the record, if there is one, up to its retention deadline.
  pub record IsKept (cell : Cell c) : Type 0 where
    pub holds : (r : Record) → load c cell ≡ found r → Holds cell r

  validated-IsValid :
      (d : Decoded) {r : Record} → validated (validate_record d) ≡ found r → IsValid r
  unfolding validate_record
  validated-IsValid (table t) h = validate_table-IsValid t (ground arith)
  validated-IsValid not_table h = cc

  decoded-IsValid : (o : Option Decoded) {r : Record} → decoded o ≡ found r → IsValid r
  decoded-IsValid none h = cc
  decoded-IsValid (some d) h = validated-IsValid d h

  -- What the script reads is a valid record.
  pub load-IsValid : (cell : Cell c) {r : Record} → load c cell ≡ found r → IsValid r
  unfolding load
  load-IsValid empty h = cc
  load-IsValid other_type h = cc
  load-IsValid (stored raw e) h = decoded-IsValid (c.decode raw) (ground arith)

  pub live_now :
      (cell : Cell c) (now : ℕ) {r : Record}
      → Holds cell r
      → now ≤ r.retain_until
      → live c now cell ≡ cell
  live_now cell now h k = rw h.is_stored (ground (arith, h.kept))

  pub load-stored :
      CodecLaws c
      → (r : Record) (e : ℕ) → IsValid r
      → load c (stored (c.encode (to_table r)) e) ≡ found r
  unfolding load validate_record
  load-stored laws r e v =
      ground (arith, laws.size-encode r v, laws.decode-encode r v, validate_table-to_table r v)

  pub stored-Holds :
      CodecLaws c
      → (r : Record) → IsValid r
      → Holds (stored (c.encode (to_table r)) r.retain_until) r
  stored-Holds laws r v = record {
    raw = c.encode (to_table r);
    expires = r.retain_until;
    is_stored = refl;
    reads = load-stored laws r r.retain_until v;
    kept = omega arith;
  }

  pub empty-IsKept : IsKept empty
  unfolding load
  empty-IsKept = record { holds = λ r h. cc }

  pub live-IsKept : (now : ℕ) (cell : Cell c) → IsKept cell → IsKept (live c now cell)
  live-IsKept now empty k = k
  live-IsKept now other_type k = k
  live-IsKept now (stored raw e) k = elim (Bool-cases (ltb e now)) [
    | inl gone ↦ rw gone empty-IsKept
    | inr there ↦ rw there k
  ]

  pub read_twice :
      (cell : Cell c) (r s : Record) → load c cell ≡ found r → load c cell ≡ found s → r ≡ s
  read_twice cell r s h k = cc

  -- If the codec meets its laws and Redis keeps what the key holds up to its retention deadline, it
  -- does so after a run of the script, whatever is asked and whenever.
  pub eval-IsKept :
      CodecLaws c
      → (q : Request) (t : Time) (cell : Cell c) → IsKept cell
      → IsKept (eval c q t cell).0
  eval-IsKept laws q t cell k =
      let k' = live-IsKept (to_ms t) cell k in
      eval_cases c (λ r. IsKept r.0) q t cell (λ code. k') (λ r reads differs. k')
        (λ o reply ready e. k')
        (λ o r reply ready e v h. record {
          holds = λ s found_s.
              let held = stored-Holds laws r v in
              subst (Holds _) (read_twice _ r s held.reads found_s) held;
        })

  -- What has been read is the record that the cell holds.
  pub Reads-Holds :
      (cell : Cell c) (r : Record) (o : Option Record) → Holds cell r → Reads c cell o → o ≡ some r
  Reads-Holds cell r none h e = let h' = h.reads in cc
  Reads-Holds cell r (some s) h e = let h' = h.reads in cc
