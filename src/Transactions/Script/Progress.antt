-- ===== src/Transactions/Script/Progress.antt =====
-- What a well-formed request achieves: an absent or abandoned operation can be begun, and its owner
-- can renew and complete it.
use lazy_layers.Prelude.{
  ℕ, ◌+◌, ◌≤◌, ◌<◌, ◌≡◌, ◌≢◌, ◌∙◌, true, false, Option, none, some, List, arith, Text, to_natural,
  text_eq_iff, ltb,
}
use lazy_layers.Transactions.Record.{Record, IsValid, pending, to_table, hex64, reference, max_time}
use lazy_layers.Transactions.Record.Validation.{validate_table-to_table}
use lazy_layers.Transactions.Script.{
  Codec, CodecLaws, store, begin, complete, Request, wire, Time, to_ms, Cell, stored, live, eval,
  check_request, fresh, finish, acquired, completed_reply, max_retention, persist, decide,
  decide_begin, decide_complete, run_command, with_loaded, is_same_operation,
}
use lazy_layers.Transactions.Script.Cases.{Reads, IsSame}
use lazy_layers.Transactions.Script.Holding.{load-IsValid}

-- What the tests of the arguments leave of a request to begin.
record IsBegin (q : Request) : Type 0 where
  fingerprint_hex : hex64 q.fingerprint ≡ true
  durable_reference : reference q.durable_id 128 ≡ true
  owner_hex : hex64 q.owner ≡ true
  lease_positive : 0 < to_natural q.lease
  lease-le-retention : to_natural q.lease ≤ to_natural q.retention
  retention_bounded : to_natural q.retention ≤ max_retention

check-IsBegin : (q : Request) → check_request q ≡ none → q.command ≡ begin → IsBegin q
unfolding check_request
check-IsBegin q h b = ground arith

-- The operation can be begun: there is no record, or a pending one whose lease has run out, of
-- another owner, that was not stored by a clock ahead of this one.
abbrev pub CanBegin : Request → ℕ → Option Record → Type 0
CanBegin q now none = Unit
CanBegin q now (some r) =
    (r.state ≡ pending)
    × (r.lease_until ≤ now)
    × (r.owner ≢ q.owner)
    × (r.retain_until ≤ now + max_retention)

decide_begin_fresh :
    (q : Request) (now : ℕ) (o : Option Record)
    → q.command ≡ begin
    → CanBegin q now o
    → decide q now o ≡ store (fresh q now o) (acquired q (to_natural q.lease))
unfolding decide decide_begin
decide_begin_fresh q now none b h = ground arith
decide_begin_fresh q now (some r) b h = ground (arith, text_eq_iff r.owner q.owner)

fresh_retention :
    (q : Request) (now : ℕ) (o : Option Record)
    → IsBegin q
    → CanBegin q now o
    → (now < (fresh q now o).retain_until) × ((fresh q now o).retain_until ≤ now + max_retention)
fresh_retention q now none b h = ground (arith, b)
fresh_retention q now (some r) b h = ground (arith, b)

check_complete :
    (q : Request)
    → check_request q ≡ none
    → q.command ≡ complete
    → (reference q.result 256 ≡ true)
      × (0 < to_natural q.retention)
      × (to_natural q.retention ≤ max_retention)
unfolding check_request
check_complete q h b = ground arith

decide_complete_owned :
    (q : Request) (now : ℕ) (r : Record)
    → q.command ≡ complete
    → r.state ≡ pending
    → r.owner ≡ q.owner
    → now < r.lease_until
    → decide q now (some r) ≡ store (finish q now r) (completed_reply q.result)
unfolding decide decide_complete
decide_complete_owned q now r b p o l = ground (arith, text_eq_iff r.owner q.owner)

module _ (c : Codec) where
  fresh-IsValid :
      (q : Request) (now : ℕ) (cell : Cell c) (o : Option Record)
      → IsBegin q
      → Reads c cell o
      → now + to_natural q.retention ≤ max_time
      → IsValid (fresh q now o)
  fresh-IsValid q now cell none b reads k = ground (arith, b)
  fresh-IsValid q now cell (some r) b reads k = ground (arith, b, load-IsValid c cell reads)

  persist_writes :
      CodecLaws c
      → (r : Record) (now : ℕ) (reply : List Text) (cell : Cell c) → IsValid r
      → now < r.retain_until
      → r.retain_until ≤ now + max_retention
      → persist c r now reply cell ≡ (stored (c.encode (to_table r)) r.retain_until, wire reply)
  unfolding persist
  persist_writes laws r now reply cell v k l =
      ground (arith, validate_table-to_table r v, laws.size-encode r v)

  same_operation : (q : Request) (r : Record) → IsSame c q (some r) → is_same_operation c q r ≡ true
  same_operation q r h =
      ground (arith, text_eq_iff r.fingerprint q.fingerprint, text_eq_iff r.durable_id q.durable_id)

  -- A request that passes the tests reaches its command.
  eval_reaches :
      (q : Request) (t : Time) (cell : Cell c) (o : Option Record)
      → check_request q ≡ none
      → Reads c (live c (to_ms t) cell) o
      → IsSame c q o
      → eval c q t cell ≡ run_command c q (to_ms t) o (live c (to_ms t) cell)
  unfolding eval with_loaded
  eval_reaches q t cell none checked reads same = rw (checked, reads)
  eval_reaches q t cell (some r) checked reads same = rw (checked, reads, same_operation q r same)

  run_stores :
      (q : Request) (now : ℕ) (o : Option Record) (cell : Cell c) (r : Record) (reply : List Text)
      → now + to_natural q.retention ≤ max_time
      → decide q now o ≡ store r reply
      → run_command c q now o cell ≡ persist c r now reply cell
  unfolding run_command
  run_stores q now o cell r reply k e =
      let within : ltb max_time (now + to_natural q.retention) ≡ false = ground arith in
      rw (within, e)

  -- If the codec meets its laws: a well-formed `begin` acquires an operation of which the key holds no
  -- record, or a pending one of the same operation and of another owner whose lease has run out and
  -- whose retention is not beyond the longest one from now, at a time that the protocol can express.
  -- The reply gives the owner the full lease, and the cell holds the new record.
  pub begin_acquires :
      CodecLaws c
      → (q : Request) (t : Time) (cell : Cell c) (o : Option Record) → check_request q ≡ none
      → q.command ≡ begin
      → Reads c (live c (to_ms t) cell) o
      → IsSame c q o
      → CanBegin q (to_ms t) o
      → to_ms t + to_natural q.retention ≤ max_time
      → let r = fresh q (to_ms t) o in
        eval c q t cell
        ≡ (stored (c.encode (to_table r)) r.retain_until, wire (acquired q (to_natural q.lease)))
  begin_acquires laws q t cell o checked b reads same can k =
      let now = to_ms t in
      let cell' = live c now cell in
      let is_begin = check-IsBegin q checked b in
      let (kept, bounded) = fresh_retention q now o is_begin can in
      eval_reaches q t cell o checked reads same
      ∙ run_stores q now o cell' (fresh q now o) _ k (decide_begin_fresh q now o b can)
      ∙ persist_writes laws (fresh q now o) now _ cell'
          (fresh-IsValid q now cell' o is_begin reads k) kept bounded

  finish-IsValid :
      (q : Request) (now : ℕ) (r : Record)
      → IsValid r
      → reference q.result 256 ≡ true
      → now + to_natural q.retention ≤ max_time
      → IsValid (finish q now r)
  finish-IsValid q now r v ref k = ground (arith, v)

  -- If the codec meets its laws: a well-formed `complete` of the owner of a pending record of the same
  -- operation, whose lease is running and whose retention is not beyond the longest one from now, at
  -- a time that the protocol can express, completes the operation. The reply reports its result, and
  -- the cell holds the completed record.
  pub owner_completes :
      CodecLaws c
      → (q : Request) (t : Time) (cell : Cell c) (r : Record) → check_request q ≡ none
      → q.command ≡ complete
      → Reads c (live c (to_ms t) cell) (some r)
      → IsSame c q (some r)
      → r.state ≡ pending
      → r.owner ≡ q.owner
      → to_ms t < r.lease_until
      → r.retain_until ≤ to_ms t + max_retention
      → to_ms t + to_natural q.retention ≤ max_time
      → let r' = finish q (to_ms t) r in
        eval c q t cell
        ≡ (stored (c.encode (to_table r')) r'.retain_until, wire (completed_reply q.result))
  owner_completes laws q t cell r checked is_complete reads same p own l m k =
      let now = to_ms t in
      let cell' = live c now cell in
      let (ref, positive, bounded) = check_complete q checked is_complete in
      let v = load-IsValid c cell' reads in
      eval_reaches q t cell (some r) checked reads same
      ∙ run_stores q now (some r) cell' (finish q now r) _ k
          (decide_complete_owned q now r is_complete p own l)
      ∙ persist_writes laws (finish q now r) now _ cell' (finish-IsValid q now r v ref k)
          (ground arith) (ground arith)
