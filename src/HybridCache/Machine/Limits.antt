-- ===== src/HybridCache/Machine/Limits.antt =====
-- The limits of the tables of HybridCache (src/cache/hybridCache.ts): what its methods add to them.
use lazy_layers.Prelude.{
  ℕ, suc, ◌+◌, ◌≡◌, ◌≤◌, refl, ap, Bool, true, false, Option, none, some, ◌||◌, not, ◌==◌, arith,
  Text, if_lem, if_cases, leb, ltb, length, get_or, ◌-◌,
}
use lazy_layers.Prelude.Maps.{find, length-set_key_new}
use lazy_layers.MemoryBudget.{Budget}
use lazy_layers.HybridCache.{
  CacheKey, key_Eq, text_Eq, key_metadata_bytes, text_metadata_bytes, metadata,
  max_auxiliary_map_bytes, reserve_in,
}
use lazy_layers.HybridCache.State.{
  Cache, CacheOptions, NegativeEntry, InflightEntry, NegativeAccount, SeenAccount, InflightAccount,
  negative_bytes_of, seen_bytes_of, inflight_bytes_of, with_negative, with_seen, with_inflight,
  is_off,
}
use lazy_layers.HybridCache.Tables.{Table, drop, evict_while}
use lazy_layers.HybridCache.Tables.Accounts.{Exact}
use lazy_layers.HybridCache.Tables.Bounds.{length-drop}
use lazy_layers.HybridCache.Tables.Limits.{
  bytes-drop, bytes-evict_while, evict_while-Exact, drop-Exact, find-evict_while,
  bytes-admit_evicted, length-admit_evicted,
}
use lazy_layers.HybridCache.Negative.{
  remove_negative, has_negative_entry, has_negative, add_negative, set_negative, distrusts,
  negative_ttl_ms, negative_max_entries,
}
use lazy_layers.HybridCache.Seen.{
  remove_seen_event, has_seen_at, has_seen_event, add_seen, mark_event_seen, dedupe_ttl_ms,
  dedupe_max_entries,
}
use lazy_layers.HybridCache.Inflight.{
  can_track_new_inflight, remove_inflight, reserve_inflight, reserved_for, register_inflight,
  prune_found, prune_inflight_key, finish_inflight, is_load, has_passed, start_inflight,
  start_found, start_reserved, inflight_ttl_ms,
}

-- The tables of negative entries, of seen events and of shared loads stay within 2 MiB of metadata
-- each, the last two also within the numbers of entries that the options of the cache allow.
abbrev pub Limits : CacheOptions → Option ℕ → Cache → Type 0
Limits o d c =
    (c.options ≡ o)
    × (c.dedupe_max_entries ≡ d)
    × (c.negative.bytes ≤ max_auxiliary_map_bytes)
    × (c.seen.bytes ≤ max_auxiliary_map_bytes)
    × (length c.seen.entries ≤ get_or d 10000)
    × (c.inflight.bytes ≤ max_auxiliary_map_bytes)
    × (length c.inflight.entries ≤ get_or o.inflight.max_entries 1024)

-- The part of an answer that is the cache.
abbrev pub LimitsWith {ℓ} : CacheOptions → Option ℕ → {A : Type ℓ} → Cache × A → Type 0
LimitsWith o d (c, a) = Limits o d c

lighter_negative :
    (n : ℕ) (k : CacheKey) (ttl max_entries : ℕ) (a : NegativeAccount)
    → Exact metadata negative_bytes_of a.1
    → a.1.bytes ≤ max_auxiliary_map_bytes
    → (add_negative n k ttl max_entries a).1.bytes ≤ max_auxiliary_map_bytes
unfolding add_negative remove_negative
lighter_negative n k ttl max_entries a x h =
    let bytes = key_metadata_bytes k in
    let is_full : Table CacheKey NegativeEntry → Bool = λ t. leb max_entries (length t.entries) in
    let is_heavy : Table CacheKey NegativeEntry → Bool =
      λ t. ltb max_auxiliary_map_bytes (t.bytes + bytes) in
    let a' = evict_while metadata negative_bytes_of is_full a in
    let entry : NegativeEntry = record { expires_at = n + ttl; bytes = bytes } in
    if_cases (λ (r : NegativeAccount). r.1.bytes ≤ max_auxiliary_map_bytes)
      (ltb max_auxiliary_map_bytes bytes)
      (λ t. omega (arith, bytes-evict_while metadata negative_bytes_of is_full a, h))
      (λ t.
        bytes-admit_evicted metadata negative_bytes_of k entry max_auxiliary_map_bytes is_heavy
          (drop metadata negative_bytes_of k a') (ground (arith, t)) (λ u r. ground (arith, r))
          (drop-Exact metadata negative_bytes_of k a'
            (evict_while-Exact metadata negative_bytes_of is_full a x)))

abbrev SeenWithin : ℕ → SeenAccount → Type 0
SeenWithin n (b, t) = (t.bytes ≤ max_auxiliary_map_bytes) × (length t.entries ≤ n)

add_seen-Within :
    (now : ℕ) (id : Text) (n : ℕ) (a : SeenAccount)
    → Exact metadata seen_bytes_of a.1
    → SeenWithin n a
    → SeenWithin n (add_seen now id n a)
unfolding add_seen remove_seen_event
add_seen-Within now id n a x h =
    let bytes = text_metadata_bytes id in
    let is_full : Table Text ℕ → Bool =
      λ t. leb n (length t.entries) || ltb max_auxiliary_map_bytes (t.bytes + bytes) in
    let a' = drop metadata seen_bytes_of id a in
    if_cases (SeenWithin n) (ltb max_auxiliary_map_bytes bytes || n == 0) (λ t. h)
      (λ t. (
        bytes-admit_evicted metadata seen_bytes_of id now max_auxiliary_map_bytes is_full a'
            (ground (arith, t)) (λ u r. ground (arith, r))
            (drop-Exact metadata seen_bytes_of id a x),
        length-admit_evicted metadata seen_bytes_of id now n is_full a' (ground (arith, t))
            (λ u r. ground (arith, r))
            (find-evict_while metadata seen_bytes_of id is_full a x.unique),
      ))

module _ (o : CacheOptions) (d : Option ℕ) (c : Cache) (v : Limits o d c) where
  pub remove_negative-Limits :
      (k : CacheKey) → Limits o d (with_negative c (remove_negative k (c.core.budget, c.negative)))
  unfolding remove_negative
  remove_negative-Limits k =
      let (own, dedupe, nb, sb, se, ib, ie) = v in
      let lighter = bytes-drop metadata negative_bytes_of k (c.core.budget, c.negative) in
      (own, dedupe, omega (arith, lighter, nb), sb, se, ib, ie)

  pub remove_inflight-Limits :
      (k : CacheKey) → Limits o d (with_inflight c (remove_inflight k (c.core.budget, c.inflight)))
  unfolding remove_inflight
  remove_inflight-Limits k =
      let (own, dedupe, nb, sb, se, ib, ie) = v in
      let lighter = bytes-drop metadata inflight_bytes_of k (c.core.budget, c.inflight) in
      let shorter = length-drop metadata inflight_bytes_of k (c.core.budget, c.inflight) in
      (own, dedupe, nb, sb, se, omega (arith, lighter, ib), omega (arith, shorter, ie))

  pub remove_seen_event-Limits :
      (id : Text) → Limits o d (with_seen c (remove_seen_event id (c.core.budget, c.seen)))
  unfolding remove_seen_event
  remove_seen_event-Limits id =
      let (own, dedupe, nb, sb, se, ib, ie) = v in
      let lighter = bytes-drop metadata seen_bytes_of id (c.core.budget, c.seen) in
      let shorter = length-drop metadata seen_bytes_of id (c.core.budget, c.seen) in
      (own, dedupe, nb, omega (arith, lighter, sb), omega (arith, shorter, se), ib, ie)

  has_negative_entry-Limits :
      (now : ℕ) (k : CacheKey) (e : Option NegativeEntry)
      → LimitsWith o d (has_negative_entry now k e c)
  unfolding has_negative_entry
  has_negative_entry-Limits now k none = v
  has_negative_entry-Limits now k (some e) =
      if_lem (LimitsWith o d) (leb e.expires_at now) (remove_negative-Limits k) v

  pub has_negative-Limits : (now : ℕ) (k : CacheKey) → LimitsWith o d (has_negative now k c)
  unfolding has_negative
  has_negative-Limits now k =
      if_lem (LimitsWith o d) (distrusts c) v
        (has_negative_entry-Limits now k (find k c.negative.entries))

  pub set_negative-Limits :
      (now : ℕ) (k : CacheKey) (p : CacheOptions)
      → Exact metadata negative_bytes_of c.negative
      → Limits o d (set_negative now k p c)
  unfolding set_negative
  set_negative-Limits now k p x =
      let (own, dedupe, nb, sb, se, ib, ie) = v in
      let P = Limits o d in
      if_lem P (distrusts c) v (
        if_lem P (is_off p.negative_cache.enabled || is_off c.options.negative_cache.enabled) v (
          if_lem P (negative_ttl_ms p c == 0) v (
            if_lem P (negative_max_entries p c == 0) v (
              own,
              dedupe,
              lighter_negative now k (negative_ttl_ms p c) (negative_max_entries p c)
                  (c.core.budget, c.negative) x nb,
              sb,
              se,
              ib,
              ie,
            ))))

  has_seen_at-Limits :
      (now : ℕ) (id : Text) (at : Option ℕ) → LimitsWith o d (has_seen_at now id at c)
  unfolding has_seen_at
  has_seen_at-Limits now id none = v
  has_seen_at-Limits now id (some at) =
      if_lem (LimitsWith o d) (ltb (dedupe_ttl_ms c) (now - at)) (remove_seen_event-Limits id) v

  pub has_seen_event-Limits : (now : ℕ) (id : Text) → LimitsWith o d (has_seen_event now id c)
  unfolding has_seen_event
  has_seen_event-Limits now id = has_seen_at-Limits now id (find id c.seen.entries)

  pub mark_event_seen-Limits :
      (now : ℕ) (id : Text)
      → Exact metadata seen_bytes_of c.seen
      → Limits o d (mark_event_seen now id c)
  unfolding mark_event_seen dedupe_max_entries
  mark_event_seen-Limits now id x =
      let (own, dedupe, nb, sb, se, ib, ie) = v in
      let limit : dedupe_max_entries c ≡ get_or d 10000 =
        ap (λ (m : Option ℕ). get_or m 10000) dedupe in
      let within =
        add_seen-Within now id (dedupe_max_entries c) (c.core.budget, c.seen) x
          (sb, omega (arith, limit, se)) in
      (own, dedupe, nb, within.0, omega (arith, within.1, limit), ib, ie)

  reserved-Limits :
      (now : ℕ) (k : CacheKey) (load ttl n : ℕ) (r : Option Budget × Bool)
      → find k c.inflight.entries ≡ none
      → c.inflight.bytes + n ≤ max_auxiliary_map_bytes
      → suc (length c.inflight.entries) ≤ get_or o.inflight.max_entries 1024
      → LimitsWith o d (start_reserved now k load ttl (reserved_for n c r))
  unfolding register_inflight
  reserved-Limits now k load ttl n (b, true) absent room place =
      let (own, dedupe, nb, sb, se, ib, ie) = v in
      let e : InflightEntry = record { load = load; bytes = n; expires_at = some (now + ttl) } in
      let longer = length-set_key_new k e c.inflight.entries absent in
      (own, dedupe, nb, sb, se, room, omega (arith, longer, place))
  reserved-Limits now k load ttl n (b, false) absent room place = v

  start_found-Limits :
      (now : ℕ) (l2_locks : Bool) (k : CacheKey) (load : ℕ) (p : CacheOptions)
      (e : Option InflightEntry)
      → find k c.inflight.entries ≡ e
      → LimitsWith o d (start_found now l2_locks k load p c e)
  unfolding reserve_inflight can_track_new_inflight
  start_found-Limits now l2_locks k load p none absent =
      let n = key_metadata_bytes k in
      let ttl = inflight_ttl_ms l2_locks p c in
      let P : Cache × Option ℕ → Type 0 = λ r. LimitsWith o d (start_reserved now k load ttl r) in
      let limit : get_or c.options.inflight.max_entries 1024 ≡ get_or o.inflight.max_entries 1024 =
        ap (λ (q : CacheOptions). get_or q.inflight.max_entries 1024) v.0 in
      if_cases P (not (can_track_new_inflight c)) (λ t. v)
        (λ t.
          if_cases P (ltb max_auxiliary_map_bytes (c.inflight.bytes + n)) (λ u. v)
            (λ u.
              reserved-Limits now k load ttl n (reserve_in metadata n c.core.budget) absent
                (ground (arith, u)) (ground (arith, t, limit))))
  start_found-Limits now l2_locks k load p (some e) found = v

  prune_found-Limits :
      (now : ℕ) (k : CacheKey) (e : Option InflightEntry)
      → Limits o d (with_inflight c (prune_found now k e (c.core.budget, c.inflight)))
  prune_found-Limits now k none = v
  prune_found-Limits now k (some e) =
      if_lem (λ (a : InflightAccount). Limits o d (with_inflight c a)) (has_passed e.expires_at now)
        (remove_inflight-Limits k) v

  pub finish_inflight-Limits :
      (k : CacheKey) (load : ℕ)
      → Limits o d (with_inflight c (finish_inflight k load (c.core.budget, c.inflight)))
  unfolding finish_inflight
  finish_inflight-Limits k load =
      if_lem (λ (a : InflightAccount). Limits o d (with_inflight c a))
        (is_load load (find k c.inflight.entries)) (remove_inflight-Limits k) v

pub start_inflight-Limits :
    (o : CacheOptions) (d : Option ℕ) (c : Cache) (now : ℕ) (l2_locks : Bool) (k : CacheKey)
    (load : ℕ) (p : CacheOptions)
    → Limits o d c
    → LimitsWith o d (start_inflight now l2_locks k load p c)
unfolding start_inflight prune_inflight_key
start_inflight-Limits o d c now l2_locks k load p v =
    let c' = with_inflight c (prune_inflight_key now k (c.core.budget, c.inflight)) in
    start_found-Limits o d c' (prune_found-Limits o d c v now k (find k c.inflight.entries)) now
      l2_locks k load p (find k c'.inflight.entries) refl
