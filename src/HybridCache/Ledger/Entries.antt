-- ===== src/HybridCache/Ledger/Entries.antt =====
-- The operations on the tables of HybridCache (src/cache/hybridCache.ts) keep its accounts.
use lazy_layers.Prelude.{
  ℕ, ◌-◌, ◌+◌, ◌*◌, Bool, Option, none, some, List, [], ◌∷◌, ◌||◌, not, ◌==◌, Text, if_lem, leb,
  ltb, length,
}
use lazy_layers.Prelude.Maps.{Map, find}
use lazy_layers.HybridCache.{
  CacheKey, key_Eq, text_Eq, key_metadata_bytes, text_metadata_bytes, metadata,
  max_auxiliary_map_bytes,
}
use lazy_layers.HybridCache.Revisions.{Guard}
use lazy_layers.HybridCache.Core.{versioned_cache_safe}
use lazy_layers.HybridCache.Tables.{Table, drop, admit_entry, evict_while}
use lazy_layers.HybridCache.Tables.Accounts.{
  Keeper, Agrees, drop-Agrees, admit_entry-Agrees, evict_while-Agrees, find-drop,
}
use lazy_layers.HybridCache.Tables.Absent.{evict_while-Absent}
use lazy_layers.HybridCache.State.{
  Cache, CacheOptions, NegativeEntry, StaleEntry, NegativeAccount, StaleAccount, SeenAccount,
  negative_bytes_of, stale_bytes_of, seen_bytes_of, inflight_bytes_of, stale_category,
  with_negative, with_stale, with_seen, with_inflight, is_off, first_of,
}
use lazy_layers.HybridCache.Negative.{
  remove_negative, has_negative_entry, has_negative, add_negative, set_negative, distrusts,
  negative_ttl_ms, negative_max_entries,
}
use lazy_layers.HybridCache.Stale.{
  remove_stale, evict_one_stale, evict_first, add_stale, stale_bytes, remember_stale,
  remember_encoded, encoding, get_stale, get_stale_entry, fail_safe_enabled, default_stale_ttl_ms,
}
use lazy_layers.HybridCache.Seen.{
  remove_seen_event, has_seen_at, has_seen_event, add_seen, mark_event_seen, dedupe_ttl_ms,
  dedupe_max_entries,
}
use lazy_layers.HybridCache.Inflight.{remove_inflight}
use lazy_layers.HybridCache.Ledger.{
  Accounts, negative-Accounts, stale-Accounts, seen-Accounts, inflight-Accounts,
}

add_negative-Agrees :
    (now : ℕ) (k : CacheKey) (ttl max_entries : ℕ) (w : Keeper metadata) (a : NegativeAccount)
    → Agrees metadata negative_bytes_of w a
    → Agrees metadata negative_bytes_of w (add_negative now k ttl max_entries a)
unfolding add_negative remove_negative
add_negative-Agrees now k ttl max_entries w a h =
    let bytes = key_metadata_bytes k in
    let is_full : Table CacheKey NegativeEntry → Bool = λ t. leb max_entries (length t.entries) in
    let is_heavy : Table CacheKey NegativeEntry → Bool =
      λ t. ltb max_auxiliary_map_bytes (t.bytes + bytes) in
    let entry : NegativeEntry = record { expires_at = now + ttl; bytes = bytes } in
    let a1 = evict_while metadata negative_bytes_of is_full a in
    let h1 = evict_while-Agrees metadata negative_bytes_of w is_full a h in
    let a2 = drop metadata negative_bytes_of k a1 in
    let h2 = drop-Agrees metadata negative_bytes_of w k a1 h1 in
    let gone = find-drop metadata negative_bytes_of k a1 h1.0.unique in
    let a3 = evict_while metadata negative_bytes_of is_heavy a2 in
    let h3 = evict_while-Agrees metadata negative_bytes_of w is_heavy a2 h2 in
    let absent = evict_while-Absent metadata negative_bytes_of k is_heavy a2 gone in
    if_lem (Agrees metadata negative_bytes_of w) (ltb max_auxiliary_map_bytes bytes) h1
      (admit_entry-Agrees metadata negative_bytes_of w k entry a3 absent h3)

add_stale-Agrees :
    (now : ℕ) (k : CacheKey) (encoded : Text) (ttl max_entries max_bytes : ℕ)
    (w : Keeper stale_category) (a : StaleAccount)
    → Agrees stale_category stale_bytes_of w a
    → Agrees stale_category stale_bytes_of w (add_stale now k encoded ttl max_entries max_bytes a)
unfolding add_stale remove_stale
add_stale-Agrees now k encoded ttl max_entries max_bytes w a h =
    let bytes = stale_bytes k encoded in
    let entry : StaleEntry = record { encoded = encoded; bytes = bytes; expires_at = now + ttl } in
    let is_over : Table CacheKey StaleEntry → Bool =
      λ t. ltb max_entries (length t.entries) || ltb max_bytes t.bytes in
    let a1 = drop stale_category stale_bytes_of k a in
    let h1 = drop-Agrees stale_category stale_bytes_of w k a h in
    let gone = find-drop stale_category stale_bytes_of k a h.0.unique in
    let h2 = admit_entry-Agrees stale_category stale_bytes_of w k entry a1 gone h1 in
    let P : StaleAccount → Type 0 = Agrees stale_category stale_bytes_of w in
    if_lem P (max_entries == 0 || max_bytes == 0) h1 (
      if_lem P (ltb max_bytes bytes) h1 (
        evict_while-Agrees stale_category stale_bytes_of w is_over
          (admit_entry stale_category stale_bytes_of k entry a1) h2))

add_seen-Agrees :
    (now : ℕ) (id : Text) (max_entries : ℕ) (w : Keeper metadata) (a : SeenAccount)
    → Agrees metadata seen_bytes_of w a
    → Agrees metadata seen_bytes_of w (add_seen now id max_entries a)
unfolding add_seen remove_seen_event
add_seen-Agrees now id max_entries w a h =
    let bytes = text_metadata_bytes id in
    let is_full : Table Text ℕ → Bool =
      λ t. leb max_entries (length t.entries) || ltb max_auxiliary_map_bytes (t.bytes + bytes) in
    let a1 = drop metadata seen_bytes_of id a in
    let h1 = drop-Agrees metadata seen_bytes_of w id a h in
    let gone = find-drop metadata seen_bytes_of id a h.0.unique in
    let a2 = evict_while metadata seen_bytes_of is_full a1 in
    let h2 = evict_while-Agrees metadata seen_bytes_of w is_full a1 h1 in
    let absent = evict_while-Absent metadata seen_bytes_of id is_full a1 gone in
    if_lem (Agrees metadata seen_bytes_of w) (ltb max_auxiliary_map_bytes bytes || max_entries == 0)
      h (admit_entry-Agrees metadata seen_bytes_of w id now a2 absent h2)

evict_first-Agrees :
    (w : Keeper stale_category) (m : Map CacheKey StaleEntry) (a : StaleAccount)
    → Agrees stale_category stale_bytes_of w a
    → Agrees stale_category stale_bytes_of w (evict_first m a).0
unfolding remove_stale
evict_first-Agrees w [] a h = h
evict_first-Agrees w ((k, e) ∷ m) a h = drop-Agrees stale_category stale_bytes_of w k a h

module _ (m0 s0 : ℕ) (c : Cache) (gs : List Guard) (v : Accounts m0 s0 c gs) where
  abbrev pub Keeps : Cache → Type 0
  Keeps c' = Accounts m0 s0 c' gs

  pub remove_negative-Keeps :
      (k : CacheKey) → Keeps (with_negative c (remove_negative k (c.core.budget, c.negative)))
  unfolding remove_negative
  remove_negative-Keeps k =
      negative-Accounts m0 s0 c gs v (λ a. remove_negative k a)
        (λ w a h. drop-Agrees metadata negative_bytes_of w k a h)

  -- The same, beside an answer.
  abbrev pub KeepsWith {ℓ} : {A : Type ℓ} → Cache × A → Type 0
  KeepsWith (c', answer) = Keeps c'

  has_negative_entry-Keeps :
      (now : ℕ) (k : CacheKey) (o : Option NegativeEntry) → KeepsWith (has_negative_entry now k o c)
  unfolding has_negative_entry
  has_negative_entry-Keeps now k none = v
  has_negative_entry-Keeps now k (some e) =
      if_lem KeepsWith (leb e.expires_at now) (remove_negative-Keeps k) v

  pub has_negative-Keeps : (now : ℕ) (k : CacheKey) → KeepsWith (has_negative now k c)
  unfolding has_negative
  has_negative-Keeps now k =
      if_lem KeepsWith (distrusts c) v (has_negative_entry-Keeps now k (find k c.negative.entries))

  pub set_negative-Keeps :
      (now : ℕ) (k : CacheKey) (o : CacheOptions) → Keeps (set_negative now k o c)
  unfolding set_negative
  set_negative-Keeps now k o =
      let ttl = negative_ttl_ms o c in
      let max_entries = negative_max_entries o c in
      let added =
        negative-Accounts m0 s0 c gs v (λ a. add_negative now k ttl max_entries a)
          (add_negative-Agrees now k ttl max_entries) in
      if_lem Keeps (distrusts c) v (
        if_lem Keeps (is_off o.negative_cache.enabled || is_off c.options.negative_cache.enabled) v
          (if_lem Keeps (ttl == 0) v (if_lem Keeps (max_entries == 0) v added)))

  pub remove_stale-Keeps :
      (k : CacheKey) → Keeps (with_stale c (remove_stale k (c.core.budget, c.stale)))
  unfolding remove_stale
  remove_stale-Keeps k =
      stale-Accounts m0 s0 c gs v (λ a. remove_stale k a)
        (λ w a h. drop-Agrees stale_category stale_bytes_of w k a h)

  remember_encoded-Keeps :
      (now : ℕ) (k : CacheKey) (e : Option Text) (ttl : ℕ) (o : CacheOptions)
      → {V : Type 0} (encode : V → Option Text) (decode : Text → Option V)
      → Keeps (remember_encoded encode decode now k e ttl o c)
  remember_encoded-Keeps now k none ttl o encode decode = v
  remember_encoded-Keeps now k (some e) ttl o encode decode =
      let n = first_of o.fail_safe.max_entries c.options.fail_safe.max_entries 1000 in
      let b = first_of o.fail_safe.max_bytes c.options.fail_safe.max_bytes (16 * 1024 * 1024) in
      stale-Accounts m0 s0 c gs v (λ a. add_stale now k e ttl n b a)
        (add_stale-Agrees now k e ttl n b)

  pub remember_stale-Keeps :
      {V : Type 0} (encode : V → Option Text) (decode : Text → Option V) (now : ℕ) (k : CacheKey)
      (value : V) (o : CacheOptions) (reusable : Option Text)
      → Keeps (remember_stale encode decode now k value o reusable c)
  unfolding remember_stale
  remember_stale-Keeps encode decode now k value o reusable =
      let ttl =
        first_of o.fail_safe.stale_ttl_ms c.options.fail_safe.stale_ttl_ms default_stale_ttl_ms in
      if_lem Keeps
        (c.core.is_closed || not (versioned_cache_safe c.core) || not (fail_safe_enabled o c)) v
        (if_lem Keeps (ttl == 0) v (
          remember_encoded-Keeps now k (encoding encode decode value reusable) ttl o encode decode))

  get_stale_entry-Keeps :
      {V : Type 0} (encode : V → Option Text) (decode : Text → Option V) (now : ℕ) (k : CacheKey)
      (o : Option StaleEntry)
      → KeepsWith (get_stale_entry encode decode now k o c)
  unfolding get_stale_entry
  get_stale_entry-Keeps encode decode now k none = v
  get_stale_entry-Keeps encode decode now k (some e) =
      if_lem KeepsWith (leb e.expires_at now) (remove_stale-Keeps k) v

  pub get_stale-Keeps :
      {V : Type 0} (encode : V → Option Text) (decode : Text → Option V) (now : ℕ) (k : CacheKey)
      → KeepsWith (get_stale encode decode now k c)
  unfolding get_stale
  get_stale-Keeps encode decode now k =
      if_lem KeepsWith (distrusts c) v
        (get_stale_entry-Keeps encode decode now k (find k c.stale.entries))

  -- evictOneStale, as the memory budget calls it.
  pub evict_one_stale-Keeps : Keeps (with_stale c (evict_one_stale (c.core.budget, c.stale)).0)
  unfolding evict_one_stale
  evict_one_stale-Keeps =
      stale-Accounts m0 s0 c gs v (λ a. (evict_one_stale a).0)
        (λ w a h. evict_first-Agrees w a.1.entries a h)

  pub forget-Keeps :
      (id : Text) → Keeps (with_seen c (remove_seen_event id (c.core.budget, c.seen)))
  unfolding remove_seen_event
  forget-Keeps id =
      seen-Accounts m0 s0 c gs v (λ a. remove_seen_event id a)
        (λ w a h. drop-Agrees metadata seen_bytes_of w id a h)

  has_seen_at-Keeps : (now : ℕ) (id : Text) (o : Option ℕ) → KeepsWith (has_seen_at now id o c)
  unfolding has_seen_at
  has_seen_at-Keeps now id none = v
  has_seen_at-Keeps now id (some at) =
      if_lem KeepsWith (ltb (dedupe_ttl_ms c) (now - at)) (forget-Keeps id) v

  pub has_seen_event-Keeps : (now : ℕ) (id : Text) → KeepsWith (has_seen_event now id c)
  unfolding has_seen_event
  has_seen_event-Keeps now id = has_seen_at-Keeps now id (find id c.seen.entries)

  pub mark_event_seen-Keeps : (now : ℕ) (id : Text) → Keeps (mark_event_seen now id c)
  unfolding mark_event_seen
  mark_event_seen-Keeps now id =
      seen-Accounts m0 s0 c gs v (λ a. add_seen now id (dedupe_max_entries c) a)
        (add_seen-Agrees now id (dedupe_max_entries c))

  pub remove_inflight-Keeps :
      (k : CacheKey) → Keeps (with_inflight c (remove_inflight k (c.core.budget, c.inflight)))
  unfolding remove_inflight
  remove_inflight-Keeps k =
      inflight-Accounts m0 s0 c gs v (λ a. remove_inflight k a)
        (λ w a h. drop-Agrees metadata inflight_bytes_of w k a h)
