-- ===== src/HybridCache/Negative.antt =====
-- Remembered misses of HybridCache (src/cache/hybridCache.ts): hasNegative, setNegative,
-- removeNegative and clearNegative.
use lazy_layers.Prelude.{
  ℕ, ◌+◌, ◌*◌, ◌==◌, Bool, true, false, Option, none, some, ◌||◌, not, leb, ltb, length,
  if◌then◌else◌,
}
use lazy_layers.Prelude.Maps.{find}
use lazy_layers.HybridCache.{
  CacheKey, key_Eq, key_metadata_bytes, metadata, max_auxiliary_map_bytes,
}
use lazy_layers.HybridCache.Core.{versioned_cache_safe}
use lazy_layers.HybridCache.Tables.{Table, drop, clear, admit_entry, evict_while}
use lazy_layers.HybridCache.State.{
  Cache, CacheOptions, NegativeEntry, NegativeAccount, negative_bytes_of, with_negative, first_of,
  is_off,
}

-- DEFAULT_NEGATIVE_TTL_MS
abbrev pub default_negative_ttl_ms : ℕ
default_negative_ttl_ms = 10 * 1000

-- DEFAULT_NEGATIVE_MAX_ENTRIES
abbrev pub default_negative_max_entries : ℕ
default_negative_max_entries = 10000

unfoldable pub remove_negative : CacheKey → NegativeAccount → NegativeAccount
remove_negative k a = drop metadata negative_bytes_of k a

unfoldable pub clear_negative : NegativeAccount → NegativeAccount
clear_negative a = clear metadata negative_bytes_of a

-- this.closed || !this.versionedCacheSafe() || !this.invalidationTrusted
unfoldable pub distrusts : Cache → Bool
unfolding versioned_cache_safe
distrusts c = c.core.is_closed || not (versioned_cache_safe c.core) || not c.core.trusted

unfoldable pub has_negative_entry : ℕ → CacheKey → Option NegativeEntry → Cache → Cache × Bool
unfolding remove_negative
has_negative_entry now k none c = (c, false)
has_negative_entry now k (some e) c =
    let expired = with_negative c (remove_negative k (c.core.budget, c.negative)) in
    if leb e.expires_at now then (expired, false) else (c, true)

unfoldable pub has_negative : ℕ → CacheKey → Cache → Cache × Bool
unfolding distrusts has_negative_entry
has_negative now k c =
    let answer = has_negative_entry now k (find k c.negative.entries) c in
    if distrusts c then (c, false) else answer

unfoldable pub negative_ttl_ms : CacheOptions → Cache → ℕ
negative_ttl_ms o c =
    first_of o.negative_cache.ttl_ms c.options.negative_cache.ttl_ms default_negative_ttl_ms

unfoldable pub negative_max_entries : CacheOptions → Cache → ℕ
negative_max_entries o c =
    first_of o.negative_cache.max_entries c.options.negative_cache.max_entries
      default_negative_max_entries

-- The steps of setNegative once its options allow an entry: room by number, then by bytes.
unfoldable pub add_negative : ℕ → CacheKey → ℕ → ℕ → NegativeAccount → NegativeAccount
unfolding remove_negative
add_negative now k ttl max_entries a =
    let bytes = key_metadata_bytes k in
    let is_full : Table CacheKey NegativeEntry → Bool = λ t. leb max_entries (length t.entries) in
    let is_heavy : Table CacheKey NegativeEntry → Bool =
      λ t. ltb max_auxiliary_map_bytes (t.bytes + bytes) in
    let a' = evict_while metadata negative_bytes_of is_full a in
    let entry : NegativeEntry = record { expires_at = now + ttl; bytes = bytes } in
    if ltb max_auxiliary_map_bytes bytes
    then a'
    else admit_entry metadata negative_bytes_of k entry
        (evict_while metadata negative_bytes_of is_heavy (remove_negative k a'))

unfoldable pub set_negative : ℕ → CacheKey → CacheOptions → Cache → Cache
unfolding distrusts negative_ttl_ms negative_max_entries add_negative
set_negative now k o c =
    let ttl = negative_ttl_ms o c in
    let max_entries = negative_max_entries o c in
    if distrusts c
    then c
    else if is_off o.negative_cache.enabled || is_off c.options.negative_cache.enabled
    then c
    else if ttl == 0
    then c
    else if max_entries == 0
    then c
    else with_negative c (add_negative now k ttl max_entries (c.core.budget, c.negative))
