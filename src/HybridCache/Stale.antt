-- ===== src/HybridCache/Stale.antt =====
-- Fallback values of HybridCache (src/cache/hybridCache.ts): rememberStale, getStale, removeStale,
-- clearStale and evictOneStale. The codec of values is a parameter: `encode` is
-- `serializeWithStats(value).buffer`, with none for a value it throws on, and `decode` is
-- `decodeValue`.
use lazy_layers.Prelude.{
  ℕ, ◌+◌, ◌*◌, ◌==◌, Bool, true, false, Option, none, some, [], ◌∷◌, ◌&&◌, ◌||◌, not, leb, ltb,
  length, if◌then◌else◌, Text,
}
use lazy_layers.Prelude.Maps.{Map, find}
use lazy_layers.HybridCache.{utf8_length, CacheKey, key_Eq, to_text}
use lazy_layers.HybridCache.Core.{versioned_cache_safe}
use lazy_layers.HybridCache.Tables.{Table, drop, clear, admit_entry, evict_while}
use lazy_layers.HybridCache.State.{
  Cache, CacheOptions, StaleEntry, StaleAccount, stale_bytes_of, stale_category, with_stale,
  first_of, is_off,
}
use lazy_layers.HybridCache.Negative.{distrusts}

-- DEFAULT_STALE_TTL_MS
abbrev pub default_stale_ttl_ms : ℕ
default_stale_ttl_ms = 30 * 1000

unfoldable pub remove_stale : CacheKey → StaleAccount → StaleAccount
remove_stale k a = drop stale_category stale_bytes_of k a

-- A release of no bytes changes nothing, so that the test `staleBytes > 0` may be left out.
unfoldable pub clear_stale : StaleAccount → StaleAccount
clear_stale a = clear stale_category stale_bytes_of a

abbrev pub evict_first : Map CacheKey StaleEntry → StaleAccount → StaleAccount × Bool
evict_first [] a = (a, false)
evict_first ((k, e) ∷ m) a = (remove_stale k a, true)

unfoldable pub evict_one_stale : StaleAccount → StaleAccount × Bool
unfolding remove_stale
evict_one_stale (b, t) = evict_first t.entries (b, t)

unfoldable pub fail_safe_enabled : CacheOptions → Cache → Bool
fail_safe_enabled o c = not (is_off o.fail_safe.enabled) && not (is_off c.options.fail_safe.enabled)

unfoldable pub stale_bytes : CacheKey → Text → ℕ
stale_bytes k encoded = length encoded + utf8_length (to_text k) * 2 + 80

-- The steps of rememberStale once there is an encoding.
unfoldable pub add_stale : ℕ → CacheKey → Text → ℕ → ℕ → ℕ → StaleAccount → StaleAccount
unfolding remove_stale stale_bytes
add_stale now k encoded ttl max_entries max_bytes a =
    let a' = remove_stale k a in
    let bytes = stale_bytes k encoded in
    let entry : StaleEntry = record { encoded = encoded; bytes = bytes; expires_at = now + ttl } in
    let is_over : Table CacheKey StaleEntry → Bool =
      λ t. ltb max_entries (length t.entries) || ltb max_bytes t.bytes in
    if max_entries == 0 || max_bytes == 0
    then a'
    else if ltb max_bytes bytes
    then a'
    else evict_while stale_category stale_bytes_of is_over
        (admit_entry stale_category stale_bytes_of k entry a')

module _ {V : Type 0} (encode : V → Option Text) (decode : Text → Option V) where
  abbrev pub remember_encoded : ℕ → CacheKey → Option Text → ℕ → CacheOptions → Cache → Cache
  remember_encoded now k none ttl o c = c
  remember_encoded now k (some encoded) ttl o c =
      let max_entries = first_of o.fail_safe.max_entries c.options.fail_safe.max_entries 1000 in
      let max_bytes =
        first_of o.fail_safe.max_bytes c.options.fail_safe.max_bytes (16 * 1024 * 1024) in
      with_stale c (add_stale now k encoded ttl max_entries max_bytes (c.core.budget, c.stale))

  -- reusable ?? serializeWithStats(value).buffer
  abbrev pub encoding : V → Option Text → Option Text
  encoding value none = encode value
  encoding value (some reusable) = some reusable

  unfoldable pub remember_stale : ℕ → CacheKey → V → CacheOptions → Option Text → Cache → Cache
  unfolding versioned_cache_safe fail_safe_enabled add_stale
  remember_stale now k value o reusable c =
      let ttl =
        first_of o.fail_safe.stale_ttl_ms c.options.fail_safe.stale_ttl_ms default_stale_ttl_ms in
      if c.core.is_closed || not (versioned_cache_safe c.core) || not (fail_safe_enabled o c)
      then c
      else if ttl == 0
      then c
      else remember_encoded now k (encoding value reusable) ttl o c

  unfoldable pub get_stale_entry : ℕ → CacheKey → Option StaleEntry → Cache → Cache × Option V
  unfolding remove_stale
  get_stale_entry now k none c = (c, none)
  get_stale_entry now k (some e) c =
      let expired = with_stale c (remove_stale k (c.core.budget, c.stale)) in
      if leb e.expires_at now then (expired, none) else (c, decode e.encoded)

  unfoldable pub get_stale : ℕ → CacheKey → Cache → Cache × Option V
  unfolding distrusts get_stale_entry
  get_stale now k c =
      let answer = get_stale_entry now k (find k c.stale.entries) c in
      if distrusts c then (c, none) else answer
