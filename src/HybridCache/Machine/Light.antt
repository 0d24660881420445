-- ===== src/HybridCache/Machine/Light.antt =====
-- Methods of HybridCache (src/cache/hybridCache.ts) that change no more of its core than what the
-- budget holds: those of its tables.
use lazy_layers.Prelude.{
  ℕ, ◌≡◌, refl, ◌∙◌, ap, Bool, true, false, Option, none, some, ◌||◌, not, ◌==◌, Text, if_lem, leb,
  ltb, get_or, ◌-◌, min, ◌+◌,
}
use lazy_layers.Prelude.Maps.{find}
use lazy_layers.MemoryBudget.{Budget}
use lazy_layers.HybridCache.{
  CacheKey, key_Eq, text_Eq, key_metadata_bytes, metadata, max_auxiliary_map_bytes, reserve_in,
}
use lazy_layers.HybridCache.Core.{Core, versioned_cache_safe}
use lazy_layers.HybridCache.State.{
  Cache, CacheOptions, NegativeEntry, StaleEntry, InflightEntry, is_off, first_of, with_inflight,
}
use lazy_layers.HybridCache.Negative.{
  has_negative_entry, has_negative, set_negative, distrusts, negative_ttl_ms, negative_max_entries,
}
use lazy_layers.HybridCache.Stale.{
  remember_encoded, encoding, remember_stale, get_stale_entry, get_stale, fail_safe_enabled,
  default_stale_ttl_ms,
}
use lazy_layers.HybridCache.Seen.{has_seen_at, has_seen_event, mark_event_seen, dedupe_ttl_ms}
use lazy_layers.HybridCache.Inflight.{
  reserve_inflight, reserved_for, can_track_new_inflight, register_inflight, start_inflight,
  start_found, start_reserved, join_inflight, join_answered, prune_inflight_key, inflight_ttl_ms,
}

abbrev pub Light : Cache → Cache → Type 0
Light c c' = c'.core ≡ record c.core { budget = c'.core.budget }

pub Light-trans : (c c' c'' : Cache) → Light c c' → Light c' c'' → Light c c''
Light-trans c c' c'' h k = k ∙ ap (λ (x : Core). record x { budget = c''.core.budget }) h

abbrev pub LightWith {ℓ} : {A : Type ℓ} → Cache → Cache × A → Type 0
LightWith c (c', a) = Light c c'

has_negative_entry-Light :
    (now : ℕ) (k : CacheKey) (o : Option NegativeEntry) (c : Cache)
    → LightWith c (has_negative_entry now k o c)
unfolding has_negative_entry
has_negative_entry-Light now k none c = refl
has_negative_entry-Light now k (some e) c = if_lem (LightWith c) (leb e.expires_at now) refl refl

pub has_negative-Light : (now : ℕ) (k : CacheKey) (c : Cache) → LightWith c (has_negative now k c)
unfolding has_negative
has_negative-Light now k c =
    if_lem (LightWith c) (distrusts c) refl
      (has_negative_entry-Light now k (find k c.negative.entries) c)

pub set_negative-Light :
    (now : ℕ) (k : CacheKey) (o : CacheOptions) (c : Cache) → Light c (set_negative now k o c)
unfolding set_negative
set_negative-Light now k o c = if_lem (Light c) (distrusts c) refl (
    if_lem (Light c) (is_off o.negative_cache.enabled || is_off c.options.negative_cache.enabled)
      refl
      (if_lem (Light c) (negative_ttl_ms o c == 0) refl
        (if_lem (Light c) (negative_max_entries o c == 0) refl refl)))

module _ {V : Type 0} (encode : V → Option Text) (decode : Text → Option V) where
  remember_encoded-Light :
      (now : ℕ) (k : CacheKey) (e : Option Text) (ttl : ℕ) (o : CacheOptions) (c : Cache)
      → Light c (remember_encoded encode decode now k e ttl o c)
  remember_encoded-Light now k none ttl o c = refl
  remember_encoded-Light now k (some e) ttl o c = refl

  pub remember_stale-Light :
      (now : ℕ) (k : CacheKey) (value : V) (o : CacheOptions) (reusable : Option Text) (c : Cache)
      → Light c (remember_stale encode decode now k value o reusable c)
  unfolding remember_stale
  remember_stale-Light now k value o reusable c =
      let ttl =
        first_of o.fail_safe.stale_ttl_ms c.options.fail_safe.stale_ttl_ms default_stale_ttl_ms in
      if_lem (Light c)
        (c.core.is_closed || not (versioned_cache_safe c.core) || not (fail_safe_enabled o c)) refl
        (if_lem (Light c) (ttl == 0) refl
          (remember_encoded-Light now k (encoding encode decode value reusable) ttl o c))

  get_stale_entry-Light :
      (now : ℕ) (k : CacheKey) (o : Option StaleEntry) (c : Cache)
      → LightWith c (get_stale_entry encode decode now k o c)
  unfolding get_stale_entry
  get_stale_entry-Light now k none c = refl
  get_stale_entry-Light now k (some e) c = if_lem (LightWith c) (leb e.expires_at now) refl refl

  pub get_stale-Light :
      (now : ℕ) (k : CacheKey) (c : Cache) → LightWith c (get_stale encode decode now k c)
  unfolding get_stale
  get_stale-Light now k c =
      if_lem (LightWith c) (distrusts c) refl
        (get_stale_entry-Light now k (find k c.stale.entries) c)

has_seen_at-Light :
    (now : ℕ) (id : Text) (o : Option ℕ) (c : Cache) → LightWith c (has_seen_at now id o c)
unfolding has_seen_at
has_seen_at-Light now id none c = refl
has_seen_at-Light now id (some at) c =
    if_lem (LightWith c) (ltb (dedupe_ttl_ms c) (now - at)) refl refl

pub has_seen_event-Light : (now : ℕ) (id : Text) (c : Cache) → LightWith c (has_seen_event now id c)
unfolding has_seen_event
has_seen_event-Light now id c = has_seen_at-Light now id (find id c.seen.entries) c

pub mark_event_seen-Light : (now : ℕ) (id : Text) (c : Cache) → Light c (mark_event_seen now id c)
unfolding mark_event_seen
mark_event_seen-Light now id c = refl

reserved-Light :
    (now : ℕ) (k : CacheKey) (load ttl n : ℕ) (c : Cache) (r : Option Budget × Bool)
    → LightWith c (start_reserved now k load ttl (reserved_for n c r))
unfolding register_inflight
reserved-Light now k load ttl n c (b, true) = refl
reserved-Light now k load ttl n c (b, false) = refl

start_found-Light :
    (now : ℕ) (l2_locks : Bool) (k : CacheKey) (load : ℕ) (o : CacheOptions) (c : Cache)
    (e : Option InflightEntry)
    → LightWith c (start_found now l2_locks k load o c e)
unfolding reserve_inflight
start_found-Light now l2_locks k load o c none =
    let n = key_metadata_bytes k in
    let ttl = inflight_ttl_ms l2_locks o c in
    let P : Cache × Option ℕ → Type 0 = λ r. LightWith c (start_reserved now k load ttl r) in
    if_lem P (not (can_track_new_inflight c)) refl (
      if_lem P (ltb max_auxiliary_map_bytes (c.inflight.bytes + n)) refl
        (reserved-Light now k load ttl n c (reserve_in metadata n c.core.budget)))
start_found-Light now l2_locks k load o c (some e) = refl

pub start_inflight-Light :
    (now : ℕ) (l2_locks : Bool) (k : CacheKey) (load : ℕ) (o : CacheOptions) (c : Cache)
    → LightWith c (start_inflight now l2_locks k load o c)
unfolding start_inflight
start_inflight-Light now l2_locks k load o c =
    let c' = with_inflight c (prune_inflight_key now k (c.core.budget, c.inflight)) in
    let (c'', s) = start_found now l2_locks k load o c' (find k c'.inflight.entries) in
    Light-trans c c' c'' refl
      (start_found-Light now l2_locks k load o c' (find k c'.inflight.entries))

join_answered-Light :
    (n : ℕ) (c : Cache) (r : Option Budget × Bool) → LightWith c (join_answered n c r)
join_answered-Light n c (b, true) = if_lem (LightWith c) (leb n c.active_followers) refl refl
join_answered-Light n c (b, false) = if_lem (LightWith c) (leb n c.active_followers) refl refl

pub join_inflight-Light : (n : ℕ) (o : CacheOptions) (c : Cache) → LightWith c (join_inflight n o c)
unfolding join_inflight
join_inflight-Light n o c =
    join_answered-Light (min n (get_or o.inflight.max_waiters n)) c
      (reserve_in metadata 160 c.core.budget)
