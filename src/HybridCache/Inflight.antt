-- ===== src/HybridCache/Inflight.antt =====
-- Shared loads of HybridCache (src/cache/hybridCache.ts): the table of loads under way, and the
-- followers that wait for one.
use lazy_layers.Prelude.{
  ℕ, suc, ◌+◌, ◌-◌, ◌*◌, ◌==◌, Bool, true, false, Option, none, some, ◌&&◌, ◌||◌, not, leb, ltb,
  length, get_or, min, max, if◌then◌else◌,
}
use lazy_layers.Prelude.Maps.{find, set_key}
use lazy_layers.MemoryBudget.{Budget}
use lazy_layers.HybridCache.{
  CacheKey, key_Eq, key_metadata_bytes, metadata, max_auxiliary_map_bytes, reserve_in, release_in,
}
use lazy_layers.HybridCache.Tables.{drop, clear}
use lazy_layers.HybridCache.State.{
  Cache, CacheOptions, InflightEntry, InflightAccount, inflight_bytes_of, with_inflight, first_of,
  is_off,
}

-- FOLLOWER_METADATA_BYTES
abbrev pub follower_metadata_bytes : ℕ
follower_metadata_bytes = 160

unfoldable pub inflight_disabled : CacheOptions → Cache → Bool
inflight_disabled o c = is_off o.inflight.enabled || is_off c.options.inflight.enabled

unfoldable pub distributed_lock_enabled : CacheOptions → Cache → Bool
distributed_lock_enabled o c = not (is_off o.lock.enabled) && not (is_off c.options.lock.enabled)

-- DEFAULT_INFLIGHT_MAX_ENTRIES is 1024; the options of a call are not consulted.
unfoldable pub can_track_new_inflight : Cache → Bool
can_track_new_inflight c =
    let max_entries = get_or c.options.inflight.max_entries 1024 in
    ltb 0 max_entries && ltb (length c.inflight.entries) max_entries

abbrev pub reserved_for : ℕ → Cache → Option Budget × Bool → Cache × Option ℕ
reserved_for bytes c (b, true) = (
  record c {
    core = record c.core { budget = b };
    inflight = record c.inflight { bytes = c.inflight.bytes + bytes };
  },
  some bytes,
)
reserved_for bytes c (b, false) = (record c { core = record c.core { budget = b } }, none)

-- The bytes are counted before the entry is registered.
unfoldable pub reserve_inflight : CacheKey → Cache → Cache × Option ℕ
unfolding can_track_new_inflight
reserve_inflight k c =
    let bytes = key_metadata_bytes k in
    if not (can_track_new_inflight c)
    then (c, none)
    else if ltb max_auxiliary_map_bytes (c.inflight.bytes + bytes)
    then (c, none)
    else reserved_for bytes c (reserve_in metadata bytes c.core.budget)

-- `inflight.set(key, { promise, bytes, expiresAt, ... })` of getOrSet.
unfoldable pub register_inflight : CacheKey → ℕ → ℕ → Option ℕ → Cache → Cache
register_inflight k load bytes expires_at c =
    let entry : InflightEntry = record { load = load; bytes = bytes; expires_at = expires_at } in
    record c { inflight = record c.inflight { entries = set_key k entry c.inflight.entries } }

unfoldable pub remove_inflight : CacheKey → InflightAccount → InflightAccount
remove_inflight k a = drop metadata inflight_bytes_of k a

unfoldable pub clear_inflight : InflightAccount → InflightAccount
clear_inflight a = clear metadata inflight_bytes_of a

-- `entry.expiresAt !== undefined && entry.expiresAt <= Date.now()`
abbrev pub has_passed : Option ℕ → ℕ → Bool
has_passed none now = false
has_passed (some at) now = leb at now

abbrev pub prune_found : ℕ → CacheKey → Option InflightEntry → InflightAccount → InflightAccount
prune_found now k none a = a
prune_found now k (some e) a =
    let pruned = remove_inflight k a in if has_passed e.expires_at now then pruned else a

unfoldable pub prune_inflight_key : ℕ → CacheKey → InflightAccount → InflightAccount
unfolding remove_inflight
prune_inflight_key now k (b, t) = prune_found now k (find k t.entries) (b, t)

-- `this.inflight.get(key)?.promise === promise`
abbrev pub is_load : ℕ → Option InflightEntry → Bool
is_load load none = false
is_load load (some e) = e.load == load

-- The end of a shared load: an entry that has replaced it stays.
unfoldable pub finish_inflight : CacheKey → ℕ → InflightAccount → InflightAccount
unfolding remove_inflight
finish_inflight k load (b, t) =
    let removed = remove_inflight k (b, t) in
    if is_load load (find k t.entries) then removed else (b, t)

-- Whether a caller may wait, with what the budget answers. It is asked only if there are not too many
-- followers.
abbrev pub join_answered : ℕ → Cache → Option Budget × Bool → Cache × Bool
join_answered max_waiters c (b, admitted) =
    let refused = record c { rejected_followers = suc c.rejected_followers } in
    if leb max_waiters c.active_followers
    then (refused, false)
    else if not admitted
    then (record refused { core = record c.core { budget = b } }, false)
    else (
      record c {
        core = record c.core { budget = b };
        active_followers = suc c.active_followers;
        follower_bytes = c.follower_bytes + follower_metadata_bytes;
      },
      true,
    )

-- The caller that waits for a load of another caller: whether it may, and the end of its wait.
unfoldable pub join_inflight : ℕ → CacheOptions → Cache → Cache × Bool
join_inflight own_max o c =
    join_answered (min own_max (get_or o.inflight.max_waiters own_max)) c
      (reserve_in metadata follower_metadata_bytes c.core.budget)

-- A follower that leaves has joined, so that the subtractions never stop at 0.
unfoldable pub leave_inflight : Cache → Cache
leave_inflight c = record c {
  core = record c.core { budget = release_in metadata follower_metadata_bytes c.core.budget };
  active_followers = c.active_followers - 1;
  follower_bytes = c.follower_bytes - follower_metadata_bytes;
}

unfoldable pub lock_wait_timeout_ms : CacheOptions → Cache → ℕ
lock_wait_timeout_ms o c =
    let lock_ttl_ms = first_of o.lock.ttl_ms c.options.lock.ttl_ms 10000 in
    let hard_ms = first_of o.hard_ms c.options.hard_ms (10 * 1000) in
    let poll_ms = first_of o.lock.poll_ms c.options.lock.poll_ms 50 in
    first_of o.lock.wait_timeout_ms c.options.lock.wait_timeout_ms
      (max lock_ttl_ms hard_ms + poll_ms)

-- `l2_locks` is `supportsDistributedLock(this.l2)`.
unfoldable pub inflight_ttl_ms : Bool → CacheOptions → Cache → ℕ
unfolding lock_wait_timeout_ms distributed_lock_enabled
inflight_ttl_ms l2_locks o c =
    let hard_ms = first_of o.hard_ms c.options.hard_ms (10 * 1000) in
    let wait_ms =
      if distributed_lock_enabled o c && l2_locks then lock_wait_timeout_ms o c else 0 in
    first_of o.inflight.ttl_ms c.options.inflight.ttl_ms (max 5000 (wait_ms + hard_ms + 50))

-- What getOrSet does once the tiers have missed: it waits for a load that is under way, or leads one
-- of its own, which others can join unless there is no room to track it.
pub data Start : Type 0 where
  follows leads : ℕ → Start
  bypasses : Start

abbrev pub start_reserved : ℕ → CacheKey → ℕ → ℕ → Cache × Option ℕ → Cache × Start
start_reserved now k load ttl (c, none) = (c, bypasses)
start_reserved now k load ttl (c, some bytes) =
    (register_inflight k load bytes (some (now + ttl)) c, leads load)

abbrev pub start_found :
    ℕ → Bool → CacheKey → ℕ → CacheOptions → Cache → Option InflightEntry → Cache × Start
start_found now l2_locks k load o c none =
    start_reserved now k load (inflight_ttl_ms l2_locks o c) (reserve_inflight k c)
start_found now l2_locks k load o c (some e) = (c, follows e.load)

-- An entry that has expired is gone once its key is pruned.
unfoldable pub start_inflight : ℕ → Bool → CacheKey → ℕ → CacheOptions → Cache → Cache × Start
unfolding prune_inflight_key inflight_ttl_ms reserve_inflight register_inflight
start_inflight now l2_locks k load o c =
    let c' = with_inflight c (prune_inflight_key now k (c.core.budget, c.inflight)) in
    start_found now l2_locks k load o c' (find k c'.inflight.entries)
