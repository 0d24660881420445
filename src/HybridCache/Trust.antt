-- ===== src/HybridCache/Trust.antt =====
-- Trust in invalidations (src/cache/hybridCache.ts): while the event bus is not known to deliver, the
-- cache serves nothing that a missed invalidation could have made obsolete.
use lazy_layers.Prelude.{
  ℕ, suc, ◌==◌, Bool, true, false, Option, none, some, List, [], ◌∷◌, ◌||◌, not, if◌then◌else◌,
  Text,
}
use lazy_layers.HybridCache.{CacheKey}
use lazy_layers.HybridCache.Core.{
  BusStatus, connecting, ready, subscribed, disconnected, error, close_core,
}
use lazy_layers.HybridCache.State.{Cache, with_negative, with_stale, with_inflight}
use lazy_layers.HybridCache.Negative.{clear_negative}
use lazy_layers.HybridCache.Stale.{clear_stale}
use lazy_layers.HybridCache.Inflight.{clear_inflight}

-- What the cache asks of its first tier: `deleteByPattern('*')`, `delete(storageKey)` and
-- `deleteByPattern(pattern)`.
pub data Effect : Type 0 where
  flushes_l1 : Effect
  evicts_l1 : CacheKey → Effect
  evicts_l1_matching : Text → Effect

unfoldable pub clear_tables : Cache → Cache
unfolding clear_inflight clear_negative clear_stale
clear_tables c =
    let c1 = with_inflight c (clear_inflight (c.core.budget, c.inflight)) in
    let c2 = with_negative c1 (clear_negative (c1.core.budget, c1.negative)) in
    with_stale c2 (clear_stale (c2.core.budget, c2.stale))

unfoldable pub mark_invalidation_untrusted : Cache → Cache × List Effect
unfolding clear_tables
mark_invalidation_untrusted c = (
  clear_tables (record c {
    core = record c.core {
      invalidation_revision = suc c.core.invalidation_revision;
      trusted = false;
      epoch = suc c.core.epoch;
    };
  }),
  flushes_l1 ∷ [],
)

-- restoreInvalidationTrust until its first tier is flushed, with the revision that it has seen.
unfoldable pub begin_restore : Cache → Cache × ℕ × List Effect
unfolding clear_tables
begin_restore c = (
  clear_tables (record c { core = record c.core { epoch = suc c.core.epoch } }),
  c.core.invalidation_revision,
  flushes_l1 ∷ [],
)

abbrev pub is_interrupted : Option BusStatus → Bool
is_interrupted none = false
is_interrupted (some connecting) = true
is_interrupted (some ready) = false
is_interrupted (some subscribed) = false
is_interrupted (some disconnected) = true
is_interrupted (some error) = true

-- Its rest, once the first tier is flushed.
unfoldable pub finish_restore : ℕ → Cache → Cache
finish_restore revision c =
    if not (revision == c.core.invalidation_revision)
      || c.core.is_closed
      || is_interrupted c.core.bus_status
    then c
    else record c { core = record c.core { trusted = true } }

-- status === 'subscribed'
abbrev pub is_subscribed : BusStatus → Bool
is_subscribed subscribed = true
is_subscribed connecting = false
is_subscribed ready = false
is_subscribed disconnected = false
is_subscribed error = false

-- The listener of the bus; its answer says whether trust is to be restored.
unfoldable pub note_bus_status : BusStatus → Cache → Cache × Bool
unfolding mark_invalidation_untrusted
note_bus_status s c =
    let c' = record c { core = record c.core { bus_status = some s } } in
    let distrusted = (mark_invalidation_untrusted c').0 in
    if c.core.is_closed
    then (c, false)
    else (if is_interrupted (some s) then distrusted else c', is_subscribed s)

-- closeResources for the state of the cache: its gates, its listeners, its own first tier and the bus
-- are closed beside it.
unfoldable pub close_cache : Cache → Cache
unfolding clear_inflight clear_negative clear_stale close_core
close_cache c =
    let c1 = with_inflight c (clear_inflight (c.core.budget, c.inflight)) in
    let c2 = with_negative c1 (clear_negative (c1.core.budget, c1.negative)) in
    let c3 = record c2 {
      core = close_core c2.seen.bytes c2.core;
      seen = record { entries = []; bytes = 0 };
    } in
    with_stale c3 (clear_stale (c3.core.budget, c3.stale))
