-- ===== src/HybridCache/Core.antt =====
-- The part of HybridCache (src/cache/hybridCache.ts) that decides who may publish: whether it is
-- closed, whether invalidations are trusted, the mutation epoch, the generations and the revisions of
-- keys.
use lazy_layers.Prelude.{
  ℕ, suc, ◌+◌, Bool, true, Option, [], get_or, ◌++◌, ◌&&◌, ◌||◌, not, ◌==◌, if◌then◌else◌, Text,
  codes,
}
use lazy_layers.Prelude.Decimal.{print}
use lazy_layers.Prelude.Maps.{Map, find}
use lazy_layers.MemoryBudget.{Budget}
use lazy_layers.HybridCache.{CacheKey, text_key, to_text, text_Eq, metadata, release_in}
use lazy_layers.HybridCache.Revisions.{Revisions, Guard, observe, forget_all}
use lazy_layers.HybridCache.Revisions

pub data BusStatus : Type 0 where
  connecting ready subscribed disconnected error : BusStatus

pub record Core : Type 0 where
  pub versioned : Bool
  pub budget : Option Budget
  pub is_closed : Bool
  pub trusted : Bool
  pub saturated : Bool
  pub epoch : ℕ
  pub invalidation_revision : ℕ
  pub bus_status : Option BusStatus
  pub generations : Map Text ℕ
  pub generation_bytes : ℕ
  pub revisions : Revisions

unfoldable pub get_generation : Text → Core → ℕ
get_generation k c = get_or (find k c.generations) 0

unfoldable pub to_storage_key : CacheKey → Core → CacheKey
unfolding get_generation
to_storage_key k c =
    if not c.versioned
    then k
    else text_key (to_text k ++ codes "::v" ++ print (get_generation (to_text k) c))

unfoldable pub versioned_cache_safe : Core → Bool
versioned_cache_safe c = not c.versioned || not c.saturated

unfoldable pub guard_of : CacheKey → Core → Option Budget × Revisions × ℕ → Core × Guard
unfolding to_storage_key
guard_of k c (b, r, i) = (
  record c { budget = b; revisions = r },
  record {
    key = k;
    place = i;
    revision = (r.states i).value;
    epoch = c.epoch;
    storage_key = to_storage_key k c;
  },
)

unfoldable pub observe_key : CacheKey → Bool → Core → Core × Guard
unfolding guard_of
observe_key k mutate c = guard_of k c (observe k mutate c.budget c.revisions)

unfoldable pub release_key : Guard → Core → Core
release_key g c =
    let (b, r) = Revisions.release_key g c.budget c.revisions in
    record c { budget = b; revisions = r }

-- `aborted` is `guard.signal?.aborted`.
unfoldable pub is_current : Bool → Guard → Core → Bool
unfolding versioned_cache_safe
is_current aborted g c =
    not c.is_closed
    && (c.revisions.states g.place).registered
    && versioned_cache_safe c
    && not aborted
    && g.epoch == c.epoch
    && g.revision == (c.revisions.states g.place).value

-- The part of closeResources that concerns this state; `seen_bytes` is `this.seenEventBytes`.
unfoldable pub close_core : ℕ → Core → Core
unfolding forget_all
close_core seen_bytes c =
    let b = release_in metadata c.generation_bytes c.budget in
    record c {
      is_closed = true;
      epoch = suc c.epoch;
      invalidation_revision = suc c.invalidation_revision;
      generations = [];
      generation_bytes = 0;
      budget = release_in metadata (seen_bytes + c.revisions.table_bytes) b;
      revisions = forget_all c.revisions;
    }
