-- ===== src/HybridCache/Mutations.antt =====
-- Operations of HybridCache (src/cache/hybridCache.ts) as the segments between their awaits: set, the
-- reads that promote, the load that finds nothing, delete and the deletion of a pattern. An operation
-- holds its guard from its first segment to its last. `own_l1` says that the first tier is a
-- MemoryStore, which commits before it yields.
use lazy_layers.Prelude.{
  ℕ, suc, ◌==◌, Bool, true, false, Option, none, List, [], ◌∷◌, ◌++◌, ◌&&◌, ◌||◌, not,
  if◌then◌else◌, Text,
}
use lazy_layers.Prelude.Maps.{Map}
use lazy_layers.Pattern.{matches_pattern}
use lazy_layers.HybridCache.{CacheKey, key_Eq, key_eq, to_text}
use lazy_layers.HybridCache.Revisions.{Guard}
use lazy_layers.HybridCache.Core.{observe_key, release_key, is_current, to_storage_key}
use lazy_layers.HybridCache.State.{Cache, CacheOptions, with_negative, with_stale, with_inflight}
use lazy_layers.HybridCache.Negative.{remove_negative, set_negative}
use lazy_layers.HybridCache.Stale.{remove_stale, remember_stale, get_stale, fail_safe_enabled}
use lazy_layers.HybridCache.Inflight.{remove_inflight}
use lazy_layers.HybridCache.Trust.{Effect, evicts_l1, evicts_l1_matching}
use lazy_layers.HybridCache.Generations.{advance_after_delete}

-- The first segment of get and set: the guard, for a mutation or not.
unfoldable pub begin_operation : CacheKey → Bool → Cache → Cache × Guard
begin_operation k mutate c =
    let (core, g) = observe_key k mutate c.core in (record c { core = core }, g)

-- `finally { this.releaseKey(guard) }`
unfoldable pub end_operation : Guard → Cache → Cache
end_operation g c = record c { core = release_key g c.core }

-- removeInflight, removeNegative and removeStale
unfoldable pub remove_local : CacheKey → Cache → Cache
unfolding remove_inflight remove_negative remove_stale
remove_local k c =
    let c1 = with_inflight c (remove_inflight k (c.core.budget, c.inflight)) in
    let c2 = with_negative c1 (remove_negative k (c1.core.budget, c1.negative)) in
    with_stale c2 (remove_stale k (c2.core.budget, c2.stale))

-- deleteLocal and deleteLocalOnly until the first tier has answered.
unfoldable pub begin_delete : CacheKey → Option ℕ → Cache → Cache × Guard × List Effect
unfolding begin_operation remove_local advance_after_delete
begin_delete k generation c =
    let (c', g) = begin_operation k true c in
    let (c'', fx) = advance_after_delete (to_text k) generation (remove_local k c') in
    (c'', g, fx ++ evicts_l1 g.storage_key ∷ [])

-- Whether deleteLocal still deletes from the second tier when the gate runs its call.
unfoldable pub may_delete_l2 : Guard → Cache → Bool
unfolding to_storage_key
may_delete_l2 g c =
    not c.core.is_closed
    && (g.revision == (c.core.revisions.states g.place).value
        || not (key_eq g.storage_key (to_storage_key g.key c.core)))

-- `for (const key of map.keys()) if (matchesPattern(String(key), pattern)) remove(key)`
unfoldable pub remove_matching : {V A : Type 0} → (CacheKey → A → A) → Text → Map CacheKey V → A → A
remove_matching drop pattern [] a = a
remove_matching drop pattern ((k, v) ∷ m) a =
    remove_matching drop pattern m (if matches_pattern (to_text k) pattern then drop k a else a)

-- deleteByPatternLocal until the first tier has answered.
unfoldable pub begin_delete_pattern : Text → Cache → Cache × List Effect
unfolding remove_matching remove_inflight remove_negative remove_stale
begin_delete_pattern pattern c =
    let c0 = record c { core = record c.core { epoch = suc c.core.epoch } } in
    let c1 =
      with_inflight c0 (
        remove_matching remove_inflight pattern c0.inflight.entries
          (c0.core.budget, c0.inflight)) in
    let c2 =
      with_negative c1 (
        remove_matching remove_negative pattern c1.negative.entries
          (c1.core.budget, c1.negative)) in
    let c3 =
      with_stale c2
        (remove_matching remove_stale pattern c2.stale.entries (c2.core.budget, c2.stale)) in
    (c3, evicts_l1_matching pattern ∷ [])

-- discardObsoleteL1
unfoldable pub discard_obsolete_l1 : Bool → Guard → List Effect
discard_obsolete_l1 own_l1 g = if own_l1 then [] else evicts_l1 g.storage_key ∷ []

module _ {V : Type 0} (encode : V → Option Text) (decode : Text → Option V) where
  -- The last segment of writeValue, when both tiers have answered; the answer says whether the value
  -- was published. After the first tier alone, the same test decides whether the second is written.
  unfoldable pub finish_write :
      ℕ
      → CacheKey
      → V
      → CacheOptions
      → Option Text
      → Bool
      → Bool
      → Guard
      → Cache
      → Cache × List Effect × Bool
  unfolding is_current remember_stale remove_negative discard_obsolete_l1
  finish_write now k value o reusable own_l1 aborted g c =
      let c' = remember_stale encode decode now k value o reusable c in
      let published = with_negative c' (remove_negative k (c'.core.budget, c'.negative)) in
      if not (is_current aborted g c.core)
      then (c, discard_obsolete_l1 own_l1 g, false)
      else (published, [], true)

  -- readValue with a value of the first tier, which the caller gets in any case.
  unfoldable pub finish_l1_hit : ℕ → CacheKey → V → Option Text → Bool → Guard → Cache → Cache
  unfolding is_current remember_stale
  finish_l1_hit now k value reusable aborted g c =
      if not (is_current aborted g c.core) || not c.core.trusted
      then c
      else remember_stale encode decode now k value c.options reusable c

  -- readValue with a value of the second tier, once it has been promoted.
  unfoldable pub finish_l2_hit :
      ℕ → CacheKey → V → Option Text → Bool → Bool → Guard → Cache → Cache × List Effect
  unfolding is_current remember_stale discard_obsolete_l1
  finish_l2_hit now k value reusable own_l1 aborted g c =
      if not c.core.trusted || not (is_current aborted g c.core)
      then (c, discard_obsolete_l1 own_l1 g)
      else (remember_stale encode decode now k value c.options reusable c, [])

  -- loadAndStore with a loader that found nothing; `allowed` is `guard.publicationAllowed !== false`.
  unfoldable pub finish_empty_load :
      ℕ → CacheKey → CacheOptions → Bool → Bool → Guard → Cache → Cache × Option V
  unfolding is_current set_negative get_stale fail_safe_enabled
  finish_empty_load now k o allowed aborted g c =
      let (c', stale) = get_stale encode decode now k (set_negative now k o c) in
      if not allowed
      then (c, none)
      else if not (is_current aborted g c.core)
      then (c, none)
      else (c', if fail_safe_enabled o c then stale else none)
