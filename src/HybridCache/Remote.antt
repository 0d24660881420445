-- ===== src/HybridCache/Remote.antt =====
-- Invalidations from peers (src/cache/hybridCache.ts): the subscription of the constructor,
-- applyRemoteDelete and applyRemoteSet. Decoding an event is the event codec's part, so that what
-- arrives is what `decodeInvalidationEvent` made of it. `String(Number(text))` and
-- `Number.isFinite(Number(text))` are a parameter.
use lazy_layers.Prelude.{
  ℕ, Bool, true, false, Option, none, some, List, [], ◌∷◌, ◌++◌, ◌&&◌, ◌||◌, not, if◌then◌else◌,
  Text, codes, text_eq, get_or,
}
use lazy_layers.HybridCache.{CacheKey, text_key, number_key, key_Eq, text_Eq}
use lazy_layers.HybridCache.Revisions.{Guard}
use lazy_layers.HybridCache.Core.{is_current, versioned_cache_safe}
use lazy_layers.HybridCache.State.{
  Cache, CacheOptions, with_negative, with_stale, with_inflight, with_seen,
}
use lazy_layers.HybridCache.Negative.{remove_negative}
use lazy_layers.HybridCache.Stale.{remove_stale, remember_stale}
use lazy_layers.HybridCache.Inflight.{remove_inflight}
use lazy_layers.HybridCache.Seen.{has_seen_event, mark_event_seen, remove_seen_event}
use lazy_layers.HybridCache.Trust.{Effect, evicts_l1, mark_invalidation_untrusted}
use lazy_layers.HybridCache.Generations.{saturate, advance_after_remote_set, is_stale_generation}
use lazy_layers.HybridCache.Mutations.{begin_operation, begin_delete, discard_obsolete_l1}

-- Key and `keyTypes?.[index]`, where true is 'number'.
abbrev pub EventKey : Type 0
EventKey = Text × Option Bool

pub data Kind : Type 0 where
  del : List EventKey → Bool → Option ℕ → Kind
  set : List EventKey → Option ℕ → Kind
  pattern : Text → Kind

-- `del keys typed generation` says with `typed` whether the event has `keyTypes`; `ts` is printed.
pub record InvalidationEvent : Type 0 where
  pub id : Option Text
  pub namespace : Option Text
  pub source : Text
  pub ts : Text
  pub kind : Kind

unfoldable pub join_keys : List EventKey → Text
join_keys [] = []
join_keys ((k, t) ∷ []) = k
join_keys ((k, t) ∷ l ∷ ks) = k ++ codes "," ++ join_keys (l ∷ ks)

abbrev type_and_suffix : Kind → Text
type_and_suffix (del keys typed g) = codes "del" ++ codes ":" ++ join_keys keys
type_and_suffix (set keys g) = codes "set" ++ codes ":" ++ join_keys keys
type_and_suffix (pattern p) = codes "pattern" ++ codes ":" ++ p

unfoldable pub legacy_event_id : InvalidationEvent → Text
unfolding join_keys
legacy_event_id e = e.source ++ codes ":" ++ e.ts ++ codes ":" ++ type_and_suffix e.kind

-- What the bus hands over: an object with its namespace or an encoding, and what decoding it gives.
pub data Raw : Type 0 where
  object : Option Text → Option InvalidationEvent → Raw
  encoded : Option InvalidationEvent → Raw

-- `options.eventNamespace !== undefined && namespace !== options.eventNamespace`
abbrev pub is_foreign : Option Text → Option Text → Bool
is_foreign none namespace = false
is_foreign (some own) none = true
is_foreign (some own) (some namespace) = not (text_eq namespace own)

pub data Verdict : Type 0 where
  ignored duplicate own : Verdict
  undecodable : List Effect → Verdict
  applies : Text → InvalidationEvent → Verdict

unfoldable pub receive_event : ℕ → Text → InvalidationEvent → Cache → Cache × Verdict
unfolding legacy_event_id has_seen_event mark_event_seen
receive_event now source e c =
    let id = get_or e.id (legacy_event_id e) in
    let (c', is_seen) = has_seen_event now id c in
    let marked = mark_event_seen now id c' in
    if is_seen
    then (c', duplicate)
    else if text_eq e.source source
    then (marked, own)
    else (marked, applies id e)

unfoldable pub receive_decoded :
    ℕ → Text → Option Text → Option InvalidationEvent → Cache → Cache × Verdict
unfolding receive_event mark_invalidation_untrusted
receive_decoded now source namespace none c =
    let (c', fx) = mark_invalidation_untrusted c in (c', undecodable fx)
receive_decoded now source namespace (some e) c =
    let received = receive_event now source e c in
    if is_foreign namespace e.namespace then (c, ignored) else received

-- The handler until it applies the event.
unfoldable pub receive : ℕ → Text → Option Text → Raw → Cache → Cache × Verdict
unfolding receive_decoded
receive now source namespace (object n decoded) c =
    let received = receive_decoded now source namespace decoded c in
    if c.core.is_closed || is_foreign namespace n then (c, ignored) else received
receive now source namespace (encoded decoded) c =
    let received = receive_decoded now source namespace decoded c in
    if c.core.is_closed then (c, ignored) else received

-- An event that could not be applied is forgotten, so that a redelivery is applied.
unfoldable pub forget_event : Text → Cache → Cache
unfolding remove_seen_event
forget_event id c = with_seen c (remove_seen_event id (c.core.budget, c.seen))

-- `notation` is `String(Number(text))`.
pub record Notation : Type 0 where
  pub notation : Text → Text
  pub is_finite : Text → Bool

module _ (n : Notation) where
  abbrev pub event_key : EventKey → CacheKey
  event_key (k, none) = text_key k
  event_key (k, some true) = number_key (n.notation k)
  event_key (k, some false) = text_key k

  -- A deletion by a peer that is older than the one known here.
  abbrev pub is_regression : EventKey → Option ℕ → Cache → Bool
  is_regression (k, t) generation c = is_stale_generation k generation c && c.core.versioned

  -- A round of applyRemoteDelete, until its first await: that of saturateGenerationTracking, behind
  -- which deleteLocalOnly of the same key begins, or already that of deleteLocalOnly.
  unfoldable pub begin_remote_delete :
      EventKey → Option ℕ → Cache → Cache × Option Guard × List Effect
  unfolding is_stale_generation saturate begin_delete
  begin_remote_delete e generation c =
      let (c1, fx) = saturate c in
      let (c2, g, fx') = begin_delete (event_key e) generation c in
      if c.core.is_closed
      then (c, none, [])
      else if is_regression e generation c
      then (c1, none, fx)
      else (c2, some g, fx')

  -- Whether a second deleteLocalOnly follows when the first has ended, of the key as a number.
  abbrev pub deletes_alias : EventKey → Bool → Bool
  deletes_alias (k, t) typed = not typed && text_eq (n.notation k) k && n.is_finite k

  -- The tests before the keys of a set event.
  unfoldable pub accepts_remote_set : Bool → Cache → Bool
  unfolding versioned_cache_safe
  accepts_remote_set has_l2 c =
      not (c.core.is_closed || not c.core.trusted || not (versioned_cache_safe c.core))
      && not (c.core.saturated && not has_l2)

  -- A key of a set event, until the second tier is asked for its current value.
  unfoldable pub begin_remote_set : EventKey → Option ℕ → Cache → Cache × Option Guard × List Effect
  unfolding is_stale_generation advance_after_remote_set begin_operation
  begin_remote_set (k, t) generation c =
      let (c', fx) = advance_after_remote_set k generation c in
      let (c'', g) = begin_operation (event_key (k, t)) true c' in
      if c.core.is_closed || is_stale_generation k generation c
      then (c, none, [])
      else (c'', some g, fx)

-- The second tier has no value: the test before the first tier deletes the key, which is awaited; the
-- flag says whether it does.
unfoldable pub begin_remote_absent : Guard → Cache → List Effect × Bool
unfolding is_current
begin_remote_absent g c =
    if not (is_current false g c.core) || not c.core.trusted
    then ([], false)
    else (evicts_l1 g.storage_key ∷ [], true)

-- When the first tier has answered the local values go, without another test.
unfoldable pub finish_remote_absent : CacheKey → Cache → Cache
unfolding remove_negative remove_stale
finish_remote_absent k c =
    let c' = with_negative c (remove_negative k (c.core.budget, c.negative)) in
    with_stale c' (remove_stale k (c'.core.budget, c'.stale))

module _ {V : Type 0} (encode : V → Option Text) (decode : Text → Option V) where
  -- A value that has been promoted.
  unfoldable pub finish_remote_set :
      ℕ
      → CacheKey
      → Text
      → Option ℕ
      → V
      → CacheOptions
      → Option Text
      → Bool
      → Guard
      → Cache
      → Cache × List Effect
  unfolding is_current is_stale_generation remember_stale remove_negative remove_inflight
      discard_obsolete_l1
  finish_remote_set now k raw generation value o reusable own_l1 g c =
      let c1 = remember_stale encode decode now k value o reusable c in
      let c2 = with_negative c1 (remove_negative k (c1.core.budget, c1.negative)) in
      let c3 = with_inflight c2 (remove_inflight k (c2.core.budget, c2.inflight)) in
      if not (is_current false g c.core)
        || not c.core.trusted
        || is_stale_generation raw generation c
      then (c, discard_obsolete_l1 own_l1 g)
      else (c3, [])
