-- ===== src/HybridCache/Machine.antt =====
-- HybridCache (src/cache/hybridCache.ts) as a machine: a history is the sequence of the segments that
-- its operations run between their awaits, interleaved as the event loop likes. An operation that is
-- under way holds a guard; its last segment names the guard by its place in the list. A segment that
-- only reads the cache is not in the history: that of a peer's set event whose key the second tier does
-- not hold, before the first tier deletes the key, is begin_remote_absent of HybridCache.Remote. A
-- deletion by a peer is a history of its own: begins_remote_delete for each key, begins_delete behind
-- an await of saturateGenerationTracking and for the key as a number (deletes_alias), and the last
-- segment `ends` of each deleteLocalOnly.
mod Peers
mod Light
mod Limits
mod LightEnds
mod Moves
mod Deletions
mod Changes
mod BoundedEnds
pub mod Bounded
pub mod Overtaken
pub mod Publication
pub mod Balances
mod Tests
use lazy_layers.Prelude.{
  ℕ, zero, suc, ◌+◌, Bool, true, false, Option, none, some, List, [], ◌∷◌, if◌then◌else◌, ltb, Text,
  take_at,
}
use lazy_layers.HybridCache.{CacheKey, to_text}
use lazy_layers.HybridCache.Revisions.{Guard}
use lazy_layers.HybridCache.Core.{BusStatus}
use lazy_layers.HybridCache.State.{Cache, CacheOptions, with_stale, with_inflight}
use lazy_layers.HybridCache.Negative.{has_negative}
use lazy_layers.HybridCache.Stale.{get_stale, evict_one_stale}
use lazy_layers.HybridCache.Inflight.{
  start_inflight, finish_inflight, join_inflight, leave_inflight,
}
use lazy_layers.HybridCache.Trust.{
  Effect, mark_invalidation_untrusted, begin_restore, finish_restore, note_bus_status, close_cache,
}
use lazy_layers.HybridCache.Mutations.{
  begin_operation, end_operation, begin_delete, begin_delete_pattern, finish_write, finish_l1_hit,
  finish_l2_hit, finish_empty_load,
}
use lazy_layers.HybridCache.Remote.{
  Raw, EventKey, Notation, receive, forget_event, begin_remote_delete, begin_remote_set,
  finish_remote_absent, finish_remote_set,
}

-- The last segment of an operation: `ends` is that of a miss, of has, or of a deletion; `learns_absence`
-- is that of a peer's value that the second tier does not hold, once the first tier has deleted the key.
pub data Last (V : Type 0) : Type 0 where
  ends : Last V
  writes : ℕ → V → CacheOptions → Option Text → Bool → Bool → Last V
  hits_l1 : ℕ → V → Option Text → Bool → Last V
  hits_l2 : ℕ → V → Option Text → Bool → Bool → Last V
  finds_nothing : ℕ → CacheOptions → Bool → Bool → Last V
  learns_absence : Last V
  learns_value : ℕ → Text → Option ℕ → V → CacheOptions → Option Text → Bool → Last V

pub data Segment (V : Type 0) : Type 0 where
  begins : CacheKey → Bool → Segment V
  begins_delete : CacheKey → Option ℕ → Segment V
  begins_remote_delete : EventKey → Option ℕ → Segment V
  begins_remote_set : EventKey → Option ℕ → Segment V
  finishes : ℕ → Last V → Segment V
  deletes_matching : Text → Segment V
  asks_negative : ℕ → CacheKey → Segment V
  asks_stale : ℕ → CacheKey → Segment V
  evicts_stale : Segment V
  receives : ℕ → Text → Option Text → Raw → Segment V
  forgets : Text → Segment V
  starts_load : ℕ → Bool → CacheKey → ℕ → CacheOptions → Segment V
  ends_load : CacheKey → ℕ → Segment V
  joins : ℕ → CacheOptions → Segment V
  leaves : Segment V
  distrusts : Segment V
  begins_restore : Segment V
  finishes_restore : ℕ → Segment V
  notes_status : BusStatus → Segment V
  closes : Segment V

-- A cache with the guards of the operations that are under way.
abbrev pub World : Type 0
World = Cache × List Guard

abbrev pub taking : List Guard → Cache × Guard → World
taking gs (c, g) = (c, g ∷ gs)

abbrev pub taking_with : List Guard → Cache × Guard × List Effect → World
taking_with gs (c, g, fx) = (c, g ∷ gs)

abbrev pub taking_some : List Guard → Cache × Option Guard × List Effect → World
taking_some gs (c, none, fx) = (c, gs)
taking_some gs (c, some g, fx) = (c, g ∷ gs)

module _ {V : Type 0} (encode : V → Option Text) (decode : Text → Option V) (n : Notation) where
  unfoldable pub finish_last : Last V → Guard → Cache → Cache
  unfolding finish_write finish_l1_hit finish_l2_hit finish_empty_load finish_remote_absent
      finish_remote_set
  finish_last ends g c = c
  finish_last (writes now value o reusable own_l1 aborted) g c =
      (finish_write encode decode now g.key value o reusable own_l1 aborted g c).0
  finish_last (hits_l1 now value reusable aborted) g c =
      finish_l1_hit encode decode now g.key value reusable aborted g c
  finish_last (hits_l2 now value reusable own_l1 aborted) g c =
      (finish_l2_hit encode decode now g.key value reusable own_l1 aborted g c).0
  finish_last (finds_nothing now o allowed aborted) g c =
      (finish_empty_load encode decode now g.key o allowed aborted g c).0
  finish_last learns_absence g c = finish_remote_absent g.key c
  finish_last (learns_value now raw generation value o reusable own_l1) g c =
      (finish_remote_set encode decode now g.key raw generation value o reusable own_l1 g c).0

  unfoldable pub finish_found : Last V → Cache → List Guard → Option (Guard × List Guard) → World
  unfolding end_operation finish_last
  finish_found f c gs none = (c, gs)
  finish_found f c gs (some (g, rest)) = (end_operation g (finish_last f g c), rest)

  -- A follower leaves only if one waits.
  unfoldable pub perform_segment : Segment V → World → World
  unfolding begin_operation begin_delete begin_remote_set finish_found begin_delete_pattern
      has_negative get_stale evict_one_stale receive forget_event begin_remote_delete start_inflight
      finish_inflight join_inflight leave_inflight mark_invalidation_untrusted begin_restore
      finish_restore note_bus_status close_cache
  perform_segment (begins k m) (c, gs) = taking gs (begin_operation k m c)
  perform_segment (begins_delete k o) (c, gs) = taking_with gs (begin_delete k o c)
  perform_segment (begins_remote_delete k o) (c, gs) = taking_some gs (begin_remote_delete n k o c)
  perform_segment (begins_remote_set k o) (c, gs) = taking_some gs (begin_remote_set n k o c)
  perform_segment (finishes i f) (c, gs) = finish_found f c gs (take_at i gs)
  perform_segment (deletes_matching p) (c, gs) = ((begin_delete_pattern p c).0, gs)
  perform_segment (asks_negative now k) (c, gs) = ((has_negative now k c).0, gs)
  perform_segment (asks_stale now k) (c, gs) = ((get_stale encode decode now k c).0, gs)
  perform_segment evicts_stale (c, gs) =
      (with_stale c (evict_one_stale (c.core.budget, c.stale)).0, gs)
  perform_segment (receives now source namespace raw) (c, gs) =
      ((receive now source namespace raw c).0, gs)
  perform_segment (forgets id) (c, gs) = (forget_event id c, gs)
  perform_segment (starts_load now l2_locks k load o) (c, gs) =
      ((start_inflight now l2_locks k load o c).0, gs)
  perform_segment (ends_load k load) (c, gs) =
      (with_inflight c (finish_inflight k load (c.core.budget, c.inflight)), gs)
  perform_segment (joins own_max o) (c, gs) = ((join_inflight own_max o c).0, gs)
  perform_segment leaves (c, gs) = (if ltb 0 c.active_followers then leave_inflight c else c, gs)
  perform_segment distrusts (c, gs) = ((mark_invalidation_untrusted c).0, gs)
  perform_segment begins_restore (c, gs) = ((begin_restore c).0, gs)
  perform_segment (finishes_restore revision) (c, gs) = (finish_restore revision c, gs)
  perform_segment (notes_status s) (c, gs) = ((note_bus_status s c).0, gs)
  perform_segment closes (c, gs) = (close_cache c, gs)

  unfoldable pub perform_all : List (Segment V) → World → World
  unfolding perform_segment
  perform_all [] w = w
  perform_all (s ∷ ss) w = perform_all ss (perform_segment s w)
