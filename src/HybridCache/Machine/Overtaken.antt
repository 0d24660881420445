-- ===== src/HybridCache/Machine/Overtaken.antt =====
-- The segments of HybridCache (src/cache/hybridCache.ts) that overtake an operation, and what they do to
-- the guard that it holds.
use lazy_layers.Prelude.{
  ℕ, suc, ◌≡◌, refl, subst, Bool, true, false, Option, none, some, List, [], ◌∷◌, ◌||◌, ◌&&◌, not,
  ◌==◌, Text, if_lem, take_at, ltb,
}
use lazy_layers.HybridCache.{CacheKey, key_eq}
use lazy_layers.HybridCache.Revisions.{Guard}
use lazy_layers.HybridCache.Core.{BusStatus}
use lazy_layers.HybridCache.Guards.{releases, closes, step, release_found}
use lazy_layers.HybridCache.Guards.Obsolete.{supersedes}
use lazy_layers.HybridCache.State.{Cache}
use lazy_layers.HybridCache.Stale.{evict_one_stale}
use lazy_layers.HybridCache.Generations.{is_stale_generation}
use lazy_layers.HybridCache.Trust.{
  mark_invalidation_untrusted, begin_restore, finish_restore, note_bus_status, is_interrupted,
  clear_tables, close_cache,
}
use lazy_layers.HybridCache.Inflight.{
  start_inflight, finish_inflight, join_inflight, clear_inflight, leave_inflight,
}
use lazy_layers.HybridCache.Mutations.{end_operation, begin_delete_pattern}
use lazy_layers.HybridCache.Remote.{
  forget_event, Raw, object, encoded, event_key, Notation, InvalidationEvent, receive,
  receive_decoded, receive_event, is_foreign,
}
use lazy_layers.HybridCache.Machine.{World, taking_some}
use lazy_layers.HybridCache.Machine.Moves.{
  scene_of, then-Moves, Moves, MovesWith, still-Moves, Moves-trans, event-Moves, Light-Moves,
  lightly, unhit-Moves, cores-Moves, advanced-Moves, changed-Moves,
}
use lazy_layers.HybridCache.State.{with_stale, with_inflight, with_negative}
use lazy_layers.HybridCache.Core.{close_core}
use lazy_layers.HybridCache.Negative.{has_negative, clear_negative}
use lazy_layers.HybridCache.Stale.{get_stale}
use lazy_layers.HybridCache.Machine.{
  Last, Segment, finish_last, finish_found, perform_segment, perform_all, ends, writes, hits_l1,
  hits_l2, finds_nothing, learns_absence, learns_value, begins, begins_delete, begins_remote_set,
  finishes, deletes_matching, asks_negative, asks_stale, evicts_stale, receives, forgets,
  begins_remote_delete, starts_load, ends_load, joins, leaves, distrusts, begins_restore,
  finishes_restore, notes_status,
}
use lazy_layers.HybridCache.Machine
use lazy_layers.HybridCache.Machine.Light.{
  has_negative-Light, get_stale-Light, start_inflight-Light, join_inflight-Light,
}
use lazy_layers.HybridCache.Machine.Deletions.{
  begin-Moves, begin_delete-Moves, begin_remote_delete-Moves, begin_remote_set-Moves, deletes_key,
}
use lazy_layers.HybridCache.Machine.LightEnds.{finish_last-Light, receive_event-Light}

module _ {V : Type 0} (n : Notation) where
  -- The segments that overtake an operation on k at least: the start of another mutation of k, here
  -- or by a peer, a deletion by pattern, lost or restored trust, and the end of the cache.
  unfoldable pub overtakes : CacheKey → Segment V → Cache → Bool
  overtakes k (begins j m) c = m && key_eq j k
  overtakes k (begins_delete j o) c = key_eq j k
  overtakes k (begins_remote_delete e o) c = deletes_key n k e o c
  overtakes k (begins_remote_set e o) c =
      not (c.core.is_closed || is_stale_generation e.0 o c) && key_eq (event_key n e) k
  overtakes k (finishes i f) c = false
  overtakes k (deletes_matching p) c = true
  overtakes k (asks_negative now j) c = false
  overtakes k (asks_stale now j) c = false
  overtakes k evicts_stale c = false
  overtakes k (receives now source namespace raw) c = false
  overtakes k (forgets id) c = false
  overtakes k (starts_load now l2_locks j load o) c = false
  overtakes k (ends_load j load) c = false
  overtakes k (joins own_max o) c = false
  overtakes k leaves c = false
  overtakes k distrusts c = true
  overtakes k begins_restore c = true
  overtakes k (finishes_restore revision) c = false
  overtakes k (notes_status s) c = false
  overtakes k Machine.closes c = true

module _ {V : Type 0} (encode : V → Option Text) (decode : Text → Option V) (n : Notation) where
  -- Whether one of the segments overtakes an operation on k.
  unfoldable pub is_overtaken : CacheKey → List (Segment V) → World → Bool
  is_overtaken k [] w = false
  is_overtaken k (s ∷ ss) w =
      let rest = is_overtaken k ss (perform_segment encode decode n s w) in
      overtakes n k s w.0 || rest

module _ (a : Bool) (g : Guard) where
  mark_untrusted-Moves :
      (c : Cache) (gs : List Guard) → MovesWith a g true c gs (mark_invalidation_untrusted c)
  unfolding mark_invalidation_untrusted clear_tables
  mark_untrusted-Moves c gs =
      let k = record c.core { epoch = suc c.core.epoch } in
      let c1 : Cache = record c {
        core = record k { invalidation_revision = suc k.invalidation_revision; trusted = false };
      } in
      let c2 = (mark_invalidation_untrusted c).0 in
      then-Moves a g true (c.core, gs) (k, gs) (c2.core, gs) (advanced-Moves a g c.core gs)
        (cores-Moves a g k c1.core c2.core gs
          (changed-Moves a g k gs k.budget k.generations k.generation_bytes false
            (suc k.invalidation_revision) k.bus_status)
          (Light-Moves a g c1 c2 gs refl))

  begin_restore-Moves :
      (c : Cache) (gs : List Guard) → Moves a g true (c.core, gs) ((begin_restore c).0.core, gs)
  unfolding begin_restore clear_tables
  begin_restore-Moves c gs =
      let c1 : Cache = record c { core = record c.core { epoch = suc c.core.epoch } } in
      let c2 = (begin_restore c).0 in
      then-Moves a g true (c.core, gs) (c1.core, gs) (c2.core, gs) (advanced-Moves a g c.core gs)
        (Light-Moves a g c1 c2 gs refl)

  delete_pattern-Moves :
      (p : Text) (c : Cache) (gs : List Guard) → MovesWith a g true c gs (begin_delete_pattern p c)
  unfolding begin_delete_pattern
  delete_pattern-Moves p c gs =
      let c1 : Cache = record c { core = record c.core { epoch = suc c.core.epoch } } in
      let c2 = (begin_delete_pattern p c).0 in
      then-Moves a g true (c.core, gs) (c1.core, gs) (c2.core, gs) (advanced-Moves a g c.core gs)
        (Light-Moves a g c1 c2 gs refl)

  finish_restore-Moves :
      (n : ℕ) (c : Cache) (gs : List Guard)
      → Moves a g false (c.core, gs) ((finish_restore n c).core, gs)
  unfolding finish_restore
  finish_restore-Moves n c gs =
      let k = c.core in
      if_lem (λ (c' : Cache). Moves a g false (c.core, gs) (c'.core, gs))
        (not (n == k.invalidation_revision) || k.is_closed || is_interrupted k.bus_status)
        (still-Moves a g (c.core, gs))
        (changed-Moves a g k gs k.budget k.generations k.generation_bytes true
          k.invalidation_revision k.bus_status)

  note_status-Moves :
      (s : BusStatus) (c : Cache) (gs : List Guard) → MovesWith a g false c gs (note_bus_status s c)
  unfolding note_bus_status
  note_status-Moves s c gs =
      let k = c.core in
      let c1 : Cache = record c { core = record c.core { bus_status = some s } } in
      let noted =
        changed-Moves a g k gs k.budget k.generations k.generation_bytes k.trusted
          k.invalidation_revision (some s) in
      let c2 = (mark_invalidation_untrusted c1).0 in
      let distrusted =
        unhit-Moves a g true (c1.core, gs) (c2.core, gs) (mark_untrusted-Moves c1 gs) in
      if_lem (MovesWith a g false c gs) c.core.is_closed (still-Moves a g (c.core, gs)) (
        if_lem (λ (c' : Cache). Moves a g false (c.core, gs) (c'.core, gs))
          (is_interrupted (some s)) (cores-Moves a g c.core c1.core c2.core gs noted distrusted)
          noted)

  close-Moves :
      (c : Cache) (gs : List Guard) → Moves a g true (c.core, gs) ((close_cache c).core, gs)
  unfolding close_cache step supersedes
  close-Moves c gs =
      let c1 = with_inflight c (clear_inflight (c.core.budget, c.inflight)) in
      let c2 = with_negative c1 (clear_negative (c1.core.budget, c1.negative)) in
      let c3 : Cache = record c2 {
        core = close_core c2.seen.bytes c2.core;
        seen = record { entries = []; bytes = 0 };
      } in
      let c4 = close_cache c in
      let emptied =
        Moves-trans a g false true (c.core, gs) (c2.core, gs) (c3.core, gs)
          (Light-Moves a g c c2 gs refl) (event-Moves a g (closes c2.seen.bytes) c2.core gs) in
      then-Moves a g true (c.core, gs) (c3.core, gs) (c4.core, gs) emptied
        (Light-Moves a g c3 c4 gs refl)

  receive_decoded-Moves :
      (now : ℕ) (source : Text) (namespace : Option Text) (e : Option InvalidationEvent) (c : Cache)
      (gs : List Guard)
      → MovesWith a g false c gs (receive_decoded now source namespace e c)
  unfolding receive_decoded
  receive_decoded-Moves now source namespace none c gs =
      unhit-Moves a g true (c.core, gs) ((mark_invalidation_untrusted c).0.core, gs)
        (mark_untrusted-Moves c gs)
  receive_decoded-Moves now source namespace (some e) c gs =
      if_lem (MovesWith a g false c gs) (is_foreign namespace e.namespace)
        (still-Moves a g (c.core, gs))
        (lightly a g c gs (receive_event now source e c) (receive_event-Light now source e c))

  receive-Moves :
      (now : ℕ) (source : Text) (namespace : Option Text) (raw : Raw) (c : Cache) (gs : List Guard)
      → MovesWith a g false c gs (receive now source namespace raw c)
  unfolding receive
  receive-Moves now source namespace (object n e) c gs =
      if_lem (MovesWith a g false c gs) (c.core.is_closed || is_foreign namespace n)
        (still-Moves a g (c.core, gs)) (receive_decoded-Moves now source namespace e c gs)
  receive-Moves now source namespace (encoded e) c gs =
      if_lem (MovesWith a g false c gs) c.core.is_closed (still-Moves a g (c.core, gs))
        (receive_decoded-Moves now source namespace e c gs)

  module _ {V : Type 0} (encode : V → Option Text) (decode : Text → Option V) (n : Notation) where
    finish_found-Moves :
        (f : Last V) (i : ℕ) (c : Cache) (gs : List Guard) (o : Option (Guard × List Guard))
        → take_at i gs ≡ o
        → Moves a g false (c.core, gs) (scene_of (finish_found encode decode n f c gs o))
    unfolding finish_found
    finish_found-Moves f i c gs none e = still-Moves a g (c.core, gs)
    finish_found-Moves f i c gs (some (g', rest)) e =
        let c' = finish_last encode decode n f g' c in
        let released : Moves a g false (c'.core, gs) (release_found c'.core gs (some (g', rest))) =
          subst (λ o. Moves a g false (c'.core, gs) (release_found c'.core gs o)) e
            (unfold step supersedes in event-Moves a g (releases i) c'.core gs) in
        unfold end_operation release_found in
        then-Moves a g false (c.core, gs) (c'.core, gs) ((end_operation g' c').core, rest)
          (Light-Moves a g c c' gs (finish_last-Light encode decode f n g' c)) released

    perform_segment-Moves :
        (s : Segment V) (c : Cache) (gs : List Guard)
        → Moves a g
            (overtakes n g.key s c)
            (c.core, gs)
            (scene_of (perform_segment encode decode n s (c, gs)))
    unfolding perform_segment overtakes forget_event
    perform_segment-Moves (begins k m) c gs = begin-Moves a g k m c gs
    perform_segment-Moves (begins_delete k o) c gs = begin_delete-Moves a g k o c gs
    perform_segment-Moves (begins_remote_delete k o) c gs = begin_remote_delete-Moves a g n k o c gs
    perform_segment-Moves (begins_remote_set k o) c gs = begin_remote_set-Moves a g n k o c gs
    perform_segment-Moves (finishes i f) c gs = finish_found-Moves f i c gs (take_at i gs) refl
    perform_segment-Moves (deletes_matching p) c gs = delete_pattern-Moves p c gs
    perform_segment-Moves (asks_negative now k) c gs =
        lightly a g c gs (has_negative now k c) (has_negative-Light now k c)
    perform_segment-Moves (asks_stale now k) c gs =
        lightly a g c gs (get_stale encode decode now k c) (get_stale-Light encode decode now k c)
    perform_segment-Moves evicts_stale c gs =
        Light-Moves a g c (with_stale c (evict_one_stale (c.core.budget, c.stale)).0) gs refl
    perform_segment-Moves (receives now source namespace raw) c gs =
        receive-Moves now source namespace raw c gs
    perform_segment-Moves (forgets id) c gs = Light-Moves a g c (forget_event id c) gs refl
    perform_segment-Moves (starts_load now l2_locks k load o) c gs =
        lightly a g c gs (start_inflight now l2_locks k load o c)
          (start_inflight-Light now l2_locks k load o c)
    perform_segment-Moves (ends_load k load) c gs =
        Light-Moves a g c (with_inflight c (finish_inflight k load (c.core.budget, c.inflight))) gs
          refl
    perform_segment-Moves (joins own_max o) c gs =
        lightly a g c gs (join_inflight own_max o c) (join_inflight-Light own_max o c)
    perform_segment-Moves leaves c gs =
        if_lem (λ (c' : Cache). Moves a g false (c.core, gs) (c'.core, gs))
          (ltb 0 c.active_followers)
          (unfold leave_inflight in Light-Moves a g c (leave_inflight c) gs refl)
          (still-Moves a g (c.core, gs))
    perform_segment-Moves distrusts c gs = mark_untrusted-Moves c gs
    perform_segment-Moves begins_restore c gs = begin_restore-Moves c gs
    perform_segment-Moves (finishes_restore revision) c gs = finish_restore-Moves revision c gs
    perform_segment-Moves (notes_status s) c gs = note_status-Moves s c gs
    perform_segment-Moves Machine.closes c gs = close-Moves c gs

    pub perform_all-Moves :
        (ss : List (Segment V)) (c : Cache) (gs : List Guard)
        → Moves a g
            (is_overtaken encode decode n g.key ss (c, gs))
            (c.core, gs)
            (scene_of (perform_all encode decode n ss (c, gs)))
    unfolding perform_all is_overtaken
    perform_all-Moves [] c gs = still-Moves a g (c.core, gs)
    perform_all-Moves (s ∷ ss) c gs =
        let (c', gs') = perform_segment encode decode n s (c, gs) in
        Moves-trans a g (overtakes n g.key s c) (is_overtaken encode decode n g.key ss (c', gs'))
          (c.core, gs) (c'.core, gs') (scene_of (perform_all encode decode n ss (c', gs')))
          (perform_segment-Moves s c gs) (perform_all-Moves ss c' gs')
