-- ===== src/HybridCache/Machine/Bounded.antt =====
-- The limits of the tables of HybridCache (src/cache/hybridCache.ts) over any history.
use lazy_layers.Prelude.{
  ℕ, suc, refl, Bool, true, false, Option, none, some, List, [], ◌∷◌, ◌||◌, ◌-◌, not, ◌==◌, arith,
  Text, text_eq, if_lem, leb, ltb, get_or, take_at, min,
}
use lazy_layers.Prelude.Maps.{find}
use lazy_layers.MemoryBudget.{Budget}
use lazy_layers.HybridCache.{key_Eq, text_Eq, metadata, reserve_in}
use lazy_layers.HybridCache.Revisions.{Guard}
use lazy_layers.HybridCache.Core.{BusStatus}
use lazy_layers.HybridCache.Tables.{clear}
use lazy_layers.HybridCache.Tables.Accounts.{Exact}
use lazy_layers.HybridCache.Tables.Limits.{drop-Exact}
use lazy_layers.HybridCache.State.{Cache, CacheOptions, seen_bytes_of, stale_category}
use lazy_layers.HybridCache.Negative.{clear_negative}
use lazy_layers.HybridCache.Stale.{evict_one_stale}
use lazy_layers.HybridCache.Seen.{remove_seen_event, has_seen_at, has_seen_event, dedupe_ttl_ms}
use lazy_layers.HybridCache.Inflight.{join_inflight, join_answered, leave_inflight, clear_inflight}
use lazy_layers.HybridCache.Trust.{
  mark_invalidation_untrusted, begin_restore, finish_restore, note_bus_status, is_interrupted,
  close_cache,
}
use lazy_layers.HybridCache.Mutations.{begin_operation}
use lazy_layers.HybridCache.Remote.{
  Notation, InvalidationEvent, Raw, object, encoded, receive_event, receive_decoded, receive,
  legacy_event_id, is_foreign, forget_event,
}
use lazy_layers.HybridCache.Ledger.{Exacts}
use lazy_layers.HybridCache.Machine.{
  Segment, perform_segment, perform_all, begins, begins_delete, begins_remote_set, finishes,
  deletes_matching, asks_negative, asks_stale, evicts_stale, receives, forgets,
  begins_remote_delete, starts_load, ends_load, joins, leaves, distrusts, begins_restore,
  finishes_restore, notes_status, closes,
}
use lazy_layers.HybridCache.Machine.Limits.{
  Limits, LimitsWith, mark_event_seen-Limits, has_seen_event-Limits, has_negative-Limits,
  remove_seen_event-Limits, finish_inflight-Limits, start_inflight-Limits,
}
use lazy_layers.HybridCache.Machine.Changes.{
  clear_tables-Limits, begin_delete-Limits, begin_remote_delete-Limits, begin_remote_set-Limits,
  begin_delete_pattern-Limits,
}
use lazy_layers.HybridCache.Machine.BoundedEnds.{finish_found-Limits, get_stale-Limits}
use lazy_layers.HybridCache.Machine.Balances.{
  open_cache, IsSound, perform_segment-Balanced, open_cache-Accounts, others_in,
}
use lazy_layers.HybridCache.Machine.Peers.{Balanced}

module _ (o : CacheOptions) (d : Option ℕ) where
  abbrev ExactSeen {ℓ} : {A : Type ℓ} → Cache × A → Type 0
  ExactSeen (c, a) = Exact metadata seen_bytes_of c.seen

  has_seen_at-Exact :
      (now : ℕ) (id : Text) (at : Option ℕ) (c : Cache)
      → Exact metadata seen_bytes_of c.seen
      → ExactSeen (has_seen_at now id at c)
  unfolding has_seen_at remove_seen_event
  has_seen_at-Exact now id none c x = x
  has_seen_at-Exact now id (some at) c x =
      if_lem ExactSeen (ltb (dedupe_ttl_ms c) (now - at))
        (drop-Exact metadata seen_bytes_of id (c.core.budget, c.seen) x) x

  receive_event-Limits :
      (now : ℕ) (source : Text) (e : InvalidationEvent) (c : Cache)
      → Exacts c
      → Limits o d c
      → LimitsWith o d (receive_event now source e c)
  unfolding receive_event has_seen_event
  receive_event-Limits now source e c x v =
      let id = get_or e.id (legacy_event_id e) in
      let (c', is_seen) = has_seen_event now id c in
      let v' = has_seen_event-Limits o d c v now id in
      let marked =
        mark_event_seen-Limits o d c' v' now id
          (has_seen_at-Exact now id (find id c.seen.entries) c x.seen) in
      if_lem (LimitsWith o d) is_seen v'
        (if_lem (LimitsWith o d) (text_eq e.source source) marked marked)

  mark_untrusted-Limits :
      (c : Cache) → Limits o d c → LimitsWith o d (mark_invalidation_untrusted c)
  unfolding mark_invalidation_untrusted
  mark_untrusted-Limits c v =
      let c' : Cache = record c {
        core = record c.core {
          invalidation_revision = suc c.core.invalidation_revision;
          trusted = false;
          epoch = suc c.core.epoch;
        };
      } in
      clear_tables-Limits o d c' v

  receive_decoded-Limits :
      (now : ℕ) (source : Text) (namespace : Option Text) (e : Option InvalidationEvent) (c : Cache)
      → Exacts c
      → Limits o d c
      → LimitsWith o d (receive_decoded now source namespace e c)
  unfolding receive_decoded
  receive_decoded-Limits now source namespace none c x v = mark_untrusted-Limits c v
  receive_decoded-Limits now source namespace (some e) c x v =
      if_lem (LimitsWith o d) (is_foreign namespace e.namespace) v
        (receive_event-Limits now source e c x v)

  receive-Limits :
      (now : ℕ) (source : Text) (namespace : Option Text) (raw : Raw) (c : Cache)
      → Exacts c
      → Limits o d c
      → LimitsWith o d (receive now source namespace raw c)
  unfolding receive
  receive-Limits now source namespace (object n e) c x v =
      if_lem (LimitsWith o d) (c.core.is_closed || is_foreign namespace n) v
        (receive_decoded-Limits now source namespace e c x v)
  receive-Limits now source namespace (encoded e) c x v =
      if_lem (LimitsWith o d) c.core.is_closed v
        (receive_decoded-Limits now source namespace e c x v)

  join_answered-Limits :
      (n : ℕ) (c : Cache) (r : Option Budget × Bool)
      → Limits o d c
      → LimitsWith o d (join_answered n c r)
  join_answered-Limits n c (b, true) v = if_lem (LimitsWith o d) (leb n c.active_followers) v v
  join_answered-Limits n c (b, false) v = if_lem (LimitsWith o d) (leb n c.active_followers) v v

  close-Limits : (c : Cache) → Limits o d c → Limits o d (close_cache c)
  unfolding close_cache clear_negative clear_inflight clear
  close-Limits c (own, dedupe, nb, sb, se, ib, ie) =
      (own, dedupe, omega arith, omega arith, omega arith, omega arith, omega arith)

  note_status-Limits :
      (s : BusStatus) (c : Cache) → Limits o d c → LimitsWith o d (note_bus_status s c)
  unfolding note_bus_status
  note_status-Limits s c v =
      let c' : Cache = record c { core = record c.core { bus_status = some s } } in
      if_lem (LimitsWith o d) c.core.is_closed v
        (if_lem (Limits o d) (is_interrupted (some s)) (mark_untrusted-Limits c' v) v)

  module _ {V : Type 0} (encode : V → Option Text) (decode : Text → Option V) (n : Notation) where
    perform_segment-Limits :
        (s : Segment V) (c : Cache) (gs : List Guard)
        → Exacts c
        → Limits o d c
        → LimitsWith o d (perform_segment encode decode n s (c, gs))
    unfolding perform_segment begin_operation evict_one_stale forget_event join_inflight
        leave_inflight begin_restore finish_restore
    perform_segment-Limits (begins k m) c gs x v = v
    perform_segment-Limits (begins_delete k g) c gs x v = begin_delete-Limits o d k g c v
    perform_segment-Limits (begins_remote_set k g) c gs x v =
        begin_remote_set-Limits o d n k g c gs v
    perform_segment-Limits (finishes i f) c gs x v =
        finish_found-Limits o d encode decode f n c gs (take_at i gs) x v
    perform_segment-Limits (deletes_matching p) c gs x v = begin_delete_pattern-Limits o d p c v
    perform_segment-Limits (asks_negative now k) c gs x v = has_negative-Limits o d c v now k
    perform_segment-Limits (asks_stale now k) c gs x v =
        get_stale-Limits o d encode decode now k c v
    perform_segment-Limits evicts_stale c gs x v = v
    perform_segment-Limits (receives now source namespace raw) c gs x v =
        receive-Limits now source namespace raw c x v
    perform_segment-Limits (forgets id) c gs x v = remove_seen_event-Limits o d c v id
    perform_segment-Limits (begins_remote_delete k g) c gs x v =
        begin_remote_delete-Limits o d n k g c gs v
    perform_segment-Limits (starts_load now l2_locks k load p) c gs x v =
        start_inflight-Limits o d c now l2_locks k load p v
    perform_segment-Limits (ends_load k load) c gs x v = finish_inflight-Limits o d c v k load
    perform_segment-Limits (joins own_max p) c gs x v =
        join_answered-Limits (min own_max (get_or p.inflight.max_waiters own_max)) c
          (reserve_in metadata 160 c.core.budget) v
    perform_segment-Limits leaves c gs x v = if_lem (Limits o d) (ltb 0 c.active_followers) v v
    perform_segment-Limits distrusts c gs x v = mark_untrusted-Limits c v
    perform_segment-Limits begins_restore c gs x v =
        clear_tables-Limits o d (record c { core = record c.core { epoch = suc c.core.epoch } }) v
    perform_segment-Limits (finishes_restore revision) c gs x v =
        if_lem (Limits o d)
          (not (revision == c.core.invalidation_revision)
            || c.core.is_closed
            || is_interrupted c.core.bus_status)
          v v
    perform_segment-Limits (notes_status s) c gs x v = note_status-Limits s c v
    perform_segment-Limits closes c gs x v = close-Limits c v

    perform_all_from-Limits :
        (m0 s0 : ℕ) (ss : List (Segment V)) (c : Cache) (gs : List Guard)
        → Balanced m0 s0 (c, gs)
        → Limits o d c
        → LimitsWith o d (perform_all encode decode n ss (c, gs))
    unfolding perform_all
    perform_all_from-Limits m0 s0 [] c gs a v = v
    perform_all_from-Limits m0 s0 (s ∷ ss) c gs a v =
        let (c', gs') = perform_segment encode decode n s (c, gs) in
        perform_all_from-Limits m0 s0 ss c' gs'
          (perform_segment-Balanced m0 s0 encode decode n s (c, gs) a)
          (perform_segment-Limits s c gs a.exacts v)

-- After any history of a cache that was constructed with a budget, or with none, that it has to
-- itself from then on: the negative entries, the seen events and the shared loads take at most 2 MiB of
-- metadata each, and there are at most as many seen events and shared loads as its options allow,
-- 10000 and 1024 if they say nothing.
pub perform_all-Limits :
    {V : Type 0} (encode : V → Option Text) (decode : Text → Option V) (n : Notation)
    (o : CacheOptions) (dedupe_max dedupe_ttl : Option ℕ) (versioned trusted : Bool)
    (b : Option Budget) (ss : List (Segment V))
    → IsSound b
    → LimitsWith o dedupe_max (
        perform_all encode decode n ss (open_cache o dedupe_max dedupe_ttl versioned trusted b, []))
unfolding open_cache
perform_all-Limits encode decode n o dedupe_max dedupe_ttl versioned trusted b ss h =
    perform_all_from-Limits o dedupe_max encode decode n (others_in metadata b)
      (others_in stale_category b) ss (open_cache o dedupe_max dedupe_ttl versioned trusted b) []
      (open_cache-Accounts o dedupe_max dedupe_ttl versioned trusted b h)
      (refl, refl, omega arith, omega arith, omega arith, omega arith, omega arith)
