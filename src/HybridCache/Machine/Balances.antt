-- ===== src/HybridCache/Machine/Balances.antt =====
-- The whole of HybridCache (src/cache/hybridCache.ts) and the memory budget: no history loses or
-- invents bytes.
use lazy_layers.Prelude.{
  ℕ, ◌*◌, ◌≡◌, refl, subst, Bool, true, false, Option, none, some, List, [], ◌∷◌, ◌||◌, not, arith,
  Text, if_lem, if_cases, ltb, take_at,
}
use lazy_layers.Prelude.Maps.{IsUnique}
use lazy_layers.MemoryBudget.{Budget, lookup}
use lazy_layers.MemoryBudget.Bounds
use lazy_layers.HybridCache.{key_Eq, text_Eq, metadata}
use lazy_layers.HybridCache.Revisions.{Guard, forget_all}
use lazy_layers.HybridCache.Core.{BusStatus, is_current, close_core}
use lazy_layers.HybridCache.Tables.{clear}
use lazy_layers.HybridCache.Tables.Keepers.{Holds}
use lazy_layers.HybridCache.State.{Cache, CacheOptions, stale_category, with_negative}
use lazy_layers.HybridCache.Negative.{clear_negative, remove_negative, set_negative}
use lazy_layers.HybridCache.Stale.{clear_stale, remember_stale}
use lazy_layers.HybridCache.Inflight.{clear_inflight}
use lazy_layers.HybridCache.Trust.{Effect, note_bus_status, is_interrupted, close_cache}
use lazy_layers.HybridCache.Generations.{is_stale_generation}
use lazy_layers.HybridCache.Mutations.{
  finish_write, finish_l1_hit, finish_l2_hit, finish_empty_load,
}
use lazy_layers.HybridCache.Remote.{Notation, finish_remote_absent, finish_remote_set}
use lazy_layers.HybridCache.Ledger.{Accounts, metadata_total}
use lazy_layers.HybridCache.Ledger.Entries.{
  remove_negative-Keeps, remove_stale-Keeps, remove_inflight-Keeps, remember_stale-Keeps,
  set_negative-Keeps, get_stale-Keeps, has_negative-Keeps, evict_one_stale-Keeps, forget-Keeps,
}
use lazy_layers.HybridCache.Ledger.Revised.{begin_operation-Keeps, end_operation-Keeps}
use lazy_layers.HybridCache.Ledger.Whole.{flags-Keeps}
use lazy_layers.HybridCache.Ledger.Shared.{
  finish-Keeps, start-Keeps, join-Keeps, leave-Keeps, close-Keeps,
}
use lazy_layers.HybridCache.Ledger.Operations.{
  begin_delete-Keeps, begin_delete_pattern-Keeps, mark_untrusted-Keeps, begin_restore-Keeps,
  finish_restore-Keeps,
}
use lazy_layers.HybridCache.Guards.Obsolete.{open_core, reached-Inv}
use lazy_layers.HybridCache.Remote.{forget_event}
use lazy_layers.HybridCache.Guards.{pass_all, Taken, take_at-Taken}
use lazy_layers.HybridCache.Machine.{
  Last, Segment, World, finish_last, finish_found, perform_segment, perform_all, ends, writes,
  hits_l1, hits_l2, finds_nothing, learns_absence, learns_value, begins, begins_delete,
  begins_remote_set, finishes, deletes_matching, asks_negative, asks_stale, evicts_stale, receives,
  forgets, begins_remote_delete, starts_load, ends_load, joins, leaves, distrusts, begins_restore,
  finishes_restore, notes_status, closes,
}
use lazy_layers.HybridCache.Machine.Peers.{
  Balanced, Answers, receive-Answers, begin_remote_delete-Balanced, begin_remote_set-Balanced,
}

module _ (m0 s0 : ℕ) {V : Type 0} (encode : V → Option Text) (decode : Text → Option V) where
  finish_last-Accounts :
      (f : Last V) (n : Notation) (g : Guard) (c : Cache) (gs : List Guard)
      → Accounts m0 s0 c gs
      → Accounts m0 s0 (finish_last encode decode n f g c) gs
  unfolding finish_last finish_write finish_l1_hit finish_l2_hit finish_empty_load
      finish_remote_absent finish_remote_set
  finish_last-Accounts ends n g c gs v = v
  finish_last-Accounts (writes now value o reusable own_l1 aborted) n g c gs v =
      let c' = remember_stale encode decode now g.key value o reusable c in
      let v' = remember_stale-Keeps m0 s0 c gs v encode decode now g.key value o reusable in
      if_lem (λ (r : Cache × List Effect × Bool). Accounts m0 s0 r.0 gs)
        (not (is_current aborted g c.core)) v (remove_negative-Keeps m0 s0 c' gs v' g.key)
  finish_last-Accounts (hits_l1 now value reusable aborted) n g c gs v =
      if_lem (λ (c' : Cache). Accounts m0 s0 c' gs)
        (not (is_current aborted g c.core) || not c.core.trusted) v
        (remember_stale-Keeps m0 s0 c gs v encode decode now g.key value c.options reusable)
  finish_last-Accounts (hits_l2 now value reusable own_l1 aborted) n g c gs v =
      if_lem (Answers m0 s0 gs) (not c.core.trusted || not (is_current aborted g c.core)) v
        (remember_stale-Keeps m0 s0 c gs v encode decode now g.key value c.options reusable)
  finish_last-Accounts (finds_nothing now o allowed aborted) n g c gs v =
      let c' = set_negative now g.key o c in
      let v' = set_negative-Keeps m0 s0 c gs v now g.key o in
      if_lem (Answers m0 s0 gs) (not allowed) v (
        if_lem (Answers m0 s0 gs) (not (is_current aborted g c.core)) v
          (get_stale-Keeps m0 s0 c' gs v' encode decode now g.key))
  finish_last-Accounts learns_absence n g c gs v =
      let c' = with_negative c (remove_negative g.key (c.core.budget, c.negative)) in
      let v' = remove_negative-Keeps m0 s0 c gs v g.key in remove_stale-Keeps m0 s0 c' gs v' g.key
  finish_last-Accounts (learns_value now raw generation value o reusable own_l1) n g c gs v =
      let c1 = remember_stale encode decode now g.key value o reusable c in
      let v1 = remember_stale-Keeps m0 s0 c gs v encode decode now g.key value o reusable in
      let c2 = with_negative c1 (remove_negative g.key (c1.core.budget, c1.negative)) in
      let v2 = remove_negative-Keeps m0 s0 c1 gs v1 g.key in
      if_lem (Answers m0 s0 gs)
        (not (is_current false g c.core)
          || not c.core.trusted
          || is_stale_generation raw generation c)
        v (remove_inflight-Keeps m0 s0 c2 gs v2 g.key)

  finish_found-Balanced :
      (f : Last V) (n : Notation) (c : Cache) (gs : List Guard) (o : Option (Guard × List Guard))
      → Accounts m0 s0 c gs
      → ((c' : Cache) → Accounts m0 s0 c' gs → Taken c'.core gs o)
      → Balanced m0 s0 (finish_found encode decode n f c gs o)
  unfolding finish_found
  finish_found-Balanced f n c gs none v h = v
  finish_found-Balanced f n c gs (some (g, rest)) v h =
      let c' = finish_last encode decode n f g c in
      let v' = finish_last-Accounts f n g c gs v in
      let t = h c' v' in end_operation-Keeps m0 s0 c' gs v' g rest t.0 t.1 t.2

  note_status-Accounts :
      (s : BusStatus) (c : Cache) (gs : List Guard)
      → Accounts m0 s0 c gs
      → Answers m0 s0 gs (note_bus_status s c)
  unfolding note_bus_status
  note_status-Accounts s c gs v =
      let c' = record c { core = record c.core { bus_status = some s } } in
      let v' =
        flags-Keeps m0 s0 c gs v c.core.epoch c.core.invalidation_revision c.core.is_closed
          c.core.trusted c.core.saturated (some s) in
      if_lem (Answers m0 s0 gs) c.core.is_closed v (
        if_lem (λ (c'' : Cache). Accounts m0 s0 c'' gs) (is_interrupted (some s))
          (mark_untrusted-Keeps m0 s0 c' gs v') v')

  pub perform_segment-Balanced :
      (n : Notation) (s : Segment V) (w : World)
      → Balanced m0 s0 w
      → Balanced m0 s0 (perform_segment encode decode n s w)
  unfolding perform_segment forget_event
  perform_segment-Balanced n (begins k m) (c, gs) v = begin_operation-Keeps m0 s0 c gs v k m
  perform_segment-Balanced n (begins_delete k o) (c, gs) v = begin_delete-Keeps m0 s0 k o c gs v
  perform_segment-Balanced n (begins_remote_set k o) (c, gs) v =
      begin_remote_set-Balanced m0 s0 n k o c gs v
  perform_segment-Balanced n (begins_remote_delete k o) (c, gs) v =
      begin_remote_delete-Balanced m0 s0 n k o c gs v
  perform_segment-Balanced n (finishes i f) (c, gs) v =
      finish_found-Balanced f n c gs (take_at i gs) v
        (λ c' v'. take_at-Taken c'.core i gs v'.revisions.guards)
  perform_segment-Balanced n (deletes_matching p) (c, gs) v =
      begin_delete_pattern-Keeps m0 s0 p c gs v
  perform_segment-Balanced n (asks_negative now k) (c, gs) v = has_negative-Keeps m0 s0 c gs v now k
  perform_segment-Balanced n (asks_stale now k) (c, gs) v =
      get_stale-Keeps m0 s0 c gs v encode decode now k
  perform_segment-Balanced n evicts_stale (c, gs) v = evict_one_stale-Keeps m0 s0 c gs v
  perform_segment-Balanced n (receives now source namespace raw) (c, gs) v =
      receive-Answers m0 s0 now source namespace raw c gs v
  perform_segment-Balanced n (forgets id) (c, gs) v = forget-Keeps m0 s0 c gs v id
  perform_segment-Balanced n (starts_load now l2_locks k load o) (c, gs) v =
      start-Keeps m0 s0 c gs v now l2_locks k load o
  perform_segment-Balanced n (ends_load k load) (c, gs) v = finish-Keeps m0 s0 c gs v k load
  perform_segment-Balanced n (joins own_max o) (c, gs) v = join-Keeps m0 s0 c gs v own_max o
  perform_segment-Balanced n leaves (c, gs) v =
      if_cases (λ (c' : Cache). Accounts m0 s0 c' gs) (ltb 0 c.active_followers)
        (λ h. leave-Keeps m0 s0 c gs v (ground (arith, h))) (λ h. v)
  perform_segment-Balanced n distrusts (c, gs) v = mark_untrusted-Keeps m0 s0 c gs v
  perform_segment-Balanced n begins_restore (c, gs) v = begin_restore-Keeps m0 s0 c gs v
  perform_segment-Balanced n (finishes_restore revision) (c, gs) v =
      finish_restore-Keeps m0 s0 revision c gs v
  perform_segment-Balanced n (notes_status s) (c, gs) v = note_status-Accounts s c gs v
  perform_segment-Balanced n closes (c, gs) v = close-Keeps m0 s0 c gs v

  pub perform_all_from-Balanced :
      (n : Notation) (ss : List (Segment V)) (w : World)
      → Balanced m0 s0 w
      → Balanced m0 s0 (perform_all encode decode n ss w)
  unfolding perform_all
  perform_all_from-Balanced n [] w v = v
  perform_all_from-Balanced n (s ∷ ss) w v =
      perform_all_from-Balanced n ss (perform_segment encode decode n s w)
        (perform_segment-Balanced n s w v)

-- A cache that has just been constructed.
unfoldable pub open_cache : CacheOptions → Option ℕ → Option ℕ → Bool → Bool → Option Budget → Cache
unfolding open_core
open_cache o dedupe_max dedupe_ttl versioned trusted b = record {
  options = o;
  dedupe_max_entries = dedupe_max;
  dedupe_ttl_ms = dedupe_ttl;
  core = open_core versioned trusted b;
  negative = record { entries = []; bytes = 0 };
  stale = record { entries = []; bytes = 0 };
  seen = record { entries = []; bytes = 0 };
  inflight = record { entries = []; bytes = 0 };
  active_followers = 0;
  rejected_followers = 0;
  follower_bytes = 0;
}

-- The bytes of others in a category, when the cache is constructed.
abbrev pub others_in : Text → Option Budget → ℕ
others_in category none = 0
others_in category (some b) = lookup category b.categories

abbrev pub IsSound : Option Budget → Type 0
IsSound none = Unit
IsSound (some b) = Bounds.Inv b

open-Holds :
    (b : Option Budget)
    → IsSound b
    → Holds (others_in metadata b) (others_in stale_category b) 0 0 b
open-Holds none h = tt
open-Holds (some b) h = (h, omega arith, omega arith)

pub open_cache-Accounts :
    (o : CacheOptions) (dedupe_max dedupe_ttl : Option ℕ) (versioned trusted : Bool)
    (b : Option Budget)
    → IsSound b
    → Accounts
        (others_in metadata b)
        (others_in stale_category b)
        (open_cache o dedupe_max dedupe_ttl versioned trusted b)
        []
unfolding open_cache open_core IsUnique pass_all
open_cache-Accounts o dedupe_max dedupe_ttl versioned trusted b h = record {
  exacts = record {
    negative = record { unique = tt; exact = refl };
    stale = record { unique = tt; exact = refl };
    seen = record { unique = tt; exact = refl };
    inflight = record { unique = tt; exact = refl };
    generations_unique = tt;
    generations_exact = refl;
    followers_exact = refl;
  };
  revisions = reached-Inv versioned trusted b [];
  held = open-Holds b h;
}

-- After any history of a cache that was constructed with a budget, with operations interleaved in any
-- way, peers' events, lost and restored trust, shared loads and closing, if the budget is used by this
-- cache alone from then on: each counter of bytes is the sum over its table, no table holds a key
-- twice, and the budget's ledger is exact and holds for the cache just the bytes of its tables and
-- followers, in either category, beside those that it held for others before.
pub perform_all-Balanced :
    {V : Type 0} (encode : V → Option Text) (decode : Text → Option V) (n : Notation)
    (o : CacheOptions) (dedupe_max dedupe_ttl : Option ℕ) (versioned trusted : Bool)
    (b : Option Budget) (ss : List (Segment V))
    → IsSound b
    → Balanced (others_in metadata b) (others_in stale_category b) (
        perform_all encode decode n ss (open_cache o dedupe_max dedupe_ttl versioned trusted b, []))
perform_all-Balanced encode decode n o dedupe_max dedupe_ttl versioned trusted b ss h =
    perform_all_from-Balanced (others_in metadata b) (others_in stale_category b) encode decode n ss
      (open_cache o dedupe_max dedupe_ttl versioned trusted b, [])
      (open_cache-Accounts o dedupe_max dedupe_ttl versioned trusted b h)

-- What is left of a cache that has closed.
abbrev pub GivesBack : Option Budget → Cache → Type 0
GivesBack b c =
    (c.core.is_closed ≡ true)
    × (c.core.revisions.table ≡ [])
    × (c.negative.entries ≡ [])
    × (c.stale.entries ≡ [])
    × (c.seen.entries ≡ [])
    × (c.inflight.entries ≡ [])
    × Holds (others_in metadata b) (others_in stale_category b) (c.active_followers * 160) 0
        c.core.budget

-- Closing a cache after any such history empties its tables and gives the budget all its bytes back
-- but those of the followers that still wait, 160 for each: what is left in either category is what
-- others held when the cache was constructed.
pub close-GivesBack :
    {V : Type 0} (encode : V → Option Text) (decode : Text → Option V) (n : Notation)
    (o : CacheOptions) (dedupe_max dedupe_ttl : Option ℕ) (versioned trusted : Bool)
    (b : Option Budget) (ss : List (Segment V))
    → IsSound b
    → GivesBack b (
        close_cache
          (perform_all encode decode n ss
            (open_cache o dedupe_max dedupe_ttl versioned trusted b, [])).0)
unfolding close_cache close_core forget_all clear_negative clear_stale clear_inflight clear
close-GivesBack encode decode n o dedupe_max dedupe_ttl versioned trusted b ss h =
    let (c, gs) =
      perform_all encode decode n ss (open_cache o dedupe_max dedupe_ttl versioned trusted b, []) in
    let v = perform_all-Balanced encode decode n o dedupe_max dedupe_ttl versioned trusted b ss h in
    let w = close-Keeps (others_in metadata b) (others_in stale_category b) c gs v in
    let total : metadata_total (close_cache c) ≡ c.active_followers * 160 =
      omega (arith, w.exacts.followers_exact) in
    (
      refl,
      refl,
      refl,
      refl,
      refl,
      refl,
      subst
          (λ n.
            Holds (others_in metadata b) (others_in stale_category b) n 0
              (close_cache c).core.budget)
          total w.held,
    )
