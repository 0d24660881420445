-- ===== src/HybridCache/Machine/Tests.antt =====
-- Tests of the cache as a machine, and examples of its theorems: a write of "a" is under way when a
-- deletion of "a" begins, within a budget of which others hold 100 bytes.
use lazy_layers.Prelude.{
  ◌≡◌, refl, true, false, none, some, List, [], ◌∷◌, codes, text_eq, Text, Option, arith, length,
}
use lazy_layers.Prelude.Maps.{find, set_key, remove}
use lazy_layers.HybridCache.{utf8_length_after, key_eq, reserve_in, release_in}
use lazy_layers.HybridCache.Revisions.{observe, find_state, create_state, refer}
use lazy_layers.HybridCache.Revisions
use lazy_layers.HybridCache.Core.{
  observe_key, guard_of, is_current, release_key, versioned_cache_safe, to_storage_key,
  get_generation,
}
use lazy_layers.HybridCache.Guards.Obsolete.{open_core}
use lazy_layers.HybridCache.Tables.{drop, admit_entry, evict_while}
use lazy_layers.HybridCache.Negative.{
  remove_negative, set_negative, distrusts, negative_ttl_ms, negative_max_entries, add_negative,
}
use lazy_layers.HybridCache.Seen.{
  has_seen_event, has_seen_at, mark_event_seen, add_seen, dedupe_max_entries, remove_seen_event,
}
use lazy_layers.HybridCache.Stale.{remove_stale, get_stale, get_stale_entry}
use lazy_layers.HybridCache.Inflight.{
  remove_inflight, start_inflight, prune_inflight_key, reserve_inflight, can_track_new_inflight,
  register_inflight, join_inflight,
}
use lazy_layers.HybridCache.Generations.{advance_after_delete, store_generation}
use lazy_layers.HybridCache.Mutations.{
  begin_operation, end_operation, begin_delete, remove_local, finish_write, discard_obsolete_l1,
  finish_empty_load,
}
use lazy_layers.MemoryBudget.{Budget, fresh_budget}
use lazy_layers.HybridCache.{CacheKey, text_key, metadata}
use lazy_layers.HybridCache.State.{CacheOptions}
use lazy_layers.HybridCache.Remote.{
  Notation, object, pattern, receive, receive_decoded, receive_event,
}
use lazy_layers.HybridCache.Trust.{close_cache}
use lazy_layers.HybridCache.Machine.{
  Segment, receives, finds_nothing, begins, begins_delete, finishes, writes, ends, starts_load,
  joins, perform_all, perform_segment, finish_found, finish_last, World,
}
use lazy_layers.HybridCache.Machine.Limits.{LimitsWith}
use lazy_layers.HybridCache.Machine.Bounded.{perform_all-Limits}
use lazy_layers.HybridCache.Machine.Peers.{Balanced}
use lazy_layers.HybridCache.Machine.Balances.{
  open_cache, IsSound, others_in, perform_all-Balanced, close-GivesBack, GivesBack,
}

abbrev defaults : CacheOptions
defaults = record {
  negative_cache = record { enabled = none; ttl_ms = none; max_entries = none };
  fail_safe = record { enabled = none; stale_ttl_ms = none; max_entries = none; max_bytes = none };
  inflight = record { enabled = none; ttl_ms = none; max_entries = none; max_waiters = none };
  lock = record { enabled = none; ttl_ms = none; wait_timeout_ms = none; poll_ms = none };
  hard_ms = none;
}

abbrev plain : Text → Option Text
plain s = some s

abbrev plain_notation : Notation
plain_notation = record { notation = λ s. s; is_finite = λ s. false }

abbrev shared : Budget
shared = record (fresh_budget 10000 none) { used = 100; categories = (metadata, 100) ∷ [] }

shared-IsSound : IsSound (some shared)
shared-IsSound = record {
  exact = refl;
  used_bounded = omega arith;
  target_bounded = omega arith;
  floor_positive = omega arith;
  floor_bounded = omega arith;
}

abbrev a : CacheKey
a = text_key (codes "a")

abbrev race : List (Segment Text)
race =
    begins a true
    ∷ begins_delete a none
    ∷ finishes 1 (writes 5 (codes "old") defaults none true false)
    ∷ finishes 0 ends
    ∷ starts_load 6 false a 1 defaults
    ∷ joins 10 defaults
    ∷ []

abbrev opened : Option Budget → List (Segment Text) → World
opened b ss =
    perform_all plain plain plain_notation ss (open_cache defaults none none false true b, [])

perform_all-Balanced_example :
    Balanced
      (others_in metadata (some shared))
      (others_in (codes "stale") (some shared))
      (opened (some shared) race)
perform_all-Balanced_example =
    perform_all-Balanced plain plain plain_notation defaults none none false true (some shared) race
      shared-IsSound

close-GivesBack_example : GivesBack (some shared) (close_cache (opened (some shared) race).0)
close-GivesBack_example =
    close-GivesBack plain plain plain_notation defaults none none false true (some shared) race
      shared-IsSound

-- The write that the deletion superseded leaves no fallback value.
race_lem : (opened none race).0.stale.entries ≡ []
unfolding perform_all perform_segment open_cache open_core begin_operation begin_delete observe_key
    guard_of observe find_state create_state refer reserve_in release_in find set_key remove key_eq
    text_eq remove_local remove_inflight remove_negative remove_stale drop advance_after_delete
    store_generation get_generation finish_found finish_last finish_write is_current end_operation
    release_key Revisions.release_key versioned_cache_safe to_storage_key discard_obsolete_l1
    start_inflight prune_inflight_key reserve_inflight can_track_new_inflight register_inflight
    join_inflight utf8_length_after
race_lem = refl

abbrev deletion : List (Segment Text)
deletion = begins_delete a none ∷ []

-- A peer's deletion of a pattern, a read that finds nothing, and a load that is under way.
abbrev filling : List (Segment Text)
filling =
    receives 1 (codes "own") none (
      object none (
        some (record {
          id = some (codes "e1");
          namespace = none;
          source = codes "peer";
          ts = codes "1";
          kind = pattern (codes "a*");
        })))
    ∷ begins a false
    ∷ finishes 0 (finds_nothing 5 defaults true false)
    ∷ starts_load 6 false a 1 defaults
    ∷ []

filling_lem :
    let c = (opened none filling).0 in
    (length c.seen.entries ≡ 1) × (length c.negative.entries ≡ 1) × (length c.inflight.entries ≡ 1)
unfolding perform_all perform_segment open_cache open_core begin_operation observe_key guard_of
    observe find_state create_state refer reserve_in release_in find set_key remove key_eq text_eq
    remove_negative drop finish_found finish_last finish_empty_load is_current end_operation
    release_key Revisions.release_key versioned_cache_safe to_storage_key receive receive_decoded
    receive_event has_seen_event mark_event_seen add_seen dedupe_max_entries remove_seen_event
    admit_entry evict_while set_negative distrusts negative_ttl_ms negative_max_entries add_negative
    get_stale start_inflight prune_inflight_key reserve_inflight can_track_new_inflight
    register_inflight has_seen_at get_stale_entry utf8_length_after
filling_lem = (refl, refl, refl)

perform_all-Limits_example : LimitsWith defaults none (opened (some shared) filling)
perform_all-Limits_example =
    perform_all-Limits plain plain plain_notation defaults none none false true (some shared)
      filling shared-IsSound
