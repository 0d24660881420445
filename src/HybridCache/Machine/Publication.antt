-- ===== src/HybridCache/Machine/Publication.antt =====
-- What an overtaken operation of HybridCache (src/cache/hybridCache.ts) leaves of the cache.
use lazy_layers.Prelude.{ℕ, Bool, true, false, Option, List, [], Text}
use lazy_layers.MemoryBudget.{Budget}
use lazy_layers.HybridCache.{CacheKey}
use lazy_layers.HybridCache.Revisions.{Guard}
use lazy_layers.HybridCache.State.{Cache, CacheOptions}
use lazy_layers.HybridCache.Mutations.{begin_operation}
use lazy_layers.HybridCache.Remote.{Notation}
use lazy_layers.HybridCache.Machine.{Last, Segment, World, perform_all, learns_absence}
use lazy_layers.HybridCache.Machine.Balances.{open_cache}

module _ {V : Type 0} (encode : V → Option Text) (decode : Text → Option V) (n : Notation) where
  -- The last segments that test the guard again: all but that of a peer's value which the second tier
  -- does not hold, whose test stands before the first tier deletes the key.
  abbrev pub is_tested : Last V → Bool
  is_tested learns_absence = false
  is_tested _ = true

  module _ (o : CacheOptions) (dedupe_max dedupe_ttl : Option ℕ) (versioned trusted : Bool)
      (b : Option Budget) where
    -- The cache that a history leaves, and the start of an operation on k then.
    abbrev pub reached : List (Segment V) → World
    reached ss =
        perform_all encode decode n ss (open_cache o dedupe_max dedupe_ttl versioned trusted b, [])

    abbrev pub started : CacheKey → Bool → List (Segment V) → Cache × Guard
    started k m before = begin_operation k m (reached before).0

    abbrev pub meanwhile : CacheKey → Bool → List (Segment V) → List (Segment V) → World
    meanwhile k m before ss =
        perform_all encode decode n ss ((started k m before).0, (reached before).1)
