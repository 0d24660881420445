-- ===== src/HybridCache/Generations.antt =====
-- Generations of keys (src/cache/hybridCache.ts): each deletion of a key moves its values to a new
-- storage key, if versioning is enabled.
use lazy_layers.Prelude.{
  ℕ, suc, ◌+◌, Bool, true, false, Option, none, some, List, [], ◌∷◌, ◌&&◌, ◌||◌, not, leb, ltb,
  length, max, if◌then◌else◌, Text, max_safe_integer,
}
use lazy_layers.Prelude.Maps.{find, set_key, is_some}
use lazy_layers.MemoryBudget.{Budget}
use lazy_layers.HybridCache.{
  text_Eq, text_metadata_bytes, metadata, max_auxiliary_map_bytes, reserve_in,
}
use lazy_layers.HybridCache.Core.{get_generation}
use lazy_layers.HybridCache.State.{Cache}
use lazy_layers.HybridCache.Trust.{Effect, flushes_l1, clear_tables}

-- MAX_GENERATION_ENTRIES
abbrev pub max_generation_entries : ℕ
max_generation_entries = 10000

-- Generation tracking is given up.
unfoldable pub saturate : Cache → Cache × List Effect
unfolding clear_tables
saturate c = if c.core.saturated then (c, []) else (
  clear_tables (record c { core = record c.core { saturated = true; epoch = suc c.core.epoch } }),
  flushes_l1 ∷ [],
)

abbrev pub stored : Text → ℕ → Cache → Cache
stored k generation c = record c {
  core = record c.core { generations = set_key k generation c.core.generations };
}

-- What becomes of a key that has no generation, with what the budget answers.
abbrev pub stored_new : Text → ℕ → Cache → Option Budget × Bool → Cache × List Effect
stored_new k generation c (b, true) = (
  stored k generation (record c {
    core = record c.core {
      budget = b;
      generation_bytes = c.core.generation_bytes + text_metadata_bytes k;
    };
  }),
  [],
)
stored_new k generation c (b, false) = saturate (record c { core = record c.core { budget = b } })

unfoldable pub store_generation : Text → ℕ → Cache → Cache × List Effect
unfolding saturate
store_generation k generation c =
    let bytes = text_metadata_bytes k in
    let new = stored_new k generation c (reserve_in metadata bytes c.core.budget) in
    if not (leb generation max_safe_integer)
    then saturate c
    else if is_some (find k c.core.generations)
    then (stored k generation c, [])
    else if leb max_generation_entries (length c.core.generations)
        || ltb max_auxiliary_map_bytes (c.core.generation_bytes + bytes)
    then saturate c
    else new

-- The generation of a peer's event may be absent.
unfoldable pub advance_after_delete : Text → Option ℕ → Cache → Cache × List Effect
unfolding store_generation get_generation
advance_after_delete k none c = store_generation k (get_generation k c.core + 1) c
advance_after_delete k (some generation) c =
    store_generation k (max (get_generation k c.core) generation) c

unfoldable pub advance_after_remote_set : Text → Option ℕ → Cache → Cache × List Effect
unfolding store_generation get_generation
advance_after_remote_set k none c = (c, [])
advance_after_remote_set k (some generation) c =
    store_generation k (max (get_generation k c.core) generation) c

unfoldable pub generation_for_event : Text → Cache → Option ℕ
unfolding get_generation
generation_for_event k c =
    if c.core.saturated && not (is_some (find k c.core.generations))
    then none
    else some (get_generation k c.core)

unfoldable pub is_stale_generation : Text → Option ℕ → Cache → Bool
unfolding get_generation
is_stale_generation k none c = false
is_stale_generation k (some generation) c = ltb generation (get_generation k c.core)
