-- ===== src/HybridCache/Seen.antt =====
-- The invalidation events that HybridCache (src/cache/hybridCache.ts) has seen: hasSeenEvent,
-- markEventSeen and removeSeenEvent.
use lazy_layers.Prelude.{
  ℕ, ◌+◌, ◌-◌, ◌*◌, ◌==◌, Bool, true, false, Option, none, some, ◌||◌, leb, ltb, length, get_or,
  if◌then◌else◌, Text,
}
use lazy_layers.Prelude.Maps.{find}
use lazy_layers.HybridCache.{text_Eq, text_metadata_bytes, metadata, max_auxiliary_map_bytes}
use lazy_layers.HybridCache.Tables.{Table, drop, admit_entry, evict_while}
use lazy_layers.HybridCache.State.{Cache, SeenAccount, seen_bytes_of, with_seen}

unfoldable pub dedupe_max_entries : Cache → ℕ
dedupe_max_entries c = get_or c.dedupe_max_entries 10000

unfoldable pub dedupe_ttl_ms : Cache → ℕ
dedupe_ttl_ms c = get_or c.dedupe_ttl_ms (5 * 60000)

unfoldable pub remove_seen_event : Text → SeenAccount → SeenAccount
remove_seen_event id a = drop metadata seen_bytes_of id a

unfoldable pub has_seen_at : ℕ → Text → Option ℕ → Cache → Cache × Bool
unfolding remove_seen_event dedupe_ttl_ms
has_seen_at now id none c = (c, false)
has_seen_at now id (some seen_at) c =
    let forgotten = with_seen c (remove_seen_event id (c.core.budget, c.seen)) in
    if ltb (dedupe_ttl_ms c) (now - seen_at) then (forgotten, false) else (c, true)

unfoldable pub has_seen_event : ℕ → Text → Cache → Cache × Bool
unfolding has_seen_at
has_seen_event now id c = has_seen_at now id (find id c.seen.entries) c

-- Room is made by removing the oldest events; with room for none, or for none so long, nothing
-- happens.
unfoldable pub add_seen : ℕ → Text → ℕ → SeenAccount → SeenAccount
unfolding remove_seen_event
add_seen now id max_entries a =
    let bytes = text_metadata_bytes id in
    let is_full : Table Text ℕ → Bool =
      λ t. leb max_entries (length t.entries) || ltb max_auxiliary_map_bytes (t.bytes + bytes) in
    if ltb max_auxiliary_map_bytes bytes || max_entries == 0
    then a
    else admit_entry metadata seen_bytes_of id now
        (evict_while metadata seen_bytes_of is_full (remove_seen_event id a))

unfoldable pub mark_event_seen : ℕ → Text → Cache → Cache
unfolding add_seen dedupe_max_entries
mark_event_seen now id c =
    with_seen c (add_seen now id (dedupe_max_entries c) (c.core.budget, c.seen))
