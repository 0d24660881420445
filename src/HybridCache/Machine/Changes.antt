-- ===== src/HybridCache/Machine/Changes.antt =====
-- The limits of the tables of HybridCache (src/cache/hybridCache.ts) under its operations.
use lazy_layers.Prelude.{
  ℕ, suc, ◌≤◌, Bool, true, false, Option, none, some, List, ◌||◌, not, arith, Text, if_lem, leb,
  ltb, length, get_or, max, max_safe_integer, ◌+◌,
}
use lazy_layers.Prelude.Maps.{find, is_some}
use lazy_layers.MemoryBudget.{Budget}
use lazy_layers.HybridCache.{
  CacheKey, key_Eq, text_Eq, to_text, text_metadata_bytes, metadata, max_auxiliary_map_bytes,
  reserve_in,
}
use lazy_layers.HybridCache.Revisions.{Guard}
use lazy_layers.HybridCache.Core.{get_generation}
use lazy_layers.HybridCache.State.{
  Cache, CacheOptions, NegativeAccount, InflightAccount, negative_bytes_of, inflight_bytes_of,
  with_inflight,
}
use lazy_layers.HybridCache.Tables.{clear}
use lazy_layers.HybridCache.Tables.Bounds.{length-drop}
use lazy_layers.HybridCache.Tables.Limits.{bytes-drop}
use lazy_layers.HybridCache.Negative.{remove_negative}
use lazy_layers.HybridCache.Inflight.{remove_inflight}
use lazy_layers.HybridCache.Trust.{Effect, clear_tables}
use lazy_layers.HybridCache.Generations.{
  saturate, store_generation, stored_new, advance_after_delete, advance_after_remote_set,
  max_generation_entries, is_stale_generation,
}
use lazy_layers.HybridCache.Mutations.{
  begin_operation, remove_local, begin_delete, remove_matching, begin_delete_pattern,
}
use lazy_layers.HybridCache.Remote.{
  Notation, EventKey, event_key, begin_remote_delete, is_regression, begin_remote_set,
}
use lazy_layers.HybridCache.Ledger.Operations.{remove_matching_lem}
use lazy_layers.HybridCache.Machine.{taking_some}
use lazy_layers.HybridCache.Machine.Limits.{
  Limits, LimitsWith, remove_negative-Limits, remove_inflight-Limits,
}

module _ (o : CacheOptions) (d : Option ℕ) where
  pub remove_local-Limits :
      (k : CacheKey) (c : Cache) → Limits o d c → Limits o d (remove_local k c)
  unfolding remove_local
  remove_local-Limits k c v =
      let c1 = with_inflight c (remove_inflight k (c.core.budget, c.inflight)) in
      remove_negative-Limits o d c1 (remove_inflight-Limits o d c v k) k

  pub clear_tables-Limits : (c : Cache) → Limits o d c → Limits o d (clear_tables c)
  unfolding clear_tables clear
  clear_tables-Limits c (own, dedupe, nb, sb, se, ib, ie) =
      (own, dedupe, omega arith, sb, se, omega arith, omega arith)

  pub saturate-Limits : (c : Cache) → Limits o d c → LimitsWith o d (saturate c)
  unfolding saturate
  saturate-Limits c v = if_lem (LimitsWith o d) c.core.saturated v (
      clear_tables-Limits
        (record c { core = record c.core { saturated = true; epoch = suc c.core.epoch } }) v)

  stored_new-Limits :
      (k : Text) (n : ℕ) (c : Cache) (r : Option Budget × Bool)
      → Limits o d c
      → LimitsWith o d (stored_new k n c r)
  stored_new-Limits k n c (b, true) v = v
  stored_new-Limits k n c (b, false) v =
      saturate-Limits (record c { core = record c.core { budget = b } }) v

  store_generation-Limits :
      (k : Text) (n : ℕ) (c : Cache) → Limits o d c → LimitsWith o d (store_generation k n c)
  unfolding store_generation
  store_generation-Limits k n c v =
      let bytes = text_metadata_bytes k in
      let P : Cache × List Effect → Type 0 = LimitsWith o d in
      if_lem P (not (leb n max_safe_integer)) (saturate-Limits c v) (
        if_lem P (is_some (find k c.core.generations)) v (
          if_lem P
            (leb max_generation_entries (length c.core.generations)
              || ltb max_auxiliary_map_bytes (c.core.generation_bytes + bytes))
            (saturate-Limits c v)
            (stored_new-Limits k n c (reserve_in metadata bytes c.core.budget) v)))

  advance_after_delete-Limits :
      (k : Text) (g : Option ℕ) (c : Cache)
      → Limits o d c
      → LimitsWith o d (advance_after_delete k g c)
  unfolding advance_after_delete
  advance_after_delete-Limits k none c v =
      store_generation-Limits k (get_generation k c.core + 1) c v
  advance_after_delete-Limits k (some n) c v =
      store_generation-Limits k (max (get_generation k c.core) n) c v

  advance_after_remote_set-Limits :
      (k : Text) (g : Option ℕ) (c : Cache)
      → Limits o d c
      → LimitsWith o d (advance_after_remote_set k g c)
  unfolding advance_after_remote_set
  advance_after_remote_set-Limits k none c v = v
  advance_after_remote_set-Limits k (some n) c v =
      store_generation-Limits k (max (get_generation k c.core) n) c v

  pub begin_delete-Limits :
      (k : CacheKey) (g : Option ℕ) (c : Cache) → Limits o d c → Limits o d (begin_delete k g c).0
  unfolding begin_delete begin_operation
  begin_delete-Limits k g c v =
      let c' = (begin_operation k true c).0 in
      advance_after_delete-Limits (to_text k) g (remove_local k c') (remove_local-Limits k c' v)

  module _ (n : Notation) where
    pub begin_remote_delete-Limits :
        (k : EventKey) (g : Option ℕ) (c : Cache) (gs : List Guard)
        → Limits o d c
        → LimitsWith o d (taking_some gs (begin_remote_delete n k g c))
    unfolding begin_remote_delete
    begin_remote_delete-Limits k g c gs v =
        let P : Cache × Option Guard × List Effect → Type 0 =
          λ r. LimitsWith o d (taking_some gs r) in
        if_lem P c.core.is_closed v (
          if_lem P (is_regression n k g c) (saturate-Limits c v)
            (begin_delete-Limits (event_key n k) g c v))

    pub begin_remote_set-Limits :
        (k : EventKey) (g : Option ℕ) (c : Cache) (gs : List Guard)
        → Limits o d c
        → LimitsWith o d (taking_some gs (begin_remote_set n k g c))
    unfolding begin_remote_set begin_operation
    begin_remote_set-Limits (k, t) g c gs v =
        if_lem (λ (r : Cache × Option Guard × List Effect). LimitsWith o d (taking_some gs r))
          (c.core.is_closed || is_stale_generation k g c) v
          (advance_after_remote_set-Limits k g c v)

  pub begin_delete_pattern-Limits :
      (p : Text) (c : Cache) → Limits o d c → LimitsWith o d (begin_delete_pattern p c)
  unfolding begin_delete_pattern remove_negative remove_inflight
  begin_delete_pattern-Limits p c (own, dedupe, nb, sb, se, ib, ie) =
      let light : NegativeAccount → Type 0 = λ a. a.1.bytes ≤ max_auxiliary_map_bytes in
      let small : InflightAccount → Type 0 = λ a.
        (a.1.bytes ≤ max_auxiliary_map_bytes)
        × (length a.1.entries ≤ get_or o.inflight.max_entries 1024) in
      let c1 =
        with_inflight c
          (remove_matching remove_inflight p c.inflight.entries (c.core.budget, c.inflight)) in
      let kept =
        remove_matching_lem small remove_inflight p c.inflight.entries (c.core.budget, c.inflight)
          (λ k a h. (
            omega (arith, bytes-drop metadata inflight_bytes_of k a, h.0),
            omega (arith, length-drop metadata inflight_bytes_of k a, h.1),
          ))
          (ib, ie) in
      let lighter =
        remove_matching_lem light remove_negative p c1.negative.entries
          (c1.core.budget, c1.negative)
          (λ k a h. omega (arith, bytes-drop metadata negative_bytes_of k a, h)) nb in
      (own, dedupe, lighter, sb, se, kept.0, kept.1)
