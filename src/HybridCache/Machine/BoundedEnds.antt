-- ===== src/HybridCache/Machine/BoundedEnds.antt =====
-- The limits of the tables of HybridCache (src/cache/hybridCache.ts) under the last segments of its
-- operations.
use lazy_layers.Prelude.{
  ℕ, Bool, false, Option, none, some, List, ◌||◌, not, ◌==◌, Text, if_lem, leb,
}
use lazy_layers.Prelude.Maps.{find}
use lazy_layers.HybridCache.{key_Eq, text_Eq, CacheKey}
use lazy_layers.HybridCache.Revisions.{Guard}
use lazy_layers.HybridCache.Core.{is_current, versioned_cache_safe}
use lazy_layers.HybridCache.State.{Cache, CacheOptions, StaleEntry, with_negative, first_of}
use lazy_layers.HybridCache.Negative.{remove_negative, set_negative, clear_negative}
use lazy_layers.HybridCache.Negative
use lazy_layers.HybridCache.Stale.{
  remember_encoded, encoding, remember_stale, get_stale_entry, get_stale, fail_safe_enabled,
  default_stale_ttl_ms,
}
use lazy_layers.HybridCache.Trust.{Effect}
use lazy_layers.HybridCache.Generations.{is_stale_generation}
use lazy_layers.HybridCache.Mutations.{
  end_operation, finish_write, finish_l1_hit, finish_l2_hit, finish_empty_load,
}
use lazy_layers.HybridCache.Remote.{Notation, finish_remote_absent, finish_remote_set}
use lazy_layers.HybridCache.Ledger.{Exacts}
use lazy_layers.HybridCache.Machine.{
  Last, finish_last, finish_found, ends, writes, hits_l1, hits_l2, finds_nothing, learns_absence,
  learns_value,
}
use lazy_layers.HybridCache.Machine.Limits.{
  Limits, LimitsWith, remove_negative-Limits, remove_inflight-Limits, set_negative-Limits,
}

module _ (o : CacheOptions) (d : Option ℕ) where
  module _ {V : Type 0} (encode : V → Option Text) (decode : Text → Option V) where
    remember_encoded-Limits :
        (now : ℕ) (k : CacheKey) (e : Option Text) (ttl : ℕ) (p : CacheOptions) (c : Cache)
        → Limits o d c
        → Limits o d (remember_encoded encode decode now k e ttl p c)
    remember_encoded-Limits now k none ttl p c v = v
    remember_encoded-Limits now k (some e) ttl p c v = v

    remember_stale-Limits :
        (now : ℕ) (k : CacheKey) (value : V) (p : CacheOptions) (reusable : Option Text) (c : Cache)
        → Limits o d c
        → Limits o d (remember_stale encode decode now k value p reusable c)
    unfolding remember_stale
    remember_stale-Limits now k value p reusable c v =
        let ttl =
          first_of p.fail_safe.stale_ttl_ms c.options.fail_safe.stale_ttl_ms default_stale_ttl_ms in
        if_lem (Limits o d)
          (c.core.is_closed || not (versioned_cache_safe c.core) || not (fail_safe_enabled p c)) v
          (if_lem (Limits o d) (ttl == 0) v
            (remember_encoded-Limits now k (encoding encode decode value reusable) ttl p c v))

    get_stale_entry-Limits :
        (now : ℕ) (k : CacheKey) (e : Option StaleEntry) (c : Cache)
        → Limits o d c
        → LimitsWith o d (get_stale_entry encode decode now k e c)
    unfolding get_stale_entry
    get_stale_entry-Limits now k none c v = v
    get_stale_entry-Limits now k (some e) c v = if_lem (LimitsWith o d) (leb e.expires_at now) v v

    pub get_stale-Limits :
        (now : ℕ) (k : CacheKey) (c : Cache)
        → Limits o d c
        → LimitsWith o d (get_stale encode decode now k c)
    unfolding get_stale
    get_stale-Limits now k c v =
        if_lem (LimitsWith o d) (Negative.distrusts c) v
          (get_stale_entry-Limits now k (find k c.stale.entries) c v)

    finish_last-Limits :
        (f : Last V) (n : Notation) (g : Guard) (c : Cache)
        → Exacts c
        → Limits o d c
        → Limits o d (finish_last encode decode n f g c)
    unfolding finish_last finish_write finish_l1_hit finish_l2_hit finish_empty_load
        finish_remote_absent finish_remote_set
    finish_last-Limits ends n g c x v = v
    finish_last-Limits (writes now value p reusable own_l1 aborted) n g c x v =
        let c' = remember_stale encode decode now g.key value p reusable c in
        if_lem (λ (r : Cache × List Effect × Bool). Limits o d r.0)
          (not (is_current aborted g c.core)) v
          (remove_negative-Limits o d c' (remember_stale-Limits now g.key value p reusable c v)
            g.key)
    finish_last-Limits (hits_l1 now value reusable aborted) n g c x v =
        if_lem (Limits o d) (not (is_current aborted g c.core) || not c.core.trusted) v
          (remember_stale-Limits now g.key value c.options reusable c v)
    finish_last-Limits (hits_l2 now value reusable own_l1 aborted) n g c x v =
        if_lem (LimitsWith o d) (not c.core.trusted || not (is_current aborted g c.core)) v
          (remember_stale-Limits now g.key value c.options reusable c v)
    finish_last-Limits (finds_nothing now p allowed aborted) n g c x v =
        if_lem (LimitsWith o d) (not allowed) v (
          if_lem (LimitsWith o d) (not (is_current aborted g c.core)) v (
            get_stale-Limits now g.key (set_negative now g.key p c)
              (set_negative-Limits o d c v now g.key p x.negative)))
    finish_last-Limits learns_absence n g c x v = remove_negative-Limits o d c v g.key
    finish_last-Limits (learns_value now raw generation value p reusable own_l1) n g c x v =
        let c' = remember_stale encode decode now g.key value p reusable c in
        let c1 = with_negative c' (remove_negative g.key (c'.core.budget, c'.negative)) in
        let v1 =
          remove_negative-Limits o d c' (remember_stale-Limits now g.key value p reusable c v)
            g.key in
        if_lem (LimitsWith o d)
          (not (is_current false g c.core)
            || not c.core.trusted
            || is_stale_generation raw generation c)
          v (remove_inflight-Limits o d c1 v1 g.key)

    pub finish_found-Limits :
        (f : Last V) (n : Notation) (c : Cache) (gs : List Guard) (r : Option (Guard × List Guard))
        → Exacts c
        → Limits o d c
        → LimitsWith o d (finish_found encode decode n f c gs r)
    unfolding finish_found end_operation
    finish_found-Limits f n c gs none x v = v
    finish_found-Limits f n c gs (some (g, rest)) x v = finish_last-Limits f n g c x v
