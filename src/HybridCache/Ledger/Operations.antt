-- ===== src/HybridCache/Ledger/Operations.antt =====
-- The segments of the operations of HybridCache (src/cache/hybridCache.ts) keep its accounts.
use lazy_layers.Prelude.{
  ℕ, suc, refl, true, false, Option, List, [], ◌∷◌, ◌||◌, not, ◌==◌, Text, if◌then◌else◌, if_lem,
}
use lazy_layers.Prelude.Maps.{Map}
use lazy_layers.Pattern.{matches_pattern}
use lazy_layers.HybridCache.{CacheKey, key_Eq, to_text, metadata}
use lazy_layers.HybridCache.Revisions.{Guard}
use lazy_layers.HybridCache.Tables.Accounts.{Agrees, drop-Agrees}
use lazy_layers.HybridCache.State.{
  Cache, negative_bytes_of, stale_bytes_of, inflight_bytes_of, stale_category, with_negative,
  with_inflight,
}
use lazy_layers.HybridCache.Negative.{remove_negative}
use lazy_layers.HybridCache.Stale.{remove_stale}
use lazy_layers.HybridCache.Inflight.{remove_inflight}
use lazy_layers.HybridCache.Trust.{
  Effect, mark_invalidation_untrusted, begin_restore, finish_restore, is_interrupted,
}
use lazy_layers.HybridCache.Mutations.{
  begin_operation, end_operation, remove_local, begin_delete, remove_matching, begin_delete_pattern,
}
use lazy_layers.HybridCache.Ledger.{Accounts, negative-Accounts, stale-Accounts, inflight-Accounts}
use lazy_layers.HybridCache.Ledger.Entries.{
  remove_negative-Keeps, remove_stale-Keeps, remove_inflight-Keeps,
}
use lazy_layers.HybridCache.Ledger.Revised.{begin_operation-Keeps, end_operation-Keeps}
use lazy_layers.HybridCache.Ledger.Whole.{
  After, flags-Keeps, clear_tables-Keeps, advance_after_delete-Keeps,
}

pub remove_matching_lem :
    {A : Type 0} (P : A → Type 0) (drop : CacheKey → A → A) {V : Type 0} (pattern : Text)
    (m : Map CacheKey V) (a : A)
    → ((k : CacheKey) (a : A) → P a → P (drop k a))
    → P a
    → P (remove_matching drop pattern m a)
unfolding remove_matching
remove_matching_lem P drop pattern [] a h p = p
remove_matching_lem P drop pattern ((k, v) ∷ m) a h p =
    remove_matching_lem P drop pattern m
      (if matches_pattern (to_text k) pattern then drop k a else a) h
      (if_lem P (matches_pattern (to_text k) pattern) (h k a p) p)

module _ (m0 s0 : ℕ) where
  pub remove_local-Keeps :
      (k : CacheKey) (c : Cache) (gs : List Guard)
      → Accounts m0 s0 c gs
      → Accounts m0 s0 (remove_local k c) gs
  unfolding remove_local
  remove_local-Keeps k c gs v =
      let c1 = with_inflight c (remove_inflight k (c.core.budget, c.inflight)) in
      let v1 = remove_inflight-Keeps m0 s0 c gs v k in
      let c2 = with_negative c1 (remove_negative k (c1.core.budget, c1.negative)) in
      let v2 = remove_negative-Keeps m0 s0 c1 gs v1 k in remove_stale-Keeps m0 s0 c2 gs v2 k

  abbrev pub KeepsTakenWith : List Guard → Cache × Guard × List Effect → Type 0
  KeepsTakenWith gs (c, g, fx) = Accounts m0 s0 c (g ∷ gs)

  pub begin_delete-Keeps :
      (k : CacheKey) (o : Option ℕ) (c : Cache) (gs : List Guard)
      → Accounts m0 s0 c gs
      → KeepsTakenWith gs (begin_delete k o c)
  unfolding begin_delete
  begin_delete-Keeps k o c gs v =
      let (c', g) = begin_operation k true c in
      let v1 = begin_operation-Keeps m0 s0 c gs v k true in
      let v2 = remove_local-Keeps k c' (g ∷ gs) v1 in
      advance_after_delete-Keeps m0 s0 (remove_local k c') (g ∷ gs) v2 (to_text k) o

  -- The guard that was taken last is released.
  pub end_last-Keeps :
      (g : Guard) (c : Cache) (gs : List Guard)
      → Accounts m0 s0 c (g ∷ gs)
      → Accounts m0 s0 (end_operation g c) gs
  end_last-Keeps g c gs v =
      end_operation-Keeps m0 s0 c (g ∷ gs) v g gs v.revisions.guards.0 v.revisions.guards.1
        (λ i. refl)

  pub begin_delete_pattern-Keeps :
      (p : Text) (c : Cache) (gs : List Guard)
      → (v : Accounts m0 s0 c gs) → After m0 s0 c gs v (begin_delete_pattern p c)
  unfolding begin_delete_pattern remove_negative remove_stale remove_inflight
  begin_delete_pattern-Keeps p c gs v =
      let c0 = record c { core = record c.core { epoch = suc c.core.epoch } } in
      let v0 =
        flags-Keeps m0 s0 c gs v (suc c.core.epoch) c.core.invalidation_revision c.core.is_closed
          c.core.trusted c.core.saturated c.core.bus_status in
      let c1 =
        with_inflight c0
          (remove_matching remove_inflight p c0.inflight.entries (c0.core.budget, c0.inflight)) in
      let v1 =
        inflight-Accounts m0 s0 c0 gs v0
          (λ a. remove_matching remove_inflight p c0.inflight.entries a)
          (λ w a h.
            remove_matching_lem (Agrees metadata inflight_bytes_of w) remove_inflight p
              c0.inflight.entries a (λ k a h. drop-Agrees metadata inflight_bytes_of w k a h) h) in
      let c2 =
        with_negative c1
          (remove_matching remove_negative p c1.negative.entries (c1.core.budget, c1.negative)) in
      let v2 =
        negative-Accounts m0 s0 c1 gs v1
          (λ a. remove_matching remove_negative p c1.negative.entries a)
          (λ w a h.
            remove_matching_lem (Agrees metadata negative_bytes_of w) remove_negative p
              c1.negative.entries a (λ k a h. drop-Agrees metadata negative_bytes_of w k a h) h) in
      stale-Accounts m0 s0 c2 gs v2 (λ a. remove_matching remove_stale p c2.stale.entries a)
        (λ w a h.
          remove_matching_lem (Agrees stale_category stale_bytes_of w) remove_stale p
            c2.stale.entries a (λ k a h. drop-Agrees stale_category stale_bytes_of w k a h) h)

  pub mark_untrusted-Keeps :
      (c : Cache) (gs : List Guard) (v : Accounts m0 s0 c gs)
      → After m0 s0 c gs v (mark_invalidation_untrusted c)
  unfolding mark_invalidation_untrusted
  mark_untrusted-Keeps c gs v = clear_tables-Keeps m0 s0 _ gs (
      flags-Keeps m0 s0 c gs v (suc c.core.epoch) (suc c.core.invalidation_revision)
        c.core.is_closed false c.core.saturated c.core.bus_status)

  pub begin_restore-Keeps :
      (c : Cache) (gs : List Guard) → Accounts m0 s0 c gs → Accounts m0 s0 (begin_restore c).0 gs
  unfolding begin_restore
  begin_restore-Keeps c gs v = clear_tables-Keeps m0 s0 _ gs (
      flags-Keeps m0 s0 c gs v (suc c.core.epoch) c.core.invalidation_revision c.core.is_closed
        c.core.trusted c.core.saturated c.core.bus_status)

  pub finish_restore-Keeps :
      (n : ℕ) (c : Cache) (gs : List Guard)
      → Accounts m0 s0 c gs
      → Accounts m0 s0 (finish_restore n c) gs
  unfolding finish_restore
  finish_restore-Keeps n c gs v =
      if_lem (λ (c' : Cache). Accounts m0 s0 c' gs)
        (not (n == c.core.invalidation_revision)
          || c.core.is_closed
          || is_interrupted c.core.bus_status)
        v
        (flags-Keeps m0 s0 c gs v c.core.epoch c.core.invalidation_revision c.core.is_closed true
          c.core.saturated c.core.bus_status)
