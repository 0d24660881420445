-- ===== src/HybridCache/Ledger/Whole.antt =====
-- The operations that touch several tables of HybridCache (src/cache/hybridCache.ts) keep its accounts.
use lazy_layers.Prelude.{
  ℕ, suc, ◌+◌, ◌≡◌, refl, subst, Bool, true, false, Option, none, some, List, ◌||◌, not, arith,
  Text, if◌then◌else◌, if_lem, if_cases, leb, ltb, max, length, Option-cases, inl, inr,
  max_safe_integer,
}
use lazy_layers.Prelude.Maps.{find, is_some, set_key-IsUnique, sum-set_key_new, sum-set_key_old}
use lazy_layers.MemoryBudget.{Budget}
use lazy_layers.HybridCache.{
  key_Eq, text_Eq, text_metadata_bytes, metadata, max_auxiliary_map_bytes, reserve_in,
}
use lazy_layers.HybridCache.Revisions.{Guard}
use lazy_layers.HybridCache.Core.{BusStatus, get_generation}
use lazy_layers.HybridCache.Tables.Accounts.{clear-Agrees}
use lazy_layers.HybridCache.Tables.Keepers.{Holds, reserve_metadata}
use lazy_layers.HybridCache.State.{
  Cache, negative_bytes_of, stale_bytes_of, inflight_bytes_of, stale_category, with_negative,
  with_inflight,
}
use lazy_layers.HybridCache.Negative.{clear_negative}
use lazy_layers.HybridCache.Stale.{clear_stale}
use lazy_layers.HybridCache.Inflight.{clear_inflight}
use lazy_layers.HybridCache.Trust.{Effect, clear_tables}
use lazy_layers.HybridCache.Generations.{
  saturate, max_generation_entries, store_generation, stored, stored_new, advance_after_delete,
  advance_after_remote_set,
}
use lazy_layers.HybridCache.Ledger.{
  Accounts, metadata_total, negative-Accounts, stale-Accounts, inflight-Accounts,
  generation_entry_bytes,
}
use lazy_layers.HybridCache.Ledger.Revised.{same-Exacts}

module _ (m0 s0 : ℕ) where
  pub clear_tables-Keeps :
      (c : Cache) (gs : List Guard) → Accounts m0 s0 c gs → Accounts m0 s0 (clear_tables c) gs
  unfolding clear_tables clear_inflight clear_negative clear_stale
  clear_tables-Keeps c gs v =
      let c1 = with_inflight c (clear_inflight (c.core.budget, c.inflight)) in
      let v1 =
        inflight-Accounts m0 s0 c gs v (λ a. clear_inflight a)
          (clear-Agrees metadata inflight_bytes_of) in
      let c2 = with_negative c1 (clear_negative (c1.core.budget, c1.negative)) in
      let v2 =
        negative-Accounts m0 s0 c1 gs v1 (λ a. clear_negative a)
          (clear-Agrees metadata negative_bytes_of) in
      stale-Accounts m0 s0 c2 gs v2 (λ a. clear_stale a)
        (clear-Agrees stale_category stale_bytes_of)

  module _ (c : Cache) (gs : List Guard) (v : Accounts m0 s0 c gs) where
    abbrev pub After : Cache × List Effect → Type 0
    After (c', fx) = Accounts m0 s0 c' gs

    -- Trust, the epoch, closing and the status of the bus are no matter of bytes.
    pub flags-Keeps :
        (epoch revision : ℕ) (closed trusted saturated : Bool) (status : Option BusStatus)
        → Accounts m0 s0
            (record c {
              core = record c.core {
                epoch = epoch;
                invalidation_revision = revision;
                is_closed = closed;
                trusted = trusted;
                saturated = saturated;
                bus_status = status;
              };
            })
            gs
    flags-Keeps epoch revision closed trusted saturated status = record {
      exacts =
          same-Exacts m0 s0 c gs v c.core.budget c.core.revisions epoch revision closed trusted
            saturated status;
      revisions = v.revisions;
      held = v.held;
    }

    budget-Keeps :
        (b : Option Budget)
        → Holds m0 s0 (metadata_total c) c.stale.bytes b
        → Accounts m0 s0 (record c { core = record c.core { budget = b } }) gs
    budget-Keeps b h = record {
      exacts =
          same-Exacts m0 s0 c gs v b c.core.revisions c.core.epoch c.core.invalidation_revision
            c.core.is_closed c.core.trusted c.core.saturated c.core.bus_status;
      revisions = v.revisions;
      held = h;
    }

    pub saturate-Keeps : After (saturate c)
    unfolding saturate
    saturate-Keeps =
        let w =
          flags-Keeps (suc c.core.epoch) c.core.invalidation_revision c.core.is_closed
            c.core.trusted true c.core.bus_status in
        if_lem After c.core.saturated v (clear_tables-Keeps _ gs w)

    stored-Keeps :
        (k : Text) (n w : ℕ) → find k c.core.generations ≡ some w → Accounts m0 s0 (stored k n c) gs
    stored-Keeps k n w f = record {
      exacts = record {
        negative = v.exacts.negative;
        stale = v.exacts.stale;
        seen = v.exacts.seen;
        inflight = v.exacts.inflight;
        generations_unique = set_key-IsUnique k n c.core.generations v.exacts.generations_unique;
        generations_exact = omega (
          arith,
          v.exacts.generations_exact,
          sum-set_key_old generation_entry_bytes k n w c.core.generations f,
        );
        followers_exact = v.exacts.followers_exact;
      };
      revisions = v.revisions;
      held = v.held;
    }

    kept_stored :
        (k : Text) (n : ℕ)
        → is_some (find k c.core.generations) ≡ true
        → Accounts m0 s0 (stored k n c) gs
    kept_stored k n h = elim (Option-cases (find k c.core.generations)) [
      | inl e ↦ absurd (ground (arith, h, e))
      | inr (w, e) ↦ stored-Keeps k n w e
    ]

  stored_new-Keeps :
      (c : Cache) (gs : List Guard) (v : Accounts m0 s0 c gs) (k : Text) (n : ℕ)
      (r : Option Budget × Bool)
      → find k c.core.generations ≡ none
      → Holds m0 s0
          (metadata_total c + (if r.1 then text_metadata_bytes k else 0))
          c.stale.bytes
          r.0
      → After c gs v (stored_new k n c r)
  stored_new-Keeps c gs v k n (b, true) f h = record {
    exacts = record {
      negative = v.exacts.negative;
      stale = v.exacts.stale;
      seen = v.exacts.seen;
      inflight = v.exacts.inflight;
      generations_unique = set_key-IsUnique k n c.core.generations v.exacts.generations_unique;
      generations_exact = omega (
        arith,
        v.exacts.generations_exact,
        sum-set_key_new generation_entry_bytes k n c.core.generations f,
      );
      followers_exact = v.exacts.followers_exact;
    };
    revisions = v.revisions;
    held = subst (λ n. Holds m0 s0 n c.stale.bytes b) (omega arith) h;
  }
  stored_new-Keeps c gs v k n (b, false) f h =
      let kept =
        budget-Keeps c gs v b (subst (λ n. Holds m0 s0 n c.stale.bytes b) (omega arith) h) in
      saturate-Keeps (record c { core = record c.core { budget = b } }) gs kept

  missing : (o : Option ℕ) → is_some o ≡ false → o ≡ none
  missing none h = refl
  missing (some n) h = ground arith

  module _ (c : Cache) (gs : List Guard) (v : Accounts m0 s0 c gs) where
    pub store_generation-Keeps : (k : Text) (n : ℕ) → After c gs v (store_generation k n c)
    unfolding store_generation
    store_generation-Keeps k n =
        let P : Cache × List Effect → Type 0 = After c gs v in
        let bytes = text_metadata_bytes k in
        let spent = saturate-Keeps c gs v in
        if_lem P (not (leb n max_safe_integer)) spent (
          if_cases P (is_some (find k c.core.generations)) (λ h. kept_stored c gs v k n h)
            (λ h.
              if_lem P
                (leb max_generation_entries (length c.core.generations)
                  || ltb max_auxiliary_map_bytes (c.core.generation_bytes + bytes))
                spent
                (stored_new-Keeps c gs v k n (reserve_in metadata bytes c.core.budget)
                  (missing (find k c.core.generations) h)
                  (reserve_metadata m0 s0 (metadata_total c) bytes c.stale.bytes c.core.budget
                    v.held))))

    pub advance_after_delete-Keeps :
        (k : Text) (o : Option ℕ) → After c gs v (advance_after_delete k o c)
    unfolding advance_after_delete
    advance_after_delete-Keeps k none = store_generation-Keeps k (get_generation k c.core + 1)
    advance_after_delete-Keeps k (some n) =
        store_generation-Keeps k (max (get_generation k c.core) n)

    pub advance_after_remote_set-Keeps :
        (k : Text) (o : Option ℕ) → After c gs v (advance_after_remote_set k o c)
    unfolding advance_after_remote_set
    advance_after_remote_set-Keeps k none = v
    advance_after_remote_set-Keeps k (some n) =
        store_generation-Keeps k (max (get_generation k c.core) n)
