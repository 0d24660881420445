-- ===== src/HybridCache/Ledger/Shared.antt =====
-- Shared loads, peers' events and the end of the cache (src/cache/hybridCache.ts) keep its accounts.
use lazy_layers.Prelude.{
  ℕ, suc, ◌+◌, ◌≡◌, ◌<◌, refl, subst, Bool, true, false, Option, none, some, List, [], not, arith,
  if◌then◌else◌, if_lem, leb, ltb, min, get_or,
}
use lazy_layers.Prelude.Maps.{find, IsUnique, set_key-IsUnique, sum-set_key_new}
use lazy_layers.MemoryBudget.{Budget}
use lazy_layers.HybridCache.{
  CacheKey, key_Eq, key_metadata_bytes, metadata, max_auxiliary_map_bytes, reserve_in, release_in,
}
use lazy_layers.HybridCache.Revisions.{Guard, forget_all}
use lazy_layers.HybridCache.Revisions.Forget.{forget_all-Inv}
use lazy_layers.HybridCache.Core.{close_core}
use lazy_layers.HybridCache.Tables.Accounts.{Keeper, Agrees, clear-Agrees, drop-Agrees}
use lazy_layers.HybridCache.Tables.Keepers.{Holds, release_metadata, reserve_metadata}
use lazy_layers.HybridCache.State.{
  Cache, CacheOptions, InflightEntry, InflightAccount, inflight_bytes_of, negative_bytes_of,
  stale_bytes_of, stale_category, with_inflight, with_negative,
}
use lazy_layers.HybridCache.Negative.{clear_negative}
use lazy_layers.HybridCache.Stale.{clear_stale}
use lazy_layers.HybridCache.Inflight.{
  remove_inflight, clear_inflight, prune_inflight_key, prune_found, has_passed, finish_inflight,
  is_load, reserve_inflight, reserved_for, can_track_new_inflight, register_inflight,
  start_inflight, start_found, start_reserved, join_inflight, join_answered, leave_inflight,
  follower_metadata_bytes, inflight_ttl_ms,
}
use lazy_layers.HybridCache.Trust.{close_cache}
use lazy_layers.HybridCache.Ledger.{
  Accounts, metadata_total, negative-Accounts, stale-Accounts, inflight-Accounts,
}
use lazy_layers.HybridCache.Ledger.Entries.{Keeps, KeepsWith}

prune_found-Agrees :
    (now : ℕ) (k : CacheKey) (o : Option InflightEntry) (w : Keeper metadata) (a : InflightAccount)
    → Agrees metadata inflight_bytes_of w a
    → Agrees metadata inflight_bytes_of w (prune_found now k o a)
prune_found-Agrees now k none w a h = h
prune_found-Agrees now k (some e) w a h =
    if_lem (Agrees metadata inflight_bytes_of w) (has_passed e.expires_at now)
      (unfold remove_inflight in drop-Agrees metadata inflight_bytes_of w k a h) h

module _ (m0 s0 : ℕ) (c : Cache) (gs : List Guard) (v : Accounts m0 s0 c gs) where
  pub prune-Keeps :
      (now : ℕ) (k : CacheKey)
      → Keeps m0 s0 c gs v (with_inflight c (prune_inflight_key now k (c.core.budget, c.inflight)))
  unfolding prune_inflight_key
  prune-Keeps now k =
      inflight-Accounts m0 s0 c gs v (λ a. prune_inflight_key now k a)
        (λ w a h. prune_found-Agrees now k (find k a.1.entries) w a h)

  pub finish-Keeps :
      (k : CacheKey) (load : ℕ)
      → Keeps m0 s0 c gs v (with_inflight c (finish_inflight k load (c.core.budget, c.inflight)))
  unfolding finish_inflight remove_inflight
  finish-Keeps k load =
      inflight-Accounts m0 s0 c gs v (λ a. finish_inflight k load a)
        (λ w a h.
          if_lem (Agrees metadata inflight_bytes_of w) (is_load load (find k a.1.entries))
            (drop-Agrees metadata inflight_bytes_of w k a h) h)

  -- A reservation that succeeds, and the entry that it is for.
  registered-Keeps :
      (now : ℕ) (k : CacheKey) (load ttl : ℕ) (r : Option Budget × Bool)
      → find k c.inflight.entries ≡ none
      → Holds m0 s0 (metadata_total c + (if r.1 then key_metadata_bytes k else 0)) c.stale.bytes r.0
      → KeepsWith m0 s0 c gs v
          (start_reserved now k load ttl (reserved_for (key_metadata_bytes k) c r))
  unfolding register_inflight
  registered-Keeps now k load ttl (b, true) f h =
      let e : InflightEntry = record {
        load = load;
        bytes = key_metadata_bytes k;
        expires_at = some (now + ttl);
      } in
      record {
        exacts = record {
          negative = v.exacts.negative;
          stale = v.exacts.stale;
          seen = v.exacts.seen;
          inflight = record {
            unique = set_key-IsUnique k e c.inflight.entries v.exacts.inflight.unique;
            exact = omega (
              arith,
              v.exacts.inflight.exact,
              sum-set_key_new inflight_bytes_of k e c.inflight.entries f,
            );
          };
          generations_unique = v.exacts.generations_unique;
          generations_exact = v.exacts.generations_exact;
          followers_exact = v.exacts.followers_exact;
        };
        revisions = v.revisions;
        held = subst (λ n. Holds m0 s0 n c.stale.bytes b) (omega arith) h;
      }
  registered-Keeps now k load ttl (b, false) f h = record {
    exacts = record {
      negative = v.exacts.negative;
      stale = v.exacts.stale;
      seen = v.exacts.seen;
      inflight = v.exacts.inflight;
      generations_unique = v.exacts.generations_unique;
      generations_exact = v.exacts.generations_exact;
      followers_exact = v.exacts.followers_exact;
    };
    revisions = v.revisions;
    held = subst (λ n. Holds m0 s0 n c.stale.bytes b) (omega arith) h;
  }

  reserved-Keeps :
      (now : ℕ) (k : CacheKey) (load ttl : ℕ)
      → find k c.inflight.entries ≡ none
      → KeepsWith m0 s0 c gs v (start_reserved now k load ttl (reserve_inflight k c))
  unfolding reserve_inflight
  reserved-Keeps now k load ttl f =
      let n = key_metadata_bytes k in
      let P : Cache × Option ℕ → Type 0 =
        λ r. KeepsWith m0 s0 c gs v (start_reserved now k load ttl r) in
      if_lem P (not (can_track_new_inflight c)) v (
        if_lem P (ltb max_auxiliary_map_bytes (c.inflight.bytes + n)) v (
          registered-Keeps now k load ttl (reserve_in metadata n c.core.budget) f
            (reserve_metadata m0 s0 (metadata_total c) n c.stale.bytes c.core.budget v.held)))

  pub leave-Keeps : 0 < c.active_followers → Keeps m0 s0 c gs v (leave_inflight c)
  unfolding leave_inflight
  leave-Keeps h =
      let before : metadata_total c ≡ metadata_total (leave_inflight c) + follower_metadata_bytes =
        omega (arith, v.exacts.followers_exact, h) in
      record {
        exacts = record {
          negative = v.exacts.negative;
          stale = v.exacts.stale;
          seen = v.exacts.seen;
          inflight = v.exacts.inflight;
          generations_unique = v.exacts.generations_unique;
          generations_exact = v.exacts.generations_exact;
          followers_exact = omega (arith, v.exacts.followers_exact, h);
        };
        revisions = v.revisions;
        held =
            release_metadata m0 s0 (metadata_total (leave_inflight c)) follower_metadata_bytes
              c.stale.bytes c.core.budget
              (subst (λ n. Holds m0 s0 n c.stale.bytes c.core.budget) before v.held);
      }

  -- The two ends of the attempt to join.
  admitted_follower :
      (b : Option Budget)
      → Holds m0 s0 (metadata_total c + follower_metadata_bytes) c.stale.bytes b
      → Keeps m0 s0 c gs v (record c {
        core = record c.core { budget = b };
        active_followers = suc c.active_followers;
        follower_bytes = c.follower_bytes + follower_metadata_bytes;
      })
  admitted_follower b h = record {
    exacts = record {
      negative = v.exacts.negative;
      stale = v.exacts.stale;
      seen = v.exacts.seen;
      inflight = v.exacts.inflight;
      generations_unique = v.exacts.generations_unique;
      generations_exact = v.exacts.generations_exact;
      followers_exact = ground (arith, v.exacts.followers_exact);
    };
    revisions = v.revisions;
    held = subst (λ n. Holds m0 s0 n c.stale.bytes b) (omega arith) h;
  }

  refused_follower :
      (b : Option Budget)
      → Holds m0 s0 (metadata_total c + 0) c.stale.bytes b
      → Keeps m0 s0 c gs v (record c {
        core = record c.core { budget = b };
        rejected_followers = suc c.rejected_followers;
      })
  refused_follower b h = record {
    exacts = record {
      negative = v.exacts.negative;
      stale = v.exacts.stale;
      seen = v.exacts.seen;
      inflight = v.exacts.inflight;
      generations_unique = v.exacts.generations_unique;
      generations_exact = v.exacts.generations_exact;
      followers_exact = v.exacts.followers_exact;
    };
    revisions = v.revisions;
    held = subst (λ n. Holds m0 s0 n c.stale.bytes b) (omega arith) h;
  }

  refused_unasked : Keeps m0 s0 c gs v (record c { rejected_followers = suc c.rejected_followers })
  refused_unasked =
      refused_follower c.core.budget
        (subst (λ n. Holds m0 s0 n c.stale.bytes c.core.budget) (omega arith) v.held)

  -- The middle of closing.
  emptied-Keeps : Keeps m0 s0 c gs v (record c {
    core = close_core c.seen.bytes c.core;
    seen = record { entries = []; bytes = 0 };
  })
  unfolding close_core forget_all IsUnique
  emptied-Keeps =
      let b = release_in metadata c.core.generation_bytes c.core.budget in
      let rest = c.negative.bytes + c.inflight.bytes + c.follower_bytes in
      let tables = c.seen.bytes + c.core.revisions.table_bytes in
      let first =
        release_metadata m0 s0 (rest + tables) c.core.generation_bytes c.stale.bytes c.core.budget
          (subst (λ n. Holds m0 s0 n c.stale.bytes c.core.budget) (omega arith) v.held) in
      let second = release_metadata m0 s0 rest tables c.stale.bytes b first in
      record {
        exacts = record {
          negative = v.exacts.negative;
          stale = v.exacts.stale;
          seen = record { unique = tt; exact = refl };
          inflight = v.exacts.inflight;
          generations_unique = tt;
          generations_exact = refl;
          followers_exact = v.exacts.followers_exact;
        };
        revisions = forget_all-Inv c.core.revisions gs v.revisions;
        held =
            subst (λ n. Holds m0 s0 n c.stale.bytes (release_in metadata tables b)) (omega arith)
              second;
      }

  join-Keeps_found :
      (max_waiters : ℕ) (r : Option Budget × Bool)
      → Holds m0 s0
          (metadata_total c + (if r.1 then follower_metadata_bytes else 0))
          c.stale.bytes
          r.0
      → KeepsWith m0 s0 c gs v (join_answered max_waiters c r)
  join-Keeps_found max_waiters (b, true) h =
      if_lem (KeepsWith m0 s0 c gs v) (leb max_waiters c.active_followers) refused_unasked
        (admitted_follower b h)
  join-Keeps_found max_waiters (b, false) h =
      if_lem (KeepsWith m0 s0 c gs v) (leb max_waiters c.active_followers) refused_unasked
        (refused_follower b h)

  pub join-Keeps :
      (own_max : ℕ) (o : CacheOptions) → KeepsWith m0 s0 c gs v (join_inflight own_max o c)
  unfolding join_inflight
  join-Keeps own_max o =
      join-Keeps_found (min own_max (get_or o.inflight.max_waiters own_max))
        (reserve_in metadata follower_metadata_bytes c.core.budget)
        (reserve_metadata m0 s0 (metadata_total c) follower_metadata_bytes c.stale.bytes
          c.core.budget v.held)

module _ (m0 s0 : ℕ) (c : Cache) (gs : List Guard) (v : Accounts m0 s0 c gs) where
  found-Keeps :
      (now : ℕ) (l2_locks : Bool) (k : CacheKey) (load : ℕ) (o : CacheOptions)
      (e : Option InflightEntry)
      → find k c.inflight.entries ≡ e
      → KeepsWith m0 s0 c gs v (start_found now l2_locks k load o c e)
  found-Keeps now l2_locks k load o none h =
      reserved-Keeps m0 s0 c gs v now k load (inflight_ttl_ms l2_locks o c) h
  found-Keeps now l2_locks k load o (some e) h = v

  pub close-Keeps : Keeps m0 s0 c gs v (close_cache c)
  unfolding close_cache clear_inflight clear_negative clear_stale
  close-Keeps =
      let c1 = with_inflight c (clear_inflight (c.core.budget, c.inflight)) in
      let v1 =
        inflight-Accounts m0 s0 c gs v (λ a. clear_inflight a)
          (clear-Agrees metadata inflight_bytes_of) in
      let c2 = with_negative c1 (clear_negative (c1.core.budget, c1.negative)) in
      let v2 =
        negative-Accounts m0 s0 c1 gs v1 (λ a. clear_negative a)
          (clear-Agrees metadata negative_bytes_of) in
      let c3 : Cache = record c2 {
        core = close_core c2.seen.bytes c2.core;
        seen = record { entries = []; bytes = 0 };
      } in
      let v3 : Accounts m0 s0 c3 gs = emptied-Keeps m0 s0 c2 gs v2 in
      stale-Accounts m0 s0 c3 gs v3 (λ a. clear_stale a)
        (clear-Agrees stale_category stale_bytes_of)

pub start-Keeps :
    (m0 s0 : ℕ) (c : Cache) (gs : List Guard) (v : Accounts m0 s0 c gs) (now : ℕ) (l2_locks : Bool)
    (k : CacheKey) (load : ℕ) (o : CacheOptions)
    → KeepsWith m0 s0 c gs v (start_inflight now l2_locks k load o c)
unfolding start_inflight
start-Keeps m0 s0 c gs v now l2_locks k load o =
    let c' = with_inflight c (prune_inflight_key now k (c.core.budget, c.inflight)) in
    found-Keeps m0 s0 c' gs (prune-Keeps m0 s0 c gs v now k) now l2_locks k load o
      (find k c'.inflight.entries) refl
