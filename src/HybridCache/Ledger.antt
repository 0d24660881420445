-- ===== src/HybridCache/Ledger.antt =====
-- What HybridCache (src/cache/hybridCache.ts) holds in the memory budget: its counters are those of
-- its tables, and their sum is what the budget holds for it.
pub mod Entries
pub mod Revised
pub mod Whole
pub mod Shared
pub mod Operations
use lazy_layers.Prelude.{
  ℕ, suc, ◌+◌, ◌-◌, ◌*◌, ◌≡◌, ◌≤◌, refl, subst, sym, ◌∙◌, Bool, true, false, Option, none, some,
  List, [], ◌∷◌, arith, sum_by, Text, if◌then◌else◌, if_lem,
}
use lazy_layers.Prelude.Maps.{Map, IsUnique}
use lazy_layers.MemoryBudget.{Budget}
use lazy_layers.HybridCache.{CacheKey, key_Eq, text_Eq, text_metadata_bytes, metadata}
use lazy_layers.HybridCache.Revisions.{Guard}
use lazy_layers.HybridCache.Core.{Core}
use lazy_layers.HybridCache.Revisions.Invariant.{Inv}
use lazy_layers.HybridCache.Tables.{Table, Account}
use lazy_layers.HybridCache.Tables.Accounts.{Keeper, Exact, Agrees}
use lazy_layers.HybridCache.Tables.Keepers.{Holds, metadata_keeper, stale_keeper}
use lazy_layers.HybridCache.State.{
  Cache, NegativeAccount, StaleAccount, SeenAccount, InflightAccount, negative_bytes_of,
  stale_bytes_of, seen_bytes_of, inflight_bytes_of, stale_category, with_negative, with_stale,
  with_seen, with_inflight,
}

abbrev pub generation_entry_bytes : Text × ℕ → ℕ
generation_entry_bytes (k, n) = text_metadata_bytes k

-- The bytes of metadata of the whole cache.
abbrev pub metadata_total : Cache → ℕ
metadata_total c =
    c.core.revisions.table_bytes + c.core.generation_bytes + c.negative.bytes + c.seen.bytes
    + c.inflight.bytes + c.follower_bytes

pub record Exacts (c : Cache) : Type 0 where
  pub negative : Exact metadata negative_bytes_of c.negative
  pub stale : Exact stale_category stale_bytes_of c.stale
  pub seen : Exact metadata seen_bytes_of c.seen
  pub inflight : Exact metadata inflight_bytes_of c.inflight
  pub generations_unique : IsUnique c.core.generations
  pub generations_exact : c.core.generation_bytes ≡ sum_by generation_entry_bytes c.core.generations
  pub followers_exact : c.follower_bytes ≡ c.active_followers * 160

module _ (m0 s0 : ℕ) where
  -- The counters are exact, and the budget, if there is one, holds them beside the `m0` bytes of
  -- metadata and `s0` of fallback values of others.
  pub record Accounts (c : Cache) (gs : List Guard) : Type 0 where
    pub exacts : Exacts c
    pub revisions : Inv c.core.revisions gs
    pub held : Holds m0 s0 (metadata_total c) c.stale.bytes c.core.budget

  module _ (c : Cache) (gs : List Guard) (v : Accounts c gs) where
    pub negative-Accounts :
        (f : NegativeAccount → NegativeAccount)
        → ((w : Keeper metadata) (a : NegativeAccount)
            → Agrees metadata negative_bytes_of w a
            → Agrees metadata negative_bytes_of w (f a))
        → Accounts (with_negative c (f (c.core.budget, c.negative))) gs
    negative-Accounts f h =
        let others =
          c.core.revisions.table_bytes + c.core.generation_bytes + c.seen.bytes + c.inflight.bytes
          + c.follower_bytes in
        let (x, k) =
          h (metadata_keeper m0 s0 others c.stale.bytes) (c.core.budget, c.negative)
            (
              v.exacts.negative,
              subst (λ n. Holds m0 s0 n c.stale.bytes c.core.budget) (omega arith) v.held,
            ) in
        record {
          exacts = record {
            negative = x;
            stale = v.exacts.stale;
            seen = v.exacts.seen;
            inflight = v.exacts.inflight;
            generations_unique = v.exacts.generations_unique;
            generations_exact = v.exacts.generations_exact;
            followers_exact = v.exacts.followers_exact;
          };
          revisions = v.revisions;
          held =
              subst (λ n. Holds m0 s0 n c.stale.bytes (f (c.core.budget, c.negative)).0)
                (omega arith) k;
        }

    pub stale-Accounts :
        (f : StaleAccount → StaleAccount)
        → ((w : Keeper stale_category) (a : StaleAccount)
            → Agrees stale_category stale_bytes_of w a
            → Agrees stale_category stale_bytes_of w (f a))
        → Accounts (with_stale c (f (c.core.budget, c.stale))) gs
    stale-Accounts f h =
        let (x, k) =
          h (stale_keeper m0 s0 (metadata_total c)) (c.core.budget, c.stale)
            (v.exacts.stale, v.held) in
        record {
          exacts = record {
            negative = v.exacts.negative;
            stale = x;
            seen = v.exacts.seen;
            inflight = v.exacts.inflight;
            generations_unique = v.exacts.generations_unique;
            generations_exact = v.exacts.generations_exact;
            followers_exact = v.exacts.followers_exact;
          };
          revisions = v.revisions;
          held = k;
        }

    pub seen-Accounts :
        (f : SeenAccount → SeenAccount)
        → ((w : Keeper metadata) (a : SeenAccount)
            → Agrees metadata seen_bytes_of w a
            → Agrees metadata seen_bytes_of w (f a))
        → Accounts (with_seen c (f (c.core.budget, c.seen))) gs
    seen-Accounts f h =
        let others =
          c.core.revisions.table_bytes + c.core.generation_bytes + c.negative.bytes
          + c.inflight.bytes + c.follower_bytes in
        let (x, k) =
          h (metadata_keeper m0 s0 others c.stale.bytes) (c.core.budget, c.seen)
            (
              v.exacts.seen,
              subst (λ n. Holds m0 s0 n c.stale.bytes c.core.budget) (omega arith) v.held,
            ) in
        record {
          exacts = record {
            negative = v.exacts.negative;
            stale = v.exacts.stale;
            seen = x;
            inflight = v.exacts.inflight;
            generations_unique = v.exacts.generations_unique;
            generations_exact = v.exacts.generations_exact;
            followers_exact = v.exacts.followers_exact;
          };
          revisions = v.revisions;
          held =
              subst (λ n. Holds m0 s0 n c.stale.bytes (f (c.core.budget, c.seen)).0) (omega arith)
                k;
        }

    pub inflight-Accounts :
        (f : InflightAccount → InflightAccount)
        → ((w : Keeper metadata) (a : InflightAccount)
            → Agrees metadata inflight_bytes_of w a
            → Agrees metadata inflight_bytes_of w (f a))
        → Accounts (with_inflight c (f (c.core.budget, c.inflight))) gs
    inflight-Accounts f h =
        let others =
          c.core.revisions.table_bytes + c.core.generation_bytes + c.negative.bytes + c.seen.bytes
          + c.follower_bytes in
        let (x, k) =
          h (metadata_keeper m0 s0 others c.stale.bytes) (c.core.budget, c.inflight)
            (
              v.exacts.inflight,
              subst (λ n. Holds m0 s0 n c.stale.bytes c.core.budget) (omega arith) v.held,
            ) in
        record {
          exacts = record {
            negative = v.exacts.negative;
            stale = v.exacts.stale;
            seen = v.exacts.seen;
            inflight = x;
            generations_unique = v.exacts.generations_unique;
            generations_exact = v.exacts.generations_exact;
            followers_exact = v.exacts.followers_exact;
          };
          revisions = v.revisions;
          held =
              subst (λ n. Holds m0 s0 n c.stale.bytes (f (c.core.budget, c.inflight)).0)
                (omega arith) k;
        }
