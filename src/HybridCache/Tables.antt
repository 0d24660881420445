-- ===== src/HybridCache/Tables.antt =====
-- A `Map` of HybridCache (src/cache/hybridCache.ts) with the counter of its bytes, which the memory
-- budget holds in one category: `negative` and `negativeBytes`, `stale` and `staleBytes`, `inflight`
-- and `inflightBytes`, `seenEvents` and `seenEventBytes`. The source writes out the same steps for
-- each of them.
pub mod Accounts
pub mod Bounds
pub mod Absent
pub mod Limits
pub mod Keepers
use lazy_layers.Prelude.{
  ℕ, zero, suc, ◌+◌, ◌-◌, ◌≡◌, Bool, true, false, Option, none, some, List, [], ◌∷◌, length,
  if◌then◌else◌, Text,
}
use lazy_layers.Prelude.Maps.{Eq, Map, find, set_key, remove}
use lazy_layers.MemoryBudget.{Budget}
use lazy_layers.HybridCache.{reserve_in, release_in}

pub record Table {ℓ κ} (K : Type ℓ) (V : Type κ) : Type (ℓ ⊔ κ) where
  pub entries : Map K V
  pub bytes : ℕ

module _ {K V : Type 0} ⦃e : Eq K⦄ (category : Text) (bytes_of : K × V → ℕ) where
  -- The budget beside one table.
  abbrev pub Account : Type 0
  Account = Option Budget × Table K V

  abbrev forget_found : K → Option V → Account → Account
  forget_found k none (b, t) = (b, t)
  forget_found k (some v) (b, t) = (
    release_in category (bytes_of (k, v)) b,
    record { entries = remove k t.entries; bytes = t.bytes - bytes_of (k, v) },
  )

  -- removeNegative, removeStale, removeInflight and removeSeenEvent. The counter includes the bytes
  -- of the entry, so that the subtraction never stops at 0.
  unfoldable pub drop : K → Account → Account
  drop k (b, t) = forget_found k (find k t.entries) (b, t)

  -- clearNegative, clearStale and clearInflight
  unfoldable pub clear : Account → Account
  clear (b, t) = (release_in category t.bytes b, record { entries = []; bytes = 0 })

  abbrev pub put_entry : K → V → Table K V → Table K V
  put_entry k v t = record { entries = set_key k v t.entries; bytes = t.bytes + bytes_of (k, v) }

  abbrev put_admitted : K → V → Table K V → Option Budget × Bool → Account
  put_admitted k v t (b, true) = (b, put_entry k v t)
  put_admitted k v t (b, false) = (b, t)

  -- The entry is added if the budget admits its bytes.
  unfoldable pub admit_entry : K → V → Account → Account
  admit_entry k v (b, t) = put_admitted k v t (reserve_in category (bytes_of (k, v)) b)

  abbrev oldest : Map K V → Account → Account
  oldest [] a = a
  oldest ((k, v) ∷ m) a = drop k a

  -- `while (tooMuch) { oldest = keys().next().value; if (oldest === undefined) break; remove(oldest) }`
  -- Each round removes an entry, so that the number of entries is fuel enough.
  unfoldable pub evict_rounds : (Table K V → Bool) → ℕ → Account → Account
  evict_rounds too_much zero a = a
  evict_rounds too_much (suc n) (b, t) =
      let rest = evict_rounds too_much n (oldest t.entries (b, t)) in
      if too_much t then rest else (b, t)

  unfoldable pub evict_while : (Table K V → Bool) → Account → Account
  unfolding evict_rounds
  evict_while too_much (b, t) = evict_rounds too_much (length t.entries) (b, t)
