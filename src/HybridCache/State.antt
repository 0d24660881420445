-- ===== src/HybridCache/State.antt =====
-- The state of HybridCache (src/cache/hybridCache.ts) between two awaits, and the options it reads.
-- An options object that is absent is one whose fields are all absent. Durations and times are whole
-- milliseconds.
use lazy_layers.Prelude.{ℕ, Bool, false, not, Option, none, some, get_or, Text, codes}
use lazy_layers.HybridCache.{CacheKey, key_Eq, text_Eq, text_metadata_bytes, metadata}
use lazy_layers.HybridCache.Core.{Core}
use lazy_layers.HybridCache.Tables.{Table, Account}

pub record NegativeOptions : Type 0 where
  pub enabled : Option Bool
  pub ttl_ms : Option ℕ
  pub max_entries : Option ℕ

pub record FailSafeOptions : Type 0 where
  pub enabled : Option Bool
  pub stale_ttl_ms : Option ℕ
  pub max_entries : Option ℕ
  pub max_bytes : Option ℕ

pub record InflightOptions : Type 0 where
  pub enabled : Option Bool
  pub ttl_ms : Option ℕ
  pub max_entries : Option ℕ
  pub max_waiters : Option ℕ

pub record LockOptions : Type 0 where
  pub enabled : Option Bool
  pub ttl_ms : Option ℕ
  pub wait_timeout_ms : Option ℕ
  pub poll_ms : Option ℕ

pub record CacheOptions : Type 0 where
  pub negative_cache : NegativeOptions
  pub fail_safe : FailSafeOptions
  pub inflight : InflightOptions
  pub lock : LockOptions
  pub hard_ms : Option ℕ

-- `a ?? b ?? c`
abbrev pub first_of {ℓ} : {A : Type ℓ} → Option A → Option A → A → A
first_of a b c = get_or a (get_or b c)

-- `flag === false`
abbrev pub is_off : Option Bool → Bool
is_off none = false
is_off (some b) = not b

pub record NegativeEntry : Type 0 where
  pub expires_at : ℕ
  pub bytes : ℕ

-- The encoding is a list of bytes.
pub record StaleEntry : Type 0 where
  pub encoded : Text
  pub bytes : ℕ
  pub expires_at : ℕ

-- `load` stands for the promise.
pub record InflightEntry : Type 0 where
  pub load : ℕ
  pub bytes : ℕ
  pub expires_at : Option ℕ

pub record Cache : Type 0 where
  pub options : CacheOptions
  pub dedupe_max_entries : Option ℕ
  pub dedupe_ttl_ms : Option ℕ
  pub core : Core
  pub negative : Table CacheKey NegativeEntry
  pub stale : Table CacheKey StaleEntry
  pub seen : Table Text ℕ
  pub inflight : Table CacheKey InflightEntry
  pub active_followers : ℕ
  pub rejected_followers : ℕ
  pub follower_bytes : ℕ

abbrev pub negative_bytes_of : CacheKey × NegativeEntry → ℕ
negative_bytes_of (k, e) = e.bytes

abbrev pub stale_bytes_of : CacheKey × StaleEntry → ℕ
stale_bytes_of (k, e) = e.bytes

abbrev pub seen_bytes_of : Text × ℕ → ℕ
seen_bytes_of (id, at) = text_metadata_bytes id

abbrev pub inflight_bytes_of : CacheKey × InflightEntry → ℕ
inflight_bytes_of (k, e) = e.bytes

abbrev pub stale_category : Text
stale_category = codes "stale"

abbrev pub NegativeAccount : Type 0
NegativeAccount = Account metadata negative_bytes_of

abbrev pub StaleAccount : Type 0
StaleAccount = Account stale_category stale_bytes_of

abbrev pub SeenAccount : Type 0
SeenAccount = Account metadata seen_bytes_of

abbrev pub InflightAccount : Type 0
InflightAccount = Account metadata inflight_bytes_of

abbrev pub with_negative : Cache → NegativeAccount → Cache
with_negative c (b, t) = record c { core = record c.core { budget = b }; negative = t }

abbrev pub with_stale : Cache → StaleAccount → Cache
with_stale c (b, t) = record c { core = record c.core { budget = b }; stale = t }

abbrev pub with_seen : Cache → SeenAccount → Cache
with_seen c (b, t) = record c { core = record c.core { budget = b }; seen = t }

abbrev pub with_inflight : Cache → InflightAccount → Cache
with_inflight c (b, t) = record c { core = record c.core { budget = b }; inflight = t }
