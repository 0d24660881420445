-- ===== src/HybridCache.antt =====
-- src/cache/hybridCache.ts: the keys of the two-tier cache, the accounts that its tables share, and
-- what decides whether an operation may still publish. A key is the text or the number that the
-- caller gave; a number stands by its decimal notation. Texts are lists of UTF-16 code units; what
-- encode and decode work on is bytes.
pub mod Revisions
pub mod Core
pub mod Guards
pub mod Tables
pub mod State
pub mod Negative
pub mod Stale
pub mod Seen
pub mod Inflight
pub mod Trust
pub mod Generations
pub mod Mutations
pub mod Remote
pub mod Ledger
pub mod Machine
use lazy_layers.Prelude.{
  ℕ, suc, ◌+◌, ◌*◌, ◌≡◌, refl, Bool, true, false, ◌↔◌, Option, none, some, ◌&&◌, ◌||◌, not, ◌++◌,
  ◌==◌, [], ◌∷◌, ltb, leb, if◌then◌else◌, arith, length, Text, codes, text_eq, text_eq_iff, natural,
}
use lazy_layers.Prelude.Decimal.{print}
use lazy_layers.Prelude.Maps.{Eq, Map, find}
use lazy_layers.MemoryBudget.{Budget, try_reserve, release}

-- `CacheKey = string | number`
pub data CacheKey : Type 0 where
  text_key number_key : Text → CacheKey

-- String(key)
abbrev pub to_text : CacheKey → Text
to_text (text_key s) = s
to_text (number_key s) = s

-- The equality of `Map`: a number and its text are different keys.
unfoldable pub key_eq : CacheKey → CacheKey → Bool
key_eq (text_key s) (text_key t) = text_eq s t
key_eq (text_key s) (number_key t) = false
key_eq (number_key s) (text_key t) = false
key_eq (number_key s) (number_key t) = text_eq s t

pub key_eq_iff : (j k : CacheKey) → (key_eq j k ≡ true) ↔ (j ≡ k)
unfolding key_eq
key_eq_iff (text_key s) (text_key t) = ground (arith, text_eq_iff s t)
key_eq_iff (text_key s) (number_key t) = ground arith
key_eq_iff (number_key s) (text_key t) = ground arith
key_eq_iff (number_key s) (number_key t) = ground (arith, text_eq_iff s t)

instance abbrev pub key_Eq : Eq CacheKey
key_Eq = record { beq = key_eq; beq_iff = key_eq_iff }

instance abbrev pub text_Eq : Eq Text
text_Eq = record { beq = text_eq; beq_iff = text_eq_iff }

-- MAX_AUXILIARY_MAP_BYTES
abbrev pub max_auxiliary_map_bytes : ℕ
max_auxiliary_map_bytes = 2 * 1024 * 1024

-- The bytes of a code unit in UTF-8: a surrogate that stands alone is replaced by a character of
-- three bytes.
abbrev pub utf8_unit : ℕ → ℕ
utf8_unit c = if ltb c 128 then 1 else if ltb c 2048 then 2 else 3

-- The bytes of a text, behind a high surrogate or not: with the low one the pair has four bytes.
unfoldable pub utf8_length_after : Bool → Text → ℕ
utf8_length_after is_high [] = 0
utf8_length_after is_high (c ∷ s) =
    (if is_high && leb 56320 c && leb c 57343 then 1 else utf8_unit c)
    + utf8_length_after (leb 55296 c && leb c 56319) s

-- Buffer.byteLength(String(key))
abbrev pub utf8_length : Text → ℕ
utf8_length s = utf8_length_after false s

abbrev pub text_metadata_bytes : Text → ℕ
text_metadata_bytes s = utf8_length s * 2 + 96

abbrev pub key_metadata_bytes : CacheKey → ℕ
key_metadata_bytes k = text_metadata_bytes (to_text k)

abbrev pub metadata : Text
metadata = codes "coordination-metadata"

-- !memoryBudget || memoryBudget.tryReserve(bytes, category)
unfoldable pub reserve_in : Text → ℕ → Option Budget → Option Budget × Bool
reserve_in category n none = (none, true)
reserve_in category n (some b) =
    let (b', admitted) = try_reserve (natural n) category b in (some b', admitted)

-- memoryBudget?.release(bytes, category)
unfoldable pub release_in : Text → ℕ → Option Budget → Option Budget
release_in category n none = none
release_in category n (some b) = some (release (natural n) category b)
