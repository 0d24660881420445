-- ===== src/HybridCache/Tables/Keepers.antt =====
-- The accounts of HybridCache (src/cache/hybridCache.ts) in the memory budget: its metadata and its
-- fallback values are two categories of one ledger, and a call for one leaves the other alone.
use lazy_layers.Prelude.{
  ℕ, ◌+◌, ◌-◌, ◌≡◌, ◌≢◌, refl, subst, sym, ◌∙◌, Option, none, some, arith, if◌then◌else◌, Text,
  natural, min, ◌==◌, if_lem, text_eq, text_eq_iff,
}
use lazy_layers.MemoryBudget.{Budget, lookup, try_reserve, release}
use lazy_layers.MemoryBudget.Ledger.{release_exact, try_reserve_exact, lookup-put_other}
use lazy_layers.MemoryBudget.Bounds.{try_reserve-Inv, release-Inv}
use lazy_layers.MemoryBudget.Bounds
use lazy_layers.HybridCache.{reserve_in, release_in, metadata}
use lazy_layers.HybridCache.State.{stale_category}
use lazy_layers.HybridCache.Tables.Accounts.{Keeper}

-- Of a budget, if there is one: its ledger is exact, and it holds `m` bytes of metadata and `s` of
-- fallback values beside those of others.
abbrev pub Holds : ℕ → ℕ → ℕ → ℕ → Option Budget → Type 0
Holds m0 s0 m s none = Unit
Holds m0 s0 m s (some b) =
    Bounds.Inv b
    × (lookup metadata b.categories ≡ m0 + m)
    × (lookup stale_category b.categories ≡ s0 + s)

release-other :
    (n : ℕ) (j k : Text) (b : Budget)
    → j ≢ k
    → lookup j (release (natural n) k b).categories ≡ lookup j b.categories
unfolding release
release-other n j k b h =
    let amount = min (min n (lookup k b.categories)) b.used in
    if_lem (λ (b' : Budget). lookup j b'.categories ≡ lookup j b.categories) (amount == 0) refl
      (lookup-put_other j k (lookup k b.categories - amount) b.categories h)

try_reserve-other :
    (n : ℕ) (j k : Text) (b : Budget)
    → j ≢ k
    → lookup j (try_reserve (natural n) k b).0.categories ≡ lookup j b.categories
unfolding try_reserve
try_reserve-other n j k b h =
    ground (arith, lookup-put_other j k (lookup k b.categories + n) b.categories h)

stale-metadata : stale_category ≢ metadata
unfolding text_eq
stale-metadata e = ground (arith, (text_eq_iff stale_category metadata).1 e)

metadata-stale : metadata ≢ stale_category
metadata-stale e = stale-metadata (sym e)

module _ (m0 s0 : ℕ) where
  pub release_metadata :
      (m n s : ℕ) (b : Option Budget)
      → Holds m0 s0 (m + n) s b
      → Holds m0 s0 m s (release_in metadata n b)
  unfolding release_in
  release_metadata m n s none h = tt
  release_metadata m n s (some b) h =
      let (used, held) = release_exact n metadata b h.0.exact (omega (arith, h.1)) in
      (
        release-Inv (natural n) metadata b h.0,
        omega (arith, h.1, held),
        release-other n stale_category metadata b stale-metadata ∙ h.2,
      )

  pub reserve_metadata :
      (m n s : ℕ) (b : Option Budget)
      → Holds m0 s0 m s b
      → Holds m0 s0
          (m + (if (reserve_in metadata n b).1 then n else 0))
          s
          (reserve_in metadata n b).0
  unfolding reserve_in
  reserve_metadata m n s none h = tt
  reserve_metadata m n s (some b) h =
      let (used, held) = try_reserve_exact n metadata b in
      (
        try_reserve-Inv (natural n) metadata b h.0,
        omega (arith, h.1, held),
        try_reserve-other n stale_category metadata b stale-metadata ∙ h.2,
      )

  pub release_stale :
      (m s n : ℕ) (b : Option Budget)
      → Holds m0 s0 m (s + n) b
      → Holds m0 s0 m s (release_in stale_category n b)
  unfolding release_in
  release_stale m s n none h = tt
  release_stale m s n (some b) h =
      let (used, held) = release_exact n stale_category b h.0.exact (omega (arith, h.2)) in
      (
        release-Inv (natural n) stale_category b h.0,
        release-other n metadata stale_category b metadata-stale ∙ h.1,
        omega (arith, h.2, held),
      )

  pub reserve_stale :
      (m s n : ℕ) (b : Option Budget)
      → Holds m0 s0 m s b
      → Holds m0 s0 m
          (s + (if (reserve_in stale_category n b).1 then n else 0))
          (reserve_in stale_category n b).0
  unfolding reserve_in
  reserve_stale m s n none h = tt
  reserve_stale m s n (some b) h =
      let (used, held) = try_reserve_exact n stale_category b in
      (
        try_reserve-Inv (natural n) stale_category b h.0,
        try_reserve-other n metadata stale_category b metadata-stale ∙ h.1,
        omega (arith, h.2, held),
      )

  -- The account of one table of metadata, beside `others` bytes of metadata and `s` of fallback
  -- values.
  abbrev pub metadata_keeper : ℕ → ℕ → Keeper metadata
  metadata_keeper others s = record {
    holds = λ n b. Holds m0 s0 (others + n) s b;
    released = λ m n b h.
        release_metadata (others + m) n s b (subst (λ x. Holds m0 s0 x s b) (omega arith) h);
    reserved = λ m n b h.
        subst (λ x. Holds m0 s0 x s (reserve_in metadata n b).0) (omega arith)
          (reserve_metadata (others + m) n s b h);
  }

  abbrev pub stale_keeper : ℕ → Keeper stale_category
  stale_keeper m = record {
    holds = λ n b. Holds m0 s0 m n b;
    released = λ s n b h. release_stale m s n b h;
    reserved = λ s n b h. reserve_stale m s n b h;
  }
