-- ===== src/HybridCache/Ledger/Revised.antt =====
-- The table of key revisions (src/cache/hybridCache.ts) keeps the accounts of the cache.
use lazy_layers.Prelude.{
  ℕ, ◌+◌, ◌-◌, ◌≡◌, refl, subst, Bool, true, false, Option, some, List, ◌∷◌, ◌&&◌, ◌==◌, arith,
  if◌then◌else◌, if_lem, leb, Option-cases, Bool-cases, inl, inr,
}
use lazy_layers.Prelude.Maps.{find, sum-remove}
use lazy_layers.MemoryBudget.{Budget}
use lazy_layers.HybridCache.{
  CacheKey, key_Eq, key_metadata_bytes, metadata, max_auxiliary_map_bytes, reserve_in,
}
use lazy_layers.HybridCache.Revisions.{
  Revisions, KeyRevision, Guard, put_state, observe, find_state, create_state, refer, is_place,
  unregister_all, forget_all,
}
use lazy_layers.HybridCache.Revisions
use lazy_layers.HybridCache.Revisions.Invariant.{
  Inv, Finds, AllFind, count, entry_bytes, observe-Inv,
}
use lazy_layers.HybridCache.Revisions.Release.{release_key-Inv}
use lazy_layers.HybridCache.Core.{BusStatus, observe_key, release_key, guard_of}
use lazy_layers.HybridCache.State.{Cache}
use lazy_layers.HybridCache.Mutations.{begin_operation, end_operation}
use lazy_layers.HybridCache.Tables.Keepers.{Holds, release_metadata, reserve_metadata}
use lazy_layers.HybridCache.Ledger.{Accounts, Exacts}

module _ (m0 s0 others s : ℕ) where
  abbrev HeldBy : Option Budget × Revisions × ℕ → Type 0
  HeldBy (b, r, i) = Holds m0 s0 (r.table_bytes + others) s b

  create-HeldBy :
      (m : Bool) (k : CacheKey) (o : Option Budget × Bool) (r : Revisions)
      → Holds m0 s0 ((r.table_bytes + others) + (if o.1 then key_metadata_bytes k else 0)) s o.0
      → HeldBy (refer m (create_state k o r))
  unfolding refer create_state
  create-HeldBy m k (b, true) r h = subst (λ n. Holds m0 s0 n s b) (omega arith) h
  create-HeldBy m k (b, false) r h = subst (λ n. Holds m0 s0 n s b) (omega arith) h

  refused :
      (n m : ℕ) (b : Option Budget)
      → Holds m0 s0 m s b
      → Holds m0 s0 (m + (if false then n else 0)) s b
  refused n m b h = subst (λ n. Holds m0 s0 n s b) (omega arith) h

  observe-HeldBy :
      (k : CacheKey) (m : Bool) (b : Option Budget) (r : Revisions)
      → Holds m0 s0 (r.table_bytes + others) s b
      → HeldBy (observe k m b r)
  unfolding observe find_state refer
  observe-HeldBy k m b r h = elim (Option-cases (find k r.table)) [
    | inl e ↦ rw e (
        let n = key_metadata_bytes k in
        let P : Option Budget × Bool → Type 0 =
          λ o. Holds m0 s0 ((r.table_bytes + others) + (if o.1 then n else 0)) s o.0 in
        let o : Option Budget × Bool =
          if leb (r.table_bytes + n) max_auxiliary_map_bytes
          then reserve_in metadata n b
          else (b, false) in
        let held : P o =
          if_lem P (leb (r.table_bytes + n) max_auxiliary_map_bytes)
            (reserve_metadata m0 s0 (r.table_bytes + others) n s b h)
            (refused n (r.table_bytes + others) b h) in
        create-HeldBy m k o r held)
    | inr (i, e) ↦ rw e h
  ]

  abbrev HeldAfter : Option Budget × Revisions → Type 0
  HeldAfter (b, r) = Holds m0 s0 (r.table_bytes + others) s b

  release-HeldAfter :
      (g : Guard) (live : List Guard) (b : Option Budget) (r : Revisions)
      → Inv r live
      → Holds m0 s0 (r.table_bytes + others) s b
      → HeldAfter (Revisions.release_key g b r)
  unfolding Revisions.release_key
  release-HeldAfter g live b r v h =
      elim (Bool-cases
        (((r.states g.place).references - 1 == 0) && is_place g.place (find g.key r.table))) [
          | inl e ↦
              let here : find g.key r.table ≡ some g.place = ground (arith, e) in
              let own = v.entries g.key g.place here in
              let sum = sum-remove entry_bytes g.key g.place r.table here in
              let n = (r.states g.place).bytes in
              let before : r.table_bytes + others ≡ ((r.table_bytes - n) + others) + n =
                omega (arith, v.exact, sum, own.sized) in
              rw e (
                release_metadata m0 s0 ((r.table_bytes - n) + others) n s b
                  (subst (λ n. Holds m0 s0 n s b) before h))
          | inr e ↦ rw e h
        ]

-- The metadata of the cache other than that of the key revisions.
abbrev others_of : Cache → ℕ
others_of c =
    c.core.generation_bytes + c.negative.bytes + c.seen.bytes + c.inflight.bytes + c.follower_bytes

module _ (m0 s0 : ℕ) (c : Cache) (gs : List Guard) (v : Accounts m0 s0 c gs) where
  abbrev pub KeepsTaken : Cache × Guard → Type 0
  KeepsTaken (c', g) = Accounts m0 s0 c' (g ∷ gs)

  held_apart : Holds m0 s0 (c.core.revisions.table_bytes + others_of c) c.stale.bytes c.core.budget
  held_apart = subst (λ n. Holds m0 s0 n c.stale.bytes c.core.budget) (omega arith) v.held

  -- The counters do not depend on the rest of the core.
  pub same-Exacts :
      (b : Option Budget) (r : Revisions) (epoch revision : ℕ) (closed trusted saturated : Bool)
      (status : Option BusStatus)
      → Exacts (record c {
        core = record c.core {
          budget = b;
          revisions = r;
          epoch = epoch;
          invalidation_revision = revision;
          is_closed = closed;
          trusted = trusted;
          saturated = saturated;
          bus_status = status;
        };
      })
  same-Exacts b r epoch revision closed trusted saturated status = record {
    negative = v.exacts.negative;
    stale = v.exacts.stale;
    seen = v.exacts.seen;
    inflight = v.exacts.inflight;
    generations_unique = v.exacts.generations_unique;
    generations_exact = v.exacts.generations_exact;
    followers_exact = v.exacts.followers_exact;
  }

  revised-Exacts :
      (b : Option Budget) (r : Revisions)
      → Exacts (record c { core = record c.core { budget = b; revisions = r } })
  revised-Exacts b r =
      same-Exacts b r c.core.epoch c.core.invalidation_revision c.core.is_closed c.core.trusted
        c.core.saturated c.core.bus_status

  pub begin_operation-Keeps : (k : CacheKey) (m : Bool) → KeepsTaken (begin_operation k m c)
  unfolding begin_operation observe_key guard_of
  begin_operation-Keeps k m =
      let (b, r, i) = observe k m c.core.budget c.core.revisions in
      let held =
        observe-HeldBy m0 s0 (others_of c) c.stale.bytes k m c.core.budget c.core.revisions
          held_apart in
      record {
        exacts = revised-Exacts b r;
        revisions =
            observe-Inv m k c.core.budget gs c.core.revisions v.revisions (begin_operation k m c).1
              refl refl;
        held = subst (λ n. Holds m0 s0 n c.stale.bytes b) (omega arith) held;
      }

  -- The end of an operation, whose guard is one of those that are held.
  pub end_operation-Keeps :
      (g : Guard) (rest : List Guard)
      → Finds c.core.revisions g
      → AllFind c.core.revisions rest
      → ((i : ℕ) → count i gs ≡ count i (g ∷ rest))
      → Accounts m0 s0 (end_operation g c) rest
  unfolding end_operation release_key
  end_operation-Keeps g rest mine all splits =
      let (b, r) = Revisions.release_key g c.core.budget c.core.revisions in
      let held =
        release-HeldAfter m0 s0 (others_of c) c.stale.bytes g gs c.core.budget c.core.revisions
          v.revisions held_apart in
      record {
        exacts = revised-Exacts b r;
        revisions =
            release_key-Inv g rest gs c.core.revisions v.revisions splits all mine c.core.budget;
        held = subst (λ n. Holds m0 s0 n c.stale.bytes b) (omega arith) held;
      }
