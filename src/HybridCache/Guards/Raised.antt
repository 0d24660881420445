-- ===== src/HybridCache/Guards/Raised.antt =====
-- What becomes of the revision that a guard refers to (src/cache/hybridCache.ts): observeKey raises
-- it for a mutation of its key, releaseKey leaves it alone.
use lazy_layers.Prelude.{
  ℕ, suc, ◌+◌, ◌-◌, ◌≡◌, ◌≢◌, ◌<◌, sym, subst, ◌∙◌, Bool, true, false, Option, none, some, List,
  ◌∷◌, ◌&&◌, ◌==◌, leb, if◌then◌else◌, arith, Bool-cases, Option-cases, inl, inr, if_lem,
}
use lazy_layers.Prelude.Maps.{find}
use lazy_layers.MemoryBudget.{Budget}
use lazy_layers.HybridCache.{
  CacheKey, key_Eq, key_eq, key_eq_iff, key_metadata_bytes, reserve_in, metadata,
  max_auxiliary_map_bytes,
}
use lazy_layers.HybridCache.Revisions.{
  Revisions, KeyRevision, Guard, put_state, observe, find_state, create_state, refer, is_place,
}
use lazy_layers.HybridCache.Revisions
use lazy_layers.HybridCache.Revisions.Invariant.{Inv, Finds, AllFind, count}

pub permute-Inv :
    (r : Revisions) (gs gs' : List Guard)
    → Inv r gs
    → ((i : ℕ) → count i gs ≡ count i gs')
    → AllFind r gs'
    → Inv r gs'
permute-Inv r gs gs' v h a = record {
  entries = v.entries;
  injective = v.injective;
  counted = λ i l. v.counted i l ∙ h i;
  guards = a;
  unique = v.unique;
  exact = v.exact;
  bounded = v.bounded;
}

-- What becomes of the object of a guard when some operation observes k: a mutation of its own key
-- raises its value, as long as the object is in the table.
abbrev pub Raised : Bool → KeyRevision → KeyRevision → Type 0
Raised hit s s' =
    (s'.registered ≡ s.registered)
    × (s.registered ≡ true → s'.value ≡ (if hit then suc s.value else s.value))

abbrev pub RaisedAt : ℕ → Bool → Revisions → Option Budget × Revisions × ℕ → Type 0
RaisedAt p hit r (b, r', i) = Raised hit (r.states p) (r'.states p)

create-Raised :
    (g : Guard) (m : Bool) (k : CacheKey) (o : Option Budget × Bool) (r : Revisions)
    → Finds r g
    → find k r.table ≡ none
    → RaisedAt g.place (m && key_eq k g.key) r (refer m (create_state k o r))
unfolding refer create_state
create-Raised g m k (b, true) r v e =
    (ground (arith, v.created), λ t. ground (arith, v.created, v.finds t, key_eq_iff k g.key, e))
create-Raised g m k (b, false) r v e =
    (ground (arith, v.created), λ t. ground (arith, v.created, v.finds t, key_eq_iff k g.key, e))

again-Raised :
    (g : Guard) (gs : List Guard) (m : Bool) (k : CacheKey) (i : ℕ) (b : Option Budget)
    (r : Revisions)
    → Inv r (g ∷ gs)
    → find k r.table ≡ some i
    → RaisedAt g.place (m && key_eq k g.key) r (refer m (b, r, i))
unfolding refer
again-Raised g gs m k i b r v e = elim (Bool-cases (g.place == i)) [
  | inl t ↦
      let same : i ≡ g.place = ground arith in
      let mine : find k r.table ≡ some g.place = subst (λ i. find k r.table ≡ some i) same e in
      let own = v.entries k g.place mine in
      let hit : key_eq k g.key ≡ true =
        (key_eq_iff k g.key).1
          (v.injective k g.key g.place mine (v.guards.0.finds own.registered)) in
      subst (λ i. RaisedAt g.place (m && key_eq k g.key) r (refer m (b, r, i))) (sym same)
        (ground (arith, hit))
  | inr t ↦ (
    ground arith,
    λ u.
        let found = v.guards.0.finds u in
        let apart : k ≢ g.key =
          λ s. ground (arith, t, subst (λ k. find k r.table ≡ some i) s e, found) in
        let miss : key_eq k g.key ≡ false = ground (arith, key_eq_iff k g.key) in
        rw (t, miss) (ground arith),
  )
]

pub observe-Raised :
    (g : Guard) (gs : List Guard) (m : Bool) (k : CacheKey) (b : Option Budget) (r : Revisions)
    → Inv r (g ∷ gs)
    → RaisedAt g.place (m && key_eq k g.key) r (observe k m b r)
unfolding observe find_state
observe-Raised g gs m k b r v = elim (Option-cases (find k r.table)) [
  | inl e ↦ rw e (
      let n = key_metadata_bytes k in
      let o : Option Budget × Bool =
        if leb (r.table_bytes + n) max_auxiliary_map_bytes
        then reserve_in metadata n b
        else (b, false) in
      create-Raised g m k o r v.guards.0 e)
  | inr (i, e) ↦ rw e (again-Raised g gs m k i b r v e)
]

-- What becomes of it when another guard is released.
pub release-Raised :
    (g g' : Guard) (gs live : List Guard) (b : Option Budget) (r : Revisions)
    → g.place < r.next
    → Inv r live
    → ((i : ℕ) → count i live ≡ count i (g' ∷ g ∷ gs))
    → Raised false (r.states g.place) ((Revisions.release_key g' b r).1.states g.place)
unfolding Revisions.release_key
release-Raised g g' gs live b r l v h =
    let refs = v.counted g.place l ∙ h g.place in
    elim (Bool-cases (g.place == g'.place)) [
      | inl t ↦
          let same : g'.place ≡ g.place = ground arith in
          let more : ((r.states g'.place).references - 1 == 0) ≡ false =
            rw same (ground (arith, refs)) in
          rw more (ground (arith, same))
      | inr t ↦
          if_lem
            (λ (r' : Option Budget × Revisions).
              Raised false (r.states g.place) (r'.1.states g.place))
            (((r.states g'.place).references - 1 == 0) && is_place g'.place (find g'.key r.table))
            (ground arith) (ground arith)
    ]
