-- ===== src/HybridCache/Revisions/Release.antt =====
-- A guard that is released: its reference is given back, and the last one takes the key out of the
-- table (src/cache/hybridCache.ts, releaseKey).
use lazy_layers.Prelude.{
  ℕ, ◌-◌, ◌≡◌, ◌≢◌, subst, ◌∙◌, ◌<◌, sym, Bool, true, false, Option, some, List, ◌∷◌, ◌&&◌, ◌==◌,
  arith, Bool-cases, inl, inr,
}
use lazy_layers.Prelude.Maps.{
  find, remove, find-remove, find-remove_other, sum-remove, remove-IsUnique,
}
use lazy_layers.MemoryBudget.{Budget}
use lazy_layers.HybridCache.{CacheKey, key_Eq}
use lazy_layers.HybridCache.Revisions.{Revisions, Guard, put_state, is_place, release_key}
use lazy_layers.HybridCache.Revisions.Invariant.{
  Inv, Entry, Finds, AllFind, count, map_AllFind, entry_bytes,
}

module _ (g : Guard) (gs live : List Guard) (r : Revisions) (v : Inv r live)
    (splits : (i : ℕ) → count i live ≡ count i (g ∷ gs)) (rest : AllFind r gs) (mine : Finds r g)
    (b : Option Budget) where
  abbrev last : Bool
  last = ((r.states g.place).references - 1 == 0) && is_place g.place (find g.key r.table)

  abbrev kept : Revisions
  kept =
      put_state g.place
        (record (r.states g.place) { references = (r.states g.place).references - 1 }) r

  abbrev gone : Revisions
  gone =
      put_state g.place
        (record (r.states g.place) {
          references = (r.states g.place).references - 1;
          registered = false;
        })
        (record r {
          table = remove g.key r.table;
          table_bytes = r.table_bytes - (r.states g.place).bytes;
        })

  still :
      (k : CacheKey) (i : ℕ)
      → find k r.table ≡ some i
      → last ≡ false
      → 0 < (kept.states i).references
  still k i f e = elim (Bool-cases (i == g.place)) [
    | inl t ↦
        let same : i ≡ g.place = ground arith in
        let known =
          mine.finds
            (subst (λ i. (r.states i).registered ≡ true) same (v.entries k i f).registered) in
        rw t (ground (arith, known, same, e))
    | inr t ↦ rw t (v.entries k i f).referred
  ]

  kept-Entry : (k : CacheKey) (i : ℕ) → last ≡ false → find k r.table ≡ some i → Entry kept k i
  kept-Entry k i e f =
      let w = v.entries k i f in
      record {
        created = w.created;
        registered = ground (arith, w.registered);
        sized = ground (arith, w.sized);
        referred = still k i f e;
      }

  kept-Inv : last ≡ false → Inv kept gs
  kept-Inv e = record {
    entries = λ k i f. kept-Entry k i e f;
    injective = v.injective;
    counted = λ i l. ground (arith, v.counted i l, splits i);
    guards =
        map_AllFind r kept gs
          (λ g' w. record { created = w.created; finds = λ t. w.finds (ground (arith, t)) }) rest;
    unique = v.unique;
    exact = v.exact;
    bounded = v.bounded;
  }

  module _ (here : find g.key r.table ≡ some g.place) where
    survives :
        (k : CacheKey) (i : ℕ)
        → find k (remove g.key r.table) ≡ some i
        → (k ≢ g.key) × (find k r.table ≡ some i)
    survives k i f =
        let apart : k ≢ g.key = λ s. ground (
          arith,
          subst (λ k. find k (remove g.key r.table) ≡ some i) s f,
          find-remove g.key r.table v.unique,
        ) in
        (apart, sym (find-remove_other k g.key r.table apart) ∙ f)

    gone-Entry : (k : CacheKey) (i : ℕ) → find k gone.table ≡ some i → Entry gone k i
    gone-Entry k i f =
        let (apart, old) = survives k i f in
        let w = v.entries k i old in
        let away : i ≢ g.place = λ s.
          apart (v.injective k g.key g.place (subst (λ i. find k r.table ≡ some i) s old) here) in
        record {
          created = w.created;
          registered = ground (arith, away, w.registered);
          sized = ground (arith, away, w.sized);
          referred = ground (arith, away, w.referred);
        }

    gone-Finds : (g' : Guard) → Finds r g' → Finds gone g'
    gone-Finds g' w = record {
      created = w.created;
      finds = λ t.
          let away : g'.place ≢ g.place = ground (arith, t) in
          let old : find g'.key r.table ≡ some g'.place = w.finds (ground (arith, t, away)) in
          let apart : g'.key ≢ g.key =
            λ s. ground (arith, away, here, subst (λ k. find k r.table ≡ some g'.place) s old) in
          find-remove_other g'.key g.key r.table apart ∙ old;
    }

    gone-Inv : Inv gone gs
    gone-Inv =
        let own = v.entries g.key g.place here in
        record {
          entries = gone-Entry;
          injective = λ j k i f f'. v.injective j k i (survives j i f).1 (survives k i f').1;
          counted = λ i l. ground (arith, v.counted i l, splits i);
          guards = map_AllFind r gone gs gone-Finds rest;
          unique = remove-IsUnique g.key r.table v.unique;
          exact =
              omega (arith, v.exact, own.sized, sum-remove entry_bytes g.key g.place r.table here);
          bounded = omega (arith, v.bounded);
        }

  pub release_key-Inv : Inv (release_key g b r).1 gs
  unfolding release_key
  release_key-Inv = elim (Bool-cases last) [
    | inl e ↦ rw e (gone-Inv (ground (arith, e)))
    | inr e ↦ rw e (kept-Inv e)
  ]
