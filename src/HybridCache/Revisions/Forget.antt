-- ===== src/HybridCache/Revisions/Forget.antt =====
-- The table of key revisions at the end of the cache (src/cache/hybridCache.ts, closeResources).
use lazy_layers.Prelude.{
  ℕ, ◌≡◌, refl, ◌∙◌, true, false, some, List, [], ◌∷◌, ◌==◌, arith, if◌then◌else◌, Bool-cases, inl,
  inr,
}
use lazy_layers.Prelude.Maps.{Map, find, IsUnique}
use lazy_layers.HybridCache.{CacheKey, key_Eq, key_eq}
use lazy_layers.HybridCache.Revisions.{Revisions, KeyRevision, Guard, unregister_all, forget_all}
use lazy_layers.HybridCache.Revisions.Invariant.{Inv, map_AllFind}

-- What the loop leaves of an object: its value and its references, and it is registered only if it was.
pub unregister_keeps :
    (m : Map CacheKey ℕ) (st : ℕ → KeyRevision) (i : ℕ)
    → let s = unregister_all m st i in
      (s.value ≡ (st i).value)
      × (s.references ≡ (st i).references)
      × (s.registered ≡ true → (st i).registered ≡ true)
unfolding unregister_all
unregister_keeps [] st i = (refl, refl, λ h. h)
unregister_keeps ((k, j) ∷ m) st i =
    let st' : ℕ → KeyRevision =
      λ l. if l == j then record (st l) { registered = false } else st l in
    let (v, r, g) = unregister_keeps m st' i in
    (v ∙ ground arith, r ∙ ground arith, λ h. ground (arith, g h))

found_gone :
    (k : CacheKey) (i : ℕ) (m : Map CacheKey ℕ) (st : ℕ → KeyRevision)
    → find k m ≡ some i
    → (unregister_all m st i).registered ≡ false
unfolding unregister_all find
found_gone k i [] st h = ground arith
found_gone k i ((j, l) ∷ m) st h =
    let st' : ℕ → KeyRevision =
      λ n. if n == l then record (st n) { registered = false } else st n in
    elim (Bool-cases (key_eq j k)) [
      | inl t ↦
          let same : l ≡ i = ground (arith, t) in ground (arith, (unregister_keeps m st' i).2, same)
      | inr t ↦ found_gone k i m st' (ground (arith, t))
    ]

pub forget_all-Inv : (r : Revisions) (gs : List Guard) → Inv r gs → Inv (forget_all r) gs
unfolding forget_all find IsUnique
forget_all-Inv r gs v = record {
  entries = λ k i e. ground arith;
  injective = λ j k i e e'. ground arith;
  counted = λ i l. (unregister_keeps r.table r.states i).1 ∙ v.counted i l;
  guards =
      map_AllFind r (forget_all r) gs
        (λ g w. record {
          created = w.created;
          finds = λ t.
              let was = (unregister_keeps r.table r.states g.place).2 t in
              absurd (ground (arith, t, found_gone g.key g.place r.table r.states (w.finds was)));
        })
        v.guards;
  unique = tt;
  exact = refl;
  bounded = ground arith;
}
