-- ===== src/HybridCache/Revisions/Invariant.antt =====
-- What holds of the table of key revisions (src/cache/hybridCache.ts) between two calls, for the
-- guards that are outstanding.
use lazy_layers.Prelude.{
  ℕ, ◌+◌, ◌≡◌, ◌≢◌, subst, ◌∙◌, ◌⊎◌, ◌≤◌, ◌<◌, refl, sym, Bool, true, false, Option, none, some,
  List, [], ◌∷◌, ◌==◌, leb, if◌then◌else◌, arith, sum_by, Bool-cases, Option-cases, inl, inr,
}
use lazy_layers.Prelude.Maps.{
  find, set_key, IsUnique, find-set_key, find-set_key_other, sum-set_key_new, set_key-IsUnique,
}
use lazy_layers.MemoryBudget.{Budget}
use lazy_layers.HybridCache.{
  CacheKey, key_Eq, key_eq, key_eq_iff, key_metadata_bytes, max_auxiliary_map_bytes, metadata,
  reserve_in,
}
use lazy_layers.HybridCache.Revisions.{Revisions, Guard, create_state, find_state, refer, observe}

-- How many of the guards refer to the object at `i`.
abbrev pub count : ℕ → List Guard → ℕ
count i gs = sum_by (λ (g : Guard). if g.place == i then 1 else 0) gs

abbrev pub entry_bytes : CacheKey × ℕ → ℕ
entry_bytes e = key_metadata_bytes e.0

-- The object in the table is that of its key, and is referred to.
pub record Entry (r : Revisions) (k : CacheKey) (i : ℕ) : Type 0 where
  pub created : i < r.next
  pub registered : (r.states i).registered ≡ true
  pub sized : (r.states i).bytes ≡ key_metadata_bytes k
  pub referred : 0 < (r.states i).references

-- As long as its object is registered, a guard finds it under its key.
pub record Finds (r : Revisions) (g : Guard) : Type 0 where
  pub created : g.place < r.next
  pub finds : (r.states g.place).registered ≡ true → find g.key r.table ≡ some g.place

abbrev pub AllFind : Revisions → List Guard → Type 0
AllFind r [] = Unit
AllFind r (g ∷ gs) = Finds r g × AllFind r gs

pub record Inv (r : Revisions) (gs : List Guard) : Type 0 where
  pub entries : (k : CacheKey) (i : ℕ) → find k r.table ≡ some i → Entry r k i
  pub injective :
      (j k : CacheKey) (i : ℕ) → find j r.table ≡ some i → find k r.table ≡ some i → j ≡ k
  pub counted : (i : ℕ) → i < r.next → (r.states i).references ≡ count i gs
  pub guards : AllFind r gs
  pub unique : IsUnique r.table
  pub exact : r.table_bytes ≡ sum_by entry_bytes r.table
  pub bounded : r.table_bytes ≤ max_auxiliary_map_bytes

pub map_AllFind :
    (r r' : Revisions) (gs : List Guard)
    → ((g : Guard) → Finds r g → Finds r' g)
    → AllFind r gs
    → AllFind r' gs
map_AllFind r r' [] f h = tt
map_AllFind r r' (g ∷ gs) f h = (f g h.0, map_AllFind r r' gs f h.1)

fresh_place : (r : Revisions) (gs : List Guard) (i : ℕ) → r.next ≤ i → AllFind r gs → count i gs ≡ 0
fresh_place r [] i h a = refl
fresh_place r (g ∷ gs) i h a = ground (arith, a.0.created, fresh_place r gs i h a.1)

-- A key whose object exists: one more reference.
again-Entry :
    (r : Revisions) (m : Bool) (i j : ℕ) (k : CacheKey)
    → Entry r k j
    → Entry (refer m (none, r, i)).1 k j
unfolding refer
again-Entry r m i j k v = record {
  created = v.created;
  registered = ground (arith, v.registered);
  sized = ground (arith, v.sized);
  referred = ground (arith, v.referred);
}

again-Finds :
    (r : Revisions) (m : Bool) (i : ℕ) (g : Guard) → Finds r g → Finds (refer m (none, r, i)).1 g
unfolding refer
again-Finds r m i g v = record { created = v.created; finds = λ e. v.finds (ground arith) }

again-Inv :
    (m : Bool) (g : Guard) (gs : List Guard) (r : Revisions)
    → find g.key r.table ≡ some g.place
    → Inv r gs
    → Inv (refer m (none, r, g.place)).1 (g ∷ gs)
unfolding refer
again-Inv m g gs r h v =
    let own = v.entries g.key g.place h in
    record {
      entries = λ k j e. again-Entry r m g.place j k (v.entries k j e);
      injective = v.injective;
      counted = λ j l. ground (arith, v.counted j l, v.counted g.place own.created);
      guards = (
        record { created = own.created; finds = λ e. h },
        map_AllFind r (refer m (none, r, g.place)).1 gs (again-Finds r m g.place) v.guards,
      );
      unique = v.unique;
      exact = v.exact;
      bounded = v.bounded;
    }

module _ (m : Bool) (g : Guard) (gs : List Guard) (r : Revisions) (v : Inv r gs)
    (fresh : g.place ≡ r.next) (missing : find g.key r.table ≡ none) where
  -- The object that `create_state` makes, and the reference to it.
  abbrev created_in : Bool → Revisions
  created_in registered = (refer m (create_state g.key (none, registered) r)).1

  created-Finds : (b : Bool) (g' : Guard) → Finds r g' → Finds (created_in b) g'
  unfolding refer create_state
  created-Finds true g' w = record {
    created = ground (arith, w.created);
    finds = λ e.
        let old : find g'.key r.table ≡ some g'.place = w.finds (ground (arith, w.created)) in
        let apart : g'.key ≢ g.key =
          λ s. ground (arith, subst (λ k. find k r.table ≡ some g'.place) s old, missing) in
        find-set_key_other g'.key g.key r.next r.table apart ∙ old;
  }
  created-Finds false g' w = record {
    created = ground (arith, w.created);
    finds = λ e. w.finds (ground (arith, w.created));
  }

  unregistered-Inv : Inv (created_in false) (g ∷ gs)
  unfolding refer create_state
  unregistered-Inv = record {
    entries = λ k j e.
        let w = v.entries k j e in
        record {
          created = ground (arith, w.created);
          registered = ground (arith, w.created, w.registered);
          sized = ground (arith, w.created, w.sized);
          referred = ground (arith, w.created, w.referred);
        };
    injective = v.injective;
    counted = λ j l. ground (arith, fresh, v.counted j, fresh_place r gs r.next, v.guards);
    guards = (
      record { created = ground (arith, fresh); finds = λ e. ground (arith, fresh, e) },
      map_AllFind r (created_in false) gs (created-Finds false) v.guards,
    );
    unique = v.unique;
    exact = v.exact;
    bounded = v.bounded;
  }

  -- A key of the new table: the new one, or an old one at an older place.
  new_entry :
      (k : CacheKey) (i : ℕ)
      → find k (set_key g.key r.next r.table) ≡ some i
      → ((k ≡ g.key) × (i ≡ r.next)) ⊎ ((k ≢ g.key) × (find k r.table ≡ some i))
  new_entry k i e = elim (Bool-cases (key_eq k g.key)) [
    | inl s ↦
        let same : k ≡ g.key = (key_eq_iff k g.key).0 s in
        inl (
          same,
          ground (
            arith,
            subst (λ k. find k (set_key g.key r.next r.table) ≡ some i) same e,
            find-set_key g.key r.next r.table,
          ),
        )
    | inr s ↦
        let apart : k ≢ g.key = ground (arith, key_eq_iff k g.key) in
        inr (apart, sym (find-set_key_other k g.key r.next r.table apart) ∙ e)
  ]

  registered-Entry :
      (k : CacheKey) (i : ℕ) → find k (created_in true).table ≡ some i → Entry (created_in true) k i
  unfolding refer create_state
  registered-Entry k i e = elim (new_entry k i e) [
    | inl (s, t) ↦ record {
      created = ground (arith, t);
      registered = ground (arith, t);
      sized = rw s (ground (arith, t));
      referred = ground (arith, t);
    }
    | inr (s, old) ↦
        let w = v.entries k i old in
        record {
          created = ground (arith, w.created);
          registered = ground (arith, w.created, w.registered);
          sized = ground (arith, w.created, w.sized);
          referred = ground (arith, w.created, w.referred);
        }
  ]

  registered-injective :
      (j k : CacheKey) (i : ℕ)
      → find j (created_in true).table ≡ some i
      → find k (created_in true).table ≡ some i
      → j ≡ k
  unfolding refer create_state
  registered-injective j k i e e' = elim (new_entry j i e) [
    | inl (s, t) ↦ elim (new_entry k i e') [
      | inl (s', t') ↦ s ∙ sym s'
      | inr (s', old) ↦ absurd (ground (arith, t, (v.entries k i old).created))
    ]
    | inr (s, old) ↦ elim (new_entry k i e') [
      | inl (s', t') ↦ absurd (ground (arith, t', (v.entries j i old).created))
      | inr (s', old') ↦ v.injective j k i old old'
    ]
  ]

  registered-Inv :
      r.table_bytes + key_metadata_bytes g.key ≤ max_auxiliary_map_bytes
      → Inv (created_in true) (g ∷ gs)
  unfolding refer create_state
  registered-Inv l = record {
    entries = registered-Entry;
    injective = registered-injective;
    counted = λ j l. ground (arith, fresh, v.counted j, fresh_place r gs r.next, v.guards);
    guards = (
      record {
        created = ground (arith, fresh);
        finds = λ e. rw fresh (find-set_key g.key r.next r.table);
      },
      map_AllFind r (created_in true) gs (created-Finds true) v.guards,
    );
    unique = set_key-IsUnique g.key r.next r.table v.unique;
    exact = omega (arith, v.exact, sum-set_key_new entry_bytes g.key r.next r.table missing);
    bounded = l;
  }

-- What `observe` leaves, for the guard that it is for.
abbrev ObservedInv : CacheKey → List Guard → Option Budget × Revisions × ℕ → Type 0
ObservedInv k gs (b, r, i) = (g : Guard) → g.key ≡ k → g.place ≡ i → Inv r (g ∷ gs)

created-Inv :
    (m : Bool) (k : CacheKey) (gs : List Guard) (r : Revisions) (o : Option Budget × Bool)
    → Inv r gs
    → find k r.table ≡ none
    → (o.1 ≡ true → r.table_bytes + key_metadata_bytes k ≤ max_auxiliary_map_bytes)
    → ObservedInv k gs (refer m (create_state k o r))
unfolding create_state refer
created-Inv m k gs r (b, true) v e l g s t =
    let e' : find g.key r.table ≡ none = rw s e in
    let l' : r.table_bytes + key_metadata_bytes g.key ≤ max_auxiliary_map_bytes = rw s (l refl) in
    subst (λ k. Inv (refer m (create_state k (b, true) r)).1 (g ∷ gs)) s
      (registered-Inv m g gs r v t e' l')
created-Inv m k gs r (b, false) v e l g s t =
    subst (λ k. Inv (refer m (create_state k (b, false) r)).1 (g ∷ gs)) s
      (unregistered-Inv m g gs r v t (rw s e))

pub observe-Inv :
    (m : Bool) (k : CacheKey) (b : Option Budget) (gs : List Guard) (r : Revisions)
    → Inv r gs
    → ObservedInv k gs (observe k m b r)
unfolding observe find_state
observe-Inv m k b gs r v = elim (Option-cases (find k r.table)) [
  | inl e ↦ rw e (
      let n = key_metadata_bytes k in
      let o : Option Budget × Bool =
        if leb (r.table_bytes + n) max_auxiliary_map_bytes
        then reserve_in metadata n b
        else (b, false) in
      created-Inv m k gs r o v e (ground arith))
  | inr (i, e) ↦ rw e (λ g s t.
      subst (λ i. Inv (refer m (none, r, i)).1 (g ∷ gs)) t (again-Inv m g gs r (ground arith) v))
]
