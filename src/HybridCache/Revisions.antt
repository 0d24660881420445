-- ===== src/HybridCache/Revisions.antt =====
-- The revisions of keys in src/cache/hybridCache.ts: observeKey, releaseKey and isCurrent. A
-- KeyRevision is an object that guards share with the table, also when it has left the table, so the
-- objects stand in a store, by the order of their creation.
pub mod Invariant
pub mod Release
pub mod Forget
use lazy_layers.Prelude.{
  ℕ, suc, ◌+◌, ◌-◌, ◌≡◌, Bool, true, false, Option, none, some, [], ◌∷◌, ◌&&◌, ◌||◌, not, ◌==◌, leb,
  if◌then◌else◌,
}
use lazy_layers.Prelude.Maps.{Map, find, set_key, remove}
use lazy_layers.MemoryBudget.{Budget}
use lazy_layers.HybridCache.{
  CacheKey, key_Eq, key_metadata_bytes, max_auxiliary_map_bytes, metadata, reserve_in, release_in,
}

pub record KeyRevision : Type 0 where
  pub value : ℕ
  pub references : ℕ
  pub bytes : ℕ
  pub registered : Bool

-- The table `keyRevisions` maps a key to the place of its object in `states`.
pub record Revisions : Type 0 where
  pub table : Map CacheKey ℕ
  pub states : ℕ → KeyRevision
  pub next : ℕ
  pub table_bytes : ℕ

pub record Guard : Type 0 where
  pub key : CacheKey
  pub place : ℕ
  pub revision : ℕ
  pub epoch : ℕ
  pub storage_key : CacheKey

abbrev pub put_state : ℕ → KeyRevision → Revisions → Revisions
put_state i s r = record r { states = λ j. if j == i then s else r.states j }

-- The object of a key that is not in the table, with what the budget answers.
unfoldable pub create_state :
    CacheKey → Option Budget × Bool → Revisions → Option Budget × Revisions × ℕ
create_state k (b, registered) r =
    let s : KeyRevision = record {
      value = 0;
      references = 0;
      bytes = key_metadata_bytes k;
      registered = registered;
    } in
    let i = r.next in
    let r' : Revisions = put_state i s (record r { next = suc i }) in
    (
      b,
      (if registered
          then record r' {
            table = set_key k i r.table;
            table_bytes = r.table_bytes + key_metadata_bytes k;
          }
          else r'),
      i,
    )

unfoldable pub find_state :
    CacheKey → Option ℕ → Option Budget → Revisions → Option Budget × Revisions × ℕ
unfolding reserve_in create_state
find_state k (some i) b r = (b, r, i)
find_state k none b r =
    let n = key_metadata_bytes k in
    create_state k
      (if leb (r.table_bytes + n) max_auxiliary_map_bytes
        then reserve_in metadata n b
        else (b, false))
      r

-- `state.references += 1; if (mutate) state.value += 1`
unfoldable pub refer : Bool → Option Budget × Revisions × ℕ → Option Budget × Revisions × ℕ
refer mutate (b, r, i) =
    let s = r.states i in
    let value = if mutate then suc s.value else s.value in
    (b, put_state i (record s { references = suc s.references; value = value }) r, i)

unfoldable pub observe : CacheKey → Bool → Option Budget → Revisions → Option Budget × Revisions × ℕ
unfolding find_state refer
observe k mutate b r = refer mutate (find_state k (find k r.table) b r)

-- `this.keyRevisions.get(guard.key) === guard.state`
abbrev pub is_place : ℕ → Option ℕ → Bool
is_place i none = false
is_place i (some j) = j == i

-- Each guard refers to its object once, so that the subtraction never stops at 0.
unfoldable pub release_key : Guard → Option Budget → Revisions → Option Budget × Revisions
unfolding release_in
release_key g b r =
    let s = r.states g.place in
    let s' : KeyRevision = record s { references = s.references - 1 } in
    if (s.references - 1 == 0) && is_place g.place (find g.key r.table)
    then (
      release_in metadata s.bytes b,
      put_state g.place (record s' { registered = false })
          (record r { table = remove g.key r.table; table_bytes = r.table_bytes - s.bytes }),
    )
    else (b, put_state g.place s' r)

-- `for (const state of this.keyRevisions.values()) state.registered = false`
unfoldable pub unregister_all : Map CacheKey ℕ → (ℕ → KeyRevision) → ℕ → KeyRevision
unregister_all [] states = states
unregister_all ((k, i) ∷ m) states =
    unregister_all m (λ j. if j == i then record (states j) { registered = false } else states j)

-- The table at the end of the cache.
unfoldable pub forget_all : Revisions → Revisions
unfolding unregister_all
forget_all r = record r { table = []; states = unregister_all r.table r.states; table_bytes = 0 }
