-- ===== src/HybridCache/Tables/Limits.antt =====
-- A table of HybridCache (src/cache/hybridCache.ts) that makes room before it takes an entry stays
-- within its limits.
use lazy_layers.Prelude.{
  ℕ, suc, ◌+◌, ◌≡◌, ◌≤◌, Bool, false, none, [], ◌∷◌, arith, length, Text, Option-cases, inl, inr,
  if_lem, ap, zero, sum_by,
}
use lazy_layers.Prelude.Maps.{Eq, Map, find, IsUnique}
use lazy_layers.HybridCache.Tables.{
  Table, Account, drop, admit_entry, oldest, evict_rounds, evict_while,
}
use lazy_layers.HybridCache.Tables.Accounts.{
  Keeper, Exact, evict_while-Agrees, drop-Agrees, find-drop,
}
use lazy_layers.HybridCache.Tables.Absent.{evict_while-Absent}
use lazy_layers.HybridCache.Tables.Bounds.{
  evict_while-Stops, Stops, length-admit_entry, bytes-admit_entry,
}

module _ {K V : Type 0} ⦃e : Eq K⦄ (category : Text) (bytes_of : K × V → ℕ) where
  -- No demand on the budget.
  abbrev indifferent : Keeper category
  indifferent = record { holds = λ n b. Unit; released = λ m n b h. tt; reserved = λ m n b h. tt }

  pub evict_while-Exact :
      (too_much : Table K V → Bool) (a : Account category bytes_of)
      → Exact category bytes_of a.1
      → Exact category bytes_of (evict_while category bytes_of too_much a).1
  evict_while-Exact too_much a h =
      (evict_while-Agrees category bytes_of indifferent too_much a (h, tt)).0

  pub drop-Exact :
      (k : K) (a : Account category bytes_of)
      → Exact category bytes_of a.1
      → Exact category bytes_of (drop category bytes_of k a).1
  drop-Exact k a h = (drop-Agrees category bytes_of indifferent k a (h, tt)).0

  pub find-evict_while :
      (k : K) (too_much : Table K V → Bool) (a : Account category bytes_of)
      → IsUnique a.1.entries
      → find k (evict_while category bytes_of too_much (drop category bytes_of k a)).1.entries
        ≡ none
  find-evict_while k too_much a u =
      evict_while-Absent category bytes_of k too_much (drop category bytes_of k a)
        (find-drop category bytes_of k a u)

  pub bytes-drop :
      (k : K) (a : Account category bytes_of) → (drop category bytes_of k a).1.bytes ≤ a.1.bytes
  unfolding drop
  bytes-drop k (b, t) = elim (Option-cases (find k t.entries)) [
    | inl n ↦ rw n (omega arith)
    | inr (v, f) ↦ rw f (omega arith)
  ]

  bytes-oldest :
      (m : Map K V) (a : Account category bytes_of)
      → (oldest category bytes_of m a).1.bytes ≤ a.1.bytes
  bytes-oldest [] a = omega arith
  bytes-oldest ((k, v) ∷ m) a = bytes-drop k a

  abbrev Weighs : ℕ → Account category bytes_of → Type 0
  Weighs n (b, t) = t.bytes ≤ n

  bytes-rounds :
      (too_much : Table K V → Bool) (n l : ℕ) (a : Account category bytes_of)
      → a.1.bytes ≤ l
      → Weighs l (evict_rounds category bytes_of too_much n a)
  unfolding evict_rounds
  bytes-rounds too_much zero l a h = h
  bytes-rounds too_much (suc n) l (b, t) h =
      if_lem (Weighs l) (too_much t)
        (bytes-rounds too_much n l (oldest category bytes_of t.entries (b, t))
          (omega (arith, bytes-oldest t.entries (b, t), h)))
        h

  pub bytes-evict_while :
      (too_much : Table K V → Bool) (a : Account category bytes_of)
      → (evict_while category bytes_of too_much a).1.bytes ≤ a.1.bytes
  unfolding evict_while
  bytes-evict_while too_much (b, t) =
      bytes-rounds too_much (length t.entries) t.bytes (b, t) (omega arith)

  -- What is left when the loop has stopped has room for n bytes more, if an empty table has.
  room_for_bytes :
      (n limit : ℕ) (too_much : Table K V → Bool) (a : Account category bytes_of)
      → n ≤ limit
      → ((t : Table K V) → too_much t ≡ false → t.bytes + n ≤ limit)
      → Exact category bytes_of a.1
      → Stops category bytes_of too_much a
      → a.1.bytes + n ≤ limit
  room_for_bytes n limit too_much (b, t) fits room x (inl h) = room t h
  room_for_bytes n limit too_much (b, t) fits room x (inr h) =
      let nothing : t.bytes ≡ 0 = rw x.exact (ap (sum_by bytes_of) h) in
      omega (arith, nothing, fits)

  pub bytes-admit_evicted :
      (k : K) (v : V) (limit : ℕ) (too_much : Table K V → Bool) (a : Account category bytes_of)
      → bytes_of (k, v) ≤ limit
      → ((t : Table K V) → too_much t ≡ false → t.bytes + bytes_of (k, v) ≤ limit)
      → Exact category bytes_of a.1
      → (admit_entry category bytes_of k v (evict_while category bytes_of too_much a)).1.bytes
        ≤ limit
  bytes-admit_evicted k v limit too_much a fits room x =
      let a' = evict_while category bytes_of too_much a in
      omega (
        arith,
        bytes-admit_entry category bytes_of k v a',
        room_for_bytes (bytes_of (k, v)) limit too_much a' fits room
            (evict_while-Exact too_much a x) (evict_while-Stops category bytes_of too_much a),
      )

  room_for_one :
      (limit : ℕ) (too_much : Table K V → Bool) (a : Account category bytes_of)
      → 1 ≤ limit
      → ((t : Table K V) → too_much t ≡ false → suc (length t.entries) ≤ limit)
      → Stops category bytes_of too_much a
      → suc (length a.1.entries) ≤ limit
  room_for_one limit too_much (b, t) some_room room (inl h) = room t h
  room_for_one limit too_much (b, t) some_room room (inr h) = omega (arith, some_room, ap length h)

  pub length-admit_evicted :
      (k : K) (v : V) (limit : ℕ) (too_much : Table K V → Bool) (a : Account category bytes_of)
      → 1 ≤ limit
      → ((t : Table K V) → too_much t ≡ false → suc (length t.entries) ≤ limit)
      → find k (evict_while category bytes_of too_much a).1.entries ≡ none
      → length
          (admit_entry category bytes_of k v (evict_while category bytes_of too_much a)).1.entries
        ≤ limit
  length-admit_evicted k v limit too_much a some_room room absent =
      let a' = evict_while category bytes_of too_much a in
      omega (
        arith,
        length-admit_entry category bytes_of k v a' absent,
        room_for_one limit too_much a' some_room room
            (evict_while-Stops category bytes_of too_much a),
      )
