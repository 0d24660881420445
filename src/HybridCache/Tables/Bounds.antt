-- ===== src/HybridCache/Tables/Bounds.antt =====
-- The loops that make room in a table of HybridCache (src/cache/hybridCache.ts) end with room.
use lazy_layers.Prelude.{
  ℕ, zero, suc, ◌+◌, ◌≡◌, ◌≤◌, refl, subst, sym, Bool, true, false, Option, none, some, [], ◌∷◌,
  arith, length, Text, Option-cases, inl, inr, if_lem, if_cases, ap, ◌⊎◌,
}
use lazy_layers.Prelude.Maps.{Eq, Map, find, length-remove, length-set_key_new}
use lazy_layers.HybridCache.Tables.{
  Table, Account, drop, admit_entry, put_admitted, oldest, evict_rounds, evict_while,
}
use lazy_layers.HybridCache.{reserve_in}
use lazy_layers.MemoryBudget.{Budget}

module _ {K V : Type 0} ⦃e : Eq K⦄ (category : Text) (bytes_of : K × V → ℕ) where
  oldest_shrinks :
      (k : K) (v : V) (m : Map K V) (b : Option Budget) (t : Table K V)
      → t.entries ≡ (k, v) ∷ m
      → suc (length (drop category bytes_of k (b, t)).1.entries) ≡ length t.entries
  unfolding drop
  oldest_shrinks k v m b t h =
      let first : find k t.entries ≡ some v =
        rw h (unfold find in rw ((e.beq_iff k k).1 refl) refl) in
      rw first (length-remove k v t.entries first)

  abbrev pub Stops : (Table K V → Bool) → Account category bytes_of → Type 0
  Stops too_much (b, t) = (too_much t ≡ false) ⊎ (t.entries ≡ [])

  rounds_empty :
      (too_much : Table K V → Bool) (n : ℕ) (b : Option Budget) (t : Table K V)
      → t.entries ≡ []
      → Stops too_much (evict_rounds category bytes_of too_much n (b, t))
  unfolding evict_rounds
  rounds_empty too_much zero b t h = inr h
  rounds_empty too_much (suc n) b t h =
      if_lem (Stops too_much) (too_much t)
        (subst
          (λ m.
            Stops too_much
              (evict_rounds category bytes_of too_much n (oldest category bytes_of m (b, t))))
          (sym h) (rounds_empty too_much n b t h))
        (inr h)

  -- The loop stops when its test fails or nothing is left, if it may run as often as there are
  -- entries.
  rounds-Stops :
      (too_much : Table K V → Bool) (n : ℕ) (b : Option Budget) (t : Table K V) (m : Map K V)
      → t.entries ≡ m
      → length m ≤ n
      → Stops too_much (evict_rounds category bytes_of too_much n (b, t))
  unfolding evict_rounds
  rounds-Stops too_much n b t [] h l = rounds_empty too_much n b t h
  rounds-Stops too_much zero b t (x ∷ m) h l = absurd (ground (arith, l))
  rounds-Stops too_much (suc n) b t ((k, v) ∷ m) h l =
      let a = drop category bytes_of k (b, t) in
      let shorter = oldest_shrinks k v m b t h in
      let later =
        rounds-Stops too_much n a.0 a.1 a.1.entries refl (omega (arith, shorter, l, ap length h)) in
      if_cases (Stops too_much) (too_much t)
        (λ u.
          subst
            (λ m.
              Stops too_much
                (evict_rounds category bytes_of too_much n (oldest category bytes_of m (b, t))))
            (sym h) later)
        (λ u. inl u)

  pub evict_while-Stops :
      (too_much : Table K V → Bool) (a : Account category bytes_of)
      → Stops too_much (evict_while category bytes_of too_much a)
  unfolding evict_while
  evict_while-Stops too_much (b, t) =
      rounds-Stops too_much (length t.entries) b t t.entries refl (omega arith)

  -- What a step may do to the size of a table.
  pub length-drop :
      (k : K) (a : Account category bytes_of)
      → length (drop category bytes_of k a).1.entries ≤ length a.1.entries
  unfolding drop
  length-drop k (b, t) = elim (Option-cases (find k t.entries)) [
    | inl n ↦ rw n (omega arith)
    | inr (v, f) ↦ rw f (omega (arith, length-remove k v t.entries f))
  ]

  abbrev Within : ℕ → Account category bytes_of → Type 0
  Within n (b, t) = length t.entries ≤ n

  put_entry-Within :
      (k : K) (v : V) (t : Table K V) (r : Option Budget × Bool)
      → find k t.entries ≡ none
      → Within (suc (length t.entries)) (put_admitted category bytes_of k v t r)
  put_entry-Within k v t (b, true) h = omega (arith, length-set_key_new k v t.entries h)
  put_entry-Within k v t (b, false) h = omega arith

  pub length-admit_entry :
      (k : K) (v : V) (a : Account category bytes_of)
      → find k a.1.entries ≡ none
      → length (admit_entry category bytes_of k v a).1.entries ≤ suc (length a.1.entries)
  unfolding admit_entry
  length-admit_entry k v (b, t) h =
      put_entry-Within k v t (reserve_in category (bytes_of (k, v)) b) h

  bytes-put_entry :
      (k : K) (v : V) (t : Table K V) (r : Option Budget × Bool)
      → (put_admitted category bytes_of k v t r).1.bytes ≤ t.bytes + bytes_of (k, v)
  bytes-put_entry k v t (b, true) = omega arith
  bytes-put_entry k v t (b, false) = omega arith

  pub bytes-admit_entry :
      (k : K) (v : V) (a : Account category bytes_of)
      → (admit_entry category bytes_of k v a).1.bytes ≤ a.1.bytes + bytes_of (k, v)
  unfolding admit_entry
  bytes-admit_entry k v (b, t) = bytes-put_entry k v t (reserve_in category (bytes_of (k, v)) b)
