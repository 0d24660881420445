-- ===== src/HybridCache/Tables/Accounts.antt =====
-- The bytes of a table of HybridCache (src/cache/hybridCache.ts) are those of its entries, and those
-- that the memory budget holds for it.
use lazy_layers.Prelude.{
  ℕ, zero, suc, ◌+◌, ◌-◌, ◌≡◌, refl, subst, Bool, true, false, Option, none, [], ◌∷◌, arith, length,
  sum_by, if◌then◌else◌, Text, Option-cases, inl, inr, if_lem,
}
use lazy_layers.Prelude.Maps.{
  Eq, Map, find, IsUnique, find-remove, sum-remove, sum-set_key_new, remove-IsUnique,
  set_key-IsUnique,
}
use lazy_layers.MemoryBudget.{Budget}
use lazy_layers.HybridCache.{reserve_in, release_in}
use lazy_layers.HybridCache.Tables.{
  Table, Account, drop, clear, put_admitted, admit_entry, oldest, evict_rounds, evict_while,
}

-- What a table needs of the budget: some account of `n` bytes in the category, which a release lowers
-- and a reservation raises if it is admitted.
pub record Keeper (category : Text) : Type 1 where
  pub holds : ℕ → Option Budget → Type 0
  pub released : (m n : ℕ) (b : Option Budget) → holds (m + n) b → holds m (release_in category n b)
  pub reserved :
      (m n : ℕ) (b : Option Budget)
      → holds m b
      → holds (m + (if (reserve_in category n b).1 then n else 0)) (reserve_in category n b).0

module _ {K V : Type 0} ⦃e : Eq K⦄ (category : Text) (bytes_of : K × V → ℕ) where
  pub record Exact (t : Table K V) : Type 0 where
    pub unique : IsUnique t.entries
    pub exact : t.bytes ≡ sum_by bytes_of t.entries

  -- A table and the budget agree.
  abbrev pub Agrees : Keeper category → Account category bytes_of → Type 0
  Agrees w (b, t) = Exact t × w.holds t.bytes b

  pub drop-Agrees :
      (w : Keeper category) (k : K) (a : Account category bytes_of)
      → Agrees w a
      → Agrees w (drop category bytes_of k a)
  unfolding drop
  drop-Agrees w k (b, t) h = elim (Option-cases (find k t.entries)) [
    | inl n ↦ rw n h
    | inr (v, f) ↦
        let sum = sum-remove bytes_of k v t.entries f in
        let before : t.bytes ≡ (t.bytes - bytes_of (k, v)) + bytes_of (k, v) =
          omega (arith, h.0.exact, sum) in
        rw f (
          record {
            unique = remove-IsUnique k t.entries h.0.unique;
            exact = omega (arith, h.0.exact, sum);
          },
          w.released (t.bytes - bytes_of (k, v)) (bytes_of (k, v)) b
              (subst (λ n. w.holds n b) before h.1),
        )
  ]

  pub clear-Agrees :
      (w : Keeper category) (a : Account category bytes_of)
      → Agrees w a
      → Agrees w (clear category bytes_of a)
  unfolding clear IsUnique
  clear-Agrees w (b, t) h = (
    record { unique = tt; exact = refl },
    w.released 0 t.bytes b (subst (λ n. w.holds n b) (omega arith) h.1),
  )

  put_entry-Agrees :
      (w : Keeper category) (k : K) (v : V) (t : Table K V) (r : Option Budget × Bool)
      → find k t.entries ≡ none
      → Exact t
      → w.holds (t.bytes + (if r.1 then bytes_of (k, v) else 0)) r.0
      → Agrees w (put_admitted category bytes_of k v t r)
  put_entry-Agrees w k v t (b, true) n x h = (
    record {
      unique = set_key-IsUnique k v t.entries x.unique;
      exact = omega (arith, x.exact, sum-set_key_new bytes_of k v t.entries n);
    },
    h,
  )
  put_entry-Agrees w k v t (b, false) n x h = (x, subst (λ n. w.holds n b) (omega arith) h)

  pub admit_entry-Agrees :
      (w : Keeper category) (k : K) (v : V) (a : Account category bytes_of)
      → find k a.1.entries ≡ none
      → Agrees w a
      → Agrees w (admit_entry category bytes_of k v a)
  unfolding admit_entry
  admit_entry-Agrees w k v (b, t) n h =
      put_entry-Agrees w k v t (reserve_in category (bytes_of (k, v)) b) n h.0
        (w.reserved t.bytes (bytes_of (k, v)) b h.1)

  pub oldest-Agrees :
      (w : Keeper category) (m : Map K V) (a : Account category bytes_of)
      → Agrees w a
      → Agrees w (oldest category bytes_of m a)
  oldest-Agrees w [] a h = h
  oldest-Agrees w ((k, v) ∷ m) a h = drop-Agrees w k a h

  rounds-Agrees :
      (w : Keeper category) (too_much : Table K V → Bool) (n : ℕ) (a : Account category bytes_of)
      → Agrees w a
      → Agrees w (evict_rounds category bytes_of too_much n a)
  unfolding evict_rounds
  rounds-Agrees w too_much zero a h = h
  rounds-Agrees w too_much (suc n) (b, t) h =
      if_lem (Agrees w) (too_much t)
        (rounds-Agrees w too_much n (oldest category bytes_of t.entries (b, t))
          (oldest-Agrees w t.entries (b, t) h))
        h

  pub evict_while-Agrees :
      (w : Keeper category) (too_much : Table K V → Bool) (a : Account category bytes_of)
      → Agrees w a
      → Agrees w (evict_while category bytes_of too_much a)
  unfolding evict_while
  evict_while-Agrees w too_much (b, t) h = rounds-Agrees w too_much (length t.entries) (b, t) h

  -- A key that was dropped, or never was there, is absent.
  pub find-drop :
      (k : K) (a : Account category bytes_of)
      → IsUnique a.1.entries
      → find k (drop category bytes_of k a).1.entries ≡ none
  unfolding drop
  find-drop k (b, t) u = elim (Option-cases (find k t.entries)) [
    | inl n ↦ rw n n
    | inr (v, f) ↦ rw f (find-remove k t.entries u)
  ]
