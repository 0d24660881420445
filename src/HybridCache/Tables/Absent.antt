-- ===== src/HybridCache/Tables/Absent.antt =====
-- Keys that a table of HybridCache (src/cache/hybridCache.ts) does not hold stay away until they are
-- added, and an entry that is added is found.
use lazy_layers.Prelude.{
  ℕ, zero, suc, ◌≡◌, Bool, none, [], ◌∷◌, length, Text, Option-cases, inl, inr, if_lem,
}
use lazy_layers.Prelude.Maps.{Eq, Map, find, remove_keeps_absent}
use lazy_layers.HybridCache.Tables.{Table, Account, drop, oldest, evict_rounds, evict_while}

module _ {K V : Type 0} ⦃e : Eq K⦄ (category : Text) (bytes_of : K × V → ℕ) where
  abbrev pub Absent : K → Account category bytes_of → Type 0
  Absent j (b, t) = find j t.entries ≡ none

  pub drop-Absent :
      (j k : K) (a : Account category bytes_of) → Absent j a → Absent j (drop category bytes_of k a)
  unfolding drop
  drop-Absent j k (b, t) h = elim (Option-cases (find k t.entries)) [
    | inl n ↦ rw n h
    | inr (v, f) ↦ rw f (remove_keeps_absent j k t.entries h)
  ]

  oldest-Absent :
      (j : K) (m : Map K V) (a : Account category bytes_of)
      → Absent j a
      → Absent j (oldest category bytes_of m a)
  oldest-Absent j [] a h = h
  oldest-Absent j ((k, v) ∷ m) a h = drop-Absent j k a h

  rounds-Absent :
      (j : K) (too_much : Table K V → Bool) (n : ℕ) (a : Account category bytes_of)
      → Absent j a
      → Absent j (evict_rounds category bytes_of too_much n a)
  unfolding evict_rounds
  rounds-Absent j too_much zero a h = h
  rounds-Absent j too_much (suc n) (b, t) h =
      if_lem (Absent j) (too_much t)
        (rounds-Absent j too_much n (oldest category bytes_of t.entries (b, t))
          (oldest-Absent j t.entries (b, t) h))
        h

  pub evict_while-Absent :
      (j : K) (too_much : Table K V → Bool) (a : Account category bytes_of)
      → Absent j a
      → Absent j (evict_while category bytes_of too_much a)
  unfolding evict_while
  evict_while-Absent j too_much (b, t) h = rounds-Absent j too_much (length t.entries) (b, t) h
