-- ===== src/MemoryBudget/Bounds.antt =====
-- What holds of the ledger of src/cache/memoryBudget.ts after any history.
use lazy_layers.Prelude.{
  ℕ, zero, suc, ◌%◌, ◌+◌, ◌-◌, ◌≡◌, ◌≤◌, ◌<◌, Bool, true, false, Option, none, some, List, [], ◌∷◌,
  arith, Text, Number, natural, negative, not_integer, ltb, min, Bool-cases, inl, inr, get_or, ◌&&◌,
  not, ◌==◌,
}
use lazy_layers.MemoryBudget.{
  Budget, Fractions, Windows, Signals, Clients, Op, reserves, releases, construct, try_reserve,
  release, perform, perform_all, adjust, evict_bounded, evict_next, sample, count_eviction, lookup,
}
use lazy_layers.MemoryBudget.Ledger.{total, put-total}

-- The ledger is exact and within its limits: the total is the sum of the categories and at most the
-- hard cap, and the target lies between the floor, 1 if none is set, and the hard cap.
pub record Inv (b : Budget) : Type 0 where
  pub exact : b.used ≡ total b.categories
  pub used_bounded : b.used ≤ b.hard_cap
  pub target_bounded : b.target ≤ b.hard_cap
  pub floor_positive : 0 < get_or b.min_memory 1
  pub floor_bounded : get_or b.min_memory 1 ≤ b.target

construct-Inv :
    (cap : Number) (least : Option Number) {b : Budget} → construct cap least ≡ some b → Inv b
unfolding construct
construct-Inv (natural cap) none h = ground arith
construct-Inv (natural cap) (some (natural m)) h = ground arith
construct-Inv (natural cap) (some (negative m)) h = ground arith
construct-Inv (natural cap) (some not_integer) h = ground arith
construct-Inv (negative n) least h = ground arith
construct-Inv not_integer least h = ground arith

pub try_reserve-Inv : (n : Number) (k : Text) (b : Budget) → Inv b → Inv (try_reserve n k b).0
unfolding try_reserve
try_reserve-Inv (negative n) k b v = v
try_reserve-Inv not_integer k b v = v
try_reserve-Inv (natural n) k b v =
    ground (arith, v, put-total k (lookup k b.categories + n) b.categories)

pub release-Inv : (n : Number) (k : Text) (b : Budget) → Inv b → Inv (release n k b)
unfolding release
release-Inv (negative n) k b v = v
release-Inv not_integer k b v = v
release-Inv (natural n) k b v =
    let amount = min (min n (lookup k b.categories)) b.used in
    ground (arith, v, put-total k (lookup k b.categories - amount) b.categories)

perform-Inv : (op : Op) (b : Budget) → Inv b → Inv (perform op b)
unfolding perform
perform-Inv (reserves n k) b v = try_reserve-Inv n k b v
perform-Inv (releases n k) b v = release-Inv n k b v

perform_all-Inv : (ops : List Op) (b : Budget) → Inv b → Inv (perform_all ops b)
unfolding perform_all
perform_all-Inv [] b v = v
perform_all-Inv (op ∷ ops) b v = perform_all-Inv ops (perform op b) (perform-Inv op b v)

-- Seven tenths of a number are at most the number.
abbrev pub Shrinks : Fractions → Type 0
Shrinks f = (n : ℕ) → f.seven_tenths n ≤ n

adjust-Inv :
    (f : Fractions) (w : Windows) (now : ℕ) (s : Signals) (b : Budget)
    → Shrinks f
    → Inv b
    → Inv (adjust f w now s b)
unfolding adjust
adjust-Inv f w now s b h v = ground (arith, v, h b.target, h b.hard_cap)

-- The calls of a budget: those of the ledger, `sample` with what it reads, and whatever changes the
-- clients from outside.
pub data Event (W : Type 0) : Type 0 where
  performs : Op → Event W
  samples : ℕ → Signals → Event W
  clients_change : W → Event W

module _ (c : Clients) where
  count_eviction-Inv : (o : Option Bool) (b : Budget) → Inv b → Inv (count_eviction c o b)
  count_eviction-Inv (some true) b v = ground (arith, v)
  count_eviction-Inv (some false) b v = v
  count_eviction-Inv none b v = v

  evict_next-Inv : (s : c.World × Budget) → Inv s.1 → Inv (evict_next c s).1
  evict_next-Inv (w, b) v =
      let b' : Budget = record b { cursor = b.cursor + 1 } in
      let (w', ops, evicted) = c.evict_one (b.cursor % c.count w) w in
      count_eviction-Inv evicted (perform_all ops b') (perform_all-Inv ops b' (ground (arith, v)))

  evict_bounded-Inv : (n : ℕ) (s : c.World × Budget) → Inv s.1 → Inv (evict_bounded c n s).1
  unfolding evict_bounded
  evict_bounded-Inv zero s v = v
  evict_bounded-Inv (suc n) (w, b) v =
      elim (Bool-cases (not (c.count w == 0) && ltb b.target b.used)) [
        | inl e ↦ rw e (evict_bounded-Inv n (evict_next c (w, b)) (evict_next-Inv (w, b) v))
        | inr e ↦ rw e v
      ]

  sample-Inv :
      (f : Fractions) (windows : Windows) (now : ℕ) (s : Signals) (w : c.World) (b : Budget)
      → Shrinks f
      → Inv b
      → Inv (sample c f windows now s (w, b)).1
  unfolding sample
  sample-Inv f windows now s w b h v =
      let b' = adjust f windows now s b in
      let v' = adjust-Inv f windows now s b h v in
      elim (Bool-cases (ltb b'.target b'.used)) [
        | inl e ↦ rw e (evict_bounded-Inv 32 (w, b') v')
        | inr e ↦ rw e v'
      ]

  unfoldable pub step : Fractions → Windows → Event c.World → c.World × Budget → c.World × Budget
  step f windows (performs op) (w, b) = (w, perform op b)
  step f windows (samples now s) (w, b) = sample c f windows now s (w, b)
  step f windows (clients_change w') (w, b) = (w', b)

  unfoldable pub use_all :
      Fractions → Windows → List (Event c.World) → c.World × Budget → c.World × Budget
  use_all f windows [] s = s
  use_all f windows (e ∷ es) s = use_all f windows es (step f windows e s)

  step-Inv :
      (f : Fractions) (windows : Windows) (e : Event c.World) (s : c.World × Budget)
      → Shrinks f
      → Inv s.1
      → Inv (step f windows e s).1
  unfolding step
  step-Inv f windows (performs op) (w, b) h v = perform-Inv op b v
  step-Inv f windows (samples now s) (w, b) h v = sample-Inv f windows now s w b h v
  step-Inv f windows (clients_change w') (w, b) h v = v

  use_all_from-Inv :
      (f : Fractions) (windows : Windows) (es : List (Event c.World)) (s : c.World × Budget)
      → Shrinks f
      → Inv s.1
      → Inv (use_all f windows es s).1
  unfolding use_all
  use_all_from-Inv f windows [] s h v = v
  use_all_from-Inv f windows (e ∷ es) s h v =
      use_all_from-Inv f windows es (step f windows e s) h (step-Inv f windows e s h v)

  -- After any history of a budget that was constructed, with reservations, releases, samples of any
  -- signals and any clients, if seven tenths of a number are at most the number: the bytes in use
  -- are the sum of the categories and never more than the hard cap, and the target stays between
  -- the floor (1 if none is set) and the hard cap.
  pub use_all-Inv :
      (f : Fractions) (windows : Windows) (cap : Number) (least : Option Number) (b : Budget)
      (w : c.World) (es : List (Event c.World))
      → Shrinks f
      → construct cap least ≡ some b
      → Inv (use_all f windows es (w, b)).1
  use_all-Inv f windows cap least b w es h e =
      use_all_from-Inv f windows es (w, b) h (construct-Inv cap least e)
