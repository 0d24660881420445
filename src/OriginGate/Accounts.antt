-- ===== src/OriginGate/Accounts.antt =====
-- The origin gate and the memory budget: the gate holds exactly the bytes of its queue.
use lazy_layers.Prelude.{
  ℕ, ◌+◌, ◌-◌, ◌≡◌, ◌≤◌, refl, subst, Bool, true, false, List, [], ◌∷◌, arith, Option, none, some,
  sum_by, take_out, take_out-AddsUp, Text, codes, natural, Bool-cases, inl, inr, ltb, leb, ◌==◌,
  ◌||◌, length, ◌*◌, if◌then◌else◌, if_lem,
}
use lazy_layers.MemoryBudget.{Budget, lookup}
use lazy_layers.MemoryBudget.Ledger.{release_exact, try_reserve_exact}
use lazy_layers.MemoryBudget.Bounds.{try_reserve-Inv, release-Inv}
use lazy_layers.MemoryBudget.Bounds
use lazy_layers.OriginGate.{
  Gate, Waiter, Effect, reserve, give_back, enqueue_reserved, drop_waiter, acquire, expire_found,
  expire, abort_found, abort, grant_next, release_slot, release_found, release, refuse_all, close,
  max_queued_key_bytes,
}
use lazy_layers.OriginGate.Invariant.{Inv}
use lazy_layers.OriginGate.History.{
  Event, acquires, expires, aborts, releases, closes, step, serve_all, step-Inv,
}

abbrev pub in_queue : Budget → ℕ
in_queue b = lookup (codes "queue") b.categories

-- The budget, if there is one, has an exact ledger with at least `n` bytes in the category 'queue'.
abbrev pub Covers : ℕ → Option Budget → Type 0
Covers n none = Unit
Covers n (some b) = Bounds.Inv b × (n ≤ in_queue b)

-- The bytes in use and those of the category 'queue' change as `n` does to `m`.
abbrev pub Balances : ℕ → Option Budget → ℕ → Option Budget → Type 0
Balances n none m none = Unit
Balances n none m (some b') = ⊥
Balances n (some b) m none = ⊥
Balances n (some b) m (some b') = (in_queue b' + n ≡ in_queue b + m) × (b'.used + n ≡ b.used + m)

Balances-refl : (n : ℕ) (b : Option Budget) → Balances n b n b
Balances-refl n none = tt
Balances-refl n (some b) = (refl, refl)

Balances-trans :
    (n m k : ℕ) (a b c : Option Budget) → Balances n a m b → Balances m b k c → Balances n a k c
Balances-trans n m k none none none h h' = tt
Balances-trans n m k none none (some c) h h' = h'
Balances-trans n m k none (some b) c h h' = absurd h
Balances-trans n m k (some a) none c h h' = absurd h
Balances-trans n m k (some a) (some b) none h h' = h'
Balances-trans n m k (some a) (some b) (some c) h h' =
    (omega (arith, h.0, h'.0), omega (arith, h.1, h'.1))

-- A step keeps the queue covered, and moves the budget as it moves the queue.
abbrev Keeps : ℕ → Option Budget → ℕ → Option Budget → Type 0
Keeps n a m b = Covers m b × Balances n a m b

give_back-Keeps :
    (n q : ℕ) (b : Option Budget) → Covers q b → n ≤ q → Keeps q b (q - n) (give_back n b)
give_back-Keeps n q none h k = (tt, tt)
give_back-Keeps n q (some b) h k =
    let v = h.0 in
    let (used, held) = release_exact n (codes "queue") b v.exact (omega (arith, h.1, k)) in
    (
      (release-Inv (natural n) (codes "queue") b v, omega (arith, h.1, k, held)),
      (omega (arith, h.1, k, held), omega (arith, k, used)),
    )

-- A reservation that succeeds for `n` bytes, or takes nothing.
reserve-Keeps :
    (n q : ℕ) (b : Option Budget)
    → Covers q b
    → Keeps q b (q + (if (reserve n b).1 then n else 0)) (reserve n b).0
reserve-Keeps n q none h = (tt, tt)
reserve-Keeps n q (some b) h =
    let (used, held) = try_reserve_exact n (codes "queue") b in
    (
      (try_reserve-Inv (natural n) (codes "queue") b h.0, omega (arith, h.1, held)),
      (omega (arith, held), omega (arith, used)),
    )

abbrev GateKeeps : Gate → Gate → Type 0
GateKeeps g g' = Keeps g.queued_bytes g.budget g'.queued_bytes g'.budget

keeps_same : (g : Gate) → Covers g.queued_bytes g.budget → GateKeeps g g
keeps_same g h = (h, Balances-refl g.queued_bytes g.budget)

drop-GateKeeps :
    (w : Waiter) (rest : List Waiter) (g : Gate)
    → Covers g.queued_bytes g.budget
    → w.bytes ≤ g.queued_bytes
    → GateKeeps g (drop_waiter w rest g)
drop-GateKeeps w rest g h k = give_back-Keeps w.bytes g.queued_bytes g.budget h k

enqueue-GateKeeps :
    (w : Waiter) (g : Gate) (r : Option Budget × Bool)
    → Keeps g.queued_bytes g.budget (g.queued_bytes + (if r.1 then w.bytes else 0)) r.0
    → GateKeeps g (enqueue_reserved w g r).0
enqueue-GateKeeps w g (b, true) h = h
enqueue-GateKeeps w g (b, false) h = subst (λ n. Keeps g.queued_bytes g.budget n b) (omega arith) h

acquire-GateKeeps :
    (id : ℕ) (key : Text) (n : ℕ) (is_aborted : Bool) (g : Gate)
    → Covers g.queued_bytes g.budget
    → GateKeeps g (acquire id key n is_aborted g).0
unfolding acquire
acquire-GateKeeps id key n is_aborted g h =
    let same = keeps_same g h in
    let bytes = n * 2 + 128 in
    let w : Waiter = record { id = id; key = key; bytes = bytes } in
    let queued =
      enqueue-GateKeeps w g (reserve bytes g.budget)
        (reserve-Keeps bytes g.queued_bytes g.budget h) in
    let P : Gate × List Effect → Type 0 = λ r. GateKeeps g r.0 in
    if_lem P g.closed same (
      if_lem P is_aborted same (
        if_lem P (ltb g.active g.max_concurrent) same (
          if_lem P (leb g.max_queued (length g.queue) || g.max_queued == 0) same
            (if_lem P (ltb max_queued_key_bytes (g.queued_bytes + bytes)) same queued))))

-- A waiter that is found in the queue has no more bytes than the queue.
abbrev Fits : Gate → Option (Waiter × List Waiter) → Type 0
Fits g none = Unit
Fits g (some (w, rest)) = w.bytes ≤ g.queued_bytes

take_out-Fits : (g : Gate) (id : ℕ) → Inv g → Fits g (take_out (λ (w : Waiter). w.id) id g.queue)
take_out-Fits g id v = ground (
  arith,
  v.queued_bytes_exact,
  take_out-AddsUp (λ (w : Waiter). w.bytes) (λ (w : Waiter). w.id) id g.queue,
)

expire_found-GateKeeps :
    (o : Option (Waiter × List Waiter)) (g : Gate)
    → Fits g o
    → Covers g.queued_bytes g.budget
    → GateKeeps g (expire_found o g).0
expire_found-GateKeeps none g k h = keeps_same g h
expire_found-GateKeeps (some (w, rest)) g k h = drop-GateKeeps w rest g h k

abort_found-GateKeeps :
    (o : Option (Waiter × List Waiter)) (g : Gate)
    → Fits g o
    → Covers g.queued_bytes g.budget
    → GateKeeps g (abort_found o g).0
abort_found-GateKeeps none g k h = keeps_same g h
abort_found-GateKeeps (some (w, rest)) g k h = drop-GateKeeps w rest g h k

grant_next-GateKeeps :
    (ws : List Waiter) (g : Gate)
    → sum_by (λ (w : Waiter). w.bytes) ws ≤ g.queued_bytes
    → Covers g.queued_bytes g.budget
    → GateKeeps g (grant_next ws g).0
grant_next-GateKeeps [] g k h = keeps_same g h
grant_next-GateKeeps (w ∷ ws) g k h = drop-GateKeeps w ws g h (omega (arith, k))

release_slot-GateKeeps :
    (g : Gate)
    → sum_by (λ (w : Waiter). w.bytes) g.queue ≤ g.queued_bytes
    → Covers g.queued_bytes g.budget
    → GateKeeps g (release_slot g).0
release_slot-GateKeeps g k h = elim (Bool-cases (ltb 0 g.active)) [
  | inl e ↦ rw e (grant_next-GateKeeps g.queue (record g { active = g.active - 1 }) k h)
  | inr e ↦ rw e (grant_next-GateKeeps g.queue g k h)
]

release_found-GateKeeps :
    (o : Option (ℕ × List ℕ)) (g : Gate)
    → sum_by (λ (w : Waiter). w.bytes) g.queue ≤ g.queued_bytes
    → Covers g.queued_bytes g.budget
    → GateKeeps g (release_found o g).0
release_found-GateKeeps none g k h = keeps_same g h
release_found-GateKeeps (some (id, rest)) g k h =
    release_slot-GateKeeps (record g { holders = rest }) k h

refuse_all-GateKeeps :
    (ws : List Waiter) (g : Gate)
    → sum_by (λ (w : Waiter). w.bytes) ws ≤ g.queued_bytes
    → Covers g.queued_bytes g.budget
    → GateKeeps g (refuse_all ws g).0
refuse_all-GateKeeps [] g k h = keeps_same g h
refuse_all-GateKeeps (w ∷ ws) g k h =
    let first = drop-GateKeeps w ws g h (omega (arith, k)) in
    let rest = refuse_all-GateKeeps ws (drop_waiter w ws g) (omega (arith, k)) first.0 in
    (rest.0, Balances-trans _ _ _ _ _ _ first.1 rest.1)

step-GateKeeps :
    (g : Gate) (e : Event) → Inv g → Covers g.queued_bytes g.budget → GateKeeps g (step g e).0
unfolding step expire abort release close
step-GateKeeps g (acquires id key n is_aborted) v h = acquire-GateKeeps id key n is_aborted g h
step-GateKeeps g (expires id) v h = expire_found-GateKeeps _ g (take_out-Fits g id v) h
step-GateKeeps g (aborts id) v h = abort_found-GateKeeps _ g (take_out-Fits g id v) h
step-GateKeeps g (releases id) v h =
    release_found-GateKeeps (take_out (λ (k : ℕ). k) id g.holders) g
      (omega (arith, v.queued_bytes_exact)) h
step-GateKeeps g closes v h =
    refuse_all-GateKeeps g.queue (record g { closed = true }) (omega (arith, v.queued_bytes_exact))
      h

-- Over any history of a gate whose counters are exact and whose queue is covered by its budget: the
-- budget's bytes, in use and in the category 'queue', change exactly as the bytes of the queue do,
-- and the queue stays covered.
pub serve_all-Balances :
    (g : Gate) (es : List Event)
    → Inv g
    → Covers g.queued_bytes g.budget
    → let g' = (serve_all g es).0 in
      Covers g'.queued_bytes g'.budget × Balances g.queued_bytes g.budget g'.queued_bytes g'.budget
unfolding serve_all
serve_all-Balances g [] v h = keeps_same g h
serve_all-Balances g (e ∷ es) v h =
    let first = step-GateKeeps g e v h in
    let rest = serve_all-Balances (step g e).0 es (step-Inv g e v) first.0 in
    (rest.0, Balances-trans _ _ _ _ _ _ first.1 rest.1)
