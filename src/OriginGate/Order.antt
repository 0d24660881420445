-- ===== src/OriginGate/Order.antt =====
-- The origin gate serves its queue first in, first out.
use mathlib.Core.List.{Sublist, map-append, append-nil, nil-sublist, sublist-append_left}
use mathlib.Core.List.Sublist
use lazy_layers.Prelude.{
  ℕ, ◌+◌, ◌*◌, ◌-◌, ◌≡◌, refl, ap, Bool, true, Option, none, some, List, [], ◌∷◌, ◌++◌, arith,
  take_out, take_out-Thins, Thins, Text, map, map-Sublist, in_order_trans, ◌⊎◌, inl, inr,
  Bool-cases, ltb,
}
use lazy_layers.OriginGate.{
  Gate, Waiter, Effect, granted, refused, acquire, expire, abort, release, close, expire_found,
  abort_found, release_found, refuse_all, drop_waiter, grant_next, release_slot,
}
use lazy_layers.OriginGate.Invariant.{Inv}
use lazy_layers.OriginGate.History.{
  step-Inv, Event, acquires, expires, aborts, releases, closes, step, serve_all, arrivals,
}

abbrev pub waiting : Gate → List ℕ
waiting g = map (λ (w : Waiter). w.id) g.queue

-- The loads that have been granted, in order.
abbrev pub grants : List Effect → List ℕ
grants [] = []
grants (granted id ∷ fx) = id ∷ grants fx
grants (refused id e ∷ fx) = grants fx

-- What has been granted since and what still waits keeps the order of what waited and what arrived.
abbrev pub InOrder : Gate → List ℕ → Gate × List Effect → Type 0
InOrder g ids (g', fx) = Sublist (grants fx ++ waiting g') (waiting g ++ ids)

grants-append : (fx gx : List Effect) → grants (fx ++ gx) ≡ grants fx ++ grants gx
grants-append [] gx = refl
grants-append (granted id ∷ fx) gx = ap (◌∷◌ id) (grants-append fx gx)
grants-append (refused id e ∷ fx) gx = grants-append fx gx

module _ (g : Gate) (r : Gate × List Effect) where
  same_queue : (ids : List ℕ) → grants r.1 ≡ [] → r.0.queue ≡ g.queue → InOrder g ids r
  same_queue ids s q = rw (s, q) (sublist-append_left (waiting g) ids)

  thinned_queue : grants r.1 ≡ [] → Sublist (waiting r.0) (waiting g) → InOrder g [] r
  thinned_queue s q = rw (s, append-nil (waiting g)) q

  one_granted :
      (id : ℕ) → grants r.1 ≡ id ∷ [] → g.queue ≡ [] → r.0.queue ≡ [] → InOrder g (id ∷ []) r
  one_granted id s q q' = rw (s, q, q') (Sublist.refl _)

  one_queued :
      (w : Waiter) → grants r.1 ≡ [] → r.0.queue ≡ g.queue ++ w ∷ [] → InOrder g (w.id ∷ []) r
  one_queued w s q = rw (s, q, map-append) (Sublist.refl _)

  head_granted : (w : Waiter) → grants r.1 ≡ w.id ∷ [] → g.queue ≡ w ∷ r.0.queue → InOrder g [] r
  head_granted w s q = rw (s, append-nil (waiting g), q) (Sublist.refl _)

-- A load that finds a place while others wait would overtake them: it cannot, since they wait only
-- while all places are taken.
acquire_shape :
    (id : ℕ) (key : Text) (n : ℕ) (is_aborted : Bool) (g : Gate)
    → Inv g
    → let (g', fx) = acquire id key n is_aborted g in
      ((grants fx ≡ []) × (g'.queue ≡ g.queue))
      ⊎ ((grants fx ≡ id ∷ []) × (g.queue ≡ []) × (g'.queue ≡ []))
      ⊎ ((grants fx ≡ [])
          × (g'.queue ≡ g.queue ++ record { id = id; key = key; bytes = n * 2 + 128 } ∷ []))
unfolding acquire
acquire_shape id key n is_aborted g v = ground (arith, v.busy)

acquire-InOrder :
    (id : ℕ) (key : Text) (n : ℕ) (is_aborted : Bool) (g : Gate)
    → Inv g
    → InOrder g (id ∷ []) (acquire id key n is_aborted g)
acquire-InOrder id key n is_aborted g v = elim (acquire_shape id key n is_aborted g v) [
  | inl same ↦ same_queue g (acquire id key n is_aborted g) _ same.0 same.1
  | inr (inl direct) ↦ one_granted g (acquire id key n is_aborted g) id direct.0 direct.1 direct.2
  | inr (inr queued) ↦ one_queued g (acquire id key n is_aborted g) _ queued.0 queued.1
]

expire_found-InOrder :
    (o : Option (Waiter × List Waiter)) (g : Gate)
    → Thins g.queue o
    → InOrder g [] (expire_found o g)
expire_found-InOrder none g h = same_queue g (g, []) [] refl refl
expire_found-InOrder (some (w, rest)) g h =
    thinned_queue g (expire_found (some (w, rest)) g) refl (map-Sublist (λ (w : Waiter). w.id) h)

abort_found-InOrder :
    (o : Option (Waiter × List Waiter)) (g : Gate)
    → Thins g.queue o
    → InOrder g [] (abort_found o g)
abort_found-InOrder none g h = same_queue g (g, []) [] refl refl
abort_found-InOrder (some (w, rest)) g h =
    thinned_queue g (abort_found (some (w, rest)) g) refl (map-Sublist (λ (w : Waiter). w.id) h)

-- A step that grants the head of the queue, or nothing.
abbrev Serves : Gate → Gate × List Effect → Type 0
Serves g (g', fx) =
    ((grants fx ≡ []) × (g'.queue ≡ g.queue))
    ⊎ ((w : Waiter) × (grants fx ≡ w.id ∷ []) × (g.queue ≡ w ∷ g'.queue))

grant_next-Serves : (ws : List Waiter) (g : Gate) → g.queue ≡ ws → Serves g (grant_next ws g)
grant_next-Serves [] g e = inl (refl, refl)
grant_next-Serves (w ∷ ws) g e = inr (w, refl, e)

release_slot-Serves : (g : Gate) → Serves g (release_slot g)
release_slot-Serves g = elim (Bool-cases (ltb 0 g.active)) [
  | inl e ↦ rw e (grant_next-Serves g.queue (record g { active = g.active - 1 }) refl)
  | inr e ↦ rw e (grant_next-Serves g.queue g refl)
]

release_found-Serves : (o : Option (ℕ × List ℕ)) (g : Gate) → Serves g (release_found o g)
release_found-Serves none g = inl (refl, refl)
release_found-Serves (some (id, rest)) g = release_slot-Serves (record g { holders = rest })

release-InOrder : (id : ℕ) (g : Gate) → InOrder g [] (release id g)
unfolding release
release-InOrder id g = elim (release_found-Serves (take_out (λ (k : ℕ). k) id g.holders) g) [
  | inl same ↦ same_queue g (release id g) [] same.0 same.1
  | inr (w, s, q) ↦ head_granted g (release id g) w s q
]

refuse_all_shape :
    (ws : List Waiter) (g : Gate)
    → g.queue ≡ ws
    → let (g', fx) = refuse_all ws g in (grants fx ≡ []) × (g'.queue ≡ [])
refuse_all_shape [] g q = (refl, q)
refuse_all_shape (w ∷ ws) g q = refuse_all_shape ws (drop_waiter w ws g) refl

close-InOrder : (g : Gate) → InOrder g [] (close g)
unfolding close
close-InOrder g =
    let (s, q) = refuse_all_shape g.queue (record g { closed = true }) refl in
    thinned_queue g (close g) s (rw q (nil-sublist (waiting g)))

step-InOrder : (g : Gate) (e : Event) → Inv g → InOrder g (arrivals (e ∷ [])) (step g e)
unfolding step expire abort
step-InOrder g (acquires id key n is_aborted) v = acquire-InOrder id key n is_aborted g v
step-InOrder g (expires id) v =
    expire_found-InOrder _ g (take_out-Thins (λ (w : Waiter). w.id) id g.queue)
step-InOrder g (aborts id) v =
    abort_found-InOrder _ g (take_out-Thins (λ (w : Waiter). w.id) id g.queue)
step-InOrder g (releases id) v = release-InOrder id g
step-InOrder g closes v = close-InOrder g

arrivals-cons : (e : Event) (es : List Event) → arrivals (e ∷ es) ≡ arrivals (e ∷ []) ++ arrivals es
arrivals-cons (acquires id key n is_aborted) es = refl
arrivals-cons _ es = refl

-- Over any history of a gate whose counters are exact, the loads that are granted, followed by those
-- that still wait, are in the order of those that waited before, followed by those that arrive: no
-- load overtakes another.
pub serve_all-InOrder :
    (g : Gate) (es : List Event) → Inv g → InOrder g (arrivals es) (serve_all g es)
unfolding serve_all
serve_all-InOrder g [] v = rw (append-nil (waiting g)) (Sublist.refl _)
serve_all-InOrder g (e ∷ es) v =
    let (g', fx) = step g e in
    let rest = serve_all g' es in
    rw (arrivals-cons e es, grants-append fx rest.1)
      (in_order_trans (grants fx) (grants rest.1) (waiting g) (waiting g') (waiting rest.0)
        (arrivals (e ∷ [])) (arrivals es) (step-InOrder g e v)
        (serve_all-InOrder g' es (step-Inv g e v)))
