-- ===== src/L2Gate/Order.antt =====
-- The L2 gate serves its queue first in, first out.
use mathlib.Core.List.{Sublist, map-append, append-nil, nil-sublist, sublist-append_left}
use mathlib.Core.List.Sublist
use lazy_layers.Prelude.{
  ℕ, ◌≡◌, refl, ap, sym, Option, none, some, List, [], ◌∷◌, ◌++◌, arith, take_out, take_out-Thins,
  Thins, String, Number, map, ◌||◌, leb, map-Sublist, in_order_trans, ◌-◌, Bool-cases, inl, inr,
  ◌⊎◌, to_natural,
}
use lazy_layers.L2Gate.{
  Gate, Waiter, Running, Effect, started, refused, late, settled, run, expire, time_out, settle,
  close, refuse_all, expire_found, settle_found, pump, shift, answer,
}
use lazy_layers.L2Gate.History.{
  Event, runs, expires, times_out, settles, closes, step, run_all, arrivals, starts,
}

abbrev pub waiting : Gate → List ℕ
waiting g = map (λ (w : Waiter). w.id) g.queue

-- What has started since and what still waits keeps the order of what waited and what arrived.
abbrev pub InOrder : Gate → List ℕ → Gate × List Effect → Type 0
InOrder g ids (g', fx) = Sublist (starts fx ++ waiting g') (waiting g ++ ids)

pub starts-append : (fx gx : List Effect) → starts (fx ++ gx) ≡ starts fx ++ starts gx
starts-append [] gx = refl
starts-append (started id ∷ fx) gx = ap (◌∷◌ id) (starts-append fx gx)
starts-append (refused id e ∷ fx) gx = starts-append fx gx
starts-append (late id e ∷ fx) gx = starts-append fx gx
starts-append (settled id ∷ fx) gx = starts-append fx gx

pub starts-refuse_all : (ws : List Waiter) → starts (refuse_all ws) ≡ []
starts-refuse_all [] = refl
starts-refuse_all (w ∷ ws) = starts-refuse_all ws

-- What each step does to the queue, and which calls it starts.
run_shape :
    (id : ℕ) (op : String) (n : Number) (g : Gate)
    → let (g', fx) = run id op n g in
      ((starts fx ≡ []) × (g'.queue ≡ g.queue))
      ⊎ ((starts fx ≡ id ∷ []) × (g.queue ≡ []) × (g'.queue ≡ []))
      ⊎ ((starts fx ≡ [])
          × (g'.queue ≡ g.queue ++ record { id = id; operation = op; bytes = to_natural n } ∷ []))
unfolding run
run_shape id op n g = ground arith

time_out_shape :
    (id : ℕ) (g : Gate) → let (g', fx) = time_out id g in (starts fx ≡ []) × (g'.queue ≡ g.queue)
unfolding time_out
time_out_shape id g = ground arith

-- A step that starts the head of the queue, or nothing.
abbrev Serves : Gate → Gate × List Effect → Type 0
Serves g (g', fx) =
    ((starts fx ≡ []) × (g'.queue ≡ g.queue))
    ⊎ ((w : Waiter) × (starts fx ≡ w.id ∷ []) × (g.queue ≡ w ∷ g'.queue))

shift-Serves : (q : List Waiter) (g : Gate) → q ≡ g.queue → Serves g (shift q g)
shift-Serves [] g e = inl (refl, refl)
shift-Serves (w ∷ ws) g e = inr (w, refl, sym e)

pump-Serves : (g : Gate) → Serves g (pump g)
pump-Serves g = elim (Bool-cases (g.closed || leb g.max_concurrent g.active)) [
  | inl e ↦ rw e (inl (refl, refl))
  | inr e ↦ rw e (shift-Serves g.queue g refl)
]

answer-Serves :
    (r : Running) (g : Gate) (res : Gate × List Effect) → Serves g res → Serves g (answer r res)
answer-Serves r g (g', fx) h = elim (Bool-cases r.timed_out) [ inl e ↦ rw e h | inr e ↦ rw e h ]

settle_found-Serves : (o : Option (Running × List Running)) (g : Gate) → Serves g (settle_found o g)
settle_found-Serves none g = inl (refl, refl)
settle_found-Serves (some (r, rest)) g =
    let g' : Gate = record g {
      active = g.active - 1;
      active_bytes = g.active_bytes - r.bytes;
      running = rest;
    } in
    answer-Serves r g (pump g') (pump-Serves g')

module _ (g : Gate) (r : Gate × List Effect) where
  same_queue : (ids : List ℕ) → starts r.1 ≡ [] → r.0.queue ≡ g.queue → InOrder g ids r
  same_queue ids s q = rw (s, q) (sublist-append_left (waiting g) ids)

  thinned_queue : starts r.1 ≡ [] → Sublist (waiting r.0) (waiting g) → InOrder g [] r
  thinned_queue s q = rw (s, append-nil (waiting g)) q

  one_started :
      (id : ℕ) → starts r.1 ≡ id ∷ [] → g.queue ≡ [] → r.0.queue ≡ [] → InOrder g (id ∷ []) r
  one_started id s q q' = rw (s, q, q') (Sublist.refl _)

  one_queued :
      (w : Waiter) → starts r.1 ≡ [] → r.0.queue ≡ g.queue ++ w ∷ [] → InOrder g (w.id ∷ []) r
  one_queued w s q = rw (s, q, map-append) (Sublist.refl _)

  head_started : (w : Waiter) → starts r.1 ≡ w.id ∷ [] → g.queue ≡ w ∷ r.0.queue → InOrder g [] r
  head_started w s q = rw (s, append-nil (waiting g), q) (Sublist.refl _)

run-InOrder : (id : ℕ) (op : String) (n : Number) (g : Gate) → InOrder g (id ∷ []) (run id op n g)
run-InOrder id op n g = elim (run_shape id op n g) [
  | inl same ↦ same_queue g (run id op n g) _ same.0 same.1
  | inr (inl direct) ↦ one_started g (run id op n g) id direct.0 direct.1 direct.2
  | inr (inr queued) ↦ one_queued g (run id op n g) _ queued.0 queued.1
]

expire_found-InOrder :
    (o : Option (Waiter × List Waiter)) (g : Gate)
    → Thins g.queue o
    → InOrder g [] (expire_found o g)
expire_found-InOrder none g h = same_queue g (g, []) [] refl refl
expire_found-InOrder (some (w, rest)) g h =
    thinned_queue g (expire_found (some (w, rest)) g) refl (map-Sublist (λ (w : Waiter). w.id) h)

expire-InOrder : (id : ℕ) (g : Gate) → InOrder g [] (expire id g)
unfolding expire
expire-InOrder id g =
    expire_found-InOrder (take_out (λ (w : Waiter). w.id) id g.queue) g
      (take_out-Thins (λ (w : Waiter). w.id) id g.queue)

time_out-InOrder : (id : ℕ) (g : Gate) → InOrder g [] (time_out id g)
time_out-InOrder id g = let s = time_out_shape id g in same_queue g (time_out id g) [] s.0 s.1

settle-InOrder : (id : ℕ) (g : Gate) → InOrder g [] (settle id g)
unfolding settle
settle-InOrder id g = elim (settle_found-Serves (take_out (λ (r : Running). r.id) id g.running) g) [
  | inl same ↦ same_queue g (settle id g) [] same.0 same.1
  | inr (w, s, q) ↦ head_started g (settle id g) w s q
]

close-InOrder : (g : Gate) → InOrder g [] (close g)
unfolding close
close-InOrder g = thinned_queue g (close g) (starts-refuse_all g.queue) (nil-sublist (waiting g))

step-InOrder : (g : Gate) (e : Event) → InOrder g (arrivals (e ∷ [])) (step g e)
unfolding step
step-InOrder g (runs id op n) = run-InOrder id op n g
step-InOrder g (expires id) = expire-InOrder id g
step-InOrder g (times_out id) = time_out-InOrder id g
step-InOrder g (settles id) = settle-InOrder id g
step-InOrder g closes = close-InOrder g

arrivals-cons : (e : Event) (es : List Event) → arrivals (e ∷ es) ≡ arrivals (e ∷ []) ++ arrivals es
arrivals-cons (runs id op n) es = refl
arrivals-cons _ es = refl

-- Over any history the calls that start, followed by those that still wait, are in the order of the
-- calls that waited before, followed by those that arrive: no call overtakes another.
pub run_all-InOrder : (g : Gate) (es : List Event) → InOrder g (arrivals es) (run_all g es)
unfolding run_all
run_all-InOrder g [] = rw (append-nil (waiting g)) (Sublist.refl _)
run_all-InOrder g (e ∷ es) =
    let (g', fx) = step g e in
    let rest = run_all g' es in
    rw (arrivals-cons e es, starts-append fx rest.1)
      (in_order_trans (starts fx) (starts rest.1) (waiting g) (waiting g') (waiting rest.0)
        (arrivals (e ∷ [])) (arrivals es) (step-InOrder g e) (run_all-InOrder g' es))
