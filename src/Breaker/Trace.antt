-- ===== src/Breaker/Trace.antt =====
-- Histories of calls on one circuit breaker, and the probes that they admit.
use lazy_layers.Prelude.{
  ℕ, ◌+◌, ◌≤◌, ◌<◌, ◌≡◌, ◌≢◌, Bool, true, false, Option, none, some, List, [], ◌∷◌, arith, ap, ◌∙◌,
  ◌&&◌, if◌then◌else◌, length,
}
use lazy_layers.Breaker.{
  Breaker, closed, opened, half_open, can_call, record_success, record_failure, is_disabled,
  get_failure_threshold,
}

pub data Call : Type 0 where
  calls : ℕ → Call
  succeeds : Option ℕ → Call
  fails : ℕ → Option ℕ → Call

unfoldable pub step : Breaker → Call → Breaker
step b (calls now) = (can_call now b).0
step b (succeeds report) = record_success report b
step b (fails now report) = record_failure now report b

unfoldable pub run : Breaker → List Call → Breaker
run b [] = b
run b (c ∷ cs) = run (step b c) cs

abbrev pub is_half_open : Breaker → Bool
is_half_open b = elim b.state [ half_open ↦ true | _ ↦ false ]

-- The epoch of the probe that a call admits, if it admits one.
abbrev pub probe_of : Breaker × Bool → Option ℕ
probe_of (b, admitted) = if is_half_open b && admitted then some b.epoch else none

abbrev pub note : Option ℕ → List ℕ → List ℕ
note none es = es
note (some e) es = e ∷ es

-- The epochs of the probes that a history admits, in order.
unfoldable pub probes : Breaker → List Call → List ℕ
probes b [] = []
probes b (calls now ∷ cs) =
    let rest = probes (step b (calls now)) cs in note (probe_of (can_call now b)) rest
probes b (c ∷ cs) = probes (step b c) cs

-- Strictly ascending numbers, from `n` on.
abbrev pub Ascends : ℕ → List ℕ → Type 0
Ascends n [] = Unit
Ascends n (e ∷ es) = (n ≤ e) × Ascends (e + 1) es

-- The least epoch at which the next probe can be admitted.
abbrev pub next_probe : Breaker → ℕ
next_probe b = elim b.state [
  | half_open ↦ if b.probe_in_flight then b.epoch + 1 else b.epoch
  | _ ↦ b.epoch + 1
]

Ascends-le : (m n : ℕ) (es : List ℕ) → m ≤ n → Ascends n es → Ascends m es
Ascends-le m n [] h a = tt
Ascends-le m n (e ∷ es) h a = (omega arith, a.1)

enabled-step : (b : Breaker) (c : Call) → is_disabled b ≡ false → is_disabled (step b c) ≡ false
unfolding step can_call record_success record_failure
enabled-step b (calls now) h = ground arith
enabled-step b (succeeds report) h = ground arith
enabled-step b (fails now report) h = ground arith

next_probe-success : (b : Breaker) (r : Option ℕ) → next_probe b ≤ next_probe (record_success r b)
unfolding record_success
next_probe-success b r = ground arith

next_probe-failure :
    (b : Breaker) (now : ℕ) (r : Option ℕ) → next_probe b ≤ next_probe (record_failure now r b)
unfolding record_failure
next_probe-failure b now r = ground arith

-- What one call, with the probe that it admits, does to the bound.
abbrev Bounded : ℕ → ℕ → Option ℕ → Type 0
Bounded n m none = n ≤ m
Bounded n m (some e) = (n ≤ e) × (m ≡ e + 1)

can_call-Bounded :
    (now : ℕ) (b : Breaker)
    → is_disabled b ≡ false
    → Bounded (next_probe b) (next_probe (can_call now b).0) (probe_of (can_call now b))
unfolding can_call
can_call-Bounded now b h = ground arith

note-Ascends :
    (n m : ℕ) (o : Option ℕ) (es : List ℕ) → Bounded n m o → Ascends m es → Ascends n (note o es)
note-Ascends n m none es h a = Ascends-le n m es h a
note-Ascends n m (some e) es h a = (h.0, rw (← h.1) a)

-- Whatever is called on an enabled breaker, and whenever, the probes that it admits have strictly
-- ascending epochs, from the least one at which the breaker can still admit a probe: no epoch admits
-- two probes.
pub probes-Ascends :
    (b : Breaker) (cs : List Call) → is_disabled b ≡ false → Ascends (next_probe b) (probes b cs)
unfolding probes step
probes-Ascends b [] h = tt
probes-Ascends b (calls now ∷ cs) h =
    note-Ascends _ _ (probe_of (can_call now b)) _ (can_call-Bounded now b h)
      (probes-Ascends (can_call now b).0 cs (enabled-step b (calls now) h))
probes-Ascends b (succeeds r ∷ cs) h =
    Ascends-le _ _ (probes (record_success r b) cs) (next_probe-success b r)
      (probes-Ascends (record_success r b) cs (enabled-step b (succeeds r) h))
probes-Ascends b (fails now r ∷ cs) h =
    Ascends-le _ _ (probes (record_failure now r b) cs) (next_probe-failure b now r)
      (probes-Ascends (record_failure now r b) cs (enabled-step b (fails now r) h))

-- Failures without an epoch at the given times.
abbrev pub failures_at : List ℕ → List Call
failures_at [] = []
failures_at (t ∷ ts) = fails t none ∷ failures_at ts

failure_below :
    (now : ℕ) (b : Breaker)
    → is_disabled b ≡ false
    → b.state ≡ closed
    → b.failures + 1 < get_failure_threshold b
    → record_failure now none b ≡ record b { failures = b.failures + 1 }
unfolding record_failure
failure_below now b e s h = ground arith

epoch-step : (b : Breaker) (c : Call) → b.epoch ≤ (step b c).epoch
unfolding step can_call record_success record_failure
epoch-step b (calls now) = ground arith
epoch-step b (succeeds report) = ground arith
epoch-step b (fails now report) = ground arith

epoch-run : (b : Breaker) (cs : List Call) → b.epoch ≤ (run b cs).epoch
unfolding run
epoch-run b [] = omega arith
epoch-run b (c ∷ cs) = omega (arith, epoch-step b c, epoch-run (step b c) cs)

epoch-opens :
    (now : ℕ) (r : Option ℕ) (b : Breaker)
    → b.state ≢ opened
    → (record_failure now r b).state ≡ opened
    → b.epoch < (record_failure now r b).epoch
unfolding record_failure
epoch-opens now r b n o = ground arith

success_past : (b : Breaker) (e : ℕ) → e < b.epoch → record_success (some e) b ≡ b
unfolding record_success
success_past b e h = ground arith

failure_past : (now : ℕ) (b : Breaker) (e : ℕ) → e < b.epoch → record_failure now (some e) b ≡ b
unfolding record_failure
failure_past now b e h = ground arith

run_failures :
    (b : Breaker) (ts : List ℕ)
    → is_disabled b ≡ false
    → b.state ≡ closed
    → b.failures + length ts < get_failure_threshold b
    → run b (failures_at ts) ≡ record b { failures = b.failures + length ts }
unfolding run step
run_failures b [] e s h = ground arith
run_failures b (t ∷ ts) e s h =
    let b' : Breaker = record b { failures = b.failures + 1 } in
    ap (λ x. run x (failures_at ts)) (failure_below t b e s (omega arith))
    ∙ run_failures b' ts e s (omega arith)
    ∙ ap (λ n. record b { failures = n }) (omega arith)

next_failure_opens :
    (b b' : Breaker) (n now : ℕ)
    → is_disabled b ≡ false
    → b.state ≡ closed
    → b' ≡ record b { failures = n }
    → n + 1 ≡ get_failure_threshold b
    → let c = record_failure now none b' in
      (c.state ≡ opened) × (c.opened_at ≡ now) × (c.epoch ≡ b.epoch + 1)
unfolding record_failure
next_failure_opens b b' n now e s q h = ground arith

-- A closed, enabled breaker stays closed, and counts, over failures that stay below the threshold
-- together with those on record; if the next one reaches the threshold, it opens the circuit, at the
-- time of that failure and in a new epoch.
pub opens_at_threshold :
    (b : Breaker) (ts : List ℕ) (now : ℕ)
    → is_disabled b ≡ false
    → b.state ≡ closed
    → b.failures + length ts + 1 ≡ get_failure_threshold b
    → let b' = run b (failures_at ts) in
      let c = record_failure now none b' in
      (b'.state ≡ closed)
      × (b'.failures ≡ b.failures + length ts)
      × (c.state ≡ opened)
      × (c.opened_at ≡ now)
      × (c.epoch ≡ b.epoch + 1)
opens_at_threshold b ts now e s full =
    let q = run_failures b ts e s (omega arith) in
    let (o, at, ep) = next_failure_opens b _ (b.failures + length ts) now e s q full in
    (cc, cc, o, at, ep)

-- After a failure that opens a circuit that was not open, and whatever is called then, a report that
-- carries the epoch before that failure changes nothing, success or failure.
pub late_report_ignored :
    (b : Breaker) (now later : ℕ) (r : Option ℕ) (cs : List Call)
    → b.state ≢ opened
    → (record_failure now r b).state ≡ opened
    → let b' = run (record_failure now r b) cs in
      (record_success (some b.epoch) b' ≡ b') × (record_failure later (some b.epoch) b' ≡ b')
late_report_ignored b now later r cs n o =
    let past : b.epoch < (run (record_failure now r b) cs).epoch =
      omega (arith, epoch-opens now r b n o, epoch-run (record_failure now r b) cs) in
    (success_past _ b.epoch past, failure_past later _ b.epoch past)
