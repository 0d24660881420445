-- ===== src/Transactions/Lease/Safety.antt =====
-- What the local view of a lease is worth (src/transactions/operationStore.ts): whatever the timers do
-- and however often the lease is renewed, while it is live nobody else is granted the operation.
use lazy_layers.Prelude.{
  ℕ, ◌+◌, ◌≤◌, ◌<◌, ◌≡◌, refl, false, Option, none, some, List, [], ◌∷◌, arith, Text, ◌⊎◌, inl, inr,
}
use lazy_layers.Transactions.Replies.{RenewResult, renewed, lost, conflict}
use lazy_layers.Transactions.Script.{
  Codec, CodecLaws, Request, wire, Time, to_ms, Cell, eval, acquired,
}
use lazy_layers.Transactions.Script
use lazy_layers.Transactions.Script.Holding.{IsKept}
use lazy_layers.Transactions.Script.Exclusion.{exclusive, FromOthers, AllDenied}
use lazy_layers.Transactions.Script.Renewal.{exclusive_renewed, renewed_reply}
use lazy_layers.Transactions.Lease.{
  Controller, Event, expires, wakes, answers, asserts, stops, lose, assert_live, maintain, wake,
  answer, step, run,
}

FromOthers-le :
    (owner : Text) (m n : ℕ) (es : List (Request × Time))
    → m ≤ n
    → FromOthers owner m es
    → FromOthers owner n es
FromOthers-le owner m n [] h k = tt
FromOthers-le owner m n ((q, t) ∷ es) h k =
    (k.0, omega (arith, h, k.1), FromOthers-le owner m n es h k.2)

module _ (c : Codec) (owner : Text) (offset : ℕ) where
  -- The run of the script behind an acquisition or a renewal by the owner: it was asked for at `asked`
  -- by the owner's clock, which is `offset` milliseconds behind that of Redis, and it was granted for
  -- `ms` milliseconds.
  pub record Grant (asked ms : ℕ) : Type 0 where
    pub request : Request
    pub time : Time
    pub before : Cell c
    pub kept : IsKept c before
    pub by_owner : request.owner ≡ owner
    pub sent : asked + offset ≤ to_ms time
    pub said :
        ((eval c request time before).1 ≡ wire (acquired request ms))
        ⊎ ((eval c request time before).1 ≡ wire (renewed_reply ms))

  -- A renewal that is answered while the controller waits for it comes from a run of the script.
  abbrev pub IsGranted : Option ℕ → Option RenewResult → Type 0
  IsGranted (some asked) (some (renewed ms)) = Grant asked ms
  IsGranted _ _ = Unit

  abbrev pub IsBacked : Controller → Event → Type 0
  IsBacked s (answers now o) = IsGranted s.asked_at o
  IsBacked s _ = Unit

  abbrev pub AllBacked : Controller → List Event → Type 0
  AllBacked s [] = Unit
  AllBacked s (e ∷ es) = IsBacked s e × AllBacked (step s e) es

  -- The deadline of a controller is that of a grant, counted from when the owner asked for it.
  pub record Rests (deadline : ℕ) : Type 0 where
    pub asked : ℕ
    pub ms : ℕ
    pub ends : deadline ≡ asked + ms
    pub grant : Grant asked ms

  rests_on : (asked ms : ℕ) → Grant asked ms → Rests (asked + ms)
  rests_on asked ms g = record { asked = asked; ms = ms; ends = refl; grant = g }

  wake-deadline : (now : ℕ) (s : Controller) → (wake now s).deadline ≡ s.deadline
  unfolding wake assert_live lose
  wake-deadline now s = ground arith

  lose-deadline : (s : Controller) → (lose s).deadline ≡ s.deadline
  unfolding lose
  lose-deadline s = ground arith

  assert-deadline : (now : ℕ) (s : Controller) → (assert_live now s).0.deadline ≡ s.deadline
  unfolding assert_live lose
  assert-deadline now s = ground arith

  answered-deadline :
      (now asked ms : ℕ) (s : Controller)
      → s.asked_at ≡ some asked
      → let s' = answer now (some (renewed ms)) s in
        (s'.deadline ≡ s.deadline) ⊎ (s'.deadline ≡ asked + ms)
  unfolding answer lose
  answered-deadline now asked ms s e = ground (arith, e)

  unasked-deadline :
      (now : ℕ) (o : Option RenewResult) (s : Controller)
      → s.asked_at ≡ none
      → (answer now o s).deadline ≡ s.deadline
  unfolding answer
  unasked-deadline now o s e = ground (arith, e)

  refused-deadline :
      (now : ℕ) (o : Option RenewResult) (s : Controller)
      → ((ms : ℕ) → o ≡ some (renewed ms) → ⊥)
      → (answer now o s).deadline ≡ s.deadline
  unfolding answer lose
  refused-deadline now none s h = ground arith
  refused-deadline now (some (renewed ms)) s h = absurd (h ms refl)
  refused-deadline now (some lost) s h = ground arith
  refused-deadline now (some conflict) s h = ground arith

  answer-Rests :
      (now : ℕ) (asked : Option ℕ) (o : Option RenewResult) (s : Controller)
      → s.asked_at ≡ asked
      → IsGranted asked o
      → Rests s.deadline
      → Rests (answer now o s).deadline
  answer-Rests now none o s e g r = rw (unasked-deadline now o s e) r
  answer-Rests now (some asked) none s e g r = rw (refused-deadline now none s (λ ms h. cc)) r
  answer-Rests now (some asked) (some lost) s e g r =
      rw (refused-deadline now (some lost) s (λ ms h. cc)) r
  answer-Rests now (some asked) (some conflict) s e g r =
      rw (refused-deadline now (some conflict) s (λ ms h. cc)) r
  answer-Rests now (some asked) (some (renewed ms)) s e g r =
      elim (answered-deadline now asked ms s e) [
        | inl same ↦ rw same r
        | inr later ↦ rw later (rests_on asked ms g)
      ]

  step-Rests :
      (s : Controller) (e : Event) → IsBacked s e → Rests s.deadline → Rests (step s e).deadline
  unfolding step
  step-Rests s expires b r = rw (lose-deadline s) r
  step-Rests s (wakes now) b r = rw (wake-deadline now s) r
  step-Rests s (answers now o) b r = answer-Rests now s.asked_at o s refl b r
  step-Rests s (asserts now) b r = rw (assert-deadline now s) r
  step-Rests s stops b r = r

  run-Rests :
      (s : Controller) (es : List Event)
      → AllBacked s es
      → Rests s.deadline
      → Rests (run s es).deadline
  unfolding run
  run-Rests s [] b r = r
  run-Rests s (e ∷ es) b r = run-Rests (step s e) es b.1 (step-Rests s e b.0 r)

  maintain-deadline :
      (started ms created : ℕ) → (maintain started ms created).deadline ≡ started + ms
  unfolding maintain lose
  maintain-deadline started ms created = ground arith

  passes-in_time :
      (now : ℕ) (s : Controller)
      → s.stopped ≡ false
      → (assert_live now s).1 ≡ false
      → now < s.deadline
  unfolding assert_live lose
  passes-in_time now s n h = ground arith

  -- The last grant, after which the runs for others change nothing and grant nothing.
  pub record Undisturbed (deadline : ℕ) (others : List (Request × Time)) : Type 0 where
    pub last : Rests deadline
    pub unchanged :
        let cell' = (eval c last.grant.request last.grant.time last.grant.before).0 in
        (Script.run_all c others cell').0 ≡ cell'
    pub denied :
        let cell' = (eval c last.grant.request last.grant.time last.grant.before).0 in
        AllDenied (Script.run_all c others cell').1

  Grant-exclusive :
      CodecLaws c
      → (asked ms : ℕ) (g : Grant asked ms) (others : List (Request × Time))
      → FromOthers owner (to_ms g.time + ms) others
      → let cell' = (eval c g.request g.time g.before).0 in
        ((Script.run_all c others cell').0 ≡ cell') × AllDenied (Script.run_all c others cell').1
  Grant-exclusive laws asked ms g others h =
      let h' : FromOthers g.request.owner (to_ms g.time + ms) others = rw g.by_owner h in
      elim g.said [
        | inl said ↦ exclusive c laws g.request g.time g.before ms others g.kept said h'
        | inr said ↦ exclusive_renewed c laws g.request g.time g.before ms others said h'
      ]

-- The codec meets its laws, Redis keeps what the key holds up to its retention deadline, and the clock
-- of the owner is `offset` milliseconds behind that of Redis. An owner has acquired an operation by a
-- request that it sent at `started`, and its controller has gone through any events since: timers,
-- assertions, `stop`, failed renewals, and renewals that runs of the script have granted. If it
-- has not been stopped or lost and `assertLive` passes at `now`, then its deadline is that of the last
-- grant it took into account, counted from when the owner asked for it, and over any later runs
-- for other owners up to that moment the record stays as that grant left it, and none of them is
-- granted anything.
pub live_means_alone :
    (c : Codec)
    → CodecLaws c
    → (owner : Text) (offset started ms created now : ℕ) (es : List Event)
      (others : List (Request × Time))
    → Grant c owner offset started ms
    → AllBacked c owner offset (maintain started ms created) es
    → (run (maintain started ms created) es).stopped ≡ false
    → (assert_live now (run (maintain started ms created) es)).1 ≡ false
    → FromOthers owner (now + offset + 1) others
    → Undisturbed c owner offset (run (maintain started ms created) es).deadline others
live_means_alone c laws owner offset started ms created now es others g backed n live h =
    let s = run (maintain started ms created) es in
    let first : Rests c owner offset (maintain started ms created).deadline =
      rw (maintain-deadline c owner offset started ms created)
        (rests_on c owner offset started ms g) in
    let last = run-Rests c owner offset (maintain started ms created) es backed first in
    let early = passes-in_time c owner offset now s n live in
    let until = to_ms last.grant.time + last.ms in
    let le : now + offset + 1 ≤ until = omega (arith, early, last.ends, last.grant.sent) in
    let (same, denied) =
      Grant-exclusive c owner offset laws last.asked last.ms last.grant others
        (FromOthers-le owner (now + offset + 1) until others le h) in
    record { last = last; unchanged = same; denied = denied }
