-- ===== src/Lock/Tests.antt =====
-- Tests of the lock controller, and an example of its theorem.
use lazy_layers.Prelude.{◌≡◌, refl, true, false, some, [], ◌∷◌, arith}
use lazy_layers.Lock.{Controller, answers, asserts, maintain, assert_owned, answer, step, run}
use lazy_layers.Lock.Safety.{lock_not_revived}

-- Acquired at 1000 by the wall clock, for 30 milliseconds, of which ten have passed at 50.
maintain_deadline : (maintain 30 1000 1010 50).deadline ≡ 70
unfolding maintain
maintain_deadline = refl

abbrev held : Controller
held = record { ttl_ms = 30; deadline = 70; stopped = false; is_lost = false; asked_at = some 60 }

renewed_in_time : (run held (answers 69 (some true) ∷ asserts 80 ∷ [])).deadline ≡ 90
unfolding run step answer assert_owned
renewed_in_time = refl

lock_not_revived_example :
    (assert_owned 75 (run held (answers 71 (some true) ∷ asserts 72 ∷ []))).1 ≡ true
lock_not_revived_example =
    lock_not_revived held (answers 71 (some true) ∷ asserts 72 ∷ []) 75 refl
      (omega arith, (omega arith, tt)) (omega arith)
