-- ===== src/Prelude/Decimal.antt =====
-- Decimal numbers: `String(n)` and `string.format('%.0f', n)` of a non-negative integer, and
-- `Number(s)` and `tonumber(s)` of a text of digits.
use Prim.Native.Nat.{ℕ, zero, suc, ◌+◌, ◌-◌, ◌*◌, ◌/◌, ◌%◌, ◌^◌, ◌≤◌, ◌<◌}
use mathlib.Core.Path.{◌≡◌, refl, sym}
use mathlib.Core.Logic.{inl, inr}
use mathlib.Core.Bool.{Bool, true, false, ◌&&◌}
use mathlib.Core.List.{[], ◌∷◌, ◌++◌, append_assoc}
use native.Mathlib.Omega.{arith}
use native.Mathlib.Nat.{pow-suc}
use lazy_layers.Prelude.Tests.{◌==◌, leb, if◌then◌else◌, Bool-cases}
use lazy_layers.Prelude.Lists.{length, length-append}
use lazy_layers.Prelude.Texts.{Text, every, every-append}

abbrev pub is_digit : ℕ → Bool
is_digit c = leb 48 c && leb c 57

-- The digits of n in front of `acc`, with fuel.
unfoldable pub digits_before : ℕ → ℕ → Text → Text
digits_before zero n acc = acc
digits_before (suc fuel) n acc =
    let acc' = (48 + n % 10) ∷ acc in
    let rest = digits_before fuel (n / 10) acc' in if n / 10 == 0 then acc' else rest

unfoldable pub print : ℕ → Text
unfolding digits_before
print n = digits_before (suc n) n []

-- The number that a text of digits stands for, read after `n`.
unfoldable pub value_from : ℕ → Text → ℕ
value_from n [] = n
value_from n (c ∷ s) = value_from (n * 10 + (c - 48)) s

abbrev pub value : Text → ℕ
value s = value_from 0 s

-- /^[1-9][0-9]*$/
unfoldable pub is_positive_decimal : Text → Bool
unfolding every
is_positive_decimal [] = false
is_positive_decimal (c ∷ s) = leb 49 c && leb c 57 && every is_digit s

digits_before-append :
    (fuel n : ℕ) (acc : Text) → digits_before fuel n acc ≡ digits_before fuel n [] ++ acc
unfolding digits_before
digits_before-append zero n acc = refl
digits_before-append (suc fuel) n acc = elim (Bool-cases (n / 10 == 0)) [
  | inl e ↦ rw e
  | inr e ↦
      rw
        (
          e,
          digits_before-append fuel (n / 10) ((48 + n % 10) ∷ acc),
          digits_before-append fuel (n / 10) ((48 + n % 10) ∷ []),
        )
        (sym (append_assoc _ ((48 + n % 10) ∷ []) acc))
]

value_from-append : (n : ℕ) (s t : Text) → value_from n (s ++ t) ≡ value_from (value_from n s) t
unfolding value_from
value_from-append n [] t = refl
value_from-append n (c ∷ s) t = value_from-append (n * 10 + (c - 48)) s t

-- One round of the loop, with the digits in order.
digits_step :
    (fuel n : ℕ)
    → (n / 10 == 0) ≡ false
    → digits_before (suc fuel) n [] ≡ digits_before fuel (n / 10) [] ++ (48 + n % 10) ∷ []
unfolding digits_before
digits_step fuel n e = rw e (digits_before-append fuel (n / 10) ((48 + n % 10) ∷ []))

digits_last :
    (fuel n : ℕ) → (n / 10 == 0) ≡ true → digits_before (suc fuel) n [] ≡ (48 + n % 10) ∷ []
unfolding digits_before
digits_last fuel n e = rw e

value-snoc : (s : Text) (c : ℕ) → value (s ++ c ∷ []) ≡ value s * 10 + (c - 48)
unfolding value_from
value-snoc s c = value_from-append 0 s (c ∷ [])

tenth_below : (fuel n : ℕ) → n < suc fuel → (n / 10 == 0) ≡ false → n / 10 < fuel
tenth_below fuel n h e = ground arith

-- With enough fuel the digits stand for the number.
value-digits_before : (fuel n : ℕ) → n < fuel → value (digits_before fuel n []) ≡ n
unfolding value_from
value-digits_before zero n h = absurd (omega arith)
value-digits_before (suc fuel) n h = elim (Bool-cases (n / 10 == 0)) [
  | inl e ↦ rw (digits_last fuel n e) (ground arith)
  | inr e ↦
      let ih = value-digits_before fuel (n / 10) (tenth_below fuel n h e) in
      rw (digits_step fuel n e, value-snoc (digits_before fuel (n / 10) []) (48 + n % 10), ih)
        (omega arith)
]

pub value-print : (n : ℕ) → value (print n) ≡ n
unfolding print
value-print n = value-digits_before (suc n) n (omega arith)

is_positive_decimal-snoc :
    (s : Text) (c : ℕ)
    → is_positive_decimal s ≡ true
    → is_digit c ≡ true
    → is_positive_decimal (s ++ c ∷ []) ≡ true
unfolding is_positive_decimal
is_positive_decimal-snoc [] c h k = cc
is_positive_decimal-snoc (d ∷ s) c h k = ground (arith, every-append is_digit s (c ∷ []))

positive-digits_before :
    (fuel n : ℕ) → 0 < n → n < fuel → is_positive_decimal (digits_before fuel n []) ≡ true
unfolding is_positive_decimal
positive-digits_before zero n p h = absurd (omega arith)
positive-digits_before (suc fuel) n p h = elim (Bool-cases (n / 10 == 0)) [
  | inl e ↦ rw (digits_last fuel n e) (ground arith)
  | inr e ↦
      let ih = positive-digits_before fuel (n / 10) (ground arith) (tenth_below fuel n h e) in
      rw (digits_step fuel n e)
        (is_positive_decimal-snoc (digits_before fuel (n / 10) []) (48 + n % 10) ih (ground arith))
]

-- A positive number prints as a canonical decimal: no leading zero, digits only.
pub is_positive_decimal-print : (n : ℕ) → 0 < n → is_positive_decimal (print n) ≡ true
unfolding print
is_positive_decimal-print n h = positive-digits_before (suc n) n h (omega arith)

tenth_of_power : (k n : ℕ) → n < 10 ^ suc (suc k) → n / 10 < 10 ^ suc k
tenth_of_power k n h = let h' : n < 10 ^ suc k * 10 = rw (← pow-suc) h in omega arith

length-digits_before : (fuel k n : ℕ) → n < 10 ^ suc k → length (digits_before fuel n []) ≤ suc k
length-digits_before zero k n h = unfold digits_before in omega arith
length-digits_before (suc fuel) zero n h = rw (digits_last fuel n (ground arith)) (omega arith)
length-digits_before (suc fuel) (suc k) n h = elim (Bool-cases (n / 10 == 0)) [
  | inl e ↦ rw (digits_last fuel n e) (omega arith)
  | inr e ↦
      rw (digits_step fuel n e, length-append)
        (omega (arith, length-digits_before fuel k (n / 10) (tenth_of_power k n h)))
]

-- A number below 10^(k + 1) prints in at most k + 1 digits.
pub length-print : (k n : ℕ) → n < 10 ^ suc k → length (print n) ≤ suc k
unfolding print
length-print k n h = length-digits_before (suc n) k n h
