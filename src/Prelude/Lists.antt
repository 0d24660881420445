-- ===== src/Prelude/Lists.antt =====
-- Lists measured by native numbers, and the queue operation that the gates share: an entry is
-- taken out by its identity, as `indexOf` and `splice` or `Set.delete` do.
use Prim.Native.Nat.{ℕ, zero, suc, ◌+◌}
use mathlib.Core.Path.{◌≡◌, ap, sym, subst, subst₂}
use mathlib.Core.List.{List, [], ◌∷◌, ◌++◌, map, append_assoc, Sublist, Sublistᴰ}
use mathlib.Core.List.Sublist
use mathlib.Core.Logic.{inl, inr, ∥∥₁_map}
use mathlib.Core.Option.{Option, none, some}
use native.Mathlib.Omega.{arith}
use lazy_layers.Prelude.Tests.{◌==◌, if◌then◌else◌, Bool-cases}

module _ {ℓ} {A : Type ℓ} where
  abbrev pub length : List A → ℕ
  length [] = 0
  length (x ∷ xs) = suc (length xs)

  -- The sum of a measure over a list.
  abbrev pub sum_by : (A → ℕ) → List A → ℕ
  sum_by f [] = 0
  sum_by f (x ∷ xs) = f x + sum_by f xs

  pub length-append : (xs ys : List A) → length (xs ++ ys) ≡ length xs + length ys
  length-append [] ys = omega arith
  length-append (x ∷ xs) ys = omega (arith, length-append xs ys)

  pub sum_by-append : (f : A → ℕ) (xs ys : List A) → sum_by f (xs ++ ys) ≡ sum_by f xs + sum_by f ys
  sum_by-append f [] ys = omega arith
  sum_by-append f (x ∷ xs) ys = omega (arith, sum_by-append f xs ys)

  abbrev pub cons_rest : A → Option (A × List A) → Option (A × List A)
  cons_rest x none = none
  cons_rest x (some (a, rest)) = some (a, x ∷ rest)

  -- The first entry whose key is `k`, with the list that is left.
  abbrev pub take_out : (A → ℕ) → ℕ → List A → Option (A × List A)
  take_out key k [] = none
  take_out key k (x ∷ xs) =
      let later = cons_rest x (take_out key k xs) in if key x == k then some (x, xs) else later

  -- What is taken out and what is left add up to what was there.
  abbrev pub AddsUp : (A → ℕ) → List A → Option (A × List A) → Type 0
  AddsUp f xs none = Unit
  AddsUp f xs (some (a, rest)) =
      (sum_by f xs ≡ f a + sum_by f rest) × (length xs ≡ suc (length rest))

  pub take_out-AddsUp : (f key : A → ℕ) (k : ℕ) (xs : List A) → AddsUp f xs (take_out key k xs)
  take_out-AddsUp f key k [] = tt
  take_out-AddsUp f key k (x ∷ xs) = ground (arith, take_out-AddsUp f key k xs)

  -- The entry at a place, with the list that is left.
  abbrev pub take_at : ℕ → List A → Option (A × List A)
  take_at n [] = none
  take_at zero (x ∷ xs) = some (x, xs)
  take_at (suc n) (x ∷ xs) = cons_rest x (take_at n xs)

  -- Taking an entry out keeps the order of the others.
  abbrev pub Thins : List A → Option (A × List A) → Type ℓ
  Thins xs none = Unit {ℓ}
  Thins xs (some (a, rest)) = Sublist rest xs

  cons_rest-Thins :
      (x : A) (xs : List A) (r : Option (A × List A)) → Thins xs r → Thins (x ∷ xs) (cons_rest x r)
  cons_rest-Thins x xs none h = tt
  cons_rest-Thins x xs (some (a, rest)) h = Sublist.cons-cons x h

  pub take_out-Thins : (key : A → ℕ) (k : ℕ) (xs : List A) → Thins xs (take_out key k xs)
  take_out-Thins key k [] = tt
  take_out-Thins key k (x ∷ xs) = elim (Bool-cases (key x == k)) [
    | inl e ↦ rw e (Sublist.cons x (Sublist.refl xs))
    | inr e ↦ rw e (cons_rest-Thins x xs (take_out key k xs) (take_out-Thins key k xs))
  ]

map-Sublistᴰ {ℓ κ} :
    {A : Type ℓ} {B : Type κ} (f : A → B) {xs ys : List A}
    → Sublistᴰ xs ys
    → Sublistᴰ (map f xs) (map f ys)
map-Sublistᴰ f Sublistᴰ.slnil = Sublistᴰ.slnil
map-Sublistᴰ f (Sublistᴰ.cons h) = Sublistᴰ.cons (map-Sublistᴰ f h)
map-Sublistᴰ f (Sublistᴰ.cons-cons e h) = Sublistᴰ.cons-cons (ap f e) (map-Sublistᴰ f h)

pub map-Sublist {ℓ κ} :
    {A : Type ℓ} {B : Type κ} (f : A → B) {xs ys : List A}
    → Sublist xs ys
    → Sublist (map f xs) (map f ys)
map-Sublist f h = ∥∥₁_map h (map-Sublistᴰ f)

-- What one step serves and leaves in a queue, and what the next step does, in the order of arrival.
pub in_order_trans {ℓ} :
    {A : Type ℓ} (s s' q q' q'' a a' : List A)
    → Sublist (s ++ q') (q ++ a)
    → Sublist (s' ++ q'') (q' ++ a')
    → Sublist ((s ++ s') ++ q'') (q ++ (a ++ a'))
in_order_trans s s' q q' q'' a a' h h' =
    let first : Sublist (s ++ (s' ++ q'')) (s ++ (q' ++ a')) = Sublist.append (Sublist.refl s) h' in
    let second : Sublist ((s ++ q') ++ a') ((q ++ a) ++ a') = Sublist.append h (Sublist.refl a') in
    subst₂ Sublist (sym (append_assoc s s' q'')) (append_assoc q a a')
      (Sublist.trans first (subst (λ l. Sublist l ((q ++ a) ++ a')) (append_assoc s q' a') second))
