-- ===== src/Prelude/Maps.antt =====
-- JavaScript's `Map`: its entries in the order of insertion, for any type of keys with a test of
-- equality.
use Prim.Native.Nat.{ℕ, suc, ◌+◌}
use mathlib.Core.Path.{◌≡◌, refl}
use mathlib.Core.Logic.{◌↔◌, ◌≢◌, inl, inr}
use mathlib.Core.Bool.{Bool, true, false}
use mathlib.Core.Option.{Option, none, some}
use mathlib.Core.List.{List, [], ◌∷◌}
use native.Mathlib.Omega.{arith}
use lazy_layers.Prelude.Tests.{if◌then◌else◌, Bool-cases}
use lazy_layers.Prelude.Lists.{length, sum_by}

pub record Eq {ℓ} (A : Type ℓ) : Type ℓ where
  pub beq : A → A → Bool
  pub beq_iff : (a b : A) → (beq a b ≡ true) ↔ (a ≡ b)

abbrev pub Map {ℓ κ} : Type ℓ → Type κ → Type (ℓ ⊔ κ)
Map K V = List (K × V)

abbrev pub is_some {ℓ} : {V : Type ℓ} → Option V → Bool
is_some none = false
is_some (some v) = true

module _ {ℓ κ} {K : Type ℓ} {V : Type κ} ⦃e : Eq K⦄ where
  -- map.get(k)
  unfoldable pub find : K → Map K V → Option V
  find k [] = none
  find k ((j, v) ∷ m) = let rest = find k m in if e.beq j k then some v else rest

  -- map.set(k, v): an entry that is there keeps its place.
  unfoldable pub set_key : K → V → Map K V → Map K V
  set_key k v [] = (k, v) ∷ []
  set_key k v ((j, w) ∷ m) =
      let rest = set_key k v m in if e.beq j k then (j, v) ∷ m else (j, w) ∷ rest

  -- map.delete(k)
  unfoldable pub remove : K → Map K V → Map K V
  remove k [] = []
  remove k ((j, w) ∷ m) = let rest = remove k m in if e.beq j k then m else (j, w) ∷ rest

  -- No key has two entries.
  unfoldable pub IsUnique : Map K V → Type κ
  IsUnique [] = Unit {κ}
  IsUnique ((j, w) ∷ m) = (find j m ≡ none) × IsUnique m

  pub find-set_key : (k : K) (v : V) (m : Map K V) → find k (set_key k v m) ≡ some v
  unfolding find set_key
  find-set_key k v [] = ground (arith, e.beq_iff k k)
  find-set_key k v ((j, w) ∷ m) = ground (arith, find-set_key k v m, e.beq_iff j k)

  pub find-set_key_other :
      (j k : K) (v : V) (m : Map K V) → j ≢ k → find j (set_key k v m) ≡ find j m
  unfolding find set_key
  find-set_key_other j k v [] h = ground (arith, e.beq_iff k j)
  find-set_key_other j k v ((i, w) ∷ m) h =
      ground (arith, find-set_key_other j k v m h, e.beq_iff i k, e.beq_iff i j)

  pub find-remove_other : (j k : K) (m : Map K V) → j ≢ k → find j (remove k m) ≡ find j m
  unfolding find remove
  find-remove_other j k [] h = refl
  find-remove_other j k ((i, w) ∷ m) h =
      ground (arith, find-remove_other j k m h, e.beq_iff i k, e.beq_iff i j)

  pub find-remove : (k : K) (m : Map K V) → IsUnique m → find k (remove k m) ≡ none
  unfolding find remove IsUnique
  find-remove k [] u = refl
  find-remove k ((j, w) ∷ m) u = ground (arith, find-remove k m u.1, u.0, e.beq_iff j k)

  -- What an entry contributes to a sum is there before the entry is removed.
  pub sum-remove :
      (f : K × V → ℕ) (k : K) (v : V) (m : Map K V)
      → find k m ≡ some v
      → sum_by f (remove k m) + f (k, v) ≡ sum_by f m
  unfolding find remove
  sum-remove f k v [] h = ground arith
  sum-remove f k v ((j, w) ∷ m) h = elim (Bool-cases (e.beq j k)) [
    | inl t ↦
        let was : K × V = (j, w) in
        let asked : K × V = (k, v) in
        let same : was ≡ asked = ground (arith, (e.beq_iff j k).0 t) in rw (t, same) (omega arith)
    | inr t ↦ rw t (omega (arith, sum-remove f k v m (ground arith)))
  ]

  pub length-remove :
      (k : K) (v : V) (m : Map K V) → find k m ≡ some v → suc (length (remove k m)) ≡ length m
  unfolding find remove
  length-remove k v [] h = ground arith
  length-remove k v ((j, w) ∷ m) h = ground (arith, length-remove k v m)

  pub sum-set_key_new :
      (f : K × V → ℕ) (k : K) (v : V) (m : Map K V)
      → find k m ≡ none
      → sum_by f (set_key k v m) ≡ sum_by f m + f (k, v)
  unfolding find set_key
  sum-set_key_new f k v [] h = omega arith
  sum-set_key_new f k v ((j, w) ∷ m) h = ground (arith, sum-set_key_new f k v m)

  pub length-set_key_new :
      (k : K) (v : V) (m : Map K V) → find k m ≡ none → length (set_key k v m) ≡ suc (length m)
  unfolding find set_key
  length-set_key_new k v [] h = refl
  length-set_key_new k v ((j, w) ∷ m) h = ground (arith, length-set_key_new k v m)

  pub remove_missing : (k : K) (m : Map K V) → find k m ≡ none → remove k m ≡ m
  unfolding find remove
  remove_missing k [] h = refl
  remove_missing k ((j, w) ∷ m) h = ground (arith, remove_missing k m)

  pub remove_keeps_absent : (j k : K) (m : Map K V) → find j m ≡ none → find j (remove k m) ≡ none
  unfolding find remove
  remove_keeps_absent j k [] h = refl
  remove_keeps_absent j k ((i, w) ∷ m) h = ground (arith, remove_keeps_absent j k m)

  pub remove-IsUnique : (k : K) (m : Map K V) → IsUnique m → IsUnique (remove k m)
  unfolding IsUnique remove
  remove-IsUnique k [] u = u
  remove-IsUnique k ((j, w) ∷ m) u =
      ground (arith, u.0, u.1, remove-IsUnique k m u.1, remove_keeps_absent j k m u.0)

  set_key_keeps_absent :
      (j k : K) (v : V) (m : Map K V)
      → e.beq k j ≡ false
      → find j m ≡ none
      → find j (set_key k v m) ≡ none
  unfolding find set_key
  set_key_keeps_absent j k v [] h n = ground arith
  set_key_keeps_absent j k v ((i, w) ∷ m) h n =
      ground (arith, set_key_keeps_absent j k v m, e.beq_iff i k)

  pub set_key-IsUnique : (k : K) (v : V) (m : Map K V) → IsUnique m → IsUnique (set_key k v m)
  unfolding IsUnique set_key find
  set_key-IsUnique k v [] u = (refl, tt)
  set_key-IsUnique k v ((j, w) ∷ m) u = ground (
    arith,
    u.0,
    u.1,
    set_key-IsUnique k v m u.1,
    set_key_keeps_absent j k v m,
    e.beq_iff j k,
    e.beq_iff k j,
  )

  -- A map without keys is empty.
  pub none_found : (m : Map K V) → ((k : K) → find k m ≡ none) → m ≡ []
  unfolding find
  none_found [] h = refl
  none_found ((j, w) ∷ m) h = ground (arith, h j, e.beq_iff j j)

  pub sum-set_key_old :
      (f : K × V → ℕ) (k : K) (v w : V) (m : Map K V)
      → find k m ≡ some w
      → sum_by f (set_key k v m) + f (k, w) ≡ sum_by f m + f (k, v)
  unfolding find set_key
  sum-set_key_old f k v w [] h = ground arith
  sum-set_key_old f k v w ((j, u) ∷ m) h = elim (Bool-cases (e.beq j k)) [
    | inl t ↦
        let was : K × V = (j, u) in
        let asked : K × V = (k, w) in
        let same : was ≡ asked = ground (arith, (e.beq_iff j k).0 t) in
        let now : K × V = (j, v) in
        let wanted : K × V = (k, v) in
        let same' : now ≡ wanted = ground (arith, (e.beq_iff j k).0 t) in
        rw (t, same, same') (omega arith)
    | inr t ↦ rw t (omega (arith, sum-set_key_old f k v w m (ground arith)))
  ]
