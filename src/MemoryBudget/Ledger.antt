-- ===== src/MemoryBudget/Ledger.antt =====
-- The ledger of src/cache/memoryBudget.ts: categories and total agree, and a reservation is undone by
-- its release.
use lazy_layers.Prelude.{
  ℕ, zero, suc, ap, sym, subst, ◌+◌, ◌-◌, ◌≡◌, ◌≢◌, ◌≤◌, true, false, [], ◌∷◌, arith, sum_by, Text,
  text_eq, text_eq_iff, text_eq_refl, Number, natural, negative, not_integer, min, Bool-cases, inl,
  inr, ◌∙◌, ◌==◌, if◌then◌else◌,
}
use lazy_layers.MemoryBudget.{
  Budget, Categories, lookup, put, try_reserve, release, take_back, permits_promotion,
}

abbrev pub total : Categories → ℕ
total m = sum_by (λ (e : Text × ℕ). e.1) m

pub put-total : (k : Text) (v : ℕ) (m : Categories) → total (put k v m) + lookup k m ≡ total m + v
unfolding put lookup
put-total k v [] = omega arith
put-total k v ((c, n) ∷ m) = ground (arith, put-total k v m)

pub lookup-total : (k : Text) (m : Categories) → lookup k m ≤ total m
unfolding lookup
lookup-total k [] = omega arith
lookup-total k ((c, n) ∷ m) = ground (arith, lookup-total k m)

pub lookup-put : (k : Text) (v : ℕ) (m : Categories) → lookup k (put k v m) ≡ v
unfolding lookup put
lookup-put k v [] = ground (arith, text_eq_refl k)
lookup-put k v ((c, n) ∷ m) = ground (arith, lookup-put k v m)

pub lookup-put_other :
    (j k : Text) (v : ℕ) (m : Categories) → j ≢ k → lookup j (put k v m) ≡ lookup j m
unfolding lookup put
lookup-put_other j k v [] h = ground (arith, text_eq_iff k j)
lookup-put_other j k v ((c, n) ∷ m) h =
    ground (arith, lookup-put_other j k v m h, text_eq_iff c k, text_eq_iff c j)

put_back : (j k : Text) (m : Categories) → lookup j (put k (lookup k m) m) ≡ lookup j m
put_back j k m = elim (Bool-cases (text_eq j k)) [
  | inl e ↦ rw ((text_eq_iff j k).0 e) (lookup-put k (lookup k m) m)
  | inr e ↦ lookup-put_other j k (lookup k m) m (ground (arith, text_eq_iff j k))
]

restored :
    (j k : Text) (v : ℕ) (m : Categories) → lookup j (put k (lookup k m) (put k v m)) ≡ lookup j m
restored j k v m = elim (Bool-cases (text_eq j k)) [
  | inl e ↦ rw ((text_eq_iff j k).0 e) (lookup-put k (lookup k m) (put k v m))
  | inr e ↦
      let apart : j ≢ k = ground (arith, text_eq_iff j k) in
      lookup-put_other j k (lookup k m) (put k v m) apart ∙ lookup-put_other j k v m apart
]

-- The same bytes are accounted for, in total and in every category.
pub record IsSameLedger (b b' : Budget) : Type 0 where
  pub same_used : b'.used ≡ b.used
  pub same_categories : (k : Text) → lookup k b'.categories ≡ lookup k b.categories

-- The budget behind a reservation that succeeds.
abbrev reserved : ℕ → Text → Budget → Budget
reserved n k b = record b {
  used = b.used + n;
  categories = put k (lookup k b.categories + n) b.categories;
  admissions = b.admissions + 1;
}

admitted-reserved :
    (n : ℕ) (k : Text) (b : Budget)
    → (try_reserve (natural n) k b).1 ≡ true
    → (try_reserve (natural n) k b).0 ≡ reserved n k b
unfolding try_reserve
admitted-reserved n k b h = ground arith

take_back-reserved :
    (n : ℕ) (k : Text) (b : Budget) → IsSameLedger b (take_back n k (reserved n k b))
take_back-reserved zero k b = record {
  same_used = omega arith;
  same_categories = λ j.
      let same : lookup k b.categories + 0 ≡ lookup k b.categories = omega arith in
      rw same (put_back j k b.categories);
}
take_back-reserved (suc n) k b = record {
  same_used = ground arith;
  same_categories = λ j.
      let told : lookup k (reserved (suc n) k b).categories - suc n ≡ lookup k b.categories =
        omega (arith, lookup-put k (lookup k b.categories + suc n) b.categories) in
      let positive : (suc n == 0) ≡ false = ground arith in
      rw (told, positive) (restored j k (lookup k b.categories + suc n) b.categories);
}

release-reserved :
    (n : ℕ) (k : Text) (b : Budget)
    → release (natural n) k (reserved n k b) ≡ take_back n k (reserved n k b)
unfolding release
release-reserved n k b =
    let amount : min (min n (lookup k (reserved n k b).categories)) (reserved n k b).used ≡ n =
      ground (arith, lookup-put k (lookup k b.categories + n) b.categories) in
    ap (λ x. take_back x k (reserved n k b)) amount

-- Releasing what was reserved, from the same category, leaves the ledger as it was before the
-- reservation, whatever the category held.
pub release-try_reserve :
    (n : ℕ) (k : Text) (b : Budget)
    → (try_reserve (natural n) k b).1 ≡ true
    → IsSameLedger b (release (natural n) k (try_reserve (natural n) k b).0)
release-try_reserve n k b h =
    subst (λ x. IsSameLedger b (release (natural n) k x)) (sym (admitted-reserved n k b h))
      (subst (IsSameLedger b) (sym (release-reserved n k b)) (take_back-reserved n k b))

-- A promotion that is permitted finds room: a reservation of as many bytes succeeds, in any category,
-- and keeps the bytes in use within the target.
pub permitted_promotion :
    (n : Number) (k : Text) (b : Budget)
    → permits_promotion n b ≡ true
    → ((try_reserve n k b).1 ≡ true) × ((try_reserve n k b).0.used ≤ b.target)
unfolding permits_promotion try_reserve
permitted_promotion (natural n) k b h = ground arith
permitted_promotion (negative n) k b h = cc
permitted_promotion not_integer k b h = cc

take_back_exact :
    (n : ℕ) (k : Text) (b : Budget)
    → n ≤ b.used
    → n ≤ lookup k b.categories
    → ((take_back n k b).used + n ≡ b.used)
      × (lookup k (take_back n k b).categories + n ≡ lookup k b.categories)
take_back_exact n k b u h = ground (arith, lookup-put k (lookup k b.categories - n) b.categories)

-- What a release takes, if the category holds as much.
pub release_exact :
    (n : ℕ) (k : Text) (b : Budget)
    → b.used ≡ total b.categories
    → n ≤ lookup k b.categories
    → ((release (natural n) k b).used + n ≡ b.used)
      × (lookup k (release (natural n) k b).categories + n ≡ lookup k b.categories)
unfolding release
release_exact n k b u h =
    let amount : n ≡ min (min n (lookup k b.categories)) b.used =
      omega (arith, u, h, lookup-total k b.categories) in
    subst
      (λ x.
        ((take_back x k b).used + n ≡ b.used)
        × (lookup k (take_back x k b).categories + n ≡ lookup k b.categories))
      amount (take_back_exact n k b (omega (arith, u, h, lookup-total k b.categories)) h)

-- What a reservation takes.
pub try_reserve_exact :
    (n : ℕ) (k : Text) (b : Budget)
    → let (b', admitted) = try_reserve (natural n) k b in
      let taken = if admitted then n else 0 in
      (b'.used ≡ b.used + taken) × (lookup k b'.categories ≡ lookup k b.categories + taken)
unfolding try_reserve
try_reserve_exact n k b = ground (arith, lookup-put k (lookup k b.categories + n) b.categories)
