-- ===== src/Pattern/Find.antt =====
-- findLiteral of src/cache/pattern.ts finds the first place where the literal stands.
use lazy_layers.Prelude.{
  ℕ, zero, suc, ◌+◌, ◌-◌, ◌≡◌, ◌≤◌, ◌<◌, subst, arith, Text, length, ◌==◌, if_cases, Option, none,
  some, inl, inr,
}
use lazy_layers.Pattern.{char_at, advance, search, failure_table, find_literal}
use lazy_layers.Pattern.Occurrences.{Stands, Longest, le_or_gt}
use lazy_layers.Pattern.Failure.{IsTable, advance-Longest, failure_table-IsTable}

-- The literal stands in the text at the place n, between `start` and `end`.
abbrev pub StandsIn : Text → Text → ℕ → ℕ → ℕ → Type 0
StandsIn literal text start end n =
    (start ≤ n) × (n + length literal ≤ end) × Stands literal text n (length literal)

-- The first place where it stands, or none.
abbrev pub IsFirst : Text → Text → ℕ → ℕ → Option ℕ → Type 0
IsFirst literal text start end none = (n : ℕ) → ¬ StandsIn literal text start end n
IsFirst literal text start end (some at) =
    StandsIn literal text start end at × ((n : ℕ) → StandsIn literal text start end n → at ≤ n)

module _ (literal text failure : Text) (table : IsTable literal failure (length literal)) where
  -- What is found when the whole literal ends before p, and did not end before.
  found-IsFirst :
      (start end p m : ℕ)
      → m ≡ length literal
      → suc p ≤ end
      → Longest literal text start (suc p) m
      → ((n : ℕ) → ¬ StandsIn literal text start p n)
      → IsFirst literal text start end (some (p + 1 - length literal))
  found-IsFirst start end p m e b l h =
      let place : l.at ≡ p + 1 - length literal = omega (arith, l.ends_here, e) in
      let whole : Stands literal text l.at (length literal) =
        subst (λ k. Stands literal text l.at k) e l.stands in
      let there : StandsIn literal text start end l.at =
        (l.after_start, omega (arith, l.ends_here, e, b), whole) in
      subst (λ n. IsFirst literal text start end (some n)) place
        (
          there,
          λ n (f, g, s). elim (le_or_gt (n + length literal) p) [
            | inl o ↦ absurd (h n (f, o, s))
            | inr o ↦ omega (arith, o, l.ends_here, e)
          ],
        )

  search-IsFirst :
      (start end n p m : ℕ)
      → p + n ≡ end
      → m < length literal
      → Longest literal text start p m
      → ((n : ℕ) → ¬ StandsIn literal text start p n)
      → IsFirst literal text start end (search failure literal text p m n)
  unfolding search
  search-IsFirst start end zero p m e b l h =
      subst (λ p. (n : ℕ) → ¬ StandsIn literal text start p n) (omega (arith, e)) h
  search-IsFirst start end (suc n) p m e b l h =
      let m' = advance failure literal (char_at text p) m in
      let (s, l') =
        advance-Longest literal text failure start p m b (λ q o. table q (omega (arith, o, b))) l in
      if_cases (IsFirst literal text start end) (m' == length literal)
        (λ t. found-IsFirst start end p m' (ground (arith, t)) (omega (arith, e)) l' h)
        (λ t.
          let short : m' < length literal = ground (arith, t, s, b) in
          search-IsFirst start end n (suc p) m' (omega (arith, e)) short l' (λ i (f, g, u).
            elim (le_or_gt (i + length literal) p) [
              | inl o ↦ h i (f, o, u)
              | inr o ↦ absurd (
                  omega (
                    arith,
                    short,
                    l'.is_longest i (length literal) f (omega (arith, o, g)) (omega arith) u,
                  ))
            ]))

-- If the literal is not empty and `start` is not beyond `end`, findLiteral finds the first place between
-- the two at which the literal stands whole, and nothing if there is no such place.
pub find_literal-IsFirst :
    (literal text : Text) (start end : ℕ)
    → 0 < length literal
    → start ≤ end
    → IsFirst literal text start end (find_literal text literal start end)
unfolding find_literal
find_literal-IsFirst literal text start end b o =
    search-IsFirst literal text (failure_table literal) (failure_table-IsTable literal) start end
      (end - start) start 0 (omega (arith, o)) b
      (record {
        at = start;
        after_start = omega arith;
        ends_here = omega arith;
        stands = λ i h. absurd (omega (arith, h));
        is_longest = λ n j f e c t. omega (arith, f, e);
      })
      (λ n (f, g, s). omega (arith, f, g, b))
