-- ===== src/Pattern/Occurrences.antt =====
-- Where a literal stands in a text, for the search of src/cache/pattern.ts.
use lazy_layers.Prelude.{
  ℕ, suc, ◌+◌, ◌≡◌, ◌≤◌, ◌<◌, sym, ap, subst, ◌∙◌, arith, Text, length, ◌⊎◌, inl, inr,
}
use lazy_layers.Pattern.{char_at}

-- The first k characters of the literal stand in the text from n on.
abbrev pub Stands : Text → Text → ℕ → ℕ → Type 0
Stands literal text n k = (i : ℕ) → i < k → char_at literal i ≡ char_at text (n + i)

pub le_or_gt : (a b : ℕ) → (a ≤ b) ⊎ (b < a)
le_or_gt a b = ground arith

pub below_or_last : (i k : ℕ) → i < suc k → (i < k) ⊎ (i ≡ k)
below_or_last i k h = ground arith

module _ (literal text : Text) where
  pub Stands-shorter : (n k j : ℕ) → j ≤ k → Stands literal text n k → Stands literal text n j
  Stands-shorter n k j h s i l = s i (omega (arith, h, l))

  pub Stands-longer :
      (n k p : ℕ)
      → n + k ≡ p
      → Stands literal text n k
      → char_at literal k ≡ char_at text p
      → Stands literal text n (suc k)
  Stands-longer n k p e s c i l = elim (below_or_last i k l) [
    | inl h ↦ s i h
    | inr h ↦
        subst (λ i. char_at literal i ≡ char_at text (n + i)) (sym h)
          (c ∙ ap (char_at text) (sym e))
  ]

  -- A shorter prefix further on is one within the literal itself.
  pub Stands-within :
      (n d j m : ℕ)
      → d + j ≡ m
      → Stands literal text n m
      → Stands literal text (n + d) j
      → Stands literal literal d j
  Stands-within n d j m e s t i l =
      let same : n + (d + i) ≡ n + d + i = omega arith in
      t i l ∙ ap (char_at text) (sym same) ∙ sym (s (d + i) (omega (arith, e, l)))

  pub Stands-further :
      (n d j m : ℕ)
      → d + j ≡ m
      → Stands literal text n m
      → Stands literal literal d j
      → Stands literal text (n + d) j
  Stands-further n d j m e s t i l =
      let same : n + (d + i) ≡ n + d + i = omega arith in
      t i l ∙ s (d + i) (omega (arith, e, l)) ∙ ap (char_at text) same

-- Of the prefixes of the literal that end before p in the text and begin at `start` or later, the
-- longest has m characters.
pub record Longest (literal text : Text) (start p m : ℕ) : Type 0 where
  pub at : ℕ
  pub after_start : start ≤ at
  pub ends_here : at + m ≡ p
  pub stands : Stands literal text at m
  pub is_longest :
      (n j : ℕ) → start ≤ n → n + j ≡ p → j ≤ length literal → Stands literal text n j → j ≤ m
