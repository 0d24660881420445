-- ===== src/Pattern/Gaps.antt =====
-- The gaps that the stars of a pattern stand for (src/cache/pattern.ts), and why the first place of
-- each literal is as good as any.
use lazy_layers.Prelude.{
  ℕ, zero, suc, ◌+◌, ◌-◌, ◌≡◌, ◌≤◌, ◌<◌, ◌↔◌, refl, sym, subst, ap, ◌∙◌, arith, Text, length, false,
  inl, inr,
}
use lazy_layers.Pattern.{char_at, is_line_terminator, has_terminator_from, has_line_terminator}
use lazy_layers.Pattern.Occurrences.{Stands, le_or_gt}

-- No line terminator stands from i to j.
abbrev pub Plain : Text → ℕ → ℕ → Type 0
Plain text i j = (n : ℕ) → i ≤ n → n < j → is_line_terminator (char_at text n) ≡ false

pub Plain-join : (text : Text) (i j k : ℕ) → Plain text i j → Plain text j k → Plain text i k
Plain-join text i j k p q n f l = elim (le_or_gt j n) [ inl h ↦ q n h l | inr h ↦ p n f h ]

has_terminator_from-Plain :
    (text : Text) (i n : ℕ) → (has_terminator_from text i n ≡ false) ↔ Plain text i (i + n)
unfolding has_terminator_from
has_terminator_from-Plain text i zero = (λ e n f l. absurd (omega (arith, f, l)), λ p. refl)
has_terminator_from-Plain text i (suc n) =
    let (to, from) = has_terminator_from-Plain text (suc i) n in
    (
      λ e j f l. elim (le_or_gt j i) [
        | inl h ↦
            let same : i ≡ j = omega (arith, f, h) in
            subst (λ x. is_line_terminator (char_at text x) ≡ false) same (ground (arith, e))
        | inr h ↦ to (ground (arith, e)) j h (omega (arith, l))
      ],
      λ p.
          let here = p i (omega arith) (omega arith) in
          let later = from (λ j f l. p j (omega (arith, f)) (omega (arith, l))) in
          ground (arith, here, later),
    )

pub has_line_terminator-Plain :
    (text : Text) (i j : ℕ) → i ≤ j → (has_line_terminator text i j ≡ false) ↔ Plain text i j
unfolding has_line_terminator
has_line_terminator-Plain text i j h =
    subst (λ e. (has_terminator_from text i (j - i) ≡ false) ↔ Plain text i e) (omega (arith, h))
      (has_terminator_from-Plain text i (j - i))

module _ (literal text : Text) (at later : ℕ) (order : at < later)
    (first : Stands literal text at (length literal))
    (second : Stands literal text later (length literal)) (gap : Plain text at later) where
  -- A literal that stands at two places with a plain gap from one to the other is plain itself: its
  -- characters repeat those of the gap.
  repeats_gap :
      (fuel i : ℕ) → i < fuel → i < length literal → is_line_terminator (char_at literal i) ≡ false
  repeats_gap zero i f l = absurd (omega (arith, f))
  repeats_gap (suc fuel) i f l = elim (le_or_gt later (at + i)) [
    | inl h ↦
        let d = later - at in
        let j = i - d in
        let whole : i ≡ d + j = omega (arith, h, order) in
        let same : later + j ≡ at + i = omega (arith, h, order) in
        let moved : char_at literal i ≡ char_at literal j =
          first i l ∙ ap (char_at text) (sym same) ∙ sym (second j (omega (arith, l))) in
        subst (λ c. is_line_terminator c ≡ false) (sym moved)
          (repeats_gap fuel j (omega (arith, f, whole, order)) (omega (arith, l)))
    | inr h ↦
        subst (λ c. is_line_terminator c ≡ false) (sym (first i l)) (gap (at + i) (omega arith) h)
  ]

  pub Plain-to_later : Plain text at (later + length literal)
  Plain-to_later n f l = elim (le_or_gt later n) [
    | inl h ↦
        let i = n - later in
        let same : later + i ≡ n = omega (arith, h) in
        let short : i < length literal = omega (arith, l, h) in
        subst (λ x. is_line_terminator (char_at text x) ≡ false) same
          (subst (λ c. is_line_terminator c ≡ false) (second i short)
            (repeats_gap (suc i) i (omega arith) short))
    | inr h ↦ gap n f h
  ]
