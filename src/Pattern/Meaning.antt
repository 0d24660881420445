-- ===== src/Pattern/Meaning.antt =====
-- What a pattern of src/cache/pattern.ts means, and its parts between the stars.
use lazy_layers.Prelude.{
  ℕ, suc, ◌+◌, ◌-◌, ◌≡◌, ◌≤◌, ◌<◌, ◌↔◌, sym, subst, ap, ◌∙◌, arith, Text, length, List, [], ◌∷◌,
  ◌++◌, ◌==◌, if◌then◌else◌, Bool-cases, inl, inr,
}
use lazy_layers.Pattern.{star, drop_text, split_stars, split_last}
use lazy_layers.Pattern.Occurrences.{Stands}
use lazy_layers.Pattern.Gaps.{Plain}
use lazy_layers.Pattern.Middle.{Spans, Spans-bound}
use lazy_layers.Pattern.Suffixes.{
  IsPlain, gap-Plain, Plain-gap, drop_text-cons, drop_text-cons_inv, drop_text-past, Stands-cons,
  Stands-uncons, length-drop_text,
}

-- A text matches a pattern, read from left to right: a star takes any stretch without a line
-- terminator, and every other character itself.
unfoldable pub Matches : Text → Text → Type 0
Matches [] s = s ≡ []
Matches (c ∷ p) s =
    if c == star
    then ((gap : Text) × (rest : Text) × (s ≡ gap ++ rest) × IsPlain gap × Matches p rest)
    else ((rest : Text) × (s ≡ c ∷ rest) × Matches p rest)

-- The parts after the first one stand in turn, each after a plain gap, and the last ends the text.
abbrev pub Tail : Text → List Text → ℕ → Type 0
Tail text [] i = i ≡ length text
Tail text (p ∷ ps) i =
    (at : ℕ) × (i ≤ at)
    × Plain text i at
    × Stands p text at (length p)
    × (at + length p ≤ length text)
    × Tail text ps (at + length p)

abbrev pub Whole : Text → Text × List Text → ℕ → Type 0
Whole text (p, ps) i =
    Stands p text i (length p) × (i + length p ≤ length text) × Tail text ps (i + length p)

-- What follows a star or a character, as a condition on the rest of the text and by its parts.
module _ (text : Text) (M : Text → Type 0) (q : Text) (qs : List Text)
    (same : (j : ℕ) → j ≤ length text → M (drop_text j text) ↔ Whole text (q, qs) j) where
  after_star :
      (i : ℕ)
      → i ≤ length text
      → ((gap : Text) × (rest : Text) × (drop_text i text ≡ gap ++ rest) × IsPlain gap × M rest)
        ↔ Whole text ([], q ∷ qs) i
  after_star i b =
      let none : i + 0 ≡ i = omega arith in
      (
        λ (gap, rest, f, plain, m).
            let (l, between, g) = gap-Plain i text gap rest b f plain in
            let (s, e, t) = (same (i + length gap) l).0 (subst M (sym g) m) in
            (
              λ n o. absurd (omega (arith, o)),
              omega (arith, b),
              subst (λ x. Tail text (q ∷ qs) x) (sym none)
                  (i + length gap, omega arith, between, s, e, t),
            ),
        λ (s, l, t).
            let (at, f, between, u, e, v) = subst (λ x. Tail text (q ∷ qs) x) none t in
            let n = at - i in
            let there : at ≡ i + n = omega (arith, f) in
            let (gap, g, plain) =
              Plain-gap i n text (omega (arith, there, e))
                (subst (λ x. Plain text i x) there between) in
            (
              gap,
              drop_text (i + n) text,
              g,
              plain,
              subst (λ x. M (drop_text x text)) there ((same at (omega (arith, e))).1 (u, e, v)),
            ),
      )

  after_char :
      (c i : ℕ)
      → ((rest : Text) × (drop_text i text ≡ c ∷ rest) × M rest) ↔ Whole text (c ∷ q, qs) i
  after_char c i =
      let next : suc i + length q ≡ i + suc (length q) = omega arith in
      (
        λ (rest, f, m).
            let (l, e, g) = drop_text-cons_inv i text c rest f in
            let (s, b, t) = (same (suc i) l).0 (subst M (sym g) m) in
            (Stands-cons c q text i (e, s), omega (arith, b), subst (λ x. Tail text qs x) next t),
        λ (s, b, t).
            let (e, s') = Stands-uncons c q text i s in
            let l : i < length text = omega (arith, b) in
            (
              drop_text (suc i) text,
              drop_text-cons i text l ∙ ap (λ x. x ∷ drop_text (suc i) text) e,
              (same (suc i) l).1 (s', omega (arith, b), subst (λ x. Tail text qs x) (sym next) t),
            ),
      )

-- A pattern matches the rest of a text exactly if its parts stand in it.
pub Matches-Whole :
    (text pattern : Text) (i : ℕ)
    → i ≤ length text
    → Matches pattern (drop_text i text) ↔ Whole text (split_stars pattern) i
unfolding Matches split_stars
Matches-Whole text [] i b = (
  λ e. (
    λ n l. absurd (omega (arith, l)),
    omega (arith, b),
    omega (arith, b, ap (λ (s : Text). length s) e, length-drop_text i text),
  ),
  λ (s, l, e). drop_text-past i text (omega (arith, e)),
)
Matches-Whole text (c ∷ p) i b =
    let (q, qs) = split_stars p in
    let ih = λ (j : ℕ) (h : j ≤ length text). Matches-Whole text p j h in
    elim (Bool-cases (c == star)) [
      | inl e ↦ rw e (after_star text (Matches p) q qs ih i b)
      | inr e ↦ rw e (after_char text (Matches p) q qs ih c i)
    ]

-- The parts after the first one, if there are any, with the last one apart.
abbrev pub Ends : Text → List Text × Text → ℕ → Type 0
Ends text (middle, last) i =
    (length last ≤ length text)
    × Stands last text (length text - length last) (length last)
    × Spans text i (length text - length last) middle

pub Tail-Ends :
    (text : Text) (p : Text) (ps : List Text) (i : ℕ)
    → Tail text (p ∷ ps) i ↔ Ends text (split_last (p ∷ ps)) i
unfolding split_last
Tail-Ends text p [] i = (
  λ (at, f, g, s, b, e).
      let there : at ≡ length text - length p = omega (arith, e) in
      (
        omega (arith, e),
        subst (λ x. Stands p text x (length p)) there s,
        (omega (arith, there, f), subst (λ x. Plain text i x) there g),
      ),
  λ (b, s, (f, g)). (length text - length p, f, g, s, omega (arith, b), omega (arith, b)),
)
Tail-Ends text p (q ∷ ps) i =
    let (middle, last) = split_last (q ∷ ps) in
    (
      λ (at, f, g, s, b, t).
          let (b', s', r) = (Tail-Ends text q ps (at + length p)).0 t in (b', s', (at, f, g, s, r)),
      λ (b', s', (at, f, g, s, r)).
          let limit = Spans-bound text (at + length p) (length text - length last) middle r in
          (at, f, g, s, omega (arith, limit), (Tail-Ends text q ps (at + length p)).1 (b', s', r)),
    )
