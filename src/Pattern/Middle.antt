-- ===== src/Pattern/Middle.antt =====
-- The loop over the middle parts of a pattern (src/cache/pattern.ts): taking the first place of each
-- literal finds a match if there is one.
use lazy_layers.Prelude.{
  ℕ, ◌+◌, ◌≡◌, ◌≤◌, ◌↔◌, subst, arith, Text, length, Bool, true, Option, none, some, List, [], ◌∷◌,
  ◌&&◌, not, inl, inr,
}
use lazy_layers.Pattern.{has_line_terminator, find_literal, match_middle, if_found}
use lazy_layers.Pattern.Occurrences.{Stands, le_or_gt}
use lazy_layers.Pattern.Find.{IsFirst, StandsIn, find_literal-IsFirst}
use lazy_layers.Pattern.Gaps.{Plain, Plain-join, has_line_terminator-Plain, Plain-to_later}

-- From i to `end` stand the literals in turn, with plain gaps before, between and after them.
abbrev pub Spans : Text → ℕ → ℕ → List Text → Type 0
Spans text i end [] = (i ≤ end) × Plain text i end
Spans text i end (p ∷ ps) =
    (at : ℕ) × (i ≤ at)
    × Plain text i at
    × Stands p text at (length p)
    × Spans text (at + length p) end ps

pub Spans-bound : (text : Text) (i end : ℕ) (ps : List Text) → Spans text i end ps → i ≤ end
Spans-bound text i end [] h = h.0
Spans-bound text i end (p ∷ ps) (at, f, g, s, h) =
    omega (arith, f, Spans-bound text (at + length p) end ps h)

Spans-earlier :
    (text : Text) (i j end : ℕ) (ps : List Text)
    → i ≤ j
    → Plain text i j
    → Spans text j end ps
    → Spans text i end ps
Spans-earlier text i j end [] f g (h, k) = (omega (arith, f, h), Plain-join text i j end g k)
Spans-earlier text i j end (p ∷ ps) f g (at, h, k, s, r) =
    (at, omega (arith, f, h), Plain-join text i j at g k, s, r)

module _ (text : Text) (i end : ℕ) (p : Text) (ps : List Text) where
  -- The first place of a literal serves as well as a later one.
  Spans-first :
      (at later : ℕ)
      → i ≤ at
      → at ≤ later
      → Stands p text at (length p)
      → Stands p text later (length p)
      → Plain text i later
      → Spans text (later + length p) end ps
      → Plain text i at × Spans text (at + length p) end ps
  Spans-first at later f o s t g r = elim (le_or_gt later at) [
    | inl h ↦
        let same : later ≡ at = omega (arith, h, o) in
        (subst (λ x. Plain text i x) same g, subst (λ x. Spans text (x + length p) end ps) same r)
    | inr h ↦
        let gap : Plain text at later = λ n b l. g n (omega (arith, b, f)) l in
        let whole = Plain-to_later p text at later h s t gap in
        (
          λ n b l. g n b (omega (arith, l, h)),
          Spans-earlier text (at + length p) (later + length p) end ps (omega (arith, o))
              (λ n b l. whole n (omega (arith, b)) l) r,
        )
  ]

  found-Spans :
      (here : ℕ → Bool) (r : Option ℕ)
      → IsFirst p text i end r
      → ((at : ℕ)
          → StandsIn p text i end at
          → (here at ≡ true) ↔ (Plain text i at × Spans text (at + length p) end ps))
      → (if_found here r ≡ true) ↔ Spans text i end (p ∷ ps)
  found-Spans here none f h =
      (λ e. cc, λ (at, b, g, s, r). absurd (f at (b, Spans-bound text (at + length p) end ps r, s)))
  found-Spans here (some at) ((b, e, s), f) h = (
    λ t. let (g, r) = (h at (b, e, s)).0 t in (at, b, g, s, r),
    λ (later, c, g, t, r).
        let order = f later (c, Spans-bound text (later + length p) end ps r, t) in
        (h at (b, e, s)).1 (Spans-first at later b order s t g r),
  )

pub match_middle-Spans :
    (text : Text) (i end : ℕ) (ps : List Text)
    → i ≤ end
    → (match_middle text i end ps ≡ true) ↔ Spans text i end ps
unfolding match_middle
match_middle-Spans text i end [] b =
    let (to, from) = has_line_terminator-Plain text i end b in
    (λ e. (b, to (ground (arith, e))), λ (c, p). ground (arith, from p))
match_middle-Spans text i end ([] ∷ ps) b =
    let (to, from) = match_middle-Spans text i end ps b in
    (
      λ e. (
        i,
        omega arith,
        λ n f l. absurd (omega (arith, f, l)),
        λ n l. absurd (omega (arith, l)),
        subst (λ x. Spans text x end ps) (omega arith) (to e),
      ),
      λ (at, f, g, s, r).
          from
            (Spans-earlier text i at end ps f g (subst (λ x. Spans text x end ps) (omega arith) r)),
    )
match_middle-Spans text i end ((c ∷ l) ∷ ps) b =
    found-Spans text i end (c ∷ l) ps
      (λ at. not (has_line_terminator text i at) && match_middle text (at + length (c ∷ l)) end ps)
      (find_literal text (c ∷ l) i end) (find_literal-IsFirst (c ∷ l) text i end (omega arith) b)
      (λ at (f, e, s).
        let (to, from) = has_line_terminator-Plain text i at f in
        let (to', from') = match_middle-Spans text (at + length (c ∷ l)) end ps e in
        (
          λ t. (to (ground (arith, t)), to' (ground (arith, t))),
          λ (g, r). let u = from g in let v = from' r in ground (arith, u, v),
        ))
