-- ===== src/Pattern/Matching.antt =====
-- matchesPattern of src/cache/pattern.ts decides what a pattern means.
use lazy_layers.Prelude.{
  ◌+◌, ◌-◌, ◌≡◌, ◌≤◌, ◌≢◌, ◌↔◌, ◌⊎◌, refl, sym, subst, ap, arith, Text, length, Bool, true, false,
  List, [], ◌∷◌, ◌==◌, not, Bool-cases, inl, inr, text_eq, text_eq_iff, if_cases,
}
use lazy_layers.Pattern.{
  star, includes_star, split_stars, cons_part, split_last, match_middle, match_parts,
  matches_pattern, drop_text,
}
use lazy_layers.Pattern.Middle.{match_middle-Spans, Spans-bound}
use lazy_layers.Pattern.Suffixes.{starts_with-Stands, ends_with-Stands, drop_text-Stands}
use lazy_layers.Pattern.Meaning.{Matches, Whole, Matches-Whole, Tail-Ends}

split_stars-none : (p : Text) → includes_star p ≡ false → split_stars p ≡ (p, [])
unfolding includes_star split_stars
split_stars-none [] h = refl
split_stars-none (c ∷ p) h = elim (Bool-cases (c == star)) [
  | inl e ↦ absurd (ground (arith, e, h))
  | inr e ↦ rw e (ap (cons_part c) (split_stars-none p (ground (arith, e, h))))
]

split_stars-some :
    (p : Text)
    → includes_star p ≡ true
    → (q : Text) × (qs : List Text) × ((split_stars p).1 ≡ q ∷ qs)
unfolding includes_star split_stars
split_stars-some [] h = cc
split_stars-some (c ∷ p) h = elim (Bool-cases (c == star)) [
  | inl e ↦ rw e ((split_stars p).0, (split_stars p).1, refl)
  | inr e ↦ rw e (split_stars-some p (ground (arith, e, h)))
]

-- A pattern with a star.
match_parts-Whole :
    (value first q : Text) (qs : List Text)
    → (match_parts value first (split_last (q ∷ qs)) ≡ true) ↔ Whole value (first, q ∷ qs) 0
unfolding match_parts
match_parts-Whole value first q qs =
    let (middle, last) = split_last (q ∷ qs) in
    let (to, from) = starts_with-Stands value first in
    let (to', from') = ends_with-Stands value last in
    let (tail, untail) = Tail-Ends value q qs (0 + length first) in
    let position = length first in
    let end = length value - length last in
    let start : 0 + position ≡ position = omega arith in
    let moved : match_middle value (0 + position) end middle
        ≡ match_middle value position end middle =
      ap (λ n. match_middle value n end middle) start in
    (
      λ e.
          let (b, s) = to (ground (arith, e)) in
          let (b', s') = to' (ground (arith, e)) in
          let bound : position ≤ end = ground (arith, e) in
          let spans =
            (match_middle-Spans value (0 + position) end middle (omega (arith, bound))).0
              (ground (arith, e, moved)) in
          (s, b, untail (b', s', spans)),
      λ (s, b, t).
          let (b', s', r) = tail t in
          let bound = Spans-bound value (0 + position) end middle r in
          let u = from (b, s) in
          let v = from' (b', s') in
          let w = (match_middle-Spans value (0 + position) end middle bound).1 r in
          ground (arith, u, v, w, moved, bound),
    )

-- A pattern without a star stands for itself.
plain_pattern :
    (value pattern : Text)
    → includes_star pattern ≡ false
    → (text_eq value pattern ≡ true) ↔ Matches pattern value
unfolding drop_text
plain_pattern value pattern h =
    let whole : Matches pattern value ↔ Whole value (pattern, []) 0 =
      subst (λ w. Matches pattern value ↔ Whole value w 0) (split_stars-none pattern h)
        (Matches-Whole value pattern 0 (omega arith)) in
    (
      λ t.
          let e = (text_eq_iff value pattern).0 t in
          let size : 0 + length pattern ≡ length value =
            omega (arith, ap (λ (s : Text). length s) e) in
          whole.1 ((drop_text-Stands 0 value pattern size).0 e, omega (arith, size), size),
      λ m.
          let (s, b, e) = whole.0 m in
          (text_eq_iff value pattern).1 ((drop_text-Stands 0 value pattern e).1 s),
    )

starred_pattern :
    (value pattern : Text)
    → includes_star pattern ≡ true
    → (match_parts value (split_stars pattern).0 (split_last (split_stars pattern).1) ≡ true)
      ↔ Matches pattern value
unfolding drop_text
starred_pattern value pattern h =
    let (q, qs, e) = split_stars-some pattern h in
    let first = (split_stars pattern).0 in
    let (to, from) = Matches-Whole value pattern 0 (omega arith) in
    let (match, unmatch) =
      subst (λ ps. (match_parts value first (split_last ps) ≡ true) ↔ Whole value (first, ps) 0)
        (sym e) (match_parts-Whole value first q qs) in
    (λ t. from (match t), λ m. unmatch (to m))

or_star :
    (value pattern : Text) (b : Bool)
    → pattern ≢ star ∷ []
    → (b ≡ true) ↔ Matches pattern value
    → (b ≡ true) ↔ ((pattern ≡ star ∷ []) ⊎ Matches pattern value)
or_star value pattern b n (to, from) =
    (λ t. inr (to t), λ r. elim r [ inl e ↦ absurd (n e) | inr m ↦ from m ])

-- A text matches a pattern exactly if the pattern is '*', or if the text can be read along the pattern
-- with each star taking a stretch without a line terminator: splitting at the stars, anchoring the
-- first and the last part, and taking the first place of each part between, found by the failure
-- table, loses no match.
pub matches_pattern-Matches :
    (value pattern : Text)
    → (matches_pattern value pattern ≡ true) ↔ ((pattern ≡ star ∷ []) ⊎ Matches pattern value)
unfolding matches_pattern drop_text
matches_pattern-Matches value pattern =
    let P : Bool → Type 0 = λ b. (b ≡ true) ↔ ((pattern ≡ star ∷ []) ⊎ Matches pattern value) in
    let distinct : text_eq pattern (star ∷ []) ≡ false → pattern ≢ star ∷ [] =
      λ h e. absurd (ground (arith, h, (text_eq_iff pattern (star ∷ [])).1 e)) in
    if_cases P (text_eq pattern (star ∷ []))
      (λ h. let e = (text_eq_iff pattern (star ∷ [])).0 h in (λ t. inl e, λ r. refl))
      (λ h.
        if_cases P (not (includes_star pattern))
          (λ k.
            or_star value pattern _ (distinct h) (plain_pattern value pattern (ground (arith, k))))
          (λ k.
            or_star value pattern _ (distinct h)
              (starred_pattern value pattern (ground (arith, k)))))
