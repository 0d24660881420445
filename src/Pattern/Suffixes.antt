-- ===== src/Pattern/Suffixes.antt =====
-- The rest of a text from a place on, and startsWith, endsWith and the equality of texts by their
-- characters, for src/cache/pattern.ts.
use lazy_layers.Prelude.{
  ℕ, zero, suc, ◌+◌, ◌-◌, ◌≡◌, ◌≤◌, ◌<◌, ◌↔◌, refl, sym, subst, ap, ◌∙◌, arith, Text, length, true,
  false, [], ◌∷◌, ◌++◌, not, text_eq_iff, every, inl, inr,
}
use lazy_layers.Pattern.{char_at, starts_with, drop_text, ends_with, is_line_terminator}
use lazy_layers.Pattern.Occurrences.{Stands, le_or_gt}
use lazy_layers.Pattern.Gaps.{Plain}

pub char_at-drop_text : (n : ℕ) (s : Text) (i : ℕ) → char_at (drop_text n s) i ≡ char_at s (n + i)
unfolding drop_text char_at
char_at-drop_text zero s i = ap (char_at s) (omega arith)
char_at-drop_text (suc n) [] i = refl
char_at-drop_text (suc n) (c ∷ s) i =
    let next : suc (n + i) ≡ suc n + i = omega arith in
    char_at-drop_text n s i ∙ ap (char_at (c ∷ s)) next

pub length-drop_text : (n : ℕ) (s : Text) → length (drop_text n s) ≡ length s - n
unfolding drop_text
length-drop_text zero s = omega arith
length-drop_text (suc n) [] = omega arith
length-drop_text (suc n) (c ∷ s) = omega (arith, length-drop_text n s)

pub drop_text-cons :
    (n : ℕ) (s : Text) → n < length s → drop_text n s ≡ char_at s n ∷ drop_text (suc n) s
unfolding drop_text char_at
drop_text-cons n [] h = absurd (omega (arith, h))
drop_text-cons zero (c ∷ s) h = refl
drop_text-cons (suc n) (c ∷ s) h = drop_text-cons n s (omega (arith, h))

-- What stands first in the rest.
pub drop_text-cons_inv :
    (n : ℕ) (s : Text) (c : ℕ) (r : Text)
    → drop_text n s ≡ c ∷ r
    → (n < length s) × (char_at s n ≡ c) × (drop_text (suc n) s ≡ r)
unfolding drop_text char_at
drop_text-cons_inv zero [] c r e = cc
drop_text-cons_inv (suc n) [] c r e = cc
drop_text-cons_inv zero (d ∷ s) c r e = (omega arith, cc, cc)
drop_text-cons_inv (suc n) (d ∷ s) c r e =
    let (l, f, g) = drop_text-cons_inv n s c r e in (omega (arith, l), f, g)

-- A gap without line terminators.
abbrev pub IsPlain : Text → Type 0
IsPlain gap = every (λ c. not (is_line_terminator c)) gap ≡ true

pub gap-Plain :
    (i : ℕ) (s gap rest : Text)
    → i ≤ length s
    → drop_text i s ≡ gap ++ rest
    → IsPlain gap
    → (i + length gap ≤ length s)
      × Plain s i (i + length gap)
      × (drop_text (i + length gap) s ≡ rest)
unfolding every
gap-Plain i s [] rest b e p = (
  omega (arith, b),
  λ n f l. absurd (omega (arith, f, l)),
  let same : i + 0 ≡ i = omega arith in ap (λ n. drop_text n s) same ∙ e,
)
gap-Plain i s (c ∷ gap) rest b e p =
    let (l, f, g) = drop_text-cons_inv i s c (gap ++ rest) e in
    let (l', plain, r) = gap-Plain (suc i) s gap rest l g (ground (arith, p)) in
    let same : i + suc (length gap) ≡ suc i + length gap = omega arith in
    let here : is_line_terminator (char_at s i) ≡ false =
      subst (λ x. is_line_terminator x ≡ false) (sym f) (ground (arith, p)) in
    (
      omega (arith, l'),
      λ n h k. elim (le_or_gt n i) [
        | inl o ↦
            let at : i ≡ n = omega (arith, o, h) in
            subst (λ x. is_line_terminator (char_at s x) ≡ false) at here
        | inr o ↦ plain n o (omega (arith, k))
      ],
      ap (λ n. drop_text n s) same ∙ r,
    )

pub Plain-gap :
    (i n : ℕ) (s : Text)
    → i + n ≤ length s
    → Plain s i (i + n)
    → (gap : Text) × (drop_text i s ≡ gap ++ drop_text (i + n) s) × IsPlain gap
unfolding every
Plain-gap i zero s b p =
    ([], let same : i ≡ i + 0 = omega arith in ap (λ n. drop_text n s) same, refl)
Plain-gap i (suc n) s b p =
    let same : suc i + n ≡ i + suc n = omega arith in
    let here = p i (omega arith) (omega arith) in
    let (gap, e, plain) =
      Plain-gap (suc i) n s (omega (arith, b))
        (λ m f l. p m (omega (arith, f)) (omega (arith, l))) in
    (
      char_at s i ∷ gap,
      drop_text-cons i s (omega (arith, b))
          ∙ ap (λ (r : Text). char_at s i ∷ r) (e ∙ ap (λ m. gap ++ drop_text m s) same),
      ground (arith, here, plain),
    )

pub drop_text-past : (n : ℕ) (s : Text) → length s ≤ n → drop_text n s ≡ []
unfolding drop_text
drop_text-past zero [] h = refl
drop_text-past (suc n) [] h = refl
drop_text-past zero (c ∷ s) h = absurd (omega (arith, h))
drop_text-past (suc n) (c ∷ s) h = drop_text-past n s (omega (arith, h))

-- The whole of a text c ∷ t stands at n if c does, and t after it.
pub Stands-cons :
    (c : ℕ) (t s : Text) (n : ℕ)
    → (char_at s n ≡ c) × Stands t s (suc n) (length t)
    → Stands (c ∷ t) s n (suc (length t))
unfolding char_at
Stands-cons c t s n (e, h) zero l =
    let same : n ≡ n + 0 = omega arith in sym e ∙ ap (char_at s) same
Stands-cons c t s n (e, h) (suc i) l =
    let same : suc n + i ≡ n + suc i = omega arith in h i (omega (arith, l)) ∙ ap (char_at s) same

pub Stands-uncons :
    (c : ℕ) (t s : Text) (n : ℕ)
    → Stands (c ∷ t) s n (suc (length t))
    → (char_at s n ≡ c) × Stands t s (suc n) (length t)
unfolding char_at
Stands-uncons c t s n h =
    let same : n ≡ n + 0 = omega arith in
    (
      ap (char_at s) same ∙ sym (h 0 (omega arith)),
      λ i l.
          let next : n + suc i ≡ suc n + i = omega arith in
          h (suc i) (omega (arith, l)) ∙ ap (char_at s) next,
    )

starts_with-drop_text :
    (n : ℕ) (s t : Text)
    → n ≤ length s
    → (starts_with (drop_text n s) t ≡ true) ↔ ((n + length t ≤ length s) × Stands t s n (length t))
unfolding starts_with
starts_with-drop_text n s [] b =
    (λ e. (omega (arith, b), λ i l. absurd (omega (arith, l))), λ h. refl)
starts_with-drop_text n s (c ∷ t) b = elim (le_or_gt (length s) n) [
  | inl h ↦ rw (drop_text-past n s h) (λ e. cc, λ (l, k). absurd (omega (arith, l, h)))
  | inr h ↦
      let (to, from) = starts_with-drop_text (suc n) s t h in
      rw (drop_text-cons n s h) (
        λ e.
            let (l, k) = to (ground (arith, e)) in
            (omega (arith, l), Stands-cons c t s n (ground (arith, e), k)),
        λ (l, k).
            let (e, k') = Stands-uncons c t s n k in
            let rest = from (omega (arith, l), k') in ground (arith, e, rest),
      )
]

pub starts_with-Stands :
    (s t : Text) → (starts_with s t ≡ true) ↔ ((0 + length t ≤ length s) × Stands t s 0 (length t))
unfolding drop_text
starts_with-Stands s t = starts_with-drop_text 0 s t (omega arith)

pub drop_text-Stands :
    (n : ℕ) (s t : Text) → n + length t ≡ length s → (drop_text n s ≡ t) ↔ Stands t s n (length t)
drop_text-Stands n s [] b =
    (λ e i l. absurd (omega (arith, l)), λ h. drop_text-past n s (omega (arith, b)))
drop_text-Stands n s (c ∷ t) b =
    let (to, from) = drop_text-Stands (suc n) s t (omega (arith, b)) in
    (
      λ e. let (l, f, g) = drop_text-cons_inv n s c t e in Stands-cons c t s n (f, to g),
      λ h.
          let (f, g) = Stands-uncons c t s n h in
          let rest = from g in drop_text-cons n s (omega (arith, b)) ∙ (rw (f, rest) refl),
    )

pub ends_with-Stands :
    (s t : Text)
    → (ends_with s t ≡ true) ↔ ((length t ≤ length s) × Stands t s (length s - length t) (length t))
unfolding ends_with
ends_with-Stands s t = (
  λ e.
      let l : length t ≤ length s = ground (arith, e) in
      let same = (text_eq_iff (drop_text (length s - length t) s) t).0 (ground (arith, e)) in
      (l, (drop_text-Stands (length s - length t) s t (omega (arith, l))).0 same),
  λ (l, h).
      let same = (drop_text-Stands (length s - length t) s t (omega (arith, l))).1 h in
      let equal = (text_eq_iff (drop_text (length s - length t) s) t).1 same in
      ground (arith, l, equal),
)
