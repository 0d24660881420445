-- ===== src/Pattern/Failure.antt =====
-- The failure table of src/cache/pattern.ts, and the step that both of its loops take.
use lazy_layers.Prelude.{
  ℕ, zero, suc, ◌+◌, ◌-◌, ◌≡◌, ◌≤◌, ◌<◌, ◌≢◌, refl, sym, ap, subst, ◌∙◌, arith, Text, length, ◌⊎◌,
  inl, inr, ◌&&◌, not, ltb, ◌==◌, if_cases, [], ◌∷◌, ◌++◌, length-append,
}
use lazy_layers.Pattern.{char_at, fall_back, advance, build_failure, failure_table}
use lazy_layers.Pattern.Occurrences.{
  Stands, Stands-shorter, Stands-longer, Stands-within, Stands-further, Longest, below_or_last,
}

-- Each of the first m entries is the length of the longest prefix of the literal that is shorter than
-- the part up to it and ends there.
abbrev pub IsTable : Text → Text → ℕ → Type 0
IsTable literal failure m = (q : ℕ) → q < m → Longest literal literal 1 (suc q) (char_at failure q)

-- Of the prefixes that end before p and begin at n or later, the longest which the character c
-- continues has k characters, or k is 0.
record Kept (literal text : Text) (c n p m k : ℕ) : Type 0 where
  at : ℕ
  from : n ≤ at
  ends_here : at + k ≡ p
  shorter : k ≤ m
  stands : Stands literal text at k
  continues : (k ≡ 0) ⊎ (c ≡ char_at literal k)
  is_longest :
      (n' j : ℕ) → n ≤ n' → n' + j ≡ p → Stands literal text n' j → c ≡ char_at literal j → j ≤ k

module _ (literal text failure : Text) where
  -- A prefix that ends before p is the matched one, or it begins later and is one within the literal.
  within_table :
      (n p m n' j : ℕ)
      → n + m ≡ p
      → m ≤ length literal
      → IsTable literal failure m
      → Stands literal text n m
      → n < n'
      → n' + j ≡ p
      → Stands literal text n' j
      → j ≤ char_at failure (m - 1)
  within_table n p m n' j e bound table s later e' t =
      let d = n' - n in
      let sum : d + j ≡ m = omega (arith, e, e', later) in
      let place : n' ≡ n + d = omega (arith, later) in
      let row = table (m - 1) (omega (arith, sum, later)) in
      let moved : Stands literal text (n + d) j = subst (λ x. Stands literal text x j) place t in
      row.is_longest d j (omega (arith, later)) (omega (arith, sum, later))
        (omega (arith, sum, bound)) (Stands-within literal text n d j m sum s moved)

  fall_back-Kept :
      (c fuel n p m : ℕ)
      → m ≤ fuel
      → m ≤ length literal
      → n + m ≡ p
      → IsTable literal failure m
      → Stands literal text n m
      → Kept literal text c n p m (fall_back failure literal c fuel m)
  unfolding fall_back
  fall_back-Kept c zero n p m fits bound e table s = record {
    at = n;
    from = omega arith;
    ends_here = e;
    shorter = omega arith;
    stands = s;
    continues = inl (omega (arith, fits));
    is_longest = λ n' j f e' t h. omega (arith, e, e', f);
  }
  fall_back-Kept c (suc fuel) n p m fits bound e table s =
      if_cases (Kept literal text c n p m) (ltb 0 m && not (c == char_at literal m))
        (λ h.
          let positive : 0 < m = ground (arith, h) in
          let row = table (m - 1) (omega (arith, positive)) in
          let f = char_at failure (m - 1) in
          let d = row.at in
          let sum : d + f ≡ m = omega (arith, row.ends_here, positive) in
          let k =
            fall_back-Kept c fuel (n + d) p f (omega (arith, sum, row.after_start, fits))
              (omega (arith, sum, bound)) (omega (arith, sum, e))
              (λ q l. table q (omega (arith, l, sum)))
              (Stands-further literal text n d f m sum s row.stands) in
          record {
            at = k.at;
            from = omega (arith, k.from);
            ends_here = k.ends_here;
            shorter = omega (arith, k.shorter, sum);
            stands = k.stands;
            continues = k.continues;
            is_longest = λ n' j g e' t u.
                let other : j ≢ m =
                  λ w. absurd (ground (arith, h, subst (λ x. c ≡ char_at literal x) w u)) in
                let later : n < n' = omega (arith, other, g, e, e') in
                let short = within_table n p m n' j e bound table s later e' t in
                k.is_longest n' j (omega (arith, short, sum, e, e')) e' t u;
          })
        (λ h. record {
          at = n;
          from = omega arith;
          ends_here = e;
          shorter = omega arith;
          stands = s;
          continues = ground (arith, h);
          is_longest = λ n' j f e' t u. omega (arith, e, e', f);
        })

  -- What ends before the next place is empty, or ends with the character at p and is at most one longer
  -- than what the round kept.
  continued :
      (start p m : ℕ)
      → (l : Longest literal text start p m) → (kept : ℕ)
      → Kept literal text (char_at text p) l.at p m kept
      → (n j : ℕ) → start ≤ n
      → n + j ≡ suc p
      → j ≤ length literal
      → Stands literal text n j
      → (j ≡ 0) ⊎ ((i : ℕ) × (j ≡ suc i) × (i ≤ kept) × (char_at text p ≡ char_at literal i))
  continued start p m l kept k n zero f e b t = inl refl
  continued start p m l kept k n (suc j) f e b t =
      let before = Stands-shorter literal text n (suc j) j (omega arith) t in
      let same : n + j ≡ p = omega (arith, e) in
      let next : char_at text p ≡ char_at literal j =
        sym (t j (omega arith) ∙ ap (char_at text) same) in
      let most = l.is_longest n j f same (omega (arith, b)) before in
      inr
        (j, refl, k.is_longest n j (omega (arith, most, l.ends_here, same)) same before next, next)

  -- One round: the length that is matched before p becomes the one before the next place.
  pub advance-Longest :
      (start p m : ℕ)
      → m < length literal
      → IsTable literal failure m
      → Longest literal text start p m
      → (advance failure literal (char_at text p) m ≤ suc m)
        × Longest literal text start (suc p) (advance failure literal (char_at text p) m)
  unfolding advance
  advance-Longest start p m bound table l =
      let c = char_at text p in
      let kept = fall_back failure literal c m m in
      let k =
        fall_back-Kept c m l.at p m (omega arith) (omega (arith, bound)) l.ends_here table
          l.stands in
      let longer = continued start p m l kept k in
      if_cases (λ (r : ℕ). (r ≤ suc m) × Longest literal text start (suc p) r)
        (c == char_at literal kept)
        (λ h. (
          omega (arith, k.shorter),
          record {
            at = k.at;
            after_start = omega (arith, k.from, l.after_start);
            ends_here = omega (arith, k.ends_here);
            stands =
                Stands-longer literal text k.at kept p k.ends_here k.stands (ground (arith, h));
            is_longest = λ n j f e b t. elim (longer n j f e b t) [
              | inl o ↦ omega (arith, o)
              | inr (i, o, u, v) ↦ omega (arith, o, u)
            ];
          },
        ))
        (λ h.
          let nothing : kept ≡ 0 = ground (arith, h, k.continues) in
          (
            omega (arith, k.shorter),
            record {
              at = suc p;
              after_start = omega (arith, l.after_start, l.ends_here);
              ends_here = omega (arith, nothing);
              stands = λ i o. absurd (omega (arith, nothing, o));
              is_longest = λ n j f e b t. elim (longer n j f e b t) [
                | inl o ↦ omega (arith, o)
                | inr (i, o, u, v) ↦
                    let same : i ≡ kept = omega (arith, u, nothing) in
                    absurd (ground (arith, h, v ∙ ap (char_at literal) same))
              ];
            },
          ))

pub char_at-append_last : (s : Text) (c : ℕ) → char_at (s ++ c ∷ []) (length s) ≡ c
unfolding char_at
char_at-append_last [] c = refl
char_at-append_last (d ∷ s) c = char_at-append_last s c

pub char_at-append_first : (s t : Text) (i : ℕ) → i < length s → char_at (s ++ t) i ≡ char_at s i
unfolding char_at
char_at-append_first [] t i h = absurd (omega (arith, h))
char_at-append_first (d ∷ s) t zero h = refl
char_at-append_first (d ∷ s) t (suc i) h = char_at-append_first s t i (omega (arith, h))

IsTable-append :
    (literal failure : Text) (p m : ℕ)
    → length failure ≡ p
    → IsTable literal failure p
    → Longest literal literal 1 (suc p) m
    → IsTable literal (failure ++ m ∷ []) (suc p)
IsTable-append literal failure p m e table l q h = elim (below_or_last q p h) [
  | inl b ↦
      subst (λ x. Longest literal literal 1 (suc q) x)
        (sym (char_at-append_first failure (m ∷ []) q (omega (arith, b, e)))) (table q b)
  | inr b ↦
      subst (λ x. Longest literal literal 1 (suc q) x)
        (sym (ap (char_at (failure ++ m ∷ [])) (b ∙ sym e) ∙ char_at-append_last failure m))
        (subst (λ x. Longest literal literal 1 (suc x) m) (sym b) l)
]

-- The rest of the literal starts at p, where the table ends.
build_failure-IsTable :
    (literal rest failure : Text) (p m : ℕ)
    → ((i : ℕ) → i < length rest → char_at rest i ≡ char_at literal (p + i))
    → p + length rest ≡ length literal
    → length failure ≡ p
    → IsTable literal failure p
    → Longest literal literal 1 p m
    → IsTable literal (build_failure literal rest m failure) (length literal)
unfolding build_failure char_at
build_failure-IsTable literal [] failure p m r e f table l =
    subst (λ x. IsTable literal failure x) (omega (arith, e)) table
build_failure-IsTable literal (c ∷ rest) failure p m r e f table l =
    let m' = advance failure literal c m in
    let here : char_at literal p ≡ c =
      ap (char_at literal) (omega arith) ∙ sym (r 0 (omega arith)) in
    let short : m < p = omega (arith, l.ends_here, l.after_start) in
    let step =
      advance-Longest literal literal failure 1 p m (omega (arith, short, e))
        (λ q h. table q (omega (arith, h, short))) l in
    let longer : Longest literal literal 1 (suc p) m' =
      subst (λ x. Longest literal literal 1 (suc p) (advance failure literal x m)) here step.1 in
    build_failure-IsTable literal rest (failure ++ m' ∷ []) (suc p) m'
      (λ i h. r (suc i) (omega (arith, h)) ∙ ap (char_at literal) (omega arith)) (omega (arith, e))
      (omega (arith, f, length-append failure (m' ∷ [])))
      (IsTable-append literal failure p m' f table longer) longer

first-Longest : (literal : Text) → Longest literal literal 1 1 0
first-Longest literal = record {
  at = 1;
  after_start = omega arith;
  ends_here = refl;
  stands = λ i h. absurd (omega (arith, h));
  is_longest = λ n j f e b t. omega (arith, f, e);
}

first-IsTable : (literal : Text) → IsTable literal (0 ∷ []) 1
unfolding char_at
first-IsTable literal zero h = first-Longest literal
first-IsTable literal (suc q) h = absurd (omega (arith, h))

pub failure_table-IsTable :
    (literal : Text) → IsTable literal (failure_table literal) (length literal)
unfolding failure_table char_at
failure_table-IsTable [] = λ q h. absurd (omega (arith, h))
failure_table-IsTable (c ∷ rest) =
    build_failure-IsTable (c ∷ rest) rest (0 ∷ []) 1 0
      (λ i h. let next : suc i ≡ 1 + i = omega arith in ap (char_at (c ∷ rest)) next) (omega arith)
      refl (first-IsTable (c ∷ rest)) (first-Longest (c ∷ rest))
