-- ===== src/Transactions/Keys/Distinct.antt =====
-- Different operations have different keys (src/transactions/keys.ts).
use lazy_layers.Prelude.{
  ℕ, ◌≡◌, ◌≢◌, refl, sym, ◌∙◌, Bool, true, false, not, List, [], ◌∷◌, ◌++◌, arith, if◌then◌else◌,
  Text, codes, every, length, length-append, Option, none, some, inl, inr, ◌⊎◌,
}
use lazy_layers.Transactions.Replies.{Identity}
use lazy_layers.Transactions.Admission.{
  is_not_control, bounded_string, validate_identity, validate_reference, validate_fingerprint,
}
use lazy_layers.Transactions.Admission.Passing.{both}
use mathlib.Core.List.{append_assoc}
use lazy_layers.Transactions.Keys.{
  key_text, operation_text, validate_namespace, json_unit, json_units, json_string, json_rest,
  json_array, operation_key,
}

-- A text of which JSON.stringify escapes the quotation marks and the backslashes only.
abbrev HasNoControl : Text → Type 0
HasNoControl s = every is_not_control s ≡ true

-- What json_unit gives for a unit that is no control character.
unit_cases :
    (c : ℕ)
    → is_not_control c ≡ true
    → ((json_unit c ≡ 92 ∷ c ∷ []) × ((c ≡ 34) ⊎ (c ≡ 92)))
      ⊎ ((json_unit c ≡ c ∷ []) × (c ≢ 34) × (c ≢ 92))
unfolding json_unit
unit_cases c h = ground (arith, h)

-- A unit is read back from what follows it.
unit_inj :
    (c d : ℕ) (x y : Text)
    → is_not_control c ≡ true
    → is_not_control d ≡ true
    → json_unit c ++ x ≡ json_unit d ++ y
    → (c ≡ d) × (x ≡ y)
unit_inj c d x y h k e = elim (unit_cases c h) [
  | inl (p, q) ↦ elim (unit_cases d k) [
    | inl (p', q') ↦ escaped (rw (p, p') at e)
    | inr (p', n, m) ↦ absurd (apart (rw (p, p') at e) m)
  ]
  | inr (p, n, m) ↦ elim (unit_cases d k) [
    | inl (p', q') ↦ absurd (apart (sym (rw (p, p') at e)) m)
    | inr (p', n', m') ↦ plain (rw (p, p') at e)
  ]
]
  where
    escaped : 92 ∷ c ∷ x ≡ 92 ∷ d ∷ y → (c ≡ d) × (x ≡ y)
    escaped e = (cc, cc)

    plain : c ∷ x ≡ d ∷ y → (c ≡ d) × (x ≡ y)
    plain e = (cc, cc)

    apart : {a b : ℕ} {v w : Text} → 92 ∷ a ∷ v ≡ b ∷ w → b ≢ 92 → ⊥
    apart e n = n (cc)

-- The first unit is no quotation mark.
unit_apart : (c : ℕ) (x r : Text) → is_not_control c ≡ true → 34 ∷ r ≢ json_unit c ++ x
unit_apart c x r h e = elim (unit_cases c h) [
  | inl (p, q) ↦ first (rw p at e)
  | inr (p, n, m) ↦ n (second (rw p at e))
]
  where
    first : 34 ∷ r ≡ 92 ∷ c ∷ x → ⊥
    first e = ground arith

    second : 34 ∷ r ≡ c ∷ x → c ≡ 34
    second e = cc

-- The text up to a closing quotation mark is read back.
json_units-inj :
    (s t r u : Text)
    → HasNoControl s
    → HasNoControl t
    → json_units s ++ 34 ∷ r ≡ json_units t ++ 34 ∷ u
    → (s ≡ t) × (r ≡ u)
unfolding json_units every
json_units-inj [] [] r u h k e = (refl, cc)
json_units-inj [] (d ∷ t) r u h k e =
    let (here, _) = both _ _ k in
    absurd (
      unit_apart d (json_units t ++ 34 ∷ u) r here
        (e ∙ append_assoc (json_unit d) (json_units t) (34 ∷ u)))
json_units-inj (c ∷ s) [] r u h k e =
    let (here, _) = both _ _ h in
    absurd (
      unit_apart c (json_units s ++ 34 ∷ r) u here
        (sym e ∙ append_assoc (json_unit c) (json_units s) (34 ∷ r)))
json_units-inj (c ∷ s) (d ∷ t) r u h k e =
    let (hc, hs) = both _ _ h in
    let (kd, kt) = both _ _ k in
    let (same, rest) = unit_inj c d (json_units s ++ 34 ∷ r) (json_units t ++ 34 ∷ u) hc kd (
      sym (append_assoc (json_unit c) (json_units s) (34 ∷ r))
      ∙ e
      ∙ append_assoc (json_unit d) (json_units t) (34 ∷ u)) in
    let (same', rest') = json_units-inj s t r u hs kt rest in (rw (same, same') refl, rest')

abbrev AllPlain : List Text → Type 0
AllPlain [] = Unit
AllPlain (s ∷ ss) = HasNoControl s × AllPlain ss

-- A quoted text is read back from what follows it.
json_string-inj :
    (s t r u : Text)
    → HasNoControl s
    → HasNoControl t
    → json_string s ++ r ≡ json_string t ++ u
    → (s ≡ t) × (r ≡ u)
unfolding json_string
json_string-inj s t r u h k e =
    let inner : (json_units s ++ 34 ∷ []) ++ r ≡ (json_units t ++ 34 ∷ []) ++ u = cc in
    json_units-inj s t r u h k (
      sym (append_assoc (json_units s) (34 ∷ []) r)
      ∙ inner
      ∙ append_assoc (json_units t) (34 ∷ []) u)

json_rest-inj :
    (ss ts : List Text) → AllPlain ss → AllPlain ts → json_rest ss ≡ json_rest ts → ss ≡ ts
unfolding json_rest
json_rest-inj [] [] h k e = refl
json_rest-inj [] (t ∷ ts) h k e = ground arith
json_rest-inj (s ∷ ss) [] h k e = ground arith
json_rest-inj (s ∷ ss) (t ∷ ts) (h, hs) (k, ks) e =
    let inner : json_string s ++ json_rest ss ≡ json_string t ++ json_rest ts = cc in
    let (same, rest) = json_string-inj s t (json_rest ss) (json_rest ts) h k inner in
    let same' = json_rest-inj ss ts hs ks rest in rw (same, same') refl

json_array-inj :
    (s t : Text) (ss ts : List Text)
    → AllPlain (s ∷ ss)
    → AllPlain (t ∷ ts)
    → json_array (s ∷ ss) ≡ json_array (t ∷ ts)
    → (s ∷ ss) ≡ (t ∷ ts)
unfolding json_array
json_array-inj s t ss ts (h, hs) (k, ks) e =
    let inner : json_string s ++ json_rest ss ≡ json_string t ++ json_rest ts = cc in
    let (same, rest) = json_string-inj s t (json_rest ss) (json_rest ts) h k inner in
    let same' = json_rest-inj ss ts hs ks rest in rw (same, same') refl

append_split : (a b x y : Text) → length a ≡ length b → a ++ x ≡ b ++ y → (a ≡ b) × (x ≡ y)
append_split [] [] x y l e = (refl, e)
append_split [] (d ∷ b) x y l e = absurd (omega (arith, l))
append_split (c ∷ a) [] x y l e = absurd (omega (arith, l))
append_split (c ∷ a) (d ∷ b) x y l e =
    let (same, rest) = append_split a b x y (omega (arith, l)) cc in
    let first : c ≡ d = cc in (rw (first, same) refl, rest)

bounded_string-plain : (most : ℕ) (s : Text) → bounded_string most s ≡ true → HasNoControl s
unfolding bounded_string
bounded_string-plain most s h = (both _ (every is_not_control s) h).1

abbrev tuple : Text → Identity → List Text
tuple ns i = ns ∷ i.tenant ∷ i.operation ∷ i.idempotency_key ∷ []

tuple-plain :
    (ns : Text) (i : Identity)
    → validate_namespace ns ≡ true
    → validate_identity i ≡ true
    → AllPlain (tuple ns i)
unfolding validate_namespace validate_identity
tuple-plain ns i h v =
    let (n, _) = both (bounded_string 96 ns) _ h in
    let (v1, _) = both _ (validate_reference 128 i.durable_id) v in
    let (v2, _) = both _ (validate_fingerprint i.fingerprint) v1 in
    let (v3, k) = both _ (bounded_string 256 i.idempotency_key) v2 in
    let (t, o) = both (bounded_string 128 i.tenant) (bounded_string 96 i.operation) v3 in
    (
      bounded_string-plain 96 ns n,
      (
        bounded_string-plain 128 i.tenant t,
        (bounded_string-plain 96 i.operation o, (bounded_string-plain 256 i.idempotency_key k, tt)),
      ),
    )

-- The last of two parts of a fixed length within a fixed frame.
framed :
    (p m q a b a' b' : Text)
    → length a ≡ length a'
    → length b ≡ length b'
    → (((p ++ a) ++ m) ++ b) ++ q ≡ (((p ++ a') ++ m) ++ b') ++ q
    → b ≡ b'
framed p m q a b a' b' l k e =
    let x = (p ++ a) ++ m in
    let x' = (p ++ a') ++ m in
    let same : length x ≡ length x' = omega (
      arith,
      l,
      length-append (p ++ a) m,
      length-append p a,
      length-append (p ++ a') m,
      length-append p a',
    ) in
    let whole : length (x ++ b) ≡ length (x' ++ b') =
      omega (arith, same, k, length-append x b, length-append x' b') in
    let (front, _) = append_split (x ++ b) (x' ++ b') q q whole e in
    (append_split x x' b b' same front).1

checked :
    (a b : Bool) (s k : Text)
    → ◌≡◌ {A = Option Text} (if not a then none else if not b then none else some s) (some k)
    → (a ≡ true) × (b ≡ true) × (s ≡ k)
checked false b s k e = cc
checked true false s k e = cc
checked true true s k e = (refl, refl, cc)

operation_key-some :
    (digest : Text → Text) (ns : Text) (i : Identity) (k : Text)
    → operation_key digest ns i ≡ some k
    → (validate_namespace ns ≡ true) × (validate_identity i ≡ true) × (key_text digest ns i ≡ k)
unfolding operation_key
operation_key-some digest ns i k e =
    checked (validate_namespace ns) (validate_identity i) (key_text digest ns i) k e

-- Operations for which the store uses the same key have the same namespace, tenant, operation and
-- idempotency key, if a digest has 64 digits and does not collide on what is hashed for the two.
pub operation_key-same :
    (digest : Text → Text) (ns ns' : Text) (i j : Identity) (k : Text)
    → ((s : Text) → length (digest s) ≡ 64)
    → (digest (operation_text ns i) ≡ digest (operation_text ns' j)
        → operation_text ns i ≡ operation_text ns' j)
    → operation_key digest ns i ≡ some k
    → operation_key digest ns' j ≡ some k
    → (ns ≡ ns')
      × (i.tenant ≡ j.tenant)
      × (i.operation ≡ j.operation)
      × (i.idempotency_key ≡ j.idempotency_key)
operation_key-same digest ns ns' i j k size distinct f g =
    let (n, v, e) = operation_key-some digest ns i k f in
    let (n', v', e') = operation_key-some digest ns' j k g in
    let scope = λ (ns : Text) (i : Identity). digest (json_array (ns ∷ i.tenant ∷ [])) in
    let hash = λ (ns : Text) (i : Identity). digest (operation_text ns i) in
    let hashed =
      framed (codes "lltx:v1:") (codes ":{") (codes "}:record") (scope ns i) (hash ns i)
        (scope ns' j) (hash ns' j) (size _ ∙ sym (size _)) (size _ ∙ sym (size _)) (e ∙ sym e') in
    let same =
      json_array-inj ns ns' (i.tenant ∷ i.operation ∷ i.idempotency_key ∷ [])
        (j.tenant ∷ j.operation ∷ j.idempotency_key ∷ []) (tuple-plain ns i n v)
        (tuple-plain ns' j n' v') (distinct hashed) in
    (cc, cc, cc, cc)
