-- ===== src/Transactions/Record/Spelling.antt =====
-- Which characters a record that the script (src/transactions/scripts.ts) accepts can hold, by the
-- alphabets written out.
use lazy_layers.Prelude.{
  ℕ, zero, suc, ◌+◌, ◌≤◌, ◌<◌, ◌≡◌, Bool, true, some, [], ◌∷◌, ◌++◌, arith, length, Text, codes,
  every, ◌⊎◌, inl, inr, Bool-cases, leb, ◌==◌, ◌&&◌, ◌||◌,
}
use lazy_layers.Transactions.Record.{
  Record, Table, IsValid, Phase, pending, completed, IsTimed, is_hex, is_reference_char, hex64,
  reference, validate_table,
}
use lazy_layers.Transactions.Record.Validation.{validate_table-IsValid}

unfoldable pub Occurs : ℕ → Text → Type 0
Occurs c [] = ⊥
Occurs c (d ∷ s) = (c ≡ d) ⊎ Occurs c s

-- Every character of the text is one of the alphabet.
unfoldable pub IsSpelled : Text → Text → Type 0
unfolding Occurs
IsSpelled alphabet [] = Unit
IsSpelled alphabet (c ∷ s) = Occurs c alphabet × IsSpelled alphabet s

abbrev pub hex_alphabet : Text
hex_alphabet = codes "0123456789abcdef"

abbrev pub reference_alphabet : Text
reference_alphabet = codes "ABCDEFGHIJKLMNOPQRSTUVWXYZabcdefghijklmnopqrstuvwxyz0123456789_:/.-"

-- The characters from n on, k of them.
unfoldable range : ℕ → ℕ → Text
range n zero = []
range n (suc k) = n ∷ range (suc n) k

Occurs-range : (n k c : ℕ) → n ≤ c → c < n + k → Occurs c (range n k)
unfolding Occurs range
Occurs-range n zero c h l = absurd (omega (arith, h, l))
Occurs-range n (suc k) c h l = elim (Bool-cases (c == n)) [
  | inl e ↦ inl (ground (arith, e))
  | inr e ↦
      let more : suc n ≤ c = ground (arith, h, e) in
      inr (Occurs-range (suc n) k c more (omega (arith, l)))
]

Occurs-left : (c : ℕ) (s t : Text) → Occurs c s → Occurs c (s ++ t)
unfolding Occurs
Occurs-left c [] t h = absurd h
Occurs-left c (d ∷ s) t (inl e) = inl e
Occurs-left c (d ∷ s) t (inr h) = inr (Occurs-left c s t h)

Occurs-right : (c : ℕ) (s t : Text) → Occurs c t → Occurs c (s ++ t)
unfolding Occurs
Occurs-right c [] t h = h
Occurs-right c (d ∷ s) t h = inr (Occurs-right c s t h)

is_hex-Occurs : (c : ℕ) → is_hex c ≡ true → Occurs c hex_alphabet
unfolding range
is_hex-Occurs c h = elim (Bool-cases (leb 48 c && leb c 57)) [
  | inl d ↦
      Occurs-left c (range 48 10) (range 97 6)
        (Occurs-range 48 10 c (ground (arith, d)) (ground (arith, d)))
  | inr d ↦
      Occurs-right c (range 48 10) (range 97 6)
        (Occurs-range 97 6 c (ground (arith, h, d)) (ground (arith, h, d)))
]

abbrev marks : Text
marks = codes "_:/.-"

abbrev is_mark : ℕ → Bool
is_mark c = c == b'_' || c == b':' || c == b'/' || c == b'.' || c == b'-'

is_mark-Occurs : (c : ℕ) → is_mark c ≡ true → Occurs c marks
unfolding Occurs
is_mark-Occurs c h = ground (arith, h)

is_reference_char-Occurs : (c : ℕ) → is_reference_char c ≡ true → Occurs c reference_alphabet
unfolding range
is_reference_char-Occurs c h = elim (Bool-cases (leb 65 c && leb c 90)) [
  | inl d ↦
      Occurs-left c (range 65 26) (range 97 26 ++ range 48 10 ++ marks)
        (Occurs-range 65 26 c (ground (arith, d)) (ground (arith, d)))
  | inr d ↦
      Occurs-right c (range 65 26) (range 97 26 ++ range 48 10 ++ marks)
        (elim (Bool-cases (leb 97 c && leb c 122)) [
          | inl e ↦
              Occurs-left c (range 97 26) (range 48 10 ++ marks)
                (Occurs-range 97 26 c (ground (arith, e)) (ground (arith, e)))
          | inr e ↦
              Occurs-right c (range 97 26) (range 48 10 ++ marks)
                (elim (Bool-cases (leb 48 c && leb c 57)) [
                  | inl f ↦
                      Occurs-left c (range 48 10) marks
                        (Occurs-range 48 10 c (ground (arith, f)) (ground (arith, f)))
                  | inr f ↦
                      Occurs-right c (range 48 10) marks
                        (is_mark-Occurs c (ground (arith, h, d, e, f)))
                ])
        ])
]

every-IsSpelled :
    (p : ℕ → Bool) (alphabet s : Text)
    → ((c : ℕ) → p c ≡ true → Occurs c alphabet)
    → every p s ≡ true
    → IsSpelled alphabet s
unfolding every IsSpelled
every-IsSpelled p alphabet [] h e = tt
every-IsSpelled p alphabet (c ∷ s) h e =
    (h c (ground (arith, e)), every-IsSpelled p alphabet s h (ground (arith, e)))

-- A text of the alphabet with a length between the bounds.
pub record IsWord (alphabet : Text) (least most : ℕ) (s : Text) : Type 0 where
  pub spelled : IsSpelled alphabet s
  pub not_shorter : least ≤ length s
  pub not_longer : length s ≤ most

reference-IsWord : (s : Text) (cap : ℕ) → reference s cap ≡ true → IsWord reference_alphabet 1 cap s
unfolding reference
reference-IsWord s cap h = record {
  spelled =
      every-IsSpelled is_reference_char reference_alphabet s is_reference_char-Occurs
        (ground (arith, h));
  not_shorter = ground (arith, h);
  not_longer = ground (arith, h);
}

hex64-IsWord : (s : Text) → hex64 s ≡ true → IsWord hex_alphabet 64 64 s
unfolding hex64
hex64-IsWord s h = record {
  spelled = every-IsSpelled is_hex hex_alphabet s is_hex-Occurs (ground (arith, h));
  not_shorter = ground (arith, h);
  not_longer = ground (arith, h);
}

abbrev IsResult : Phase → Text → Type 0
IsResult pending s = s ≡ []
IsResult completed s = IsWord reference_alphabet 1 256 s

timed-IsResult : (p : Phase) (a b : ℕ) (s : Text) → IsTimed p a b s → IsResult p s
timed-IsResult pending a b s t = t.2
timed-IsResult completed a b s t = reference-IsWord s 256 t.1

-- A record whose texts are written in the alphabets, with the limits of its times.
pub record IsWritten (r : Record) : Type 0 where
  pub fingerprint_word : IsWord hex_alphabet 64 64 r.fingerprint
  pub owner_word : IsWord hex_alphabet 64 64 r.owner
  pub durable_word : IsWord reference_alphabet 1 128 r.durable_id
  pub result_word : IsResult r.state r.result_ref
  pub valid : IsValid r

-- Whatever the table, the record that the script's validation reads in it has a fingerprint and an
-- owner of 64 digits of `hex_alphabet`, a durable identity of 1 to 128 characters of
-- `reference_alphabet`, no result while it is pending and one of 1 to 256 of these characters when it
-- is completed, and its times are in order and within their range.
pub validate_table-IsWritten : (t : Table) {r : Record} → validate_table t ≡ some r → IsWritten r
validate_table-IsWritten t {r} h =
    let v : IsValid r = validate_table-IsValid t h in
    record {
      fingerprint_word = hex64-IsWord r.fingerprint v.fingerprint_hex;
      owner_word = hex64-IsWord r.owner v.owner_hex;
      durable_word = reference-IsWord r.durable_id 128 v.durable_reference;
      result_word = timed-IsResult r.state r.lease_until r.retain_until r.result_ref v.timed;
      valid = v;
    }
