-- ===== src/Pattern.antt =====
-- src/cache/pattern.ts: whether a key matches a pattern, in which '*' stands for any text without a
-- line terminator. Texts are lists of UTF-16 code units.
mod Occurrences
mod Failure
pub mod Find
mod Gaps
mod Middle
mod Suffixes
mod Meaning
pub mod Matching
mod Tests
use lazy_layers.Prelude.{
  ℕ, zero, suc, ◌+◌, ◌-◌, Bool, true, false, Option, none, some, List, [], ◌∷◌, ◌++◌, ◌&&◌, ◌||◌,
  not, ◌==◌, ltb, leb, length, if◌then◌else◌, Text, text_eq,
}

abbrev pub star : ℕ
star = 42

-- text[i]; the program reads within the bounds of its texts and arrays.
unfoldable pub char_at : Text → ℕ → ℕ
char_at [] i = 0
char_at (c ∷ s) zero = c
char_at (c ∷ s) (suc i) = char_at s i

unfoldable pub starts_with : Text → Text → Bool
starts_with s [] = true
starts_with [] (c ∷ t) = false
starts_with (d ∷ s) (c ∷ t) = d == c && starts_with s t

-- text.slice(n)
unfoldable pub drop_text : ℕ → Text → Text
drop_text zero s = s
drop_text (suc n) [] = []
drop_text (suc n) (c ∷ s) = drop_text n s

unfoldable pub ends_with : Text → Text → Bool
unfolding drop_text
ends_with s t = leb (length t) (length s) && text_eq (drop_text (length s - length t) s) t

unfoldable pub is_line_terminator : ℕ → Bool
is_line_terminator c = c == 10 || c == 13 || c == 8232 || c == 8233

-- The rounds of the loop from `start` to `end`.
unfoldable pub has_terminator_from : Text → ℕ → ℕ → Bool
unfolding is_line_terminator char_at
has_terminator_from value start zero = false
has_terminator_from value start (suc n) =
    is_line_terminator (char_at value start) || has_terminator_from value (suc start) n

unfoldable pub has_line_terminator : Text → ℕ → ℕ → Bool
unfolding has_terminator_from
has_line_terminator value start end = has_terminator_from value start (end - start)

-- `while (matched > 0 && c !== literal[matched]) matched = failure[matched - 1]`
-- An entry of the failure table is at most its index, so that `matched` rounds are enough.
unfoldable pub fall_back : Text → Text → ℕ → ℕ → ℕ → ℕ
unfolding char_at
fall_back failure literal c zero matched = matched
fall_back failure literal c (suc fuel) matched =
    let shorter = fall_back failure literal c fuel (char_at failure (matched - 1)) in
    if ltb 0 matched && not (c == char_at literal matched) then shorter else matched

-- One round of either loop: the length that is matched after the character c.
unfoldable pub advance : Text → Text → ℕ → ℕ → ℕ
unfolding fall_back
advance failure literal c matched =
    let kept = fall_back failure literal c matched matched in
    if c == char_at literal kept then suc kept else kept

-- The rest of the failure table, for the rest of the literal.
unfoldable pub build_failure : Text → Text → ℕ → Text → Text
unfolding advance
build_failure literal [] matched failure = failure
build_failure literal (c ∷ rest) matched failure =
    let matched' = advance failure literal c matched in
    build_failure literal rest matched' (failure ++ matched' ∷ [])

unfoldable pub failure_table : Text → Text
unfolding build_failure
failure_table [] = []
failure_table (c ∷ rest) = build_failure (c ∷ rest) rest 0 (0 ∷ [])

-- The search loop, with the number of rounds that are left.
unfoldable pub search : Text → Text → Text → ℕ → ℕ → ℕ → Option ℕ
unfolding advance char_at
search failure literal value index matched zero = none
search failure literal value index matched (suc n) =
    let matched' = advance failure literal (char_at value index) matched in
    let later = search failure literal value (suc index) matched' n in
    if matched' == length literal then some (index + 1 - length literal) else later

unfoldable pub find_literal : Text → Text → ℕ → ℕ → Option ℕ
unfolding failure_table search
find_literal value literal start end =
    search (failure_table literal) literal value start 0 (end - start)

-- pattern.includes('*')
unfoldable pub includes_star : Text → Bool
includes_star [] = false
includes_star (c ∷ s) = c == star || includes_star s

abbrev cons_part : ℕ → Text × List Text → Text × List Text
cons_part c (part, parts) = (c ∷ part, parts)

abbrev next_part : Text × List Text → Text × List Text
next_part (part, parts) = ([], part ∷ parts)

-- pattern.split('*'), as its first part and the others
unfoldable pub split_stars : Text → Text × List Text
split_stars [] = ([], [])
split_stars (c ∷ s) =
    let rest = split_stars s in if c == star then next_part rest else cons_part c rest

-- The parts between the first and the last, with the last one.
unfoldable pub split_last : List Text → List Text × Text
split_last [] = ([], [])
split_last (p ∷ []) = ([], p)
split_last (p ∷ q ∷ ps) = let (ms, l) = split_last (q ∷ ps) in (p ∷ ms, l)

-- The rest of a round, if findLiteral finds a place.
abbrev pub if_found : (ℕ → Bool) → Option ℕ → Bool
if_found here none = false
if_found here (some at) = here at

-- The loop over the parts in the middle, from `position`.
unfoldable pub match_middle : Text → ℕ → ℕ → List Text → Bool
unfolding has_line_terminator find_literal
match_middle value position end [] = not (has_line_terminator value position end)
match_middle value position end ([] ∷ ps) = match_middle value position end ps
match_middle value position end ((c ∷ l) ∷ ps) =
    let here = λ (at : ℕ).
      let rest = match_middle value (at + length (c ∷ l)) end ps in
      not (has_line_terminator value position at) && rest in
    if_found here (find_literal value (c ∷ l) position end)

unfoldable pub match_parts : Text → Text → List Text × Text → Bool
unfolding starts_with ends_with match_middle
match_parts value first (middle, last) =
    let position = length first in
    let end = length value - length last in
    starts_with value first
    && ends_with value last
    && leb position end
    && match_middle value position end middle

unfoldable pub matches_pattern : Text → Text → Bool
unfolding includes_star split_stars split_last match_parts
matches_pattern value pattern =
    let (first, parts) = split_stars pattern in
    if text_eq pattern (star ∷ [])
    then true
    else if not (includes_star pattern)
    then text_eq value pattern
    else match_parts value first (split_last parts)
