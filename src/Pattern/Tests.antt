-- ===== src/Pattern/Tests.antt =====
-- Tests of the pattern matcher.
use lazy_layers.Prelude.{
  ◌≡◌, ◌↔◌, ◌⊎◌, refl, true, false, some, none, codes, text_eq, [], ◌∷◌, arith,
}
use lazy_layers.Pattern.Find.{IsFirst, find_literal-IsFirst}
use lazy_layers.Pattern.Meaning.{Matches}
use lazy_layers.Pattern.Matching.{matches_pattern-Matches}
use lazy_layers.Pattern.{
  star, matches_pattern, includes_star, split_stars, split_last, match_parts, starts_with,
  ends_with, match_middle, has_line_terminator, has_terminator_from, is_line_terminator,
  find_literal, failure_table, build_failure, search, advance, fall_back, char_at, drop_text,
}

find_literal-after_fall_back : find_literal (codes "aabaabaaab") (codes "aabaaab") 0 10 ≡ some 3
unfolding find_literal failure_table build_failure search advance fall_back char_at
find_literal-after_fall_back = refl

find_literal-before_end : find_literal (codes "xxab") (codes "ab") 0 3 ≡ none
unfolding find_literal failure_table build_failure search advance fall_back char_at
find_literal-before_end = refl

matches-user_pattern : matches_pattern (codes "user:42:name") (codes "user:*:n*e") ≡ true
unfolding matches_pattern includes_star split_stars split_last match_parts starts_with ends_with
    match_middle has_line_terminator has_terminator_from is_line_terminator find_literal
    failure_table build_failure search advance fall_back char_at drop_text text_eq
matches-user_pattern = refl

matches-overlap : matches_pattern (codes "aba") (codes "ab*ba") ≡ false
unfolding matches_pattern includes_star split_stars split_last match_parts starts_with ends_with
    match_middle has_line_terminator has_terminator_from is_line_terminator find_literal
    failure_table build_failure search advance fall_back char_at drop_text text_eq
matches-overlap = refl

find_literal-IsFirst_example :
    IsFirst
      (codes "aabaaab")
      (codes "aabaabaaab")
      0
      10
      (find_literal (codes "aabaabaaab") (codes "aabaaab") 0 10)
find_literal-IsFirst_example =
    find_literal-IsFirst (codes "aabaaab") (codes "aabaabaaab") 0 10 (omega arith) (omega arith)

matches_pattern-Matches_example :
    (matches_pattern (codes "user:42:name") (codes "user:*:n*e") ≡ true)
    ↔ ((codes "user:*:n*e" ≡ star ∷ []) ⊎ Matches (codes "user:*:n*e") (codes "user:42:name"))
matches_pattern-Matches_example =
    matches_pattern-Matches (codes "user:42:name") (codes "user:*:n*e")
