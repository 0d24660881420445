-- ===== src/Prelude/Numbers.antt =====
-- The numbers of JavaScript as far as the program's limits tell them apart: every limit has to be
-- a safe integer before it is used.
use lazy_layers.Prelude.Tests.{leb, ltb}
use Prim.Native.Nat.{ℕ}
use mathlib.Core.Bool.{Bool, false, ◌&&◌}

-- `natural n` is n, `negative n` is -(n + 1), and `not_integer` is NaN, an infinity or a fraction.
pub data Number : Type 0 where
  natural : ℕ → Number
  negative : ℕ → Number
  not_integer : Number

-- Number.MAX_SAFE_INTEGER
abbrev pub max_safe_integer : ℕ
max_safe_integer = 9007199254740991

-- Number.isSafeInteger(n) && n >= 0
abbrev pub is_safe_natural : Number → Bool
is_safe_natural (natural n) = leb n max_safe_integer
is_safe_natural (negative n) = false
is_safe_natural not_integer = false

-- Number.isSafeInteger(n) && n > 0
abbrev pub is_safe_positive : Number → Bool
is_safe_positive (natural n) = ltb 0 n && leb n max_safe_integer
is_safe_positive (negative n) = false
is_safe_positive not_integer = false

-- The value of a limit that has passed its test.
abbrev pub to_natural : Number → ℕ
to_natural (natural n) = n
to_natural (negative n) = 0
to_natural not_integer = 0
