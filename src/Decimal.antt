-- ===== src/Decimal.antt =====
-- The decimal numbers of the C library, as marker.c uses them: `sprintf` with `%u`, `isdigit`, and
-- `strtoul` on a text whose first character is a digit.
pub mod Print
pub mod Scan
use tox_defragmenter.Prelude.{
  ℕ, zero, suc, ◌+◌, ◌-◌, ◌*◌, ◌/◌, ◌%◌, ◌^◌, ◌≤◌, ◌<◌, [], ◌∷◌, ◌++◌, Bool, ◌&&◌, Bytes, ltb, leb,
  if◌then◌else◌, min,
}

-- The digits of `n`, most significant first; the first argument bounds the rounds.
unfoldable pub digits : ℕ → ℕ → Bytes
digits zero n = []
digits (suc f) n =
    let more = digits f (n / 10) ++ (b'0' + n % 10) ∷ [] in
    if ltb n 10 then (b'0' + n) ∷ [] else more

-- A number has fewer digits than its successor counts rounds.
unfoldable pub decimal : ℕ → Bytes
unfolding digits
decimal n = digits (suc n) n

abbrev pub is_digit : ℕ → Bool
is_digit c = leb b'0' c && leb c b'9'

abbrev pub IsDigit : ℕ → Type 0
IsDigit c = (b'0' ≤ c) × (c ≤ b'9')

-- Reading stops at the first character that is no digit.
unfoldable pub scan : Bytes → ℕ → ℕ
scan [] n = n
scan (c ∷ s) n = let more = scan s (n * 10 + (c - b'0')) in if is_digit c then more else n

abbrev ulong_max : ℕ
ulong_max = 2 ^ 64 - 1

-- A value too large is reported as ULONG_MAX.
unfoldable pub strtoul : Bytes → ℕ
unfolding scan
strtoul s = min (scan s 0) ulong_max
