-- ===== src/Marker/Size.antt =====
-- The sizes that `numDigits` and `markerMaxSizeBytes` compute.
use tox_defragmenter.Prelude.{
  ℕ, zero, suc, ◌+◌, ◌/◌, ◌^◌, ◌≤◌, ◌<◌, ◌≡◌, refl, inl, inr, arith, lt_or_le, length,
  length-append,
}
use tox_defragmenter.Decimal.{digits, decimal}
use tox_defragmenter.Decimal.Print.{
  length-digits_last, length-digits_more, length-decimal_le, length-decimal_mono,
}
use tox_defragmenter.Marker.{
  num_digits, num_digits_loop, int_max, marker_max_size_bytes, marker_text,
}

num_digits_loop-length : (f i n : ℕ) → i < f → num_digits_loop f i n + 1 ≡ n + length (digits f i)
unfolding num_digits_loop
num_digits_loop-length zero i n h = elim h [ ]
num_digits_loop-length (suc f) i n h = elim (lt_or_le i 10) [
  | inl small ↦ ground (arith, length-digits_last f i small)
  | inr large ↦
      ground (arith, length-digits_more f i large, num_digits_loop-length f (i / 10) (n + 1))
]

-- `numDigits` counts the digits that `sprintf` prints for a number.
pub num_digits-length : (i : ℕ) → num_digits i ≡ length (decimal i)
unfolding num_digits decimal
num_digits-length i = omega (arith, num_digits_loop-length (suc i) i 1 (omega arith))

pub length-marker_text :
    (id part_no num_parts off sz : ℕ)
    → length (marker_text id part_no num_parts off sz)
      ≡ 10
        + length (decimal id)
        + length (decimal part_no)
        + length (decimal num_parts)
        + length (decimal off)
        + length (decimal sz)
unfolding marker_text
length-marker_text id part_no num_parts off sz = omega (arith, length-append {0})

-- The size that is reserved for a marker suffices for every part of a message: the part number is at
-- most the number of parts, the offset at most the size, and the id has 13 digits.
pub length-marker_text_le :
    (id part_no num_parts off sz : ℕ)
    → id < 10 ^ 13
    → part_no ≤ num_parts
    → off ≤ sz
    → num_parts < 2 ^ 32
    → sz < 2 ^ 32
    → length (marker_text id part_no num_parts off sz) ≤ marker_max_size_bytes num_parts sz
unfolding marker_max_size_bytes
length-marker_text_le id part_no num_parts off sz hid hp ho hn hs =
    rw (num_digits-length num_parts, num_digits-length sz)
      (omega (
        arith,
        length-marker_text id part_no num_parts off sz,
        length-decimal_le 12 id hid,
        length-decimal_mono part_no num_parts hp,
        length-decimal_mono off sz ho,
        length-decimal_le 9 num_parts (omega arith),
        length-decimal_le 9 sz (omega arith),
      ))

marker_max_size_bytes-length :
    (num_parts sz : ℕ)
    → num_parts < 2 ^ 32
    → sz < 2 ^ 32
    → marker_max_size_bytes num_parts sz
      ≡ 23
        + length (decimal num_parts)
        + length (decimal num_parts)
        + length (decimal sz)
        + length (decimal sz)
unfolding marker_max_size_bytes
marker_max_size_bytes-length num_parts sz hn hs =
    rw (num_digits-length num_parts, num_digits-length sz)
      (omega
        (arith, length-decimal_le 9 num_parts (omega arith), length-decimal_le 9 sz (omega arith)))

-- The most that is ever set aside for a marker.
pub marker_max_size_bytes_ever : marker_max_size_bytes int_max int_max ≡ 63
unfolding marker_max_size_bytes num_digits num_digits_loop
marker_max_size_bytes_ever = refl

pub marker_max_size_bytes_mono :
    (m n sz : ℕ)
    → m ≤ n
    → n < 2 ^ 32
    → sz < 2 ^ 32
    → marker_max_size_bytes m sz ≤ marker_max_size_bytes n sz
marker_max_size_bytes_mono m n sz h hn hs = omega (
  arith,
  marker_max_size_bytes-length m sz (omega arith) hs,
  marker_max_size_bytes-length n sz hn hs,
  length-decimal_mono m n h,
)

pub marker_max_size_bytes_le :
    (n sz : ℕ) → n < 2 ^ 32 → sz < 2 ^ 32 → marker_max_size_bytes n sz ≤ 63
marker_max_size_bytes_le n sz hn hs = omega (
  arith,
  marker_max_size_bytes-length n sz hn hs,
  length-decimal_le 9 n (omega arith),
  length-decimal_le 9 sz (omega arith),
)
