-- ===== src/Decimal/Scan.antt =====
-- What `strtoul` reads from a text that begins with digits.
use tox_defragmenter.Prelude.{
  ℕ, zero, suc, ◌+◌, ◌-◌, ◌*◌, ◌/◌, ◌%◌, ◌^◌, ◌<◌, [], ◌∷◌, ◌++◌, ◌≡◌, refl, inl, inr, ◌∙◌, arith,
  Bytes, All, false, lt_or_le,
}
use tox_defragmenter.Decimal.{digits, decimal, IsDigit, is_digit, scan, strtoul}
use tox_defragmenter.Decimal.Print.{digits_last, digits_more, decimal-IsDigit}

-- The number that digits spell behind `n`.
value : Bytes → ℕ → ℕ
value [] n = n
value (c ∷ s) n = value s (n * 10 + (c - b'0'))

-- The text that follows does not go on with a digit.
abbrev pub EndsNumber : Bytes → Type 0
EndsNumber [] = Unit {0}
EndsNumber (c ∷ s) = is_digit c ≡ false

scan-append :
    (ds rest : Bytes) (n : ℕ) → All IsDigit ds → EndsNumber rest → scan (ds ++ rest) n ≡ value ds n
unfolding scan value
scan-append [] [] n _ h = refl
scan-append [] (c ∷ rest) n _ h = ground arith
scan-append (d ∷ ds) rest n (hd, hds) h =
    ground (arith, scan-append ds rest (n * 10 + (d - b'0')) hds h)

value-append : (xs ys : Bytes) (n : ℕ) → value (xs ++ ys) n ≡ value ys (value xs n)
unfolding value
value-append [] ys n = refl
value-append (x ∷ xs) ys n = value-append xs ys (n * 10 + (x - b'0'))

value_one : (c n : ℕ) → value (c ∷ []) n ≡ n * 10 + (c - b'0')
unfolding value
value_one c n = refl

value-digits : (f n : ℕ) → n < f → value (digits f n) 0 ≡ n
value-digits zero n h = elim h [ ]
value-digits (suc f) n h = elim (lt_or_le n 10) [
  | inl small ↦ rw (digits_last f n small) (value_one (b'0' + n) 0 ∙ omega arith)
  | inr large ↦
      rw
        (
          digits_more f n large,
          value-append (digits f (n / 10)),
          value-digits f (n / 10) (omega arith),
        )
        (value_one (b'0' + n % 10) (n / 10) ∙ omega arith)
]

-- A printed number that fits an unsigned long is read back, up to the first character that is no digit.
pub strtoul-decimal :
    (n : ℕ) (rest : Bytes) → n < 2 ^ 64 → EndsNumber rest → strtoul (decimal n ++ rest) ≡ n
unfolding strtoul decimal
strtoul-decimal n rest h e =
    rw
      (
        scan-append (digits (suc n) n) rest 0 (decimal-IsDigit n) e,
        value-digits (suc n) n (omega arith),
      )
      (omega arith)
