-- ===== src/Decimal/Print.antt =====
-- What a printed number looks like: digits only, as many as its size asks for.
use native.Mathlib.Nat.{pow-suc}
use tox_defragmenter.Prelude.{
  ℕ, zero, suc, ◌+◌, ◌/◌, ◌%◌, ◌^◌, ◌≤◌, ◌<◌, [], ◌∷◌, ◌++◌, ◌≡◌, inl, inr, arith, length,
  length-append, All, All-append, lt_or_le,
}
use tox_defragmenter.Decimal.{digits, decimal, IsDigit}

-- One round of the printing, where the number has one digit and where it has more.
pub digits_last : (f n : ℕ) → n < 10 → digits (suc f) n ≡ (b'0' + n) ∷ []
unfolding digits
digits_last f n h = ground arith

pub digits_more : (f n : ℕ) → 10 ≤ n → digits (suc f) n ≡ digits f (n / 10) ++ (b'0' + n % 10) ∷ []
unfolding digits
digits_more f n h = ground arith

digits-IsDigit : (f n : ℕ) → n < f → All IsDigit (digits f n)
digits-IsDigit zero n h = elim h [ ]
digits-IsDigit (suc f) n h = elim (lt_or_le n 10) [
  | inl small ↦ rw (digits_last f n small) (omega arith)
  | inr large ↦ rw (digits_more f n large) (
      All-append IsDigit (digits f (n / 10)) _ (digits-IsDigit f (n / 10) (omega arith))
        (omega arith))
]

pub decimal-IsDigit : (n : ℕ) → All IsDigit (decimal n)
unfolding decimal
decimal-IsDigit n = digits-IsDigit (suc n) n (omega arith)

pub length-digits_more :
    (f n : ℕ) → 10 ≤ n → length (digits (suc f) n) ≡ length (digits f (n / 10)) + 1
length-digits_more f n h =
    rw (digits_more f n h) (length-append (digits f (n / 10)) ((b'0' + n % 10) ∷ []))

pub length-digits_last : (f n : ℕ) → n < 10 → length (digits (suc f) n) ≡ 1
length-digits_last f n h = rw (digits_last f n h)

length-digits_pos : (f n : ℕ) → n < f → 1 ≤ length (digits f n)
length-digits_pos zero n h = elim h [ ]
length-digits_pos (suc f) n h = elim (lt_or_le n 10) [
  | inl small ↦ omega (arith, length-digits_last f n small)
  | inr large ↦ omega (arith, length-digits_more f n large)
]

pub length-decimal_pos : (n : ℕ) → 1 ≤ length (decimal n)
unfolding decimal
length-decimal_pos n = length-digits_pos (suc n) n (omega arith)

length-digits_le : (k f n : ℕ) → n < f → n < 10 ^ suc k → length (digits f n) ≤ suc k
length-digits_le k zero n h b = elim h [ ]
length-digits_le zero (suc f) n h b = omega (arith, length-digits_last f n b)
length-digits_le (suc k) (suc f) n h b = elim (lt_or_le n 10) [
  | inl small ↦ omega (arith, length-digits_last f n small)
  | inr large ↦ omega (
    arith,
    length-digits_more f n large,
    length-digits_le k f (n / 10) (omega arith) (omega (arith, pow-suc 10 (suc k))),
  )
]

-- A number below ten to the `k` has at most `k` digits.
pub length-decimal_le : (k n : ℕ) → n < 10 ^ suc k → length (decimal n) ≤ suc k
unfolding decimal
length-decimal_le k n h = length-digits_le k (suc n) n (omega arith) h

length-digits_ge : (k f n : ℕ) → n < f → 10 ^ k ≤ n → k < length (digits f n)
length-digits_ge k zero n h b = elim h [ ]
length-digits_ge zero (suc f) n h b = length-digits_pos (suc f) n h
length-digits_ge (suc k) (suc f) n h b = elim (lt_or_le n 10) [
  | inl small ↦ absurd (tens_le k n small b)
  | inr large ↦ omega (
    arith,
    length-digits_more f n large,
    length-digits_ge k f (n / 10) (omega arith) (omega (arith, pow-suc 10 k)),
  )
]
  where
    tens_le : (j m : ℕ) → m < 10 → 10 ^ suc j ≤ m → ⊥
    tens_le zero m small big = omega arith
    tens_le (suc j) m small big = tens_le j m small (omega (arith, pow-suc 10 (suc j)))

pub length-decimal_ge : (k n : ℕ) → 10 ^ k ≤ n → k < length (decimal n)
unfolding decimal
length-decimal_ge k n h = length-digits_ge k (suc n) n (omega arith) h

length-digits_mono :
    (f g m n : ℕ) → m < f → n < g → m ≤ n → length (digits f m) ≤ length (digits g n)
length-digits_mono zero g m n h k le = elim h [ ]
length-digits_mono (suc f) zero m n h k le = elim k [ ]
length-digits_mono (suc f) (suc g) m n h k le = elim (lt_or_le m 10) [
  | inl small ↦ omega (arith, length-digits_last f m small, length-digits_pos (suc g) n k)
  | inr large ↦ omega (
    arith,
    length-digits_more f m large,
    length-digits_more g n (omega arith),
    length-digits_mono f g (m / 10) (n / 10) (omega arith) (omega arith) (omega arith),
  )
]

-- The greater of two numbers has at least as many digits.
pub length-decimal_mono : (m n : ℕ) → m ≤ n → length (decimal m) ≤ length (decimal n)
unfolding decimal
length-decimal_mono m n h = length-digits_mono (suc m) (suc n) m n (omega arith) (omega arith) h
