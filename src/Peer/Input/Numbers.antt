-- ===== src/Peer/Input/Numbers.antt =====
-- A number and a string that were printed are read back, with the rest of the stream behind them.
use tox_defragmenter.Prelude.{
  ℕ, zero, suc, ◌+◌, ◌/◌, ◌%◌, ◌^◌, ◌<◌, [], ◌∷◌, ◌++◌, ◌≡◌, ◌≢◌, refl, ◌∙◌, inl, inr, arith, Bytes,
  All, false, lt_or_le, ◌==◌, length, drop-append_length, take-append_length, leb, true,
  length-append, u32,
}
use tox_defragmenter.Decimal.{digits, decimal, IsDigit, is_digit}
use tox_defragmenter.Decimal.Print.{digits_last, digits_more, decimal-IsDigit}
use tox_defragmenter.Peer.Outcome.{done}
use tox_defragmenter.Peer.Input.{shift_in, read_uint_from, read_uint, read_string, c_string}

-- The number that digits spell behind `u`, as an unsigned.
spelt : Bytes → ℕ → ℕ
spelt [] u = u
spelt (c ∷ s) u = spelt s (shift_in u c)

spelt-append : (xs ys : Bytes) (u : ℕ) → spelt (xs ++ ys) u ≡ spelt ys (spelt xs u)
unfolding spelt
spelt-append [] ys u = refl
spelt-append (x ∷ xs) ys u = spelt-append xs ys (shift_in u x)

spelt_one : (c u : ℕ) → spelt (c ∷ []) u ≡ shift_in u c
unfolding spelt
spelt_one c u = refl

spelt-digits : (f n : ℕ) → n < f → n < 2 ^ 32 → spelt (digits f n) 0 ≡ n
spelt-digits zero n h small = elim h [ ]
spelt-digits (suc f) n h small = elim (lt_or_le n 10) [
  | inl low ↦ rw (digits_last f n low) (spelt_one (b'0' + n) 0 ∙ omega arith)
  | inr high ↦
      rw
        (
          digits_more f n high,
          spelt-append (digits f (n / 10)),
          spelt-digits f (n / 10) (omega arith) (omega arith),
        )
        (spelt_one (b'0' + n % 10) (n / 10) ∙ omega arith)
]

read_uint_from-append :
    (skip : ℕ) (ds rest : Bytes) (u : ℕ)
    → is_digit skip ≡ false
    → All IsDigit ds
    → read_uint_from skip (ds ++ skip ∷ rest) u ≡ done (spelt ds u, rest)
unfolding read_uint_from spelt
read_uint_from-append skip [] rest u no_digit _ = ground arith
read_uint_from-append skip (d ∷ ds) rest u no_digit (hd, hds) =
    ground (arith, read_uint_from-append skip ds rest (shift_in u d) no_digit hds)

pub read_uint-decimal :
    (skip n : ℕ) (rest : Bytes)
    → is_digit skip ≡ false
    → n < 2 ^ 32
    → read_uint skip (decimal n ++ skip ∷ rest) ≡ done (n, rest)
unfolding decimal
read_uint-decimal skip n rest no_digit small =
    read_uint_from-append skip (decimal n) rest 0 no_digit (decimal-IsDigit n)
    ∙ rw (spelt-digits (suc n) n (omega arith) small)

-- A message that was printed behind its length.
pub read_string-decimal :
    (msg rest : Bytes)
    → length msg < 2 ^ 31
    → read_string b'\n' (decimal (length msg) ++ b' ' ∷ (msg ++ b'\n' ∷ rest)) ≡ done (msg, rest)
unfolding read_string
read_string-decimal msg rest small =
    let fits : leb (length msg) (length (msg ++ b'\n' ∷ rest)) ≡ true =
      ground (arith, length-append msg (b'\n' ∷ rest)) in
    let room : (u32 (length msg + 1) == 0) ≡ false = ground arith in
    rw
      (
        read_uint-decimal b' ' (length msg) (msg ++ b'\n' ∷ rest) refl (omega arith),
        room,
        fits,
        drop-append_length msg (b'\n' ∷ rest),
        take-append_length msg (b'\n' ∷ rest),
      )
      refl

-- A message without a byte 0 is a string of C as it is.
pub c_string-All : (msg : Bytes) → All (λ c. c ≢ 0) msg → c_string msg ≡ msg
unfolding c_string
c_string-All [] _ = refl
c_string-All (c ∷ s) (h, hs) = ground (arith, c_string-All s hs)
