-- ===== src/Marker/Layout.antt =====
-- Where a text stands in the memory of a message, and what the loops of marker.c find there.
use tox_defragmenter.Prelude.{
  ℕ, zero, suc, ◌+◌, ◌^◌, ◌≤◌, ◌<◌, [], ◌∷◌, ◌++◌, ◌≡◌, ◌≢◌, refl, ap, subst, arith, Bytes, All,
  true, false, length, drop,
}
use tox_defragmenter.Decimal.{decimal, IsDigit, is_digit, strtoul}
use tox_defragmenter.Decimal.Scan.{EndsNumber, strtoul-decimal}
use tox_defragmenter.Decimal.Print.{decimal-IsDigit}
use tox_defragmenter.Marker.{byte, field_size, all_digits}

-- The text `s` stands at position `p` of the memory `m`.
abbrev pub At : Bytes → ℕ → Bytes → Type 0
At m p [] = Unit {0}
At m p (c ∷ s) = (byte m p ≡ c) × At m (p + 1) s

At-suc : (m s : Bytes) (c p : ℕ) → At m p s → At (c ∷ m) (suc p) s
At-suc m [] c p h = tt
At-suc m (d ∷ s) c p (h, hs) =
    (h, subst (λ q. At (c ∷ m) q s) (omega arith) (At-suc m s c (p + 1) hs))

-- A text stands at the start of what it begins.
pub At-zero : (s rest : Bytes) → At (s ++ rest) 0 s
At-zero [] rest = tt
At-zero (c ∷ s) rest = (refl, At-suc (s ++ rest) s c 0 (At-zero s rest))

pub At-append_left : (m s t : Bytes) (p : ℕ) → At m p (s ++ t) → At m p s
At-append_left m [] t p h = tt
At-append_left m (c ∷ s) t p (h, hs) = (h, At-append_left m s t (p + 1) hs)

pub At-append_right : (m s t : Bytes) (p : ℕ) → At m p (s ++ t) → At m (p + length s) t
At-append_right m [] t p h = subst (λ q. At m q t) (omega arith) h
At-append_right m (c ∷ s) t p (h, hs) =
    subst (λ q. At m q t) (omega arith) (At-append_right m s t (p + 1) hs)

-- The byte at `p` is no digit.
abbrev pub EndsAt : Bytes → ℕ → Type 0
EndsAt m p = is_digit (byte m p) ≡ false

EndsAt-step : (m : Bytes) (p n : ℕ) → EndsAt m (p + suc n) → EndsAt m ((p + 1) + n)
EndsAt-step m p n = subst (EndsAt m) (omega arith)

-- The digits of a field are counted, up to the first character that is no digit.
pub field_size-At :
    (m : Bytes) (len k i : ℕ) (ds : Bytes)
    → At m i ds
    → All IsDigit ds
    → length ds ≤ k
    → i + length ds ≤ len
    → EndsAt m (i + length ds)
    → field_size m len k i ≡ length ds
unfolding field_size
field_size-At m len zero i [] a d hk hl e = refl
field_size-At m len zero i (c ∷ ds) a d hk hl e = absurd (omega arith)
field_size-At m len (suc k) i [] a d hk hl e =
    let e' : EndsAt m i = subst (EndsAt m) (omega arith) e in ground arith
field_size-At m len (suc k) i (c ∷ ds) (h, a) (d, hd) hk hl e = ground (
  arith,
  field_size-At m len k (i + 1) ds a hd (omega arith) (omega arith) (EndsAt-step m i (length ds) e),
)

pub all_digits-At :
    (m : Bytes) (i : ℕ) (ds : Bytes)
    → At m i ds
    → All IsDigit ds
    → all_digits m (length ds) i ≡ true
unfolding all_digits
all_digits-At m i [] a d = refl
all_digits-At m i (c ∷ ds) (h, a) (d, hd) = ground (arith, all_digits-At m (i + 1) ds a hd)

drop-byte : (m : Bytes) (p : ℕ) → byte m p ≢ 0 → drop p m ≡ byte m p ∷ drop (p + 1) m
drop-byte [] p h = absurd (h refl)
drop-byte (c ∷ m) zero h = refl
drop-byte (c ∷ m) (suc p) h =
    let e : suc p + 1 ≡ suc (p + 1) = omega arith in rw e (drop-byte m p h)

EndsNumber-drop : (m : Bytes) (p : ℕ) → EndsAt m p → EndsNumber (drop p m)
EndsNumber-drop [] zero e = tt
EndsNumber-drop [] (suc p) e = tt
EndsNumber-drop (c ∷ m) zero e = e
EndsNumber-drop (c ∷ m) (suc p) e = EndsNumber-drop m p e

drop-At :
    (m : Bytes) (p : ℕ) (ds : Bytes)
    → At m p ds
    → All IsDigit ds
    → drop p m ≡ ds ++ drop (p + length ds) m
drop-At m p [] a d = ap (λ q. drop q m) (omega arith)
drop-At m p (c ∷ ds) (h, a) (d, hd) =
    let e : p + suc (length ds) ≡ (p + 1) + length ds = omega arith in
    rw (drop-byte m p (λ z. omega arith), h, e) (ap (◌∷◌ c) (drop-At m (p + 1) ds a hd))

-- `strtoul` at a field reads the number that is printed there.
pub strtoul-At :
    (m : Bytes) (p n : ℕ)
    → At m p (decimal n)
    → n < 2 ^ 64
    → EndsAt m (p + length (decimal n))
    → strtoul (drop p m) ≡ n
strtoul-At m p n a h e =
    rw (drop-At m p (decimal n) a (decimal-IsDigit n))
      (strtoul-decimal n (drop (p + length (decimal n)) m) h (EndsNumber-drop m _ e))
