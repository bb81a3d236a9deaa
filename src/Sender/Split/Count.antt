-- ===== src/Sender/Split/Count.antt =====
-- How many fragments there are, and how large they can be.
use native.Mathlib.Nat.{div-lt_iff_lt-mul, add-div_right, lt-div-mul-add}
use tox_defragmenter.Prelude.{
  ℕ, zero, suc, ◌+◌, ◌-◌, ◌*◌, ◌/◌, ◌^◌, ◌≤◌, ◌<◌, [], ◌∷◌, Bytes, ◌≡◌, ap, sym, subst, ◌∙◌, u32,
  length, drop, arith, lt_or_le, inl, inr, length-drop,
}
use tox_defragmenter.Marker.{marker_max_size_bytes}
use tox_defragmenter.Marker.Size.{
  marker_max_size_bytes_ever, marker_max_size_bytes_mono, marker_max_size_bytes_le,
}
use tox_defragmenter.Sender.Split.{size_minus, reserved, parts_of, marker_max_size_ever}
use tox_defragmenter.Sender.Split.Pieces.{pieces}

-- The division that rounds up.
pub ceil : ℕ → ℕ → ℕ
ceil n s = (n + s - 1) / s

le-ceil : (n s : ℕ) → 1 ≤ s → n ≤ ceil n s * s
unfolding ceil
le-ceil n s hs = omega (arith, lt-div-mul-add {a = n + s - 1} hs)

-- A number of pieces suffices when they hold that much together.
ceil-le : (n s k : ℕ) → 1 ≤ s → n ≤ k * s → ceil n s ≤ k
unfolding ceil
ceil-le n s k hs h =
    let below : (n + s - 1) / s < k + 1 = (div-lt_iff_lt-mul hs).1 (omega arith) in omega arith

ceil-anti : (n s t : ℕ) → 1 ≤ s → s ≤ t → ceil n t ≤ ceil n s
ceil-anti n s t hs h = ceil-le n t (ceil n s) (omega arith) (grind (arith, le-ceil n s hs))

ceil_small : (n s : ℕ) → 1 ≤ n → n ≤ s → ceil n s ≡ 1
ceil_small n s hn hs = elim (lt_or_le (ceil n s) 1) [
  | inl none_left ↦
      absurd
        (let z : ceil n s ≡ 0 = omega arith in let le = le-ceil n s (omega arith) in grind arith)
  | inr some_left ↦ omega (arith, ceil-le n s 1 (omega arith) (omega arith))
]

ceil_more : (n s : ℕ) → 1 ≤ s → ceil (n + s) s ≡ ceil n s + 1
unfolding ceil
ceil_more n s hs =
    let e : n + s + s - 1 ≡ (n + s - 1) + s = omega arith in rw e (add-div_right (n + s - 1) hs)

ceil_zero : (s : ℕ) → 1 ≤ s → ceil 0 s ≡ 0
ceil_zero s hs = omega (arith, ceil-le 0 s 0 hs (omega arith))

-- One piece of `s` bytes is taken off.
ceil_step : (n s : ℕ) → 1 ≤ s → 1 ≤ n → ceil n s ≡ suc (ceil (n - s) s)
ceil_step n s hs hn = elim (lt_or_le n s) [
  | inl short ↦
      let e : n - s ≡ 0 = omega arith in
      rw e (omega (arith, ceil_zero s hs, ceil_small n s hn (omega arith)))
  | inr long ↦
      let e : n ≡ (n - s) + s = omega arith in
      ap (λ k. ceil k s) e ∙ ceil_more (n - s) s hs ∙ omega arith
]

-- There are as many pieces as the division that rounds up says.
pub length-pieces :
    (f step : ℕ) (m : Bytes)
    → 1 ≤ step
    → length m < f
    → length (pieces f step m) ≡ ceil (length m) step
unfolding pieces
length-pieces zero step m hs h = elim h [ ]
length-pieces (suc f) step [] hs h = sym (ceil_zero step hs)
length-pieces (suc f) step (c ∷ m) hs h =
    ap suc (
      length-pieces f step (drop step (c ∷ m)) hs (omega (arith, length-drop step (c ∷ m)))
      ∙ ap (λ n. ceil n step) (length-drop step (c ∷ m)))
    ∙ sym (ceil_step (suc (length m)) step hs (omega arith))

pub ceil-le_self : (n s : ℕ) → 1 ≤ s → ceil n s ≤ n
ceil-le_self n s hs = ceil-le n s n hs (grind arith)

u32_small : (n : ℕ) → n < 2 ^ 32 → u32 n ≡ n
u32_small n h = omega arith

-- `numParts` does not wrap.
pub parts_of-ceil : (len step : ℕ) → 1 ≤ step → len < 2 ^ 32 → parts_of len step ≡ ceil len step
unfolding parts_of ceil
parts_of-ceil len step hs h = u32_small (ceil len step) (omega (arith, ceil-le_self len step hs))

pub size_minus_le : (a b : ℕ) → b ≤ a → size_minus a b ≡ a - b
unfolding size_minus
size_minus_le a b h = ground arith

reserved_eq :
    (len max : ℕ)
    → 63 < max
    → len < 2 ^ 32
    → reserved marker_max_size_ever len max ≡ marker_max_size_bytes (ceil len (max - 63)) len
unfolding reserved ceil
reserved_eq len max hm hl =
    let e : len + max - 63 - 1 ≡ len + (max - 63) - 1 = omega arith in
    let w : u32 len ≡ len = omega arith in
    rw
      (
        marker_max_size_bytes_ever,
        size_minus_le max 63 (omega arith),
        size_minus_le (len + max) 63 (omega arith),
        size_minus_le (len + max - 63) 1 (omega arith),
        e,
        w,
      )
      (ap (λ n. marker_max_size_bytes n len)
        (u32_small (ceil len (max - 63))
          (omega (arith, ceil-le_self len (max - 63) (omega arith)))))

pub reserved_le :
    (len max : ℕ) → 63 < max → len < 2 ^ 32 → reserved marker_max_size_ever len max ≤ 63
reserved_le len max hm hl = rw (reserved_eq len max hm hl) (
    marker_max_size_bytes_le (ceil len (max - 63)) len
      (omega (arith, ceil-le_self len (max - 63) (omega arith))) hl)

-- For a greatest length of more than 63 bytes and a message of less than 2^32, the bytes that
-- `splitMessage` sets aside for a marker suffice for as many parts as the message is cut into when
-- so many bytes are set aside.
pub marker_max_size_bytes-reserved :
    (len max : ℕ)
    → 63 < max
    → len < 2 ^ 32
    → let r = reserved marker_max_size_ever len max in
      marker_max_size_bytes (parts_of len (max - r)) len ≤ r
marker_max_size_bytes-reserved len max hm hl =
    let r = reserved marker_max_size_ever len max in
    let small = reserved_le len max hm hl in
    rw (parts_of-ceil len (max - r) (omega arith) hl) (
      subst (λ n. marker_max_size_bytes (ceil len (max - r)) len ≤ n)
        (sym (reserved_eq len max hm hl))
        (marker_max_size_bytes_mono (ceil len (max - r)) (ceil len (max - 63)) len
          (ceil-anti len (max - 63) (max - r) (omega arith) (omega arith))
          (omega (arith, ceil-le_self len (max - 63) (omega arith))) hl))
