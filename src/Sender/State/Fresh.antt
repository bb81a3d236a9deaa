-- ===== src/Sender/State/Fresh.antt =====
-- `generateReceiptNo`: the number is in the range, and no message of the ring has it.
use tox_defragmenter.Prelude.{
  ap, ℕ, zero, suc, ◌+◌, ◌-◌, ◌^◌, ◌≤◌, ◌<◌, ◌≡◌, [], ◌∷◌, List, Bool, true, false, leb, ◌==◌,
  if◌then◌else◌, arith, Bool-cases, inl, inr, refl, length, some,
}
use tox_defragmenter.Database.Types.{ok}
use tox_defragmenter.Sender.Types.{Params}
use tox_defragmenter.Sender.Heap.{Heap, msg_at, ring}
use tox_defragmenter.Sender.State.{
  State, has_receipt, next_receipt, free_receipt, last_receipt_set, generate_receipt_no,
}

-- How many messages have a receipt among the `n` numbers that follow `r`, counted round the range.
-- How far a number is from `r`, counted up and round the range.
abbrev dist : Params → ℕ → ℕ → ℕ
dist ps r u = if leb r u then u - r else u + (ps.receipt_range_hi + 1 - ps.receipt_range_lo) - r

-- The number is in the range, and less than `n` from `r`.
abbrev near : Params → ℕ → ℕ → ℕ → Bool
near ps r n u =
    if leb ps.receipt_range_lo u
    then (if leb u ps.receipt_range_hi then leb (dist ps r u + 1) n else false)
    else false

module _ (ps : Params) (h : Heap) (r : ℕ) where
  count_near : ℕ → List ℕ → ℕ
  count_near n [] = 0
  count_near n (p ∷ msgs) = (if near ps r n (msg_at h p).receipt then 1 else 0) + count_near n msgs

  count_near-le : (n : ℕ) (msgs : List ℕ) → count_near n msgs ≤ length msgs
  unfolding count_near
  count_near-le n [] = omega arith
  count_near-le n (p ∷ msgs) = ground (arith, count_near-le n msgs)

  count_near_mono : (n : ℕ) (msgs : List ℕ) → count_near n msgs ≤ count_near (n + 1) msgs
  unfolding count_near
  count_near_mono n [] = omega arith
  count_near_mono n (p ∷ msgs) = ground (arith, count_near_mono n msgs)

  -- A number at distance `n` that is taken counts once more.
  count_near_taken :
      (n c : ℕ) (msgs : List ℕ)
      → ps.receipt_range_lo ≤ c
      → c ≤ ps.receipt_range_hi
      → dist ps r c ≡ n
      → has_receipt h msgs c ≡ true
      → count_near n msgs + 1 ≤ count_near (n + 1) msgs
  unfolding count_near has_receipt
  count_near_taken n c [] lo hi d e = ground arith
  count_near_taken n c (p ∷ msgs) lo hi d e = elim (Bool-cases ((msg_at h p).receipt == c)) [
    | inl same ↦
        let eq : (msg_at h p).receipt ≡ c = ground arith in ground (arith, count_near_mono n msgs)
    | inr other ↦ ground (arith, count_near_taken n c msgs lo hi d (ground arith))
  ]

  -- The loop: after `k` rounds all numbers at a distance below `k` are taken.
  free_receipt-free :
      (f k c : ℕ) (msgs : List ℕ)
      → ps.receipt_range_lo ≤ r
      → r ≤ ps.receipt_range_hi
      → ps.receipt_range_hi < 2 ^ 32 - 1
      → length msgs < ps.receipt_range_hi + 1 - ps.receipt_range_lo
      → f + k ≡ length msgs + 1
      → k ≤ count_near k msgs
      → ps.receipt_range_lo ≤ c
      → c ≤ ps.receipt_range_hi
      → dist ps r c ≡ k
      → (u : ℕ) × (free_receipt f ps h msgs c ≡ some u)
        × (has_receipt h msgs u ≡ false)
        × (ps.receipt_range_lo ≤ u)
        × (u ≤ ps.receipt_range_hi)
  unfolding free_receipt
  free_receipt-free zero k c msgs rlo rhi w few rounds taken lo hi d =
      absurd (omega (arith, count_near-le k msgs))
  free_receipt-free (suc f) k c msgs rlo rhi w few rounds taken lo hi d =
      elim (Bool-cases (has_receipt h msgs c)) [
        | inl used ↦
            let more = count_near_taken k c msgs lo hi d used in
            let bound = count_near-le (k + 1) msgs in
            rw used (
              free_receipt-free f (k + 1) (next_receipt ps c) msgs rlo rhi w few (omega arith)
                (omega arith) (ground arith) (ground arith) (ground arith))
        | inr free ↦ rw free (c, refl, free, lo, hi)
      ]

-- The last receipt number is in the range, the range ends below 2^32 - 1, and it has more numbers than
-- there are messages. Then the loops of `generateReceiptNo` end, and the new number is in the range,
-- kept as the last one while nothing else changes, and not the receipt of any message of the ring.
pub generate_receipt_no-free :
    (s : State)
    → s.params.receipt_range_lo ≤ s.last_receipt
    → s.last_receipt ≤ s.params.receipt_range_hi
    → s.params.receipt_range_hi < 2 ^ 32 - 1
    → length (ring (s.heap, s.head)) < s.params.receipt_range_hi + 1 - s.params.receipt_range_lo
    → (r : ℕ) × (s' : State) × (generate_receipt_no s ≡ ok (r, s'))
      × (has_receipt s.heap (ring (s.heap, s.head)) r ≡ false)
      × (s.params.receipt_range_lo ≤ r)
      × (r ≤ s.params.receipt_range_hi)
      × (s' ≡ record s { last_receipt = r })
unfolding generate_receipt_no
generate_receipt_no-free s lo hi w few =
    let ps = s.params in
    let r = next_receipt ps s.last_receipt in
    let msgs = ring (s.heap, s.head) in
    let rlo : ps.receipt_range_lo ≤ r = ground arith in
    let rhi : r ≤ ps.receipt_range_hi = ground arith in
    let (u, e, free, low, high) =
      free_receipt-free ps s.heap r (suc (length msgs)) 0 r msgs rlo rhi w few (omega arith)
        (omega arith) rlo rhi (ground arith) in
    (u, record s { last_receipt = u }, ap (last_receipt_set s) e, free, low, high, refl)
