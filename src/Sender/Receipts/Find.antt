-- ===== src/Sender/Receipts/Find.antt =====
-- `findReceipt` on a table without holes: the search finds every receipt that is there.
use tox_defragmenter.Prelude.{
  ℕ, zero, suc, ◌+◌, ◌-◌, ◌/◌, ◌≤◌, ◌<◌, ◌≡◌, refl, ◌⊎◌, inl, inr, arith, lt_or_le, List, some,
}
use tox_defragmenter.Sender.Types.{ReceiptRecord}
use tox_defragmenter.Sender.Receipts.{Table, receipt_at, skip_holes, find_loop, find_receipt}

-- Between `lo` and `hi` there is no hole, and the receipts grow.
pub record IsDense (slots : List ReceiptRecord) (lo hi : ℕ) : Type 0 where
  pub filled : (i : ℕ) → lo ≤ i → i < hi → 1 ≤ receipt_at slots i
  pub sorted : (i j : ℕ) → lo ≤ i → i < j → j < hi → receipt_at slots i < receipt_at slots j

-- Where there is no hole, none is skipped.
skip_holes_none :
    (f : ℕ) (slots : List ReceiptRecord) (i2 imu : ℕ)
    → (imu + 1 < i2 → 1 ≤ receipt_at slots imu)
    → skip_holes f slots i2 imu ≡ imu
unfolding skip_holes
skip_holes_none zero slots i2 imu h = refl
skip_holes_none (suc f) slots i2 imu h = elim (lt_or_le (imu + 1) i2) [
  | inl inside ↦ let filled = h inside in ground arith
  | inr outside ↦ ground arith
]

module _ (slots : List ReceiptRecord) (lo hi k : ℕ) (d : IsDense slots lo hi) (above : lo ≤ k)
    (below : k < hi) where
  -- Where the receipt of slot `k` may still be: from `i1` on and below `i2`, or at `i2` when no slot
  -- is left between the two.
  abbrev Within : ℕ → ℕ → Type 0
  Within i1 i2 =
      (lo ≤ i1) × (i1 < i2) × (i2 ≤ hi) × (i1 ≤ k) × ((k < i2) ⊎ ((i2 ≡ i1 + 1) × (k ≡ i2)))

  -- One round, with the two halves left to the induction.
  find_loop_round :
      (f i1 i2 : ℕ)
      → Within i1 i2
      → (i1 + 1 < i2
          → Within ((i1 + i2) / 2) i2
          → find_loop f slots (receipt_at slots k) ((i1 + i2) / 2) i2 ≡ k)
      → (i1 + 1 < i2
          → Within i1 ((i1 + i2) / 2)
          → find_loop f slots (receipt_at slots k) i1 ((i1 + i2) / 2) ≡ k)
      → find_loop (suc f) slots (receipt_at slots k) i1 i2 ≡ k
  unfolding find_loop
  find_loop_round f i1 i2 w right left =
      let im = (i1 + i2) / 2 in
      rw (skip_holes_none i2 slots i2 im (λ h. d.filled im (omega arith) (omega arith)))
        (ground (arith, d.sorted im k, d.sorted k im, d.sorted i1 k))

  find_loop_finds :
      (f i1 i2 : ℕ) → i2 - i1 < f → Within i1 i2 → find_loop f slots (receipt_at slots k) i1 i2 ≡ k
  find_loop_finds zero i1 i2 b w = elim b [ ]
  find_loop_finds (suc f) i1 i2 b w =
      find_loop_round f i1 i2 w (λ wide v. find_loop_finds f ((i1 + i2) / 2) i2 (omega arith) v)
        (λ wide v. find_loop_finds f i1 ((i1 + i2) / 2) (omega arith) v)

-- On a table without holes whose receipts grow, `findReceipt` returns the slot of each receipt
-- that the used part holds.
pub find_receipt_finds :
    (t : Table) (k : ℕ)
    → IsDense t.slots t.lo t.hi
    → t.lo ≤ k
    → k < t.hi
    → find_receipt t (receipt_at t.slots k) ≡ some k
unfolding find_receipt
find_receipt_finds t k d above below = ground (
  arith,
  find_loop_finds t.slots t.lo t.hi k d above below (suc t.hi) t.lo t.hi (omega arith)
      (omega arith, omega arith, omega arith, omega arith, inl below),
)
