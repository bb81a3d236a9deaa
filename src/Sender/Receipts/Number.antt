-- ===== src/Sender/Receipts/Number.antt =====
-- `receiptsNum`, the number of records in the table.
use tox_defragmenter.Prelude.{ℕ, zero, suc, ◌+◌, ◌≡◌, refl, arith, u32}
use tox_defragmenter.Sender.Types.{ReceiptRecord}
use tox_defragmenter.Sender.Receipts.{
  Table, add_receipt, append_receipt, insert_receipt, double, grow,
}

pub grow-num : (f : ℕ) (t : Table) → (grow f t).num ≡ t.num
unfolding grow double
grow-num zero t = refl
grow-num (suc f) t = ground (arith, grow-num f (double t))

-- `addReceipt` counts one record more, modulo 2^32.
pub add_receipt-num : (t : Table) (r : ReceiptRecord) → (add_receipt t r).num ≡ u32 (t.num + 1)
unfolding add_receipt append_receipt insert_receipt double
add_receipt-num t r = ground (arith, grow-num (t.hi + 16) t)
