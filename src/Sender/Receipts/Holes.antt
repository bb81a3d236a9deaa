-- ===== src/Sender/Receipts/Holes.antt =====
-- Where the table of receipts goes wrong: holes before the last slot, and receipts out of order.
use tox_defragmenter.Prelude.{
  u32, ℕ, zero, suc, ◌+◌, ◌-◌, ◌/◌, ◌≤◌, ◌<◌, ◌≡◌, ◌≢◌, ◌∙◌, arith, List, some,
}
use tox_defragmenter.Sender.Types.{ReceiptRecord}
use tox_defragmenter.Sender.Receipts.{
  Table, receipt_at, find_receipt, find_loop, skip_holes, insert_receipt, add_receipt,
}
use tox_defragmenter.Sender.Receipts.Number.{grow-num}
use tox_defragmenter.Sender.Receipts.Bounds.{IsTable, grow-IsTable}

skip_holes_one :
    (g : ℕ) (slots : List ReceiptRecord) (lo : ℕ)
    → 2 ≤ g
    → receipt_at slots (lo + 1) ≡ 0
    → skip_holes g slots (lo + 3) (lo + 1) ≡ lo + 2
unfolding skip_holes
skip_holes_one zero slots lo h e = absurd (omega arith)
skip_holes_one (suc zero) slots lo h e = absurd (omega arith)
skip_holes_one (suc (suc g)) slots lo h e = ground arith

-- A round that runs into the end of the range, and the last round.
find_loop_to_end :
    (f : ℕ) (slots : List ReceiptRecord) (receipt i1 i2 : ℕ)
    → i1 + 1 < i2
    → i2 ≤ skip_holes i2 slots i2 ((i1 + i2) / 2) + 1
    → find_loop (suc f) slots receipt i1 i2 ≡ find_loop f slots receipt i1 ((i1 + i2) / 2)
unfolding find_loop
find_loop_to_end f slots receipt i1 i2 h e = ground arith

find_loop_last :
    (f : ℕ) (slots : List ReceiptRecord) (receipt i1 i2 : ℕ)
    → i2 ≤ i1 + 1
    → receipt_at slots i1 < receipt
    → find_loop (suc f) slots receipt i1 i2 ≡ i2
unfolding find_loop
find_loop_last f slots receipt i1 i2 h e = ground arith

find_loop_behind_hole :
    (f : ℕ) (slots : List ReceiptRecord) (lo receipt : ℕ)
    → 2 ≤ f
    → receipt_at slots (lo + 1) ≡ 0
    → receipt_at slots lo < receipt
    → find_loop f slots receipt lo (lo + 3) ≡ lo + 1
find_loop_behind_hole zero slots lo receipt h empty less = absurd (omega arith)
find_loop_behind_hole (suc zero) slots lo receipt h empty less = absurd (omega arith)
find_loop_behind_hole (suc (suc f)) slots lo receipt h empty less =
    let half : (lo + (lo + 3)) / 2 ≡ lo + 1 = omega arith in
    find_loop_to_end (suc f) slots receipt lo (lo + 3) (omega arith)
      (rw (half, skip_holes_one (lo + 3) slots lo (omega arith) empty) (omega arith))
    ∙ rw half (find_loop_last f slots receipt lo (lo + 1) (omega arith) less)

-- The used part of a table has three slots, the second one is a hole, and the third one holds a
-- greater receipt than the first. Then `findReceipt` does not find that receipt, but returns the
-- hole.
pub find_receipt_behind_hole :
    (t : Table)
    → t.hi ≡ t.lo + 3
    → receipt_at t.slots (t.lo + 1) ≡ 0
    → receipt_at t.slots t.lo < receipt_at t.slots (t.lo + 2)
    → (find_receipt t (receipt_at t.slots (t.lo + 2)) ≡ some (t.lo + 1))
      × (receipt_at t.slots (t.lo + 1) ≢ receipt_at t.slots (t.lo + 2))
unfolding find_receipt
find_receipt_behind_hole t three empty less = (
  rw three (
      ground (
        arith,
        find_loop_behind_hole (suc (t.lo + 3)) t.slots t.lo (receipt_at t.slots (t.lo + 2))
            (omega arith) empty less,
      )),
  λ e. omega arith,
)

-- To a table within its array that is in use, a receipt is added that is not greater than the last
-- one. Then it is counted, but the used part does not grow.
pub add_receipt_out_of_order :
    (t : Table) (r : ReceiptRecord)
    → IsTable t
    → 1 ≤ t.hi
    → r.receipt ≤ receipt_at t.slots (t.hi - 1)
    → ((add_receipt t r).lo ≡ t.lo)
      × ((add_receipt t r).hi ≡ t.hi)
      × ((add_receipt t r).num ≡ u32 (t.num + 1))
unfolding add_receipt insert_receipt
add_receipt_out_of_order t r w h le =
    let (gw, gh, gl, ga) = grow-IsTable (t.hi + 16) t w (omega (arith, w.within)) in
    ground (arith, grow-num (t.hi + 16) t)
