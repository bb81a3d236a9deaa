-- ===== src/Tests/Receipts.antt =====
-- The table of receipts at concrete inputs.
use tox_defragmenter.Prelude.{
  ℕ, zero, suc, ◌+◌, [], ◌∷◌, ◌≡◌, ◌≢◌, ◌≤◌, ◌<◌, refl, arith, some, true, false, ◌↔◌,
}
use tox_defragmenter.Sender.Types.{ReceiptRecord}
use tox_defragmenter.Sender.Receipts.{Table, receipt_at, find_receipt, add_receipt, clear_receipt}
use tox_defragmenter.Sender.Receipts.Find.{IsDense, find_receipt_finds}
use tox_defragmenter.Sender.Receipts.Bounds.{IsTable}
use tox_defragmenter.Sender.Receipts.Overrun.{Inserts, add_receipt-overruns}
use tox_defragmenter.Sender.Receipts.Clear.{Cleared, clear_receipt-Cleared}
use tox_defragmenter.Sender.Receipts.Holes.{find_receipt_behind_hole}

abbrev with_receipt : ℕ → ReceiptRecord
with_receipt n = record { receipt = n; msg = 1; part_no = 1; timestamp = 5 }

abbrev three_slots : Table
three_slots = record {
  slots = with_receipt 100 ∷ with_receipt 101 ∷ with_receipt 102 ∷ with_receipt 0 ∷ [];
  lo = 0;
  hi = 3;
  num = 3;
  alloc = 4;
  overrun = false;
}

three_slots-IsTable : IsTable three_slots
three_slots-IsTable = record {
  array = refl;
  some_alloc = omega arith;
  ordered = omega arith;
  within = omega arith;
}

three_filled : (i : ℕ) → 0 ≤ i → i < 3 → 1 ≤ receipt_at three_slots.slots i
three_filled zero l h = omega arith
three_filled (suc zero) l h = omega arith
three_filled (suc (suc zero)) l h = omega arith
three_filled (suc (suc (suc i))) l h = absurd (omega arith)

three_sorted :
    (i j : ℕ)
    → 0 ≤ i
    → i < j
    → j < 3
    → receipt_at three_slots.slots i < receipt_at three_slots.slots j
three_sorted zero zero l h k = absurd (omega arith)
three_sorted zero (suc zero) l h k = omega arith
three_sorted zero (suc (suc zero)) l h k = omega arith
three_sorted (suc zero) zero l h k = absurd (omega arith)
three_sorted (suc zero) (suc zero) l h k = absurd (omega arith)
three_sorted (suc zero) (suc (suc zero)) l h k = omega arith
three_sorted (suc (suc i)) j l h k = absurd (omega arith)
three_sorted i (suc (suc (suc j))) l h k = absurd (omega arith)

three_slots-IsDense : IsDense three_slots.slots 0 3
three_slots-IsDense = record { filled = three_filled; sorted = three_sorted }

find_receipt_finds_example : find_receipt three_slots 101 ≡ some 1
find_receipt_finds_example =
    find_receipt_finds three_slots 1 three_slots-IsDense (omega arith) (omega arith)

-- Three slots, all in use.
abbrev full : Table
full = record {
  slots = with_receipt 100 ∷ with_receipt 101 ∷ with_receipt 102 ∷ [];
  lo = 0;
  hi = 3;
  num = 3;
  alloc = 3;
  overrun = false;
}

full-IsTable : IsTable full
full-IsTable = record {
  array = refl;
  some_alloc = omega arith;
  ordered = omega arith;
  within = omega arith;
}

add_receipt-overruns_example :
    IsTable (add_receipt full (with_receipt 102))
    × (((add_receipt full (with_receipt 102)).overrun ≡ true) ↔ (
        Inserts full (with_receipt 102)
        × (full.hi ≡ full.alloc)
        × (find_receipt full 102 ≡ some 2)))
add_receipt-overruns_example =
    add_receipt-overruns full (with_receipt 102) full-IsTable refl (omega arith)

clear_receipt-Cleared_example : Cleared three_slots 1 (clear_receipt three_slots 1)
clear_receipt-Cleared_example =
    clear_receipt-Cleared three_slots 1 three_slots-IsTable (omega arith) (omega arith)

abbrev holed : Table
holed = record {
  slots = with_receipt 100 ∷ with_receipt 0 ∷ with_receipt 102 ∷ with_receipt 0 ∷ [];
  lo = 0;
  hi = 3;
  num = 3;
  alloc = 4;
  overrun = false;
}

find_receipt_behind_hole_example :
    (find_receipt holed 102 ≡ some (0 + 1))
    × (receipt_at holed.slots (0 + 1) ≢ receipt_at holed.slots (0 + 2))
find_receipt_behind_hole_example = find_receipt_behind_hole holed refl refl (omega arith)
