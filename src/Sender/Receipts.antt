-- ===== src/Sender/Receipts.antt =====
-- The table of receipts of tox-defragmenter.c: `receipts`, `receiptsLo`, `receiptsHi`, `receiptsNum`
-- and `receiptsAlloc`. A slot whose receipt is 0 is a hole.
pub mod Find
pub mod Bounds
pub mod Count
pub mod Adding
pub mod Overrun
pub mod Number
pub mod Clear
pub mod Holes
use tox_defragmenter.Prelude.{
  ℕ, zero, suc, ◌+◌, ◌-◌, ◌*◌, ◌/◌, ◌%◌, ◌^◌, ◌≤◌, ◌<◌, [], ◌∷◌, ◌++◌, Bool, true, false, not, ◌&&◌,
  ◌||◌, Bytes, ltb, leb, if◌then◌else◌, ◌==◌, u8, u32, length, take, drop, get_or, set, replicate,
  List, Option, none, some,
}
use tox_defragmenter.Sender.Types.{ReceiptRecord}

-- `overrun` is no variable of the code. It is set when the code reads or writes behind the array, or
-- makes it smaller than `receiptsAlloc` says; from then on the rest of the table means nothing.
pub record Table : Type 0 where
  pub slots : List ReceiptRecord
  pub lo : ℕ
  pub hi : ℕ
  pub num : ℕ
  pub alloc : ℕ
  pub overrun : Bool

-- What `calloc` leaves in a slot.
abbrev pub hole : ReceiptRecord
hole = record { receipt = 0; msg = 0; part_no = 0; timestamp = 0 }

-- `receipts[i].receipt`
abbrev pub receipt_at : List ReceiptRecord → ℕ → ℕ
receipt_at slots i = (get_or slots i hole).receipt

-- `receiptsInitialize`, but for `lastReceipt`.
unfoldable pub receipts_initialize : Table
receipts_initialize = record {
  slots = replicate 32 hole;
  lo = 0;
  hi = 0;
  num = 0;
  alloc = 32;
  overrun = false;
}

-- `while (imu+1 < i2 && !receipts[imu].receipt) imu++;` with a bound on the rounds.
pub skip_holes : ℕ → List ReceiptRecord → ℕ → ℕ → ℕ
skip_holes zero slots i2 imu = imu
skip_holes (suc f) slots i2 imu =
    let more = skip_holes f slots i2 (imu + 1) in
    if ltb (imu + 1) i2 && receipt_at slots imu == 0 then more else imu

-- The loop of `findReceipt`, with a bound on the rounds, and what is returned behind it.
pub find_loop : ℕ → List ReceiptRecord → ℕ → ℕ → ℕ → ℕ
find_loop zero slots receipt i1 i2 = i1
find_loop (suc f) slots receipt i1 i2 =
    let im = (i1 + i2) / 2 in
    let imu = skip_holes i2 slots i2 im in
    let right = find_loop f slots receipt imu i2 in
    let left = find_loop f slots receipt i1 im in
    if ltb (i1 + 1) i2
    then (if ltb (imu + 1) i2
        then (if ltb (receipt_at slots imu) receipt
            then right
            else if ltb receipt (receipt_at slots imu)
            then left
            else imu)
        else left)
    else if ltb (receipt_at slots i1) receipt
    then i2
    else i1

-- `findReceipt`; `none` is -1.
unfoldable pub find_receipt : Table → ℕ → Option ℕ
find_receipt t receipt =
    if t.lo == t.hi then none else some (find_loop (suc t.hi) t.slots receipt t.lo t.hi)

-- `memRealloc` takes the sizes in bytes as `unsigned`, and a record has 32 bytes: from this many slots
-- on the new size is cut off.
abbrev pub alloc_limit : ℕ
alloc_limit = 2 ^ 26

-- `REALLOC(receipts, receipt_record, receiptsAlloc, 2*receiptsAlloc); receiptsAlloc *= 2;`
unfoldable pub double : Table → Table
double t = record t {
  slots = t.slots ++ replicate t.alloc hole;
  alloc = 2 * t.alloc;
  overrun = t.overrun || leb alloc_limit t.alloc;
}

-- `while (receiptsHi + 16 > receiptsAlloc)` doubles the table, with a bound on the rounds.
pub grow : ℕ → Table → Table
grow zero t = t
grow (suc f) t = let more = grow f (double t) in if ltb t.alloc (t.hi + 16) then more else t

-- `MVA(receipts, idx1, idx2, +16)`: the slots from `idx1` to `idx2` move up by 16, and leave holes.
unfoldable pub move_up : List ReceiptRecord → ℕ → ℕ → List ReceiptRecord
move_up slots idx1 idx2 =
    take idx1 slots
    ++ (replicate 16 hole ++ (take (idx2 - idx1) (drop idx1 slots) ++ drop (idx2 + 16) slots))

-- The two branches of `addReceipt`: behind the last slot, and anywhere else.
unfoldable pub append_receipt : Table → ReceiptRecord → Table
append_receipt t r =
    let t' = if t.hi == t.alloc then double t else t in
    record t' {
      slots = set t'.slots t'.hi r;
      hi = t'.hi + 1;
      overrun = t'.overrun || leb t'.alloc t'.hi;
    }

-- `findReceipt(receipt) + 1`
unfoldable pub insert_index : Table → ℕ → ℕ
insert_index t receipt = elim (find_receipt t receipt) [ none ↦ 0 | some i ↦ i + 1 ]

unfoldable pub insert_receipt : Table → ReceiptRecord → Table
insert_receipt t r =
    let idx = insert_index t r.receipt in
    let t' = grow (t.hi + 16) t in
    if receipt_at t.slots idx == 0
    then record t { slots = set t.slots idx r; overrun = t.overrun || leb t.alloc idx }
    else record t' {
      slots = set (move_up t'.slots idx t'.hi) idx r;
      overrun = t'.overrun || (leb t.alloc idx || ltb t'.alloc (t'.hi + 16));
    }

unfoldable pub add_receipt : Table → ReceiptRecord → Table
add_receipt t r =
    let t' =
      if t.hi == 0 || ltb (receipt_at t.slots (t.hi - 1)) r.receipt
      then append_receipt t r
      else insert_receipt t r in
    record t' { num = u32 (t'.num + 1) }

-- The loop of `compressReceipts`: the slots that are no holes, in order.
unfoldable live : List ReceiptRecord → List ReceiptRecord
live [] = []
live (r ∷ rs) = if r.receipt == 0 then live rs else r ∷ live rs

-- `compressReceipts`: the new array has room for twice `receiptsNum` slots.
unfoldable compress_receipts : Table → Table
compress_receipts t =
    let kept = live (take (t.hi - t.lo) (drop t.lo t.slots)) in
    let room = u32 (t.num * 2) in
    record {
      slots = kept ++ replicate (room - length kept) hole;
      lo = 0;
      hi = t.num;
      num = t.num;
      alloc = room;
      overrun = t.overrun || ltb room (length kept);
    }

-- `receipts[i].receipt = 0`
unfoldable pub clear_slot : Table → ℕ → Table
clear_slot t i = record t { slots = set t.slots i (record (get_or t.slots i hole) { receipt = 0 }) }

-- `do receiptsLo++; while (receiptsLo < receiptsHi && !receipts[receiptsLo].receipt);`
pub raise_lo : ℕ → List ReceiptRecord → ℕ → ℕ → ℕ
raise_lo zero slots lo hi = lo
raise_lo (suc f) slots lo hi =
    let more = raise_lo f slots (lo + 1) hi in
    if ltb (lo + 1) hi && receipt_at slots (lo + 1) == 0 then more else lo + 1

-- `do receiptsHi--; while (receiptsLo < receiptsHi && !receipts[receiptsHi-1].receipt);`
pub lower_hi : ℕ → List ReceiptRecord → ℕ → ℕ → ℕ
lower_hi zero slots lo hi = hi
lower_hi (suc f) slots lo hi =
    let more = lower_hi f slots lo (hi - 1) in
    if ltb lo (hi - 1) && receipt_at slots (hi - 1 - 1) == 0 then more else hi - 1

-- The ends of the used part move past the holes when the slot at `idx` was the first or the last.
unfoldable pub trim : Table → ℕ → Table
trim t idx =
    if idx == t.lo
    then record t { lo = raise_lo t.hi t.slots t.lo t.hi }
    else if idx + 1 == t.hi
    then record t { hi = lower_hi t.hi t.slots t.lo t.hi }
    else t

-- `if (receiptsLo == receiptsHi) receiptsLo = receiptsHi = 0;`
unfoldable pub rewind : Table → Table
rewind t = if t.lo == t.hi then record t { lo = 0; hi = 0 } else t

-- The end of `tryProcessReceipt`: the slot becomes a hole, and holes at either end are cut off.
unfoldable pub clear_receipt : Table → ℕ → Table
clear_receipt t idx = rewind (trim (clear_slot t idx) idx)
