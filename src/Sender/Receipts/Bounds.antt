-- ===== src/Sender/Receipts/Bounds.antt =====
-- The used part of the table stays within its array.
use tox_defragmenter.Prelude.{
  ℕ, zero, suc, ◌+◌, ◌-◌, ◌/◌, ◌≤◌, ◌<◌, ◌++◌, false, ◌||◌, ltb, ◌≡◌, ◌≢◌, refl, ◌⊎◌, inl, inr,
  arith, lt_or_le, ◌==◌, length, take, drop, replicate, List, none, some, length-append,
  length-replicate, length-set, length-take, length-drop, Bool-cases,
}
use tox_defragmenter.Sender.Types.{ReceiptRecord}
use tox_defragmenter.Sender.Receipts.{
  Table, receipt_at, skip_holes, find_loop, find_receipt, receipts_initialize, add_receipt,
  append_receipt, insert_receipt, insert_index, double, grow, move_up, hole,
}

-- The array has `receiptsAlloc` slots, one at least, and the used part lies in it.
pub record IsTable (t : Table) : Type 0 where
  pub array : length t.slots ≡ t.alloc
  pub some_alloc : 1 ≤ t.alloc
  pub ordered : t.lo ≤ t.hi
  pub within : t.hi ≤ t.alloc

receipts_initialize-IsTable : IsTable receipts_initialize
unfolding receipts_initialize
receipts_initialize-IsTable = omega arith

skip_holes_bounds :
    (f : ℕ) (slots : List ReceiptRecord) (i2 imu : ℕ)
    → imu < i2
    → (imu ≤ skip_holes f slots i2 imu) × (skip_holes f slots i2 imu < i2)
unfolding skip_holes
skip_holes_bounds zero slots i2 imu h = omega arith
skip_holes_bounds (suc f) slots i2 imu h = ground (arith, skip_holes_bounds f slots i2 (imu + 1))

find_loop_bounds :
    (f : ℕ) (slots : List ReceiptRecord) (receipt i1 i2 : ℕ)
    → i1 < i2
    → (i1 ≤ find_loop f slots receipt i1 i2) × (find_loop f slots receipt i1 i2 ≤ i2)
unfolding find_loop
find_loop_bounds zero slots receipt i1 i2 h = omega arith
find_loop_bounds (suc f) slots receipt i1 i2 h =
    let im = (i1 + i2) / 2 in
    let imu = skip_holes i2 slots i2 im in
    ground (
      arith,
      skip_holes_bounds i2 slots i2 im,
      find_loop_bounds f slots receipt imu i2,
      find_loop_bounds f slots receipt i1 im,
    )

-- More rounds than slots are as good as any other bound: the search ends by itself.
find_loop_fuel :
    (f g : ℕ) (slots : List ReceiptRecord) (receipt i1 i2 : ℕ)
    → i2 - i1 < f
    → i2 - i1 < g
    → i1 < i2
    → find_loop f slots receipt i1 i2 ≡ find_loop g slots receipt i1 i2
unfolding find_loop
find_loop_fuel zero g slots receipt i1 i2 hf hg h = elim hf [ ]
find_loop_fuel (suc f) zero slots receipt i1 i2 hf hg h = elim hg [ ]
find_loop_fuel (suc f) (suc g) slots receipt i1 i2 hf hg h =
    let im = (i1 + i2) / 2 in
    let imu = skip_holes i2 slots i2 im in
    ground (
      arith,
      skip_holes_bounds i2 slots i2 im,
      find_loop_fuel f g slots receipt imu i2,
      find_loop_fuel f g slots receipt i1 im,
    )

-- On a table within its array, `findReceipt` returns -1 exactly when the used part is empty, and
-- otherwise a slot of it or the one behind it.
pub find_receipt_bounds :
    (t : Table) (receipt : ℕ)
    → IsTable t
    → ((t.lo ≡ t.hi) × (find_receipt t receipt ≡ none))
      ⊎ ((i : ℕ) × (find_receipt t receipt ≡ some i) × (t.lo ≤ i) × (i ≤ t.hi))
unfolding find_receipt
find_receipt_bounds t receipt w = elim (lt_or_le t.lo t.hi) [
  | inl used ↦
      let b = find_loop_bounds (suc t.hi) t.slots receipt t.lo t.hi used in
      inr (find_loop (suc t.hi) t.slots receipt t.lo t.hi, ground arith, b.0, b.1)
  | inr empty ↦ inl (ground (arith, w.ordered), ground (arith, w.ordered))
]

-- A receipt that is no greater than the last one is looked for in the used part alone.
find_loop-lt :
    (f : ℕ) (slots : List ReceiptRecord) (receipt i1 i2 : ℕ)
    → i2 - i1 < f
    → i1 < i2
    → receipt ≤ receipt_at slots (i2 - 1)
    → find_loop f slots receipt i1 i2 < i2
unfolding find_loop
find_loop-lt zero slots receipt i1 i2 hf h le = elim hf [ ]
find_loop-lt (suc f) slots receipt i1 i2 hf h le = elim (lt_or_le (i1 + 1) i2) [
  | inl wide ↦
      let im = (i1 + i2) / 2 in
      let imu = skip_holes i2 slots i2 im in
      ground (
        arith,
        skip_holes_bounds i2 slots i2 im,
        find_loop-lt f slots receipt imu i2,
        find_loop_bounds f slots receipt i1 im,
      )
  | inr narrow ↦ let e : i1 ≡ i2 - 1 = omega arith in ground arith
]

double-IsTable :
    (t : Table)
    → IsTable t
    → IsTable (double t)
      × ((double t).alloc ≡ t.alloc + t.alloc)
      × ((double t).hi ≡ t.hi)
      × ((double t).lo ≡ t.lo)
unfolding double
double-IsTable t w = (
  omega (arith, length-append t.slots (replicate t.alloc hole), length-replicate t.alloc hole),
  omega arith,
  refl,
  refl,
)

-- Doubling makes room for 16 more slots.
pub grow-IsTable :
    (f : ℕ) (t : Table)
    → IsTable t
    → t.hi + 16 ≤ t.alloc + f
    → IsTable (grow f t)
      × ((grow f t).hi ≡ t.hi)
      × ((grow f t).lo ≡ t.lo)
      × (t.hi + 16 ≤ (grow f t).alloc)
unfolding grow
grow-IsTable zero t w h = (w, refl, refl, omega arith)
grow-IsTable (suc f) t w h = elim (lt_or_le t.alloc (t.hi + 16)) [
  | inl small ↦
      let (dw, da, dh, dl) = double-IsTable t w in
      ground (arith, grow-IsTable f (double t) dw (omega arith))
  | inr large ↦ ground arith
]

length-move_up :
    (slots : List ReceiptRecord) (i j : ℕ)
    → i ≤ j
    → j + 16 ≤ length slots
    → length (move_up slots i j) ≡ length slots
unfolding move_up
length-move_up slots i j h k =
    let kept = take i slots in
    let moved = take (j - i) (drop i slots) in
    let behind = drop (j + 16) slots in
    omega (
      arith,
      length-append kept (replicate 16 hole ++ (moved ++ behind)),
      length-append (replicate 16 hole) (moved ++ behind),
      length-append moved behind,
      length-take i slots,
      length-take (j - i) (drop i slots),
      length-drop i slots,
      length-drop (j + 16) slots,
    )

less : {a b : ℕ} → (a == b) ≡ false → a ≢ b
less e = ground arith

append_receipt-IsTable : (t : Table) (r : ReceiptRecord) → IsTable t → IsTable (append_receipt t r)
unfolding append_receipt
append_receipt-IsTable t r w = elim (Bool-cases (t.hi == t.alloc)) [
  | inl full ↦
      let (dw, da, dh, dl) = double-IsTable t w in
      rw full (omega (arith, length-set (double t).slots (double t).hi r, dw.array))
  | inr room ↦ rw room (omega (arith, length-set t.slots t.hi r, w.array, less room))
]

pub insert_index-le :
    (t : Table) (receipt : ℕ)
    → IsTable t
    → 1 ≤ t.hi
    → receipt ≤ receipt_at t.slots (t.hi - 1)
    → insert_index t receipt ≤ t.hi
unfolding insert_index find_receipt
insert_index-le t receipt w h le = elim (lt_or_le t.lo t.hi) [
  | inl used ↦
      ground (arith, find_loop-lt (suc t.hi) t.slots receipt t.lo t.hi (omega arith) used le)
  | inr empty ↦ ground (arith, w.ordered)
]

insert_receipt-IsTable :
    (t : Table) (r : ReceiptRecord)
    → IsTable t
    → 1 ≤ t.hi
    → r.receipt ≤ receipt_at t.slots (t.hi - 1)
    → IsTable (insert_receipt t r)
unfolding insert_receipt
insert_receipt-IsTable t r w h le =
    let i = insert_index t r.receipt in
    let i_le = insert_index-le t r.receipt w h le in
    let (gw, gh, gl, ga) = grow-IsTable (t.hi + 16) t w (omega (arith, w.within)) in
    let g = grow (t.hi + 16) t in
    elim (Bool-cases (receipt_at t.slots i == 0)) [
      | inl free ↦ rw free (omega (arith, length-set t.slots i r))
      | inr taken ↦ rw taken (
          omega (
            arith,
            gw.array,
            length-set (move_up g.slots i g.hi) i r,
            length-move_up g.slots i g.hi (omega arith) (omega (arith, gw.array)),
          ))
    ]

-- `addReceipt` keeps a table within its array: the array has as many slots as `receiptsAlloc`
-- says, and the used part lies in it.
pub add_receipt-IsTable : (t : Table) (r : ReceiptRecord) → IsTable t → IsTable (add_receipt t r)
unfolding add_receipt
add_receipt-IsTable t r w =
    let a = append_receipt-IsTable t r w in
    let i = insert_receipt-IsTable t r w in
    elim (Bool-cases (t.hi == 0 || ltb (receipt_at t.slots (t.hi - 1)) r.receipt)) [
      | inl behind ↦ rw behind (omega (arith, a.array, a.some_alloc, a.ordered, a.within))
      | inr inside ↦
          let v = i (ground arith) (ground arith) in
          rw inside (omega (arith, v.array, v.some_alloc, v.ordered, v.within))
    ]
