-- ===== src/Sender/Receipts/Overrun.antt =====
-- Where `addReceipt` leaves the array of the table.
use tox_defragmenter.Prelude.{
  ℕ, zero, suc, ◌+◌, ◌-◌, ◌*◌, ◌≤◌, ◌≡◌, Bool, true, false, ◌||◌, ltb, leb, ◌==◌, refl, ◌∙◌, sym,
  ap, arith, lt_or_le, inl, inr, Bool-cases, Option-cases, some, none, ◌↔◌, Option,
}
use tox_defragmenter.Sender.Types.{ReceiptRecord}
use tox_defragmenter.Sender.Receipts.{
  Table, receipt_at, find_receipt, add_receipt, append_receipt, insert_receipt, insert_index,
  double, grow, alloc_limit,
}
use tox_defragmenter.Sender.Receipts.Bounds.{
  IsTable, add_receipt-IsTable, grow-IsTable, insert_index-le,
}

-- The receipt is not greater than the last one of the table, so that a place is looked for.
abbrev pub Inserts : Table → ReceiptRecord → Type 0
Inserts t r = (1 ≤ t.hi) × (r.receipt ≤ receipt_at t.slots (t.hi - 1))

grow-overrun :
    (f : ℕ) (t : Table) → t.overrun ≡ false → t.hi + 16 ≤ alloc_limit → (grow f t).overrun ≡ false
unfolding grow double
grow-overrun zero t e h = e
grow-overrun (suc f) t e h = elim (lt_or_le t.alloc (t.hi + 16)) [
  | inl small ↦
      let inside : leb alloc_limit t.alloc ≡ false = ground arith in
      let more : ltb t.alloc (t.hi + 16) ≡ true = ground arith in
      rw more (grow-overrun f (double t) (rw (e, inside) refl) h)
  | inr large ↦ let enough : ltb t.alloc (t.hi + 16) ≡ false = ground arith in rw enough e
]

append_receipt-overrun :
    (t : Table) (r : ReceiptRecord)
    → IsTable t
    → t.overrun ≡ false
    → t.hi + 16 ≤ alloc_limit
    → (append_receipt t r).overrun ≡ false
unfolding append_receipt double
append_receipt-overrun t r w e h = elim (Bool-cases (t.hi == t.alloc)) [
  | inl full ↦
      let inside : leb alloc_limit t.alloc ≡ false = ground arith in
      let room : leb (2 * t.alloc) t.hi ≡ false = ground (arith, w.some_alloc) in
      rw (full, e, inside, room) refl
  | inr free ↦
      let room : leb t.alloc t.hi ≡ false = ground (arith, w.within) in rw (free, e, room) refl
]

-- When a place is looked for, nothing but that place can be behind the array.
insert_receipt-overrun :
    (t : Table) (r : ReceiptRecord)
    → IsTable t
    → t.overrun ≡ false
    → t.hi + 16 ≤ alloc_limit
    → (insert_receipt t r).overrun ≡ leb t.alloc (insert_index t r.receipt)
unfolding insert_receipt
insert_receipt-overrun t r w e h =
    let i = insert_index t r.receipt in
    let (gw, gh, gl, ga) = grow-IsTable (t.hi + 16) t w (omega (arith, w.within)) in
    let g = grow (t.hi + 16) t in
    let kept = grow-overrun (t.hi + 16) t e h in
    let room : ltb g.alloc (g.hi + 16) ≡ false = ground (arith, ga, gh) in
    elim (Bool-cases (receipt_at t.slots i == 0)) [
      | inl free ↦ rw (free, e) refl
      | inr taken ↦ rw (taken, kept, room) (or_false_right (leb t.alloc i))
    ]
  where
    or_false_right : (b : Bool) → (b || false) ≡ b
    or_false_right true = refl
    or_false_right false = refl

-- The place is behind the array exactly if the array is full and the search gives the last slot.
insert_index-behind :
    (t : Table) (receipt : ℕ)
    → IsTable t
    → 1 ≤ t.hi
    → receipt ≤ receipt_at t.slots (t.hi - 1)
    → (leb t.alloc (insert_index t receipt) ≡ true)
      ↔ ((t.hi ≡ t.alloc) × (find_receipt t receipt ≡ some (t.alloc - 1)))
unfolding insert_index
insert_index-behind t receipt w h le =
    let low = insert_index-le t receipt w h le in
    elim (Option-cases (find_receipt t receipt)) [
      | inl absent ↦
          let first : insert_index t receipt ≡ 0 = ap place absent in
          let before : leb t.alloc (insert_index t receipt) ≡ false =
            ground (arith, first, w.some_alloc) in
          ((λ e. absurd (cc)), (λ (full, e). absurd (cc)))
      | inr (i, found) ↦
          let next : insert_index t receipt ≡ i + 1 = ap place found in
          (
            (λ e.
                let all : t.alloc ≤ i + 1 = ground (arith, next, e) in
                (
                  omega (arith, all, low, next, w.within),
                  found ∙ ap some (omega (arith, all, low, next, w.within)),
                )),
            (λ (full, e).
                let last : i ≡ t.alloc - 1 = some_injective (sym found ∙ e) in
                ground (arith, last, next, w.some_alloc)),
          )
    ]
  where
    place : Option ℕ → ℕ
    place o = elim o [ none ↦ 0 | some i ↦ i + 1 ]

    some_injective : {a b : ℕ} → some a ≡ some b → a ≡ b
    some_injective e = cc

-- Let the used part of a table be within its array and end at least 16 slots before 2^26, so that the
-- size in bytes is not cut off. After `addReceipt` the used part is within the array. The call reads or
-- writes behind the array exactly if the array is used to its end, the receipt is not greater than the
-- last one, and `findReceipt` gives the last slot for it.
pub add_receipt-overruns :
    (t : Table) (r : ReceiptRecord)
    → IsTable t
    → t.overrun ≡ false
    → t.hi + 16 ≤ alloc_limit
    → IsTable (add_receipt t r)
      × (((add_receipt t r).overrun ≡ true)
          ↔ (Inserts t r × (t.hi ≡ t.alloc) × (find_receipt t r.receipt ≡ some (t.alloc - 1))))
unfolding add_receipt
add_receipt-overruns t r w e h =
    let a = append_receipt-overrun t r w e h in
    let i = insert_receipt-overrun t r w e h in
    (
      add_receipt-IsTable t r w,
      elim (Bool-cases (t.hi == 0 || ltb (receipt_at t.slots (t.hi - 1)) r.receipt)) [
        | inl behind ↦
            rw behind ((λ over. absurd (cc)), (λ (ins, _, _). absurd (ground (arith, ins))))
        | inr inside ↦
            let pos : 1 ≤ t.hi = ground arith in
            let le : r.receipt ≤ receipt_at t.slots (t.hi - 1) = ground arith in
            let at = insert_index-behind t r.receipt w pos le in
            rw inside (
              (λ over. let (full, found) = at.0 (sym i ∙ over) in ((pos, le), full, found)),
              (λ (_, full, found). i ∙ at.1 (full, found)),
            )
      ],
    )
