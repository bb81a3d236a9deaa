-- ===== src/Sender/Receipts/Clear.antt =====
-- The end of `tryProcessReceipt`: the used part shrinks, and stays in order.
use tox_defragmenter.Prelude.{
  ℕ, zero, suc, ◌+◌, ◌-◌, ◌≤◌, ◌<◌, ◌≡◌, ◌≢◌, refl, sym, ap, subst, ◌∙◌, arith, lt_or_le, ◌⊎◌, inl,
  inr, List, length, length-set, get_or, get_or-set_self, get_or-set_ne,
}
use native.Mathlib.Decide.{ℕ_discrete}
use tox_defragmenter.Sender.Types.{ReceiptRecord}
use tox_defragmenter.Sender.Receipts.{
  Table, receipt_at, clear_receipt, clear_slot, trim, rewind, raise_lo, lower_hi, hole,
}
use tox_defragmenter.Sender.Receipts.Bounds.{IsTable}

raise_lo_bounds :
    (f : ℕ) (slots : List ReceiptRecord) (lo hi : ℕ)
    → lo < hi
    → (lo ≤ raise_lo f slots lo hi) × (raise_lo f slots lo hi ≤ hi)
unfolding raise_lo
raise_lo_bounds zero slots lo hi h = omega arith
raise_lo_bounds (suc f) slots lo hi h = ground (arith, raise_lo_bounds f slots (lo + 1) hi)

lower_hi_bounds :
    (f : ℕ) (slots : List ReceiptRecord) (lo hi : ℕ)
    → lo < hi
    → (lo ≤ lower_hi f slots lo hi) × (lower_hi f slots lo hi ≤ hi)
unfolding lower_hi
lower_hi_bounds zero slots lo hi h = omega arith
lower_hi_bounds (suc f) slots lo hi h = ground (arith, lower_hi_bounds f slots lo (hi - 1))

-- Enough rounds stop at a slot that is no hole, or where the used part ends; what was passed is holes.
raise_lo_stops :
    (f : ℕ) (slots : List ReceiptRecord) (lo hi : ℕ)
    → lo < hi
    → hi - lo ≤ f
    → let l = raise_lo f slots lo hi in ((l ≡ hi) ⊎ (1 ≤ receipt_at slots l)) × (lo < l)
unfolding raise_lo
raise_lo_stops zero slots lo hi h b = absurd (omega arith)
raise_lo_stops (suc f) slots lo hi h b = ground (arith, raise_lo_stops f slots (lo + 1) hi)

lower_hi_stops :
    (f : ℕ) (slots : List ReceiptRecord) (lo hi : ℕ)
    → lo < hi
    → hi - lo ≤ f
    → let l = lower_hi f slots lo hi in ((l ≡ lo) ⊎ (1 ≤ receipt_at slots (l - 1))) × (l < hi)
unfolding lower_hi
lower_hi_stops zero slots lo hi h b = absurd (omega arith)
lower_hi_stops (suc f) slots lo hi h b = ground (arith, lower_hi_stops f slots lo (hi - 1))

raise_lo_passes :
    (f : ℕ) (slots : List ReceiptRecord) (lo hi i : ℕ)
    → lo < i
    → i < raise_lo f slots lo hi
    → receipt_at slots i ≡ 0
unfolding raise_lo
raise_lo_passes zero slots lo hi i h k = absurd (omega arith)
raise_lo_passes (suc f) slots lo hi i h k = elim (ℕ_discrete i (lo + 1)) [
  | yes e ↦ ground arith
  | no ne ↦ ground (arith, raise_lo_passes f slots (lo + 1) hi i)
]

lower_hi_passes :
    (f : ℕ) (slots : List ReceiptRecord) (lo hi i : ℕ)
    → i + 1 < hi
    → lower_hi f slots lo hi ≤ i
    → receipt_at slots i ≡ 0
unfolding lower_hi
lower_hi_passes zero slots lo hi i h k = absurd (omega arith)
lower_hi_passes (suc f) slots lo hi i h k = elim (ℕ_discrete i (hi - 1 - 1)) [
  | yes e ↦ ground arith
  | no ne ↦ ground (arith, lower_hi_passes f slots lo (hi - 1) i)
]

-- The part of `s` in use against that of `t`: within it, and with every slot that is no hole.
record Trimmed (t s : Table) : Type 0 where
  slots : s.slots ≡ t.slots
  lower : t.lo ≤ s.lo
  ordered : s.lo ≤ s.hi
  upper : s.hi ≤ t.hi
  alloc : s.alloc ≡ t.alloc
  count : s.num ≡ t.num
  live : (j : ℕ) → t.lo ≤ j → j < t.hi → 1 ≤ receipt_at t.slots j → (s.lo ≤ j) × (j < s.hi)

module _ (t : Table) (idx : ℕ) (above : t.lo ≤ idx) (below : idx < t.hi)
    (cleared : receipt_at t.slots idx ≡ 0) where
  raise_lo-live :
      (j : ℕ)
      → idx ≡ t.lo
      → t.lo ≤ j
      → 1 ≤ receipt_at t.slots j
      → raise_lo t.hi t.slots t.lo t.hi ≤ j
  raise_lo-live j e l r = elim (lt_or_le j (raise_lo t.hi t.slots t.lo t.hi)) [
    | inl passed ↦ elim (ℕ_discrete j t.lo) [
      | yes first ↦ absurd (ground arith)
      | no later ↦
          absurd (omega (arith, raise_lo_passes t.hi t.slots t.lo t.hi j (omega arith) passed))
    ]
    | inr kept ↦ kept
  ]

  lower_hi-live :
      (j : ℕ)
      → idx + 1 ≡ t.hi
      → j < t.hi
      → 1 ≤ receipt_at t.slots j
      → j < lower_hi t.hi t.slots t.lo t.hi
  lower_hi-live j e l r = elim (lt_or_le j (lower_hi t.hi t.slots t.lo t.hi)) [
    | inl kept ↦ kept
    | inr passed ↦ elim (ℕ_discrete j idx) [
      | yes last ↦ absurd (ground arith)
      | no earlier ↦
          absurd (omega (arith, lower_hi_passes t.hi t.slots t.lo t.hi j (omega arith) passed))
    ]
  ]

  trim-Trimmed : Trimmed t (trim t idx)
  unfolding trim
  trim-Trimmed =
      let lo_bounds = raise_lo_bounds t.hi t.slots t.lo t.hi (omega arith) in
      let hi_bounds = lower_hi_bounds t.hi t.slots t.lo t.hi (omega arith) in
      record {
        slots = ground arith;
        lower = ground arith;
        ordered = ground arith;
        upper = ground arith;
        alloc = ground arith;
        count = ground arith;
        live = λ j l h r. ground (arith, raise_lo-live j, lower_hi-live j);
      }

rewind-live : (t : Table) (j : ℕ) → t.lo ≤ j → j < t.hi → ((rewind t).lo ≤ j) × (j < (rewind t).hi)
unfolding rewind
rewind-live t j l h = ground arith

rewind-IsTable : (t : Table) → IsTable t → IsTable (rewind t)
unfolding rewind
rewind-IsTable t w = ground arith

rewind_same : (t : Table) → ((rewind t).slots ≡ t.slots) × ((rewind t).num ≡ t.num)
unfolding rewind
rewind_same t = ground arith

-- What becomes of the table when the slot `idx` is cleared: the slot is a hole, every other slot in
-- use that is no hole stays in use as it was, and the count of receipts stays.
pub record Cleared (t : Table) (idx : ℕ) (s : Table) : Type 0 where
  pub table : IsTable s
  pub gone : receipt_at s.slots idx ≡ 0
  pub kept :
      (j : ℕ)
      → t.lo ≤ j
      → j < t.hi
      → j ≢ idx
      → 1 ≤ receipt_at t.slots j
      → (s.lo ≤ j) × (j < s.hi) × (get_or s.slots j hole ≡ get_or t.slots j hole)
  pub count : s.num ≡ t.num

module _ (t : Table) (idx : ℕ) (w : IsTable t) (above : t.lo ≤ idx) (below : idx < t.hi) where
  cleared_slot : receipt_at (clear_slot t idx).slots idx ≡ 0
  unfolding clear_slot
  cleared_slot =
      ap (λ r. r.receipt)
        (get_or-set_self t.slots idx (record (get_or t.slots idx hole) { receipt = 0 }) hole
          (omega (arith, w.array, w.within)))

  other_slot : (j : ℕ) → j ≢ idx → get_or (clear_slot t idx).slots j hole ≡ get_or t.slots j hole
  unfolding clear_slot
  other_slot j ne =
      get_or-set_ne t.slots idx j (record (get_or t.slots idx hole) { receipt = 0 }) hole
        (λ e. ne (sym e))

  trimmed : Trimmed (clear_slot t idx) (trim (clear_slot t idx) idx)
  trimmed =
      trim-Trimmed (clear_slot t idx) idx (unfold clear_slot in above) (unfold clear_slot in below)
        cleared_slot

  trimmed-IsTable : IsTable (trim (clear_slot t idx) idx)
  unfolding clear_slot
  trimmed-IsTable =
      let v = trimmed in
      record {
        array = ap length v.slots ∙ length-set t.slots idx _ ∙ w.array ∙ sym v.alloc;
        some_alloc = omega (arith, v.alloc, w.some_alloc);
        ordered = v.ordered;
        within = omega (arith, v.alloc, v.upper, w.within);
      }

  -- A slot in the used part of a table within its array is cleared, as at the end of
  -- `tryProcessReceipt`. Then the slot is a hole, every other receipt in use stays in use as it
  -- was, the table is within its array, and `receiptsNum` is as before.
  pub clear_receipt-Cleared : Cleared t idx (clear_receipt t idx)
  unfolding clear_receipt
  clear_receipt-Cleared =
      let c = clear_slot t idx in
      let s = trim c idx in
      let (same, count) = rewind_same s in
      record {
        table = rewind-IsTable s trimmed-IsTable;
        gone = ap (λ l. receipt_at l idx) (same ∙ trimmed.slots) ∙ cleared_slot;
        kept = λ j l h ne r.
            let slot = other_slot j ne in
            let (l', h') =
              trimmed.live j (unfold clear_slot in l) (unfold clear_slot in h)
                (subst (λ (x : ReceiptRecord). 1 ≤ x.receipt) (sym slot) r) in
            let (l'', h'') = rewind-live s j l' h' in
            (
              l'',
              h'',
              ap (λ (x : List ReceiptRecord). get_or x j hole) (same ∙ trimmed.slots) ∙ slot,
            );
        count = count ∙ trimmed.count ∙ (unfold clear_slot in refl);
      }
