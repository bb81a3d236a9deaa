-- ===== src/Sender/Receipts/Adding.antt =====
-- `addReceipt` with a record that a test does not accept adds none that it accepts.
use tox_defragmenter.Prelude.{
  ℕ, zero, suc, ◌+◌, ◌-◌, ◌≤◌, ◌≡◌, ◌++◌, Bool, false, ltb, ◌==◌, ◌||◌, refl, sym, ap, ◌∙◌, arith,
  lt_or_le, inl, inr, Bool-cases, length, take, drop, replicate, List, length-take, length-drop,
}
use tox_defragmenter.Sender.Types.{ReceiptRecord}
use tox_defragmenter.Sender.Receipts.{
  Table, hole, receipt_at, double, grow, move_up, append_receipt, insert_index, insert_receipt,
  add_receipt,
}
use tox_defragmenter.Sender.Receipts.Bounds.{IsTable, grow-IsTable, insert_index-le}
use tox_defragmenter.Sender.Receipts.Count.{
  count, count-append, count-drop, count-take_le, count-take_same, count_mono, count-set_le,
  count-set_behind, count-holes, count_past,
}

module _ (accepts : ReceiptRecord → Bool) (no_hole : accepts hole ≡ false) where
  count-move_up :
      (rs : List ReceiptRecord) (i n k : ℕ)
      → i ≤ n
      → n ≤ length rs
      → k ≤ n
      → count accepts k (move_up rs i n) ≤ count accepts k rs
  unfolding move_up
  count-move_up rs i n k h le low =
      let kept = take i rs in
      let moved = take (n - i) (drop i rs) in
      let behind = drop (n + 16) rs in
      let room : length kept ≡ i = omega (arith, length-take i rs) in
      let filled : length moved ≡ n - i =
        omega (arith, length-take (n - i) (drop i rs), length-drop i rs) in
      let past : k - i - 16 - length moved ≡ 0 = omega (arith, filled) in
      let tail : count accepts (k - i - 16 - length moved) behind ≡ 0 =
        ap (λ (l : ℕ). count accepts l behind) past in
      let halves = count-append accepts k kept (replicate 16 hole ++ (moved ++ behind)) in
      let place =
        ap (λ (l : ℕ). count accepts (k - l) (replicate 16 hole ++ (moved ++ behind))) room in
      elim (lt_or_le i k) [
        | inl above ↦
            let split : i + (k - i) ≡ k = omega arith in
            let whole : count accepts k rs
                ≡ count accepts i rs + count accepts (k - i) (drop i rs) =
              ap (λ (l : ℕ). count accepts l rs) (sym split) ∙ count-drop accepts i (k - i) rs in
            omega (
              arith,
              whole,
              halves,
              place,
              count-append accepts (k - i) (replicate 16 hole) (moved ++ behind),
              count-holes accepts no_hole (k - i) 16,
              count-append accepts (k - i - 16) moved behind,
              tail,
              count-take_le accepts k i rs,
              count-take_same accepts (k - i - 16) (n - i) (drop i rs),
              count_mono accepts (k - i - 16) (k - i) (drop i rs) (omega arith),
            )
        | inr below ↦
            let none_left : count accepts (k - i) (replicate 16 hole ++ (moved ++ behind)) ≡ 0 =
              let z : k - i ≡ 0 = omega arith in
              ap (λ (l : ℕ). count accepts l (replicate 16 hole ++ (moved ++ behind))) z in
            omega (arith, halves, place, none_left, count-take_same accepts k i rs)
      ]

  append_receipt-hi : (t : Table) (r : ReceiptRecord) → (append_receipt t r).hi ≡ t.hi + 1
  unfolding append_receipt double
  append_receipt-hi t r = elim (Bool-cases (t.hi == t.alloc)) [
    | inl full ↦ rw full refl
    | inr room ↦ rw room refl
  ]

  count-grow : (f k : ℕ) (t : Table) → count accepts k (grow f t).slots ≡ count accepts k t.slots
  unfolding grow double
  count-grow zero k t = refl
  count-grow (suc f) k t =
      ground (arith, count-grow f k (double t), count_past accepts no_hole k t.slots t.alloc)

  count-append_receipt :
      (k : ℕ) (t : Table) (r : ReceiptRecord)
      → accepts r ≡ false
      → (count accepts k (append_receipt t r).slots ≤ count accepts k t.slots)
        × (count accepts (append_receipt t r).hi (append_receipt t r).slots
            ≤ count accepts t.hi t.slots)
  unfolding append_receipt double
  count-append_receipt k t r other =
      let more = t.slots ++ replicate t.alloc hole in
      elim (Bool-cases (t.hi == t.alloc)) [
        | inl full ↦ rw full (
          omega (
            arith,
            count_past accepts no_hole k t.slots t.alloc,
            count-set_le accepts k t.hi more r other,
          ),
          omega (
            arith,
            count_past accepts no_hole t.hi t.slots t.alloc,
            count-set_behind accepts t.hi more r other,
          ),
        )
        | inr room ↦ rw room (
          count-set_le accepts k t.hi t.slots r other,
          count-set_behind accepts t.hi t.slots r other,
        )
      ]

  count-insert_receipt :
      (k : ℕ) (t : Table) (r : ReceiptRecord)
      → accepts r ≡ false
      → IsTable t
      → 1 ≤ t.hi
      → r.receipt ≤ receipt_at t.slots (t.hi - 1)
      → k ≤ t.hi
      → (count accepts k (insert_receipt t r).slots ≤ count accepts k t.slots)
        × ((insert_receipt t r).hi ≡ t.hi)
  unfolding insert_receipt
  count-insert_receipt k t r other w h le low =
      let i = insert_index t r.receipt in
      let i_le = insert_index-le t r.receipt w h le in
      let (gw, gh, gl, ga) = grow-IsTable (t.hi + 16) t w (omega (arith, w.within)) in
      let g = grow (t.hi + 16) t in
      elim (Bool-cases (receipt_at t.slots i == 0)) [
        | inl free ↦ rw free (count-set_le accepts k i t.slots r other, refl)
        | inr taken ↦ rw taken (
          omega (
            arith,
            count-set_le accepts k i (move_up g.slots i g.hi) r other,
            count-move_up g.slots i g.hi k (omega (arith, i_le, gh))
                (omega (arith, gw.array, gw.within)) (omega (arith, gh)),
            count-grow (t.hi + 16) k t,
          ),
          gh,
        )
      ]

  -- A record that the test does not accept is added: not more records are accepted, among the first
  -- slots or all that are in use, and the used part grows by one slot at most.
  pub count-add_receipt :
      (k : ℕ) (t : Table) (r : ReceiptRecord)
      → accepts r ≡ false
      → IsTable t
      → k ≤ t.hi
      → (count accepts k (add_receipt t r).slots ≤ count accepts k t.slots)
        × (count accepts (add_receipt t r).hi (add_receipt t r).slots ≤ count accepts t.hi t.slots)
        × ((add_receipt t r).hi ≤ t.hi + 1)
        × (t.hi ≤ (add_receipt t r).hi)
  unfolding add_receipt
  count-add_receipt k t r other w low =
      let (a, ah) = count-append_receipt k t r other in
      elim (Bool-cases (t.hi == 0 || ltb (receipt_at t.slots (t.hi - 1)) r.receipt)) [
        | inl behind ↦
            let hi = append_receipt-hi t r in
            rw behind (a, ah, omega (arith, hi), omega (arith, hi))
        | inr inside ↦
            let (c, e) = count-insert_receipt k t r other w (ground arith) (ground arith) low in
            let (c', e') =
              count-insert_receipt t.hi t r other w (ground arith) (ground arith) (omega arith) in
            let all = ap (λ (l : ℕ). count accepts l (insert_receipt t r).slots) e in
            rw inside (c, omega (arith, all, c'), omega (arith, e), omega (arith, e))
      ]
