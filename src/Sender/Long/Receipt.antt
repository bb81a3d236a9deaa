-- ===== src/Sender/Long/Receipt.antt =====
-- The receipt of a new message in fragments: that the message is in memory changes nothing for
-- `generateReceiptNo`.
use tox_defragmenter.Prelude.{
  ap, ℕ, ◌+◌, ◌-◌, ◌^◌, ◌≤◌, ◌<◌, ◌≡◌, ◌∙◌, sym, subst, refl, [], ◌∷◌, List, false, length, All,
  Bytes,
}
use tox_defragmenter.Database.Types.{DataRow, ok}
use tox_defragmenter.Sender.Types.{MsgOutbound}
use tox_defragmenter.Sender.Channel.{Tox, get_curr_time_ms}
use tox_defragmenter.Sender.Heap.{Heap, Node, allocate, ring}
use tox_defragmenter.Sender.Heap.Reads.{Valid}
use tox_defragmenter.Sender.Heap.Ring.{IsRing, ring-IsRing}
use tox_defragmenter.Sender.Heap.Allocate.{
  grown, node_kept, grown-IsRing, ring-Valid, set_msg-allocate,
}
use tox_defragmenter.Sender.State.{State, has_receipt, generate_msg_id, generate_receipt_no}
use tox_defragmenter.Sender.State.Fresh.{generate_receipt_no-free}
use tox_defragmenter.Sender.Long.{begin_long}

has_receipt-grown :
    (h : Heap) (m : MsgOutbound) (r : ℕ) (xs : List ℕ)
    → All (Valid h) xs
    → has_receipt (grown h m) xs r ≡ has_receipt h xs r
unfolding has_receipt
has_receipt-grown h m r [] v = refl
has_receipt-grown h m r (x ∷ xs) (v, vs) =
    rw (ap (λ (n : Node). n.msg.receipt) (node_kept h m x v), has_receipt-grown h m r xs vs) refl

-- The last receipt is in the range, which ends below 2^32 - 1, and a number of the range is left beside
-- those of the messages `xs` of the ring.
pub record HasReceipt (s : State) (xs : List ℕ) : Type 0 where
  pub is_ring : IsRing (s.heap, s.head) xs
  pub low : s.params.receipt_range_lo ≤ s.last_receipt
  pub high : s.last_receipt ≤ s.params.receipt_range_hi
  pub fits : s.params.receipt_range_hi < 2 ^ 32 - 1
  pub left : length xs < s.params.receipt_range_hi + 1 - s.params.receipt_range_lo

module _ (tox : Tox) (new_rowid : List DataRow → ℕ) (friend : ℕ) (message : Bytes) (s : State)
    (xs : List ℕ) (h : HasReceipt s xs) where
  abbrev begun : (ℕ × MsgOutbound) × State
  begun = begin_long tox new_rowid friend message s

  begun_heap : begun.1.heap ≡ grown s.heap begun.0.1
  unfolding begin_long generate_msg_id get_curr_time_ms allocate
  begun_heap = set_msg-allocate s.heap _ begun.0.1

  begun_ring : ring (begun.1.heap, begun.1.head) ≡ xs
  unfolding begin_long generate_msg_id get_curr_time_ms
  begun_ring =
      ap (λ (k : Heap). ring (k, s.head)) begun_heap
      ∙ ring-IsRing (grown s.heap begun.0.1) s.head xs
          (grown-IsRing s.heap begun.0.1 s.head xs h.is_ring)

  -- `generateReceiptNo` ends with a number of the range that no message of the ring has.
  pub begun_receipt :
      (r : ℕ) × (generate_receipt_no begun.1 ≡ ok (r, record (begun.1) { last_receipt = r }))
      × (has_receipt s.heap (ring (s.heap, s.head)) r ≡ false)
      × (s.params.receipt_range_lo ≤ r)
      × (r ≤ s.params.receipt_range_hi)
  unfolding begin_long generate_msg_id get_curr_time_ms
  begun_receipt =
      let few : length (ring (begun.1.heap, begun.1.head))
          < s.params.receipt_range_hi + 1 - s.params.receipt_range_lo =
        subst
          (λ (ys : List ℕ). length ys < s.params.receipt_range_hi + 1 - s.params.receipt_range_lo)
          (sym begun_ring) h.left in
      let (r, s', e, free, low, high, same) =
        generate_receipt_no-free begun.1 h.low h.high h.fits few in
      (
        r,
        e ∙ ap (λ (x : State). ok (r, x)) same,
        ap (λ (ys : List ℕ). has_receipt s.heap ys r) (ring-IsRing s.heap s.head xs h.is_ring)
            ∙ sym (
                ap (λ (ys : List ℕ). has_receipt begun.1.heap ys r) begun_ring
                ∙ ap (λ (k : Heap). has_receipt k xs r) begun_heap
                ∙ has_receipt-grown s.heap begun.0.1 r xs
                    (ring-Valid s.heap begun.0.1 s.head xs h.is_ring))
            ∙ free,
        low,
        high,
      )
