-- ===== src/Peer/Loop/Counting.antt =====
-- What `receivedAllReceipts` decides.
use tox_defragmenter.Prelude.{
  ℕ, zero, suc, ◌+◌, ◌≤◌, ◌<◌, Bool, false, ◌≡◌, refl, ap, arith, ◌==◌, u32, ltb, ◌&&◌, ◌||◌,
  if◌then◌else◌,
}
use tox_defragmenter.Peer.State.{TestPeer, mark}
use tox_defragmenter.Peer.Loop.{bit, count_receipts, received_all_receipts}

-- The receipts noted under so many numbers from `i` on.
abbrev pub noted : ℕ → ℕ → TestPeer → ℕ
noted zero i s = 0
noted (suc n) i s =
    bit (s.net_received_receipts_short i) + bit (s.net_received_receipts_long i) + noted n (i + 1) s

module _ (s : TestPeer) where
  -- The receipt of number `i` was noted, in either array.
  abbrev pub is_noted : ℕ → Bool
  is_noted i = s.net_received_receipts_short i || s.net_received_receipts_long i

  -- No number up to `top` is noted in both arrays.
  abbrev pub AreApart : ℕ → Type 0
  AreApart top =
      (i : ℕ)
      → i ≤ top
      → (s.net_received_receipts_short i && s.net_received_receipts_long i) ≡ false

module _ (s : TestPeer) (j : ℕ) where
  abbrev pub marked : TestPeer
  marked = record s { net_received_receipts_short = mark j s.net_received_receipts_short }

  count_receipts-mark :
      (n i cnt : ℕ) → i + n ≤ j → count_receipts n i cnt marked ≡ count_receipts n i cnt s
  unfolding count_receipts mark
  count_receipts-mark zero i cnt h = refl
  count_receipts-mark (suc n) i cnt h =
      let other : (i == j) ≡ false = ground arith in
      rw other (
        ap (λ more. if ltb cnt s.msg_id_iface then more else cnt)
          (count_receipts-mark n (i + 1)
            (u32
              (cnt + bit (s.net_received_receipts_short i) + bit (s.net_received_receipts_long i)))
            (omega arith)))

  -- The receipt of a message that was sent as one packet, whose number is greater than the number of
  -- messages taken from the interface, makes no difference to `receivedAllReceipts`. Fragments are
  -- numbered with the other packets, so that such numbers are given once a long message was sent.
  pub received_all_receipts-blind :
      s.msg_id_iface < j → received_all_receipts marked ≡ received_all_receipts s
  unfolding received_all_receipts
  received_all_receipts-blind h =
      ap (λ n. n == s.msg_id_iface) (count_receipts-mark (suc s.msg_id_iface) 0 0 (omega arith))
