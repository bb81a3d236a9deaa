-- ===== src/Sender/Periodic/Ends.antt =====
-- The loop of `resendExpiredReceipts` ends: a record that it adds has not expired.
use tox_defragmenter.Prelude.{
  ℕ, zero, suc, ◌+◌, ◌-◌, ◌*◌, ◌^◌, ◌≤◌, ◌<◌, ◌≡◌, Bool, true, false, not, ◌&&◌, ltb, ◌==◌,
  if◌then◌else◌, u32, u64, refl, ap, ◌∙◌, sym, arith, Bool-cases, inl, inr, lt_or_le, get_or,
  length-set, subst,
}
use tox_defragmenter.Sender.Types.{ReceiptRecord, MsgOutbound}
use tox_defragmenter.Sender.Receipts.{hole, receipt_at, clear_slot}
use tox_defragmenter.Sender.Receipts.Bounds.{IsTable, add_receipt-IsTable}
use tox_defragmenter.Sender.Receipts.Count.{
  count, count_all_le, count_mono, count_none, count_zero, count-next, count-set_less,
  count-set_behind,
}
use tox_defragmenter.Sender.Receipts.Adding.{count-add_receipt}
use tox_defragmenter.Sender.Channel.{Tox, Channel, tox_friend_send_message, get_curr_time_ms}
use tox_defragmenter.Sender.Heap.{msg_at}
use tox_defragmenter.Sender.Send.{msg_send_part, part_sent, packet_of}
use tox_defragmenter.Sender.State.{State}
use tox_defragmenter.Sender.Periodic.{
  is_expired, lose_part, drop_receipt, resend, resend_loop, resend_expired_receipts,
}

-- The condition of the loop, on a record.
abbrev pub expired : (expiration now : ℕ) → ReceiptRecord → Bool
expired expiration now r = not (r.receipt == 0) && ltb (u64 (r.timestamp + expiration)) now

-- The clock does not go back, and a time with the expiration time is below 2^64.
pub record IsSteady (tox : Tox) (expiration : ℕ) : Type 0 where
  pub forward : (j k : ℕ) → j ≤ k → tox.clock j ≤ tox.clock k
  pub small : (k : ℕ) → tox.clock k + expiration < 2 ^ 64

-- The table keeps within its array, and the clock has been read at `now` before.
record Goes (tox : Tox) (at : ℕ) (c : Channel) : Type 0 where
  pub table : IsTable c.table
  pub later : at ≤ c.readings

-- The rounds that are left at most.
abbrev left : ℕ → ℕ → ℕ → Channel → ℕ
left expiration now i c = c.table.hi - i + count (expired expiration now) c.table.hi c.table.slots

module _ (tox : Tox) (expiration : ℕ) (steady : IsSteady tox expiration) (at : ℕ) where
  abbrev now : ℕ
  now = tox.clock at

  abbrev old : ReceiptRecord → Bool
  old = expired expiration now

  fresh-old : (r : ReceiptRecord) (k : ℕ) → at ≤ k → r.timestamp ≡ tox.clock k → old r ≡ false
  fresh-old r k h e =
      let later = steady.forward at k h in
      let small = steady.small k in ground (arith, later, small, e)

  -- A part that is sent adds no expired record, among the first `k` slots or all that are in use.
  msg_send_part-Goes :
      (k ptr i : ℕ) (m : MsgOutbound) (c : Channel)
      → Goes tox at c
      → k ≤ c.table.hi
      → let c' = (msg_send_part tox ptr i (m, c)).1.1 in
        Goes tox at c'
        × (c'.table.hi ≤ c.table.hi + 1)
        × (c.table.hi ≤ c'.table.hi)
        × (count old k c'.table.slots ≤ count old k c.table.slots)
        × (count old c'.table.hi c'.table.slots ≤ count old c.table.hi c.table.slots)
  unfolding msg_send_part part_sent tox_friend_send_message get_curr_time_ms
  msg_send_part-Goes k ptr i m c g low =
      let reply = tox.reply c.sends (packet_of m i) in
      let r : ReceiptRecord = record {
        receipt = reply;
        msg = ptr;
        part_no = u32 (i + 1);
        timestamp = tox.clock c.readings;
      } in
      let (n, all, h, h') =
        count-add_receipt old refl k c.table r (fresh-old r c.readings g.later refl) g.table low in
      elim (Bool-cases (reply == 0)) [
        | inl failed ↦ rw failed (
          record { table = g.table; later = g.later },
          omega arith,
          omega arith,
          omega arith,
          omega arith,
        )
        | inr taken ↦ rw taken (
          record { table = add_receipt-IsTable c.table r g.table; later = omega (arith, g.later) },
          h,
          h',
          n,
          all,
        )
      ]

  -- A slot with an expired record is cleared.
  drop_receipt-Goes :
      (i : ℕ) (c : Channel)
      → Goes tox at c
      → i < c.table.hi
      → old (get_or c.table.slots i hole) ≡ true
      → let c' = record c { table = drop_receipt c.table i } in
        Goes tox at c'
        × (count old (i + 1) c'.table.slots ≤ count old i c.table.slots)
        × (count old c'.table.hi c'.table.slots + 1 ≤ count old c.table.hi c.table.slots)
  unfolding clear_slot
  drop_receipt-Goes i c g h e =
      let r = record (get_or c.table.slots i hole) { receipt = 0 } in
      (
        record {
          table = record {
            array = length-set c.table.slots i r ∙ g.table.array;
            some_alloc = g.table.some_alloc;
            ordered = g.table.ordered;
            within = g.table.within;
          };
          later = g.later;
        },
        count-set_behind old i c.table.slots r refl,
        count-set_less old refl c.table.hi i c.table.slots r h e refl,
      )

  -- One round, in which the slot has an expired record or not.
  abbrev round : ℕ → State → State
  round i s = if is_expired s now i then resend tox i s else s

  -- A round leaves fewer rounds, and no expired record in the slots that it has passed.
  round-left :
      (i : ℕ) (s : State)
      → s.params.receipt_expiration_time_ms ≡ expiration
      → Goes tox at s.channel
      → i < s.channel.table.hi
      → count old i s.channel.table.slots ≡ 0
      → let s' = round i s in
        Goes tox at s'.channel
        × (s'.params.receipt_expiration_time_ms ≡ expiration)
        × (left expiration now (i + 1) s'.channel + 1 ≤ left expiration now i s.channel)
        × (count old (i + 1) s'.channel.table.slots ≡ 0)
  unfolding resend clear_slot
  round-left i s e g h passed =
      let r = get_or s.channel.table.slots i hole in
      let same = ap (λ (x : ℕ). expired x now r) (sym e) in
      elim (Bool-cases (is_expired s now i)) [
        | inl old_one ↦
            let (g1, n1, all1) = drop_receipt-Goes i s.channel g h (same ∙ old_one) in
            let (g2, hi2, hi2', n2, all2) =
              msg_send_part-Goes (i + 1) r.msg (r.part_no - 1) (lose_part (msg_at s.heap r.msg))
                (record (s.channel) { table = drop_receipt s.channel.table i }) g1 (omega arith) in
            rw old_one (g2, e, omega (arith, all1, all2, hi2), omega (arith, n1, n2, passed))
        | inr young ↦
            let n = count-next old i s.channel.table.slots (same ∙ young) in
            rw young (g, e, omega arith, omega (arith, n, passed))
      ]

  resend_loop_over : (n i : ℕ) (s : State) → s.channel.table.hi ≤ i → resend_loop tox n now i s ≡ s
  unfolding resend_loop
  resend_loop_over zero i s ended = refl
  resend_loop_over (suc n) i s ended =
      let stop : ltb i s.channel.table.hi ≡ false = ground arith in rw stop refl

  -- More rounds than are left are as good as any other bound. When they are over, no record that is in
  -- use has expired.
  resend_loop-ends :
      (f f' i : ℕ) (s : State)
      → s.params.receipt_expiration_time_ms ≡ expiration
      → Goes tox at s.channel
      → count old i s.channel.table.slots ≡ 0
      → left expiration now i s.channel ≤ f
      → left expiration now i s.channel ≤ f'
      → let t = (resend_loop tox f now i s).channel.table in
        (count old t.hi t.slots ≡ 0) × (resend_loop tox f now i s ≡ resend_loop tox f' now i s)
  unfolding resend_loop
  resend_loop-ends zero f' i s e g passed h h' =
      (omega (arith, h), sym (resend_loop_over f' i s (omega (arith, h))))
  resend_loop-ends (suc f) zero i s e g passed h h' =
      let over = resend_loop_over (suc f) i s (omega (arith, h')) in
      (
        subst (λ (x : State). count old x.channel.table.hi x.channel.table.slots ≡ 0) (sym over)
            (omega (arith, h')),
        over,
      )
  resend_loop-ends (suc f) (suc f') i s e g passed h h' = elim (lt_or_le i s.channel.table.hi) [
    | inl more ↦
        let go : ltb i s.channel.table.hi ≡ true = ground arith in
        let (g', e', l, passed') = round-left i s e g more passed in
        rw go (
          resend_loop-ends f f' (i + 1) (round i s) e' g' passed' (omega (arith, l))
            (omega (arith, l)))
    | inr ended ↦
        let stop : ltb i s.channel.table.hi ≡ false = ground arith in
        let few = count_mono old s.channel.table.hi i s.channel.table.slots ended in
        rw stop (omega (arith, few, passed), refl)
  ]

-- The clock does not go back, and its times with the expiration time are below 2^64. The table keeps
-- within its array, holds some receipt, and has only holes before the used part. Then the loop of
-- `resendExpiredReceipts` ends: any number of rounds from twice the slots in use on gives the same. In
-- the end no receipt of the used part has expired at the time when the call began.
pub resend_expired_receipts-ends :
    (tox : Tox) (s : State) (n : ℕ)
    → IsSteady tox s.params.receipt_expiration_time_ms
    → IsTable s.channel.table
    → 1 ≤ s.channel.table.num
    → ((j : ℕ) → j < s.channel.table.lo → receipt_at s.channel.table.slots j ≡ 0)
    → 2 * s.channel.table.hi ≤ n
    → let now = tox.clock s.channel.readings in
      let begun = record s { channel = record (s.channel) { readings = s.channel.readings + 1 } } in
      let s' = resend_expired_receipts tox s in
      (resend_loop tox n now s.channel.table.lo begun ≡ s')
      × ((j : ℕ)
          → j < s'.channel.table.hi
          → expired s.params.receipt_expiration_time_ms now (get_or s'.channel.table.slots j hole)
            ≡ false)
unfolding resend_expired_receipts get_curr_time_ms
resend_expired_receipts-ends tox s n steady w some_receipt holes enough =
    let t = s.channel.table in
    let now = tox.clock s.channel.readings in
    let old = expired s.params.receipt_expiration_time_ms now in
    let begun = record s { channel = record (s.channel) { readings = s.channel.readings + 1 } } in
    let g : Goes tox s.channel.readings begun.channel = record { table = w; later = omega arith } in
    let before : count old t.lo t.slots ≡ 0 =
      count_none old t.lo t.slots (λ j h. let e = holes j h in ground (arith, e)) in
    let most = count_all_le old t.hi t.slots in
    let (none_left, same) =
      resend_loop-ends tox s.params.receipt_expiration_time_ms steady s.channel.readings
        (2 * t.hi + 1) n t.lo begun refl g before (omega (arith, most)) (omega (arith, most)) in
    let some_left : (t.num == 0) ≡ false = ground (arith, some_receipt) in
    rw some_left (
      sym same,
      λ j h.
          count_zero old (resend_loop tox (2 * t.hi + 1) now t.lo begun).channel.table.hi j
            (resend_loop tox (2 * t.hi + 1) now t.lo begun).channel.table.slots refl none_left h,
    )
