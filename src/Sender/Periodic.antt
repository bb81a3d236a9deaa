-- ===== src/Sender/Periodic.antt =====
-- The periodic work: `resendExpiredReceipts`, `sendMore`, `doPeriodic`. `dbPeriodic` is empty.
pub mod Ends
use tox_defragmenter.Prelude.{
  ℕ, zero, suc, ◌+◌, ◌-◌, ◌*◌, ◌^◌, [], ◌∷◌, Bool, not, ltb, ◌&&◌, if◌then◌else◌, ◌==◌, u32, u64,
  get_or, List,
}
use tox_defragmenter.Sender.Types.{MsgOutbound}
use tox_defragmenter.Sender.Receipts.{Table, hole, clear_slot}
use tox_defragmenter.Sender.Channel.{Tox, get_curr_time_ms}
use tox_defragmenter.Sender.Heap.{msg_at, set_msg, ring}
use tox_defragmenter.Sender.Send.{msg_send_part}
use tox_defragmenter.Sender.State.{State}
use tox_defragmenter.Sender.Confirm.{send_next_if_online}

-- `receipts[i].receipt && receipts[i].timestamp + params.receiptExpirationTimeMs < now`
abbrev is_expired : State → ℕ → ℕ → Bool
is_expired s now i =
    let r = get_or s.channel.table.slots i hole in
    not (r.receipt == 0) && ltb (u64 (r.timestamp + s.params.receipt_expiration_time_ms)) now

-- `msg->numTransit--; msg->numLoss++;`
abbrev lose_part : MsgOutbound → MsgOutbound
lose_part m = record m {
  num_transit = u32 (m.num_transit + 2 ^ 32 - 1);
  num_loss = u32 (m.num_loss + 1);
}

-- The slot is cleared, and counted off.
abbrev drop_receipt : Table → ℕ → Table
drop_receipt t i = record (clear_slot t i) { num = u32 (t.num + 2 ^ 32 - 1) }

module _ (tox : Tox) where
  -- The body of the loop for an expired receipt.
  unfoldable resend : ℕ → State → State
  resend i s =
      let r = get_or s.channel.table.slots i hole in
      let lost = lose_part (msg_at s.heap r.msg) in
      let c = record (s.channel) { table = drop_receipt s.channel.table i } in
      let (m, c') = (msg_send_part tox r.msg (r.part_no - 1) (lost, c)).1 in
      record s { heap = set_msg s.heap r.msg m; channel = c' }

  -- The loop reads `receiptsHi` again in each round; with a bound on the rounds.
  pub resend_loop : ℕ → ℕ → ℕ → State → State
  resend_loop zero now i s = s
  resend_loop (suc f) now i s =
      let rest = resend_loop f now (i + 1) (if is_expired s now i then resend i s else s) in
      if ltb i s.channel.table.hi then rest else s

  -- A record that the loop adds has not expired, so there are at most twice the rounds.
  pub resend_expired_receipts : State → State
  resend_expired_receipts s =
      let (now, c) = get_curr_time_ms tox s.channel in
      let t = s.channel.table in
      if t.num == 0 then s else resend_loop (2 * t.hi + 1) now t.lo (record s { channel = c })

  unfoldable send_more_loop : List ℕ → State → State
  send_more_loop [] s = s
  send_more_loop (p ∷ ps) s = send_more_loop ps (send_next_if_online tox p s)

  -- Sending does not change the ring.
  unfoldable send_more : State → State
  send_more s = send_more_loop (ring (s.heap, s.head)) s

  unfoldable do_periodic : State → State
  do_periodic s =
      if s.initialized_api && s.initialized_db then send_more (resend_expired_receipts s) else s
