-- ===== src/Sender/Confirm.antt =====
-- Receipts from toxcore: `friend_read_receipt_cb`, `tryProcessReceipt`, `msgIsComplete`.
pub mod Steps
pub mod Complete
use tox_defragmenter.Prelude.{
  ℕ, zero, suc, ◌+◌, ◌-◌, ◌^◌, Bool, true, false, leb, ltb, ◌&&◌, if◌then◌else◌, ◌==◌, u32, get_or,
  set, Option, none, some,
}
use tox_defragmenter.Database.Types.{Db, Result, ok, aborted, ◌>>=◌}
use tox_defragmenter.Database.Outbound.{db_outbound_part_confirmed, db_clear_outbound_pending}
use tox_defragmenter.Sender.Types.{Params, Fragment, MsgOutbound, ReceiptRecord}
use tox_defragmenter.Sender.Receipts.{Table, hole, receipt_at, find_receipt, clear_receipt}
use tox_defragmenter.Sender.Channel.{Tox, Channel, is_friend_online, get_curr_time_ms, give_receipt}
use tox_defragmenter.Sender.Heap.{msg_at, set_msg, msgs_outbound_unlink, msg_outbound_delete}
use tox_defragmenter.Sender.Send.{fragment_at, msg_send_next_parts}
use tox_defragmenter.Sender.State.{State}

-- `params.receiptRangeLo <= receipt && receipt <= params.receiptRangeHi`
abbrev pub in_range : Params → ℕ → Bool
in_range ps receipt = leb ps.receipt_range_lo receipt && leb receipt ps.receipt_range_hi

-- The record that `tryProcessReceipt` works on; `none` where the receipt is not in the table.
unfoldable pub pending_record : Table → ℕ → Option (ℕ × ReceiptRecord)
pending_record t receipt = elim (find_receipt t receipt) [
  | none ↦ none
  | some i ↦ if receipt_at t.slots i == receipt then some (i, get_or t.slots i hole) else none
]

-- The part is confirmed: its data are freed, and the counts change.
unfoldable pub confirm_part : ℕ → MsgOutbound → MsgOutbound
confirm_part i m =
    let f = fragment_at m i in
    record m {
      fragments = set m.fragments i (record f { receipt = 0; confirmed = 1; bytes = none });
      num_confirmed = u32 (m.num_confirmed + 1);
      num_transit = u32 (m.num_transit + 2 ^ 32 - 1);
    }

unfoldable pub msg_is_complete : ℕ → State → State
msg_is_complete ptr s =
    let m = msg_at s.heap ptr in
    let (h, head) = msgs_outbound_unlink ptr (s.heap, s.head) in
    record s {
      channel = give_receipt m.friend_number m.receipt s.channel;
      db = db_clear_outbound_pending m.friend_number m.id s.db;
      heap = msg_outbound_delete ptr h;
      head = head;
    }

module _ (tox : Tox) where
  -- "if (isFriendOnline(…)) msgSendNextParts(…)" for the message at `ptr`.
  unfoldable pub send_next_if_online : ℕ → State → State
  send_next_if_online ptr s =
      let m = msg_at s.heap ptr in
      let (online, c) = is_friend_online tox m.friend_number s.channel in
      let (m', c') = msg_send_next_parts tox ptr s.params (m, c) in
      if online
      then record s { heap = set_msg s.heap ptr m'; channel = c' }
      else record s { channel = c }

  -- The part of a receipt is confirmed, in memory and in the database.
  unfoldable pub note_confirmed : ReceiptRecord → State → Result State
  note_confirmed r s =
      let m = confirm_part (r.part_no - 1) (msg_at s.heap r.msg) in
      let (now, c) = get_curr_time_ms tox s.channel in
      db_outbound_part_confirmed m.friend_number m.id r.part_no now s.db >>= λ db.
      ok (record s { heap = set_msg s.heap r.msg m; channel = c; db = db })

  -- More parts are sent, or the message is complete; then the slot of the receipt is cleared.
  unfoldable pub after_confirmed : ℕ → ReceiptRecord → State → State
  after_confirmed idx r s =
      let m = msg_at s.heap r.msg in
      let s' =
        if ltb m.num_confirmed m.num_parts
        then send_next_if_online r.msg s
        else msg_is_complete r.msg s in
      record s' { channel = record (s'.channel) { table = clear_receipt s'.channel.table idx } }

  -- Whether the receipt is one of a fragment.
  unfoldable pub try_process_receipt : ℕ → State → Result (Bool × State)
  try_process_receipt receipt s = elim (pending_record s.channel.table receipt) [
    | none ↦ ok (in_range s.params receipt, s)
    | some (idx, r) ↦ note_confirmed r s >>= λ s'. ok (true, after_confirmed idx r s')
  ]

  unfoldable pub friend_read_receipt_cb : (friend receipt : ℕ) → State → Result State
  friend_read_receipt_cb friend receipt s = try_process_receipt receipt s >>= λ r.
      ok (if r.0 then r.1 else record (r.1) { channel = give_receipt friend receipt r.1.channel })
