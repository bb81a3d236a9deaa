-- ===== src/Sender/Long.antt =====
-- `friend_send_message` and `friend_send_message_long`.
pub mod Receipt
pub mod Sends
use tox_defragmenter.Prelude.{
  ℕ, zero, suc, ◌+◌, ◌-◌, Bool, true, false, leb, ltb, if◌then◌else◌, ◌==◌, length, List, Bytes,
  some,
}
use tox_defragmenter.Marker.{marker_exists}
use tox_defragmenter.Database.Types.{DataRow, Result, ok, aborted, ◌>>=◌}
use tox_defragmenter.Database.Outbound.{db_insert_outbound_message}
use tox_defragmenter.Sender.Types.{MsgOutbound}
use tox_defragmenter.Sender.Split.{split_message}
use tox_defragmenter.Sender.Channel.{Tox, tox_friend_send_message}
use tox_defragmenter.Sender.Heap.{allocate, set_msg, msgs_outbound_link, msg_outbound_delete}
use tox_defragmenter.Sender.Send.{send_pass}
use tox_defragmenter.Sender.State.{State, generate_msg_id, generate_receipt_no}

module _ (tox : Tox) (new_rowid : List DataRow → ℕ) where
  -- The message is in memory and as many parts as there is room for were sent: the state with the new
  -- message `m` at `ptr`.
  unfoldable pub begin_long : (friend : ℕ) (message : Bytes) → State → (ℕ × MsgOutbound) × State
  begin_long friend message s0 =
      let (id, s1) = generate_msg_id tox s0 in
      let m0 = record (split_message s1.ever message s1.params.max_message_length id) {
        friend_number = friend;
      } in
      let (h, ptr) = allocate m0 s1.heap in
      let (m, c) = send_pass tox ptr s1.params m0.num_parts 0 (m0, s1.channel) in
      ((ptr, m), record s1 { heap = set_msg h ptr m; channel = c })

  -- Some part is in transit: the message is linked and stored.
  unfoldable pub keep_long :
      (friend type ptr : ℕ) (m : MsgOutbound) (message : Bytes) → State → Result (ℕ × State)
  keep_long friend type ptr m message s0 = do
    (receipt, s1) ← generate_receipt_no s0
    let m' = record m { type = type; receipt = receipt }
    let (h, head) = msgs_outbound_link ptr (set_msg s1.heap ptr m', s1.head)
    db ←
        db_insert_outbound_message new_rowid friend type m'.id m'.id m'.num_parts message receipt
          s1.db
    ok (receipt, record s1 { heap = h; head = head; db = db })

  unfoldable pub friend_send_message_long :
      (friend type : ℕ) (message : Bytes) → State → Result (ℕ × State)
  friend_send_message_long friend type message s =
      let begun = begin_long friend message s in
      let ((ptr, m), s') = begun in
      if m.num_transit == 0
      then ok (0, record s' { heap = msg_outbound_delete ptr s'.heap })
      else keep_long friend type ptr m message s'

  -- The message is the list of its bytes.
  unfoldable pub friend_send_message :
      (friend type : ℕ) (message : Bytes) → State → Result (ℕ × State)
  friend_send_message friend type message s =
      let len = length message in
      let (receipt, c) =
        tox_friend_send_message tox
          (record { friend_number = friend; type = type; size = len; bytes = some message })
          s.channel in
      if marker_exists message len
      then ok (0, s)
      else if leb len s.params.max_message_length
      then ok (receipt, record s { channel = c })
      else friend_send_message_long friend type message s
