-- ===== src/Sender/Send.antt =====
-- Sending the fragments of a message: `msgSendPart`, `msgSendNextParts`, and the loop of
-- `friend_send_message_long`. These functions change the message, the table of receipts and nothing
-- else; `ptr` is the address of the message.
pub mod Flow
pub mod InOrder
use tox_defragmenter.Prelude.{
  ℕ, zero, suc, ◌+◌, ◌-◌, Bool, true, false, not, ◌&&◌, ltb, if◌then◌else◌, ◌==◌, u32, get_or, set,
  List, Option, none,
}
use tox_defragmenter.Sender.Types.{Params, Fragment, MsgOutbound}
use tox_defragmenter.Sender.Receipts.{add_receipt}
use tox_defragmenter.Sender.Channel.{
  Tox, Packet, Channel, tox_friend_send_message, get_curr_time_ms,
}

abbrev pub no_fragment : Fragment
no_fragment = record { size = 0; bytes = none; receipt = 0; times_sent = 0; confirmed = 0 }

-- `msg->fragments[i]`
abbrev pub fragment_at : MsgOutbound → ℕ → Fragment
fragment_at m i = get_or m.fragments i no_fragment

-- The arguments with which the fragment at `i` is sent.
abbrev pub packet_of : MsgOutbound → ℕ → Packet
packet_of m i =
    let f = fragment_at m i in
    record { friend_number = m.friend_number; type = m.type; size = f.size; bytes = f.bytes }

-- A message with the channel it is sent on.
abbrev pub Flight : Type 0
Flight = MsgOutbound × Channel

module _ (tox : Tox) (ptr : ℕ) where
  -- What `msgSendPart` does when toxcore returned a receipt.
  unfoldable pub part_sent : ℕ → ℕ → Flight → Flight
  part_sent receipt i (m, c) =
      let f = fragment_at m i in
      let (now, c') = get_curr_time_ms tox c in
      (
        record m {
          fragments =
              set m.fragments i
                (record f { receipt = receipt; times_sent = u32 (f.times_sent + 1) });
          num_transit = u32 (m.num_transit + 1);
        },
        record c' {
          table =
              add_receipt c'.table
                (record { receipt = receipt; msg = ptr; part_no = u32 (i + 1); timestamp = now });
        },
      )

  unfoldable pub msg_send_part : ℕ → Flight → Bool × Flight
  msg_send_part i (m, c) =
      let (receipt, c') = tox_friend_send_message tox (packet_of m i) c in
      if receipt == 0 then (false, (m, c')) else (true, part_sent receipt i (m, c'))

  -- One round of the first loop: `if (msgSendPart(tox, msg, i)) msg->lastSent = i;`
  unfoldable pub send_and_note : ℕ → Flight → Flight
  send_and_note i fl =
      let (done, (m, c)) = msg_send_part i fl in
      if done then (record m { last_sent = i }, c) else (m, c)

  -- One round of the second loop of `msgSendNextParts`.
  unfoldable pub retry : ℕ → Flight → Flight
  retry i fl =
      let f = fragment_at fl.0 i in
      if f.receipt == 0 && f.confirmed == 0 then (msg_send_part i fl).1 else fl

  module _ (params : Params) where
    -- The first loop, for as many parts from `i` on as the first number says.
    pub send_pass : ℕ → ℕ → Flight → Flight
    send_pass zero i fl = fl
    send_pass (suc f) i fl =
        let rest = send_pass f (i + 1) (send_and_note i fl) in
        if ltb fl.0.num_transit params.fragments_at_a_time then rest else fl

    -- The second loop: "send fragments that failed before for some reason".
    pub retry_pass : ℕ → ℕ → Flight → Flight
    retry_pass zero i fl = fl
    retry_pass (suc f) i fl =
        let rest = retry_pass f (i + 1) (retry i fl) in
        if ltb fl.0.num_transit params.fragments_at_a_time
          && ltb (u32 (fl.0.num_transit + fl.0.num_confirmed)) fl.0.num_parts
        then rest
        else fl

    unfoldable pub msg_send_next_parts : Flight → Flight
    msg_send_next_parts fl =
        let first = u32 (fl.0.last_sent + 1) in
        let passed = send_pass (fl.0.num_parts - first) first fl in
        retry_pass passed.0.num_parts 0 passed
