-- ===== src/Peer/Events.antt =====
-- The handlers of events of test-peer.c: a stream can be read, or written.
use tox_defragmenter.Prelude.{
  ℕ, ◌+◌, ◌++◌, Bytes, true, false, not, ◌==◌, if◌then◌else◌, u32, length, List, Option, none, some,
}
use tox_defragmenter.Marker.{marker_exists}
use tox_defragmenter.Database.Types.{DataRow}
use tox_defragmenter.Sender.Channel.{get_curr_time_ms}
use tox_defragmenter.Sender.State.{State}
use tox_defragmenter.Sender.Long.{friend_send_message}
use tox_defragmenter.Sender.Confirm.{friend_read_receipt_cb}
use tox_defragmenter.Receiver.{ClientMessage, friend_message_cb}
use tox_defragmenter.Peer.Outcome.{Outcome, done, abort, ◌>>=◌, of_result}
use tox_defragmenter.Peer.Packets.{
  QueuedPacket, PacketQueue, packet_append, packet_create_receipt, packet_create_end_signal,
  take_front,
}
use tox_defragmenter.Peer.Input.{read_char, skip_char, read_uint, read_string, c_string}
use tox_defragmenter.Peer.Output.{on_any_wr}
use tox_defragmenter.Peer.State.{TestPeer, base_tox, front_friend_message, library_goes}

module _ (my_friend_id his_friend_id : ℕ) (clock : ℕ → ℕ) (new_rowid : List DataRow → ℕ) where
  unfoldable pub on_iface_wr : TestPeer → Outcome TestPeer
  on_iface_wr s = take_front s.iface_out >>= λ (r : QueuedPacket × PacketQueue). done (record s {
    iface_out = r.1;
    iface_output = s.iface_output ++ on_any_wr false my_friend_id r.0;
  })

  unfoldable pub on_net_wr : TestPeer → Outcome TestPeer
  on_net_wr s = take_front s.net_out >>= λ (r : QueuedPacket × PacketQueue).
      done
        (record s { net_out = r.1; net_output = s.net_output ++ on_any_wr true my_friend_id r.0 })

  -- A message from the interface, as `readString` gives it, is sent; 0 is no receipt.
  unfoldable pub iface_message : Bytes → TestPeer → Outcome TestPeer
  iface_message msg s = do
    sending ←
        of_result
          (friend_send_message (base_tox clock s) new_rowid his_friend_id 0 (c_string msg) s.lib)
    sent' ← library_goes sending.1 s
    if sending.0 == 0
        then abort
        else done (record sent' { msg_id_iface = u32 (sent'.msg_id_iface + 1) })

  unfoldable pub iface_end : TestPeer → Outcome TestPeer
  iface_end s =
      packet_append (packet_create_end_signal s.msg_id_iface) s.net_out >>= λ (q : PacketQueue).
      done (record s { saw_iface_eof = true; net_out = q })

  -- `case 'M'` and `case 'E'` of `onIfaceRD`.
  unfoldable pub iface_case_m : Bytes → TestPeer → Outcome TestPeer
  unfolding iface_message
  iface_case_m input s = do
    blank ← skip_char b' ' input
    text ← read_string b'\n' blank
    iface_message text.0 (record s { iface_input = text.1 })

  unfoldable pub iface_case_e : Bytes → TestPeer → Outcome TestPeer
  unfolding iface_end
  iface_case_e input s = do
    rest ← skip_char b'\n' input
    iface_end (record s { iface_input = rest })

  unfoldable pub on_iface_rd : TestPeer → Outcome TestPeer
  unfolding iface_case_m iface_case_e
  on_iface_rd s =
      let (c, input) = read_char s.iface_input in
      if c == b'M' then iface_case_m input s else if c == b'E' then iface_case_e input s else abort

  abbrev pub deliver : Option ClientMessage → TestPeer → Outcome TestPeer
  deliver none s = done s
  deliver (some m) s = front_friend_message m s

  -- The library gets the message, with the time of its arrival if it is a fragment, and a receipt goes
  -- back.
  unfoldable pub net_message : (msg_id from_friend_id : ℕ) → Bytes → TestPeer → Outcome TestPeer
  net_message msg_id from_friend_id msg s = do
    let m = c_string msg
    let (now, read) = get_curr_time_ms (base_tox clock s) s.lib.channel
    received ← of_result (friend_message_cb new_rowid from_friend_id 0 m (length m) now s.lib.db)
    delivered ← deliver received.1 (record s {
      lib = record (s.lib) {
        db = received.0;
        channel = if marker_exists m (length m) then read else s.lib.channel;
      };
    })
    q ← packet_append (packet_create_receipt msg_id) delivered.net_out
    done (record delivered { net_out = q })

  unfoldable pub net_receipt : ℕ → TestPeer → Outcome TestPeer
  net_receipt msg_id s =
      of_result (friend_read_receipt_cb (base_tox clock s) 1 msg_id s.lib) >>= λ (after : State).
      library_goes after s

  abbrev pub net_end : ℕ → TestPeer → TestPeer
  net_end count s = record s { saw_net_end_signal = true; net_expect_messages = count }

  unfoldable pub net_eof : TestPeer → Outcome TestPeer
  net_eof s = if not s.saw_net_end_signal then abort else done (record s { saw_net_eof = true })

  -- The cases of `onNetRD`.
  unfoldable pub net_case_m : Bytes → TestPeer → Outcome TestPeer
  unfolding net_message
  net_case_m input s = do
    blank ← skip_char b' ' input
    id ← read_uint b' ' blank
    from ← read_uint b' ' id.1
    text ← read_string b'\n' from.1
    net_message id.0 from.0 text.0 (record s { net_input = text.1 })

  unfoldable pub net_case_r : Bytes → TestPeer → Outcome TestPeer
  unfolding net_receipt
  net_case_r input s = do
    blank ← skip_char b' ' input
    id ← read_uint b'\n' blank
    net_receipt id.0 (record s { net_input = id.1 })

  unfoldable pub net_case_e : Bytes → TestPeer → Outcome TestPeer
  net_case_e input s = do
    blank ← skip_char b' ' input
    count ← read_uint b'\n' blank
    done (net_end count.0 (record s { net_input = count.1 }))

  unfoldable pub on_net_rd : TestPeer → Outcome TestPeer
  unfolding net_case_m net_case_r net_case_e
  on_net_rd s =
      let (c, input) = read_char s.net_input in
      if c == b'M'
      then net_case_m input s
      else if c == b'R'
      then net_case_r input s
      else if c == b'E'
      then net_case_e input s
      else if c == 0
      then net_eof (record s { net_input = input })
      else abort
