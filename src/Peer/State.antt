-- ===== src/Peer/State.antt =====
-- The static data of test-peer.c, the base functions that the library calls, and the callbacks by which
-- it answers.
use tox_defragmenter.Prelude.{
  ℕ, ◌+◌, ◌-◌, ◌*◌, [], ◌∷◌, Bytes, Bool, true, ◌==◌, ltb, if◌then◌else◌, u32, length, take, List,
  none, some,
}
use tox_defragmenter.Sender.Channel.{Tox, Packet, Event, sent, receipt_given}
use tox_defragmenter.Sender.State.{State}
use tox_defragmenter.Receiver.{ClientMessage}
use tox_defragmenter.Peer.Outcome.{Outcome, done, bad_access, ◌>>=◌}
use tox_defragmenter.Peer.Packets.{
  PacketQueue, packet_append, packet_create_message, packet_create_receipt,
}

-- The library's own data are `lib`. The four streams are the bytes still to be read and the bytes
-- written so far. The arrays of receipts tell which entries are set.
pub record TestPeer : Type 0 where
  pub lib : State
  pub iface_out : PacketQueue
  pub net_out : PacketQueue
  pub saw_iface_eof : Bool
  pub saw_net_eof : Bool
  pub saw_net_end_signal : Bool
  pub net_expect_messages : ℕ
  pub net_received_messages : ℕ
  pub net_received_receipts_short : ℕ → Bool
  pub net_received_receipts_long : ℕ → Bool
  pub msg_id_iface : ℕ
  pub msg_id_net : ℕ
  pub iface_input : Bytes
  pub net_input : Bytes
  pub iface_output : Bytes
  pub net_output : Bytes

-- DEFRAG_RECEIPTS_LO, and the size of the arrays.
abbrev pub defrag_receipts_lo : ℕ
defrag_receipts_lo = 0x10000000

abbrev pub receipts_limit : ℕ
receipts_limit = 1024 * 1024

unfoldable pub mark : ℕ → (ℕ → Bool) → ℕ → Bool
mark i received j = if j == i then true else received j

-- `base_friend_send_message`: `memcpy` reads the message, which must not be NULL.
unfoldable pub base_friend_send_message : Packet → TestPeer → Outcome TestPeer
base_friend_send_message p s = elim p.bytes [
  | none ↦ bad_access
  | some message ↦
      packet_append (packet_create_message message p.size (u32 (s.msg_id_net + 1))) s.net_out
      >>= λ (q : PacketQueue). done (record s { net_out = q; msg_id_net = u32 (s.msg_id_net + 1) })
]

-- What the library sees of `apiBase` from here on: each packet gets the next `msgIdNet`, and the friend
-- is always online.
abbrev pub base_tox : (ℕ → ℕ) → TestPeer → Tox
base_tox clock s = record {
  reply = λ k p. u32 (s.msg_id_net + (k - s.lib.channel.sends) + 1);
  online = λ _ _. true;
  clock = clock;
}

unfoldable pub front_friend_message : ClientMessage → TestPeer → Outcome TestPeer
front_friend_message m s =
    packet_append (packet_create_message m.message (length m.message) 0) s.iface_out
    >>= λ (q : PacketQueue).
        done (record s { iface_out = q; net_received_messages = u32 (s.net_received_messages + 1) })

-- A number that is not below the size of its array is written behind it.
unfoldable pub note_short : ℕ → TestPeer → Outcome TestPeer
note_short i s =
    if ltb i receipts_limit
    then done (record s { net_received_receipts_short = mark i s.net_received_receipts_short })
    else bad_access

unfoldable pub note_long : ℕ → TestPeer → Outcome TestPeer
note_long i s =
    if ltb i receipts_limit
    then done (record s { net_received_receipts_long = mark i s.net_received_receipts_long })
    else bad_access

unfoldable pub note_receipt : ℕ → TestPeer → Outcome TestPeer
unfolding note_short note_long
note_receipt message_id s =
    if ltb message_id defrag_receipts_lo
    then note_short message_id s
    else note_long (message_id - defrag_receipts_lo) s

unfoldable pub front_read_receipt : ℕ → TestPeer → Outcome TestPeer
unfolding note_receipt
front_read_receipt message_id s = note_receipt message_id s >>= λ (noted : TestPeer).
    packet_append (packet_create_receipt message_id) noted.iface_out >>= λ (q : PacketQueue).
    done (record noted { iface_out = q })

-- A call that the library makes.
unfoldable pub serve : Event → TestPeer → Outcome TestPeer
unfolding base_friend_send_message front_read_receipt
serve (sent p) s = base_friend_send_message p s
serve (receipt_given friend receipt) s = front_read_receipt receipt s

-- The calls are listed with the last one first.
unfoldable pub serve_all : List Event → TestPeer → Outcome TestPeer
unfolding serve
serve_all [] s = done s
serve_all (e ∷ es) s = serve_all es s >>= serve e

-- The calls that were made between two states of the library.
abbrev pub calls_between : State → State → List Event
calls_between before after =
    take (length after.channel.events - length before.channel.events) after.channel.events

-- The library goes to a new state. Nothing that it reads is changed by the calls it makes on the way,
-- so that they are served behind it.
unfoldable pub library_goes : State → TestPeer → Outcome TestPeer
unfolding serve_all
library_goes after s = serve_all (calls_between s.lib after) (record s { lib = after })
