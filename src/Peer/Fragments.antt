-- ===== src/Peer/Fragments.antt =====
-- A peer that reads the fragments of a message from the net.
pub mod Delivery
pub mod Message
pub mod Departure
pub mod Passage
pub mod Reads
pub mod Served
use tox_defragmenter.Prelude.{
  ℕ, zero, suc, ◌+◌, ◌^◌, ◌<◌, [], ◌∷◌, ◌++◌, Bytes, Bool, true, false, ◌≡◌, ◌∙◌, refl, sym, ap,
  arith, length, take, take_all, none, some, if◌then◌else◌, u32, List, Option, map, append_assoc,
  append-nil, All, subst,
}
use tox_defragmenter.Marker.{marker_exists}
use tox_defragmenter.Database.Types.{DataRow, Db, Result, ok, aborted}
use tox_defragmenter.Sender.Types.{Fragment}
use tox_defragmenter.Sender.Channel.{get_curr_time_ms}
use tox_defragmenter.Receiver.{ClientMessage, friend_message_cb}
use tox_defragmenter.Receiver.Reassembly.{receive_all, given}
use tox_defragmenter.Receiver.Wire.{wire}
use tox_defragmenter.Peer.Outcome.{Outcome, done, ◌>>=◌, of_result}
use tox_defragmenter.Peer.Packets.{
  QueuedPacket, PacketQueue, packet_append, packet_create_message, packet_create_receipt,
}
use tox_defragmenter.Peer.Packets.Fifo.{IsQueue, packet_append-IsQueue}
use tox_defragmenter.Peer.Input.{c_string}
use tox_defragmenter.Peer.Input.Numbers.{c_string-All}
use tox_defragmenter.Peer.Output.{on_any_wr}
use tox_defragmenter.Peer.State.{TestPeer, front_friend_message}
use tox_defragmenter.Peer.Events.{deliver, net_message, on_net_rd}
use tox_defragmenter.Peer.Growth.{Holds, Holds-same, queue_of}
use tox_defragmenter.Peer.Wire.{IsText, IsReadable, on_net_rd-on_any_wr}

-- A fragment with a marker that can be told from its text.
pub record IsCarried (f : Fragment) : Type 0 where
  pub text : IsText (wire f)
  pub size : f.size ≡ length (wire f)
  pub marked : marker_exists (wire f) f.size ≡ true

-- The packet that a friend's peer sends for a fragment, under a number.
abbrev pub packet_with : ℕ × Fragment → QueuedPacket
packet_with (id, f) = packet_create_message (wire f) f.size id

-- The packet that stands for a message of the client, and the one for a receipt.
abbrev pub packet_for : ClientMessage → QueuedPacket
packet_for m = packet_create_message m.message (length m.message) 0

abbrev pub receipt_for : ℕ × Fragment → QueuedPacket
receipt_for (id, f) = packet_create_receipt id

-- The text of packets from the friend, before the rest of the stream.
abbrev pub incoming : ℕ → Bytes → List (ℕ × Fragment) → Bytes
incoming from rest [] = rest
incoming from rest (f ∷ fs) = on_any_wr true from (packet_with f) ++ incoming from rest fs

-- The fragments with the times that the clock gives.
abbrev pub stamped : (ℕ → ℕ) → ℕ → List (ℕ × Fragment) → List (ℕ × Fragment)
stamped clock r [] = []
stamped clock r ((id, f) ∷ fs) = (clock r, f) ∷ stamped clock (r + 1) fs

abbrev pub CarriedWith : ℕ × Fragment → Type 0
CarriedWith (id, f) = IsCarried f × (id < 2 ^ 32)

-- What a peer has done with the fragments.
pub record Took (s : TestPeer) (ps : Bool → List QueuedPacket) (readings : ℕ) (db : Db)
    (ms : List ClientMessage) (rs : List QueuedPacket) (rest : Bytes) (s' : TestPeer) : Type 0 where
  pub input : s'.net_input ≡ rest
  pub database : s'.lib.db ≡ db
  pub clocked : s'.lib.channel.readings ≡ readings
  pub iface_queue : IsQueue s'.iface_out (ps false ++ map packet_for ms)
  pub net_queue : IsQueue s'.net_out (ps true ++ rs)

module _ (my his : ℕ) (clock : ℕ → ℕ) (new_rowid : List DataRow → ℕ) where
  deliver-packets :
      (out : Option ClientMessage) (s : TestPeer) (xs : List QueuedPacket)
      → IsQueue s.iface_out xs
      → (s' : TestPeer) × (deliver my his clock new_rowid out s ≡ done s')
        × (s'.lib ≡ s.lib)
        × (s'.net_out ≡ s.net_out)
        × (s'.net_input ≡ s.net_input)
        × IsQueue s'.iface_out (xs ++ map packet_for (given out))
  unfolding front_friend_message
  deliver-packets none s xs h = (s, refl, refl, refl, refl, rw append-nil h)
  deliver-packets (some m) s xs h =
      let (q, e, h') = packet_append-IsQueue (packet_for m) xs s.iface_out h in
      (
        record s { iface_out = q; net_received_messages = u32 (s.net_received_messages + 1) },
        rw e refl,
        refl,
        refl,
        refl,
        h',
      )

  net_message-Took :
      (from id : ℕ) (f : Fragment) (s : TestPeer) (ps : Bool → List QueuedPacket) (db : Db)
      (out : Option ClientMessage)
      → IsCarried f
      → Holds s ps
      → friend_message_cb new_rowid from 0 (wire f) f.size (clock s.lib.channel.readings) s.lib.db
        ≡ ok (db, out)
      → (s' : TestPeer) × (net_message my his clock new_rowid id from (wire f) s ≡ done s')
        × Took s ps
            (s.lib.channel.readings + 1)
            db
            (given out)
            (packet_create_receipt id ∷ [])
            s.net_input
            s'
  unfolding net_message get_curr_time_ms
  net_message-Took from id f s ps db out c h came =
      let stored : TestPeer = record s {
        lib = record (s.lib) {
          db = db;
          channel = record (s.lib.channel) { readings = s.lib.channel.readings + 1 };
        };
      } in
      let (s1, e1, l1, n1, i1, q1) = deliver-packets out stored (ps false) (h false) in
      let (q2, e2, h2) =
        packet_append-IsQueue (packet_create_receipt id) (ps true) s1.net_out (rw n1 (h true)) in
      (
        record s1 { net_out = q2 },
        rw (c_string-All (wire f) c.text.no_zero, ← c.size, came, c.marked, e1, e2) refl,
        record {
          input = i1;
          database = ap (λ l. l.db) l1;
          clocked = ap (λ l. l.channel.readings) l1;
          iface_queue = q1;
          net_queue = h2;
        },
      )
