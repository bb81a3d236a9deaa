-- ===== src/Peer/Short/Delivered.antt =====
-- Both peers together.
use tox_defragmenter.Prelude.{
  ℕ, ◌+◌, ◌^◌, ◌≤◌, ◌<◌, [], ◌∷◌, ◌++◌, Bytes, Bool, true, false, ◌≡◌, ◌≢◌, ◌∙◌, refl, sym, ap,
  arith, length, take, take_all, u32, List, subst,
}
use tox_defragmenter.Marker.{marker_exists}
use tox_defragmenter.Database.Types.{DataRow}
use tox_defragmenter.Peer.Outcome.{done}
use tox_defragmenter.Peer.Packets.{QueuedPacket, packet_create_message, packet_create_receipt}
use tox_defragmenter.Peer.Packets.Fifo.{IsQueue}
use tox_defragmenter.Peer.Output.{on_any_wr}
use tox_defragmenter.Peer.State.{TestPeer}
use tox_defragmenter.Peer.Events.{on_iface_rd, net_message, on_net_rd}
use tox_defragmenter.Peer.Growth.{Holds, Holds-same}
use tox_defragmenter.Peer.Wire.{IsText, IsReadable, on_net_rd-on_any_wr}
use tox_defragmenter.Peer.Short.{line, on_iface_rd-line, iface_message_short, net_message_plain}

-- What stands in the queues for a message is the message itself.
take_whole : (m : Bytes) → take (length m) m ≡ m
take_whole m = take_all (length m) m (omega arith)

abbrev sent_packet : (m : Bytes) (id : ℕ) → QueuedPacket
sent_packet m id = packet_create_message m (length m) id

sent_packet-IsReadable :
    (m : Bytes) (id : ℕ) → IsText m → id < 2 ^ 32 → IsReadable (sent_packet m id)
sent_packet-IsReadable m id text small = record {
  message = (subst IsText (sym (take_whole m)) text, ap length (sym (take_whole m)));
  msg_id_fits = small;
  receipt_fits = omega arith;
  count_fits = omega arith;
}

line_of_any :
    (my : ℕ) (m : Bytes)
    → on_any_wr false my (packet_create_message (take (length m) m) (length (take (length m) m)) 0)
      ≡ line m
unfolding on_any_wr
line_of_any my m = rw (take_whole m, take_whole m) refl

module _ (my_a his_a : ℕ) (clock_a : ℕ → ℕ) (new_rowid_a : List DataRow → ℕ) (my_b his_b : ℕ)
    (clock_b : ℕ → ℕ) (new_rowid_b : List DataRow → ℕ) where
  -- A line `M length message` that a peer reads from its interface, the message being without a byte 0,
  -- without a marker and not longer than the greatest length, becomes one packet behind its queue to
  -- the net, under the next number, which is not 0. When the other peer reads the text of this packet
  -- from the net, a packet whose text is the same line comes behind its queue to the interface, and a
  -- receipt with the number of the packet behind its queue to the net. Both peers take just their text
  -- from the stream, and nothing is aborted.
  pub short_message-delivered :
      (m rest_a rest_b : Bytes) (a b : TestPeer) (ps qs : Bool → List QueuedPacket)
      → IsText m
      → length m ≤ a.lib.params.max_message_length
      → marker_exists m (length m) ≡ false
      → u32 (a.msg_id_net + 1) ≢ 0
      → my_a < 2 ^ 32
      → Holds a ps
      → Holds b qs
      → let id = u32 (a.msg_id_net + 1) in
        (p : QueuedPacket) × (r : QueuedPacket) × (a' : TestPeer) × (b' : TestPeer) × (on_iface_rd
            my_a his_a clock_a new_rowid_a
            (record a { iface_input = line m ++ rest_a })
          ≡ done a')
        × (a'.iface_input ≡ rest_a)
        × IsQueue a'.net_out (ps true ++ p ∷ [])
        × (on_net_rd my_b his_b clock_b new_rowid_b
              (record b { net_input = on_any_wr true my_a p ++ rest_b })
            ≡ done b')
        × (b'.net_input ≡ rest_b)
        × IsQueue b'.iface_out (qs false ++ r ∷ [])
        × (on_any_wr false my_b r ≡ line m)
        × IsQueue b'.net_out (qs true ++ packet_create_receipt id ∷ [])
  short_message-delivered m rest_a rest_b a b ps qs text fits plain given low ha hb =
      let id : ℕ = u32 (a.msg_id_net + 1) in
      let (a', ea, ia, qa) =
        iface_message_short my_a his_a clock_a new_rowid_a m (record a { iface_input = rest_a })
          (ps true) text fits plain given (ha true) in
      let (b', eb, ib, qi, qn) =
        net_message_plain my_b his_b clock_b new_rowid_b my_a id m (record b { net_input = rest_b })
          qs text plain (Holds-same b (record b { net_input = rest_b }) qs refl refl hb) in
      let reads =
        on_net_rd-on_any_wr my_b his_b clock_b new_rowid_b b rest_b my_a (sent_packet m id) low
          (sent_packet-IsReadable m id text (omega arith)) in
      (
        sent_packet m id,
        packet_create_message (take (length m) m) (length (take (length m) m)) 0,
        a',
        b',
        on_iface_rd-line my_a his_a clock_a new_rowid_a m rest_a a text ∙ ea,
        ia,
        qa,
        reads
            ∙ ap
                (λ (t : Bytes).
                  net_message my_b his_b clock_b new_rowid_b id my_a t
                    (record b { net_input = rest_b }))
                (take_whole m)
            ∙ eb,
        ib,
        qi,
        line_of_any my_b m,
        qn,
      )
