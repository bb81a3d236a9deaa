-- ===== src/Peer/Short.antt =====
-- A message that needs no fragments, from the interface of one peer to that of the other.
pub mod Delivered
use tox_defragmenter.Prelude.{
  ℕ, ◌+◌, ◌-◌, ◌^◌, ◌≤◌, ◌<◌, [], ◌∷◌, ◌++◌, Bytes, Bool, true, false, ◌≡◌, ◌≢◌, ◌∙◌, refl, sym, ap,
  arith, length, length-append, take, take-append_length, take_all, some, u32, leb, List, ◌==◌,
  append_assoc, subst,
}
use tox_defragmenter.Decimal.{decimal}
use tox_defragmenter.Marker.{marker_exists}
use tox_defragmenter.Database.Types.{DataRow, ok}
use tox_defragmenter.Sender.Channel.{Packet, Event, sent, tox_friend_send_message}
use tox_defragmenter.Sender.State.{State}
use tox_defragmenter.Sender.Long.{friend_send_message}
use tox_defragmenter.Receiver.{friend_message_cb}
use tox_defragmenter.Peer.Outcome.{Outcome, done}
use tox_defragmenter.Peer.Packets.{
  QueuedPacket, PacketQueue, packet_append, packet_create_message, packet_create_receipt,
}
use tox_defragmenter.Peer.Packets.Fifo.{IsQueue, packet_append-IsQueue}
use tox_defragmenter.Peer.Input.Numbers.{c_string-All}
use tox_defragmenter.Peer.Output.{limited, on_any_wr}
use tox_defragmenter.Peer.State.{
  TestPeer, base_tox, base_friend_send_message, front_friend_message, serve, serve_all,
  library_goes,
}
use tox_defragmenter.Peer.Events.{iface_message, on_iface_rd, net_message, on_net_rd}
use tox_defragmenter.Peer.Growth.{Holds, Holds-same}
use tox_defragmenter.Peer.Wire.{
  IsText, IsReadable, limited-IsText, iface_case_m-text, on_net_rd-on_any_wr,
}

-- The calls made since a state are those that stand before its own.
pub calls_since : (es old : List Event) → take (length (es ++ old) - length old) (es ++ old) ≡ es
calls_since es old =
    let n : length (es ++ old) - length old ≡ length es = omega (arith, length-append es old) in
    rw (n, take-append_length es old)

-- The line that stands for a message on the interface.
abbrev pub line : Bytes → Bytes
line m = on_any_wr false 0 (packet_create_message m (length m) 0)

module _ (my his : ℕ) (clock : ℕ → ℕ) (new_rowid : List DataRow → ℕ) where
  pub on_iface_rd-line :
      (m rest : Bytes) (s : TestPeer)
      → IsText m
      → on_iface_rd my his clock new_rowid (record s { iface_input = line m ++ rest })
        ≡ iface_message my his clock new_rowid m (record s { iface_input = rest })
  unfolding on_iface_rd on_any_wr
  on_iface_rd-line m rest s text =
      ap reads (
        ap (λ (t : Bytes). b' ' ∷ (decimal (length m) ++ b' ' ∷ (t ++ b'\n' ∷ [])) ++ rest)
          (ap (limited (length m)) (take_all (length m) m (omega arith)) ∙ limited-IsText m text)
        ∙ ap (λ (t : Bytes). b' ' ∷ t)
            (append_assoc (decimal (length m)) _ rest
              ∙ ap (λ (t : Bytes). decimal (length m) ++ b' ' ∷ t) (append_assoc m _ rest)))
      ∙ iface_case_m-text my his clock new_rowid s rest m text.short
    where
      reads : Bytes → Outcome TestPeer
      reads input = on_iface_rd my his clock new_rowid (record s { iface_input = b'M' ∷ input })

  -- The packet of a short message, and the state of the library behind its call.
  abbrev packet_for : Bytes → Packet
  packet_for m = record { friend_number = his; type = 0; size = length m; bytes = some m }

  abbrev lib_after : Bytes → TestPeer → State
  lib_after m s = record (s.lib) {
    channel = record (s.lib.channel) {
      events = sent (packet_for m) ∷ s.lib.channel.events;
      sends = s.lib.channel.sends + 1;
    };
  }

  send_short :
      (m : Bytes) (s : TestPeer)
      → length m ≤ s.lib.params.max_message_length
      → marker_exists m (length m) ≡ false
      → friend_send_message (base_tox clock s) new_rowid his 0 m s.lib
        ≡ ok (u32 (s.msg_id_net + (s.lib.channel.sends - s.lib.channel.sends) + 1), lib_after m s)
  unfolding friend_send_message tox_friend_send_message
  send_short m s fits plain =
      let ready : leb (length m) s.lib.params.max_message_length ≡ true = ground arith in
      rw (plain, ready) refl

  goes_short :
      (m : Bytes) (s : TestPeer) (q : PacketQueue)
      → packet_append (packet_create_message m (length m) (u32 (s.msg_id_net + 1))) s.net_out
        ≡ done q
      → library_goes (lib_after m s) s
        ≡ done (record s { lib = lib_after m s; net_out = q; msg_id_net = u32 (s.msg_id_net + 1) })
  unfolding library_goes serve_all serve base_friend_send_message
  goes_short m s q e =
      ap (λ (es : List Event). serve_all es (record s { lib = lib_after m s }))
        (calls_since (sent (packet_for m) ∷ []) s.lib.channel.events)
      ∙ rw e refl

  -- A peer that reads a short message from its interface sends it as one packet.
  pub iface_message_short :
      (m : Bytes) (s : TestPeer) (ps : List QueuedPacket)
      → IsText m
      → length m ≤ s.lib.params.max_message_length
      → marker_exists m (length m) ≡ false
      → u32 (s.msg_id_net + 1) ≢ 0
      → IsQueue s.net_out ps
      → (s' : TestPeer) × (iface_message my his clock new_rowid m s ≡ done s')
        × (s'.iface_input ≡ s.iface_input)
        × IsQueue s'.net_out
            (ps ++ packet_create_message m (length m) (u32 (s.msg_id_net + 1)) ∷ [])
  unfolding iface_message
  iface_message_short m s ps text fits plain given h =
      let id : (u32 (s.msg_id_net + (s.lib.channel.sends - s.lib.channel.sends) + 1) == 0) ≡ false =
        ground arith in
      let (q, e, h') =
        packet_append-IsQueue (packet_create_message m (length m) (u32 (s.msg_id_net + 1))) ps
          s.net_out h in
      (
        record s {
          lib = lib_after m s;
          net_out = q;
          msg_id_net = u32 (s.msg_id_net + 1);
          msg_id_iface = u32 (s.msg_id_iface + 1);
        },
        rw (c_string-All m text.no_zero, send_short m s fits plain, goes_short m s q e, id) refl,
        refl,
        h',
      )

  -- A peer that reads a packet without a marker from the net gives it to its interface, and a receipt
  -- back.
  pub net_message_plain :
      (from id : ℕ) (m : Bytes) (s : TestPeer) (ps : Bool → List QueuedPacket)
      → IsText m
      → marker_exists m (length m) ≡ false
      → Holds s ps
      → (s' : TestPeer) × (net_message my his clock new_rowid id from m s ≡ done s')
        × (s'.net_input ≡ s.net_input)
        × IsQueue s'.iface_out (
            ps false
            ++ packet_create_message (take (length m) m) (length (take (length m) m)) 0 ∷ [])
        × IsQueue s'.net_out (ps true ++ packet_create_receipt id ∷ [])
  unfolding net_message friend_message_cb front_friend_message
  net_message_plain from id m s ps text plain h =
      let (q, e, hq) =
        packet_append-IsQueue
          (packet_create_message (take (length m) m) (length (take (length m) m)) 0) (ps false)
          s.iface_out (h false) in
      let (q', e', hq') =
        packet_append-IsQueue (packet_create_receipt id) (ps true) s.net_out (h true) in
      (
        record s {
          iface_out = q;
          net_out = q';
          net_received_messages = u32 (s.net_received_messages + 1);
        },
        rw (c_string-All m text.no_zero, plain, e, e') refl,
        refl,
        hq,
        hq',
      )
