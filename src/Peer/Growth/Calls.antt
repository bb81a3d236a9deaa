-- ===== src/Peer/Growth/Calls.antt =====
-- The calls that the library makes put their packets behind the queues.
use tox_defragmenter.Prelude.{
  arith, ℕ, ◌+◌, ◌-◌, [], ◌∷◌, Bool, refl, List, none, some, length, u32, ltb,
}
use tox_defragmenter.Sender.Channel.{Packet, Event, sent, receipt_given}
use tox_defragmenter.Sender.State.{State}
use tox_defragmenter.Receiver.{ClientMessage}
use tox_defragmenter.Peer.Outcome.{done, bad_access, ◌>>=◌}
use tox_defragmenter.Peer.Outcome.Post.{Post, Post-bind, Post-if}
use tox_defragmenter.Peer.Packets.{
  QueuedPacket, PacketQueue, packet_append, packet_create_receipt, packet_create_message,
}
use tox_defragmenter.Peer.State.{
  TestPeer, base_friend_send_message, front_friend_message, front_read_receipt, note_receipt,
  note_short, note_long, mark, receipts_limit, defrag_receipts_lo, serve, serve_all, calls_between,
  library_goes,
}
use tox_defragmenter.Peer.Growth.{
  Holds, Grown, Grown-start, Grown-same, Grown-then, Grown-net, Grown-iface, append_net-Grown,
  append_iface-Grown,
}

serve_sent :
    (p : Packet) (s : TestPeer) (ps : Bool → List QueuedPacket)
    → Holds s ps
    → Post (Grown s ps) (base_friend_send_message p s)
unfolding base_friend_send_message
serve_sent p s ps h =
    elim p.bytes
      as (λ b. Post (Grown s ps) (elim b [
        | none ↦ bad_access
        | some message ↦
            packet_append (packet_create_message message p.size (u32 (s.msg_id_net + 1))) s.net_out
            >>= λ (q : PacketQueue).
                done (record s { net_out = q; msg_id_net = u32 (s.msg_id_net + 1) })
      ])) [
        | none ↦ tt
        | some message ↦
            append_net-Grown (packet_create_message message p.size (u32 (s.msg_id_net + 1))) s ps _
              h
              (λ q hq.
                Grown-net s ps _ q (record s { msg_id_net = u32 (s.msg_id_net + 1) }) refl refl refl
                  (omega arith) refl h hq)
      ]

pub front_friend_message-Grown :
    (m : ClientMessage) (s : TestPeer) (ps : Bool → List QueuedPacket)
    → Holds s ps
    → Post (Grown s ps) (front_friend_message m s)
unfolding front_friend_message
front_friend_message-Grown m s ps h =
    append_iface-Grown (packet_create_message m.message (length m.message) 0) s ps _ h (λ q hq.
      Grown-iface s ps _ q (record s { net_received_messages = u32 (s.net_received_messages + 1) })
        refl refl refl (omega arith) refl h hq)

note_short-Grown :
    (i : ℕ) (s : TestPeer) (ps : Bool → List QueuedPacket)
    → Holds s ps
    → Post (Grown s ps) (note_short i s)
unfolding note_short
note_short-Grown i s ps h =
    Post-if (Grown s ps) (ltb i receipts_limit)
      (done (record s { net_received_receipts_short = mark i s.net_received_receipts_short }))
      bad_access (Grown-same s ps _ refl refl refl refl refl refl h) tt

note_long-Grown :
    (i : ℕ) (s : TestPeer) (ps : Bool → List QueuedPacket)
    → Holds s ps
    → Post (Grown s ps) (note_long i s)
unfolding note_long
note_long-Grown i s ps h =
    Post-if (Grown s ps) (ltb i receipts_limit)
      (done (record s { net_received_receipts_long = mark i s.net_received_receipts_long }))
      bad_access (Grown-same s ps _ refl refl refl refl refl refl h) tt

note_receipt-Grown :
    (i : ℕ) (s : TestPeer) (ps : Bool → List QueuedPacket)
    → Holds s ps
    → Post (Grown s ps) (note_receipt i s)
unfolding note_receipt
note_receipt-Grown i s ps h =
    Post-if (Grown s ps) (ltb i defrag_receipts_lo) (note_short i s)
      (note_long (i - defrag_receipts_lo) s) (note_short-Grown i s ps h)
      (note_long-Grown (i - defrag_receipts_lo) s ps h)

front_read_receipt-Grown :
    (i : ℕ) (s : TestPeer) (ps : Bool → List QueuedPacket)
    → Holds s ps
    → Post (Grown s ps) (front_read_receipt i s)
unfolding front_read_receipt
front_read_receipt-Grown i s ps h =
    Post-bind (Grown s ps) (Grown s ps) (note_receipt i s) _ (note_receipt-Grown i s ps h)
      (λ noted g. Grown-then s ps noted g _ (
        append_iface-Grown (packet_create_receipt i) noted _ _ g.queue
          (λ q hq. Grown-iface noted _ _ q noted refl refl refl (omega arith) refl g.queue hq)))

serve-Grown :
    (e : Event) (s : TestPeer) (ps : Bool → List QueuedPacket)
    → Holds s ps
    → Post (Grown s ps) (serve e s)
unfolding serve
serve-Grown (sent p) s ps h = serve_sent p s ps h
serve-Grown (receipt_given friend receipt) s ps h = front_read_receipt-Grown receipt s ps h

serve_all-Grown :
    (es : List Event) (s : TestPeer) (ps : Bool → List QueuedPacket)
    → Holds s ps
    → Post (Grown s ps) (serve_all es s)
unfolding serve_all
serve_all-Grown [] s ps h = Grown-start s ps h
serve_all-Grown (e ∷ es) s ps h =
    Post-bind (Grown s ps) (Grown s ps) (serve_all es s) (serve e) (serve_all-Grown es s ps h)
      (λ s' g. Grown-then s ps s' g _ (serve-Grown e s' _ g.queue))

-- The calls of the library put their packets behind the queues.
pub library_goes-Grown :
    (after : State) (s : TestPeer) (ps : Bool → List QueuedPacket)
    → Holds s ps
    → Post (Grown s ps) (library_goes after s)
unfolding library_goes
library_goes-Grown after s ps h =
    let same = Grown-same s ps (record s { lib = after }) refl refl refl refl refl refl h in
    Grown-then s ps (record s { lib = after }) same _
      (serve_all-Grown (calls_between s.lib after) _ _ same.queue)
