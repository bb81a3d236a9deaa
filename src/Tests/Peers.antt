-- ===== src/Tests/Peers.antt =====
-- The test peer at concrete inputs.
use tox_defragmenter.Prelude.{
  ◌++◌, [], ◌∷◌, ◌≡◌, ◌≢◌, ◌≤◌, refl, arith, Bytes, Bool, List, length, some, none, true, false,
  Option, ◌==◌, if◌then◌else◌,
}
use tox_defragmenter.Marker.{marker_exists, marker_parse_fields}
use tox_defragmenter.Peer.Outcome.{done, empty_list}
use tox_defragmenter.Peer.Outcome.Post.{Post}
use tox_defragmenter.Peer.Packets.{
  QueuedPacket, PacketQueue, packet_append, take_front, empty_queue, packet_create_receipt,
}
use tox_defragmenter.Peer.Packets.Fifo.{IsQueue, ends, append-take_front}
use tox_defragmenter.Peer.Output.{on_any_wr}
use tox_defragmenter.Peer.State.{TestPeer}
use tox_defragmenter.Peer.Events.{on_iface_rd, on_net_rd}
use tox_defragmenter.Peer.Growth.{Holds, output_of}
use tox_defragmenter.Peer.Loop.{Ready, loop3, received_all_receipts}
use tox_defragmenter.Peer.Loop.Ledger.{Ledger, texts}
use tox_defragmenter.Peer.Loop.Runs.{turns, loop3-Ledger}
use tox_defragmenter.Peer.Loop.Drains.{loop3-drains}
use tox_defragmenter.Peer.Loop.Counting.{marked, received_all_receipts-blind}
use tox_defragmenter.Peer.Main.{main, main_params, main-ne-empty_list}
use tox_defragmenter.Peer.Wire.{IsText, IsReadable, handled, on_net_rd-on_any_wr}
use tox_defragmenter.Peer.Short.{line}
use tox_defragmenter.Peer.Short.Delivered.{short_message-delivered}
use tox_defragmenter.Tests.Data.{empty_db, clock, peer, no_packets, peer-Holds, fresh_rowid}

abbrev hello : Bytes
hello = b'h' ∷ b'e' ∷ b'y' ∷ []

hello-IsText : IsText hello
hello-IsText = record {
  short = omega arith;
  no_zero = (
    λ e. absurd (omega (arith, e)),
    (λ e. absurd (omega (arith, e)), (λ e. absurd (omega (arith, e)), tt)),
  );
}

hello_plain : marker_exists hello (length hello) ≡ false
unfolding marker_exists marker_parse_fields
hello_plain = refl

short_message-delivered_example :
    (p : QueuedPacket) × (r : QueuedPacket) × (a' : TestPeer) × (b' : TestPeer) × (on_iface_rd 1 5
        clock fresh_rowid
        (record peer { iface_input = line hello ++ b'E' ∷ [] })
      ≡ done a')
    × (a'.iface_input ≡ b'E' ∷ [])
    × IsQueue a'.net_out (p ∷ [])
    × (on_net_rd 5 1 clock fresh_rowid (record peer { net_input = on_any_wr true 1 p ++ [] })
        ≡ done b')
    × (b'.net_input ≡ [])
    × IsQueue b'.iface_out (r ∷ [])
    × (on_any_wr false 5 r ≡ line hello)
    × IsQueue b'.net_out (packet_create_receipt 8 ∷ [])
short_message-delivered_example =
    short_message-delivered 1 5 clock fresh_rowid 5 1 clock fresh_rowid hello (b'E' ∷ []) [] peer
      peer no_packets no_packets hello-IsText (omega arith) hello_plain
      (λ e. absurd (omega (arith, e))) (omega arith) peer-Holds peer-Holds

append-take_front_example :
    let r = packet_create_receipt 3 in
    (q' : PacketQueue) × (q'' : PacketQueue) × (x : QueuedPacket) × (ys : List QueuedPacket)
    × (packet_append r empty_queue ≡ done q')
    × IsQueue q' (r ∷ [])
    × (take_front q' ≡ done (x, q''))
    × (r ∷ [] ≡ x ∷ ys)
    × IsQueue q'' ys
append-take_front_example =
    append-take_front (packet_create_receipt 3) [] empty_queue (refl, omega arith)

-- The interface can be read and the net written: a message is read and sent, then the end.
abbrev turn : Option Ready
turn = some (record { iface_rd = true; net_rd = false; iface_wr = false; net_wr = true })

abbrev talking : TestPeer
talking = record peer { iface_input = line hello ++ b'E' ∷ b'\n' ∷ [] }

main-ne-empty_list_example :
    main 1 5 clock fresh_rowid
      (main_params 75 10 1000)
      (some empty_db)
      (line hello ++ b'E' ∷ b'\n' ∷ [])
      []
      (turn ∷ turn ∷ [])
    ≢ empty_list
main-ne-empty_list_example =
    main-ne-empty_list 1 5 clock fresh_rowid (main_params 75 10 1000) (some empty_db)
      (line hello ++ b'E' ∷ b'\n' ∷ []) [] (turn ∷ turn ∷ [])

-- One receipt stands in the queue to the net.
abbrev waiting : PacketQueue
waiting = record {
  memory =
      λ a. if a == 1 then some (record { packet = packet_create_receipt 3; next = 0 }) else none;
  fresh = 2;
  first = 1;
  last = 1;
}

abbrev one_receipt : Bool → List QueuedPacket
one_receipt true = packet_create_receipt 3 ∷ []
one_receipt false = []

waiting-Holds : Holds (record peer { net_out = waiting }) one_receipt
waiting-Holds true = ends {x = packet_create_receipt 3} refl (omega arith) (omega arith) refl
waiting-Holds false = (refl, omega arith)

-- A message comes in behind the receipt.
abbrev busy : TestPeer
busy = record talking { net_out = waiting }

busy-Holds : Holds busy one_receipt
busy-Holds true = ends {x = packet_create_receipt 3} refl (omega arith) (omega arith) refl
busy-Holds false = (refl, omega arith)

loop3-Ledger_example :
    Post
      (Ledger 1 (turns (turn ∷ turn ∷ [])) busy one_receipt)
      (loop3 1 5 clock fresh_rowid (turn ∷ turn ∷ []) busy)
loop3-Ledger_example =
    loop3-Ledger 1 5 clock fresh_rowid (turn ∷ turn ∷ []) busy one_receipt busy-Holds

abbrev writing : List (Option Ready)
writing = some (record { iface_rd = false; net_rd = false; iface_wr = true; net_wr = true }) ∷ []

enough_turns : (net : Bool) → length (one_receipt net) ≤ turns writing net
enough_turns true = omega arith
enough_turns false = omega arith

loop3-drains_example :
    (s' : TestPeer) × (loop3 1 5 clock fresh_rowid writing (record peer { net_out = waiting })
      ≡ done s')
    × ((net : Bool)
        → output_of net s'
          ≡ output_of net (record peer { net_out = waiting }) ++ texts net 1 (one_receipt net))
    × Holds s' (λ _. [])
loop3-drains_example =
    loop3-drains 1 5 clock fresh_rowid writing (record peer { net_out = waiting }) one_receipt
      waiting-Holds ((refl, refl), tt) enough_turns

receipt-IsReadable : IsReadable (packet_create_receipt 3)
receipt-IsReadable = record {
  message = tt;
  msg_id_fits = omega arith;
  receipt_fits = omega arith;
  count_fits = omega arith;
}

on_net_rd-on_any_wr_example :
    on_net_rd 5 1 clock fresh_rowid
      (record peer { net_input = on_any_wr true 1 (packet_create_receipt 3) ++ b'E' ∷ [] })
    ≡ handled 5 1 clock fresh_rowid peer (b'E' ∷ []) 1 (packet_create_receipt 3)
on_net_rd-on_any_wr_example =
    on_net_rd-on_any_wr 5 1 clock fresh_rowid peer (b'E' ∷ []) 1 (packet_create_receipt 3)
      (omega arith) receipt-IsReadable

-- Of two messages the first has its receipt among the short ones, the second among the long ones.
abbrev both_noted : TestPeer
both_noted = record peer {
  msg_id_iface = 2;
  net_received_receipts_short = λ i. i == 1;
  net_received_receipts_long = λ i. i == 2;
}

received_all_receipts-blind_example :
    received_all_receipts (marked peer 8) ≡ received_all_receipts peer
received_all_receipts-blind_example = received_all_receipts-blind peer 8 (omega arith)
