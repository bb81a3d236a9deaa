-- ===== src/Peer/Fragments/Passage.antt =====
-- A long message from the interface of one peer to that of the other.
use tox_defragmenter.Prelude.{
  ℕ, zero, suc, ◌+◌, ◌^◌, ◌≤◌, ◌<◌, [], ◌∷◌, ◌++◌, Bytes, Bool, true, false, ◌≡◌, ◌∙◌, refl, sym,
  ap, arith, length, none, List, map, All, AllDiffer, subst, get_or, u32,
}
use tox_defragmenter.Database.Types.{DataRow}
use tox_defragmenter.Database.Statements.{find_meta, find_data}
use tox_defragmenter.Marker.{marker_exists}
use tox_defragmenter.Sender.Types.{Fragment}
use tox_defragmenter.Sender.Send.{no_fragment}
use tox_defragmenter.Receiver.Phase.{IsFinished}
use tox_defragmenter.Receiver.Reassembly.{parts}
use tox_defragmenter.Peer.Outcome.{done}
use tox_defragmenter.Peer.Packets.{QueuedPacket, packet_create_receipt}
use tox_defragmenter.Peer.Packets.Fifo.{IsQueue}
use tox_defragmenter.Peer.Output.{on_any_wr}
use tox_defragmenter.Peer.State.{TestPeer}
use tox_defragmenter.Peer.Events.{on_iface_rd}
use tox_defragmenter.Peer.Growth.{Holds}
use tox_defragmenter.Peer.Wire.{IsText}
use tox_defragmenter.Peer.Short.{line, on_iface_rd-line}
use tox_defragmenter.Peer.Fragments.{packet_with, receipt_for, incoming}
use tox_defragmenter.Peer.Fragments.Reads.{reads}
use tox_defragmenter.Peer.Fragments.Served.{numbers_from}
use tox_defragmenter.Peer.Fragments.Departure.{
  CanSend, next_id, next_message, next_fragments, iface_message_long,
}
use tox_defragmenter.Peer.Fragments.Delivery.{numbered, IsReceiptNumber, long_message-received}

abbrev no_packet : QueuedPacket
no_packet = packet_create_receipt 0

-- The packet at a place of a queue.
abbrev packet_at : List QueuedPacket → ℕ → QueuedPacket
packet_at queued k = get_or queued k no_packet

-- The texts of the packets at some places of a queue, before the rest of the stream.
abbrev pub written : ℕ → Bytes → List QueuedPacket → List ℕ → Bytes
written from rest queued [] = rest
written from rest queued (k ∷ ks) =
    on_any_wr true from (packet_at queued k) ++ written from rest queued ks

-- The receipts for these packets.
abbrev pub receipts_at : List QueuedPacket → List ℕ → List QueuedPacket
receipts_at queued = map (λ k. packet_create_receipt (packet_at queued k).msg_id)

-- The number that the packet at a place gets.
abbrev number_at : ℕ → ℕ → ℕ
number_at n zero = u32 (n + 1)
number_at n (suc k) = number_at (u32 (n + 1)) k

abbrev places : ℕ → List ℕ → List (ℕ × ℕ)
places n [] = []
places n (k ∷ ks) = (number_at n k, k) ∷ places n ks

number_at-lt : (n k : ℕ) → number_at n k < 2 ^ 32
number_at-lt n zero = omega arith
number_at-lt n (suc k) = number_at-lt (u32 (n + 1)) k

places-IsReceiptNumber : (n : ℕ) (ks : List ℕ) → All IsReceiptNumber (places n ks)
places-IsReceiptNumber n [] = tt
places-IsReceiptNumber n (k ∷ ks) = (number_at-lt n k, places-IsReceiptNumber n ks)

parts-places : (n : ℕ) (ks : List ℕ) → parts (places n ks) ≡ ks
parts-places n [] = refl
parts-places n (k ∷ ks) = ap (◌∷◌ k) (parts-places n ks)

length-places : (n : ℕ) (ks : List ℕ) → length (places n ks) ≡ length ks
length-places n [] = refl
length-places n (k ∷ ks) = ap suc (length-places n ks)

length-numbers_from :
    (n : ℕ) (fs : List Fragment) → length (map packet_with (numbers_from n fs)) ≡ length fs
length-numbers_from n [] = refl
length-numbers_from n (f ∷ fs) = ap suc (length-numbers_from (u32 (n + 1)) fs)

packet_at-numbers_from :
    (n k : ℕ) (fs : List Fragment)
    → k < length fs
    → packet_at (map packet_with (numbers_from n fs)) k
      ≡ packet_with (number_at n k, get_or fs k no_fragment)
packet_at-numbers_from n k [] h = elim h [ ]
packet_at-numbers_from n zero (f ∷ fs) h = refl
packet_at-numbers_from n (suc k) (f ∷ fs) h =
    packet_at-numbers_from (u32 (n + 1)) k fs (omega arith)

written-incoming :
    (from n : ℕ) (rest : Bytes) (fs : List Fragment) (ks : List ℕ)
    → All (λ k. k < length fs) ks
    → written from rest (map packet_with (numbers_from n fs)) ks
      ≡ incoming from rest (numbered fs (places n ks))
written-incoming from n rest fs [] i = refl
written-incoming from n rest fs (k ∷ ks) (i, is) =
    rw (packet_at-numbers_from n k fs i, written-incoming from n rest fs ks is) refl

receipts_at-numbered :
    (n : ℕ) (fs : List Fragment) (ks : List ℕ)
    → All (λ k. k < length fs) ks
    → receipts_at (map packet_with (numbers_from n fs)) ks
      ≡ map receipt_for (numbered fs (places n ks))
receipts_at-numbered n fs [] i = refl
receipts_at-numbered n fs (k ∷ ks) (i, is) =
    rw (packet_at-numbers_from n k fs i, receipts_at-numbered n fs ks is) refl

-- What is left to read from the interface does not matter.
CanSend-reads :
    (his : ℕ) (clock : ℕ → ℕ) (s : TestPeer) (m rest : Bytes)
    → CanSend his clock s m
    → CanSend his clock (record s { iface_input = rest }) m
CanSend-reads his clock s m rest can = record {
  started = can.started;
  fits = can.fits;
  id = can.id;
  limit = can.limit;
  room = can.room;
  numbers = can.numbers;
  receipts_pos = can.receipts_pos;
  messages = can.messages;
  receipts = record {
    is_ring = can.receipts.is_ring;
    low = can.receipts.low;
    high = can.receipts.high;
    fits = can.receipts.fits;
    left = can.receipts.left;
  };
  no_meta = can.no_meta;
  no_data = can.no_data;
}

module _ (my_a his_a : ℕ) (clock_a : ℕ → ℕ) (new_rowid_a : List DataRow → ℕ) (my_b his_b : ℕ)
    (clock_b : ℕ → ℕ) (new_rowid_b : List DataRow → ℕ)
    (rowids : (rows : List DataRow) → 1 ≤ new_rowid_b rows) where
  -- A peer reads from its interface a line `M length message`. The message has no byte 0 and no marker,
  -- and is longer than the greatest length, which is more than 63 and less than 2^31. The library of
  -- the peer can send it at once (`CanSend`): it is started, the new id has 13 digits and is not in its
  -- database, all parts have room in transit, receipts are above 0 and one is left, and the numbers of
  -- the packets do not come round to 0. Then one packet for each part comes behind the queue to the net. The other
  -- peer, whose library knows nothing of the message, reads the texts of these packets from the net, in
  -- any order `ks`, each once. Then a packet whose text is the same line comes behind its queue to the
  -- interface, a receipt with the number of each packet comes behind its queue to the net, and its
  -- database keeps of the message only its metadata. Both peers take just their text from the stream,
  -- and nothing is aborted.
  pub long_message-delivered :
      (m rest_a rest_b : Bytes) (a b : TestPeer) (ps qs : Bool → List QueuedPacket) (ks : List ℕ)
      (text : IsText m) (can : CanSend his_a clock_a a m)
      (low : a.lib.params.max_message_length < 2 ^ 31)
      → marker_exists m (length m) ≡ false
      → a.lib.params.max_message_length < length m
      → my_a < 2 ^ 32
      → Holds a ps
      → Holds b qs
      → find_meta 0 my_a (next_id clock_a a) b.lib.db.meta ≡ none
      → find_data 0 my_a (next_id clock_a a) b.lib.db.rows ≡ none
      → AllDiffer ks
      → All (λ k. k < (next_message clock_a a m).num_parts) ks
      → length ks ≡ (next_message clock_a a m).num_parts
      → (queued : List QueuedPacket) × (r : QueuedPacket) × (a' : TestPeer) × (b' : TestPeer)
        × (on_iface_rd my_a his_a clock_a new_rowid_a (record a { iface_input = line m ++ rest_a })
            ≡ done a')
        × (a'.iface_input ≡ rest_a)
        × IsQueue a'.net_out (ps true ++ queued)
        × (length queued ≡ (next_message clock_a a m).num_parts)
        × (reads my_b his_b clock_b new_rowid_b
              (length ks)
              (record b { net_input = written my_a rest_b queued ks })
            ≡ done b')
        × (b'.net_input ≡ rest_b)
        × IsQueue b'.iface_out (qs false ++ r ∷ [])
        × (on_any_wr false my_b r ≡ line m)
        × IsQueue b'.net_out (qs true ++ receipts_at queued ks)
        × IsFinished my_a (next_id clock_a a) b'.lib.db
  long_message-delivered m rest_a rest_b a b ps qs ks text can low plain long known ha hb no_meta
        no_data differ inside all =
      let at : TestPeer = record a { iface_input = rest_a } in
      let can' = CanSend-reads his_a clock_a a m rest_a can in
      let fs = (next_message clock_a a m).fragments in
      let n = a.msg_id_net in
      let queued = map packet_with (numbers_from n fs) in
      let frags = next_fragments my_a his_a clock_a new_rowid_a m at text can' in
      let within : All (λ k. k < length fs) ks =
        subst (λ (l : ℕ). All (λ k. k < l) ks) (sym frags) inside in
      let same : parts (places n ks) ≡ ks = parts-places n ks in
      let (a', ea, ia, qa) =
        iface_message_long my_a his_a clock_a new_rowid_a m at text can' (ps true) plain long
          (ha true) in
      let (b', r, eb, ib, qi, shown, qn, finished) =
        long_message-received my_b his_b clock_b new_rowid_b rowids m
          a.lib.params.max_message_length my_a (next_id clock_a a) can.id can.fits low text.short
          (omega arith) text.no_zero known (places n ks) b qs rest_b hb no_meta no_data
          (places-IsReceiptNumber n ks) (subst AllDiffer (sym same) differ)
          (subst (All (λ k. k < (next_message clock_a a m).num_parts)) (sym same) inside)
          (length-places n ks ∙ all) in
      (
        queued,
        r,
        a',
        b',
        on_iface_rd-line my_a his_a clock_a new_rowid_a m rest_a a text ∙ ea,
        ia,
        qa,
        length-numbers_from n fs ∙ frags,
        ap
              (λ (t : Bytes).
                reads my_b his_b clock_b new_rowid_b (length ks) (record b { net_input = t }))
              (written-incoming my_a n rest_b fs ks within)
            ∙ ap
                (λ (l : ℕ).
                  reads my_b his_b clock_b new_rowid_b l
                    (record b { net_input = incoming my_a rest_b (numbered fs (places n ks)) }))
                (sym (length-places n ks))
            ∙ eb,
        ib,
        qi,
        shown,
        subst (λ (rs : List QueuedPacket). IsQueue b'.net_out (qs true ++ rs))
            (sym (receipts_at-numbered n fs ks within)) qn,
        finished,
      )
