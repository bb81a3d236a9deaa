-- ===== src/Peer/Fragments/Delivery.antt =====
-- A long message over the net: its fragments are read, in any order, and the message goes to the
-- interface.
use tox_defragmenter.Prelude.{
  ℕ, zero, suc, ◌+◌, ◌^◌, ◌≤◌, ◌<◌, [], ◌∷◌, ◌++◌, Bytes, Bool, true, false, ◌≡◌, ◌∙◌, refl, sym,
  ap, arith, length, none, List, map, All, AllDiffer, subst, get_or,
}
use tox_defragmenter.Database.Types.{DataRow, Db, Result, ok, aborted}
use tox_defragmenter.Database.Statements.{find_meta, find_data}
use tox_defragmenter.Marker.RoundTrip.{IsMarkerId}
use tox_defragmenter.Sender.Types.{Fragment}
use tox_defragmenter.Sender.Send.{no_fragment}
use tox_defragmenter.Sender.Split.{split_message, marker_max_size_ever}
use tox_defragmenter.Sender.Split.Correct.{
  AllReadBack, message_pieces, split_message-pieces, split_message-AllReadBack,
}
use tox_defragmenter.Receiver.{ClientMessage}
use tox_defragmenter.Receiver.Phase.{IsFinished}
use tox_defragmenter.Receiver.Reassembly.{Delivered, arrivals, parts, receive_all}
use tox_defragmenter.Receiver.Delivery.{split_message-delivers}
use tox_defragmenter.Peer.Outcome.{done}
use tox_defragmenter.Peer.Packets.{QueuedPacket}
use tox_defragmenter.Peer.Packets.Fifo.{IsQueue}
use tox_defragmenter.Peer.Output.{on_any_wr}
use tox_defragmenter.Peer.State.{TestPeer}
use tox_defragmenter.Peer.Growth.{Holds}
use tox_defragmenter.Peer.Short.{line}
use tox_defragmenter.Peer.Fragments.{
  IsCarried, CarriedWith, packet_for, receipt_for, incoming, stamped,
}
use tox_defragmenter.Peer.Fragments.Reads.{reads, reads-Took}
use tox_defragmenter.Peer.Fragments.Message.{NoZero, split_message-IsCarried}

-- The fragments in the order of their packets: the number of each packet, and the place of its fragment.
abbrev pub numbered : List Fragment → List (ℕ × ℕ) → List (ℕ × Fragment)
numbered fs [] = []
numbered fs ((n, k) ∷ nks) = (n, get_or fs k no_fragment) ∷ numbered fs nks

-- The times of the clock beside the places.
abbrev timed : (ℕ → ℕ) → ℕ → List (ℕ × ℕ) → List (ℕ × ℕ)
timed clock r [] = []
timed clock r ((n, k) ∷ nks) = (clock r, k) ∷ timed clock (r + 1) nks

abbrev pub IsReceiptNumber : ℕ × ℕ → Type 0
IsReceiptNumber (n, k) = n < 2 ^ 32

stamped-numbered :
    (clock : ℕ → ℕ) (r : ℕ) (fs : List Fragment) (nks : List (ℕ × ℕ))
    → stamped clock r (numbered fs nks) ≡ arrivals fs (timed clock r nks)
stamped-numbered clock r fs [] = refl
stamped-numbered clock r fs ((n, k) ∷ nks) =
    ap (◌∷◌ (clock r, get_or fs k no_fragment)) (stamped-numbered clock (r + 1) fs nks)

parts-timed : (clock : ℕ → ℕ) (r : ℕ) (nks : List (ℕ × ℕ)) → parts (timed clock r nks) ≡ parts nks
parts-timed clock r [] = refl
parts-timed clock r ((n, k) ∷ nks) = ap (◌∷◌ k) (parts-timed clock (r + 1) nks)

length-timed :
    (clock : ℕ → ℕ) (r : ℕ) (nks : List (ℕ × ℕ)) → length (timed clock r nks) ≡ length nks
length-timed clock r [] = refl
length-timed clock r ((n, k) ∷ nks) = ap suc (length-timed clock (r + 1) nks)

length-numbered : (fs : List Fragment) (nks : List (ℕ × ℕ)) → length (numbered fs nks) ≡ length nks
length-numbered fs [] = refl
length-numbered fs ((n, k) ∷ nks) = ap suc (length-numbered fs nks)

get_or-IsCarried :
    (fs : List Fragment) (k : ℕ)
    → All IsCarried fs
    → k < length fs
    → IsCarried (get_or fs k no_fragment)
get_or-IsCarried [] k c h = elim h [ ]
get_or-IsCarried (f ∷ fs) zero (c, cs) h = c
get_or-IsCarried (f ∷ fs) (suc k) (c, cs) h = get_or-IsCarried fs k cs (omega arith)

numbered-CarriedWith :
    (fs : List Fragment) (nks : List (ℕ × ℕ))
    → All IsCarried fs
    → All IsReceiptNumber nks
    → All (λ k. k < length fs) (parts nks)
    → All CarriedWith (numbered fs nks)
numbered-CarriedWith fs [] c n i = tt
numbered-CarriedWith fs ((m, k) ∷ nks) c (n, ns) (i, is) =
    ((get_or-IsCarried fs k c i, n), numbered-CarriedWith fs nks c ns is)

Delivered-ok :
    (friend type id : ℕ) (message : Bytes) (res : Result (Db × List ClientMessage))
    → Delivered friend type id message res
    → (db : Db) × IsFinished friend id db
      × (res ≡ ok (db, record { friend_number = friend; type = type; message = message } ∷ []))
Delivered-ok friend type id message aborted d = absurd d
Delivered-ok friend type id message (ok (db, ms)) (finished, e) = (db, finished, rw e refl)

pub length-AllReadBack :
    (max_length id num_parts total : ℕ) (ps : List Bytes) (fs : List Fragment) (part_no off : ℕ)
    → AllReadBack max_length id num_parts total part_no off ps fs
    → length fs ≡ length ps
length-AllReadBack max_length id num_parts total [] fs part_no off e = ap length e
length-AllReadBack max_length id num_parts total (p ∷ ps) [] part_no off a = absurd a
length-AllReadBack max_length id num_parts total (p ∷ ps) (f ∷ fs) part_no off (r, a) =
    ap suc (length-AllReadBack max_length id num_parts total ps fs (part_no + 1) (off + length p) a)

module _ (my his : ℕ) (clock : ℕ → ℕ) (new_rowid : List DataRow → ℕ)
    (rowids : (rows : List DataRow) → 1 ≤ new_rowid rows) where
  -- A message of at least one byte and none of them 0 is cut up with a marker id that is in range and a
  -- greatest length of more than 63 bytes. A peer whose library knows nothing of the message reads the
  -- fragments from the net, in any order, each once, as packets of a friend under any numbers: `nks`
  -- lists for each packet its number and the place of its fragment. Then nothing is aborted, just the
  -- packets are taken from the stream, one packet comes behind the queue to the interface, whose text is
  -- the line of exactly this message, a receipt for each packet comes behind the queue to the net, in
  -- the same order, and the database keeps of the message only its metadata.
  pub long_message-received :
      (message : Bytes) (max_length from id : ℕ) (h : IsMarkerId id) (hm : 63 < max_length)
      (low : max_length < 2 ^ 31) (hl : length message < 2 ^ 31) (hn : 1 ≤ length message)
      (z : NoZero message) (known : from < 2 ^ 32) (nks : List (ℕ × ℕ)) (s : TestPeer)
      (ps : Bool → List QueuedPacket) (rest : Bytes) (holds : Holds s ps)
      (no_meta : find_meta 0 from id s.lib.db.meta ≡ none)
      (no_data : find_data 0 from id s.lib.db.rows ≡ none) (numbers : All IsReceiptNumber nks)
      (differ : AllDiffer (parts nks))
      (inside : All
        (λ k. k < (split_message marker_max_size_ever message max_length id).num_parts)
        (parts nks))
      (all : length nks ≡ (split_message marker_max_size_ever message max_length id).num_parts)
      → let fs =
          numbered (split_message marker_max_size_ever message max_length id).fragments nks in
        (s' : TestPeer) × (p : QueuedPacket) × (reads my his clock new_rowid
            (length nks)
            (record s { net_input = incoming from rest fs })
          ≡ done s')
        × (s'.net_input ≡ rest)
        × IsQueue s'.iface_out (ps false ++ p ∷ [])
        × (on_any_wr false my p ≡ line message)
        × IsQueue s'.net_out (ps true ++ map receipt_for fs)
        × IsFinished from id s'.lib.db
  unfolding on_any_wr
  long_message-received message max_length from id h hm low hl hn z known nks s ps rest holds
        no_meta no_data numbers differ inside all =
      let msg = split_message marker_max_size_ever message max_length id in
      let (made, whole, fit, count) = split_message-pieces message max_length id h hm hl in
      let frags : length msg.fragments ≡ msg.num_parts =
        length-AllReadBack max_length id msg.num_parts (length message)
          (message_pieces message max_length id h hm hl) msg.fragments 1 0
          (split_message-AllReadBack message max_length id h hm hl)
        ∙ count in
      let fs = numbered msg.fragments nks in
      let r = s.lib.channel.readings in
      let ks = timed clock r nks in
      let same : parts nks ≡ parts ks = sym (parts-timed clock r nks) in
      let delivered =
        split_message-delivers new_rowid rowids message max_length from 0 id h hm hl hn ks s.lib.db
          no_meta no_data (subst AllDiffer same differ)
          (subst (All (λ k. k < msg.num_parts)) same inside) (length-timed clock r nks ∙ all) in
      let (db, finished, came) = Delivered-ok from 0 id message _ delivered in
      let carried = split_message-IsCarried message max_length id h hm low hl z in
      let (s', e, took) =
        reads-Took my his clock new_rowid from fs s ps rest db
          (record { friend_number = from; type = 0; message = message } ∷ []) known
          (numbered-CarriedWith msg.fragments nks carried numbers
            (subst (λ n. All (λ k. k < n) (parts nks)) (sym frags) inside))
          holds
          (ap (λ l. receive_all new_rowid from 0 l s.lib.db)
              (stamped-numbered clock r msg.fragments nks)
            ∙ came) in
      (
        s',
        packet_for (record { friend_number = from; type = 0; message = message }),
        ap (λ n. reads my his clock new_rowid n (record s { net_input = incoming from rest fs }))
              (sym (length-numbered msg.fragments nks))
            ∙ e,
        took.input,
        took.iface_queue,
        refl,
        took.net_queue,
        subst (IsFinished from id) (sym took.database) finished,
      )
