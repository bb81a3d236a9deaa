-- ===== src/Tests/Passage.antt =====
-- A long message of the test peer at concrete inputs.
use tox_defragmenter.Prelude.{
  ℕ, zero, suc, ◌++◌, [], ◌∷◌, ◌≡◌, ◌<◌, refl, ◌∙◌, arith, List, length, none, false, All,
  AllDiffer, replicate,
}
use tox_defragmenter.Marker.{
  marker_exists, marker_parse, marker_parse_fields, is_marker_char, marker_max_size_bytes,
  num_digits, num_digits_loop,
}
use tox_defragmenter.Database.Statements.{find_meta, find_data}
use tox_defragmenter.Sender.Types.{MsgOutbound}
use tox_defragmenter.Sender.Split.{
  split_message, marker_max_size_ever, reserved, max_piece, size_minus, parts_of,
}
use tox_defragmenter.Receiver.Phase.{IsFinished}
use tox_defragmenter.Peer.Outcome.{done}
use tox_defragmenter.Peer.Packets.{QueuedPacket}
use tox_defragmenter.Peer.Packets.Fifo.{IsQueue}
use tox_defragmenter.Peer.Output.{on_any_wr}
use tox_defragmenter.Peer.State.{TestPeer, base_tox}
use tox_defragmenter.Peer.Events.{on_iface_rd}
use tox_defragmenter.Peer.Wire.{IsText}
use tox_defragmenter.Peer.Short.{line}
use tox_defragmenter.Peer.Fragments.Reads.{reads}
use tox_defragmenter.Peer.Fragments.Message.{NoZero}
use tox_defragmenter.Peer.Fragments.Departure.{CanSend, next_id, next_message}
use tox_defragmenter.Peer.Fragments.Passage.{written, receipts_at, long_message-delivered}
use tox_defragmenter.Sender.State.Ids.{generate_msg_id-max}
use tox_defragmenter.Tests.Data.{
  text, test_id, test_id-IsMarkerId, clock, peer, no_packets, peer-Holds, fresh_rowid,
  fresh_rowid_pos, idle,
}

abbrev msg : MsgOutbound
msg = split_message marker_max_size_ever text 64 test_id

two_parts : msg.num_parts ≡ 2
unfolding split_message reserved max_piece size_minus parts_of marker_max_size_bytes num_digits
    num_digits_loop
two_parts = refl

sevens-NoZero : (n : ℕ) → NoZero (replicate n 7)
sevens-NoZero zero = tt
sevens-NoZero (suc n) = (λ e. absurd (omega (arith, e)), sevens-NoZero n)

new_id : next_id clock peer ≡ test_id
new_id =
    (generate_msg_id-max (base_tox clock peer) idle (omega arith) (omega arith)).0 ∙ omega arith

new_parts : (next_message clock peer text).num_parts ≡ 2
new_parts = rw new_id two_parts

text-IsText : IsText text
text-IsText = record { short = omega arith; no_zero = sevens-NoZero 66 }

text_plain : marker_exists text (length text) ≡ false
unfolding marker_exists marker_parse marker_parse_fields is_marker_char
text_plain = refl

ever_is : idle.ever ≡ marker_max_size_ever
unfolding marker_max_size_bytes num_digits num_digits_loop
ever_is = refl

peer-CanSend : CanSend 1 clock peer text
unfolding find_meta find_data
peer-CanSend = record {
  started = ever_is;
  fits = omega arith;
  id = rw new_id test_id-IsMarkerId;
  limit = omega arith;
  room = omega (arith, new_parts);
  numbers = omega (arith, new_parts);
  receipts_pos = omega arith;
  messages = [];
  receipts = record {
    is_ring = refl;
    low = omega arith;
    high = omega arith;
    fits = omega arith;
    left = omega arith;
  };
  no_meta = refl;
  no_data = refl;
}

-- The second packet comes before the first.
abbrev swapped : List ℕ
swapped = 1 ∷ 0 ∷ []

swapped-AllDiffer : AllDiffer swapped
swapped-AllDiffer = ((λ e. absurd (omega (arith, e)), tt), (tt, tt))

swapped_inside : All (λ k. k < (next_message clock peer text).num_parts) swapped
swapped_inside = (omega (arith, new_parts), (omega (arith, new_parts), tt))

no_meta : find_meta 0 5 (next_id clock peer) idle.db.meta ≡ none
unfolding find_meta
no_meta = refl

no_data : find_data 0 5 (next_id clock peer) idle.db.rows ≡ none
unfolding find_data
no_data = refl

long_message-delivered_example :
    (queued : List QueuedPacket) × (r : QueuedPacket) × (a' : TestPeer) × (b' : TestPeer)
    × (on_iface_rd 5 1 clock fresh_rowid (record peer { iface_input = line text ++ [] }) ≡ done a')
    × (a'.iface_input ≡ [])
    × IsQueue a'.net_out queued
    × (length queued ≡ (next_message clock peer text).num_parts)
    × (reads 1 5 clock fresh_rowid 2
          (record peer { net_input = written 5 (b'E' ∷ []) queued swapped })
        ≡ done b')
    × (b'.net_input ≡ b'E' ∷ [])
    × IsQueue b'.iface_out (r ∷ [])
    × (on_any_wr false 1 r ≡ line text)
    × IsQueue b'.net_out (receipts_at queued swapped)
    × IsFinished 5 (next_id clock peer) b'.lib.db
long_message-delivered_example =
    long_message-delivered 5 1 clock fresh_rowid 1 5 clock fresh_rowid fresh_rowid_pos text []
      (b'E' ∷ []) peer peer no_packets no_packets swapped text-IsText peer-CanSend (omega arith)
      text_plain (omega arith) (omega arith) peer-Holds peer-Holds no_meta no_data swapped-AllDiffer
      swapped_inside (omega (arith, new_parts))
