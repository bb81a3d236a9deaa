-- ===== src/Peer/Fragments/Departure.antt =====
-- A long message from the interface of a peer: its fragments go behind the queue to the net.
use mathlib.Core.List.{flatten}
use tox_defragmenter.Prelude.{
  ℕ, ◌+◌, ◌^◌, ◌≤◌, ◌<◌, [], ◌∷◌, ◌++◌, Bytes, false, ◌≡◌, ◌∙◌, refl, sym, ap, arith, length, List,
  map, none, u32, ◌==◌, subst, All,
}
use tox_defragmenter.Database.Types.{DataRow}
use tox_defragmenter.Database.Statements.{find_meta, find_data}
use tox_defragmenter.Marker.{marker_exists}
use tox_defragmenter.Marker.RoundTrip.{IsMarkerId}
use tox_defragmenter.Sender.Types.{MsgOutbound}
use tox_defragmenter.Sender.Split.{split_message, marker_max_size_ever}
use tox_defragmenter.Sender.Split.Correct.{
  message_pieces, split_message-pieces, split_message-AllReadBack,
}
use tox_defragmenter.Sender.State.{generate_msg_id}
use tox_defragmenter.Sender.Long.Receipt.{HasReceipt}
use tox_defragmenter.Sender.Send.InOrder.{Accepts}
use tox_defragmenter.Sender.Long.Sends.{friend_send_message-sends}
use tox_defragmenter.Peer.Outcome.{done}
use tox_defragmenter.Peer.Packets.{QueuedPacket}
use tox_defragmenter.Peer.Packets.Fifo.{IsQueue}
use tox_defragmenter.Peer.Input.Numbers.{c_string-All}
use tox_defragmenter.Peer.State.{TestPeer, base_tox}
use tox_defragmenter.Peer.Events.{iface_message}
use tox_defragmenter.Peer.Wire.{IsText}
use tox_defragmenter.Peer.Fragments.{packet_with}
use tox_defragmenter.Peer.Fragments.Served.{
  numbers_from, HasText, AllReadBack-HasText, library_goes-Sent,
}
use tox_defragmenter.Peer.Fragments.Delivery.{length-AllReadBack}

-- The base functions take packets until the numbers come round to 0.
base_tox-Accepts :
    (clock : ℕ → ℕ) (s : TestPeer) (n : ℕ)
    → s.msg_id_net + n < 2 ^ 32
    → Accepts (base_tox clock s) s.lib.channel.sends n
base_tox-Accepts clock s n low k p lo hi = λ e. absurd (omega (arith, e))

-- The id that the library of a peer gives to the next message, and the message that it makes.
abbrev pub next_id : (ℕ → ℕ) → TestPeer → ℕ
next_id clock s = (generate_msg_id (base_tox clock s) s.lib).0

abbrev pub next_message : (ℕ → ℕ) → TestPeer → Bytes → MsgOutbound
next_message clock s m =
    split_message marker_max_size_ever m s.lib.params.max_message_length (next_id clock s)

-- What the library of a peer must be like to send a long message at once.
pub record CanSend (his : ℕ) (clock : ℕ → ℕ) (s : TestPeer) (m : Bytes) : Type 0 where
  pub started : s.lib.ever ≡ marker_max_size_ever
  pub fits : 63 < s.lib.params.max_message_length
  pub id : IsMarkerId (next_id clock s)
  pub limit : s.lib.params.fragments_at_a_time < 2 ^ 32
  pub room : (next_message clock s m).num_parts ≤ s.lib.params.fragments_at_a_time
  pub numbers : s.msg_id_net + (next_message clock s m).num_parts < 2 ^ 32
  pub receipts_pos : 1 ≤ s.lib.params.receipt_range_lo
  pub messages : List ℕ
  pub receipts : HasReceipt s.lib messages
  pub no_meta : find_meta 1 his (next_id clock s) s.lib.db.meta ≡ none
  pub no_data : find_data 1 his (next_id clock s) s.lib.db.rows ≡ none

module _ (my his : ℕ) (clock : ℕ → ℕ) (new_rowid : List DataRow → ℕ) (m : Bytes) (s : TestPeer)
    (text : IsText m) (can : CanSend his clock s m) where
  abbrev id : ℕ
  id = next_id clock s

  abbrev msg : MsgOutbound
  msg = next_message clock s m

  pub next_fragments : length msg.fragments ≡ msg.num_parts
  next_fragments =
      let (made, whole, fit, count) =
        split_message-pieces m s.lib.params.max_message_length id can.id can.fits text.short in
      length-AllReadBack s.lib.params.max_message_length id msg.num_parts (length m)
        (message_pieces m s.lib.params.max_message_length id can.id can.fits text.short)
        msg.fragments 1 0
        (split_message-AllReadBack m s.lib.params.max_message_length id can.id can.fits text.short)
      ∙ count

  some_part : 1 ≤ length m → 1 ≤ msg.num_parts
  unfolding flatten
  some_part some_byte =
      let ps = message_pieces m s.lib.params.max_message_length id can.id can.fits text.short in
      let (made, whole, fit, count) =
        split_message-pieces m s.lib.params.max_message_length id can.id can.fits text.short in
      elim ps as (λ ps'. flatten ps' ≡ m → length ps' ≡ msg.num_parts → 1 ≤ msg.num_parts) [
        | [] ↦ λ w c. absurd (omega (arith, some_byte, ap length w))
        | p ∷ ps' ↦ λ w c. omega (arith, c)
      ]
        whole count

  texts : All HasText msg.fragments
  texts =
      AllReadBack-HasText s.lib.params.max_message_length id msg.num_parts (length m)
        (message_pieces m s.lib.params.max_message_length id can.id can.fits text.short)
        msg.fragments 1 0
        (split_message-AllReadBack m s.lib.params.max_message_length id can.id can.fits text.short)

  -- The message goes behind the queue to the net, one packet for each fragment, under the next numbers.
  pub iface_message_long :
      (ps : List QueuedPacket)
      → marker_exists m (length m) ≡ false
      → s.lib.params.max_message_length < length m
      → IsQueue s.net_out ps
      → (s' : TestPeer) × (iface_message my his clock new_rowid m s ≡ done s')
        × (s'.iface_input ≡ s.iface_input)
        × IsQueue s'.net_out (ps ++ map packet_with (numbers_from s.msg_id_net msg.fragments))
  unfolding iface_message
  iface_message_long ps plain long h =
      let made = split_message s.lib.ever m s.lib.params.max_message_length id in
      let same : made ≡ msg =
        ap (λ n. split_message n m s.lib.params.max_message_length id) can.started in
      let (receipt, after, sending, new_one, events, rows, meta) =
        friend_send_message-sends (base_tox clock s) new_rowid his 0 m s.lib can.limit
          (subst (λ (x : MsgOutbound). length x.fragments ≡ x.num_parts) (sym same) next_fragments)
          (subst (λ (x : MsgOutbound). x.num_parts ≤ s.lib.params.fragments_at_a_time) (sym same)
            can.room)
          (subst (λ (x : MsgOutbound). Accepts (base_tox clock s) s.lib.channel.sends x.num_parts)
            (sym same) (base_tox-Accepts clock s msg.num_parts can.numbers))
          can.messages can.receipts can.started can.fits plain long
          (subst (λ (x : MsgOutbound). 1 ≤ x.num_parts) (sym same) (some_part (omega arith)))
          can.no_meta can.no_data in
      let (s', gone, went) =
        library_goes-Sent his made.fragments after s ps
          (subst (λ (x : MsgOutbound). All HasText x.fragments) (sym same) texts) h events in
      let given : (receipt == 0) ≡ false = ground (arith, new_one.1, can.receipts_pos) in
      (
        record s' { msg_id_iface = u32 (s'.msg_id_iface + 1) },
        rw (c_string-All m text.no_zero, sending, gone, given) refl,
        went.input,
        subst
            (λ (x : MsgOutbound).
              IsQueue s'.net_out (ps ++ map packet_with (numbers_from s.msg_id_net x.fragments)))
            same went.queue,
      )
