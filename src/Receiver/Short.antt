-- ===== src/Receiver/Short.antt =====
-- A message that is not long goes through both sides as it is.
use tox_defragmenter.Prelude.{
  ℕ, ◌≤◌, ◌≡◌, ◌∷◌, List, true, leb, refl, arith, length, take_all, some, Bytes, inl, inr, ◌⊎◌,
  Bool-cases,
}
use tox_defragmenter.Marker.{marker_exists}
use tox_defragmenter.Database.Types.{DataRow, Db, ok}
use tox_defragmenter.Sender.Channel.{Tox, Packet, sent, tox_friend_send_message}
use tox_defragmenter.Sender.State.{State}
use tox_defragmenter.Sender.Long.{friend_send_message}
use tox_defragmenter.Receiver.{friend_message_cb}

-- A message of at most `maxMessageLength` bytes either carries a marker, and is refused with the
-- receipt 0 and no effect; or it is sent as one packet, whose receipt is returned, and a receiver that
-- gets the packet hands its bytes to the client and leaves its database alone.
pub friend_send_message-short :
    (tox : Tox) (new_rowid : List DataRow → ℕ) (friend type : ℕ) (message : Bytes) (s : State)
    (from now : ℕ) (db : Db)
    → length message ≤ s.params.max_message_length
    → (marker_exists message (length message) ≡ true)
        × (friend_send_message tox new_rowid friend type message s ≡ ok (0, s))
      ⊎ (p : Packet) × (s' : State) × (friend_send_message tox new_rowid friend type message s
          ≡ ok (tox.reply s.channel.sends p, s'))
        × (s'.channel.events ≡ sent p ∷ s.channel.events)
        × (p.friend_number ≡ friend)
        × (p.bytes ≡ some message)
        × (friend_message_cb new_rowid from p.type message p.size now db
            ≡ ok (db, some (record { friend_number = from; type = type; message = message })))
unfolding friend_send_message tox_friend_send_message friend_message_cb
friend_send_message-short tox new_rowid friend type message s from now db short =
    let fits : leb (length message) s.params.max_message_length ≡ true = ground arith in
    let p : Packet = record {
      friend_number = friend;
      type = type;
      size = length message;
      bytes = some message;
    } in
    elim (Bool-cases (marker_exists message (length message))) [
      | inl marked ↦ inl (marked, rw marked refl)
      | inr plain ↦ inr (
        p,
        record s { channel = (tox_friend_send_message tox p s.channel).1 },
        rw (plain, fits) refl,
        refl,
        refl,
        refl,
        rw (plain, take_all (length message) message (omega arith)) refl,
      )
    ]
