-- ===== src/Peer/Output.antt =====
-- What `onAnyWR` writes for a packet.
use tox_defragmenter.Prelude.{
  ℕ, ◌^◌, [], ◌∷◌, ◌++◌, Bytes, Bool, ◌==◌, ltb, if◌then◌else◌, u32, take, none, some,
}
use tox_defragmenter.Decimal.{decimal}
use tox_defragmenter.Peer.Packets.{QueuedPacket}
use tox_defragmenter.Peer.Input.{c_string}

-- `%.*s`: the precision is an int; the text stops at a byte 0, and a negative precision does not limit.
unfoldable pub limited : ℕ → Bytes → Bytes
limited length msg =
    if ltb (u32 length) (2 ^ 31) then c_string (take (u32 length) msg) else c_string msg

unfoldable pub on_any_wr : Bool → ℕ → QueuedPacket → Bytes
on_any_wr send_msg_id my_friend_id p = elim p.msg [
  | some msg ↦
      if send_msg_id
      then b'M'
        ∷ b' '
        ∷ (decimal p.msg_id
            ++ b' '
              ∷ (decimal my_friend_id
                  ++ b' '
                    ∷ (decimal p.msg_length ++ b' ' ∷ (limited p.msg_length msg ++ b'\n' ∷ []))))
      else b'M' ∷ b' ' ∷ (decimal p.msg_length ++ b' ' ∷ (limited p.msg_length msg ++ b'\n' ∷ []))
  | none ↦
      if p.receipt == 0
      then b'E' ∷ b' ' ∷ (decimal p.cnt_msg_end_signal ++ b'\n' ∷ [])
      else b'R' ∷ b' ' ∷ (decimal p.receipt ++ b'\n' ∷ [])
]
