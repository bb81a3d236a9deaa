-- ===== src/Peer/Packets.antt =====
-- The packet queues of test-peer.c: linked lists that are appended to and picked from at the front.
pub mod Fifo
use tox_defragmenter.Prelude.{ℕ, ◌+◌, ◌==◌, if◌then◌else◌, Bytes, Option, none, some, take}
use tox_defragmenter.Peer.Outcome.{Outcome, done, empty_list, ◌>>=◌}

-- `struct packet` without its link: `msg` is `none` where the pointer is NULL.
pub record QueuedPacket : Type 0 where
  pub msg : Option Bytes
  pub msg_length : ℕ
  pub msg_id : ℕ
  pub receipt : ℕ
  pub cnt_msg_end_signal : ℕ

-- A packet in memory with its link; NULL is 0.
pub record Cell : Type 0 where
  pub packet : QueuedPacket
  pub next : ℕ

-- A queue with the memory of its packets, and the address that `malloc` gives next.
pub record PacketQueue : Type 0 where
  pub memory : ℕ → Option Cell
  pub fresh : ℕ
  pub first : ℕ
  pub last : ℕ

unfoldable pub write : ℕ → Option Cell → (ℕ → Option Cell) → ℕ → Option Cell
write p c memory a = if a == p then c else memory a

abbrev pub empty_queue : PacketQueue
empty_queue = record { memory = λ _. none; fresh = 1; first = 0; last = 0 }

-- The packet is allocated here, by one of the functions `packetCreate…` below, with no link.
unfoldable pub packet_append : QueuedPacket → PacketQueue → Outcome PacketQueue
packet_append r q =
    let memory' = write q.fresh (some (record { packet = r; next = 0 })) q.memory in
    if q.first == 0
    then done (record q { memory = memory'; fresh = q.fresh + 1; first = q.fresh; last = q.fresh })
    else elim (q.memory q.last) [
      | none ↦ empty_list
      | some c ↦ done (record q {
        memory = write q.last (some (record c { next = q.fresh })) memory';
        fresh = q.fresh + 1;
        last = q.fresh;
      })
    ]

-- The caller must not pick from an empty list, where `p->next` reads through NULL.
unfoldable pub packet_pick_front : PacketQueue → Outcome (ℕ × PacketQueue)
packet_pick_front q = elim (q.memory q.first) [
  | none ↦ empty_list
  | some c ↦ done (
    q.first,
    if c.next == 0 then record q { first = 0; last = 0 } else record q { first = c.next },
  )
]

abbrev pub packet_create_message : Bytes → ℕ → ℕ → QueuedPacket
packet_create_message msg length msg_id = record {
  msg = some (take length msg);
  msg_length = length;
  msg_id = msg_id;
  receipt = 0;
  cnt_msg_end_signal = 0;
}

abbrev pub packet_create_receipt : ℕ → QueuedPacket
packet_create_receipt receipt = record {
  msg = none;
  msg_length = 0;
  msg_id = 0;
  receipt = receipt;
  cnt_msg_end_signal = 0;
}

abbrev pub packet_create_end_signal : ℕ → QueuedPacket
packet_create_end_signal cnt_msg = record {
  msg = none;
  msg_length = 0;
  msg_id = 0;
  receipt = 0;
  cnt_msg_end_signal = cnt_msg;
}

abbrev pub packet_delete : ℕ → PacketQueue → PacketQueue
packet_delete p q = record q { memory = write p none q.memory }

-- A packet picked from the front, read and deleted, as `onIfaceWR` and `onNetWR` do with `onAnyWR`.
unfoldable pub take_front : PacketQueue → Outcome (QueuedPacket × PacketQueue)
unfolding packet_pick_front
take_front q = packet_pick_front q >>= λ (picked : ℕ × PacketQueue).
    elim (picked.1.memory picked.0) [
      | none ↦ empty_list
      | some c ↦ done (c.packet, packet_delete picked.0 (picked.1))
    ]
