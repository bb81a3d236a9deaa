-- ===== src/Peer/Packets/Fifo.antt =====
-- A packet queue is a first-in first-out list.
use tox_defragmenter.Prelude.{
  ℕ, ◌+◌, ◌<◌, [], ◌∷◌, ◌++◌, ◌≡◌, refl, arith, List, Option, none, some,
}
use tox_defragmenter.Peer.Outcome.{done}
use tox_defragmenter.Peer.Packets.{
  QueuedPacket, Cell, PacketQueue, write, packet_append, packet_pick_front, take_front,
  packet_delete,
}

-- From `p` the links lead through the packets to the cell `last`, at rising addresses below `fresh`.
pub data Chain (memory : ℕ → Option Cell) (last fresh : ℕ) : ℕ → List QueuedPacket → Type 0 where
  ends :
      {p : ℕ} {x : QueuedPacket}
      → p ≡ last
      → 0 < p
      → p < fresh
      → memory p ≡ some (record { packet = x; next = 0 })
      → Chain memory last fresh p (x ∷ [])
  link :
      {p n : ℕ} {x : QueuedPacket} {xs : List QueuedPacket}
      → 0 < p
      → p < n
      → memory p ≡ some (record { packet = x; next = n })
      → Chain memory last fresh n xs
      → Chain memory last fresh p (x ∷ xs)

-- What the queue stands for.
abbrev pub IsQueue : PacketQueue → List QueuedPacket → Type 0
IsQueue q [] = (q.first ≡ 0) × (0 < q.fresh)
IsQueue q (x ∷ xs) = Chain q.memory q.last q.fresh q.first (x ∷ xs)

module _ {memory : ℕ → Option Cell} {last fresh : ℕ} where
  Chain-low :
      {p : ℕ} {xs : List QueuedPacket} → Chain memory last fresh p xs → (0 < p) × (p < fresh)
  Chain-low (ends e pos low h) = (pos, low)
  Chain-low (link pos lt h c) = (pos, omega (arith, Chain-low c))

  Chain-last : {p : ℕ} {xs : List QueuedPacket} → Chain memory last fresh p xs → p < last + 1
  Chain-last (ends e pos low h) = omega arith
  Chain-last (link pos lt h c) = omega (arith, Chain-last c)

  -- Deleting a cell before the chain.
  Chain-write :
      {p : ℕ} {xs : List QueuedPacket} (a : ℕ) (v : Option Cell)
      → a < p
      → Chain memory last fresh p xs
      → Chain (write a v memory) last fresh p xs
  unfolding write
  Chain-write a v lt (ends e pos low h) = ends e pos low (ground arith)
  Chain-write a v lt (link {p} {n} pos up h c) =
      link pos up (ground arith) (Chain-write a v (omega arith) c)

  -- The last cell, whatever comes before it.
  Chain-end :
      {p : ℕ} {xs : List QueuedPacket}
      → Chain memory last fresh p xs
      → (x : QueuedPacket) × (memory last ≡ some (record { packet = x; next = 0 }))
  Chain-end (ends {p} {x} e pos low h) = (x, ground arith)
  Chain-end (link pos up h c) = Chain-end c

  Chain-append :
      {p : ℕ} {xs : List QueuedPacket} (x r : QueuedPacket)
      → memory last ≡ some (record { packet = x; next = 0 })
      → Chain memory last fresh p xs
      → Chain
          (write last
            (some (record { packet = x; next = fresh }))
            (write fresh (some (record { packet = r; next = 0 })) memory))
          fresh
          (fresh + 1)
          p
          (xs ++ r ∷ [])
  unfolding write
  Chain-append x r held (ends {p} e pos low h) =
      link pos low (ground arith) (ends refl (omega arith) (omega arith) (ground arith))
  Chain-append x r held (link {p} {n} pos up h c) =
      link pos up (ground (arith, Chain-low c, Chain-last c)) (Chain-append x r held c)

-- `packetAppend` puts the packet behind the others.
pub packet_append-IsQueue :
    (r : QueuedPacket) (xs : List QueuedPacket) (q : PacketQueue)
    → IsQueue q xs
    → (q' : PacketQueue) × (packet_append r q ≡ done q') × IsQueue q' (xs ++ r ∷ [])
unfolding packet_append
packet_append-IsQueue r [] q (none_yet, pos) = (
  record {
    memory = write q.fresh (some (record { packet = r; next = 0 })) q.memory;
    fresh = q.fresh + 1;
    first = q.fresh;
    last = q.fresh;
  },
  rw none_yet refl,
  ends {x = r} refl pos (omega arith) (unfold write in ground arith),
)
packet_append-IsQueue r (x ∷ xs) q c =
    let (y, held) = Chain-end c in (_, ground (arith, Chain-low c), Chain-append y r held c)

-- The packet at the front is picked, read and deleted, and the others stay in order.
pub take_front-IsQueue :
    (x : QueuedPacket) (xs : List QueuedPacket) (q : PacketQueue)
    → IsQueue q (x ∷ xs)
    → (q' : PacketQueue) × (take_front q ≡ done (x, q')) × IsQueue q' xs
unfolding take_front packet_pick_front
take_front-IsQueue x [] q (ends e pos low h) =
    (packet_delete q.first (record q { first = 0; last = 0 }), ground arith, (refl, omega arith))
take_front-IsQueue x [] q (link pos up h c) = elim c [ ]
take_front-IsQueue x (y ∷ ys) q (link {n} pos up h c) =
    (packet_delete q.first (record q { first = n }), ground arith, Chain-write q.first none up c)

-- A packet queue is a first-in first-out list: appending to a queue that stands for any list of packets
-- ends well and puts the packet behind them, and the packet that is then picked at the front, read and
-- deleted is the oldest one, which leaves the others in order.
pub append-take_front :
    (r : QueuedPacket) (xs : List QueuedPacket) (q : PacketQueue)
    → IsQueue q xs
    → (q' : PacketQueue) × (q'' : PacketQueue) × (x : QueuedPacket) × (ys : List QueuedPacket)
      × (packet_append r q ≡ done q')
      × IsQueue q' (xs ++ r ∷ [])
      × (take_front q' ≡ done (x, q''))
      × (xs ++ r ∷ [] ≡ x ∷ ys)
      × IsQueue q'' ys
append-take_front r [] q h =
    let (q', e, h') = packet_append-IsQueue r [] q h in
    let (q'', e', h'') = take_front-IsQueue r [] q' h' in (q', q'', r, [], e, h', e', refl, h'')
append-take_front r (x ∷ xs) q h =
    let (q', e, h') = packet_append-IsQueue r (x ∷ xs) q h in
    let (q'', e', h'') = take_front-IsQueue x (xs ++ r ∷ []) q' h' in
    (q', q'', x, xs ++ r ∷ [], e, h', e', refl, h'')
