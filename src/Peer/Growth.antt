-- ===== src/Peer/Growth.antt =====
-- The handlers that read only put packets behind the queues.
pub mod Calls
pub mod Reads
use tox_defragmenter.Prelude.{
  arith, ℕ, ◌+◌, ◌-◌, ◌^◌, [], ◌∷◌, ◌++◌, Bytes, Bool, true, false, ◌≡◌, ◌∙◌, refl, sym, subst,
  List, Option, none, some, append_assoc, append-nil, ◌==◌, not, leb, length, u32, drop, take, ltb,
  if◌then◌else◌,
}
use tox_defragmenter.Decimal.{is_digit}
use tox_defragmenter.Database.Types.{DataRow}
use tox_defragmenter.Sender.Channel.{Packet, Event, sent, receipt_given}
use tox_defragmenter.Sender.State.{State}
use tox_defragmenter.Receiver.{ClientMessage}
use tox_defragmenter.Peer.Outcome.{Outcome, done, abort, bad_access, ◌>>=◌, of_result}
use tox_defragmenter.Peer.Outcome.Post.{Post, Any, Post-bind, Post-if, Post-of_result}
use tox_defragmenter.Peer.Packets.{
  QueuedPacket, PacketQueue, packet_append, packet_create_receipt, packet_create_message,
}
use tox_defragmenter.Peer.Packets.Fifo.{IsQueue, packet_append-IsQueue}
use tox_defragmenter.Peer.Input.{
  read_char, skip_char, read_uint_from, read_uint, read_string, shift_in,
}
use tox_defragmenter.Peer.State.{
  TestPeer, base_friend_send_message, front_friend_message, front_read_receipt, note_receipt,
  note_short, note_long, mark, receipts_limit, defrag_receipts_lo, serve, serve_all, calls_between,
  library_goes,
}

-- The queue and the output of the net side, and of the interface.
abbrev pub queue_of : Bool → TestPeer → PacketQueue
queue_of true s = s.net_out
queue_of false s = s.iface_out

abbrev pub output_of : Bool → TestPeer → Bytes
output_of true s = s.net_output
output_of false s = s.iface_output

-- What the two queues stand for.
abbrev pub Holds : TestPeer → (Bool → List QueuedPacket) → Type 0
Holds s ps = (net : Bool) → IsQueue (queue_of net s) (ps net)

pub Holds-same :
    (s s' : TestPeer) (ps : Bool → List QueuedPacket)
    → s'.net_out ≡ s.net_out
    → s'.iface_out ≡ s.iface_out
    → Holds s ps
    → Holds s' ps
Holds-same s s' ps e i h net = elim net as (λ b. IsQueue (queue_of b s') (ps b)) [
  | true ↦ rw e (h true)
  | false ↦ rw i (h false)
]

-- What the program counts of the messages that it puts behind a queue.
abbrev pub count_of : Bool → TestPeer → ℕ
count_of true s = s.msg_id_net
count_of false s = s.net_received_messages

-- How many of the packets are messages.
abbrev pub messages : List QueuedPacket → ℕ
messages [] = 0
messages (p ∷ ps) = elim p.msg [ none ↦ 0 | some m ↦ 1 ] + messages ps

pub messages-append : (xs ys : List QueuedPacket) → messages (xs ++ ys) ≡ messages xs + messages ys
messages-append [] ys = omega arith
messages-append (x ∷ xs) ys = omega (arith, messages-append xs ys)

-- Packets were put behind, the messages among them were counted, and nothing was written.
pub record Grown (s0 : TestPeer) (ps : Bool → List QueuedPacket) (s : TestPeer) : Type 0 where
  pub new : Bool → List QueuedPacket
  pub queue : (net : Bool) → IsQueue (queue_of net s) (ps net ++ new net)
  pub output : (net : Bool) → output_of net s ≡ output_of net s0
  pub counted : (net : Bool) → u32 (count_of net s) ≡ u32 (count_of net s0 + messages (new net))

pub Grown-start : (s : TestPeer) (ps : Bool → List QueuedPacket) → Holds s ps → Grown s ps s
Grown-start s ps h = record {
  new = λ _. [];
  queue = λ net. rw append-nil (h net);
  output = λ _. refl;
  counted = λ net. omega arith;
}

pub Grown-trans :
    (s0 s s' : TestPeer) (ps : Bool → List QueuedPacket) (g : Grown s0 ps s)
    → Grown s (λ net. ps net ++ g.new net) s'
    → Grown s0 ps s'
Grown-trans s0 s s' ps g g' = record {
  new = λ net. g.new net ++ g'.new net;
  queue = λ net. rw (← append_assoc) (g'.queue net);
  output = λ net. g'.output net ∙ g.output net;
  counted =
      λ net. omega (arith, g.counted net, g'.counted net, messages-append (g.new net) (g'.new net));
}

abbrev on : Bool → List QueuedPacket → Bool → List QueuedPacket
on true xs true = xs
on true xs false = []
on false xs true = []
on false xs false = xs

packet_append-Post :
    (r : QueuedPacket) (xs : List QueuedPacket) (q : PacketQueue)
    → IsQueue q xs
    → Post (λ q'. IsQueue q' (xs ++ r ∷ [])) (packet_append r q)
packet_append-Post r xs q h =
    let (q', e, h') = packet_append-IsQueue r xs q h in
    subst (Post (λ (k : PacketQueue). IsQueue k (xs ++ r ∷ []))) (sym e) h'

module _ (s0 : TestPeer) (ps : Bool → List QueuedPacket) where
  pub Grown-net :
      (r : QueuedPacket) (q : PacketQueue) (s : TestPeer)
      → s.iface_out ≡ s0.iface_out
      → s.iface_output ≡ s0.iface_output
      → s.net_output ≡ s0.net_output
      → u32 s.msg_id_net ≡ u32 (s0.msg_id_net + messages (r ∷ []))
      → s.net_received_messages ≡ s0.net_received_messages
      → Holds s0 ps
      → IsQueue q (ps true ++ r ∷ [])
      → Grown s0 ps (record s { net_out = q })
  Grown-net r q s ei eo en c c' h hq = record {
    new = on true (r ∷ []);
    queue = λ net.
        elim net
          as (λ b. IsQueue (queue_of b (record s { net_out = q })) (ps b ++ on true (r ∷ []) b)) [
            | true ↦ hq
            | false ↦ rw (append-nil, ei) (h false)
          ];
    output = λ net. elim net as (λ b. output_of b (record s { net_out = q }) ≡ output_of b s0) [
      | true ↦ en
      | false ↦ eo
    ];
    counted = λ net.
        elim net
          as (λ b.
            u32 (count_of b (record s { net_out = q }))
            ≡ u32 (count_of b s0 + messages (on true (r ∷ []) b))) [
              | true ↦ c
              | false ↦ omega (arith, c')
            ];
  }

  pub Grown-iface :
      (r : QueuedPacket) (q : PacketQueue) (s : TestPeer)
      → s.net_out ≡ s0.net_out
      → s.iface_output ≡ s0.iface_output
      → s.net_output ≡ s0.net_output
      → u32 s.net_received_messages ≡ u32 (s0.net_received_messages + messages (r ∷ []))
      → s.msg_id_net ≡ s0.msg_id_net
      → Holds s0 ps
      → IsQueue q (ps false ++ r ∷ [])
      → Grown s0 ps (record s { iface_out = q })
  Grown-iface r q s e eo en c c' h hq = record {
    new = on false (r ∷ []);
    queue = λ net.
        elim net
          as (λ b.
            IsQueue (queue_of b (record s { iface_out = q })) (ps b ++ on false (r ∷ []) b)) [
              | true ↦ rw (append-nil, e) (h true)
              | false ↦ hq
            ];
    output = λ net. elim net as (λ b. output_of b (record s { iface_out = q }) ≡ output_of b s0) [
      | true ↦ en
      | false ↦ eo
    ];
    counted = λ net.
        elim net
          as (λ b.
            u32 (count_of b (record s { iface_out = q }))
            ≡ u32 (count_of b s0 + messages (on false (r ∷ []) b))) [
              | true ↦ omega (arith, c')
              | false ↦ c
            ];
  }

  -- A change that leaves the queues and the outputs alone.
  pub Grown-same :
      (s : TestPeer)
      → s.net_out ≡ s0.net_out
      → s.iface_out ≡ s0.iface_out
      → s.net_output ≡ s0.net_output
      → s.iface_output ≡ s0.iface_output
      → s.msg_id_net ≡ s0.msg_id_net
      → s.net_received_messages ≡ s0.net_received_messages
      → Holds s0 ps
      → Grown s0 ps s
  Grown-same s en ei on' oi cn ci h = record {
    new = λ _. [];
    queue = λ net. elim net as (λ b. IsQueue (queue_of b s) (ps b ++ [])) [
      | true ↦ rw (append-nil, en) (h true)
      | false ↦ rw (append-nil, ei) (h false)
    ];
    output = λ net. elim net as (λ b. output_of b s ≡ output_of b s0) [ true ↦ on' | false ↦ oi ];
    counted = λ net. elim net as (λ b. u32 (count_of b s) ≡ u32 (count_of b s0 + 0)) [
      | true ↦ omega (arith, cn)
      | false ↦ omega (arith, ci)
    ];
  }

  pub Grown-then :
      (s : TestPeer) (g : Grown s0 ps s) (o : Outcome TestPeer)
      → Post (Grown s (λ net. ps net ++ g.new net)) o
      → Post (Grown s0 ps) o
  Grown-then s g (done s') h = Grown-trans s0 s s' ps g h
  Grown-then s g abort h = tt
  Grown-then s g Outcome.empty_list h = h
  Grown-then s g bad_access h = tt

-- A packet that is put behind one of the queues.
pub append_net-Grown :
    (r : QueuedPacket) (s : TestPeer) (ps : Bool → List QueuedPacket) (f : PacketQueue → TestPeer)
    → Holds s ps
    → ((q : PacketQueue) → (IsQueue q (ps true ++ r ∷ []) → Grown s ps (f q)))
    → Post (Grown s ps) (packet_append r s.net_out >>= λ (q : PacketQueue). done (f q))
append_net-Grown r s ps f h k =
    Post-bind (λ q. IsQueue q (ps true ++ r ∷ [])) (Grown s ps) (packet_append r s.net_out) _
      (packet_append-Post r (ps true) s.net_out (h true)) (λ q hq. k q hq)

pub append_iface-Grown :
    (r : QueuedPacket) (s : TestPeer) (ps : Bool → List QueuedPacket) (f : PacketQueue → TestPeer)
    → Holds s ps
    → ((q : PacketQueue) → (IsQueue q (ps false ++ r ∷ []) → Grown s ps (f q)))
    → Post (Grown s ps) (packet_append r s.iface_out >>= λ (q : PacketQueue). done (f q))
append_iface-Grown r s ps f h k =
    Post-bind (λ q. IsQueue q (ps false ++ r ∷ [])) (Grown s ps) (packet_append r s.iface_out) _
      (packet_append-Post r (ps false) s.iface_out (h false)) (λ q hq. k q hq)
