-- ===== src/Peer/Loop/Ledger.antt =====
-- An account of the packets: what was written, what is left in the queues, what was put behind.
use tox_defragmenter.Prelude.{
  ℕ, ◌+◌, ◌≤◌, [], ◌∷◌, ◌++◌, Bytes, Bool, true, false, ◌≡◌, ◌≢◌, ◌∙◌, refl, sym, ap, u32, arith,
  List, append_assoc, append-nil, length, length-append, min, ◌==◌, ◌⊎◌, inl, inr,
}
use tox_defragmenter.Database.Types.{DataRow}
use tox_defragmenter.Peer.Outcome.{done}
use tox_defragmenter.Peer.Packets.{QueuedPacket, PacketQueue}
use tox_defragmenter.Peer.Packets.Fifo.{IsQueue, link, ends, take_front-IsQueue}
use tox_defragmenter.Peer.Output.{on_any_wr}
use tox_defragmenter.Peer.State.{TestPeer}
use tox_defragmenter.Peer.Events.{on_iface_wr, on_net_wr}
use tox_defragmenter.Peer.Growth.{queue_of, output_of, count_of, messages, messages-append, Holds}
use tox_defragmenter.Peer.Loop.{when}

-- The text of packets in order, to the net or to the interface.
abbrev pub texts : Bool → ℕ → List QueuedPacket → Bytes
texts net my [] = []
texts net my (p ∷ ps) = on_any_wr net my p ++ texts net my ps

pub texts-append :
    (net : Bool) (my : ℕ) (xs ys : List QueuedPacket)
    → texts net my (xs ++ ys) ≡ texts net my xs ++ texts net my ys
texts-append net my [] ys = refl
texts-append net my (x ∷ xs) ys = rw (texts-append net my xs ys, append_assoc)

-- From `s`, whose queues hold `ps`, to `s'`, with so many turns for writing.
pub record Ledger (my : ℕ) (turns : Bool → ℕ) (s : TestPeer) (ps : Bool → List QueuedPacket)
    (s' : TestPeer) : Type 0 where
  pub new : Bool → List QueuedPacket
  pub wrote : Bool → List QueuedPacket
  pub left : Bool → List QueuedPacket
  pub split : (net : Bool) → wrote net ++ left net ≡ ps net ++ new net
  pub queue : (net : Bool) → IsQueue (queue_of net s') (left net)
  pub output : (net : Bool) → output_of net s' ≡ output_of net s ++ texts net my (wrote net)
  pub counted : (net : Bool) → u32 (count_of net s') ≡ u32 (count_of net s + messages (new net))
  pub served : (net : Bool) → min (turns net) (length (ps net)) ≤ length (wrote net)

-- Nothing happens without a turn.
unfoldable pub Ledger-start :
    (my : ℕ) (s : TestPeer) (ps : Bool → List QueuedPacket) → Holds s ps → Ledger my (λ _. 0) s ps s
Ledger-start my s ps h = record {
  new = λ _. [];
  wrote = λ _. [];
  left = ps;
  split = λ net. sym (append-nil (ps net));
  queue = h;
  output = λ net. sym (append-nil (output_of net s));
  served = λ net. omega arith;
  counted = λ net. omega arith;
}

module _ (my : ℕ) (t1 t2 : Bool → ℕ) (s s1 s2 : TestPeer) (ps : Bool → List QueuedPacket)
    (a : Ledger my t1 s ps s1) (b : Ledger my t2 s1 a.left s2) where
  pub trans_split :
      (net : Bool) → (a.wrote net ++ b.wrote net) ++ b.left net ≡ ps net ++ (a.new net ++ b.new net)
  trans_split net =
      append_assoc (a.wrote net) (b.wrote net) (b.left net)
      ∙ ap (◌++◌ (a.wrote net)) (b.split net)
      ∙ sym (append_assoc (a.wrote net) (a.left net) (b.new net))
      ∙ ap (λ l. l ++ b.new net) (a.split net)
      ∙ append_assoc (ps net) (a.new net) (b.new net)

  pub trans_served :
      (net : Bool) → min (t1 net + t2 net) (length (ps net)) ≤ length (a.wrote net ++ b.wrote net)
  trans_served net = omega (
    arith,
    a.served net,
    b.served net,
    length-append (a.wrote net) (b.wrote net),
    length-append (a.wrote net) (a.left net),
    length-append (ps net) (a.new net),
    ap length (a.split net),
  )

  unfoldable pub Ledger-trans : Ledger my (λ net. t1 net + t2 net) s ps s2
  Ledger-trans = record {
    new = λ net. a.new net ++ b.new net;
    wrote = λ net. a.wrote net ++ b.wrote net;
    left = b.left;
    split = trans_split;
    queue = b.queue;
    output = λ net.
        b.output net
        ∙ ap (λ o. o ++ texts net my (b.wrote net)) (a.output net)
        ∙ append_assoc (output_of net s) (texts net my (a.wrote net)) (texts net my (b.wrote net))
        ∙ ap (◌++◌ (output_of net s)) (sym (texts-append net my (a.wrote net) (b.wrote net)));
    served = trans_served;
    counted =
        λ net. omega (arith, a.counted net, b.counted net, messages-append (a.new net) (b.new net));
  }

-- A queue is empty exactly if its first pointer is NULL.
pub IsQueue-cases :
    (q : PacketQueue) (xs : List QueuedPacket)
    → IsQueue q xs
    → ((q.first == 0) ≡ true) × (xs ≡ [])
      ⊎ ((q.first == 0) ≡ false) × ((x : QueuedPacket) × (ys : List QueuedPacket) × (xs ≡ x ∷ ys))
IsQueue-cases q [] (none_yet, _) = inl (rw none_yet refl, refl)
IsQueue-cases q (x ∷ ys) (ends e pos low h) = inr (ground arith, (x, ys, refl))
IsQueue-cases q (x ∷ ys) (link pos up h c) = inr (ground arith, (x, ys, refl))

-- The packet that a turn writes, and the packets that it leaves.
abbrev pub front : Bool → List QueuedPacket → List QueuedPacket
front false xs = []
front true [] = []
front true (x ∷ xs) = x ∷ []

abbrev pub behind : Bool → List QueuedPacket → List QueuedPacket
behind false xs = xs
behind true [] = []
behind true (x ∷ xs) = xs

pub front-append-behind : (b : Bool) (xs : List QueuedPacket) → front b xs ++ behind b xs ≡ xs
front-append-behind false xs = refl
front-append-behind true [] = refl
front-append-behind true (x ∷ xs) = refl

module _ (my his : ℕ) (clock : ℕ → ℕ) (new_rowid : List DataRow → ℕ) where
  -- Writing to the interface, where the queue is not empty.
  pub iface_turn :
      (asked : Bool) (s : TestPeer) (xs : List QueuedPacket)
      → IsQueue s.iface_out xs
      → (asked ≡ true → xs ≢ [])
      → (q : PacketQueue) × (when asked (on_iface_wr my his clock new_rowid) s
          ≡ done (record s {
            iface_out = q;
            iface_output = s.iface_output ++ texts false my (front asked xs);
          }))
        × IsQueue q (behind asked xs)
  unfolding on_iface_wr
  iface_turn false s xs h k = (s.iface_out, rw append-nil refl, h)
  iface_turn true s [] h k = absurd (k refl refl)
  iface_turn true s (x ∷ xs) h k =
      let (q, e, h') = take_front-IsQueue x xs s.iface_out h in (q, rw (e, append-nil) refl, h')

  -- Writing to the net.
  pub net_turn :
      (asked : Bool) (s : TestPeer) (xs : List QueuedPacket)
      → IsQueue s.net_out xs
      → (asked ≡ true → xs ≢ [])
      → (q : PacketQueue) × (when asked (on_net_wr my his clock new_rowid) s
          ≡ done (record s {
            net_out = q;
            net_output = s.net_output ++ texts true my (front asked xs);
          }))
        × IsQueue q (behind asked xs)
  unfolding on_net_wr
  net_turn false s xs h k = (s.net_out, rw append-nil refl, h)
  net_turn true s [] h k = absurd (k refl refl)
  net_turn true s (x ∷ xs) h k =
      let (q, e, h') = take_front-IsQueue x xs s.net_out h in (q, rw (e, append-nil) refl, h')
