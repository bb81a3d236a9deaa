-- ===== src/Peer/Loop/Body.antt =====
-- One round of the loop: what is read goes behind the queues, and each queue with a turn is served.
use tox_defragmenter.Prelude.{
  u32, ◌+◌, ℕ, ◌≤◌, [], ◌∷◌, ◌++◌, Bool, true, false, ◌&&◌, not, ◌≡◌, ◌≢◌, ◌∙◌, refl, sym, ap,
  arith, List, append-nil, length, min, ◌==◌, inl, inr, subst,
}
use tox_defragmenter.Database.Types.{DataRow}
use tox_defragmenter.Peer.Outcome.{Outcome, done, ◌>>=◌}
use tox_defragmenter.Peer.Outcome.Post.{Post, Post-bind}
use tox_defragmenter.Peer.Packets.{QueuedPacket, PacketQueue}
use tox_defragmenter.Peer.Packets.Fifo.{IsQueue}
use tox_defragmenter.Peer.State.{TestPeer}
use tox_defragmenter.Peer.Events.{on_iface_rd, on_net_rd, on_iface_wr, on_net_wr}
use tox_defragmenter.Peer.Growth.{
  queue_of, output_of, count_of, messages, Holds, Grown, Grown-start, Grown-then,
}
use tox_defragmenter.Peer.Growth.Reads.{on_iface_rd-Grown, on_net_rd-Grown}
use tox_defragmenter.Peer.Loop.{Ready, bit, when, is_iface_rd, is_net_rd, loop_body}
use tox_defragmenter.Peer.Loop.Ledger.{
  Ledger, texts, front, behind, front-append-behind, IsQueue-cases, iface_turn, net_turn,
}

-- A stream for writing that `select` finds ready is a turn of its queue.
abbrev pub ready_for : Ready → Bool → Bool
ready_for r true = r.net_wr
ready_for r false = r.iface_wr

abbrev pub turn_of : Ready → Bool → ℕ
turn_of r net = bit (ready_for r net)

abbrev asked : Ready → TestPeer → Bool → Bool
asked r s net = not ((queue_of net s).first == 0) && ready_for r net

-- A stream that is asked for has a packet, also behind what the round reads.
asked_has :
    (q : PacketQueue) (ready : Bool) (xs new : List QueuedPacket)
    → IsQueue q xs
    → (not (q.first == 0) && ready) ≡ true
    → xs ++ new ≢ []
asked_has q ready xs new h k e = elim (IsQueue-cases q xs h) [
  | inl (nothing, _) ↦ cc
  | inr (_, (x, ys, made)) ↦ cc
]

served_by :
    (ready : Bool) (x : QueuedPacket) (ys new : List QueuedPacket)
    → min (bit ready) (length (x ∷ ys)) ≤ length (front ready ((x ∷ ys) ++ new))
served_by true x ys new = omega arith
served_by false x ys new = omega arith

turn_served :
    (q : PacketQueue) (ready : Bool) (xs new : List QueuedPacket)
    → IsQueue q xs
    → min (bit ready) (length xs) ≤ length (front (not (q.first == 0) && ready) (xs ++ new))
turn_served q ready xs new h = elim (IsQueue-cases q xs h) [
  | inl (_, nothing) ↦ rw nothing (omega arith)
  | inr (some', (x, ys, made)) ↦ rw (made, some') (served_by ready x ys new)
]

-- What a round did with the packets that stood in the queues or were read.
pub record Round (my : ℕ) (r : Ready) (s : TestPeer) (ps new : Bool → List QueuedPacket)
    (s' : TestPeer) : Type 0 where
  pub ledger : Ledger my (turn_of r) s ps s'
  pub same_new : (net : Bool) → ledger.new net ≡ new net

&&-false : (b : Bool) → (b && false) ≡ false
&&-false true = refl
&&-false false = refl

module _ (my his : ℕ) (clock : ℕ → ℕ) (new_rowid : List DataRow → ℕ) (r : Ready) (s : TestPeer)
    (ps : Bool → List QueuedPacket) (h : Holds s ps) where
  -- The two writes of a round, behind the reads.
  writes : TestPeer → Outcome TestPeer
  writes s2 = when (asked r s false) (on_iface_wr my his clock new_rowid) s2 >>= λ (s3 : TestPeer).
      when (asked r s true) (on_net_wr my his clock new_rowid) s3

  writes-Ledger :
      (s2 : TestPeer) (g : Grown s ps s2)
      → (s' : TestPeer) × (writes s2 ≡ done s') × Round my r s ps g.new s'
  unfolding writes
  writes-Ledger s2 g =
      let qs : Bool → List QueuedPacket = λ net. ps net ++ g.new net in
      let has : (net : Bool) → asked r s net ≡ true → qs net ≢ [] =
        λ net. asked_has (queue_of net s) (ready_for r net) (ps net) (g.new net) (h net) in
      let (q, e, hq) =
        iface_turn my his clock new_rowid (asked r s false) s2 (qs false) (g.queue false)
          (has false) in
      let s3 : TestPeer = record s2 {
        iface_out = q;
        iface_output = s2.iface_output ++ texts false my (front (asked r s false) (qs false));
      } in
      let (q', e', hq') =
        net_turn my his clock new_rowid (asked r s true) s3 (qs true) (g.queue true) (has true) in
      let s4 : TestPeer = record s3 {
        net_out = q';
        net_output = s3.net_output ++ texts true my (front (asked r s true) (qs true));
      } in
      (
        s4,
        rw e e',
        record {
          ledger = record {
            new = g.new;
            wrote = λ net. front (asked r s net) (qs net);
            left = λ net. behind (asked r s net) (qs net);
            split = λ net. front-append-behind (asked r s net) (qs net);
            queue = λ net.
                elim net as (λ b. IsQueue (queue_of b s4) (behind (asked r s b) (qs b))) [
                  | true ↦ hq'
                  | false ↦ hq
                ];
            output = λ net.
                elim net
                  as (λ b.
                    output_of b s4 ≡ output_of b s ++ texts b my (front (asked r s b) (qs b))) [
                      | true ↦
                          ap (λ o. o ++ texts true my (front (asked r s true) (qs true)))
                            (g.output true)
                      | false ↦
                          ap (λ o. o ++ texts false my (front (asked r s false) (qs false)))
                            (g.output false)
                    ];
            counted = λ net.
                elim net as (λ b. u32 (count_of b s4) ≡ u32 (count_of b s + messages (g.new b))) [
                  | true ↦ g.counted true
                  | false ↦ g.counted false
                ];
            served =
                λ net. turn_served (queue_of net s) (ready_for r net) (ps net) (g.new net) (h net);
          };
          same_new = λ _. refl;
        },
      )

  when-Grown :
      (b : Bool) (f : TestPeer → Outcome TestPeer) (s0 s1 : TestPeer)
      → (ps0 : Bool → List QueuedPacket) (g : Grown s0 ps0 s1)
      → Post (Grown s1 (λ net. ps0 net ++ g.new net)) (f s1)
      → Post (Grown s0 ps0) (when b f s1)
  when-Grown true f s0 s1 ps0 g k = Grown-then s0 ps0 s1 g (f s1) k
  when-Grown false f s0 s1 ps0 g k = g

  -- Whatever `select` reports and the streams hold, a round that ends keeps the account.
  pub loop_body-Ledger : Post (Ledger my (turn_of r) s ps) (loop_body my his clock new_rowid r s)
  unfolding loop_body writes
  loop_body-Ledger =
      let b1 = is_iface_rd s && r.iface_rd in
      let b2 = is_net_rd s && r.net_rd in
      let start = Grown-start s ps h in
      Post-bind (Grown s ps) (Ledger my (turn_of r) s ps)
        (when b1 (on_iface_rd my his clock new_rowid) s) _
        (when-Grown b1 (on_iface_rd my his clock new_rowid) s s ps start
          (on_iface_rd-Grown my his clock new_rowid s _ start.queue))
        (λ s1 g1.
          Post-bind (Grown s ps) (Ledger my (turn_of r) s ps)
            (when b2 (on_net_rd my his clock new_rowid) s1) _
            (when-Grown b2 (on_net_rd my his clock new_rowid) s s1 ps g1
              (on_net_rd-Grown my his clock new_rowid s1 _ g1.queue))
            (λ s2 g2.
              let (s', e, round) = writes-Ledger s2 g2 in
              subst (Post (Ledger my (turn_of r) s ps)) (sym e) round.ledger))

  loop_body-writes :
      r.iface_rd ≡ false → r.net_rd ≡ false → loop_body my his clock new_rowid r s ≡ writes s
  unfolding loop_body writes
  loop_body-writes no_iface no_net =
      rw (no_iface, no_net, &&-false (is_iface_rd s), &&-false (is_net_rd s)) refl

  -- A round that reads nothing always ends, and puts nothing behind the queues.
  pub loop_body-quiet :
      r.iface_rd ≡ false
      → r.net_rd ≡ false
      → (s' : TestPeer) × (loop_body my his clock new_rowid r s ≡ done s')
        × Round my r s ps (λ _. []) s'
  loop_body-quiet no_iface no_net =
      let start : Grown s ps s = record {
        new = λ _. [];
        queue = λ net. rw append-nil (h net);
        output = λ _. refl;
        counted = λ net. omega arith;
      } in
      let (s', e, round) = writes-Ledger s start in
      (s', loop_body-writes no_iface no_net ∙ e, round)
