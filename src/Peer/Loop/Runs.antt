-- ===== src/Peer/Loop/Runs.antt =====
-- The whole loop: no packet of a queue is lost, none is written out of order, and none waits for ever.
use tox_defragmenter.Prelude.{
  ℕ, ◌+◌, [], ◌∷◌, Bool, true, false, ◌||◌, not, ◌≡◌, ◌≢◌, refl, ap, arith, List, length,
  length-append, ◌==◌, inl, inr, Bool-cases, Option, none, some, ltb,
}
use tox_defragmenter.Database.Types.{DataRow}
use tox_defragmenter.Peer.Outcome.{Outcome, done, abort, empty_list}
use tox_defragmenter.Peer.Outcome.Post.{Post, Post-bind, Post-ne-empty_list}
use tox_defragmenter.Peer.Packets.{QueuedPacket}
use tox_defragmenter.Peer.State.{TestPeer}
use tox_defragmenter.Peer.Growth.{queue_of, Holds}
use tox_defragmenter.Peer.Loop.{
  Ready, loop_body, loop3, need_continue, is_iface_wr, is_net_wr, received_all_receipts,
}
use tox_defragmenter.Peer.Loop.Ledger.{Ledger, Ledger-start, Ledger-trans, IsQueue-cases}
use tox_defragmenter.Peer.Loop.Body.{turn_of, loop_body-Ledger}

-- The rounds in which the stream of a queue can be written.
abbrev pub turns : List (Option Ready) → Bool → ℕ
turns [] net = 0
turns (none ∷ rs) net = turns rs net
turns (some r ∷ rs) net = turn_of r net + turns rs net

or_false : (a b : Bool) → (a || b) ≡ false → (a ≡ false) × (b ≡ false)
or_false true b h = cc
or_false false b h = (refl, h)

-- The loop ends only with empty queues.
pub stops_empty :
    (s : TestPeer) → need_continue s ≡ false → (net : Bool) → ((queue_of net s).first == 0) ≡ true
stops_empty s h net =
    let (_, h1) = or_false (not s.saw_iface_eof) _ h in
    let (_, h2) = or_false (not s.saw_net_end_signal) _ h1 in
    let (_, h3) = or_false (ltb s.net_received_messages s.net_expect_messages) _ h2 in
    let (_, h4) = or_false (not (received_all_receipts s)) _ h3 in
    let (i, n) = or_false (is_iface_wr s) (is_net_wr s) h4 in
    elim net as (λ b. ((queue_of b s).first == 0) ≡ true) [
      | true ↦ not_false ((s.net_out).first == 0) n
      | false ↦ not_false ((s.iface_out).first == 0) i
    ]
  where
    not_false : (b : Bool) → not b ≡ false → b ≡ true
    not_false true e = refl
    not_false false e = cc

module _ (my : ℕ) (s s' : TestPeer) (ps : Bool → List QueuedPacket) (t t' : Bool → ℕ)
    (l : Ledger my t s ps s') where
  -- With nothing left, every turn that was asked for has been had.
  unfoldable pub Ledger-stop :
      ((net : Bool) → ((queue_of net s').first == 0) ≡ true) → Ledger my t' s ps s'
  Ledger-stop h = record {
    new = l.new;
    wrote = l.wrote;
    left = l.left;
    split = l.split;
    queue = l.queue;
    output = l.output;
    counted = l.counted;
    served = λ net. elim (IsQueue-cases (queue_of net s') (l.left net) (l.queue net)) [
      | inl (_, nothing) ↦ omega (
        arith,
        ap length (l.split net),
        length-append (l.wrote net) (l.left net),
        length-append (ps net) (l.new net),
        ap length nothing,
      )
      | inr (some', _) ↦ let e = h net in cc
    ];
  }

module _ (my his : ℕ) (clock : ℕ → ℕ) (new_rowid : List DataRow → ℕ) where
  -- From a peer whose queues hold some packets, the loop runs for any answers of `select`, whatever its
  -- two input streams hold and whatever the library does. If it does not abort the process or leave its
  -- arrays, then for each of the two queues: what was written is, in order, the texts of the first
  -- packets of the queue, first those that stood in it and then those that came in behind; the others
  -- stand in the queue in order. As many of the packets that came in are messages as `msgIdNet`, for the
  -- net, or `netReceivedMessages`, for the interface, went up, modulo 2^32. Each round in which the
  -- stream could be written has served one of the packets that stood in the queue, as long as there was
  -- one.
  pub loop3-Ledger :
      (rs : List (Option Ready)) (s : TestPeer) (ps : Bool → List QueuedPacket)
      → Holds s ps
      → Post (Ledger my (turns rs) s ps) (loop3 my his clock new_rowid rs s)
  unfolding loop3
  loop3-Ledger [] s ps h = Ledger-start my s ps h
  loop3-Ledger (none ∷ rs) s ps h = tt
  loop3-Ledger (some r ∷ rs) s ps h =
      Post-bind (Ledger my (turn_of r) s ps) (Ledger my (turns (some r ∷ rs)) s ps)
        (loop_body my his clock new_rowid r s) _ (loop_body-Ledger my his clock new_rowid r s ps h)
        (λ s' l. elim (Bool-cases (need_continue s')) [
          | inl on ↦ rw on (
              trans_Post s' l (loop3 my his clock new_rowid rs s')
                (loop3-Ledger rs s' l.left l.queue))
          | inr off ↦
              rw off
                (Ledger-stop my s s' ps (turn_of r) (turns (some r ∷ rs)) l (stops_empty s' off))
        ])
    where
      trans_Post :
          (s' : TestPeer) (l : Ledger my (turn_of r) s ps s') (o : Outcome TestPeer)
          → Post (Ledger my (turns rs) s' l.left) o
          → Post (Ledger my (turns (some r ∷ rs)) s ps) o
      trans_Post s' l (done s2) k = Ledger-trans my (turn_of r) (turns rs) s s' s2 ps l k
      trans_Post s' l abort k = tt
      trans_Post s' l empty_list k = k
      trans_Post s' l Outcome.bad_access k = tt

  -- `packetPickFront` is never called on an empty queue, whatever the two input streams hold, whatever
  -- `select` answers and whatever the library does, when the queues are well-formed at the start.
  pub loop3-ne-empty_list :
      (rs : List (Option Ready)) (s : TestPeer) (ps : Bool → List QueuedPacket)
      → Holds s ps
      → loop3 my his clock new_rowid rs s ≢ empty_list
  loop3-ne-empty_list rs s ps h =
      Post-ne-empty_list (Ledger my (turns rs) s ps) (loop3 my his clock new_rowid rs s)
        (loop3-Ledger rs s ps h)
