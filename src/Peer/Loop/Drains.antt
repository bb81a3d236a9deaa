-- ===== src/Peer/Loop/Drains.antt =====
-- While nothing comes in, the loop writes what stands in the queues.
use tox_defragmenter.Prelude.{
  ℕ, ◌≤◌, [], ◌∷◌, ◌++◌, Bool, false, ◌≡◌, ◌∙◌, refl, sym, ap, arith, List, append-nil, length,
  length-append, inl, inr, Bool-cases, Option, none, some, All, subst,
}
use tox_defragmenter.Database.Types.{DataRow}
use tox_defragmenter.Peer.Outcome.{done}
use tox_defragmenter.Peer.Packets.{QueuedPacket}
use tox_defragmenter.Peer.Packets.Fifo.{IsQueue}
use tox_defragmenter.Peer.State.{TestPeer}
use tox_defragmenter.Peer.Growth.{queue_of, output_of, Holds}
use tox_defragmenter.Peer.Loop.{Ready, loop3, need_continue}
use tox_defragmenter.Peer.Loop.Ledger.{Ledger, Ledger-start, Ledger-trans, texts}
use tox_defragmenter.Peer.Loop.Body.{turn_of, loop_body-quiet}
use tox_defragmenter.Peer.Loop.Runs.{turns, stops_empty, Ledger-stop}

-- `select` finds nothing to read.
abbrev pub Quiet : Option Ready → Type 0
Quiet none = ⊥
Quiet (some r) = (r.iface_rd ≡ false) × (r.net_rd ≡ false)

module _ (my his : ℕ) (clock : ℕ → ℕ) (new_rowid : List DataRow → ℕ) where
  run-Quiet :
      (rs : List (Option Ready)) (s : TestPeer) (ps : Bool → List QueuedPacket)
      → Holds s ps
      → All Quiet rs
      → (s' : TestPeer) × (loop3 my his clock new_rowid rs s ≡ done s')
        × ((l : Ledger my (turns rs) s ps s') × ((net : Bool) → l.new net ≡ []))
  unfolding loop3 Ledger-trans Ledger-start Ledger-stop
  run-Quiet [] s ps h _ = (s, refl, (Ledger-start my s ps h, λ _. refl))
  run-Quiet (none ∷ rs) s ps h (q, qs) = absurd q
  run-Quiet (some r ∷ rs) s ps h (q, qs) =
      let (s1, e, round) = loop_body-quiet my his clock new_rowid r s ps h q.0 q.1 in
      let l1 = round.ledger in
      let (s2, e', (l2, none_new)) = run-Quiet rs s1 l1.left l1.queue qs in
      elim (Bool-cases (need_continue s1)) [
        | inl on ↦ (
          s2,
          rw (e, on) e',
          (
            Ledger-trans my (turn_of r) (turns rs) s s1 s2 ps l1 l2,
            λ net. rw (round.same_new net) (none_new net),
          ),
        )
        | inr off ↦ (
          s1,
          rw (e, off) refl,
          (
            Ledger-stop my s s1 ps (turn_of r) (turns (some r ∷ rs)) l1 (stops_empty s1 off),
            round.same_new,
          ),
        )
      ]

nil_of_length : {A : Type 0} (xs : List A) → length xs ≡ 0 → xs ≡ []
nil_of_length [] h = refl
nil_of_length (x ∷ xs) h = absurd (omega arith)

module _ (my his : ℕ) (clock : ℕ → ℕ) (new_rowid : List DataRow → ℕ) (rs : List (Option Ready))
    (s : TestPeer) (ps : Bool → List QueuedPacket) (h : Holds s ps) where
  -- While nothing comes in and `select` does not fail, each packet is written in the end: if each of
  -- the two streams can be written in as many rounds as packets stand in its queue, the loop ends
  -- without an abort, the texts of just these packets have been written to the streams in order, and
  -- the queues are empty.
  pub loop3-drains :
      All Quiet rs
      → ((net : Bool) → length (ps net) ≤ turns rs net)
      → (s' : TestPeer) × (loop3 my his clock new_rowid rs s ≡ done s')
        × ((net : Bool) → output_of net s' ≡ output_of net s ++ texts net my (ps net))
        × Holds s' (λ _. [])
  loop3-drains quiet enough =
      let (s', e, (l, none_new)) = run-Quiet my his clock new_rowid rs s ps h quiet in
      let whole : (net : Bool) → l.wrote net ++ l.left net ≡ ps net =
        λ net. l.split net ∙ ap (◌++◌ (ps net)) (none_new net) ∙ append-nil (ps net) in
      let nothing : (net : Bool) → l.left net ≡ [] = λ net. nil_of_length (l.left net) (
        omega (
          arith,
          ap length (whole net),
          length-append (l.wrote net) (l.left net),
          l.served net,
          enough net,
        )) in
      let all : (net : Bool) → l.wrote net ≡ ps net = λ net.
        sym (append-nil (l.wrote net)) ∙ ap (◌++◌ (l.wrote net)) (sym (nothing net)) ∙ whole net in
      (
        s',
        e,
        λ net. l.output net ∙ ap (λ xs. output_of net s ++ texts net my xs) (all net),
        λ net. subst (IsQueue (queue_of net s')) (nothing net) (l.queue net),
      )
