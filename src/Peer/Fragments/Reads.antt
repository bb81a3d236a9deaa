-- ===== src/Peer/Fragments/Reads.antt =====
-- A peer that reads one fragment after the other does what `friend_message_cb` does with them.
use tox_defragmenter.Prelude.{
  ℕ, zero, suc, ◌+◌, ◌^◌, ◌<◌, [], ◌∷◌, ◌++◌, Bytes, Bool, true, false, ◌≡◌, ◌∙◌, refl, sym, ap,
  arith, length, take, take_all, List, Option, map, append_assoc, append-nil, All, subst,
}
use tox_defragmenter.Database.Types.{DataRow, Db, ok, >>=-eq-ok}
use tox_defragmenter.Sender.Types.{Fragment}
use tox_defragmenter.Receiver.{ClientMessage, friend_message_cb}
use tox_defragmenter.Receiver.Reassembly.{receive_all, given}
use tox_defragmenter.Receiver.Wire.{wire}
use tox_defragmenter.Peer.Outcome.{Outcome, done, ◌>>=◌}
use tox_defragmenter.Peer.Packets.{QueuedPacket}
use tox_defragmenter.Peer.Packets.Fifo.{IsQueue}
use tox_defragmenter.Peer.Output.{on_any_wr}
use tox_defragmenter.Peer.State.{TestPeer}
use tox_defragmenter.Peer.Events.{net_message, on_net_rd}
use tox_defragmenter.Peer.Growth.{Holds, Holds-same}
use tox_defragmenter.Peer.Wire.{IsText, IsReadable, on_net_rd-on_any_wr}
use tox_defragmenter.Peer.Fragments.{
  CarriedWith, packet_with, packet_for, receipt_for, incoming, stamped, Took, net_message-Took,
}

map-append : {A B : Type 0} (f : A → B) (xs ys : List A) → map f (xs ++ ys) ≡ map f xs ++ map f ys
map-append f [] ys = refl
map-append f (x ∷ xs) ys = ap (◌∷◌ (f x)) (map-append f xs ys)

packet_with-IsReadable : (f : ℕ × Fragment) → CarriedWith f → IsReadable (packet_with f)
packet_with-IsReadable (id, f) (c, low) =
    let whole : take f.size (wire f) ≡ wire f = take_all f.size (wire f) (omega (arith, c.size)) in
    record {
      message = (subst IsText (sym whole) c.text, c.size ∙ ap length (sym whole));
      msg_id_fits = low;
      receipt_fits = omega arith;
      count_fits = omega arith;
    }

-- The queues behind one fragment.
abbrev queues_behind :
    (Bool → List QueuedPacket) → List ClientMessage → List QueuedPacket → Bool → List QueuedPacket
queues_behind ps ms rs true = ps true ++ rs
queues_behind ps ms rs false = ps false ++ map packet_for ms

queues_Holds :
    (s : TestPeer) (ps : Bool → List QueuedPacket) (ms : List ClientMessage)
    (rs : List QueuedPacket)
    → IsQueue s.iface_out (ps false ++ map packet_for ms)
    → IsQueue s.net_out (ps true ++ rs)
    → Holds s (queues_behind ps ms rs)
queues_Holds s ps ms rs i n true = n
queues_Holds s ps ms rs i n false = i

module _ (my his : ℕ) (clock : ℕ → ℕ) (new_rowid : List DataRow → ℕ) where
  -- So many calls of `onNetRD`.
  pub reads : ℕ → TestPeer → Outcome TestPeer
  reads zero s = done s
  reads (suc n) s = on_net_rd my his clock new_rowid s >>= reads n

  read_one :
      (from : ℕ) (f : ℕ × Fragment) (s : TestPeer) (ps : Bool → List QueuedPacket) (rest : Bytes)
      (db : Db) (out : Option ClientMessage)
      → from < 2 ^ 32
      → CarriedWith f
      → Holds s ps
      → friend_message_cb new_rowid from 0
          (wire (f.1))
          (f.1.size)
          (clock s.lib.channel.readings)
          s.lib.db
        ≡ ok (db, out)
      → (s' : TestPeer) × (on_net_rd my his clock new_rowid
            (record s { net_input = on_any_wr true from (packet_with f) ++ rest })
          ≡ done s')
        × Took s ps (s.lib.channel.readings + 1) db (given out) (receipt_for f ∷ []) rest s'
  read_one from (id, f) s ps rest db out low (c, small) h came =
      let at : TestPeer = record s { net_input = rest } in
      let (s', e, t) =
        net_message-Took my his clock new_rowid from id f at ps db out c
          (Holds-same s at ps refl refl h) came in
      (
        s',
        on_net_rd-on_any_wr my his clock new_rowid s rest from (packet_with (id, f)) low
              (packet_with-IsReadable (id, f) (c, small))
            ∙ ap (λ (m : Bytes). net_message my his clock new_rowid id from m at)
                (take_all f.size (wire f) (omega (arith, c.size)))
            ∙ e,
        record {
          input = t.input;
          database = t.database;
          clocked = t.clocked;
          iface_queue = t.iface_queue;
          net_queue = t.net_queue;
        },
      )

  -- Fragments that can be told from their texts come from the net one after the other. If
  -- `friend_message_cb` takes them at the times that the clock gives, then just these messages that it
  -- gives to the client come behind the queue to the interface, and a receipt for each fragment behind
  -- the queue to the net.
  pub reads-Took :
      (from : ℕ) (fs : List (ℕ × Fragment)) (s : TestPeer) (ps : Bool → List QueuedPacket)
      (rest : Bytes) (db : Db) (ms : List ClientMessage)
      → from < 2 ^ 32
      → All CarriedWith fs
      → Holds s ps
      → receive_all new_rowid from 0 (stamped clock s.lib.channel.readings fs) s.lib.db
        ≡ ok (db, ms)
      → (s' : TestPeer) × (reads (length fs) (record s { net_input = incoming from rest fs })
          ≡ done s')
        × Took s ps (s.lib.channel.readings + length fs) db ms (map receipt_for fs) rest s'
  unfolding reads receive_all
  reads-Took from [] s ps rest db ms low _ h r = (
    record s { net_input = rest },
    refl,
    record {
      input = refl;
      database = cc;
      clocked = omega arith;
      iface_queue =
          subst (λ l. IsQueue s.iface_out (ps false ++ map packet_for l)) {x = []} {y = ms} (cc)
            (rw append-nil (h false));
      net_queue = rw append-nil (h true);
    },
  )
  reads-Took from (f ∷ fs) s ps rest db ms low (c, cs) h r =
      let ((db1, out), came, r1) =
        >>=-eq-ok
          (friend_message_cb new_rowid from 0 (wire (f.1)) (f.1.size) (clock s.lib.channel.readings)
            s.lib.db)
          _ _ r in
      let ((db2, ms2), r2, same) =
        >>=-eq-ok (receive_all new_rowid from 0 (stamped clock (s.lib.channel.readings + 1) fs) db1)
          _ _ r1 in
      let (s1, e1, t1) = read_one from f s ps (incoming from rest fs) db1 out low c h came in
      let (s2, e2, t2) =
        reads-Took from fs s1 (queues_behind ps (given out) (receipt_for f ∷ [])) rest db2 ms2 low
          cs (queues_Holds s1 ps (given out) (receipt_for f ∷ []) t1.iface_queue t1.net_queue)
          (rw (t1.database, t1.clocked) r2) in
      let same_db : db2 ≡ db = cc in
      let all_ms : given out ++ ms2 ≡ ms = cc in
      (
        s2,
        rw e1 (ap (λ x. reads (length fs) (record s1 { net_input = x })) t1.input ∙ e2),
        record {
          input = t2.input;
          database = t2.database ∙ same_db;
          clocked = t2.clocked ∙ omega (arith, t1.clocked);
          iface_queue =
              subst (IsQueue s2.iface_out)
                (append_assoc (ps false) (map packet_for (given out)) (map packet_for ms2)
                  ∙ ap (◌++◌ (ps false))
                      (sym (map-append packet_for (given out) ms2) ∙ ap (map packet_for) all_ms))
                t2.iface_queue;
          net_queue =
              subst (IsQueue s2.net_out)
                (append_assoc (ps true) (receipt_for f ∷ []) (map receipt_for fs)) t2.net_queue;
        },
      )
