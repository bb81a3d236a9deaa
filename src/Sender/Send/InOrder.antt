-- ===== src/Sender/Send/InOrder.antt =====
-- What is sent when toxcore takes every packet: the parts, one after the other.
use tox_defragmenter.Prelude.{
  map, ℕ, zero, suc, ◌+◌, ◌^◌, ◌≤◌, ◌<◌, ◌≡◌, ◌≢◌, [], ◌∷◌, List, true, false, ltb, ◌==◌, u32, refl,
  ap, ◌∙◌, arith, get_or, set, length,
}
use tox_defragmenter.Sender.Types.{Params, Fragment, MsgOutbound}
use tox_defragmenter.Sender.Channel.{
  Tox, Packet, Event, sent, tox_friend_send_message, get_curr_time_ms,
}
use tox_defragmenter.Sender.Send.{
  Flight, no_fragment, fragment_at, packet_of, msg_send_part, part_sent, send_and_note, send_pass,
}

-- Toxcore takes `n` packets from the call `first` on: it does not return the receipt 0.
abbrev pub Accepts : Tox → (first n : ℕ) → Type 0
Accepts tox first n = (k : ℕ) (p : Packet) → first ≤ k → k < first + n → tox.reply k p ≢ 0

-- The packets of `n` parts from `i` on.
abbrev pub packets : MsgOutbound → ℕ → ℕ → List Packet
packets m i zero = []
packets m i (suc n) = packet_of m i ∷ packets m (i + 1) n

-- The calls with these packets, made in this order after others.
abbrev pub log : List Packet → List Event → List Event
log [] es = es
log (p ∷ ps) es = log ps (sent p ∷ es)

-- A write that keeps the content of a fragment keeps the content of all.
content-set :
    (fs : List Fragment) (i j : ℕ) (f : Fragment)
    → f.size ≡ (get_or fs i no_fragment).size
    → f.bytes ≡ (get_or fs i no_fragment).bytes
    → ((get_or (set fs i f) j no_fragment).size ≡ (get_or fs j no_fragment).size)
      × ((get_or (set fs i f) j no_fragment).bytes ≡ (get_or fs j no_fragment).bytes)
content-set [] i j f s b = (refl, refl)
content-set (g ∷ fs) zero zero f s b = (s, b)
content-set (g ∷ fs) zero (suc j) f s b = (refl, refl)
content-set (g ∷ fs) (suc i) zero f s b = (refl, refl)
content-set (g ∷ fs) (suc i) (suc j) f s b = content-set fs i j f s b

packets_same :
    (m m' : MsgOutbound) (i n : ℕ)
    → ((j : ℕ) → packet_of m' j ≡ packet_of m j)
    → packets m' i n ≡ packets m i n
packets_same m m' i zero e = refl
packets_same m m' i (suc n) e = rw (e i, packets_same m m' (i + 1) n e)

module _ (tox : Tox) (ptr : ℕ) where
  send_and_note_taken :
      (i : ℕ) (fl : Flight)
      → Accepts tox fl.1.sends 1
      → let after = send_and_note tox ptr i fl in
        (after.1.events ≡ sent (packet_of fl.0 i) ∷ fl.1.events)
        × (after.0.num_transit ≡ u32 (fl.0.num_transit + 1))
        × (after.1.sends ≡ fl.1.sends + 1)
        × ((j : ℕ) → packet_of after.0 j ≡ packet_of fl.0 j)
  unfolding send_and_note msg_send_part part_sent tox_friend_send_message get_curr_time_ms
  send_and_note_taken i (m, c) accepts =
      let taken : (tox.reply c.sends (packet_of m i) == 0) ≡ false =
        ground (arith, accepts c.sends (packet_of m i) (omega arith) (omega arith)) in
      let f = record (fragment_at m i) {
        receipt = tox.reply c.sends (packet_of m i);
        times_sent = u32 ((fragment_at m i).times_sent + 1);
      } in
      rw taken (
        refl,
        refl,
        refl,
        λ j. let (s, b) = content-set m.fragments i j f refl refl in rw (s, b) refl,
      )

  module _ (params : Params) (limit : params.fragments_at_a_time < 2 ^ 32) where
    -- When there is room for `n` more parts in transit, the first loop sends `n` parts, in order.
    pub send_pass_taken :
        (n i : ℕ) (fl : Flight)
        → Accepts tox fl.1.sends n
        → fl.0.num_transit + n ≤ params.fragments_at_a_time
        → ((send_pass tox ptr params n i fl).1.events ≡ log (packets fl.0 i n) fl.1.events)
          × ((send_pass tox ptr params n i fl).0.num_transit ≡ fl.0.num_transit + n)
    unfolding send_pass
    send_pass_taken zero i fl accepts room = (refl, omega arith)
    send_pass_taken (suc n) i fl accepts room =
        let more : ltb fl.0.num_transit params.fragments_at_a_time ≡ true = ground arith in
        let (e, t, c, same) =
          send_and_note_taken i fl (λ k p lo hi. accepts k p lo (omega arith)) in
        let next = send_and_note tox ptr i fl in
        let (es, ts) =
          send_pass_taken n (i + 1) next
            (λ k p lo hi. accepts k p (omega (arith, c, lo)) (omega (arith, c, hi)))
            (omega (arith, t)) in
        rw more (
          es
              ∙ ap (log (packets next.0 (i + 1) n)) e
              ∙ ap (λ ps. log ps (sent (packet_of fl.0 i) ∷ fl.1.events))
                  (packets_same fl.0 next.0 (i + 1) n same),
          omega (arith, ts, t),
        )

-- The packet that is made of a fragment.
abbrev pub fragment_packet : ℕ → ℕ → Fragment → Packet
fragment_packet friend type f = record {
  friend_number = friend;
  type = type;
  size = f.size;
  bytes = f.bytes;
}

get_or-suc_drop :
    (fs : List Fragment) (i : ℕ) (f : Fragment)
    → get_or (f ∷ fs) (i + 1) no_fragment ≡ get_or fs i no_fragment
get_or-suc_drop fs i f = let e : i + 1 ≡ suc i = omega arith in rw e refl

packets_shift :
    (m m' : MsgOutbound) (i n : ℕ)
    → ((j : ℕ) → packet_of m (j + 1) ≡ packet_of m' j)
    → packets m (i + 1) n ≡ packets m' i n
packets_shift m m' i zero e = refl
packets_shift m m' i (suc n) e = rw (e i, packets_shift m m' (i + 1) n e)

-- The packets of all parts are those of the fragments.
pub packets_all :
    (fs : List Fragment) (m : MsgOutbound)
    → m.fragments ≡ fs
    → packets m 0 (length fs) ≡ map (fragment_packet m.friend_number m.type) fs
packets_all [] m e = refl
packets_all (f ∷ fs) m e =
    let m' = record m { fragments = fs } in
    rw
      (
        packets_shift m m' 0 (length fs) (λ j. rw (e, get_or-suc_drop fs j f)),
        packets_all fs m' refl,
      )
      (rw e)
