-- ===== src/Peer/Fragments/Served.antt =====
-- The calls of the library for the fragments of a message put a packet for each of them behind the queue
-- to the net.
use tox_defragmenter.Prelude.{
  ℕ, ◌+◌, ◌-◌, [], ◌∷◌, ◌++◌, Bytes, ◌≡◌, ◌∙◌, refl, sym, ap, length, take, List, map, some, u32,
  All, append_assoc, append-nil, subst,
}
use tox_defragmenter.Sender.Types.{Fragment}
use tox_defragmenter.Sender.Channel.{Packet, Event, sent}
use tox_defragmenter.Sender.State.{State}
use tox_defragmenter.Sender.Send.InOrder.{log, fragment_packet}
use tox_defragmenter.Sender.Split.Correct.{AllReadBack}
use tox_defragmenter.Receiver.Wire.{wire}
use tox_defragmenter.Peer.Outcome.{Outcome, done, ◌>>=◌}
use tox_defragmenter.Peer.Packets.{QueuedPacket}
use tox_defragmenter.Peer.Packets.Fifo.{IsQueue, packet_append-IsQueue}
use tox_defragmenter.Peer.State.{
  TestPeer, base_friend_send_message, serve, serve_all, calls_between, library_goes,
}
use tox_defragmenter.Peer.Short.{calls_since}
use tox_defragmenter.Peer.Fragments.{packet_with}

-- Each fragment with the number that its packet gets, the last number being `n`.
abbrev pub numbers_from : ℕ → List Fragment → List (ℕ × Fragment)
numbers_from n [] = []
numbers_from n (f ∷ fs) = (u32 (n + 1), f) ∷ numbers_from (u32 (n + 1)) fs

-- The fragment has a text.
abbrev pub HasText : Fragment → Type 0
HasText f = f.bytes ≡ some (wire f)

pub AllReadBack-HasText :
    (max_length id num_parts total : ℕ) (ps : List Bytes) (fs : List Fragment) (part_no off : ℕ)
    → AllReadBack max_length id num_parts total part_no off ps fs
    → All HasText fs
AllReadBack-HasText max_length id num_parts total ps [] part_no off a = tt
AllReadBack-HasText max_length id num_parts total [] (f ∷ fs) part_no off a = absurd (cc)
AllReadBack-HasText max_length id num_parts total (p ∷ ps) (f ∷ fs) part_no off (r, a) =
    let text : wire f ≡ r.text = rw r.bytes refl in
    (
      r.bytes ∙ ap some (sym text),
      AllReadBack-HasText max_length id num_parts total ps fs (part_no + 1) (off + length p) a,
    )

-- What the calls change.
pub record Sent (s : TestPeer) (ps : List QueuedPacket) (fs : List Fragment) (s' : TestPeer)
    : Type 0 where
  pub queue : IsQueue s'.net_out (ps ++ map packet_with (numbers_from s.msg_id_net fs))
  pub input : s'.iface_input ≡ s.iface_input

log-append : (ps : List Packet) (es : List Event) → log ps es ≡ log ps [] ++ es
log-append [] es = refl
log-append (p ∷ ps) es =
    log-append ps (sent p ∷ es)
    ∙ sym (
        ap (λ (l : List Event). l ++ es) (log-append ps (sent p ∷ []))
        ∙ append_assoc (log ps []) (sent p ∷ []) es)

serve_all-Sent :
    (friend : ℕ) (fs : List Fragment) (es : List Event) (s0 s : TestPeer) (ps : List QueuedPacket)
    → All HasText fs
    → IsQueue s.net_out ps
    → serve_all es s0 ≡ done s
    → (s' : TestPeer) × (serve_all (log (map (fragment_packet friend 0) fs) es) s0 ≡ done s')
      × Sent s ps fs s'
unfolding serve_all serve base_friend_send_message
serve_all-Sent friend [] es s0 s ps t h e = (s, e, record { queue = rw append-nil h; input = refl })
serve_all-Sent friend (f ∷ fs) es s0 s ps (t, ts) h e =
    let r = packet_with (u32 (s.msg_id_net + 1), f) in
    let (q, appended, h') = packet_append-IsQueue r ps s.net_out h in
    let next : TestPeer = record s { net_out = q; msg_id_net = u32 (s.msg_id_net + 1) } in
    let served : serve_all (sent (fragment_packet friend 0 f) ∷ es) s0 ≡ done next =
      ap (λ (o : Outcome TestPeer). o >>= serve (sent (fragment_packet friend 0 f))) e
      ∙ rw (t, appended) refl in
    let (s', e', after) =
      serve_all-Sent friend fs (sent (fragment_packet friend 0 f) ∷ es) s0 next (ps ++ r ∷ []) ts h'
        served in
    (
      s',
      e',
      record {
        queue =
            subst (IsQueue s'.net_out)
              (append_assoc ps (r ∷ []) (map packet_with (numbers_from next.msg_id_net fs)))
              after.queue;
        input = after.input;
      },
    )

-- The library goes to a state where it has sent the fragments.
pub library_goes-Sent :
    (friend : ℕ) (fs : List Fragment) (after : State) (s : TestPeer) (ps : List QueuedPacket)
    → All HasText fs
    → IsQueue s.net_out ps
    → after.channel.events ≡ log (map (fragment_packet friend 0) fs) s.lib.channel.events
    → (s' : TestPeer) × (library_goes after s ≡ done s') × Sent s ps fs s'
unfolding library_goes serve_all
library_goes-Sent friend fs after s ps t h logged =
    let calls = log (map (fragment_packet friend 0) fs) [] in
    let at : TestPeer = record s { lib = after } in
    let (s', e, sent') = serve_all-Sent friend fs [] at at ps t h refl in
    let between : calls_between s.lib after ≡ calls =
      ap (λ (es : List Event). take (length es - length s.lib.channel.events) es)
        (logged ∙ log-append (map (fragment_packet friend 0) fs) s.lib.channel.events)
      ∙ calls_since calls s.lib.channel.events in
    (
      s',
      ap (λ (es : List Event). serve_all es at) between ∙ e,
      record { queue = sent'.queue; input = sent'.input },
    )
