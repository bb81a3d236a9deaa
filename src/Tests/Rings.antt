-- ===== src/Tests/Rings.antt =====
-- Rings of messages at concrete inputs.
use tox_defragmenter.Prelude.{
  none, ℕ, [], ◌∷◌, ◌≡◌, ◌≢◌, ◌≤◌, refl, arith, inl, false, AllDiffer, All,
}
use tox_defragmenter.Database.Statements.{find_data}
use tox_defragmenter.Sender.Channel.{receipt_given}
use tox_defragmenter.Sender.State.{State}
use tox_defragmenter.Sender.Confirm.{msg_is_complete}
use tox_defragmenter.Sender.Confirm.Complete.{msg_is_complete-IsRing}
use tox_defragmenter.Tests.Data.{idle}
use tox_defragmenter.Sender.Heap.{
  Heap, Node, no_msg, ring, msgs_outbound_link, msgs_outbound_unlink, msgs_outbound_delete_all,
}
use tox_defragmenter.Sender.Heap.Reads.{Valid}
use tox_defragmenter.Sender.Heap.Ring.{IsRing, ring-IsRing}
use tox_defragmenter.Sender.Heap.Link.{msgs_outbound_link-IsRing}
use tox_defragmenter.Sender.Heap.Removal.{msgs_outbound_unlink-IsRing}
use tox_defragmenter.Sender.Heap.First.{msgs_outbound_unlink_first}
use tox_defragmenter.Sender.Heap.Leak.{InUse, Leaves, msgs_outbound_delete_all-leaks}

abbrev node : ℕ → ℕ → Node
node prev next = record { prev = prev; next = next; msg = no_msg; freed = false }

-- The messages at 1, 2 and 3 form a ring; the one at 4 is alone.
abbrev four : Heap
four = node 3 2 ∷ node 1 3 ∷ node 2 1 ∷ node 0 0 ∷ []

four-Valid : (p : ℕ) → 1 ≤ p → p ≤ 4 → Valid four p
four-Valid p l h = (l, h)

four_AllDiffer : AllDiffer (1 ∷ 2 ∷ 3 ∷ [])
four_AllDiffer = (
  ((λ e. absurd (omega (arith, e))), ((λ e. absurd (omega (arith, e))), tt)),
  (((λ e. absurd (omega (arith, e))), tt), (tt, tt)),
)

four-IsRing : IsRing (four, 1) (1 ∷ 2 ∷ 3 ∷ [])
four-IsRing = (
  refl,
  (
    four-Valid 1 (omega arith) (omega arith),
    (four-Valid 2 (omega arith) (omega arith), (four-Valid 3 (omega arith) (omega arith), tt)),
  ),
  four_AllDiffer,
  ((refl, refl), ((refl, refl), (refl, refl))),
)

four_new : All (λ (q : ℕ). 4 ≢ q) (1 ∷ 2 ∷ 3 ∷ [])
four_new = (
  (λ e. absurd (omega (arith, e))),
  ((λ e. absurd (omega (arith, e))), ((λ e. absurd (omega (arith, e))), tt)),
)

ring-IsRing_example : ring (four, 1) ≡ 1 ∷ 2 ∷ 3 ∷ []
ring-IsRing_example = ring-IsRing four 1 (1 ∷ 2 ∷ 3 ∷ []) four-IsRing

msgs_outbound_link-IsRing_example : IsRing (msgs_outbound_link 4 (four, 1)) (1 ∷ 4 ∷ 2 ∷ 3 ∷ [])
msgs_outbound_link-IsRing_example =
    msgs_outbound_link-IsRing four 1 4 (1 ∷ 2 ∷ 3 ∷ []) four-IsRing
      (four-Valid 4 (omega arith) (omega arith)) four_new

msgs_outbound_unlink-IsRing_example : IsRing (msgs_outbound_unlink 2 (four, 1)) (1 ∷ 3 ∷ [])
msgs_outbound_unlink-IsRing_example =
    msgs_outbound_unlink-IsRing four 1 2 (2 ∷ 3 ∷ []) four-IsRing (inl refl)

msgs_outbound_unlink_first_example : IsRing (msgs_outbound_unlink 1 (four, 1)) (3 ∷ 2 ∷ [])
msgs_outbound_unlink_first_example = msgs_outbound_unlink_first four 1 2 [] 3 four-IsRing

four_used : All (InUse four) (1 ∷ 2 ∷ 3 ∷ [])
four_used = (refl, (refl, (refl, tt)))

msgs_outbound_delete_all-leaks_example :
    Leaves (msgs_outbound_delete_all 5 (four, 1)) (1 ∷ 2 ∷ 3 ∷ [])
msgs_outbound_delete_all-leaks_example =
    msgs_outbound_delete_all-leaks 5 four 1 2 (3 ∷ []) four-IsRing four_used (omega arith)

abbrev busy : State
busy = record idle { heap = four; head = 1 }

msg_is_complete-IsRing_example :
    ((msg_is_complete 2 busy).channel.events ≡ receipt_given 0 0 ∷ [])
    × IsRing ((msg_is_complete 2 busy).heap, (msg_is_complete 2 busy).head) (1 ∷ 3 ∷ [])
    × (find_data 1 0 0 (msg_is_complete 2 busy).db.rows ≡ none)
    × ((msg_is_complete 2 busy).db.held ≡ 0)
msg_is_complete-IsRing_example = msg_is_complete-IsRing busy 2 (2 ∷ 3 ∷ []) four-IsRing (inl refl)
