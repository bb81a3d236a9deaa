-- ===== src/Sender/Confirm/Complete.antt =====
-- `msgIsComplete`: the client gets its receipt, and the message is gone from memory and database.
use tox_defragmenter.Prelude.{ℕ, ◌≡◌, ◌∷◌, List, refl, arith, none}
use tox_defragmenter.Database.Statements.{find_data, delete_data_record}
use tox_defragmenter.Database.Rows.{find_data-delete_rows}
use tox_defragmenter.Database.Outbound.{db_clear_outbound_pending}
use tox_defragmenter.Sender.Channel.{receipt_given, give_receipt}
use tox_defragmenter.Sender.Heap.{msg_at, msgs_outbound_unlink}
use tox_defragmenter.Sender.Heap.Ring.{IsRing}
use tox_defragmenter.Sender.Heap.Free.{without-IsRing}
use tox_defragmenter.Sender.Heap.Unlink.{Within, remove}
use tox_defragmenter.Sender.Heap.Removal.{msgs_outbound_unlink-IsRing}
use tox_defragmenter.Sender.State.{State}
use tox_defragmenter.Sender.Confirm.{msg_is_complete}

-- A message of the ring that is not its first one is complete. Then `msgIsComplete` gives the client
-- the receipt of the message, takes the message out of the ring, keeps the order of the others, deletes
-- its data from the database and gives the lock back.
pub msg_is_complete-IsRing :
    (s : State) (ptr : ℕ) (ps : List ℕ)
    → IsRing (s.heap, s.head) (s.head ∷ ps)
    → Within ptr ps
    → let m = msg_at s.heap ptr in
      let s' = msg_is_complete ptr s in
      (s'.channel.events ≡ receipt_given m.friend_number m.receipt ∷ s.channel.events)
      × IsRing (s'.heap, s'.head) (s.head ∷ remove ptr ps)
      × (find_data 1 m.friend_number m.id s'.db.rows ≡ none)
      × (s'.db.held ≡ s.db.held)
unfolding msg_is_complete give_receipt db_clear_outbound_pending delete_data_record
msg_is_complete-IsRing s ptr ps r w =
    let m = msg_at s.heap ptr in
    let after = msgs_outbound_unlink ptr (s.heap, s.head) in
    (
      refl,
      without-IsRing after.0 ptr after.1 (s.head ∷ remove ptr ps)
          (msgs_outbound_unlink-IsRing s.heap s.head ptr ps r w),
      find_data-delete_rows 1 m.friend_number m.id s.db.rows,
      ground arith,
    )
