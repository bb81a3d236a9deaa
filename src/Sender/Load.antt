-- ===== src/Sender/Load.antt =====
-- Outbound messages that an earlier run of the program left: `loadPendingSentMessage(s)`.
pub mod Restores
use tox_defragmenter.Prelude.{
  ℕ, zero, suc, ◌+◌, ◌-◌, [], ◌∷◌, Bool, true, false, not, ltb, ◌&&◌, ◌||◌, if◌then◌else◌, ◌==◌,
  u32, length, Bytes, List, none,
}
use tox_defragmenter.Database.Types.{Db, db_lock, db_unlock}
use tox_defragmenter.Database.Outbound.{Pending, select_outbound_pending, db_clear_outbound_pending}
use tox_defragmenter.Sender.Types.{Fragment, MsgOutbound}
use tox_defragmenter.Sender.Split.{split_message}
use tox_defragmenter.Sender.Heap.{allocate, msgs_outbound_link, msg_outbound_delete}
use tox_defragmenter.Sender.State.{State}

-- The loop over the parts: a part that was confirmed has no data any more.
pub restore_fragments : List Fragment → Bytes → List Fragment
restore_fragments [] confirmed = []
restore_fragments (f ∷ fs) [] = f ∷ fs
restore_fragments (f ∷ fs) (c ∷ cs) =
    let f' = record f { confirmed = c } in
    (if c == 0 then f' else record f' { bytes = none }) ∷ restore_fragments fs cs

pub count_confirmed : Bytes → ℕ
count_confirmed [] = 0
count_confirmed (c ∷ cs) = (if c == 0 then 0 else 1) + count_confirmed cs

-- The message with the confirmations of the database.
unfoldable pub restore : Pending → MsgOutbound → MsgOutbound
restore p m = record m {
  fragments = restore_fragments m.fragments p.confirmed;
  num_confirmed = count_confirmed p.confirmed;
}

-- `dbClearOutboundPending(friend_number, id); msgOutboundDelete(msg);`
abbrev pub discard : Pending → ℕ → State → State
discard p ptr s = record s {
  db = db_clear_outbound_pending p.friend_number p.id s.db;
  heap = msg_outbound_delete ptr s.heap;
}

unfoldable pub load_pending_sent_message : Pending → State → State
load_pending_sent_message p s =
    let m0 = split_message s.ever p.message s.params.max_message_length p.id in
    let m = restore p m0 in
    let m' = record m { friend_number = p.friend_number; from_db = 1 } in
    let (h0, ptr) = allocate m0 s.heap in
    let (h, _) = allocate m s.heap in
    let linked = msgs_outbound_link ptr ((allocate m' s.heap).0, s.head) in
    if not (m0.num_parts == p.num_parts) || not (m0.num_parts == length p.confirmed)
    then discard p ptr (record s { heap = h0 })
    else if not (p.num_confirmed == m.num_confirmed) || ltb p.num_parts p.num_confirmed
    then discard p ptr (record s { heap = h })
    else if ltb m.num_confirmed p.num_parts
    then record s { heap = linked.0; head = linked.1 }
    else discard p ptr (record s { heap = h })

unfoldable pub load_each : List Pending → State → State
load_each [] s = s
load_each (p ∷ ps) s = load_each ps (load_pending_sent_message p s)

-- `dbLoadPendingSentMessages` holds the lock around the calls.
unfoldable pub load_pending_sent_messages : State → State
load_pending_sent_messages s =
    let s' =
      load_each (select_outbound_pending s.db.meta s.db.rows) (record s { db = db_lock s.db }) in
    record s' { db = db_unlock s'.db }
