-- ===== src/Sender/Load/Restores.antt =====
-- What `loadPendingSentMessage` makes of a message in the database.
use tox_defragmenter.Prelude.{ℕ, ◌+◌, ◌==◌, if◌then◌else◌, length, none}
use tox_defragmenter.Database.Outbound.{Pending}
use tox_defragmenter.Sender.Types.{Fragment, MsgOutbound}
use tox_defragmenter.Sender.Split.{split_message}
use tox_defragmenter.Sender.Heap.{Heap, allocate, msgs_outbound_link}
use tox_defragmenter.Sender.State.{State}
use tox_defragmenter.Sender.Load.{restore}

-- A fragment that was confirmed has no data; any other is as the split makes it.
abbrev pub restored : Fragment → ℕ → Fragment
restored f c =
    if c == 0 then record f { confirmed = 0 } else record f { confirmed = c; bytes = none }

abbrev now_split : Pending → State → MsgOutbound
now_split p s = split_message s.ever p.message s.params.max_message_length p.id

-- The message as it is linked.
abbrev loaded : Pending → State → MsgOutbound
loaded p s = record (restore p (now_split p s)) { friend_number = p.friend_number; from_db = 1 }

abbrev linked : Pending → State → Heap × ℕ
linked p s = msgs_outbound_link (length s.heap + 1) ((allocate (loaded p s) s.heap).0, s.head)
