-- ===== src/Sender/Api.antt =====
-- The functions that the client calls: initialisation, parameters, and the question whether a receipt
-- is still to come.
use tox_defragmenter.Prelude.{ℕ, suc, [], Bool, true, false, ◌&&◌, if◌then◌else◌, length}
use tox_defragmenter.Database.Types.{Db}
use tox_defragmenter.Sender.Types.{Params}
use tox_defragmenter.Sender.Receipts.{receipts_initialize}
use tox_defragmenter.Sender.Split.{marker_max_size_ever}
use tox_defragmenter.Sender.Heap.{ring, msgs_outbound_delete_all}
use tox_defragmenter.Sender.State.{State, has_receipt}
use tox_defragmenter.Sender.Load.{load_pending_sent_messages}

-- `initialize`: `markerMaxSizeEver` is set last.
unfoldable pub initialize : State → State
initialize s =
    let s1 = record s {
      channel = record (s.channel) { table = receipts_initialize };
      last_receipt = s.params.receipt_range_lo;
    } in
    record (load_pending_sent_messages s1) { ever = marker_max_size_ever }

abbrev pub if_both : State → State
if_both s = if s.initialized_api && s.initialized_db then initialize s else s

unfoldable pub initialize_api : State → State
initialize_api s = if_both (record s { initialized_api = true })

-- The database is one whose schema has been created.
unfoldable pub initialize_db : Db → State → State
initialize_db db s = if_both (record s { db = db; initialized_db = true })

unfoldable initialize_db_inmemory : State → State
initialize_db_inmemory s = if_both (record s {
  db = record { meta = []; rows = []; lock_set = false; held = 0 };
  initialized_db = true;
})

-- `uninitialize`, the static function and the one of the API.
unfoldable pub uninitialize : State → State
uninitialize s =
    let (h, head) = msgs_outbound_delete_all (suc (length s.heap)) (s.heap, s.head) in
    record s {
      heap = h;
      head = head;
      channel = record (s.channel) { table = record (s.channel.table) { slots = [] } };
      initialized_api = false;
      initialized_db = false;
    }

unfoldable is_receipt_pending : ℕ → State → Bool
is_receipt_pending receipt s = has_receipt s.heap (ring (s.heap, s.head)) receipt

-- The warnings are printed and nothing more.
unfoldable pub set_parameters : Params → State → State
set_parameters ps s = record s { params = ps }
