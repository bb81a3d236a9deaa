-- ===== src/Tests/Sending.antt =====
-- The sender at concrete inputs.
use tox_defragmenter.Prelude.{
  ℕ, zero, suc, ◌+◌, ◌-◌, [], ◌∷◌, ◌≡◌, ◌≤◌, ◌<◌, refl, arith, Bytes, length, some, none, true,
  false, max, map, replicate, get_or, set,
}
use tox_defragmenter.Marker.{
  marker_exists, marker_parse, marker_parse_fields, is_marker_char, num_digits, num_digits_loop,
  marker_max_size_bytes,
}
use tox_defragmenter.Database.Types.{MetaRow, DataRow, Db, ok}
use tox_defragmenter.Database.Statements.{find_meta, find_data, row_at, count_matches, new_meta}
use tox_defragmenter.Database.Outbound.{
  Pending, db_insert_outbound_message, db_outbound_part_confirmed,
}
use tox_defragmenter.Database.Waiting.{
  Waiting, count_set, db_insert_outbound_message-Waiting, db_outbound_part_confirmed-Waiting,
}
use tox_defragmenter.Sender.Types.{MsgOutbound, Fragment, ReceiptRecord}
use tox_defragmenter.Sender.Split.{
  marker_max_size_ever, split_message, split_loop, reserved, max_piece, size_minus, parts_of,
}
use tox_defragmenter.Sender.Heap.{Heap, msg_at, ring}
use tox_defragmenter.Sender.Send.{Flight, no_fragment, msg_send_next_parts}
use tox_defragmenter.Sender.Send.Flow.{Step, msg_send_next_parts-Bounded}
use tox_defragmenter.Sender.Send.InOrder.{Accepts, log, fragment_packet}
use tox_defragmenter.Sender.State.{State, generate_msg_id, generate_receipt_no, has_receipt}
use tox_defragmenter.Sender.State.Ids.{generate_msg_id-max}
use tox_defragmenter.Sender.State.Fresh.{generate_receipt_no-free}
use tox_defragmenter.Sender.Long.{friend_send_message}
use tox_defragmenter.Sender.Long.Receipt.{HasReceipt}
use tox_defragmenter.Sender.Long.Sends.{pending_row, friend_send_message-sends}
use tox_defragmenter.Sender.Confirm.{note_confirmed}
use tox_defragmenter.Sender.Confirm.Steps.{InStep, note_confirmed-InStep}
use tox_defragmenter.Tests.Data.{
  text, test_id, empty_db, fresh_rowid, fresh_rowid_pos, ready_tox, test_params, quiet, idle,
}

generate_msg_id-max_example :
    ((generate_msg_id ready_tox idle).0 ≡ max (ready_tox.clock 0) (0 + 1))
    × ((generate_msg_id ready_tox idle).1.last_msg_id ≡ (generate_msg_id ready_tox idle).0)
generate_msg_id-max_example = generate_msg_id-max ready_tox idle (omega arith) (omega arith)

few_messages : length (ring (idle.heap, idle.head)) < 1009 + 1 - 1000
unfolding ring
few_messages = omega arith

generate_receipt_no-free_example :
    (r : ℕ) × (s' : State) × (generate_receipt_no idle ≡ ok (r, s'))
    × (has_receipt [] (ring ([], 0)) r ≡ false)
    × (1000 ≤ r)
    × (r ≤ 1009)
    × (s' ≡ record idle { last_receipt = r })
generate_receipt_no-free_example =
    generate_receipt_no-free idle (omega arith) (omega arith) (omega arith) few_messages

-- Two parts, none of them sent.
abbrev part : Bytes → Fragment
part bytes = record {
  size = length bytes;
  bytes = some bytes;
  receipt = 0;
  times_sent = 0;
  confirmed = 0;
}

abbrev waiting_msg : MsgOutbound
waiting_msg = record {
  friend_number = 3;
  id = test_id;
  type = 0;
  num_parts = 2;
  fragments = part (1 ∷ []) ∷ part (2 ∷ []) ∷ [];
  receipt = 1001;
  last_sent = 0;
  num_transit = 0;
  num_confirmed = 0;
  num_loss = 0;
  from_db = 0;
}

abbrev flight : Flight
flight = (waiting_msg, quiet)

msg_send_next_parts-Bounded_example :
    Step flight (msg_send_next_parts ready_tox 1 test_params flight)
    × ((msg_send_next_parts ready_tox 1 test_params flight).0.num_transit ≤ max 0 4)
msg_send_next_parts-Bounded_example =
    msg_send_next_parts-Bounded ready_tox 1 test_params (omega arith) flight

-- The rows of that message.
abbrev waiting_meta : MetaRow
waiting_meta = new_meta 1 3 0 test_id 5 2

abbrev waiting_row : DataRow
waiting_row = record {
  rowid = 1;
  outbound = 1;
  friend_id = 3;
  frags_id = test_id;
  message = 1 ∷ 2 ∷ [];
  confirmed = some (0 ∷ 0 ∷ []);
  receipt = some 1001;
}

abbrev waiting_db : Db
waiting_db = record { meta = waiting_meta ∷ []; rows = waiting_row ∷ []; lock_set = true; held = 0 }

rows-Waiting : Waiting 3 test_id 0 (1 ∷ 2 ∷ []) 1001 (0 ∷ 0 ∷ []) waiting_db
unfolding find_meta find_data row_at count_matches count_set
rows-Waiting = record {
  meta = waiting_meta;
  row = waiting_row;
  meta_found = refl;
  meta_once = refl;
  meta_type = refl;
  done = refl;
  num = refl;
  row_found = refl;
  row_opened = refl;
  rowid_pos = omega arith;
  text = refl;
  marks = refl;
  number = refl;
}

db_outbound_part_confirmed-Waiting_example :
    (db : Db) × (db_outbound_part_confirmed 3 test_id 2 9 waiting_db ≡ ok db)
    × (db.held ≡ 0)
    × Waiting 3 test_id 0 (1 ∷ 2 ∷ []) 1001 (set (0 ∷ 0 ∷ []) (2 - 1) 1) db
db_outbound_part_confirmed-Waiting_example =
    db_outbound_part_confirmed-Waiting 3 test_id 0 (1 ∷ 2 ∷ []) 1001 2 9 (0 ∷ 0 ∷ []) waiting_db
      rows-Waiting (omega arith) (omega arith) (omega arith) refl

no_meta : find_meta 1 3 test_id empty_db.meta ≡ none
unfolding find_meta
no_meta = refl

no_data : find_data 1 3 test_id empty_db.rows ≡ none
unfolding find_data
no_data = refl

db_insert_outbound_message-Waiting_example :
    (db : Db) × (db_insert_outbound_message fresh_rowid 3 0 test_id 5 2 (1 ∷ 2 ∷ []) 1001 empty_db
      ≡ ok db)
    × (db.held ≡ 0)
    × Waiting 3 test_id 0 (1 ∷ 2 ∷ []) 1001 (replicate 2 0) db
db_insert_outbound_message-Waiting_example =
    db_insert_outbound_message-Waiting 3 test_id 0 (1 ∷ 2 ∷ []) 1001 fresh_rowid 5 2 empty_db
      (fresh_rowid_pos []) no_meta no_data

abbrev busy_heap : Heap
busy_heap = record { prev = 1; next = 1; msg = waiting_msg; freed = false } ∷ []

abbrev busy : State
busy = record idle { heap = busy_heap; head = 1; db = waiting_db }

waiting_marks :
    (i : ℕ) → (get_or waiting_msg.fragments i no_fragment).confirmed ≡ get_or (0 ∷ 0 ∷ []) i 0
waiting_marks zero = refl
waiting_marks (suc zero) = refl
waiting_marks (suc (suc i)) = refl

waiting-InStep : InStep waiting_msg (0 ∷ 0 ∷ [])
unfolding count_set
waiting-InStep = record { marks = waiting_marks; count = refl; parts = refl; whole = refl }

abbrev second_part : ReceiptRecord
second_part = record { receipt = 100; msg = 1; part_no = 2; timestamp = 5 }

note_confirmed-InStep_example :
    (s' : State) × (note_confirmed ready_tox second_part busy ≡ ok s')
    × InStep (msg_at s'.heap 1) (set (0 ∷ 0 ∷ []) (2 - 1) 1)
    × Waiting 3 test_id 0 (1 ∷ 2 ∷ []) 1001 (set (0 ∷ 0 ∷ []) (2 - 1) 1) s'.db
    × (s'.channel.table ≡ quiet.table)
note_confirmed-InStep_example =
    note_confirmed-InStep ready_tox second_part busy 0 (1 ∷ 2 ∷ []) 1001 (0 ∷ 0 ∷ [])
      (omega arith, omega arith) waiting-InStep rows-Waiting (omega arith) (omega arith)
      (omega arith) refl

ready_tox-Accepts : (first n : ℕ) → Accepts ready_tox first n
ready_tox-Accepts first n k p lo hi = λ e. absurd (omega (arith, e))

abbrev new_id : ℕ
new_id = (generate_msg_id ready_tox idle).0

abbrev new_msg : MsgOutbound
new_msg = split_message 63 text 64 new_id

two_parts : new_msg.num_parts ≡ 2
unfolding split_message reserved max_piece size_minus parts_of marker_max_size_bytes num_digits
    num_digits_loop
two_parts = refl

two_fragments : length new_msg.fragments ≡ new_msg.num_parts
unfolding split_message split_loop reserved max_piece size_minus parts_of marker_max_size_bytes
    num_digits num_digits_loop
two_fragments = refl

plain : marker_exists text (length text) ≡ false
unfolding marker_exists marker_parse marker_parse_fields is_marker_char
plain = refl

free_meta : find_meta 1 3 new_id empty_db.meta ≡ none
unfolding find_meta
free_meta = refl

free_data : find_data 1 3 new_id empty_db.rows ≡ none
unfolding find_data
free_data = refl

idle-HasReceipt : HasReceipt idle []
idle-HasReceipt = record {
  is_ring = refl;
  low = omega arith;
  high = omega arith;
  fits = omega arith;
  left = omega arith;
}

ever_is : idle.ever ≡ marker_max_size_ever
unfolding marker_max_size_bytes num_digits num_digits_loop
ever_is = refl

friend_send_message-sends_example :
    (receipt : ℕ) × (s' : State) × (friend_send_message ready_tox fresh_rowid 3 1 text idle
      ≡ ok (receipt, s'))
    × ((has_receipt [] (ring ([], 0)) receipt ≡ false) × (1000 ≤ receipt) × (receipt ≤ 1009))
    × (s'.channel.events ≡ log (map (fragment_packet 3 0) new_msg.fragments) [])
    × (s'.db.rows ≡ pending_row fresh_rowid 3 new_id new_msg.num_parts text receipt empty_db ∷ [])
    × (s'.db.meta ≡ new_meta 1 3 1 new_id new_id new_msg.num_parts ∷ [])
friend_send_message-sends_example =
    friend_send_message-sends ready_tox fresh_rowid 3 1 text idle (omega arith) two_fragments
      (omega (arith, two_parts)) (ready_tox-Accepts 0 new_msg.num_parts) [] idle-HasReceipt ever_is
      (omega arith) plain (omega arith) (omega (arith, two_parts)) free_meta free_data

-- The first of the two parts of `text` is confirmed.
abbrev half_done : Pending
half_done = record {
  friend_number = 3;
  type = 1;
  id = new_id;
  tm1 = 5;
  tm2 = 6;
  num_confirmed = 1;
  num_parts = 2;
  message = text;
  confirmed = 1 ∷ 0 ∷ [];
  receipt = 1001;
}
