-- ===== src/Tests/Receiving.antt =====
-- The receiver at concrete inputs.
use mathlib.Core.List.{flatten}
use tox_defragmenter.Prelude.{
  ℕ, ◌+◌, ◌++◌, [], ◌∷◌, ◌≡◌, ◌≢◌, ◌≤◌, ◌<◌, ◌^◌, refl, arith, Bytes, List, length, some, none,
  true, false, All, AllDiffer, inl, get_or,
}
use tox_defragmenter.Decimal.{decimal, digits}
use tox_defragmenter.Marker.{
  MarkerInfo, marker_print, marker_text, marker_parse, num_digits, num_digits_loop,
  marker_max_size_bytes,
}
use tox_defragmenter.Marker.RoundTrip.{marker_parse-marker_print}
use tox_defragmenter.Database.Types.{MetaRow, DataRow, Db, ok, aborted}
use tox_defragmenter.Database.Statements.{find_meta, find_data, row_at, count_matches}
use tox_defragmenter.Database.Inbound.{db_insert_inbound_fragment}
use tox_defragmenter.Sender.Types.{MsgOutbound}
use tox_defragmenter.Sender.Split.{
  split_message, marker_max_size_ever, reserved, max_piece, size_minus, parts_of,
}
use tox_defragmenter.Receiver.{friend_message_cb}
use tox_defragmenter.Receiver.Mask.{masked, piece, count}
use tox_defragmenter.Receiver.Store.{fragment_of, Receiving}
use tox_defragmenter.Receiver.Phase.{absent, Comes, next_phase}
use tox_defragmenter.Receiver.Insert.{db_insert_inbound_fragment-Comes}
use tox_defragmenter.Receiver.Reassembly.{Delivered, arrivals, parts, receive_all}
use tox_defragmenter.Receiver.Delivery.{split_message-delivers}
use tox_defragmenter.Receiver.Faults.{friend_message_cb-aborts, db_insert_inbound_fragment-leaks}
use tox_defragmenter.Tests.Data.{
  text, test_id, test_id-IsMarkerId, empty_db, fresh_rowid, fresh_rowid_pos,
}

-- The second fragment arrives before the first.
abbrev swapped : List (ℕ × ℕ)
swapped = (5, 1) ∷ (6, 0) ∷ []

abbrev msg : MsgOutbound
msg = split_message marker_max_size_ever text 64 test_id

two_parts : msg.num_parts ≡ 2
unfolding split_message reserved max_piece size_minus parts_of marker_max_size_bytes num_digits
    num_digits_loop
two_parts = refl

swapped-AllDiffer : AllDiffer (parts swapped)
swapped-AllDiffer = ((λ e. absurd (omega (arith, e)), tt), (tt, tt))

swapped_inside : All (λ k. k < msg.num_parts) (parts swapped)
swapped_inside = (omega (arith, two_parts), (omega (arith, two_parts), tt))

empty_meta : find_meta 0 3 test_id empty_db.meta ≡ none
unfolding find_meta
empty_meta = refl

empty_data : find_data 0 3 test_id empty_db.rows ≡ none
unfolding find_data
empty_data = refl

split_message-delivers_example :
    Delivered 3 0 test_id text
      (receive_all fresh_rowid 3 0 (arrivals msg.fragments swapped) empty_db)
split_message-delivers_example =
    split_message-delivers fresh_rowid fresh_rowid_pos text 64 3 0 test_id test_id-IsMarkerId
      (omega arith) (omega arith) (omega arith) swapped empty_db empty_meta empty_data
      swapped-AllDiffer swapped_inside (omega (arith, two_parts))

abbrev two_pieces : List Bytes
two_pieces = (1 ∷ 2 ∷ []) ∷ (3 ∷ []) ∷ []

two_pieces_short : length (flatten two_pieces) < 2 ^ 31
unfolding flatten
two_pieces_short = omega arith

first_filled : 1 ≤ length (piece 0 two_pieces)
unfolding piece
first_filled = omega arith

db_insert_inbound_fragment-Comes_example :
    Comes 3 test_id two_pieces 1
      (next_phase 2 absent 0)
      (db_insert_inbound_fragment fresh_rowid (fragment_of 3 test_id 1 5 two_pieces 0) empty_db)
db_insert_inbound_fragment-Comes_example =
    db_insert_inbound_fragment-Comes 3 test_id two_pieces two_pieces_short 0 (omega arith)
      first_filled 1 5 fresh_rowid absent empty_db (empty_meta, empty_data) tt (fresh_rowid_pos [])

-- The offset 9 is not below the size 5.
abbrev outside : Bytes
outside = (marker_print test_id 1 1 9 5).0 ++ 8 ∷ []

abbrev outside_len : ℕ
outside_len = (marker_print test_id 1 1 9 5).1 + 1

abbrev outside_info : MarkerInfo
outside_info = record {
  id = test_id;
  part_no = 1;
  num_parts = 1;
  off = 9;
  sz = 5;
  size = (marker_print test_id 1 1 9 5).1;
}

outside_long : 27 < outside_len
unfolding marker_print marker_text decimal digits
outside_long = omega arith

outside_short : outside_len < 2 ^ 31
unfolding marker_print marker_text decimal digits
outside_short = omega arith

outside_parsed : marker_parse outside outside_len ≡ some outside_info
outside_parsed =
    marker_parse-marker_print test_id 1 1 9 5 (8 ∷ []) test_id-IsMarkerId (omega arith)
      (omega arith) (omega arith) (omega arith) outside_long

friend_message_cb-aborts_example :
    friend_message_cb fresh_rowid 3 0 outside outside_len 7 empty_db ≡ aborted
friend_message_cb-aborts_example =
    friend_message_cb-aborts fresh_rowid 3 0 outside outside_len 7 empty_db outside_info
      (fresh_rowid_pos []) outside_short outside_parsed empty_meta empty_data (inl (omega arith))

-- The first of two pieces has arrived.
abbrev half_meta : MetaRow
half_meta = record {
  outbound = 0;
  friend_id = 3;
  type = 1;
  frags_id = test_id;
  timestamp_first = 5;
  timestamp_last = 5;
  frags_done = 1;
  frags_num = 2;
}

abbrev half_row : DataRow
half_row = record {
  rowid = 1;
  outbound = 0;
  friend_id = 3;
  frags_id = test_id;
  message = 1 ∷ 2 ∷ 0 ∷ [];
  confirmed = none;
  receipt = none;
}

abbrev half_db : Db
half_db = record { meta = half_meta ∷ []; rows = half_row ∷ []; lock_set = true; held = 0 }

half-Receiving : Receiving 3 test_id two_pieces (true ∷ false ∷ []) half_db
unfolding find_meta find_data row_at count_matches masked count
half-Receiving = record {
  meta = half_meta;
  row = half_row;
  meta_found = refl;
  meta_once = refl;
  done = refl;
  num = refl;
  row_found = refl;
  row_opened = refl;
  rowid_pos = omega arith;
  blob = refl;
  marks = refl;
}

first_byte : get_or (piece 0 two_pieces) 0 0 ≢ 0
unfolding piece
first_byte = λ e. absurd (omega (arith, e))

db_insert_inbound_fragment-leaks_example :
    db_insert_inbound_fragment fresh_rowid (fragment_of 3 test_id 1 5 two_pieces 0) half_db
    ≡ ok (record half_db { held = 1 }, none)
db_insert_inbound_fragment-leaks_example =
    db_insert_inbound_fragment-leaks fresh_rowid 3 1 test_id 5 0 two_pieces (true ∷ false ∷ [])
      half_db two_pieces_short (omega arith) first_filled half-Receiving refl first_byte refl
