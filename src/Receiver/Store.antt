-- ===== src/Receiver/Store.antt =====
-- One fragment of a message that is being received: what the database does with it.
use mathlib.Core.List.{flatten}
use tox_defragmenter.Prelude.{
  ℕ, ◌^◌, ◌≤◌, ◌<◌, Bool, true, false, Bytes, ◌≡◌, ◌≢◌, refl, ap, ◌∙◌, arith, if◌then◌else◌, List,
  none, some, length, set, get_or, length-set, u32, take, take_all,
}
use tox_defragmenter.Database.Types.{MetaRow, DataRow, Db, ok}
use tox_defragmenter.Database.Statements.{
  find_meta, find_data, row_at, put_message, count_done, count_matches, done_once, write_at,
  read_message_byte, write_message, update_fragmented_meta_done, in_blob,
}
use tox_defragmenter.Database.Rows.{
  find_data-put_message, row_at-put_message, find_meta-count_done, count_matches-count_done,
}
use tox_defragmenter.Database.Inbound.{Inbound, finish_inbound, store_fragment}
use tox_defragmenter.Receiver.Mask.{
  masked, offset, piece, arrived, count, write_at-masked, get_or-masked, length-masked,
  offset-piece-le, count-set,
}

-- The rows of a message from a friend, when the pieces that `bs` marks have arrived.
pub record Receiving (friend id : ℕ) (ps : List Bytes) (bs : List Bool) (db : Db) : Type 0 where
  pub meta : MetaRow
  pub row : DataRow
  pub meta_found : find_meta 0 friend id db.meta ≡ some meta
  pub meta_once : count_matches 0 friend id db.meta ≡ 1
  pub done : meta.frags_done ≡ count bs
  pub num : meta.frags_num ≡ length ps
  pub row_found : find_data 0 friend id db.rows ≡ some row
  pub row_opened : row_at row.rowid db.rows ≡ some row
  pub rowid_pos : 1 ≤ row.rowid
  pub blob : row.message ≡ masked bs ps
  pub marks : length bs ≡ length ps

-- The fragment of piece `k`, counted from 0.
abbrev pub fragment_of : (friend id type tm : ℕ) (ps : List Bytes) (k : ℕ) → Inbound
fragment_of friend id type tm ps k = record {
  friend_number = friend;
  type = type;
  id = id;
  num_parts = length ps;
  off = offset k ps;
  sz = length (flatten ps);
  new = piece k ps;
  len = length (piece k ps);
  tm = tm;
}

-- The database when the piece was written and counted.
abbrev pub stored : (friend id tm : ℕ) (ps : List Bytes) (bs : List Bool) (k rowid : ℕ) → Db → Db
stored friend id tm ps bs k rowid db = record db {
  meta = count_done 0 tm friend id db.meta;
  rows = put_message rowid (masked (set bs k true) ps) db.rows;
}

module _ (friend id : ℕ) (ps : List Bytes) (small : length (flatten ps) < 2 ^ 31) (bs : List Bool)
    (k : ℕ) (inside : k < length ps) (filled : 1 ≤ length (piece k ps)) where
  -- The first byte that the blob holds at the place of the piece.
  read_first :
      (db : Db) (v : Receiving friend id ps bs db)
      → read_message_byte v.row.rowid (offset k ps) db
        ≡ ok (if arrived k bs then get_or (piece k ps) 0 0 else 0)
  unfolding read_message_byte
  read_first db v =
      let fits = offset-piece-le k ps inside in
      let size = length-masked bs ps v.marks in
      ground (arith, v.row_opened, v.blob, get_or-masked k bs ps inside v.marks filled)

  write_piece :
      (db : Db) (v : Receiving friend id ps bs db)
      → write_message v.row.rowid (piece k ps) (length (piece k ps)) (offset k ps) db
        ≡ ok (record db { rows = put_message v.row.rowid (masked (set bs k true) ps) db.rows })
  unfolding write_message
  write_piece db v =
      let n = length (piece k ps) in
      let fits = offset-piece-le k ps inside in
      let size = length-masked bs ps v.marks in
      let len : u32 n ≡ n = omega arith in
      let whole : take (u32 n) (piece k ps) ≡ piece k ps =
        rw len (take_all n (piece k ps) (omega arith)) in
      let wrote : write_at v.row.message (offset k ps) (take (u32 n) (piece k ps))
          ≡ masked (set bs k true) ps =
        rw (whole, v.blob) (write_at-masked k bs ps inside v.marks) in
      let room : in_blob v.row.message (u32 n) (offset k ps) ≡ true =
        ground (arith, ap length v.blob) in
      rw (v.row_opened, write_message) (rw (room, wrote))

  -- The database that results is that of the same message with one more piece.
  pub stored-Receiving :
      (db : Db) (tm : ℕ) (v : Receiving friend id ps bs db)
      → arrived k bs ≡ false
      → Receiving friend id ps (set bs k true) (stored friend id tm ps bs k v.row.rowid db)
  stored-Receiving db tm v fresh = record {
    meta = done_once tm v.meta;
    row = record (v.row) { message = masked (set bs k true) ps };
    meta_found = find_meta-count_done 0 friend id db.meta tm v.meta v.meta_found;
    meta_once = count_matches-count_done 0 friend id db.meta tm ∙ v.meta_once;
    done = omega (arith, v.done, count-set k bs (omega (arith, v.marks)) fresh);
    num = v.num;
    row_found = find_data-put_message 0 friend id db.rows v.row _ v.row_found v.row_opened;
    row_opened = row_at-put_message db.rows v.row _ v.row_opened;
    rowid_pos = v.rowid_pos;
    blob = refl;
    marks = length-set bs k true ∙ v.marks;
  }

  -- A piece that is missing is written and counted.
  pub store_missing :
      (db : Db) (type tm : ℕ) (v : Receiving friend id ps bs db)
      → arrived k bs ≡ false
      → store_fragment (fragment_of friend id type tm ps k) v.row.rowid db
        ≡ finish_inbound
            (fragment_of friend id type tm ps k)
            (stored friend id tm ps bs k v.row.rowid db)
  unfolding store_fragment update_fragmented_meta_done
  store_missing db type tm v fresh =
      rw (read_first db v, fresh) (rw (write_piece db v) (ground (arith, v.meta_once)))

  -- A piece that has arrived before is recognised when its first byte is not 0, and changes nothing.
  pub store_duplicate :
      (db : Db) (type tm : ℕ) (v : Receiving friend id ps bs db)
      → arrived k bs ≡ true
      → get_or (piece k ps) 0 0 ≢ 0
      → store_fragment (fragment_of friend id type tm ps k) v.row.rowid db ≡ ok (db, none)
  unfolding store_fragment
  store_duplicate db type tm v old byte = rw (read_first db v, old) (ground arith)
