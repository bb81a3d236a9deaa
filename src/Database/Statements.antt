-- ===== src/Database/Statements.antt =====
-- The SQL statements and the incremental blob calls of database.c, one function each.
-- Numbers are bound within the range of SQLite's integers; a constraint that fails aborts.
use tox_defragmenter.Prelude.{
  ℕ, ◌+◌, ◌^◌, [], ◌∷◌, ◌++◌, Bool, ◌&&◌, Bytes, ltb, leb, if◌then◌else◌, ◌==◌, u32, length, take,
  drop, get_or, replicate, List, Option, none, some, max,
}
use tox_defragmenter.Database.Types.{MetaRow, DataRow, Db, Result, ok, aborted}

-- `outbound=? AND friend_id=? AND frags_id=?`
abbrev pub meta_matches : ℕ → ℕ → ℕ → MetaRow → Bool
meta_matches out friend id r = r.outbound == out && (r.friend_id == friend && r.frags_id == id)

abbrev pub data_matches : ℕ → ℕ → ℕ → DataRow → Bool
data_matches out friend id r = r.outbound == out && (r.friend_id == friend && r.frags_id == id)

unfoldable pub find_meta : ℕ → ℕ → ℕ → List MetaRow → Option MetaRow
find_meta out friend id [] = none
find_meta out friend id (r ∷ rs) =
    if meta_matches out friend id r then some r else find_meta out friend id rs

unfoldable pub find_data : ℕ → ℕ → ℕ → List DataRow → Option DataRow
find_data out friend id [] = none
find_data out friend id (r ∷ rs) =
    if data_matches out friend id r then some r else find_data out friend id rs

unfoldable pub row_at : ℕ → List DataRow → Option DataRow
row_at rowid [] = none
row_at rowid (r ∷ rs) = if r.rowid == rowid then some r else row_at rowid rs

-- The rowid of a new row is SQLite's choice.
module _ (new_rowid : List DataRow → ℕ) where
  -- INSERT INTO fragmented_data … SELECT 0, ?, ?, zeroblob(?) WHERE NOT EXISTS (… fragmented_meta …)
  unfoldable pub insert_data_inbound : ℕ → ℕ → ℕ → Db → Result Db
  insert_data_inbound friend id sz db = elim (find_meta 0 friend id db.meta) [
    | some m ↦ ok db
    | none ↦ elim (find_data 0 friend id db.rows) [
      | some r ↦ aborted
      | none ↦ ok (record db {
        rows =
            record {
              rowid = new_rowid db.rows;
              outbound = 0;
              friend_id = friend;
              frags_id = id;
              message = replicate sz 0;
              confirmed = none;
              receipt = none;
            }
            ∷ db.rows;
      })
    ]
  ]

  -- INSERT INTO fragmented_data … VALUES(1, ?, ?, ?, zeroblob(?), ?). The code binds the number of parts
  -- and the receipt as `int`; the conversions are part of `run_insert_data_outbound`.
  unfoldable pub insert_data_outbound : ℕ → ℕ → Bytes → ℕ → ℕ → Db → Result Db
  insert_data_outbound friend id message num_parts receipt db =
      elim (find_data 1 friend id db.rows) [
        | some r ↦ aborted
        | none ↦ ok (record db {
          rows =
              record {
                rowid = new_rowid db.rows;
                outbound = 1;
                friend_id = friend;
                frags_id = id;
                message = message;
                confirmed = some (replicate num_parts 0);
                receipt = some receipt;
              }
              ∷ db.rows;
        })
      ]

abbrev pub new_meta : ℕ → ℕ → ℕ → ℕ → ℕ → ℕ → MetaRow
new_meta out friend type id tm num_parts = record {
  outbound = out;
  friend_id = friend;
  type = type;
  frags_id = id;
  timestamp_first = tm;
  timestamp_last = tm;
  frags_done = 0;
  frags_num = num_parts;
}

-- INSERT INTO fragmented_meta … SELECT 0, ?, ?, ?, ?, ?, 0, ? WHERE NOT EXISTS (…)
unfoldable pub insert_meta_inbound : ℕ → ℕ → ℕ → ℕ → ℕ → Db → Db
insert_meta_inbound friend type id tm num_parts db = elim (find_meta 0 friend id db.meta) [
  | some m ↦ db
  | none ↦ record db { meta = new_meta 0 friend type id tm num_parts ∷ db.meta }
]

-- INSERT INTO fragmented_meta … VALUES(1, ?, ?, ?, ?, ?, 0, ?)
unfoldable pub insert_meta_outbound : ℕ → ℕ → ℕ → ℕ → ℕ → Db → Result Db
insert_meta_outbound friend type id tm num_parts db = elim (find_meta 1 friend id db.meta) [
  | some m ↦ aborted
  | none ↦ ok (record db { meta = new_meta 1 friend type id tm num_parts ∷ db.meta })
]

-- `getFragmentsDataRowid`: SELECT rowid …, or 0.
unfoldable pub get_fragments_data_rowid : ℕ → ℕ → ℕ → Db → ℕ
get_fragments_data_rowid out friend id db = elim (find_data out friend id db.rows) [
  | none ↦ 0
  | some r ↦ r.rowid
]

-- A write at an offset leaves the size of a blob as it is.
unfoldable pub write_at : Bytes → ℕ → Bytes → Bytes
write_at blob off new = take off blob ++ (new ++ drop (off + length new) blob)

-- Whether `sqlite3_blob_read` and `sqlite3_blob_write` accept so many bytes at an offset: both are
-- ints, and the range must lie in the blob.
abbrev pub in_blob : Bytes → ℕ → ℕ → Bool
in_blob blob n off = ltb n (2 ^ 31) && (ltb off (2 ^ 31) && leb (off + n) (length blob))

-- `openBlob` on the column message, `readBlob` of one byte, `closeBlob`.
unfoldable pub read_message_byte : ℕ → ℕ → Db → Result ℕ
read_message_byte rowid off db = elim (row_at rowid db.rows) [
  | none ↦ aborted
  | some r ↦ if in_blob r.message 1 off then ok (get_or r.message off 0) else aborted
]

unfoldable pub put_message : ℕ → Bytes → List DataRow → List DataRow
put_message rowid m [] = []
put_message rowid m (r ∷ rs) =
    if r.rowid == rowid then record r { message = m } ∷ rs else r ∷ put_message rowid m rs

unfoldable pub put_confirmed : ℕ → Bytes → List DataRow → List DataRow
put_confirmed rowid c [] = []
put_confirmed rowid c (r ∷ rs) =
    if r.rowid == rowid then record r { confirmed = some c } ∷ rs else r ∷ put_confirmed rowid c rs

-- `writeBlob` to the column message: `len` bytes of `new`; the length is passed as an unsigned.
unfoldable pub write_message : ℕ → Bytes → ℕ → ℕ → Db → Result Db
write_message rowid new len off db = elim (row_at rowid db.rows) [
  | none ↦ aborted
  | some r ↦
      if in_blob r.message (u32 len) off
      then ok (record db {
        rows = put_message rowid (write_at r.message off (take (u32 len) new)) db.rows;
      })
      else aborted
]

-- `openBlob` on the column confirmed, and `writeBlob` of the byte 1. NULL cannot be opened.
unfoldable pub write_confirmed : ℕ → ℕ → Db → Result Db
write_confirmed rowid off db = elim (row_at rowid db.rows) [
  | none ↦ aborted
  | some r ↦ elim r.confirmed [
    | none ↦ aborted
    | some c ↦
        if in_blob c 1 off
        then ok (record db { rows = put_confirmed rowid (write_at c off (1 ∷ [])) db.rows })
        else aborted
  ]
]

-- The time is bound as an int, of which a negative one is never the greater.
abbrev pub as_int : ℕ → ℕ
as_int tm = if ltb (u32 tm) (2 ^ 31) then u32 tm else 0

abbrev pub done_once : ℕ → MetaRow → MetaRow
done_once tm r = record r {
  timestamp_last = max r.timestamp_last (as_int tm);
  frags_done = r.frags_done + 1;
}

unfoldable pub count_done : ℕ → ℕ → ℕ → ℕ → List MetaRow → List MetaRow
count_done out tm friend id [] = []
count_done out tm friend id (r ∷ rs) =
    (if meta_matches out friend id r then done_once tm r else r) ∷ count_done out tm friend id rs

unfoldable pub count_matches : ℕ → ℕ → ℕ → List MetaRow → ℕ
count_matches out friend id [] = 0
count_matches out friend id (r ∷ rs) =
    (if meta_matches out friend id r then 1 else 0) + count_matches out friend id rs

-- `updateFragmentedMetaDone`: UPDATE … ; exactly one row must change.
unfoldable pub update_fragmented_meta_done : ℕ → ℕ → ℕ → ℕ → Db → Result Db
update_fragmented_meta_done out tm friend id db =
    if count_matches out friend id db.meta == 1
    then ok (record db { meta = count_done out tm friend id db.meta })
    else aborted

unfoldable pub delete_rows : ℕ → ℕ → ℕ → List DataRow → List DataRow
delete_rows out friend id [] = []
delete_rows out friend id (r ∷ rs) =
    if data_matches out friend id r
    then delete_rows out friend id rs
    else r ∷ delete_rows out friend id rs

-- `deleteDataRecord`: DELETE FROM fragmented_data WHERE …
unfoldable pub delete_data_record : ℕ → ℕ → ℕ → Db → Db
delete_data_record out friend id db = record db { rows = delete_rows out friend id db.rows }
