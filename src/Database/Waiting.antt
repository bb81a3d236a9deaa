-- ===== src/Database/Waiting.antt =====
-- An outbound message in the database, from `dbInsertOutboundMessage` over `dbOutboundPartConfirmed` to
-- `dbLoadPendingSentMessages`.
use tox_defragmenter.Prelude.{
  ℕ, zero, suc, ◌+◌, ◌-◌, ◌^◌, ◌≤◌, ◌<◌, ◌≡◌, [], ◌∷◌, List, if◌then◌else◌, ◌==◌, u32, refl, sym,
  ap, ◌∙◌, arith, length, some, none, Bytes, get_or, set, replicate, length-set, length-replicate,
}
use tox_defragmenter.Database.Types.{MetaRow, DataRow, Db, ok, db_lock, db_unlock}
use tox_defragmenter.Database.Statements.{
  find_meta, find_data, row_at, put_confirmed, write_at, write_confirmed, count_done, count_matches,
  done_once, insert_data_outbound, insert_meta_outbound, new_meta, get_fragments_data_rowid,
  update_fragmented_meta_done,
}
use tox_defragmenter.Database.Rows.{
  find_data-matches, find_meta-count_done, count_matches-count_done, count_matches-none,
}
use tox_defragmenter.Database.Outbound.{db_insert_outbound_message, db_outbound_part_confirmed}

-- How many of the bytes are not 0.
unfoldable pub count_set : Bytes → ℕ
count_set [] = 0
count_set (c ∷ cs) = (if c == 0 then 0 else 1) + count_set cs

-- The rows of an outbound message whose confirmed parts `cs` marks.
pub record Waiting (friend id type : ℕ) (message : Bytes) (receipt : ℕ) (cs : Bytes) (db : Db)
    : Type 0 where
  pub meta : MetaRow
  pub row : DataRow
  pub meta_found : find_meta 1 friend id db.meta ≡ some meta
  pub meta_once : count_matches 1 friend id db.meta ≡ 1
  pub meta_type : meta.type ≡ type
  pub done : meta.frags_done ≡ count_set cs
  pub num : meta.frags_num ≡ length cs
  pub row_found : find_data 1 friend id db.rows ≡ some row
  pub row_opened : row_at row.rowid db.rows ≡ some row
  pub rowid_pos : 1 ≤ row.rowid
  pub text : row.message ≡ message
  pub marks : row.confirmed ≡ some cs
  pub number : row.receipt ≡ some receipt

write_at-set : (cs : Bytes) (i : ℕ) → i < length cs → write_at cs i (1 ∷ []) ≡ set cs i 1
unfolding write_at
write_at-set [] i h = elim h [ ]
write_at-set (c ∷ cs) zero h = refl
write_at-set (c ∷ cs) (suc i) h =
    let e : suc i + 1 ≡ suc (i + 1) = omega arith in
    rw e (ap (◌∷◌ c) (write_at-set cs i (omega arith)))

pub count_set-set :
    (cs : Bytes) (i : ℕ)
    → i < length cs
    → get_or cs i 0 ≡ 0
    → count_set (set cs i 1) ≡ count_set cs + 1
unfolding count_set
count_set-set [] i h e = elim h [ ]
count_set-set (c ∷ cs) zero h e = ground arith
count_set-set (c ∷ cs) (suc i) h e = ground (arith, count_set-set cs i (omega arith) e)

count_set_none : (n : ℕ) → count_set (replicate n 0) ≡ 0
unfolding count_set
count_set_none zero = refl
count_set_none (suc n) = ground (arith, count_set_none n)

find_data-put_confirmed :
    (friend id : ℕ) (rows : List DataRow) (r : DataRow) (c : Bytes)
    → find_data 1 friend id rows ≡ some r
    → row_at r.rowid rows ≡ some r
    → find_data 1 friend id (put_confirmed r.rowid c rows) ≡ some (record r { confirmed = some c })
unfolding find_data row_at put_confirmed
find_data-put_confirmed friend id [] r c h k = cc
find_data-put_confirmed friend id (x ∷ rows) r c h k = ground (
  arith,
  find_data-put_confirmed friend id rows r c,
  find_data-matches 1 friend id (x ∷ rows) r h,
)

row_at-put_confirmed :
    (rows : List DataRow) (r : DataRow) (c : Bytes)
    → row_at r.rowid rows ≡ some r
    → row_at r.rowid (put_confirmed r.rowid c rows) ≡ some (record r { confirmed = some c })
unfolding row_at put_confirmed
row_at-put_confirmed [] r c k = cc
row_at-put_confirmed (x ∷ rows) r c k = ground (arith, row_at-put_confirmed rows r c)

module _ (friend id type : ℕ) (message : Bytes) (receipt : ℕ) where
  -- The database has no outbound message with the friend and the id, and SQLite chooses a rowid
  -- other than 0. Then `dbInsertOutboundMessage` does not abort, makes the rows of a message none
  -- of whose parts is confirmed, and gives the lock back.
  pub db_insert_outbound_message-Waiting :
      (new_rowid : List DataRow → ℕ) (tm num_parts : ℕ) (db : Db)
      → 1 ≤ new_rowid db.rows
      → find_meta 1 friend id db.meta ≡ none
      → find_data 1 friend id db.rows ≡ none
      → (db' : Db) × (db_insert_outbound_message new_rowid friend type id tm num_parts message
            receipt db
          ≡ ok db')
        × (db'.held ≡ db.held)
        × Waiting friend id type message receipt (replicate num_parts 0) db'
  unfolding db_insert_outbound_message insert_data_outbound insert_meta_outbound find_meta find_data
      row_at count_matches
  db_insert_outbound_message-Waiting new_rowid tm num_parts db pos no_meta no_data =
      let row : DataRow = record {
        rowid = new_rowid db.rows;
        outbound = 1;
        friend_id = friend;
        frags_id = id;
        message = message;
        confirmed = some (replicate num_parts 0);
        receipt = some receipt;
      } in
      let db' : Db = record (db_unlock (db_lock db)) {
        meta = new_meta 1 friend type id tm num_parts ∷ db.meta;
        rows = row ∷ db.rows;
      } in
      (
        db',
        ground (arith, no_meta, no_data),
        ground arith,
        record {
          meta = new_meta 1 friend type id tm num_parts;
          row = row;
          meta_found = ground arith;
          meta_once = ground (arith, count_matches-none 1 friend id db.meta no_meta);
          meta_type = refl;
          done = sym (count_set_none num_parts);
          num = sym (length-replicate {A = ℕ} num_parts 0);
          row_found = ground arith;
          row_opened = ground arith;
          rowid_pos = pos;
          text = refl;
          marks = refl;
          number = refl;
        },
      )

  -- A pending message of less than 2^31 parts has its rows, and a part with a number from 1 to the
  -- number of parts is not marked as confirmed. Then `dbOutboundPartConfirmed` does not abort,
  -- marks the part and counts it, leaves the rest of the rows of the message, and gives the lock
  -- back.
  pub db_outbound_part_confirmed-Waiting :
      (part_no tm : ℕ) (cs : Bytes) (db : Db)
      → Waiting friend id type message receipt cs db
      → 1 ≤ part_no
      → part_no ≤ length cs
      → length cs < 2 ^ 31
      → get_or cs (part_no - 1) 0 ≡ 0
      → (db' : Db) × (db_outbound_part_confirmed friend id part_no tm db ≡ ok db')
        × (db'.held ≡ db.held)
        × Waiting friend id type message receipt (set cs (part_no - 1) 1) db'
  unfolding db_outbound_part_confirmed get_fragments_data_rowid write_confirmed
      update_fragmented_meta_done
  db_outbound_part_confirmed-Waiting part_no tm cs db v lo hi small new =
      let i = part_no - 1 in
      let off : u32 (part_no + 2 ^ 32 - 1) ≡ i = omega arith in
      let wrote = write_at-set cs i (omega arith) in
      let marked = set cs i 1 in
      let db' : Db = record (db_unlock (db_lock db)) {
        meta = count_done 1 tm friend id db.meta;
        rows = put_confirmed v.row.rowid marked db.rows;
      } in
      (
        db',
        ground (arith, v.row_found, v.row_opened, v.rowid_pos, v.marks, off, wrote, v.meta_once),
        ground arith,
        record {
          meta = done_once tm v.meta;
          row = record (v.row) { confirmed = some marked };
          meta_found = find_meta-count_done 1 friend id db.meta tm v.meta v.meta_found;
          meta_once = count_matches-count_done 1 friend id db.meta tm ∙ v.meta_once;
          meta_type = v.meta_type;
          done = omega (arith, v.done, count_set-set cs i (omega arith) new);
          num = v.num ∙ sym (length-set cs i 1);
          row_found =
              find_data-put_confirmed friend id db.rows v.row marked v.row_found v.row_opened;
          row_opened = row_at-put_confirmed db.rows v.row marked v.row_opened;
          rowid_pos = v.rowid_pos;
          text = v.text;
          marks = refl;
          number = v.number;
        },
      )
