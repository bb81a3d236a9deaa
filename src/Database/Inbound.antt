-- ===== src/Database/Inbound.antt =====
-- `dbInsertInboundFragment`.
use tox_defragmenter.Prelude.{ℕ, not, Bytes, if◌then◌else◌, ◌==◌, List, Option, none, some}
use tox_defragmenter.Database.Types.{DataRow, Db, Result, ok, ◌>>=◌, db_lock, db_unlock}
use tox_defragmenter.Database.Statements.{
  find_meta, find_data, insert_data_inbound, insert_meta_inbound, get_fragments_data_rowid,
  read_message_byte, write_message, update_fragmented_meta_done, delete_data_record,
}

-- The arguments of `msgReadyCb`.
pub record Ready : Type 0 where
  pub tm1 : ℕ
  pub tm2 : ℕ
  pub friend_number : ℕ
  pub type : ℕ
  pub message : Bytes

-- SELECT … FROM fragmented_meta JOIN fragmented_data … WHERE … AND frags_done = frags_num. The type
-- is that of the fragment at hand.
unfoldable pub select_inbound_done : ℕ → ℕ → ℕ → Db → Option Ready
select_inbound_done friend type id db = elim (find_meta 0 friend id db.meta) [
  | none ↦ none
  | some m ↦ elim (find_data 0 friend id db.rows) [
    | none ↦ none
    | some r ↦
        if m.frags_done == m.frags_num
        then some (record {
          tm1 = m.timestamp_first;
          tm2 = m.timestamp_last;
          friend_number = m.friend_id;
          type = type;
          message = r.message;
        })
        else none
  ]
]

-- A fragment as `processInFragment` hands it over: `len` bytes of `new` are its data.
pub record Inbound : Type 0 where
  pub friend_number : ℕ
  pub type : ℕ
  pub id : ℕ
  pub num_parts : ℕ
  pub off : ℕ
  pub sz : ℕ
  pub new : Bytes
  pub len : ℕ
  pub tm : ℕ

-- The end: the callback with the whole message if no fragment is missing.
unfoldable pub finish_inbound : Inbound → Db → Result (Db × Option Ready)
finish_inbound f db = elim (select_inbound_done f.friend_number f.type f.id db) [
  | none ↦ ok (db_unlock db, none)
  | some ready ↦ ok (db_unlock (delete_data_record 0 f.friend_number f.id db), some ready)
]

-- From the blob on. A first byte that is not 0 means a duplicate: the code returns without a call of
-- `dbUnlock`.
unfoldable pub store_fragment : Inbound → ℕ → Db → Result (Db × Option Ready)
store_fragment f rowid db = do
  first ← read_message_byte rowid f.off db
  if not (first == 0) then ok (db, none) else do
    written ← write_message rowid f.new f.len f.off db
    counted ← update_fragmented_meta_done 0 f.tm f.friend_number f.id written
    finish_inbound f counted

module _ (new_rowid : List DataRow → ℕ) where
  unfoldable pub db_insert_inbound_fragment : Inbound → Db → Result (Db × Option Ready)
  db_insert_inbound_fragment f db = do
    inserted ← insert_data_inbound new_rowid f.friend_number f.id f.sz (db_lock db)
    let known = insert_meta_inbound f.friend_number f.type f.id f.tm f.num_parts inserted
    let rowid = get_fragments_data_rowid 0 f.friend_number f.id known
    if rowid == 0 then ok (db_unlock known, none) else store_fragment f rowid known
