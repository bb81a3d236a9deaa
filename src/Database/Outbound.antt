-- ===== src/Database/Outbound.antt =====
-- The functions of database.c on outbound messages.
use tox_defragmenter.Prelude.{
  ℕ, [], ◌∷◌, Bytes, if◌then◌else◌, ◌==◌, List, Option, none, some, ◌-◌, ◌+◌, ◌^◌, u32,
}
use tox_defragmenter.Database.Types.{
  MetaRow, DataRow, Db, Result, ok, aborted, ◌>>=◌, db_lock, db_unlock,
}
use tox_defragmenter.Database.Statements.{
  find_data, insert_data_outbound, insert_meta_outbound, get_fragments_data_rowid, write_confirmed,
  update_fragmented_meta_done, delete_data_record,
}

module _ (new_rowid : List DataRow → ℕ) where
  unfoldable pub db_insert_outbound_message :
      (friend type id tm num_parts : ℕ) (message : Bytes) (receipt : ℕ) → Db → Result Db
  db_insert_outbound_message friend type id tm num_parts message receipt db = do
    known ← insert_meta_outbound friend type id tm num_parts (db_lock db)
    stored ← insert_data_outbound new_rowid friend id message num_parts receipt known
    ok (db_unlock stored)

-- The offset is an unsigned `partNo-1`.
unfoldable pub db_outbound_part_confirmed : (friend id part_no tm : ℕ) → Db → Result Db
db_outbound_part_confirmed friend id part_no tm db =
    let locked = db_lock db in
    let rowid = get_fragments_data_rowid 1 friend id locked in
    if rowid == 0 then aborted else do
      marked ← write_confirmed rowid (u32 (part_no + 2 ^ 32 - 1)) locked
      counted ← update_fragmented_meta_done 1 tm friend id marked
      ok (db_unlock counted)

unfoldable pub db_clear_outbound_pending : (friend id : ℕ) → Db → Db
db_clear_outbound_pending friend id db = db_unlock (delete_data_record 1 friend id (db_lock db))

-- The arguments of `DbMsgPendingSentCb`. NULL columns are read as empty and 0.
pub record Pending : Type 0 where
  pub friend_number : ℕ
  pub type : ℕ
  pub id : ℕ
  pub tm1 : ℕ
  pub tm2 : ℕ
  pub num_confirmed : ℕ
  pub num_parts : ℕ
  pub message : Bytes
  pub confirmed : Bytes
  pub receipt : ℕ

abbrev or_empty : Option Bytes → Bytes
or_empty none = []
or_empty (some c) = c

abbrev or_zero : Option ℕ → ℕ
or_zero none = 0
or_zero (some n) = n

-- SELECT … FROM fragmented_meta JOIN fragmented_data … WHERE outbound=1, in the order of the metadata.
unfoldable pub select_outbound_pending : List MetaRow → List DataRow → List Pending
select_outbound_pending [] rows = []
select_outbound_pending (m ∷ ms) rows =
    let rest = select_outbound_pending ms rows in
    if m.outbound == 1
    then elim (find_data 1 m.friend_id m.frags_id rows) [
      | none ↦ rest
      | some r ↦
          record {
            friend_number = m.friend_id;
            type = m.type;
            id = m.frags_id;
            tm1 = m.timestamp_first;
            tm2 = m.timestamp_last;
            num_confirmed = m.frags_done;
            num_parts = m.frags_num;
            message = r.message;
            confirmed = or_empty r.confirmed;
            receipt = or_zero r.receipt;
          }
          ∷ rest
    ]
    else rest
