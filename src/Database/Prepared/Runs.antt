-- ===== src/Database/Prepared/Runs.antt =====
-- The uses of the prepared statements that change the database, with the statements that are kept.
pub mod Range
pub mod Data
pub mod Meta
pub mod Changes
pub mod Refines
pub mod Queries
use tox_defragmenter.Prelude.{ℕ, Bytes, ◌==◌, if◌then◌else◌, List, Option, none, some}
use tox_defragmenter.Database.Types.{DataRow, Db, Result, ok, aborted, ◌>>=◌}
use tox_defragmenter.Database.Prepared.{
  Bindings, Statements, prepare, bind_int_int64, bind_int_int_int64, bind_int_int64_int_int64,
  bind_int_int64_blob_int_int, bind_int_int64_int64_int_int64, bind_int_int_int64_int64_int64_int,
  bind_int_int_int64_int64_int64_int_int_int64,
}
use mathlib.Core.Option
use tox_defragmenter.Database.Inbound.{Ready}
use tox_defragmenter.Database.Prepared.Sql.{
  sql_select_rowid, sql_select_inbound_done, sql_insert_data_inbound, sql_insert_data_outbound,
  sql_insert_meta_inbound, sql_insert_meta_outbound, sql_update, sql_delete,
}

abbrev pub Kept : Type 0
Kept = Result (Statements × Db)

module _ (new_rowid : List DataRow → ℕ) where
  -- In `dbInsertInboundFragment`.
  unfoldable pub run_insert_data_inbound : (friend id sz : ℕ) → Statements → Db → Kept
  unfolding prepare bind_int_int64_int64_int_int64 sql_insert_data_inbound
  run_insert_data_inbound friend id sz st db = do
    ps ←
        bind_int_int64_int64_int_int64 (prepare 5 st.insert_fragmented_data_inbound) friend id sz
          friend id
    db' ← sql_insert_data_inbound new_rowid ps db
    ok (record st { insert_fragmented_data_inbound = some ps }, db')

  -- In `dbInsertOutboundMessage`.
  unfoldable pub run_insert_data_outbound :
      (friend id : ℕ) (message : Bytes) (num_parts receipt : ℕ) → Statements → Db → Kept
  unfolding prepare bind_int_int64_blob_int_int sql_insert_data_outbound
  run_insert_data_outbound friend id message num_parts receipt st db = do
    ps ←
        bind_int_int64_blob_int_int (prepare 5 st.insert_fragmented_data_outbound) friend id message
          num_parts receipt
    db' ← sql_insert_data_outbound new_rowid ps db
    ok (record st { insert_fragmented_data_outbound = some ps }, db')

-- In `dbInsertInboundFragment`.
unfoldable pub run_insert_meta_inbound : (friend type id tm num_parts : ℕ) → Statements → Db → Kept
unfolding prepare bind_int_int_int64_int64_int64_int_int_int64 sql_insert_meta_inbound
run_insert_meta_inbound friend type id tm num_parts st db = do
  ps ←
      bind_int_int_int64_int64_int64_int_int_int64 (prepare 8 st.insert_fragmented_meta_inbound)
        friend type id tm tm num_parts friend id
  db' ← sql_insert_meta_inbound ps db
  ok (record st { insert_fragmented_meta_inbound = some ps }, db')

-- In `dbInsertOutboundMessage`.
unfoldable pub run_insert_meta_outbound : (friend type id tm num_parts : ℕ) → Statements → Db → Kept
unfolding prepare bind_int_int_int64_int64_int64_int sql_insert_meta_outbound
run_insert_meta_outbound friend type id tm num_parts st db = do
  ps ←
      bind_int_int_int64_int64_int64_int (prepare 6 st.insert_fragmented_meta_outbound) friend type
        id tm tm num_parts
  db' ← sql_insert_meta_outbound ps db
  ok (record st { insert_fragmented_meta_outbound = some ps }, db')

-- `updateFragmentedMetaDone`: the time is the first parameter, an int.
unfoldable pub run_update_meta_done : (out tm friend id : ℕ) → Statements → Db → Kept
unfolding prepare bind_int_int64_int_int64 sql_update
run_update_meta_done out tm friend id st db = do
  ps ← bind_int_int64_int_int64 (prepare 4 st.update_fragmented_meta) tm out friend id
  let (db', changes) = sql_update ps db
  if changes == 1 then ok (record st { update_fragmented_meta = some ps }, db') else aborted

-- `deleteDataRecord`
unfoldable pub run_delete_data : (out friend id : ℕ) → Statements → Db → Kept
unfolding prepare bind_int_int_int64 sql_delete
run_delete_data out friend id st db = do
  ps ← bind_int_int_int64 (prepare 3 st.delete_fragmented_data) out friend id
  ok (record st { delete_fragmented_data = some ps }, sql_delete ps db)

-- One of these uses, with its arguments.
pub data Use : Type 0 where
  insert_data_inbound : (friend id sz : ℕ) → Use
  insert_data_outbound : (friend id : ℕ) (message : Bytes) (num_parts receipt : ℕ) → Use
  insert_meta_inbound : (friend type id tm num_parts : ℕ) → Use
  insert_meta_outbound : (friend type id tm num_parts : ℕ) → Use
  update_meta_done : (out tm friend id : ℕ) → Use
  delete_data : (out friend id : ℕ) → Use

abbrev pub run_use : (List DataRow → ℕ) → Use → Statements → Db → Kept
run_use new_rowid (insert_data_inbound friend id sz) =
    run_insert_data_inbound new_rowid friend id sz
run_use new_rowid (insert_data_outbound friend id message num_parts receipt) =
    run_insert_data_outbound new_rowid friend id message num_parts receipt
run_use new_rowid (insert_meta_inbound friend type id tm num_parts) =
    run_insert_meta_inbound friend type id tm num_parts
run_use new_rowid (insert_meta_outbound friend type id tm num_parts) =
    run_insert_meta_outbound friend type id tm num_parts
run_use new_rowid (update_meta_done out tm friend id) = run_update_meta_done out tm friend id
run_use new_rowid (delete_data out friend id) = run_delete_data out friend id

-- `getFragmentsDataRowid`: 0 where there is no row.
abbrev pub row_or_zero : Option ℕ → ℕ
row_or_zero none = 0
row_or_zero (some r) = r

unfoldable pub run_select_rowid : (out friend id : ℕ) → Statements → Db → Result (Statements × ℕ)
unfolding prepare bind_int_int_int64 sql_select_rowid
run_select_rowid out friend id st db = do
  ps ← bind_int_int_int64 (prepare 3 st.select_rowid_from_fragmented_meta) out friend id
  ok (
    record st { select_rowid_from_fragmented_meta = some ps },
    row_or_zero (sql_select_rowid ps db),
  )

-- The columns of the row, read for `msgReadyCb`; the type is that of the fragment at hand.
abbrev pub read_row : ℕ → ℕ × ℕ × ℕ × Bytes → Ready
read_row type (tm1, tm2, friend, message) = record {
  tm1 = tm1;
  tm2 = tm2;
  friend_number = friend;
  type = type;
  message = message;
}

-- In `dbInsertInboundFragment`.
unfoldable pub run_select_inbound_done :
    (friend type id : ℕ) → Statements → Db → Result (Statements × Option Ready)
unfolding prepare bind_int_int64 sql_select_inbound_done
run_select_inbound_done friend type id st db = do
  ps ← bind_int_int64 (prepare 2 st.select_fragmented_inbound_done) friend id
  ok (
    record st { select_fragmented_inbound_done = some ps },
    Option.map (read_row type) (sql_select_inbound_done ps db),
  )
