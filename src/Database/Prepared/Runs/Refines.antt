-- ===== src/Database/Prepared/Runs/Refines.antt =====
-- Each use of a prepared statement does what its function in Statements.antt does, whatever the
-- statement was bound to before.
use tox_defragmenter.Prelude.{ℕ, List}
use tox_defragmenter.Database.Types.{DataRow, Db}
use tox_defragmenter.Database.Prepared.{Statements}
use tox_defragmenter.Database.Prepared.Runs.{Use}
use tox_defragmenter.Database.Prepared.Runs.Range.{ArePrepared, InRange, Refines}
use tox_defragmenter.Database.Prepared.Runs.Data.{data_inbound-Refines, data_outbound-Refines}
use tox_defragmenter.Database.Prepared.Runs.Meta.{meta_inbound-Refines, meta_outbound-Refines}
use tox_defragmenter.Database.Prepared.Runs.Changes.{meta_done-Refines, data_deleted-Refines}

module _ (new_rowid : List DataRow → ℕ) (st : Statements) (db : Db) (p : ArePrepared st) where
  -- A use of a prepared statement that changes the database, with arguments in range, does what its
  -- function in Statements.antt does, whatever parameters the statement still has from earlier uses: it
  -- aborts exactly where that function aborts, and changes the database as it does. Every statement
  -- that was made keeps the number of parameters of its text. The time of an update is not restricted.
  pub run_use-Refines : (u : Use) → InRange u → Refines new_rowid st db p u
  run_use-Refines (Use.insert_data_inbound friend id sz) h =
      data_inbound-Refines new_rowid st db p friend id sz h
  run_use-Refines (Use.insert_data_outbound friend id message num_parts receipt) h =
      data_outbound-Refines new_rowid st db p friend id message num_parts receipt h
  run_use-Refines (Use.insert_meta_inbound friend type id tm num_parts) h =
      meta_inbound-Refines new_rowid st db p friend type id tm num_parts h
  run_use-Refines (Use.insert_meta_outbound friend type id tm num_parts) h =
      meta_outbound-Refines new_rowid st db p friend type id tm num_parts h
  run_use-Refines (Use.update_meta_done out tm friend id) h =
      meta_done-Refines new_rowid st db p out tm friend id h
  run_use-Refines (Use.delete_data out friend id) h =
      data_deleted-Refines new_rowid st db p out friend id h
