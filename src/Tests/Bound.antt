-- ===== src/Tests/Bound.antt =====
-- The prepared statements at concrete inputs.
use tox_defragmenter.Prelude.{◌+◌, [], ◌∷◌, ◌≡◌, refl, arith, some, map}
use tox_defragmenter.Database.Types.{Db}
use tox_defragmenter.Database.Statements.{
  count_done, count_matches, new_meta, update_fragmented_meta_done,
}
use tox_defragmenter.Database.Clock.{last_time, update_fragmented_meta_done-last_time}
use tox_defragmenter.Database.Prepared.{integer, Statements, destroy_prepared_statements}
use tox_defragmenter.Database.Prepared.Runs.{Use}
use tox_defragmenter.Database.Prepared.Runs.Range.{ArePrepared, Refines}
use tox_defragmenter.Database.Prepared.Runs.Refines.{run_use-Refines}
use tox_defragmenter.Tests.Data.{test_id, empty_db, fresh_rowid}

-- One row, whose fragment is counted a minute later.
abbrev one_row : Db
one_row = record empty_db { meta = new_meta 1 3 0 test_id test_id 2 ∷ [] }

update_fragmented_meta_done-last_time_example :
    map last_time (count_done 1 (test_id + 60000) 3 test_id one_row.meta) ≡ test_id ∷ []
unfolding update_fragmented_meta_done count_matches
update_fragmented_meta_done-last_time_example =
    update_fragmented_meta_done-last_time 1 (test_id + 60000) 3 test_id one_row
      (record one_row { meta = count_done 1 (test_id + 60000) 3 test_id one_row.meta })
      (omega arith, tt) refl

-- The statement for updates was bound to another message before.
abbrev used : Statements
used = record destroy_prepared_statements {
  update_fragmented_meta = some (integer 1 ∷ integer 0 ∷ integer 9 ∷ integer 8 ∷ []);
}

used-ArePrepared : ArePrepared used
used-ArePrepared = record {
  data_inbound = tt;
  meta_inbound = tt;
  data_outbound = tt;
  meta_outbound = tt;
  meta_done = refl;
  data_deleted = tt;
  rowid_selected = tt;
  inbound_selected = tt;
}

run_use-Refines_example :
    Refines fresh_rowid used one_row used-ArePrepared
      (Use.update_meta_done 1 (test_id + 60000) 3 test_id)
run_use-Refines_example =
    run_use-Refines fresh_rowid used one_row used-ArePrepared
      (Use.update_meta_done 1 (test_id + 60000) 3 test_id) (omega arith, omega arith, omega arith)
