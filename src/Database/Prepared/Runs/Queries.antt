-- ===== src/Database/Prepared/Runs/Queries.antt =====
-- The two queries of prepared statements, against their functions in Statements.antt and Inbound.antt.
use mathlib.Core.Option
use tox_defragmenter.Prelude.{
  ℕ, ◌==◌, [], ◌∷◌, ◌≡◌, ◌∙◌, refl, ap, arith, u64, Option, some, subst, inl, inr, Option-cases,
  Bool-cases,
}
use tox_defragmenter.Database.Types.{Db, Result, ok, ◌>>=◌}
use tox_defragmenter.Database.Statements.{find_meta, find_data, get_fragments_data_rowid}
use tox_defragmenter.Database.Inbound.{Ready, select_inbound_done}
use tox_defragmenter.Database.Prepared.{
  integer, Bindings, Statements, prepare, bind_value, extended, bind_int_int64, bind_int_int_int64,
}
use tox_defragmenter.Database.Prepared.Bind.{length-prepare, bind_list, bind_list_all}
use tox_defragmenter.Database.Prepared.Sql.{sql_select_rowid, sql_select_inbound_done}
use tox_defragmenter.Database.Prepared.Runs.{
  row_or_zero, read_row, run_select_rowid, run_select_inbound_done,
}
use tox_defragmenter.Database.Prepared.Runs.Range.{
  ArePrepared, IsInt, IsInt64, extended-IsInt, u64-IsInt64,
}

module _ (st : Statements) (db : Db) (p : ArePrepared st) where
  -- The rowid of the row with the key, or 0, whatever the statement was bound to before.
  pub run_select_rowid-rowid :
      (out friend id : ℕ)
      → IsInt out
      → IsInt friend
      → IsInt64 id
      → (st' : Statements) × (run_select_rowid out friend id st db
          ≡ ok (st', get_fragments_data_rowid out friend id db))
  unfolding run_select_rowid bind_int_int_int64 bind_value bind_list sql_select_rowid
      get_fragments_data_rowid
  run_select_rowid-rowid out friend id ho hf hi =
      let vs : Bindings = integer out ∷ integer friend ∷ integer id ∷ [] in
      let stmt = st.select_rowid_from_fragmented_meta in
      let raw : Bindings =
        integer (extended out) ∷ integer (extended friend) ∷ integer (u64 id) ∷ [] in
      let bound : bind_int_int_int64 (prepare 3 stmt) out friend id ≡ ok vs =
        subst (λ (l : Bindings). bind_int_int_int64 (prepare 3 stmt) out friend id ≡ ok l) {x = raw}
          {y = vs} (rw (extended-IsInt out ho, extended-IsInt friend hf, u64-IsInt64 id hi) refl)
          (bind_list_all (prepare 3 stmt) raw (length-prepare 3 stmt p.rowid_selected)) in
      let found : row_or_zero (sql_select_rowid vs db) ≡ get_fragments_data_rowid out friend id db =
        elim (Option-cases (find_data out friend id db.rows)) [
          | inl nothing ↦ ground arith
          | inr (r, row) ↦ ground arith
        ] in
      (
        record st { select_rowid_from_fragmented_meta = some vs },
        ap
              (λ (res : Result Bindings). res >>= λ (ps : Bindings). ok (
                record st { select_rowid_from_fragmented_meta = some ps },
                row_or_zero (sql_select_rowid ps db),
              ))
              bound
            ∙ ap (λ (n : ℕ). ok (record st { select_rowid_from_fragmented_meta = some vs }, n))
                found,
      )

  -- The message of the key if all its fragments are there, whatever the statement was bound to before.
  pub run_select_inbound_done-ready :
      (friend type id : ℕ)
      → IsInt friend
      → IsInt64 id
      → (st' : Statements) × (run_select_inbound_done friend type id st db
          ≡ ok (st', select_inbound_done friend type id db))
  unfolding run_select_inbound_done bind_int_int64 bind_value bind_list sql_select_inbound_done
      select_inbound_done
  run_select_inbound_done-ready friend type id hf hi =
      let vs : Bindings = integer friend ∷ integer id ∷ [] in
      let stmt = st.select_fragmented_inbound_done in
      let raw : Bindings = integer (extended friend) ∷ integer (u64 id) ∷ [] in
      let bound : bind_int_int64 (prepare 2 stmt) friend id ≡ ok vs =
        subst (λ (l : Bindings). bind_int_int64 (prepare 2 stmt) friend id ≡ ok l) {x = raw}
          {y = vs} (rw (extended-IsInt friend hf, u64-IsInt64 id hi) refl)
          (bind_list_all (prepare 2 stmt) raw (length-prepare 2 stmt p.inbound_selected)) in
      let found : Option.map (read_row type) (sql_select_inbound_done vs db)
          ≡ select_inbound_done friend type id db =
        elim (Option-cases (find_meta 0 friend id db.meta)) [
          | inl nothing ↦ ground arith
          | inr (m, row) ↦ elim (Option-cases (find_data 0 friend id db.rows)) [
            | inl nothing ↦ ground arith
            | inr (r, row') ↦ elim (Bool-cases (m.frags_done == m.frags_num)) [
              | inl all ↦ ground arith
              | inr some_missing ↦ ground arith
            ]
          ]
        ] in
      (
        record st { select_fragmented_inbound_done = some vs },
        ap
              (λ (res : Result Bindings). res >>= λ (ps : Bindings). ok (
                record st { select_fragmented_inbound_done = some ps },
                Option.map (read_row type) (sql_select_inbound_done ps db),
              ))
              bound
            ∙ ap
                (λ (o : Option Ready).
                  ok (record st { select_fragmented_inbound_done = some vs }, o))
                found,
      )
