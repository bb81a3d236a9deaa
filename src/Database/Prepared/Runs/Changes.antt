-- ===== src/Database/Prepared/Runs/Changes.antt =====
-- The update of fragmented_meta and the deletion from fragmented_data.
use tox_defragmenter.Prelude.{
  ℕ, ◌==◌, [], ◌∷◌, ◌≡◌, ◌∙◌, refl, ap, arith, if◌then◌else◌, u64, List, some, subst,
}
use tox_defragmenter.Database.Types.{DataRow, Db, Result, ok, aborted, ◌>>=◌}
use tox_defragmenter.Database.Statements.{update_fragmented_meta_done, delete_data_record}
use tox_defragmenter.Database.Prepared.{
  integer, Bindings, Statements, prepare, bind_value, extended, bind_int_int_int64,
  bind_int_int64_int_int64,
}
use tox_defragmenter.Database.Prepared.Bind.{length-prepare, bind_list, bind_list_all}
use tox_defragmenter.Database.Prepared.Sql.{sql_update, sql_delete}
use tox_defragmenter.Database.Prepared.Runs.{Use, run_update_meta_done, run_delete_data}
use tox_defragmenter.Database.Prepared.Runs.Range.{
  ArePrepared, InRange, extended-IsInt, u64-IsInt64, Refines, update-sql,
}

module _ (new_rowid : List DataRow → ℕ) (st : Statements) (db : Db) (p : ArePrepared st) where
  pub meta_done-Refines :
      (out tm friend id : ℕ)
      → InRange (Use.update_meta_done out tm friend id)
      → Refines new_rowid st db p (Use.update_meta_done out tm friend id)
  unfolding run_update_meta_done bind_int_int64_int_int64 bind_value bind_list sql_update
      update_fragmented_meta_done
  meta_done-Refines out tm friend id (ho, hf, hi) =
      let vs : Bindings = integer (extended tm) ∷ integer out ∷ integer friend ∷ integer id ∷ [] in
      let stmt = st.update_fragmented_meta in
      let bound : bind_int_int64_int_int64 (prepare 4 stmt) tm out friend id ≡ ok vs =
        subst (λ (l : Bindings). bind_int_int64_int_int64 (prepare 4 stmt) tm out friend id ≡ ok l)
          {x = integer (extended tm)
            ∷ integer (u64 out)
            ∷ integer (extended friend)
            ∷ integer (u64 id)
            ∷ []}
          {y = vs}
          (rw (u64-IsInt64 out (omega arith), extended-IsInt friend hf, u64-IsInt64 id hi) refl)
          (bind_list_all (prepare 4 stmt)
            (integer (extended tm)
              ∷ integer (u64 out)
              ∷ integer (extended friend)
              ∷ integer (u64 id)
              ∷ [])
            (length-prepare 4 stmt p.meta_done)) in
      (
        record st { update_fragmented_meta = some vs },
        record {
          data_inbound = p.data_inbound;
          meta_inbound = p.meta_inbound;
          data_outbound = p.data_outbound;
          meta_outbound = p.meta_outbound;
          meta_done = refl;
          data_deleted = p.data_deleted;
          rowid_selected = p.rowid_selected;
          inbound_selected = p.inbound_selected;
        },
        ap
              (λ (res : Result Bindings). res >>= λ (ps : Bindings).
                if (sql_update ps db).1 == 1
                then ok (record st { update_fragmented_meta = some ps }, (sql_update ps db).0)
                else aborted)
              bound
            ∙ update-sql out tm friend id db (record st { update_fragmented_meta = some vs }),
      )

  pub data_deleted-Refines :
      (out friend id : ℕ)
      → InRange (Use.delete_data out friend id)
      → Refines new_rowid st db p (Use.delete_data out friend id)
  unfolding run_delete_data bind_int_int_int64 bind_value bind_list sql_delete delete_data_record
  data_deleted-Refines out friend id (ho, hf, hi) =
      let vs : Bindings = integer out ∷ integer friend ∷ integer id ∷ [] in
      let stmt = st.delete_fragmented_data in
      let bound : bind_int_int_int64 (prepare 3 stmt) out friend id ≡ ok vs =
        subst (λ (l : Bindings). bind_int_int_int64 (prepare 3 stmt) out friend id ≡ ok l)
          {x = integer (extended out) ∷ integer (extended friend) ∷ integer (u64 id) ∷ []} {y = vs}
          (rw (extended-IsInt out ho, extended-IsInt friend hf, u64-IsInt64 id hi) refl)
          (bind_list_all (prepare 3 stmt)
            (integer (extended out) ∷ integer (extended friend) ∷ integer (u64 id) ∷ [])
            (length-prepare 3 stmt p.data_deleted)) in
      (
        record st { delete_fragmented_data = some vs },
        record {
          data_inbound = p.data_inbound;
          meta_inbound = p.meta_inbound;
          data_outbound = p.data_outbound;
          meta_outbound = p.meta_outbound;
          meta_done = p.meta_done;
          data_deleted = refl;
          rowid_selected = p.rowid_selected;
          inbound_selected = p.inbound_selected;
        },
        ap
            (λ (res : Result Bindings). res >>= λ (ps : Bindings).
              ok (record st { delete_fragmented_data = some ps }, sql_delete ps db))
            bound,
      )
