-- ===== src/Database/Prepared/Runs/Data.antt =====
-- The inserts into fragmented_data.
use tox_defragmenter.Prelude.{ℕ, [], ◌∷◌, Bytes, ◌≡◌, refl, ap, arith, u64, List, some, subst}
use tox_defragmenter.Database.Types.{DataRow, Db, Result, ok, ◌>>=◌}
use tox_defragmenter.Database.Statements.{insert_data_inbound, insert_data_outbound}
use tox_defragmenter.Database.Prepared.{
  integer, blob, Bindings, Statements, prepare, bind_value, extended, bind_int_int64_blob_int_int,
  bind_int_int64_int64_int_int64,
}
use tox_defragmenter.Database.Prepared.Bind.{length-prepare, bind_list, bind_list_all}
use tox_defragmenter.Database.Prepared.Sql.{sql_insert_data_inbound, sql_insert_data_outbound}
use tox_defragmenter.Database.Prepared.Runs.{Use, run_insert_data_inbound, run_insert_data_outbound}
use tox_defragmenter.Database.Prepared.Runs.Range.{
  ArePrepared, InRange, extended-IsInt, u64-IsInt64, Refines,
}

module _ (new_rowid : List DataRow → ℕ) (st : Statements) (db : Db) (p : ArePrepared st) where
  pub data_inbound-Refines :
      (friend id sz : ℕ)
      → InRange (Use.insert_data_inbound friend id sz)
      → Refines new_rowid st db p (Use.insert_data_inbound friend id sz)
  unfolding run_insert_data_inbound bind_int_int64_int64_int_int64 bind_value bind_list
      sql_insert_data_inbound insert_data_inbound
  data_inbound-Refines friend id sz (hf, hi, hs) =
      let vs : Bindings =
        integer friend ∷ integer id ∷ integer sz ∷ integer friend ∷ integer id ∷ [] in
      let stmt = st.insert_fragmented_data_inbound in
      let bound : bind_int_int64_int64_int_int64 (prepare 5 stmt) friend id sz friend id ≡ ok vs =
        subst
          (λ (l : Bindings).
            bind_int_int64_int64_int_int64 (prepare 5 stmt) friend id sz friend id ≡ ok l)
          {x = integer (extended friend)
            ∷ integer (u64 id)
            ∷ integer (u64 sz)
            ∷ integer (u64 (extended friend))
            ∷ integer (u64 id)
            ∷ []}
          {y = vs}
          (rw
            (
              extended-IsInt friend hf,
              u64-IsInt64 id hi,
              u64-IsInt64 sz hs,
              u64-IsInt64 friend (omega arith),
            )
            refl)
          (bind_list_all (prepare 5 stmt)
            (integer (extended friend)
              ∷ integer (u64 id)
              ∷ integer (u64 sz)
              ∷ integer (u64 (extended friend))
              ∷ integer (u64 id)
              ∷ [])
            (length-prepare 5 stmt p.data_inbound)) in
      (
        record st { insert_fragmented_data_inbound = some vs },
        record {
          data_inbound = refl;
          meta_inbound = p.meta_inbound;
          data_outbound = p.data_outbound;
          meta_outbound = p.meta_outbound;
          meta_done = p.meta_done;
          data_deleted = p.data_deleted;
          rowid_selected = p.rowid_selected;
          inbound_selected = p.inbound_selected;
        },
        ap
            (λ (res : Result Bindings). res >>= λ (ps : Bindings).
              sql_insert_data_inbound new_rowid ps db >>= λ (db' : Db).
              ok (record st { insert_fragmented_data_inbound = some ps }, db'))
            bound,
      )

  pub data_outbound-Refines :
      (friend id : ℕ) (message : Bytes) (num_parts receipt : ℕ)
      → InRange (Use.insert_data_outbound friend id message num_parts receipt)
      → Refines new_rowid st db p (Use.insert_data_outbound friend id message num_parts receipt)
  unfolding run_insert_data_outbound bind_int_int64_blob_int_int bind_value bind_list
      sql_insert_data_outbound insert_data_outbound
  data_outbound-Refines friend id message num_parts receipt (hf, hi, hn, hr) =
      let vs : Bindings =
        integer friend ∷ integer id ∷ blob message ∷ integer num_parts ∷ integer receipt ∷ [] in
      let stmt = st.insert_fragmented_data_outbound in
      let bound : bind_int_int64_blob_int_int (prepare 5 stmt) friend id message num_parts receipt
          ≡ ok vs =
        subst
          (λ (l : Bindings).
            bind_int_int64_blob_int_int (prepare 5 stmt) friend id message num_parts receipt ≡ ok l)
          {x = integer (extended friend)
            ∷ integer (u64 id)
            ∷ blob message
            ∷ integer (extended num_parts)
            ∷ integer (extended receipt)
            ∷ []}
          {y = vs}
          (rw
            (
              extended-IsInt friend hf,
              u64-IsInt64 id hi,
              extended-IsInt num_parts hn,
              extended-IsInt receipt hr,
            )
            refl)
          (bind_list_all (prepare 5 stmt)
            (integer (extended friend)
              ∷ integer (u64 id)
              ∷ blob message
              ∷ integer (extended num_parts)
              ∷ integer (extended receipt)
              ∷ [])
            (length-prepare 5 stmt p.data_outbound)) in
      (
        record st { insert_fragmented_data_outbound = some vs },
        record {
          data_inbound = p.data_inbound;
          meta_inbound = p.meta_inbound;
          data_outbound = refl;
          meta_outbound = p.meta_outbound;
          meta_done = p.meta_done;
          data_deleted = p.data_deleted;
          rowid_selected = p.rowid_selected;
          inbound_selected = p.inbound_selected;
        },
        ap
            (λ (res : Result Bindings). res >>= λ (ps : Bindings).
              sql_insert_data_outbound new_rowid ps db >>= λ (db' : Db).
              ok (record st { insert_fragmented_data_outbound = some ps }, db'))
            bound,
      )
