-- ===== src/Database/Prepared/Runs/Meta.antt =====
-- The inserts into fragmented_meta.
use tox_defragmenter.Prelude.{ℕ, [], ◌∷◌, ◌≡◌, ◌∙◌, refl, ap, u64, List, some, subst}
use tox_defragmenter.Database.Types.{DataRow, Db, Result, ok, ◌>>=◌}
use tox_defragmenter.Database.Statements.{insert_meta_outbound}
use tox_defragmenter.Database.Prepared.{
  integer, Bindings, Statements, prepare, bind_value, extended, bind_int_int_int64_int64_int64_int,
  bind_int_int_int64_int64_int64_int_int_int64,
}
use tox_defragmenter.Database.Prepared.Bind.{length-prepare, bind_list, bind_list_all}
use tox_defragmenter.Database.Prepared.Sql.{sql_insert_meta_inbound, sql_insert_meta_outbound}
use tox_defragmenter.Database.Prepared.Runs.{Use, run_insert_meta_inbound, run_insert_meta_outbound}
use tox_defragmenter.Database.Prepared.Runs.Range.{
  ArePrepared, InRange, extended-IsInt, u64-IsInt64, Refines, insert_meta_inbound-sql,
}

module _ (new_rowid : List DataRow → ℕ) (st : Statements) (db : Db) (p : ArePrepared st) where
  pub meta_inbound-Refines :
      (friend type id tm num_parts : ℕ)
      → InRange (Use.insert_meta_inbound friend type id tm num_parts)
      → Refines new_rowid st db p (Use.insert_meta_inbound friend type id tm num_parts)
  unfolding run_insert_meta_inbound bind_int_int_int64_int64_int64_int_int_int64 bind_value
      bind_list
  meta_inbound-Refines friend type id tm num_parts (hf, ht, hi, hm, hn) =
      let vs : Bindings =
        integer friend
        ∷ integer type
        ∷ integer id
        ∷ integer tm
        ∷ integer tm
        ∷ integer num_parts
        ∷ integer friend
        ∷ integer id
        ∷ [] in
      let stmt = st.insert_fragmented_meta_inbound in
      let bound : bind_int_int_int64_int64_int64_int_int_int64 (prepare 8 stmt) friend type id tm tm
            num_parts friend id
          ≡ ok vs =
        subst
          (λ (l : Bindings).
            bind_int_int_int64_int64_int64_int_int_int64 (prepare 8 stmt) friend type id tm tm
              num_parts friend id
            ≡ ok l)
          {x = integer (extended friend)
            ∷ integer (extended type)
            ∷ integer (u64 id)
            ∷ integer (u64 tm)
            ∷ integer (u64 tm)
            ∷ integer (extended num_parts)
            ∷ integer (extended friend)
            ∷ integer (u64 id)
            ∷ []}
          {y = vs}
          (rw
            (
              extended-IsInt friend hf,
              extended-IsInt type ht,
              u64-IsInt64 id hi,
              u64-IsInt64 tm hm,
              extended-IsInt num_parts hn,
            )
            refl)
          (bind_list_all (prepare 8 stmt)
            (integer (extended friend)
              ∷ integer (extended type)
              ∷ integer (u64 id)
              ∷ integer (u64 tm)
              ∷ integer (u64 tm)
              ∷ integer (extended num_parts)
              ∷ integer (extended friend)
              ∷ integer (u64 id)
              ∷ [])
            (length-prepare 8 stmt p.meta_inbound)) in
      (
        record st { insert_fragmented_meta_inbound = some vs },
        record {
          data_inbound = p.data_inbound;
          meta_inbound = refl;
          data_outbound = p.data_outbound;
          meta_outbound = p.meta_outbound;
          meta_done = p.meta_done;
          data_deleted = p.data_deleted;
          rowid_selected = p.rowid_selected;
          inbound_selected = p.inbound_selected;
        },
        ap
              (λ (res : Result Bindings). res >>= λ (ps : Bindings).
                sql_insert_meta_inbound ps db >>= λ (db' : Db).
                ok (record st { insert_fragmented_meta_inbound = some ps }, db'))
              bound
            ∙ ap
                (λ (res : Result Db). res >>= λ (db' : Db).
                  ok (record st { insert_fragmented_meta_inbound = some vs }, db'))
                (insert_meta_inbound-sql friend type id tm num_parts db),
      )

  pub meta_outbound-Refines :
      (friend type id tm num_parts : ℕ)
      → InRange (Use.insert_meta_outbound friend type id tm num_parts)
      → Refines new_rowid st db p (Use.insert_meta_outbound friend type id tm num_parts)
  unfolding run_insert_meta_outbound bind_int_int_int64_int64_int64_int bind_value bind_list
      sql_insert_meta_outbound insert_meta_outbound
  meta_outbound-Refines friend type id tm num_parts (hf, ht, hi, hm, hn) =
      let vs : Bindings =
        integer friend
        ∷ integer type
        ∷ integer id
        ∷ integer tm
        ∷ integer tm
        ∷ integer num_parts
        ∷ [] in
      let stmt = st.insert_fragmented_meta_outbound in
      let bound : bind_int_int_int64_int64_int64_int (prepare 6 stmt) friend type id tm tm num_parts
          ≡ ok vs =
        subst
          (λ (l : Bindings).
            bind_int_int_int64_int64_int64_int (prepare 6 stmt) friend type id tm tm num_parts
            ≡ ok l)
          {x = integer (extended friend)
            ∷ integer (extended type)
            ∷ integer (u64 id)
            ∷ integer (u64 tm)
            ∷ integer (u64 tm)
            ∷ integer (extended num_parts)
            ∷ []}
          {y = vs}
          (rw
            (
              extended-IsInt friend hf,
              extended-IsInt type ht,
              u64-IsInt64 id hi,
              u64-IsInt64 tm hm,
              extended-IsInt num_parts hn,
            )
            refl)
          (bind_list_all (prepare 6 stmt)
            (integer (extended friend)
              ∷ integer (extended type)
              ∷ integer (u64 id)
              ∷ integer (u64 tm)
              ∷ integer (u64 tm)
              ∷ integer (extended num_parts)
              ∷ [])
            (length-prepare 6 stmt p.meta_outbound)) in
      (
        record st { insert_fragmented_meta_outbound = some vs },
        record {
          data_inbound = p.data_inbound;
          meta_inbound = p.meta_inbound;
          data_outbound = p.data_outbound;
          meta_outbound = refl;
          meta_done = p.meta_done;
          data_deleted = p.data_deleted;
          rowid_selected = p.rowid_selected;
          inbound_selected = p.inbound_selected;
        },
        ap
            (λ (res : Result Bindings). res >>= λ (ps : Bindings).
              sql_insert_meta_outbound ps db >>= λ (db' : Db).
              ok (record st { insert_fragmented_meta_outbound = some ps }, db'))
            bound,
      )
