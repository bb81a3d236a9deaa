-- ===== src/Database/Prepared/Runs/Range.antt =====
-- Arguments in range, what a use is to do, and the texts at parameters in range.
use tox_defragmenter.Prelude.{
  ℕ, ◌^◌, ◌<◌, ◌==◌, [], ◌∷◌, ◌≡◌, refl, arith, if◌then◌else◌, u64, max, List, Bool-cases, inl, inr,
  Option-cases,
}
use tox_defragmenter.Database.Types.{MetaRow, DataRow, Db, Result, ok, aborted, ◌>>=◌}
use tox_defragmenter.Database.Statements.{
  find_meta, count_matches, insert_data_inbound, insert_data_outbound, insert_meta_inbound,
  insert_meta_outbound, update_fragmented_meta_done, delete_data_record, count_done, as_int,
}
use tox_defragmenter.Database.Prepared.{integer, Bindings, Statements, extended}
use tox_defragmenter.Database.Prepared.Bind.{Takes}
use tox_defragmenter.Database.Prepared.Sql.{
  sql_max, sql_insert_meta_inbound, sql_update, sql_update_rows,
}
use tox_defragmenter.Database.Prepared.Runs.{Kept, Use, run_use}

-- Every statement that was made has the number of parameters of its text.
pub record ArePrepared (st : Statements) : Type 0 where
  pub data_inbound : Takes 5 st.insert_fragmented_data_inbound
  pub meta_inbound : Takes 8 st.insert_fragmented_meta_inbound
  pub data_outbound : Takes 5 st.insert_fragmented_data_outbound
  pub meta_outbound : Takes 6 st.insert_fragmented_meta_outbound
  pub meta_done : Takes 4 st.update_fragmented_meta
  pub data_deleted : Takes 3 st.delete_fragmented_data
  pub rowid_selected : Takes 3 st.select_rowid_from_fragmented_meta
  pub inbound_selected : Takes 2 st.select_fragmented_inbound_done

-- What the use is to do.
abbrev pub spec_use : (List DataRow → ℕ) → Use → Db → Result Db
spec_use new_rowid (Use.insert_data_inbound friend id sz) =
    insert_data_inbound new_rowid friend id sz
spec_use new_rowid (Use.insert_data_outbound friend id message num_parts receipt) =
    insert_data_outbound new_rowid friend id message num_parts receipt
spec_use new_rowid (Use.insert_meta_inbound friend type id tm num_parts) =
    λ db. ok (insert_meta_inbound friend type id tm num_parts db)
spec_use new_rowid (Use.insert_meta_outbound friend type id tm num_parts) =
    insert_meta_outbound friend type id tm num_parts
spec_use new_rowid (Use.update_meta_done out tm friend id) =
    update_fragmented_meta_done out tm friend id
spec_use new_rowid (Use.delete_data out friend id) = λ db. ok (delete_data_record out friend id db)

abbrev pub IsInt : ℕ → Type 0
IsInt n = n < 2 ^ 31

abbrev pub IsInt64 : ℕ → Type 0
IsInt64 n = n < 2 ^ 64

-- The arguments that are bound as ints fit, the time of an update excepted.
abbrev pub InRange : Use → Type 0
InRange (Use.insert_data_inbound friend id sz) = IsInt friend × IsInt64 id × IsInt64 sz
InRange (Use.insert_data_outbound friend id message num_parts receipt) =
    IsInt friend × IsInt64 id × IsInt num_parts × IsInt receipt
InRange (Use.insert_meta_inbound friend type id tm num_parts) =
    IsInt friend × IsInt type × IsInt64 id × IsInt64 tm × IsInt num_parts
InRange (Use.insert_meta_outbound friend type id tm num_parts) =
    IsInt friend × IsInt type × IsInt64 id × IsInt64 tm × IsInt num_parts
InRange (Use.update_meta_done out tm friend id) = IsInt out × IsInt friend × IsInt64 id
InRange (Use.delete_data out friend id) = IsInt out × IsInt friend × IsInt64 id

pub extended-IsInt : (n : ℕ) → IsInt n → extended n ≡ n
extended-IsInt n h = ground arith

pub u64-IsInt64 : (n : ℕ) → IsInt64 n → u64 n ≡ n
u64-IsInt64 n h = omega arith

sql_max-extended : (t tm : ℕ) → sql_max t (extended tm) ≡ max t (as_int tm)
sql_max-extended t tm = ground arith

-- The texts at parameters in range.
pub insert_meta_inbound-sql :
    (friend type id tm num_parts : ℕ) (db : Db)
    → sql_insert_meta_inbound
        (integer friend
          ∷ integer type
          ∷ integer id
          ∷ integer tm
          ∷ integer tm
          ∷ integer num_parts
          ∷ integer friend
          ∷ integer id
          ∷ [])
        db
      ≡ ok (insert_meta_inbound friend type id tm num_parts db)
unfolding sql_insert_meta_inbound insert_meta_inbound
insert_meta_inbound-sql friend type id tm num_parts db =
    elim (Option-cases (find_meta 0 friend id db.meta)) [
      | inl none' ↦ ground arith
      | inr (m, found) ↦ ground arith
    ]

update_rows-sql :
    (out tm friend id : ℕ) (rows : List MetaRow)
    → sql_update_rows (integer (extended tm) ∷ integer out ∷ integer friend ∷ integer id ∷ []) rows
      ≡ count_done out tm friend id rows
unfolding sql_update_rows count_done
update_rows-sql out tm friend id [] = refl
update_rows-sql out tm friend id (r ∷ rows) =
    rw (sql_max-extended r.timestamp_last tm, update_rows-sql out tm friend id rows) refl

-- What is left of an update that was run.
abbrev pub checked : Statements → Db × ℕ → Kept
checked st (db', changes) = if changes == 1 then ok (st, db') else aborted

pub update-sql :
    (out tm friend id : ℕ) (db : Db) (st : Statements)
    → let vs : Bindings = integer (extended tm) ∷ integer out ∷ integer friend ∷ integer id ∷ [] in
      checked st (sql_update vs db)
      ≡ (update_fragmented_meta_done out tm friend id db >>= λ (db' : Db). ok (st, db'))
unfolding sql_update update_fragmented_meta_done
update-sql out tm friend id db st = elim (Bool-cases (count_matches out friend id db.meta == 1)) [
  | inl one ↦ rw (one, update_rows-sql out tm friend id db.meta) refl
  | inr other ↦ rw other refl
]

module _ (new_rowid : List DataRow → ℕ) (st : Statements) (db : Db) (p : ArePrepared st) where
  -- The use gives what its specification gives, and keeps the statements.
  abbrev pub Refines : Use → Type 0
  Refines u =
      (st' : Statements) × ArePrepared st'
      × (run_use new_rowid u st db ≡ (spec_use new_rowid u db >>= λ (db' : Db). ok (st', db')))
