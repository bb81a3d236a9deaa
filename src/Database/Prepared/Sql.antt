-- ===== src/Database/Prepared/Sql.antt =====
-- The texts of the statements, as functions of their parameters by position.
use tox_defragmenter.Prelude.{
  ℕ, ◌+◌, ◌^◌, ◌==◌, [], ◌∷◌, Bytes, ltb, if◌then◌else◌, get_or, replicate, max, List, Option, none,
  some,
}
use tox_defragmenter.Database.Types.{MetaRow, DataRow, Db, Result, ok, aborted}
use tox_defragmenter.Database.Statements.{
  meta_matches, find_meta, find_data, count_matches, delete_rows,
}
use tox_defragmenter.Database.Prepared.{Value, integer, blob, null, Bindings}

abbrev number : Value → ℕ
number (integer n) = n
number (blob m) = 0
number null = 0

abbrev bytes : Value → Bytes
bytes (integer n) = []
bytes (blob m) = m
bytes null = []

-- The parameter `?` at a position, counted from 0.
abbrev pub at : Bindings → ℕ → ℕ
at ps i = number (get_or ps i null)

abbrev pub blob_at : Bindings → ℕ → Bytes
blob_at ps i = bytes (get_or ps i null)

-- `max` of a number that is not negative and another one.
abbrev pub sql_max : ℕ → ℕ → ℕ
sql_max a b = if ltb b (2 ^ 63) then max a b else a

module _ (new_rowid : List DataRow → ℕ) where
  unfoldable pub sql_insert_data_inbound : Bindings → Db → Result Db
  sql_insert_data_inbound ps db = elim (find_meta 0 (at ps 3) (at ps 4) db.meta) [
    | some m ↦ ok db
    | none ↦ elim (find_data 0 (at ps 0) (at ps 1) db.rows) [
      | some r ↦ aborted
      | none ↦ ok (record db {
        rows =
            record {
              rowid = new_rowid db.rows;
              outbound = 0;
              friend_id = at ps 0;
              frags_id = at ps 1;
              message = replicate (at ps 2) 0;
              confirmed = none;
              receipt = none;
            }
            ∷ db.rows;
      })
    ]
  ]

  unfoldable pub sql_insert_data_outbound : Bindings → Db → Result Db
  sql_insert_data_outbound ps db = elim (find_data 1 (at ps 0) (at ps 1) db.rows) [
    | some r ↦ aborted
    | none ↦ ok (record db {
      rows =
          record {
            rowid = new_rowid db.rows;
            outbound = 1;
            friend_id = at ps 0;
            frags_id = at ps 1;
            message = blob_at ps 2;
            confirmed = some (replicate (at ps 3) 0);
            receipt = some (at ps 4);
          }
          ∷ db.rows;
    })
  ]

-- The columns of the two inserts into fragmented_meta.
abbrev meta_row : ℕ → Bindings → MetaRow
meta_row out ps = record {
  outbound = out;
  friend_id = at ps 0;
  type = at ps 1;
  frags_id = at ps 2;
  timestamp_first = at ps 3;
  timestamp_last = at ps 4;
  frags_done = 0;
  frags_num = at ps 5;
}

-- A second row with the key of the first is refused.
unfoldable pub sql_insert_meta_inbound : Bindings → Db → Result Db
sql_insert_meta_inbound ps db = elim (find_meta 0 (at ps 6) (at ps 7) db.meta) [
  | some m ↦ ok db
  | none ↦ elim (find_meta 0 (at ps 0) (at ps 2) db.meta) [
    | some m ↦ aborted
    | none ↦ ok (record db { meta = meta_row 0 ps ∷ db.meta })
  ]
]

unfoldable pub sql_insert_meta_outbound : Bindings → Db → Result Db
sql_insert_meta_outbound ps db = elim (find_meta 1 (at ps 0) (at ps 2) db.meta) [
  | some m ↦ aborted
  | none ↦ ok (record db { meta = meta_row 1 ps ∷ db.meta })
]

unfoldable pub sql_select_rowid : Bindings → Db → Option ℕ
sql_select_rowid ps db = elim (find_data (at ps 0) (at ps 1) (at ps 2) db.rows) [
  | none ↦ none
  | some r ↦ some r.rowid
]

unfoldable pub sql_update_rows : Bindings → List MetaRow → List MetaRow
sql_update_rows ps [] = []
sql_update_rows ps (r ∷ rs) =
    (if meta_matches (at ps 1) (at ps 2) (at ps 3) r
      then record r {
        timestamp_last = sql_max r.timestamp_last (at ps 0);
        frags_done = r.frags_done + 1;
      }
      else r)
    ∷ sql_update_rows ps rs

-- With the number of rows that are changed.
unfoldable pub sql_update : Bindings → Db → Db × ℕ
sql_update ps db = (
  record db { meta = sql_update_rows ps db.meta },
  count_matches (at ps 1) (at ps 2) (at ps 3) db.meta,
)

unfoldable pub sql_delete : Bindings → Db → Db
sql_delete ps db = record db { rows = delete_rows (at ps 0) (at ps 1) (at ps 2) db.rows }

-- The two times, the friend and the message of the row, if there is one.
unfoldable pub sql_select_inbound_done : Bindings → Db → Option (ℕ × ℕ × ℕ × Bytes)
sql_select_inbound_done ps db = elim (find_meta 0 (at ps 0) (at ps 1) db.meta) [
  | none ↦ none
  | some m ↦ elim (find_data 0 (at ps 0) (at ps 1) db.rows) [
    | none ↦ none
    | some r ↦
        if m.frags_done == m.frags_num
        then some (m.timestamp_first, m.timestamp_last, m.friend_id, r.message)
        else none
  ]
]
