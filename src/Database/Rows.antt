-- ===== src/Database/Rows.antt =====
-- How the statements change the row that a later statement finds.
use tox_defragmenter.Prelude.{
  ℕ, [], ◌∷◌, true, Bytes, ◌≡◌, refl, arith, inl, inr, Bool-cases, List, none, some,
}
use tox_defragmenter.Database.Types.{MetaRow, DataRow}
use tox_defragmenter.Database.Statements.{
  meta_matches, data_matches, find_meta, find_data, row_at, put_message, count_done, count_matches,
  done_once, delete_rows,
}

module _ (out friend id : ℕ) where
  -- A row that is found has the key.
  pub find_data-matches :
      (rows : List DataRow) (r : DataRow)
      → find_data out friend id rows ≡ some r
      → data_matches out friend id r ≡ true
  unfolding find_data
  find_data-matches [] r h = cc
  find_data-matches (x ∷ rows) r h = elim (Bool-cases (data_matches out friend id x)) [
    | inl yes' ↦ ground arith
    | inr no' ↦ ground (arith, find_data-matches rows r)
  ]

  pub find_meta-friend :
      (rows : List MetaRow) (m : MetaRow)
      → find_meta out friend id rows ≡ some m
      → m.friend_id ≡ friend
  unfolding find_meta
  find_meta-friend [] m h = cc
  find_meta-friend (x ∷ rows) m h = elim (Bool-cases (meta_matches out friend id x)) [
    | inl hit ↦ ground arith
    | inr miss ↦ ground (arith, find_meta-friend rows m)
  ]

  -- Writing the message of a row that the key and the rowid both find.
  pub find_data-put_message :
      (rows : List DataRow) (r : DataRow) (m : Bytes)
      → find_data out friend id rows ≡ some r
      → row_at r.rowid rows ≡ some r
      → find_data out friend id (put_message r.rowid m rows) ≡ some (record r { message = m })
  unfolding find_data row_at put_message
  find_data-put_message [] r m h k = cc
  find_data-put_message (x ∷ rows) r m h k =
      ground (arith, find_data-put_message rows r m, find_data-matches (x ∷ rows) r h)

  pub find_data-delete_rows :
      (rows : List DataRow) → find_data out friend id (delete_rows out friend id rows) ≡ none
  unfolding find_data delete_rows
  find_data-delete_rows [] = refl
  find_data-delete_rows (x ∷ rows) = ground (arith, find_data-delete_rows rows)

  -- A row of the key that is found is the only one, where one row is counted.
  pub find_meta-count_done :
      (rows : List MetaRow) (tm : ℕ) (m : MetaRow)
      → find_meta out friend id rows ≡ some m
      → find_meta out friend id (count_done out tm friend id rows) ≡ some (done_once tm m)
  unfolding find_meta count_done
  find_meta-count_done [] tm m h = cc
  find_meta-count_done (x ∷ rows) tm m h = elim (Bool-cases (meta_matches out friend id x)) [
    | inl hit ↦ ground arith
    | inr miss ↦ ground (arith, find_meta-count_done rows tm m)
  ]

  pub count_matches-count_done :
      (rows : List MetaRow) (tm : ℕ)
      → count_matches out friend id (count_done out tm friend id rows)
        ≡ count_matches out friend id rows
  unfolding count_matches count_done
  count_matches-count_done [] tm = refl
  count_matches-count_done (x ∷ rows) tm = ground (arith, count_matches-count_done rows tm)

  pub count_matches-none :
      (rows : List MetaRow)
      → find_meta out friend id rows ≡ none
      → count_matches out friend id rows ≡ 0
  unfolding count_matches find_meta
  count_matches-none [] h = refl
  count_matches-none (x ∷ rows) h = ground (arith, count_matches-none rows)

pub row_at-put_message :
    (rows : List DataRow) (r : DataRow) (m : Bytes)
    → row_at r.rowid rows ≡ some r
    → row_at r.rowid (put_message r.rowid m rows) ≡ some (record r { message = m })
unfolding row_at put_message
row_at-put_message [] r m k = cc
row_at-put_message (x ∷ rows) r m k = ground (arith, row_at-put_message rows r m)
