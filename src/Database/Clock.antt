-- ===== src/Database/Clock.antt =====
-- What becomes of the time of the last fragment, which `updateFragmentedMetaDone` binds as an int.
use tox_defragmenter.Prelude.{
  ℕ, ◌^◌, ◌≤◌, [], ◌∷◌, ◌≡◌, refl, arith, List, map, All, Bool-cases, inl, inr, ◌==◌,
}
use tox_defragmenter.Database.Types.{MetaRow, Db, ok}
use tox_defragmenter.Database.Statements.{
  meta_matches, as_int, done_once, count_done, count_matches, update_fragmented_meta_done,
}

-- The time in milliseconds of any date after January 1970.
abbrev pub HasTime : MetaRow → Type 0
HasTime r = 2 ^ 31 ≤ r.timestamp_last

abbrev pub last_time : MetaRow → ℕ
last_time r = r.timestamp_last

as_int_le : (tm : ℕ) → as_int tm ≤ 2 ^ 31
as_int_le tm = ground arith

done_once-last_time :
    (tm : ℕ) (r : MetaRow) → HasTime r → (done_once tm r).timestamp_last ≡ r.timestamp_last
done_once-last_time tm r h = omega (arith, as_int_le tm)

count_done-last_time :
    (out tm friend id : ℕ) (rows : List MetaRow)
    → All HasTime rows
    → map last_time (count_done out tm friend id rows) ≡ map last_time rows
unfolding count_done
count_done-last_time out tm friend id [] h = refl
count_done-last_time out tm friend id (r ∷ rows) (h, hs) =
    elim (Bool-cases (meta_matches out friend id r)) [
      | inl hit ↦
          rw (hit, done_once-last_time tm r h, count_done-last_time out tm friend id rows hs) refl
      | inr miss ↦ rw (miss, count_done-last_time out tm friend id rows hs) refl
    ]

-- `updateFragmentedMetaDone` never moves the time of the last fragment of any message forward, whatever
-- the time is that it is called with, where the times in the table are those of dates after January
-- 1970: it counts the fragment, but the time of the last one stays that of the first.
pub update_fragmented_meta_done-last_time :
    (out tm friend id : ℕ) (db db' : Db)
    → All HasTime db.meta
    → update_fragmented_meta_done out tm friend id db ≡ ok db'
    → map last_time db'.meta ≡ map last_time db.meta
unfolding update_fragmented_meta_done
update_fragmented_meta_done-last_time out tm friend id db db' h done =
    elim (Bool-cases (count_matches out friend id db.meta == 1)) [
      | inl one ↦
          let same : count_done out tm friend id db.meta ≡ db'.meta = ground arith in
          rw (← same) (count_done-last_time out tm friend id db.meta h)
      | inr other ↦ absurd (ground arith)
    ]
