-- ===== src/Receiver/Phase.antt =====
-- What a receiver of one message promises, and that the database keeps the promise.
use mathlib.Core.List.{flatten}
use tox_defragmenter.Prelude.{
  ℕ, Bool, true, false, Bytes, ◌≡◌, ◌≢◌, ◌∙◌, arith, if◌then◌else◌, ◌==◌, List, Option, none, some,
  length, set, replicate,
}
use tox_defragmenter.Database.Types.{MetaRow, Db, Result, ok, aborted, db_unlock}
use tox_defragmenter.Database.Statements.{find_meta, find_data, delete_data_record}
use tox_defragmenter.Database.Rows.{find_data-delete_rows}
use tox_defragmenter.Database.Inbound.{Ready, finish_inbound, select_inbound_done}
use tox_defragmenter.Receiver.Mask.{arrived, count, masked_all}
use tox_defragmenter.Receiver.Store.{Receiving, fragment_of}

-- Nothing of the message has come; the pieces that are marked have come; the client has it.
pub data Phase : Type 0 where
  absent : Phase
  partial : List Bool → Phase
  finished : Phase

-- A message that the client has keeps its metadata alone.
pub record IsFinished (friend id : ℕ) (db : Db) : Type 0 where
  pub meta : MetaRow
  pub meta_found : find_meta 0 friend id db.meta ≡ some meta
  pub no_row : find_data 0 friend id db.rows ≡ none

abbrev pub Holds : (friend id : ℕ) (ps : List Bytes) → Phase → Db → Type 0
Holds friend id ps absent db =
    (find_meta 0 friend id db.meta ≡ none) × (find_data 0 friend id db.rows ≡ none)
Holds friend id ps (partial bs) db = Receiving friend id ps bs db
Holds friend id ps finished db = IsFinished friend id db

-- The promise: a piece that is missing is added, and the last one gives the message to the client.
unfoldable pub accept : ℕ → List Bool → ℕ → Phase × Bool
accept n bs k =
    let bs' = set bs k true in
    if arrived k bs
    then (partial bs, false)
    else if count bs' == n
    then (finished, true)
    else (partial bs', false)

unfoldable pub next_phase : ℕ → Phase → ℕ → Phase × Bool
next_phase n absent k = accept n (replicate n false) k
next_phase n (partial bs) k = accept n bs k
next_phase n finished k = (finished, false)

module _ (friend id : ℕ) (ps : List Bytes) where
  -- The callback is due when as many pieces are counted as the message has.
  pub finish_incomplete :
      (bs : List Bool) (db : Db) (type tm k : ℕ) (v : Receiving friend id ps bs db)
      → count bs ≢ length ps
      → finish_inbound (fragment_of friend id type tm ps k) db ≡ ok (db_unlock db, none)
  unfolding finish_inbound select_inbound_done
  finish_incomplete bs db type tm k v less =
      ground (arith, v.meta_found, v.row_found, v.done, v.num)

  -- The message as the callback hands it over.
  abbrev pub ready : MetaRow → ℕ → Ready
  ready m type = record {
    tm1 = m.timestamp_first;
    tm2 = m.timestamp_last;
    friend_number = m.friend_id;
    type = type;
    message = flatten ps;
  }

  pub finish_complete :
      (bs : List Bool) (db : Db) (type tm k : ℕ) (v : Receiving friend id ps bs db)
      → count bs ≡ length ps
      → finish_inbound (fragment_of friend id type tm ps k) db
        ≡ ok (db_unlock (delete_data_record 0 friend id db), some (ready v.meta type))
  unfolding finish_inbound select_inbound_done
  finish_complete bs db type tm k v all =
      let whole = v.blob ∙ masked_all bs ps v.marks all in
      ground (arith, v.meta_found, v.row_found, v.done, v.num, whole)

  -- Locks are no concern of the rows.
  unfoldable pub held-Receiving :
      (bs : List Bool) (db : Db) (h : ℕ)
      → Receiving friend id ps bs db
      → Receiving friend id ps bs (record db { held = h })
  held-Receiving bs db h v = record {
    meta = v.meta;
    row = v.row;
    meta_found = v.meta_found;
    meta_once = v.meta_once;
    done = v.done;
    num = v.num;
    row_found = v.row_found;
    row_opened = v.row_opened;
    rowid_pos = v.rowid_pos;
    blob = v.blob;
    marks = v.marks;
  }

  pub deleted-IsFinished :
      (bs : List Bool) (db : Db)
      → Receiving friend id ps bs db
      → IsFinished friend id (db_unlock (delete_data_record 0 friend id db))
  unfolding delete_data_record
  deleted-IsFinished bs db v = record {
    meta = v.meta;
    meta_found = v.meta_found;
    no_row = find_data-delete_rows 0 friend id db.rows;
  }

-- What a call must come to: it succeeds, the phase it promises holds, and the client is given the
-- whole message exactly when the promise says so.
abbrev pub Comes :
    (friend id : ℕ) (ps : List Bytes) (type : ℕ)
    → Phase × Bool
    → Result (Db × Option Ready)
    → Type 0
Comes friend id ps type promise aborted = ⊥
Comes friend id ps type (phase, false) (ok (db, given)) =
    Holds friend id ps phase db × (given ≡ none)
Comes friend id ps type (phase, true) (ok (db, given)) =
    Holds friend id ps phase db
    × ((r : Ready) × (given ≡ some r)
        × (r.message ≡ flatten ps)
        × (r.type ≡ type)
        × (r.friend_number ≡ friend))
