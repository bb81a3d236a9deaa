-- ===== src/Receiver/Insert.antt =====
-- `dbInsertInboundFragment` for one fragment, in each phase of its message.
use mathlib.Core.List.{flatten}
use tox_defragmenter.Prelude.{
  ℕ, ◌^◌, ◌≤◌, ◌<◌, ◌∷◌, Bool, true, false, Bytes, ◌≡◌, ◌≢◌, refl, sym, arith, inl, inr, Bool-cases,
  ◌==◌, List, none, length, set, get_or, replicate, length-replicate, ◌⊎◌,
}
use tox_defragmenter.Database.Types.{DataRow, Db, ok, db_lock, db_unlock}
use tox_defragmenter.Database.Statements.{
  find_meta, find_data, row_at, count_matches, insert_data_inbound, insert_meta_inbound,
  get_fragments_data_rowid, new_meta,
}
use tox_defragmenter.Database.Rows.{count_matches-none, find_meta-friend}
use tox_defragmenter.Database.Inbound.{Inbound, store_fragment, db_insert_inbound_fragment}
use tox_defragmenter.Receiver.Mask.{piece, arrived, count, masked_none, count_none, arrived_none}
use tox_defragmenter.Receiver.Store.{
  Receiving, fragment_of, stored, store_missing, store_duplicate, stored-Receiving,
}
use tox_defragmenter.Receiver.Phase.{
  Phase, absent, partial, finished, Holds, IsFinished, accept, next_phase, Comes, ready,
  finish_complete, finish_incomplete, held-Receiving, deleted-IsFinished,
}

module _ (friend id : ℕ) (ps : List Bytes) (small : length (flatten ps) < 2 ^ 31) (k : ℕ)
    (inside : k < length ps) (filled : 1 ≤ length (piece k ps)) (type tm : ℕ) where
  abbrev f : Inbound
  f = fragment_of friend id type tm ps k

  store-Comes :
      (bs : List Bool) (db : Db) (v : Receiving friend id ps bs db)
      → (arrived k bs ≡ false) ⊎ (get_or (piece k ps) 0 0 ≢ 0)
      → Comes friend id ps type (accept (length ps) bs k) (store_fragment f v.row.rowid db)
  unfolding accept
  store-Comes bs db v h = elim (Bool-cases (arrived k bs)) [
    | inl old ↦
        rw
          (
            old,
            store_duplicate friend id ps small bs k inside filled db type tm v old
                (λ e. elim h [ inl new ↦ cc | inr byte ↦ byte e ]),
          )
          (v, refl)
    | inr new ↦
        let v' = stored-Receiving friend id ps small bs k inside filled db tm v new in
        let db' = stored friend id tm ps bs k v.row.rowid db in
        rw (new, store_missing friend id ps small bs k inside filled db type tm v new)
          (elim (Bool-cases (count (set bs k true) == length ps)) [
            | inl all ↦
                rw
                  (
                    all,
                    finish_complete friend id ps (set bs k true) db' type tm k v' (ground arith),
                  )
                  (
                    deleted-IsFinished friend id ps (set bs k true) db' v',
                    (
                      ready friend id ps v'.meta type,
                      refl,
                      refl,
                      refl,
                      find_meta-friend 0 friend id db'.meta v'.meta v'.meta_found,
                    ),
                  )
            | inr less ↦
                rw
                  (
                    less,
                    finish_incomplete friend id ps (set bs k true) db' type tm k v' (ground arith),
                  )
                  (held-Receiving friend id ps (set bs k true) db' _ v', refl)
          ])
  ]

  module _ (new_rowid : List DataRow → ℕ) where
    -- The message is known: the rows stay as they are, and the fragment is stored.
    pub insert_known :
        (bs : List Bool) (db : Db) (v : Receiving friend id ps bs db)
        → db_insert_inbound_fragment new_rowid f db ≡ store_fragment f v.row.rowid (db_lock db)
    unfolding db_insert_inbound_fragment insert_data_inbound insert_meta_inbound
        get_fragments_data_rowid
    insert_known bs db v = ground (arith, v.meta_found, v.row_found, v.rowid_pos)

    -- The message has been handed over: the fragment is ignored.
    insert_finished :
        (db : Db) (v : IsFinished friend id db)
        → db_insert_inbound_fragment new_rowid f db ≡ ok (db_unlock (db_lock db), none)
    unfolding db_insert_inbound_fragment insert_data_inbound insert_meta_inbound
        get_fragments_data_rowid
    insert_finished db v = ground (arith, v.meta_found, v.no_row)

    abbrev new_row : Db → DataRow
    new_row db = record {
      rowid = new_rowid db.rows;
      outbound = 0;
      friend_id = friend;
      frags_id = id;
      message = replicate (length (flatten ps)) 0;
      confirmed = none;
      receipt = none;
    }

    -- The rows that the first fragment makes.
    abbrev begun : Db → Db
    begun db = record (db_lock db) {
      meta = new_meta 0 friend type id tm (length ps) ∷ db.meta;
      rows = new_row db ∷ db.rows;
    }

    begun-Receiving :
        (db : Db)
        → Holds friend id ps absent db
        → 1 ≤ new_rowid db.rows
        → Receiving friend id ps (replicate (length ps) false) (begun db)
    unfolding find_meta find_data row_at count_matches
    begun-Receiving db (no_meta, no_data) pos = record {
      meta = new_meta 0 friend type id tm (length ps);
      row = new_row db;
      meta_found = ground arith;
      meta_once = ground (arith, count_matches-none 0 friend id db.meta no_meta);
      done = sym (count_none (length ps));
      num = refl;
      row_found = ground arith;
      row_opened = ground arith;
      rowid_pos = pos;
      blob = sym (masked_none ps);
      marks = length-replicate (length ps) false;
    }

    insert_absent :
        (db : Db)
        → Holds friend id ps absent db
        → 1 ≤ new_rowid db.rows
        → db_insert_inbound_fragment new_rowid f db
          ≡ store_fragment f (new_rowid db.rows) (begun db)
    unfolding db_insert_inbound_fragment insert_data_inbound insert_meta_inbound
        get_fragments_data_rowid find_meta find_data
    insert_absent db (no_meta, no_data) pos = ground arith

    -- The piece is missing, or its first byte tells a duplicate.
    abbrev pub IsTaken : Phase → Type 0
    IsTaken absent = Unit {0}
    IsTaken (partial bs) = (arrived k bs ≡ false) ⊎ (get_or (piece k ps) 0 0 ≢ 0)
    IsTaken finished = Unit {0}

    -- A piece of a message, not empty, of a message of less than 2^31 bytes, comes in at a
    -- database that holds the message in some phase: absent, partly there, or finished. If the
    -- piece is marked as there already, its first byte is not 0. SQLite chooses a rowid other than
    -- 0. Then `dbInsertInboundFragment` does not abort, the database holds the message in the
    -- phase that `next_phase` promises, and the client is given the whole message exactly when the
    -- promise says so, with the friend and the type of the fragment.
    pub db_insert_inbound_fragment-Comes :
        (phase : Phase) (db : Db)
        → Holds friend id ps phase db
        → IsTaken phase
        → 1 ≤ new_rowid db.rows
        → Comes friend id ps type
            (next_phase (length ps) phase k)
            (db_insert_inbound_fragment new_rowid f db)
    unfolding next_phase begun-Receiving held-Receiving
    db_insert_inbound_fragment-Comes absent db h taken pos = rw (insert_absent db h pos) (
        store-Comes (replicate (length ps) false) (begun db) (begun-Receiving db h pos)
          (inl (arrived_none (length ps) k)))
    db_insert_inbound_fragment-Comes (partial bs) db h taken pos =
        rw (insert_known bs db h)
          (store-Comes bs (db_lock db) (held-Receiving friend id ps bs db _ h) taken)
    db_insert_inbound_fragment-Comes finished db h taken pos =
        rw (insert_finished db h)
          (record { meta = h.meta; meta_found = h.meta_found; no_row = h.no_row }, refl)
