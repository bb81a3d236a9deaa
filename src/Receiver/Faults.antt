-- ===== src/Receiver/Faults.antt =====
-- Messages from a friend that end the process, and fragments that leave the database locked.
use mathlib.Core.List.{flatten}
use tox_defragmenter.Prelude.{
  ℕ, zero, suc, ◌+◌, ◌^◌, ◌≤◌, ◌<◌, ◌≡◌, ◌≢◌, List, Bool, true, u32, refl, ◌∙◌, arith, length, some,
  none, Bytes, inl, inr, ◌⊎◌, length-replicate, get_or, replicate,
}
use tox_defragmenter.Marker.{MarkerInfo, marker_exists, marker_parse}
use tox_defragmenter.Marker.Accept.{marker_exists_iff, marker_parse_size}
use tox_defragmenter.Database.Types.{DataRow, Db, ok, aborted, db_lock}
use tox_defragmenter.Database.Statements.{
  find_meta, find_data, row_at, insert_data_inbound, insert_meta_inbound, get_fragments_data_rowid,
  read_message_byte, write_message,
}
use tox_defragmenter.Database.Inbound.{Inbound, store_fragment, db_insert_inbound_fragment}
use tox_defragmenter.Receiver.{inbound, process_in_fragment, friend_message_cb}
use tox_defragmenter.Receiver.Mask.{piece, arrived}
use tox_defragmenter.Receiver.Store.{Receiving, fragment_of, store_duplicate}
use tox_defragmenter.Receiver.Phase.{held-Receiving}
use tox_defragmenter.Receiver.Insert.{insert_known}

abbrev zeros : ℕ → Bytes
zeros n = replicate n 0

get_or-zeros : (n k : ℕ) → get_or (zeros n) k 0 ≡ 0
get_or-zeros zero k = refl
get_or-zeros (suc n) zero = refl
get_or-zeros (suc n) (suc k) = get_or-zeros n k

-- The first fragment of a message does not fit the size that it states, or its length is no int.
insert-aborts :
    (new_rowid : List DataRow → ℕ) (f : Inbound) (db : Db)
    → 1 ≤ new_rowid db.rows
    → find_meta 0 f.friend_number f.id db.meta ≡ none
    → find_data 0 f.friend_number f.id db.rows ≡ none
    → (f.sz ≤ f.off) ⊎ (2 ^ 31 ≤ u32 f.len)
    → db_insert_inbound_fragment new_rowid f db ≡ aborted
unfolding db_insert_inbound_fragment insert_data_inbound insert_meta_inbound
    get_fragments_data_rowid store_fragment read_message_byte write_message find_meta find_data
    row_at
insert-aborts new_rowid f db pos no_meta no_data bad =
    let size : length (zeros f.sz) ≡ f.sz = length-replicate f.sz 0 in
    ground (arith, size, get_or-zeros f.sz f.off)

-- A message of less than 2^31 bytes carries a marker, no fragment of the message that the marker
-- names has come before, and SQLite chooses a rowid other than 0. The marker either states an
-- offset that is not below the size, or is longer than the message that carries it. Then the call
-- ends the process.
pub friend_message_cb-aborts :
    (new_rowid : List DataRow → ℕ) (friend type : ℕ) (m : Bytes) (len now : ℕ) (db : Db)
    (i : MarkerInfo)
    → 1 ≤ new_rowid db.rows
    → len < 2 ^ 31
    → marker_parse m len ≡ some i
    → find_meta 0 friend i.id db.meta ≡ none
    → find_data 0 friend i.id db.rows ≡ none
    → (i.sz ≤ i.off) ⊎ (len < i.size)
    → friend_message_cb new_rowid friend type m len now db ≡ aborted
unfolding friend_message_cb process_in_fragment
friend_message_cb-aborts new_rowid friend type m len now db i pos small parsed no_meta no_data bad =
    let marked : marker_exists m len ≡ true = (marker_exists_iff m len).1 (i, parsed) in
    let size = marker_parse_size m len i parsed in
    let f = inbound friend type i m len now in
    let bad' : (f.sz ≤ f.off) ⊎ (2 ^ 31 ≤ u32 f.len) = elim bad [
      | inl off ↦ inl off
      | inr over ↦ inr (omega (arith, size, over))
    ] in
    rw marked (
      rw (parsed, process_in_fragment) (rw (insert-aborts new_rowid f db pos no_meta no_data bad')))

-- A piece of a message that is partly there comes once more, its first byte is not 0, and the
-- database has a lock. Then the call changes nothing, except that it leaves one lock more held.
pub db_insert_inbound_fragment-leaks :
    (new_rowid : List DataRow → ℕ) (friend type id tm k : ℕ) (ps : List Bytes) (bs : List Bool)
    (db : Db) (small : length (flatten ps) < 2 ^ 31) (inside : k < length ps)
    (filled : 1 ≤ length (piece k ps)) (v : Receiving friend id ps bs db)
    → arrived k bs ≡ true
    → get_or (piece k ps) 0 0 ≢ 0
    → db.lock_set ≡ true
    → db_insert_inbound_fragment new_rowid (fragment_of friend id type tm ps k) db
      ≡ ok (record db { held = db.held + 1 }, none)
unfolding held-Receiving
db_insert_inbound_fragment-leaks new_rowid friend type id tm k ps bs db small inside filled v old
      byte lock =
    insert_known friend id ps small k inside filled type tm new_rowid bs db v
    ∙ store_duplicate friend id ps small bs k inside filled (db_lock db) type tm
        (held-Receiving friend id ps bs db _ v) old byte
    ∙ rw lock refl
