-- ===== src/Receiver.antt =====
-- tox-defragmenter.c, the receiving side: `friend_message_cb`, `processInFragment`, `messageReady`.
pub mod Mask
pub mod Store
pub mod Phase
pub mod Insert
pub mod Wire
pub mod Reassembly
pub mod Delivery
pub mod Faults
pub mod Short
use tox_defragmenter.Prelude.{
  ℕ, ◌+◌, ◌-◌, ◌%◌, ◌^◌, Bool, true, false, Bytes, if◌then◌else◌, u64, take, drop, List, Option,
  none, some,
}
use tox_defragmenter.Marker.{MarkerInfo, marker_exists, marker_parse}
use tox_defragmenter.Database.Types.{DataRow, Db, Result, ok, aborted, ◌>>=◌}
use tox_defragmenter.Database.Inbound.{Ready, Inbound, db_insert_inbound_fragment}

-- A call of the client's `friend_message_cb`.
pub record ClientMessage : Type 0 where
  pub friend_number : ℕ
  pub type : ℕ
  pub message : Bytes

abbrev message_ready : Ready → ClientMessage
message_ready r = record { friend_number = r.friend_number; type = r.type; message = r.message }

abbrev pub forward : Option Ready → Option ClientMessage
forward none = none
forward (some r) = some (message_ready r)

-- The fragment behind a marker; `length - markerSize` is a size_t.
abbrev pub inbound : ℕ → ℕ → MarkerInfo → Bytes → ℕ → ℕ → Inbound
inbound friend type i m len now = record {
  friend_number = friend;
  type = type;
  id = i.id;
  num_parts = i.num_parts;
  off = i.off;
  sz = i.sz;
  new = drop i.size m;
  len = u64 (len + 2 ^ 64 - i.size);
  tm = now;
}

module _ (new_rowid : List DataRow → ℕ) where
  -- It is called where a marker exists, so that `markerParse` succeeds.
  unfoldable pub process_in_fragment :
      (friend type : ℕ) (m : Bytes) (len now : ℕ) → Db → Result (Db × Option ClientMessage)
  process_in_fragment friend type m len now db = elim (marker_parse m len) [
    | none ↦ ok (db, none)
    | some i ↦
        db_insert_inbound_fragment new_rowid (inbound friend type i m len now) db >>= λ result.
        ok (result.0, forward result.1)
  ]

  -- A fragment goes to the database, any other message to the client.
  unfoldable pub friend_message_cb :
      (friend type : ℕ) (m : Bytes) (len now : ℕ) → Db → Result (Db × Option ClientMessage)
  friend_message_cb friend type m len now db =
      if marker_exists m len
      then process_in_fragment friend type m len now db
      else ok (db, some (record { friend_number = friend; type = type; message = take len m }))
