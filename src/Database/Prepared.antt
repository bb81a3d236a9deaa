-- ===== src/Database/Prepared.antt =====
-- The prepared statements of database.c: they are made once, bound again for each use, and run.
pub mod Bind
pub mod Sql
pub mod Runs
use tox_defragmenter.Prelude.{
  ℕ, ◌+◌, ◌-◌, ◌^◌, ◌==◌, ◌||◌, [], ◌∷◌, Bytes, ltb, if◌then◌else◌, u32, u64, length, replicate,
  set, List, Option, none, some,
}
use tox_defragmenter.Database.Types.{Result, ok, aborted, ◌>>=◌}

-- A value of SQLite: an integer of 64 bits as its bit pattern, a blob, or NULL.
pub data Value : Type 0 where
  integer : ℕ → Value
  blob : Bytes → Value
  null : Value

-- The parameters of a prepared statement, the first one first. Resetting a statement keeps them.
abbrev pub Bindings : Type 0
Bindings = List Value

-- `prepare`: a statement that was made before is used again, with the parameters that it has.
unfoldable pub prepare : ℕ → Option Bindings → Bindings
prepare n none = replicate n null
prepare n (some ps) = ps

-- The static data: the nine statements, `none` where the pointer is NULL.
pub record Statements : Type 0 where
  pub insert_fragmented_data_inbound : Option Bindings
  pub insert_fragmented_meta_inbound : Option Bindings
  pub select_rowid_from_fragmented_meta : Option Bindings
  pub insert_fragmented_data_outbound : Option Bindings
  pub insert_fragmented_meta_outbound : Option Bindings
  pub update_fragmented_meta : Option Bindings
  pub select_fragmented_inbound_done : Option Bindings
  pub select_fragmented_outbound_pending : Option Bindings
  pub delete_fragmented_data : Option Bindings

-- `destroyPreparedStatements`, and the static data when the program starts.
abbrev pub destroy_prepared_statements : Statements
destroy_prepared_statements = record {
  insert_fragmented_data_inbound = none;
  insert_fragmented_meta_inbound = none;
  select_rowid_from_fragmented_meta = none;
  insert_fragmented_data_outbound = none;
  insert_fragmented_meta_outbound = none;
  update_fragmented_meta = none;
  select_fragmented_inbound_done = none;
  select_fragmented_outbound_pending = none;
  delete_fragmented_data = none;
}

-- Parameters are counted from 1; any other number is an error, which aborts.
unfoldable pub bind_value : Bindings → ℕ → Value → Result Bindings
bind_value ps n v = if n == 0 || ltb (length ps) n then aborted else ok (set ps (n - 1) v)

-- An int is extended to 64 bits with its sign.
abbrev pub extended : ℕ → ℕ
extended a = if ltb (u32 a) (2 ^ 31) then u32 a else u32 a + (2 ^ 64 - 2 ^ 32)

-- The argument is converted to an int.
abbrev pub bind_int : Bindings → ℕ → ℕ → Result Bindings
bind_int ps n a = bind_value ps n (integer (extended a))

abbrev pub bind_int64 : Bindings → ℕ → ℕ → Result Bindings
bind_int64 ps n a = bind_value ps n (integer (u64 a))

abbrev pub bind_blob : Bindings → ℕ → Bytes → Result Bindings
bind_blob ps n m = bind_value ps n (blob m)

unfoldable pub bind_int_int64 : Bindings → ℕ → ℕ → Result Bindings
unfolding bind_value
bind_int_int64 ps a1 a2 = do ps1 ← bind_int ps 1 a1; bind_int64 ps1 2 a2

unfoldable pub bind_int_int_int64 : Bindings → ℕ → ℕ → ℕ → Result Bindings
unfolding bind_value
bind_int_int_int64 ps a1 a2 a3 = do
  ps1 ← bind_int ps 1 a1
  ps2 ← bind_int ps1 2 a2
  bind_int64 ps2 3 a3

unfoldable pub bind_int_int64_int_int64 : Bindings → ℕ → ℕ → ℕ → ℕ → Result Bindings
unfolding bind_value
bind_int_int64_int_int64 ps a1 a2 a3 a4 = do
  ps1 ← bind_int ps 1 a1
  ps2 ← bind_int64 ps1 2 a2
  ps3 ← bind_int ps2 3 a3
  bind_int64 ps3 4 a4

unfoldable pub bind_int_int64_blob_int_int : Bindings → ℕ → ℕ → Bytes → ℕ → ℕ → Result Bindings
unfolding bind_value
bind_int_int64_blob_int_int ps a1 a2 a3 a4 a5 = do
  ps1 ← bind_int ps 1 a1
  ps2 ← bind_int64 ps1 2 a2
  ps3 ← bind_blob ps2 3 a3
  ps4 ← bind_int ps3 4 a4
  bind_int ps4 5 a5

-- The fourth argument is an int, and bound as 64 bits.
unfoldable pub bind_int_int64_int64_int_int64 : Bindings → ℕ → ℕ → ℕ → ℕ → ℕ → Result Bindings
unfolding bind_value
bind_int_int64_int64_int_int64 ps a1 a2 a3 a4 a5 = do
  ps1 ← bind_int ps 1 a1
  ps2 ← bind_int64 ps1 2 a2
  ps3 ← bind_int64 ps2 3 a3
  ps4 ← bind_int64 ps3 4 (extended a4)
  bind_int64 ps4 5 a5

unfoldable pub bind_int_int_int64_int64_int64_int :
    Bindings → ℕ → ℕ → ℕ → ℕ → ℕ → ℕ → Result Bindings
unfolding bind_value
bind_int_int_int64_int64_int64_int ps a1 a2 a3 a4 a5 a6 = do
  ps1 ← bind_int ps 1 a1
  ps2 ← bind_int ps1 2 a2
  ps3 ← bind_int64 ps2 3 a3
  ps4 ← bind_int64 ps3 4 a4
  ps5 ← bind_int64 ps4 5 a5
  bind_int ps5 6 a6

unfoldable pub bind_int_int_int64_int64_int64_int_int_int64 :
    Bindings → ℕ → ℕ → ℕ → ℕ → ℕ → ℕ → ℕ → ℕ → Result Bindings
unfolding bind_value
bind_int_int_int64_int64_int64_int_int_int64 ps a1 a2 a3 a4 a5 a6 a7 a8 = do
  ps1 ← bind_int ps 1 a1
  ps2 ← bind_int ps1 2 a2
  ps3 ← bind_int64 ps2 3 a3
  ps4 ← bind_int64 ps3 4 a4
  ps5 ← bind_int64 ps4 5 a5
  ps6 ← bind_int ps5 6 a6
  ps7 ← bind_int ps6 7 a7
  bind_int64 ps7 8 a8
