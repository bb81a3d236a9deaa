-- ===== src/Tests/Data.antt =====
-- The inputs of the tests.
use tox_defragmenter.Prelude.{
  ℕ, ◌+◌, [], Bytes, List, true, false, Bool, refl, replicate, length, arith, ◌≤◌,
}
use tox_defragmenter.Database.Types.{Db, DataRow}
use tox_defragmenter.Marker.RoundTrip.{IsMarkerId}
use tox_defragmenter.Sender.Types.{Params}
use tox_defragmenter.Sender.Receipts.{receipts_initialize}
use tox_defragmenter.Sender.Channel.{Tox, Channel}
use tox_defragmenter.Sender.State.{State}
use tox_defragmenter.Peer.Packets.{QueuedPacket, empty_queue}
use tox_defragmenter.Peer.State.{TestPeer}
use tox_defragmenter.Peer.Growth.{Holds}

abbrev pub test_id : ℕ
test_id = 1500000000000

pub test_id-IsMarkerId : IsMarkerId test_id
test_id-IsMarkerId = record { low = omega arith; high = omega arith }

-- 66 bytes, which fragments of 64 bytes carry in two parts.
abbrev pub text : Bytes
text = replicate 66 7

abbrev pub empty_db : Db
empty_db = record { meta = []; rows = []; lock_set = true; held = 0 }

abbrev pub fresh_rowid : List DataRow → ℕ
fresh_rowid rows = 1 + length rows

pub fresh_rowid_pos : (rows : List DataRow) → 1 ≤ fresh_rowid rows
fresh_rowid_pos rows = omega arith

-- It takes every packet, with receipts that count up; every friend is online.
abbrev pub ready_tox : Tox
ready_tox = record { reply = λ k p. 100 + k; online = λ k friend. true; clock = λ k. test_id + k }

abbrev pub test_params : Params
test_params = record {
  max_message_length = 64;
  fragments_at_a_time = 4;
  receipt_expiration_time_ms = 20000;
  receipt_range_lo = 1000;
  receipt_range_hi = 1009;
}

abbrev pub quiet : Channel
quiet = record { table = receipts_initialize; events = []; sends = 0; queries = 0; readings = 0 }

abbrev pub idle : State
idle = record {
  params = test_params;
  initialized_api = true;
  initialized_db = true;
  ever = 63;
  last_msg_id = 0;
  last_receipt = 1000;
  heap = [];
  head = 0;
  channel = quiet;
  db = empty_db;
}

abbrev pub clock : ℕ → ℕ
clock k = test_id + k

-- A peer that has taken one message from its interface, with nothing in its queues.
abbrev pub peer : TestPeer
peer = record {
  lib = idle;
  iface_out = empty_queue;
  net_out = empty_queue;
  saw_iface_eof = false;
  saw_net_eof = false;
  saw_net_end_signal = false;
  net_expect_messages = 0;
  net_received_messages = 0;
  net_received_receipts_short = λ _. false;
  net_received_receipts_long = λ _. false;
  msg_id_iface = 1;
  msg_id_net = 7;
  iface_input = [];
  net_input = [];
  iface_output = [];
  net_output = [];
}

abbrev pub no_packets : Bool → List QueuedPacket
no_packets _ = []

pub peer-Holds : Holds peer no_packets
peer-Holds true = (refl, omega arith)
peer-Holds false = (refl, omega arith)
