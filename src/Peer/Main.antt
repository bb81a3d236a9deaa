-- ===== src/Peer/Main.antt =====
-- `main` of test-peer.c, from its arguments on.
use tox_defragmenter.Prelude.{
  ℕ, ◌+◌, [], Bytes, true, false, List, Option, none, some, ◌≡◌, ◌≢◌, refl, arith,
}
use tox_defragmenter.Database.Types.{DataRow, Db}
use tox_defragmenter.Sender.Types.{Params, default_params}
use tox_defragmenter.Sender.State.{State}
use tox_defragmenter.Sender.Api.{set_parameters, initialize_api, initialize_db, uninitialize}
use tox_defragmenter.Peer.Outcome.{Outcome, done, bad_access, empty_list, ◌>>=◌}
use tox_defragmenter.Peer.Outcome.Post.{Post, Any, Post-bind, Post-ne-empty_list}
use tox_defragmenter.Peer.Packets.{empty_queue}
use tox_defragmenter.Peer.State.{TestPeer, defrag_receipts_lo}
use tox_defragmenter.Peer.Growth.{Holds}
use tox_defragmenter.Peer.Loop.{Ready, loop3}
use tox_defragmenter.Peer.Loop.Ledger.{Ledger}
use tox_defragmenter.Peer.Loop.Runs.{turns, loop3-Ledger}

-- The static data of the library when the program starts.
abbrev pub static_data : State
static_data = record {
  params = default_params;
  initialized_api = false;
  initialized_db = false;
  ever = 0;
  last_msg_id = 0;
  last_receipt = 0;
  heap = [];
  head = 0;
  channel = record {
    table = record { slots = []; lo = 0; hi = 0; num = 0; alloc = 0; overrun = false };
    events = [];
    sends = 0;
    queries = 0;
    readings = 0;
  };
  db = record { meta = []; rows = []; lock_set = false; held = 0 };
}

-- The parameters that `main` sets.
abbrev pub main_params : (max_message_length fragments_at_a_time expiration : ℕ) → Params
main_params max_message_length fragments_at_a_time expiration = record {
  max_message_length = max_message_length;
  fragments_at_a_time = fragments_at_a_time;
  receipt_expiration_time_ms = expiration;
  receipt_range_lo = defrag_receipts_lo;
  receipt_range_hi = defrag_receipts_lo + 1000000;
}

-- Before the loop. `none` is an empty name of the database: then `apiFront` is not set, and `main` calls
-- its NULL functions. The database has no lock callback.
unfoldable pub main_start : Params → Option Db → (iface net : Bytes) → Outcome TestPeer
main_start ps none iface net = bad_access
main_start ps (some db) iface net = done (record {
  lib =
      initialize_db (record db { lock_set = false; held = 0 })
        (initialize_api (set_parameters ps static_data));
  iface_out = empty_queue;
  net_out = empty_queue;
  saw_iface_eof = false;
  saw_net_eof = false;
  saw_net_end_signal = false;
  net_expect_messages = 0;
  net_received_messages = 0;
  net_received_receipts_short = λ _. false;
  net_received_receipts_long = λ _. false;
  msg_id_iface = 0;
  msg_id_net = 0;
  iface_input = iface;
  net_input = net;
  iface_output = [];
  net_output = [];
})

empty-Holds :
    (s : TestPeer) → s.net_out ≡ empty_queue → s.iface_out ≡ empty_queue → Holds s (λ _. [])
empty-Holds s n i true = rw n (refl, omega arith)
empty-Holds s n i false = rw i (refl, omega arith)

module _ (my his : ℕ) (clock : ℕ → ℕ) (new_rowid : List DataRow → ℕ) where
  -- The answers of `select` are given, and the bytes that the two streams will hold.
  unfoldable pub main :
      Params → Option Db → (iface net : Bytes) → List (Option Ready) → Outcome TestPeer
  unfolding main_start
  main ps db iface net rs = do
    start ← main_start ps db iface net
    end ← loop3 my his clock new_rowid rs start
    done (record end { lib = uninitialize end.lib })

  start_Holds :
      (ps : Params) (db : Option Db) (iface net : Bytes)
      → Post (λ s. Holds s (λ _. [])) (main_start ps db iface net)
  unfolding main_start
  start_Holds ps none iface net = tt
  start_Holds ps (some db) iface net = empty-Holds _ refl refl

  -- Whatever the arguments are, the database holds, the streams bring and `select` answers, and whatever
  -- the library does on the way: a run of the program never picks a packet from an empty queue, which
  -- `packetPickFront` assumes, nor follows a link of a queue to a packet that is not there.
  pub main-ne-empty_list :
      (ps : Params) (db : Option Db) (iface net : Bytes) (rs : List (Option Ready))
      → main ps db iface net rs ≢ empty_list
  unfolding main
  main-ne-empty_list ps db iface net rs = Post-ne-empty_list Any _ (
      Post-bind (λ s. Holds s (λ _. [])) Any (main_start ps db iface net) _
        (start_Holds ps db iface net)
        (λ s h.
          Post-bind (Ledger my (turns rs) s (λ _. [])) Any (loop3 my his clock new_rowid rs s) _
            (loop3-Ledger my his clock new_rowid rs s (λ _. []) h) (λ end _. tt)))
