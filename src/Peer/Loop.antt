-- ===== src/Peer/Loop.antt =====
-- The event loop of test-peer.c: `loop3` as `loop` calls it, and the tests that it makes.
pub mod Ledger
pub mod Body
pub mod Runs
pub mod Drains
pub mod Counting
use tox_defragmenter.Prelude.{
  ℕ, zero, suc, ◌+◌, ◌^◌, Bool, true, false, ◌&&◌, ◌||◌, not, ◌==◌, ltb, if◌then◌else◌, u32, List,
  [], ◌∷◌, Option, none, some,
}
use tox_defragmenter.Database.Types.{DataRow}
use tox_defragmenter.Peer.Outcome.{Outcome, done, abort, ◌>>=◌}
use tox_defragmenter.Peer.State.{TestPeer}
use tox_defragmenter.Peer.Events.{on_iface_rd, on_net_rd, on_iface_wr, on_net_wr}

abbrev pub bit : Bool → ℕ
bit b = if b then 1 else 0

-- The loop of `receivedAllReceipts` from `i` on, with the rounds that `i <= msgIdIface` leaves. The
-- arrays of the code have `receipts_limit` entries, and it can read behind them for a `msgIdIface` that
-- is not below that; here an entry behind the end is one that was not noted.
unfoldable pub count_receipts : ℕ → ℕ → ℕ → TestPeer → ℕ
count_receipts zero i cnt s = cnt
count_receipts (suc rounds) i cnt s =
    let more =
      count_receipts rounds (i + 1)
        (u32 (cnt + bit (s.net_received_receipts_short i) + bit (s.net_received_receipts_long i)))
        s in
    if ltb cnt s.msg_id_iface then more else cnt

unfoldable pub received_all_receipts : TestPeer → Bool
unfolding count_receipts
received_all_receipts s = count_receipts (suc s.msg_id_iface) 0 0 s == s.msg_id_iface

abbrev pub is_iface_rd : TestPeer → Bool
is_iface_rd s = not s.saw_iface_eof

abbrev pub is_iface_wr : TestPeer → Bool
is_iface_wr s = not (s.iface_out.first == 0)

abbrev pub is_net_wr : TestPeer → Bool
is_net_wr s = not (s.net_out.first == 0)

abbrev pub is_net_rd : TestPeer → Bool
is_net_rd s =
    not s.saw_net_end_signal
    || (not s.saw_net_eof
        || (ltb s.net_received_messages s.net_expect_messages || not (received_all_receipts s)))

abbrev pub need_continue : TestPeer → Bool
need_continue s =
    not s.saw_iface_eof
    || (not s.saw_net_end_signal
        || (ltb s.net_received_messages s.net_expect_messages
            || (not (received_all_receipts s) || (is_iface_wr s || is_net_wr s))))

-- Which streams `select` finds ready, were they all asked for.
pub record Ready : Type 0 where
  pub iface_rd : Bool
  pub net_rd : Bool
  pub iface_wr : Bool
  pub net_wr : Bool

abbrev pub when : Bool → (TestPeer → Outcome TestPeer) → TestPeer → Outcome TestPeer
when true handler s = handler s
when false handler s = done s

module _ (my_friend_id his_friend_id : ℕ) (clock : ℕ → ℕ) (new_rowid : List DataRow → ℕ) where
  -- The body of the loop; a stream that was not asked for is not reported.
  unfoldable pub loop_body : Ready → TestPeer → Outcome TestPeer
  loop_body r s = do
    s1 ←
        when (is_iface_rd s && r.iface_rd) (on_iface_rd my_friend_id his_friend_id clock new_rowid)
          s
    s2 ← when (is_net_rd s && r.net_rd) (on_net_rd my_friend_id his_friend_id clock new_rowid) s1
    s3 ←
        when (is_iface_wr s && r.iface_wr) (on_iface_wr my_friend_id his_friend_id clock new_rowid)
          s2
    when (is_net_wr s && r.net_wr) (on_net_wr my_friend_id his_friend_id clock new_rowid) s3

  -- The loop for the answers that `select` gives, `none` being its failure: it goes on while
  -- `needContinue` holds and an answer is left.
  unfoldable pub loop3 : List (Option Ready) → TestPeer → Outcome TestPeer
  unfolding loop_body
  loop3 [] s = done s
  loop3 (none ∷ rs) s = abort
  loop3 (some r ∷ rs) s =
      loop_body r s >>= λ (s' : TestPeer). if need_continue s' then loop3 rs s' else done s'
