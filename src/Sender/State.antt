-- ===== src/Sender/State.antt =====
-- The static data of tox-defragmenter.c, and the two generators of numbers, `generateMsgId` and
-- `generateReceiptNo`.
pub mod Ids
pub mod Fresh
use tox_defragmenter.Prelude.{
  ℕ, zero, suc, ◌+◌, ◌-◌, ◌^◌, [], ◌∷◌, Bool, true, false, leb, ltb, if◌then◌else◌, ◌==◌, u32, u64,
  length, List, ◌||◌, Option, none, some,
}
use tox_defragmenter.Database.Types.{Db, Result, ok, aborted}
use tox_defragmenter.Sender.Types.{Params, MsgOutbound}
use tox_defragmenter.Sender.Channel.{Tox, Channel, get_curr_time_ms}
use tox_defragmenter.Sender.Heap.{Heap, msg_at, ring}

-- `markerMaxSizeEver` is `ever`, `msgsOutbound` is `head`.
pub record State : Type 0 where
  pub params : Params
  pub initialized_api : Bool
  pub initialized_db : Bool
  pub ever : ℕ
  pub last_msg_id : ℕ
  pub last_receipt : ℕ
  pub heap : Heap
  pub head : ℕ
  pub channel : Channel
  pub db : Db

-- `while (msgId <= lastMsgId) msgId++;` with a bound on the rounds.
pub raise_id : ℕ → ℕ → ℕ → ℕ
raise_id zero last id = id
raise_id (suc f) last id =
    let more = raise_id f last (u64 (id + 1)) in if leb id last then more else id

module _ (tox : Tox) where
  unfoldable pub generate_msg_id : State → ℕ × State
  generate_msg_id s =
      let (now, c) = get_curr_time_ms tox s.channel in
      let id = raise_id (suc s.last_msg_id) s.last_msg_id now in
      (id, record s { last_msg_id = id; channel = c })

-- Whether a message of the ring has the receipt.
unfoldable pub has_receipt : Heap → List ℕ → ℕ → Bool
has_receipt h [] receipt = false
has_receipt h (p ∷ ps) receipt = (msg_at h p).receipt == receipt || has_receipt h ps receipt

-- `lastReceipt+1 <= params.receiptRangeHi ? lastReceipt+1 : params.receiptRangeLo`
abbrev pub next_receipt : Params → ℕ → ℕ
next_receipt ps r =
    if leb (u32 (r + 1)) ps.receipt_range_hi then u32 (r + 1) else ps.receipt_range_lo

-- The loop of `generateReceiptNo`, with a bound on the rounds. With a round more than there are
-- messages, `none` means that all numbers that come up are taken, and then the code goes round for ever.
pub free_receipt : ℕ → Params → Heap → List ℕ → ℕ → Option ℕ
free_receipt zero ps h msgs r = none
free_receipt (suc f) ps h msgs r =
    let more = free_receipt f ps h msgs (next_receipt ps r) in
    if has_receipt h msgs r then more else some r

-- A loop that does not end gives no result, as an abort does.
abbrev pub last_receipt_set : State → Option ℕ → Result (ℕ × State)
last_receipt_set s none = aborted
last_receipt_set s (some r) = ok (r, record s { last_receipt = r })

unfoldable pub generate_receipt_no : State → Result (ℕ × State)
generate_receipt_no s =
    let msgs = ring (s.heap, s.head) in
    last_receipt_set s
      (free_receipt (suc (length msgs)) s.params s.heap msgs (next_receipt s.params s.last_receipt))
