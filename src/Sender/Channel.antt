-- ===== src/Sender/Channel.antt =====
-- What the sending functions of tox-defragmenter.c use besides the message: toxcore, the clock and the
-- table of receipts.
use tox_defragmenter.Prelude.{ℕ, ◌+◌, ◌∷◌, Bool, Bytes, List, Option}
use tox_defragmenter.Sender.Receipts.{Table}

-- A call of toxcore's `tox_friend_send_message`. A NULL pointer has no bytes.
pub record Packet : Type 0 where
  pub friend_number : ℕ
  pub type : ℕ
  pub size : ℕ
  pub bytes : Option Bytes

-- Toxcore and the clock. The first number is that of the earlier calls; a reply of 0 is a failure.
pub record Tox : Type 0 where
  pub reply : ℕ → Packet → ℕ
  pub online : ℕ → ℕ → Bool
  pub clock : ℕ → ℕ

-- The calls that were made, the last one first.
pub data Event : Type 0 where
  sent : Packet → Event
  receipt_given : (friend_number receipt : ℕ) → Event

pub record Channel : Type 0 where
  pub table : Table
  pub events : List Event
  pub sends : ℕ
  pub queries : ℕ
  pub readings : ℕ

module _ (tox : Tox) where
  -- `TOX(friend_send_message)`
  unfoldable pub tox_friend_send_message : Packet → Channel → ℕ × Channel
  tox_friend_send_message p c =
      (tox.reply c.sends p, record c { events = sent p ∷ c.events; sends = c.sends + 1 })

  -- `isFriendOnline`
  unfoldable pub is_friend_online : ℕ → Channel → Bool × Channel
  is_friend_online friend c = (tox.online c.queries friend, record c { queries = c.queries + 1 })

  -- `getCurrTimeMs`
  unfoldable pub get_curr_time_ms : Channel → ℕ × Channel
  get_curr_time_ms c = (tox.clock c.readings, record c { readings = c.readings + 1 })

-- A call of the client's `friend_read_receipt_cb`.
unfoldable pub give_receipt : (friend receipt : ℕ) → Channel → Channel
give_receipt friend receipt c = record c { events = receipt_given friend receipt ∷ c.events }
