-- ===== src/Sender/Types.antt =====
-- The structures of tox-defragmenter.c: parameters, fragments, outbound messages, receipt records.
use tox_defragmenter.Prelude.{ℕ, List, Bytes, Option}

-- `struct params`
pub record Params : Type 0 where
  pub max_message_length : ℕ
  pub fragments_at_a_time : ℕ
  pub receipt_expiration_time_ms : ℕ
  pub receipt_range_lo : ℕ
  pub receipt_range_hi : ℕ

-- `params` as it is initialised; TOX_MAX_MESSAGE_LENGTH is 1372.
abbrev pub default_params : Params
default_params = record {
  max_message_length = 1372;
  fragments_at_a_time = 512;
  receipt_expiration_time_ms = 20000;
  receipt_range_lo = 0x70000000;
  receipt_range_hi = 0x7fffffff;
}

-- `data` is `none` where the pointer is NULL.
pub record Fragment : Type 0 where
  pub size : ℕ
  pub bytes : Option Bytes
  pub receipt : ℕ
  pub times_sent : ℕ
  pub confirmed : ℕ

-- `struct msg_outbound` without its links, which are in Heap.antt. The type is 0 for a normal message
-- and 1 for an action.
pub record MsgOutbound : Type 0 where
  pub friend_number : ℕ
  pub id : ℕ
  pub type : ℕ
  pub num_parts : ℕ
  pub fragments : List Fragment
  pub receipt : ℕ
  pub last_sent : ℕ
  pub num_transit : ℕ
  pub num_confirmed : ℕ
  pub num_loss : ℕ
  pub from_db : ℕ

-- `msg` is a pointer to an outbound message.
pub record ReceiptRecord : Type 0 where
  pub receipt : ℕ
  pub msg : ℕ
  pub part_no : ℕ
  pub timestamp : ℕ
