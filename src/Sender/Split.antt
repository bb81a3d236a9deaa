-- ===== src/Sender/Split.antt =====
-- `splitMessage`: a long message becomes fragments, each a marker with a piece of the message.
pub mod Pieces
pub mod Count
pub mod Correct
use tox_defragmenter.Prelude.{
  ℕ, zero, suc, ◌+◌, ◌-◌, ◌*◌, ◌/◌, ◌%◌, ◌^◌, ◌≤◌, ◌<◌, [], ◌∷◌, ◌++◌, Bool, true, false, Bytes,
  ltb, leb, if◌then◌else◌, ◌==◌, u8, u32, length, take, drop, List, Option, none, some,
}
use tox_defragmenter.Marker.{marker_max_size_bytes, marker_print, int_max}
use tox_defragmenter.Sender.Types.{Fragment, MsgOutbound}

-- The value of `markerMaxSizeEver` after `initialize`; before, it is 0.
abbrev pub marker_max_size_ever : ℕ
marker_max_size_ever = marker_max_size_bytes int_max int_max

-- Subtraction in `size_t`.
unfoldable pub size_minus : ℕ → ℕ → ℕ
size_minus a b = if leb b a then a - b else a + 2 ^ 64 - b

-- `maxMarker`: the bytes that `splitMessage` sets aside for the marker of each fragment. `ever` is the
-- present value of `markerMaxSizeEver`. Where the greatest length is equal to it, the code divides by
-- 0, which is not modelled: the theorems ask for a greater length.
unfoldable pub reserved : ℕ → ℕ → ℕ → ℕ
reserved ever len max_length =
    marker_max_size_bytes
      (u32 (size_minus (size_minus (len + max_length) ever) 1 / size_minus max_length ever))
      (u32 len)

-- `maxLength` less `maxMarker`, the bytes that are left for a piece of the message.
unfoldable pub max_piece : ℕ → ℕ → ℕ → ℕ
max_piece ever len max_length = size_minus max_length (reserved ever len max_length)

-- `numParts`, for pieces of `step` bytes.
unfoldable pub parts_of : ℕ → ℕ → ℕ
parts_of len step = u32 ((len + step - 1) / step)

-- A fragment as the loop of `splitMessage` makes it.
abbrev pub fresh_fragment : Bytes × ℕ → Bytes → Fragment
fresh_fragment (text, size) piece = record {
  size = size + length piece;
  bytes = some (take size text ++ piece);
  receipt = 0;
  times_sent = 0;
  confirmed = 0;
}

-- The loop, with what does not change first: the id, the number of parts, the size of the message
-- and the greatest piece. Then a bound on the rounds, the part number, `off`, `len` and `m`.
module _ (id num_parts total max_step : ℕ) where
  unfoldable pub split_loop : ℕ → ℕ → ℕ → ℕ → Bytes → List Fragment
  split_loop zero part_no off len m = []
  split_loop (suc f) part_no off len m =
      let step = if leb max_step len then max_step else len in
      let rest = split_loop f (u32 (part_no + 1)) (u32 (off + step)) (len - step) (drop step m) in
      if len == 0
      then []
      else fresh_fragment (marker_print id part_no num_parts off (u32 total)) (take step m) ∷ rest

-- The message is the list of its bytes; a round for each byte is more than enough.
unfoldable pub split_message : ℕ → Bytes → ℕ → ℕ → MsgOutbound
split_message ever message max_length id =
    let len = length message in
    let step = max_piece ever len max_length in
    let num_parts = parts_of len step in
    record {
      friend_number = 0;
      id = id;
      type = 0;
      num_parts = num_parts;
      fragments = split_loop id num_parts len step (suc len) 1 0 (u32 len) message;
      receipt = 0;
      last_sent = 0;
      num_transit = 0;
      num_confirmed = 0;
      num_loss = 0;
      from_db = 0;
    }
