-- ===== src/Tests/Splitting.antt =====
-- A message of 66 bytes in fragments of 64 bytes.
use mathlib.Core.List.{flatten}
use tox_defragmenter.Prelude.{◌≡◌, ◌<◌, ◌^◌, arith, length, All}
use tox_defragmenter.Sender.Split.{split_message, marker_max_size_ever, max_piece}
use tox_defragmenter.Sender.Split.Pieces.{Fits, fragments_of}
use tox_defragmenter.Sender.Split.Correct.{
  AllReadBack, message_pieces, split_message-pieces, split_message-AllReadBack,
}
use tox_defragmenter.Sender.Types.{MsgOutbound}
use tox_defragmenter.Tests.Data.{text, test_id, test_id-IsMarkerId}

text_short : length text < 2 ^ 31
text_short = omega arith

abbrev msg : MsgOutbound
msg = split_message marker_max_size_ever text 64 test_id

split_message-pieces_example :
    (msg.fragments
      ≡ fragments_of test_id msg.num_parts
          (length text)
          1
          0
          (message_pieces text 64 test_id test_id-IsMarkerId (omega arith) text_short))
    × (flatten (message_pieces text 64 test_id test_id-IsMarkerId (omega arith) text_short) ≡ text)
    × All
        (Fits (max_piece marker_max_size_ever 66 64))
        (message_pieces text 64 test_id test_id-IsMarkerId (omega arith) text_short)
    × (length (message_pieces text 64 test_id test_id-IsMarkerId (omega arith) text_short)
        ≡ msg.num_parts)
split_message-pieces_example =
    split_message-pieces text 64 test_id test_id-IsMarkerId (omega arith) text_short

split_message-AllReadBack_example :
    AllReadBack 64 test_id msg.num_parts
      (length text)
      1
      0
      (message_pieces text 64 test_id test_id-IsMarkerId (omega arith) text_short)
      msg.fragments
split_message-AllReadBack_example =
    split_message-AllReadBack text 64 test_id test_id-IsMarkerId (omega arith) text_short
