-- ===== src/Sender/Split/Correct.antt =====
-- What `splitMessage` promises of its fragments.
use tox_defragmenter.Prelude.{
  ℕ, suc, ◌+◌, ◌-◌, ◌^◌, ◌≤◌, ◌<◌, [], ◌∷◌, ◌++◌, Bytes, ◌≡◌, refl, ap, sym, subst, ◌∙◌, u32,
  length, drop, List, some, All, arith, length-append, drop-append_length,
}
use mathlib.Core.List.{flatten}
use tox_defragmenter.Marker.{marker_max_size_bytes, marker_text, marker_parse}
use tox_defragmenter.Marker.Size.{length-marker_text_le}
use tox_defragmenter.Marker.RoundTrip.{IsMarkerId, marker_print-size, marker_parse-At}
use tox_defragmenter.Marker.Layout.{At-zero}
use tox_defragmenter.Sender.Types.{Fragment, MsgOutbound}
use tox_defragmenter.Sender.Split.{
  reserved, max_piece, parts_of, marker_max_size_ever, split_message,
}
use tox_defragmenter.Sender.Split.Pieces.{
  pieces, Fits, fragments_of, fragment, flatten-pieces, pieces-Fits, split_loop-pieces,
}
use tox_defragmenter.Sender.Split.Count.{
  length-pieces, parts_of-ceil, ceil-le_self, reserved_le, size_minus_le,
  marker_max_size_bytes-reserved,
}

-- What a receiver finds in a fragment: it does not exceed the greatest length, its marker reads as
-- these numbers, and the piece of the message stands behind the marker.
pub record ReadsBack (max_length id part_no num_parts off total : ℕ) (piece : Bytes) (f : Fragment)
    : Type 0 where
  pub text : Bytes
  pub marker_size : ℕ
  pub bytes : f.bytes ≡ some text
  pub size : f.size ≡ length text
  pub fits : f.size ≤ max_length
  pub parsed :
      marker_parse text f.size
      ≡ some (record {
        id = id;
        part_no = part_no;
        num_parts = num_parts;
        off = off;
        sz = total;
        size = marker_size;
      })
  pub payload : drop marker_size text ≡ piece

-- Piece by piece, with the part numbers and the offsets counted on.
abbrev pub AllReadBack : ℕ → ℕ → ℕ → ℕ → ℕ → ℕ → List Bytes → List Fragment → Type 0
AllReadBack max_length id num_parts total part_no off [] fs = fs ≡ []
AllReadBack max_length id num_parts total part_no off (p ∷ ps) [] = ⊥
AllReadBack max_length id num_parts total part_no off (p ∷ ps) (f ∷ fs) =
    ReadsBack max_length id part_no num_parts off total p f
    × AllReadBack max_length id num_parts total (part_no + 1) (off + length p) ps fs

module _ (max_length id num_parts total step : ℕ) (h : IsMarkerId id) (hn : num_parts < 2 ^ 32)
    (ht : total < 2 ^ 31) (room : marker_max_size_bytes num_parts total + step ≤ max_length) where
  fragment-ReadsBack :
      (part_no off : ℕ) (p : Bytes)
      → part_no ≤ num_parts
      → off ≤ total
      → Fits step p
      → ReadsBack max_length id part_no num_parts off total p
          (fragment (marker_text id part_no num_parts off total ++ p))
  fragment-ReadsBack part_no off p hp ho fit =
      let mark = marker_text id part_no num_parts off total in
      let whole = length-append mark p in
      record {
        text = mark ++ p;
        marker_size = length mark;
        bytes = refl;
        size = refl;
        fits = omega (
          arith,
          whole,
          length-marker_text_le id part_no num_parts off total h.high hp ho hn (omega arith),
        );
        parsed =
            marker_parse-At (mark ++ p) (length (mark ++ p)) id part_no num_parts off total h
              (omega arith) hn (omega arith) (omega arith) (At-zero mark p)
              (omega (
                arith,
                whole,
                marker_print-size id part_no num_parts off total h (omega arith) hn (omega arith)
                    (omega arith),
              ))
              (omega (arith, whole));
        payload = drop-append_length mark p;
      }

  fragments_of-AllReadBack :
      (ps : List Bytes) (part_no off : ℕ)
      → All (Fits step) ps
      → part_no + length ps ≤ num_parts + 1
      → off + length (flatten ps) ≤ total
      → AllReadBack max_length id num_parts total part_no off ps
          (fragments_of id num_parts total part_no off ps)
  unfolding flatten
  fragments_of-AllReadBack [] part_no off fit count room = refl
  fragments_of-AllReadBack (p ∷ ps) part_no off (fit, fits) count room =
      let split = length-append p (flatten ps) in
      (
        fragment-ReadsBack part_no off p (omega arith) (omega arith) fit,
        fragments_of-AllReadBack ps (part_no + 1) (off + length p) fits (omega arith) (omega arith),
      )

module _ (message : Bytes) (max_length id : ℕ) (h : IsMarkerId id) (hm : 63 < max_length)
    (hl : length message < 2 ^ 31) where
  abbrev step : ℕ
  step = max_piece marker_max_size_ever (length message) max_length

  step_eq : step ≡ max_length - reserved marker_max_size_ever (length message) max_length
  unfolding max_piece
  step_eq =
      size_minus_le max_length (reserved marker_max_size_ever (length message) max_length)
        (omega (arith, reserved_le (length message) max_length hm (omega arith)))

  step_pos : 1 ≤ step
  step_pos = omega (arith, step_eq, reserved_le (length message) max_length hm (omega arith))

  -- The pieces of the message.
  abbrev pub message_pieces : List Bytes
  message_pieces = pieces (suc (length message)) step message

  abbrev msg : MsgOutbound
  msg = split_message marker_max_size_ever message max_length id

  -- For a message of less than 2^31 bytes, a greatest length of more than 63 bytes and an id of 13
  -- digits, `splitMessage` makes one fragment for each piece, a marker and the piece, numbered
  -- from 1 on, with the offset of the piece and the size of the message. The pieces spell the
  -- message, none is empty or exceeds what the markers leave, and `numParts` counts them.
  pub split_message-pieces :
      (msg.fragments ≡ fragments_of id msg.num_parts (length message) 1 0 message_pieces)
      × (flatten message_pieces ≡ message)
      × All (Fits step) message_pieces
      × (length message_pieces ≡ msg.num_parts)
  unfolding split_message
  split_message-pieces =
      let small : length message < 2 ^ 32 = omega arith in
      let count = parts_of-ceil (length message) step step_pos small in
      let w : u32 (length message) ≡ length message = omega arith in
      let few : parts_of (length message) step < 2 ^ 32 =
        omega (arith, ceil-le_self (length message) step step_pos) in
      (
        rw w (
            split_loop-pieces id (parts_of (length message) step) (length message) step h few hl
              step_pos (suc (length message)) 1 0 message (omega arith) (omega arith)
              (omega arith)),
        flatten-pieces (suc (length message)) step message step_pos (omega arith),
        pieces-Fits (suc (length message)) step message step_pos,
        length-pieces (suc (length message)) step message step_pos (omega arith) ∙ sym count,
      )

  num_parts-lt : msg.num_parts < 2 ^ 32
  unfolding split_message
  num_parts-lt = omega (
    arith,
    parts_of-ceil (length message) step step_pos (omega arith),
    ceil-le_self (length message) step step_pos,
  )

  markers_fit : marker_max_size_bytes msg.num_parts (length message) + step ≤ max_length
  unfolding split_message
  markers_fit =
      subst
        (λ n. marker_max_size_bytes (parts_of (length message) n) (length message) + n ≤ max_length)
        (sym step_eq)
        (omega (
          arith,
          marker_max_size_bytes-reserved (length message) max_length hm (omega arith),
          reserved_le (length message) max_length hm (omega arith),
        ))

  -- For a message of less than 2^31 bytes, a greatest length of more than 63 bytes and an id of 13
  -- digits, every fragment of `splitMessage` reads back as its part of the message: `markerParse`
  -- finds the id, its part number, `numParts`, its offset and the size of the message, its piece
  -- stands behind the marker, and the fragment does not exceed the greatest length.
  pub split_message-AllReadBack :
      AllReadBack max_length id msg.num_parts (length message) 1 0 message_pieces msg.fragments
  split_message-AllReadBack =
      let (made, whole, fit, count) = split_message-pieces in
      let small : length message < 2 ^ 32 = omega arith in
      rw made (
        fragments_of-AllReadBack max_length id msg.num_parts (length message) step h num_parts-lt hl
          markers_fit message_pieces 1 0 fit (omega arith) (omega (arith, ap length whole)))
