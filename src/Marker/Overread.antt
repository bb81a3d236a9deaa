-- ===== src/Marker/Overread.antt =====
-- The guard of the last field looks one byte too far.
use tox_defragmenter.Prelude.{ℕ, ◌+◌, ◌-◌, ◌^◌, ◌<◌, ◌++◌, ◌≡◌, subst, arith, Bytes, length, some}
use tox_defragmenter.Marker.{marker_parse, marker_print, marker_text}
use tox_defragmenter.Marker.Layout.{At-zero}
use tox_defragmenter.Marker.RoundTrip.{IsMarkerId, marker_parse-At, marker_print-size}

-- For an id of 13 digits and four numbers below 2^32, a marker of more than 28 bytes whose last
-- byte lies behind the end of the message is accepted, whatever memory follows: the length is one
-- less than the size that is returned.
pub marker_parse_overread :
    (id part_no num_parts off sz : ℕ) (rest : Bytes)
    → IsMarkerId id
    → part_no < 2 ^ 32
    → num_parts < 2 ^ 32
    → off < 2 ^ 32
    → sz < 2 ^ 32
    → let printed = marker_print id part_no num_parts off sz in
      28 < printed.1
      → marker_parse (printed.0 ++ rest) (printed.1 - 1)
        ≡ some (record {
          id = id;
          part_no = part_no;
          num_parts = num_parts;
          off = off;
          sz = sz;
          size = (printed.1 - 1) + 1;
        })
marker_parse_overread id a b c d rest h ha hb hc hd long =
    let size = marker_print-size id a b c d h ha hb hc hd in
    let long' = subst (λ p. 28 < p.1) size.0 long in
    rw size.0 (
      ground (
        arith,
        marker_parse-At (marker_text id a b c d ++ rest) (length (marker_text id a b c d) - 1) id a
            b c d h ha hb hc hd (At-zero (marker_text id a b c d) rest) (omega arith) (omega arith),
      ))
