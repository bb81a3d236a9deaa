-- ===== src/Tests/Markers.antt =====
-- Markers at concrete inputs.
use tox_defragmenter.Prelude.{ℕ, ◌+◌, ◌-◌, ◌++◌, [], ◌∷◌, ◌≡◌, arith, Bytes, some, ◌↔◌, ◌≤◌, ◌<◌}
use tox_defragmenter.Marker.{
  MarkerInfo, marker_print, marker_text, marker_parse, marker_parse_fields,
}
use tox_defragmenter.Decimal.{decimal, digits}
use tox_defragmenter.Marker.Accept.{IsMarked, marker_parse_fields_iff, marker_parse_size}
use tox_defragmenter.Marker.RoundTrip.{marker_parse-marker_print}
use tox_defragmenter.Marker.Overread.{marker_parse_overread}
use tox_defragmenter.Tests.Data.{test_id, test_id-IsMarkerId}

abbrev marked : Bytes
marked = (marker_print test_id 2 12 93 1000).0 ++ 5 ∷ 6 ∷ []

printed_long : 27 < (marker_print test_id 2 12 93 1000).1 + 2
unfolding marker_print marker_text decimal digits
printed_long = omega arith

marker_parse-marker_print_example :
    marker_parse marked ((marker_print test_id 2 12 93 1000).1 + 2)
    ≡ some (record {
      id = test_id;
      part_no = 2;
      num_parts = 12;
      off = 93;
      sz = 1000;
      size = (marker_print test_id 2 12 93 1000).1;
    })
marker_parse-marker_print_example =
    marker_parse-marker_print test_id 2 12 93 1000 (5 ∷ 6 ∷ []) test_id-IsMarkerId (omega arith)
      (omega arith) (omega arith) (omega arith) printed_long

overread_long : 28 < (marker_print test_id 2 12 93 1000).1
unfolding marker_print marker_text decimal digits
overread_long = omega arith

marker_parse_overread_example :
    marker_parse
      ((marker_print test_id 2 12 93 1000).0 ++ [])
      ((marker_print test_id 2 12 93 1000).1 - 1)
    ≡ some (record {
      id = test_id;
      part_no = 2;
      num_parts = 12;
      off = 93;
      sz = 1000;
      size = ((marker_print test_id 2 12 93 1000).1 - 1) + 1;
    })
marker_parse_overread_example =
    marker_parse_overread test_id 2 12 93 1000 [] test_id-IsMarkerId (omega arith) (omega arith)
      (omega arith) (omega arith) overread_long

marker_parse_fields_iff_example :
    (marker_parse_fields marked 34 ≡ some ((17, 1) ∷ (19, 2) ∷ (22, 2) ∷ (25, 4) ∷ [])) ↔ (
      (27 < 34)
      × ((stop : ℕ) × IsMarked marked ((17, 1) ∷ (19, 2) ∷ (22, 2) ∷ (25, 4) ∷ []) stop
          × (stop ≤ 34 + 1)))
marker_parse_fields_iff_example =
    marker_parse_fields_iff marked 34 ((17, 1) ∷ (19, 2) ∷ (22, 2) ∷ (25, 4) ∷ [])

abbrev read : MarkerInfo
read = record {
  id = test_id;
  part_no = 2;
  num_parts = 12;
  off = 93;
  sz = 1000;
  size = (marker_print test_id 2 12 93 1000).1;
}

marked_parsed : marker_parse marked ((marker_print test_id 2 12 93 1000).1 + 2) ≡ some read
marked_parsed =
    marker_parse-marker_print test_id 2 12 93 1000 (5 ∷ 6 ∷ []) test_id-IsMarkerId (omega arith)
      (omega arith) (omega arith) (omega arith) printed_long

marker_parse_size_example :
    (27 ≤ read.size)
    × (read.size ≤ 63)
    × (read.size ≤ ((marker_print test_id 2 12 93 1000).1 + 2) + 1)
marker_parse_size_example =
    marker_parse_size marked ((marker_print test_id 2 12 93 1000).1 + 2) read marked_parsed
