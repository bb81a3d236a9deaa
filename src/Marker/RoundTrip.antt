-- ===== src/Marker/RoundTrip.antt =====
-- `markerParse` reads back what `markerPrint` writes.
use tox_defragmenter.Prelude.{
  ℕ, ◌+◌, ◌^◌, ◌≤◌, ◌<◌, ◌∷◌, ◌++◌, ◌≡◌, ◌∙◌, subst, arith, Bytes, true, length, some,
}
use tox_defragmenter.Decimal.{decimal}
use tox_defragmenter.Decimal.Print.{
  decimal-IsDigit, length-decimal_le, length-decimal_ge, length-decimal_pos,
}
use tox_defragmenter.Marker.{
  byte, all_digits, fields_loop, marker_parse_fields, marker_parse, marker_print, marker_text,
  marker_char, parse_uint64, MarkerInfo,
}
use tox_defragmenter.Marker.Layout.{
  At, At-zero, At-append_left, At-append_right, all_digits-At, strtoul-At,
}
use tox_defragmenter.Marker.Size.{length-marker_text}
use tox_defragmenter.Marker.Fields.{fields_loop-At, is_marker_char-At, marker_parse_fields-guards}

-- An id is a time in milliseconds, printed with 13 digits.
pub record IsMarkerId (id : ℕ) : Type 0 where
  pub low : 10 ^ 12 ≤ id
  pub high : id < 10 ^ 13

length-id : (id : ℕ) → IsMarkerId id → length (decimal id) ≡ 13
length-id id h = omega (arith, length-decimal_le 12 id h.high, length-decimal_ge 12 id h.low)

-- For an id of 13 digits and four numbers below 2^32, `markerPrint` writes the text of the marker
-- and returns its size, which lies between 27 and 63.
pub marker_print-size :
    (id a b c d : ℕ)
    → IsMarkerId id
    → a < 2 ^ 32
    → b < 2 ^ 32
    → c < 2 ^ 32
    → d < 2 ^ 32
    → (marker_print id a b c d ≡ (marker_text id a b c d, length (marker_text id a b c d)))
      × (length (marker_text id a b c d) ≤ 63)
      × (27 ≤ length (marker_text id a b c d))
unfolding marker_print
marker_print-size id a b c d h ha hb hc hd =
    let n = length-marker_text id a b c d in
    let i = length-id id h in
    let small : length (marker_text id a b c d) ≤ 63 = omega (
      arith,
      length-decimal_le 9 a (omega arith),
      length-decimal_le 9 b (omega arith),
      length-decimal_le 9 c (omega arith),
      length-decimal_le 9 d (omega arith),
    ) in
    (
      ground arith,
      small,
      omega (
        arith,
        length-decimal_pos a,
        length-decimal_pos b,
        length-decimal_pos c,
        length-decimal_pos d,
      ),
    )

-- What `markerParse` is to return for a marker with these values.
abbrev info : ℕ → ℕ → ℕ → ℕ → ℕ → MarkerInfo
info id part_no num_parts off sz = record {
  id = id;
  part_no = part_no;
  num_parts = num_parts;
  off = off;
  sz = sz;
  size = length (marker_text id part_no num_parts off sz);
}

parse_uint64-At :
    (m : Bytes) (id : ℕ)
    → IsMarkerId id
    → At m 3 (decimal id)
    → byte m 16 ≡ b'|'
    → parse_uint64 m 3 ≡ id
unfolding parse_uint64
parse_uint64-At m id h a b =
    strtoul-At m 3 id a (omega (arith, h.high)) (rw (length-id id h) (ground arith))

marker_parse_fields-start :
    (m : Bytes) (len id : ℕ) (t : Bytes)
    → IsMarkerId id
    → At m 0 (marker_char ++ (decimal id ++ b'|' ∷ t))
    → 27 < len
    → (marker_parse_fields m len ≡ fields_loop m len 4 17) × At m 17 t × (parse_uint64 m 3 ≡ id)
marker_parse_fields-start m len id t h text long =
    let body : At m 3 (decimal id ++ b'|' ∷ t) = At-append_right m marker_char _ 0 text in
    let stamp : At m 3 (decimal id) = At-append_left m (decimal id) (b'|' ∷ t) 3 body in
    let behind : At m 16 (b'|' ∷ t) =
      subst (λ n. At m (3 + n) (b'|' ∷ t)) (length-id id h)
        (At-append_right m (decimal id) _ 3 body) in
    (
      marker_parse_fields-guards m len (is_marker_char-At m 0 _ text)
          (subst (λ n. all_digits m n 3 ≡ true) (length-id id h)
            (all_digits-At m 3 (decimal id) stamp (decimal-IsDigit id)))
          behind.0 long,
      behind.1,
      parse_uint64-At m id h stamp behind.0,
    )

-- Wherever a marker stands at the start of the memory, it is read, whatever follows it: the length
-- must exceed 27, and may stop one byte before the end of the marker.
module _ (m : Bytes) (len id a b c d : ℕ) (h : IsMarkerId id) (ha : a < 2 ^ 32) (hb : b < 2 ^ 32)
    (hc : c < 2 ^ 32) (hd : d < 2 ^ 32) (text : At m 0 (marker_text id a b c d)) (long : 27 < len)
    (fits : length (marker_text id a b c d) ≤ len + 1) where
  pub marker_parse-At : marker_parse m len ≡ some (info id a b c d)
  unfolding marker_parse marker_text
  marker_parse-At =
      let start = marker_parse_fields-start m len id _ h text long in
      let loop =
        fields_loop-At m len 17 a b c d ha hb hc hd start.1
          (omega (arith, length-marker_text id a b c d, length-id id h)) in
      rw (start.0 ∙ loop.0, marker_parse)
        (ground (
          arith,
          start.2,
          loop.1,
          loop.2,
          loop.3,
          loop.4,
          marker_print-size id a b c d h ha hb hc hd,
          length-marker_text id a b c d,
          length-id id h,
        ))

-- A message that begins with what `markerPrint` writes, for an id of 13 digits and four numbers
-- below 2^32, and that is longer than 27 bytes, is read back by `markerParse`, whatever follows
-- the marker: the id, the numbers, and the size of the marker.
pub marker_parse-marker_print :
    (id part_no num_parts off sz : ℕ) (rest : Bytes)
    → IsMarkerId id
    → part_no < 2 ^ 32
    → num_parts < 2 ^ 32
    → off < 2 ^ 32
    → sz < 2 ^ 32
    → let printed = marker_print id part_no num_parts off sz in
      27 < printed.1 + length rest
      → marker_parse (printed.0 ++ rest) (printed.1 + length rest)
        ≡ some (record {
          id = id;
          part_no = part_no;
          num_parts = num_parts;
          off = off;
          sz = sz;
          size = printed.1;
        })
marker_parse-marker_print id a b c d rest h ha hb hc hd long =
    let size = marker_print-size id a b c d h ha hb hc hd in
    rw (size.0) (
      marker_parse-At (marker_text id a b c d ++ rest)
        (length (marker_text id a b c d) + length rest) id a b c d h ha hb hc hd
        (At-zero (marker_text id a b c d) rest) (subst (λ p. 27 < p.1 + length rest) size.0 long)
        (omega arith))
