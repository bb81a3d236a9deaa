-- ===== src/Marker/Fields.antt =====
-- The fields of a marker that stands in a message, read one by one.
use mathlib.Core.Option
use tox_defragmenter.Prelude.{
  ℕ, suc, ◌+◌, ◌^◌, ◌≤◌, ◌<◌, [], ◌∷◌, ◌++◌, ◌≡◌, refl, subst, arith, Bytes, true, length, some,
}
use tox_defragmenter.Decimal.{decimal}
use tox_defragmenter.Decimal.Print.{decimal-IsDigit, length-decimal_le, length-decimal_pos}
use tox_defragmenter.Marker.{
  byte, field_size, all_digits, separator, is_marker_char, fields_loop, marker_parse_fields,
  marker_char, parse_uint32,
}
use tox_defragmenter.Marker.Layout.{
  At, At-append_left, At-append_right, EndsAt, field_size-At, strtoul-At,
}

-- A printed number with what ends it, at a position of the message.
record Field (m : Bytes) (p n : ℕ) : Type 0 where
  text : At m p (decimal n)
  ends : EndsAt m (p + length (decimal n))
  small : n < 2 ^ 32

module _ (m : Bytes) (len : ℕ) where
  field_size-Field :
      (p n : ℕ)
      → Field m p n
      → p + length (decimal n) ≤ len
      → field_size m len 10 p ≡ length (decimal n)
  field_size-Field p n f h =
      field_size-At m len 10 p (decimal n) f.text (decimal-IsDigit n)
        (length-decimal_le 9 n (omega (arith, f.small))) h f.ends

  fields_loop-Field :
      (left p n : ℕ)
      → Field m p n
      → p + length (decimal n) + 1 < len
      → separator m left (p + length (decimal n)) ≡ true
      → fields_loop m len (suc left) p
        ≡ Option.map
            (λ fs. (p, length (decimal n)) ∷ fs)
            (fields_loop m len left (p + length (decimal n) + 1))
  unfolding fields_loop
  fields_loop-Field left p n f h s =
      rw (field_size-Field p n f (omega arith)) (ground (arith, length-decimal_pos n))

  parse_uint32-Field : (p n : ℕ) → Field m p n → parse_uint32 m p ≡ n
  unfolding parse_uint32
  parse_uint32-Field p n f =
      rw (strtoul-At m p n f.text (omega (arith, f.small)) f.ends) (omega (arith, f.small))

-- A field that stands in the message is read, with the bar or the marker character behind it.
record Bar (m : Bytes) (p n : ℕ) (t : Bytes) : Type 0 where
  field : Field m p n
  bar : (left : ℕ) → separator m (suc left) (p + length (decimal n)) ≡ true
  rest : At m (p + length (decimal n) + 1) t

separator_bar : (m : Bytes) (left p : ℕ) → byte m p ≡ b'|' → separator m (suc left) p ≡ true
unfolding separator
separator_bar m left p h = ground arith

At-Bar :
    (m : Bytes) (p n : ℕ) (t : Bytes) → n < 2 ^ 32 → At m p (decimal n ++ b'|' ∷ t) → Bar m p n t
At-Bar m p n t small a = record {
  field = record {
    text = At-append_left m (decimal n) (b'|' ∷ t) p a;
    ends = ground (arith, behind.0);
    small = small;
  };
  bar = λ left. separator_bar m left (p + length (decimal n)) behind.0;
  rest = behind.1;
}
  where
    behind : At m (p + length (decimal n)) (b'|' ∷ t)
    behind = At-append_right m (decimal n) (b'|' ∷ t) p a

pub is_marker_char-At :
    (m : Bytes) (p : ℕ) (t : Bytes) → At m p (marker_char ++ t) → is_marker_char m p ≡ true
unfolding is_marker_char
is_marker_char-At m p t (h, (h', (h'', a))) =
    let e : byte m (p + 2) ≡ 0x8b = subst (λ q. byte m q ≡ 0x8b) (omega arith) h'' in ground arith

separator_end : (m : Bytes) (p : ℕ) → At m p marker_char → separator m 0 p ≡ true
unfolding separator
separator_end m p a = is_marker_char-At m p [] a

At-last : (m : Bytes) (p n : ℕ) → n < 2 ^ 32 → At m p (decimal n ++ marker_char) → Field m p n
At-last m p n small a = record {
  text = At-append_left m (decimal n) marker_char p a;
  ends = ground (arith, (At-append_right m (decimal n) marker_char p a).0);
  small = small;
}

fields_loop_done : (m : Bytes) (len p : ℕ) → fields_loop m len 0 p ≡ some []
unfolding fields_loop
fields_loop_done m len p = refl

-- The four fields, as the message holds them.
pub fields_loop-At :
    (m : Bytes) (len p a b c d : ℕ)
    → a < 2 ^ 32
    → b < 2 ^ 32
    → c < 2 ^ 32
    → d < 2 ^ 32
    → At m p
        (decimal a ++ b'|' ∷ (decimal b ++ b'|' ∷ (decimal c ++ b'|' ∷ (decimal d ++ marker_char))))
    → p + length (decimal a) + length (decimal b) + length (decimal c) + length (decimal d) + 4
      < len
    → let q = p + length (decimal a) + 1 in
      let r = q + length (decimal b) + 1 in
      let s = r + length (decimal c) + 1 in
      (fields_loop m len 4 p
        ≡ some (
            (p, length (decimal a))
            ∷ (q, length (decimal b))
            ∷ (r, length (decimal c))
            ∷ (s, length (decimal d))
            ∷ []))
      × (parse_uint32 m p ≡ a)
      × (parse_uint32 m q ≡ b)
      × (parse_uint32 m r ≡ c)
      × (parse_uint32 m s ≡ d)
fields_loop-At m len p a b c d ha hb hc hd text fits =
    let fa = At-Bar m p a _ ha text in
    let fb = At-Bar m _ b _ hb fa.rest in
    let fc = At-Bar m _ c _ hc fb.rest in
    let fd = At-last m _ d hd fc.rest in
    (
      rw (
        fields_loop-Field m len 3 p a fa.field (omega arith) (fa.bar 2),
        fields_loop-Field m len 2 _ b fb.field (omega arith) (fb.bar 1),
        fields_loop-Field m len 1 _ c fc.field (omega arith) (fc.bar 0),
        fields_loop-Field m len 0 _ d fd (omega arith)
            (separator_end m _ (At-append_right m (decimal d) marker_char _ fc.rest)),
        fields_loop_done,
      ),
      parse_uint32-Field m len p a fa.field,
      parse_uint32-Field m len _ b fb.field,
      parse_uint32-Field m len _ c fc.field,
      parse_uint32-Field m len _ d fd,
    )

-- The guards before the fields pass.
pub marker_parse_fields-guards :
    (m : Bytes) (len : ℕ)
    → is_marker_char m 0 ≡ true
    → all_digits m 13 3 ≡ true
    → byte m 16 ≡ b'|'
    → 27 < len
    → marker_parse_fields m len ≡ fields_loop m len 4 17
unfolding marker_parse_fields
marker_parse_fields-guards m len c d b long = ground arith
