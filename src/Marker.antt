-- ===== src/Marker.antt =====
-- marker.c: the marker that stands before the data of each fragment.
-- A message is the memory that its pointer gives access to, with the length that the caller passes:
-- nothing but the guards of the code keeps a read below the length. A read behind the memory that
-- is modelled gives 0.
pub mod Size
pub mod Layout
pub mod Fields
pub mod Grammar
pub mod Accept
pub mod RoundTrip
pub mod Overread
use tox_defragmenter.Prelude.{
  ℕ, zero, suc, ◌+◌, ◌-◌, ◌*◌, ◌/◌, ◌%◌, ◌^◌, ◌≤◌, ◌<◌, [], ◌∷◌, ◌++◌, Bool, true, false, not, ◌&&◌,
  ◌||◌, Bytes, ltb, leb, if◌then◌else◌, ◌==◌, u8, u32, length, get_or, drop, List, Option, none,
  some,
}
use mathlib.Core.Option
use tox_defragmenter.Decimal.{decimal, is_digit, strtoul}

-- ZERO WIDTH SPACE (U+200B) in UTF-8.
abbrev pub marker_char : Bytes
marker_char = 0xe2 ∷ 0x80 ∷ 0x8b ∷ []

abbrev sz_marker_char : ℕ
sz_marker_char = 3

abbrev sz_tm : ℕ
sz_tm = 13

abbrev sz_int_min : ℕ
sz_int_min = 1

abbrev sz_int_max : ℕ
sz_int_max = 10

abbrev n_ints : ℕ
n_ints = 4

abbrev pub int_max : ℕ
int_max = 2 ^ 31 - 1

-- `message[i]`
abbrev pub byte : Bytes → ℕ → ℕ
byte m i = get_or m i 0

-- `while (i /= 10) ndigits++;`: the first argument bounds the rounds.
unfoldable pub num_digits_loop : ℕ → ℕ → ℕ → ℕ
num_digits_loop zero i n = n
num_digits_loop (suc f) i n =
    let more = num_digits_loop f (i / 10) (n + 1) in if i / 10 == 0 then n else more

unfoldable pub num_digits : ℕ → ℕ
num_digits i = num_digits_loop (suc i) i 1

unfoldable pub marker_max_size_bytes : ℕ → ℕ → ℕ
marker_max_size_bytes num_parts msg_size =
    let num_parts_digits = num_digits num_parts in
    let msg_size_digits = num_digits msg_size in
    u8 (
      sz_marker_char + sz_tm + 1 + num_parts_digits + 1 + num_parts_digits + 1 + msg_size_digits + 1
      + msg_size_digits + sz_marker_char)

-- The text that `sprintf` writes.
unfoldable pub marker_text : ℕ → ℕ → ℕ → ℕ → ℕ → Bytes
marker_text id part_no num_parts off sz =
    marker_char
    ++ (decimal id
        ++ b'|'
          ∷ (decimal part_no
              ++ b'|'
                ∷ (decimal num_parts
                    ++ b'|' ∷ (decimal off ++ b'|' ∷ (decimal sz ++ marker_char)))))

-- `markerPrint`: what it leaves in the buffer, and the size that it returns.
unfoldable pub marker_print : ℕ → ℕ → ℕ → ℕ → ℕ → Bytes × ℕ
marker_print id part_no num_parts off sz =
    let text = marker_text id part_no num_parts off sz in (text, u8 (length text))

unfoldable pub is_marker_char : Bytes → ℕ → Bool
is_marker_char m p = byte m p == 0xe2 && (byte m (p + 1) == 0x80 && byte m (p + 2) == 0x8b)

-- `parseUInt32` and `parseUInt64`: unsigned long has 64 bits.
unfoldable pub parse_uint32 : Bytes → ℕ → ℕ
parse_uint32 m off = u32 (strtoul (drop off m))

unfoldable pub parse_uint64 : Bytes → ℕ → ℕ
parse_uint64 m off = strtoul (drop off m)

-- The loop over the timestamp: are the next digits, as many as the rounds, all digits?
unfoldable pub all_digits : Bytes → ℕ → ℕ → Bool
all_digits m zero i = true
all_digits m (suc k) i = is_digit (byte m i) && all_digits m k (i + 1)

-- The inner loop of `markerParseFields`: how many digits stand at `i`, in so many rounds at most and
-- below the length.
unfoldable pub field_size : Bytes → ℕ → ℕ → ℕ → ℕ
field_size m len zero i = 0
field_size m len (suc k) i =
    let more = suc (field_size m len k (i + 1)) in
    if ltb i len then (if is_digit (byte m i) then more else 0) else 0

-- What must stand behind a field, when so many fields are still to come.
unfoldable pub separator : Bytes → ℕ → ℕ → Bool
separator m zero p = is_marker_char m p
separator m (suc left) p = byte m p == b'|'

-- The outer loop: offset and size of each field; the counter says how many fields are left.
unfoldable pub fields_loop : Bytes → ℕ → ℕ → ℕ → Option (List (ℕ × ℕ))
fields_loop m len zero p = some []
fields_loop m len (suc left) p =
    let n = field_size m len sz_int_max p in
    let rest = fields_loop m len left (p + n + 1) in
    if n == 0 || (leb len (p + n + 1) || not (separator m left (p + n)))
    then none
    else Option.map (λ fs. (p, n) ∷ fs) rest

unfoldable pub marker_parse_fields : Bytes → ℕ → Option (List (ℕ × ℕ))
marker_parse_fields m len =
    if leb len (sz_marker_char + sz_tm + n_ints * (1 + sz_int_min) + sz_marker_char)
    then none
    else if not (is_marker_char m 0) || not (byte m (sz_marker_char + sz_tm) == b'|')
    then none
    else if not (all_digits m sz_tm sz_marker_char)
    then none
    else fields_loop m len n_ints (sz_marker_char + sz_tm + 1)

unfoldable pub marker_exists : Bytes → ℕ → Bool
marker_exists m len = elim (marker_parse_fields m len) [ none ↦ false | some fs ↦ true ]

-- What `markerParse` reads, and the size of the marker, which it returns.
pub record MarkerInfo : Type 0 where
  pub id : ℕ
  pub part_no : ℕ
  pub num_parts : ℕ
  pub off : ℕ
  pub sz : ℕ
  pub size : ℕ

abbrev field_at : List (ℕ × ℕ) → ℕ → ℕ × ℕ
field_at fs f = get_or fs f (0, 0)

unfoldable pub marker_parse : Bytes → ℕ → Option MarkerInfo
marker_parse m len = elim (marker_parse_fields m len) [
  | none ↦ none
  | some fs ↦ some (record {
    id = parse_uint64 m sz_marker_char;
    part_no = parse_uint32 m (field_at fs 0).0;
    num_parts = parse_uint32 m (field_at fs 1).0;
    off = parse_uint32 m (field_at fs 2).0;
    sz = parse_uint32 m (field_at fs 3).0;
    size = u8 ((field_at fs 3).0 + (field_at fs 3).1 + sz_marker_char);
  })
]
