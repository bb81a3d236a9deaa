-- ===== src/Marker/Accept.antt =====
-- What `markerParseFields` accepts, for any message.
use tox_defragmenter.Prelude.{
  ℕ, zero, suc, refl, ◌+◌, ◌≤◌, ◌<◌, [], ◌∷◌, ◌≡◌, inl, inr, ◌∙◌, arith, Bytes, All, true, u8,
  get_or, List, some, Option-cases, ◌↔◌,
}
use tox_defragmenter.Marker.Fields.{is_marker_char-At, marker_parse_fields-guards}
use tox_defragmenter.Decimal.{IsDigit}
use tox_defragmenter.Marker.{
  byte, all_digits, is_marker_char, fields_loop, marker_parse_fields, marker_parse, marker_exists,
  marker_char, MarkerInfo,
}
use tox_defragmenter.Marker.Layout.{At, all_digits-At}
use tox_defragmenter.Marker.Grammar.{
  Fields, IsSeparator, bytes_at, bytes_at-At, all_digits_sound, is_marker_char_sound,
  fields_loop_sound, fields_loop_complete,
}

-- What the tests of `markerParseFields` ask for, with its guards on the length.
record Passes (m : Bytes) (len : ℕ) (fs : List (ℕ × ℕ)) : Type 0 where
  pub long : 27 < len
  pub opens : At m 0 marker_char
  pub stamp : All IsDigit (bytes_at 13 m 3)
  pub bar : byte m 16 ≡ b'|'
  pub fields : Fields m len 4 17 fs

marker_parse_fields-tests :
    (m : Bytes) (len : ℕ) (fs : List (ℕ × ℕ))
    → marker_parse_fields m len ≡ some fs
    → (27 < len)
      × (is_marker_char m 0 ≡ true)
      × (all_digits m 13 3 ≡ true)
      × (byte m 16 ≡ b'|')
      × (fields_loop m len 4 17 ≡ some fs)
unfolding marker_parse_fields
marker_parse_fields-tests m len fs h = ground arith

marker_parse_fields-Passes :
    (m : Bytes) (len : ℕ) (fs : List (ℕ × ℕ))
    → (marker_parse_fields m len ≡ some fs) ↔ Passes m len fs
marker_parse_fields-Passes m len fs = (
  (λ h.
      let tests = marker_parse_fields-tests m len fs h in
      record {
        long = tests.0;
        opens = is_marker_char_sound m 0 tests.1;
        stamp = all_digits_sound m 13 3 tests.2;
        bar = tests.3;
        fields = fields_loop_sound m len 4 17 fs tests.4;
      }),
  (λ k.
      marker_parse_fields-guards m len (is_marker_char-At m 0 [] k.opens)
        (all_digits-At m 3 (bytes_at 13 m 3) (bytes_at-At 13 m 3) k.stamp) k.bar k.long
      ∙ fields_loop_complete m len 4 17 fs k.fields),
)

-- The fields of a marker, from `p` on: 1 to 10 digits each, a bar behind each but the last, and the
-- marker character behind the last. The marker ends before `stop`.
abbrev Form : Bytes → ℕ → ℕ → List (ℕ × ℕ) → ℕ → Type 0
Form m zero p fs stop = (fs ≡ []) × (stop ≡ p + 2)
Form m (suc left) p [] stop = ⊥
Form m (suc left) p ((q, n) ∷ fs) stop =
    (q ≡ p)
    × (1 ≤ n)
    × (n ≤ 10)
    × All IsDigit (bytes_at n m p)
    × IsSeparator m left (p + n)
    × Form m left (p + n + 1) fs stop

-- A marker stands at the beginning of the memory: the marker character, a timestamp of 13 digits, a
-- bar, and four fields at these places with these sizes. The length of the message plays no part.
pub record IsMarked (m : Bytes) (fs : List (ℕ × ℕ)) (stop : ℕ) : Type 0 where
  pub opens : At m 0 marker_char
  pub stamp : All IsDigit (bytes_at 13 m 3)
  pub bar : byte m 16 ≡ b'|'
  pub fields : Form m 4 17 fs stop

Fields-Form :
    (m : Bytes) (len left p : ℕ) (fs : List (ℕ × ℕ))
    → Fields m len left p fs
    → p + 1 ≤ len
    → (stop : ℕ) × Form m left p fs stop × (stop ≤ len + 1)
Fields-Form m len zero p fs f h = (p + 2, (f, refl), omega arith)
Fields-Form m len (suc left) p [] f h = absurd f
Fields-Form m len (suc left) p ((q, n) ∷ fs) (e, pos, small, fits, d, s, rest) h =
    let (stop, form, le) = Fields-Form m len left (p + n + 1) fs rest (omega arith) in
    (stop, (e, pos, small, d, s, form), le)

Form-le :
    (m : Bytes) (left p : ℕ) (fs : List (ℕ × ℕ)) (stop : ℕ) → Form m left p fs stop → p + 2 ≤ stop
Form-le m zero p fs stop (_, e) = omega (arith, e)
Form-le m (suc left) p [] stop f = absurd f
Form-le m (suc left) p ((q, n) ∷ fs) stop (e, pos, small, d, s, rest) =
    omega (arith, Form-le m left (p + n + 1) fs stop rest)

Form-Fields :
    (m : Bytes) (len left p : ℕ) (fs : List (ℕ × ℕ)) (stop : ℕ)
    → Form m left p fs stop
    → stop ≤ len + 1
    → Fields m len left p fs
Form-Fields m len zero p fs stop (f, _) le = f
Form-Fields m len (suc left) p [] stop f le = absurd f
Form-Fields m len (suc left) p ((q, n) ∷ fs) stop (e, pos, small, d, s, rest) le = (
  e,
  pos,
  small,
  omega (arith, Form-le m left (p + n + 1) fs stop rest, le),
  d,
  s,
  Form-Fields m len left (p + n + 1) fs stop rest le,
)

-- For any memory and length, `markerParseFields` finds fields at these places with these sizes exactly
-- when the message is longer than 27 bytes and a marker with these fields stands at its beginning, the
-- last byte of which is in the message or the first one behind it: a marker that lacks its last byte is
-- taken too if that byte follows in memory.
pub marker_parse_fields_iff :
    (m : Bytes) (len : ℕ) (fs : List (ℕ × ℕ))
    → (marker_parse_fields m len ≡ some fs)
      ↔ ((27 < len) × ((stop : ℕ) × IsMarked m fs stop × (stop ≤ len + 1)))
marker_parse_fields_iff m len fs = (
  (λ h.
      let k = (marker_parse_fields-Passes m len fs).0 h in
      let (stop, form, le) = Fields-Form m len 4 17 fs k.fields (omega (arith, k.long)) in
      (
        k.long,
        (stop, record { opens = k.opens; stamp = k.stamp; bar = k.bar; fields = form }, le),
      )),
  (λ (long, (stop, k, le)). (marker_parse_fields-Passes m len fs).1 (record {
    long = long;
    opens = k.opens;
    stamp = k.stamp;
    bar = k.bar;
    fields = Form-Fields m len 4 17 fs stop k.fields le;
  })),
)

marker_parse-some :
    (m : Bytes) (len : ℕ) (i : MarkerInfo)
    → marker_parse m len ≡ some i
    → (fs : List (ℕ × ℕ)) × (marker_parse_fields m len ≡ some fs)
      × (i.size ≡ u8 ((get_or fs 3 (0, 0)).0 + (get_or fs 3 (0, 0)).1 + 3))
unfolding marker_parse
marker_parse-some m len i h = ground arith

Fields-end :
    (m : Bytes) (len : ℕ) (fs : List (ℕ × ℕ))
    → Fields m len 4 17 fs
    → let e = (get_or fs 3 (0, 0)).0 + (get_or fs 3 (0, 0)).1 + 3 in
      (27 ≤ e) × (e ≤ 63) × (e ≤ len + 1)
Fields-end m len [] f = absurd f
Fields-end m len (_ ∷ []) f = absurd f.6
Fields-end m len (_ ∷ _ ∷ []) f = absurd f.6.6
Fields-end m len (_ ∷ _ ∷ _ ∷ []) f = absurd f.6.6.6
Fields-end m len ((p, a) ∷ (q, b) ∷ (r, c) ∷ (s, d) ∷ fs) f = omega arith

-- When `markerParse` reads a marker, the size that it returns lies between 27 and 63, so that its
-- type uint8_t cuts nothing off, and is at most one more than the length of the message.
pub marker_parse_size :
    (m : Bytes) (len : ℕ) (i : MarkerInfo)
    → marker_parse m len ≡ some i
    → (27 ≤ i.size) × (i.size ≤ 63) × (i.size ≤ len + 1)
marker_parse_size m len i h =
    let (fs, parsed, size) = marker_parse-some m len i h in
    let ends = Fields-end m len fs ((marker_parse_fields-Passes m len fs).0 parsed).fields in
    omega arith

-- `markerExists` holds of a message exactly when `markerParse` reads a marker from it.
pub marker_exists_iff :
    (m : Bytes) (len : ℕ)
    → (marker_exists m len ≡ true) ↔ ((i : MarkerInfo) × (marker_parse m len ≡ some i))
unfolding marker_exists marker_parse
marker_exists_iff m len = (
  λ h. elim (Option-cases (marker_parse m len)) [ inl e ↦ absurd (ground arith) | inr r ↦ r ],
  λ (i, h). ground arith,
)
