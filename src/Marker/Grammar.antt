-- ===== src/Marker/Grammar.antt =====
-- What the loops of `markerParseFields` accept: digits, separators and fields.
use tox_defragmenter.Prelude.{
  ℕ, zero, suc, ◌+◌, ◌≤◌, ◌<◌, [], ◌∷◌, ◌≡◌, refl, sym, ◌∙◌, ap, subst, arith, Bytes, All, true,
  length, List, some, none, Option,
}
use mathlib.Core.Option
use tox_defragmenter.Marker.Fields.{is_marker_char-At}
use tox_defragmenter.Decimal.{IsDigit}
use tox_defragmenter.Marker.{
  byte, field_size, all_digits, separator, is_marker_char, fields_loop, marker_char,
}
use tox_defragmenter.Marker.Layout.{At, EndsAt, field_size-At}

-- The bytes from `i` on, so many as the first argument says.
abbrev pub bytes_at : ℕ → Bytes → ℕ → Bytes
bytes_at zero m i = []
bytes_at (suc n) m i = byte m i ∷ bytes_at n m (i + 1)

pub bytes_at-At : (n : ℕ) (m : Bytes) (i : ℕ) → At m i (bytes_at n m i)
bytes_at-At zero m i = tt
bytes_at-At (suc n) m i = (refl, bytes_at-At n m (i + 1))

field_size_sound :
    (m : Bytes) (len k i : ℕ)
    → (field_size m len k i ≤ k)
      × (i ≤ len → i + field_size m len k i ≤ len)
      × All IsDigit (bytes_at (field_size m len k i) m i)
unfolding field_size
field_size_sound m len zero i = (omega arith, λ h. omega arith, tt)
field_size_sound m len (suc k) i = ground (arith, field_size_sound m len k (i + 1))

pub all_digits_sound :
    (m : Bytes) (k i : ℕ) → all_digits m k i ≡ true → All IsDigit (bytes_at k m i)
unfolding all_digits
all_digits_sound m zero i h = tt
all_digits_sound m (suc k) i h = ground (arith, all_digits_sound m k (i + 1))

-- What stands behind a field: a bar, or the marker character behind the last one.
abbrev pub IsSeparator : Bytes → ℕ → ℕ → Type 0
IsSeparator m zero p = At m p marker_char
IsSeparator m (suc left) p = byte m p ≡ b'|'

-- Fields one behind the other from `p` on, so many as the number says: 1 to 10 digits each, with a
-- separator behind them that begins two bytes before the length at the latest.
abbrev pub Fields : Bytes → ℕ → ℕ → ℕ → List (ℕ × ℕ) → Type 0
Fields m len zero p fs = fs ≡ []
Fields m len (suc left) p [] = ⊥
Fields m len (suc left) p ((q, n) ∷ fs) =
    (q ≡ p)
    × (1 ≤ n)
    × (n ≤ 10)
    × (p + n + 1 < len)
    × All IsDigit (bytes_at n m p)
    × IsSeparator m left (p + n)
    × Fields m len left (p + n + 1) fs

pub is_marker_char_sound : (m : Bytes) (p : ℕ) → is_marker_char m p ≡ true → At m p marker_char
unfolding is_marker_char
is_marker_char_sound m p h =
    let third : byte m (p + 2) ≡ 0x8b = ground arith in
    (ground arith, (ground arith, (subst (λ q. byte m q ≡ 0x8b) (omega arith) third, tt)))

separator_sound : (m : Bytes) (left p : ℕ) → separator m left p ≡ true → IsSeparator m left p
unfolding separator
separator_sound m zero p h = is_marker_char_sound m p h
separator_sound m (suc left) p h = ground arith

map-eq-some :
    (q n : ℕ) (o : Option (List (ℕ × ℕ))) (fs : List (ℕ × ℕ))
    → Option.map (λ gs. (q, n) ∷ gs) o ≡ some fs
    → (gs : List (ℕ × ℕ)) × (o ≡ some gs) × (fs ≡ (q, n) ∷ gs)
map-eq-some q n none fs h = cc
map-eq-some q n (some gs) fs h = (gs, refl, ground arith)

fields_loop-tests :
    (m : Bytes) (len left p : ℕ) (fs : List (ℕ × ℕ))
    → fields_loop m len (suc left) p ≡ some fs
    → let n = field_size m len 10 p in
      (1 ≤ n)
      × (p + n + 1 < len)
      × (separator m left (p + n) ≡ true)
      × (Option.map (λ gs. (p, n) ∷ gs) (fields_loop m len left (p + n + 1)) ≡ some fs)
unfolding fields_loop
fields_loop-tests m len left p fs h = ground arith

pub fields_loop_sound :
    (m : Bytes) (len left p : ℕ) (fs : List (ℕ × ℕ))
    → fields_loop m len left p ≡ some fs
    → Fields m len left p fs
unfolding fields_loop
fields_loop_sound m len zero p fs h = ground arith
fields_loop_sound m len (suc left) p fs h =
    let n = field_size m len 10 p in
    let tests = fields_loop-tests m len left p fs h in
    let rest = map-eq-some p n (fields_loop m len left (p + n + 1)) fs tests.3 in
    let read = field_size_sound m len 10 p in
    subst (Fields m len (suc left) p) (sym rest.2) (
      refl,
      tests.0,
      read.0,
      tests.1,
      read.2,
      separator_sound m left (p + n) tests.2,
      fields_loop_sound m len left (p + n + 1) rest.0 rest.1,
    )

is_marker_char_complete : (m : Bytes) (p : ℕ) → At m p marker_char → is_marker_char m p ≡ true
is_marker_char_complete m p a = is_marker_char-At m p [] a

separator_complete :
    (m : Bytes) (left p : ℕ) → IsSeparator m left p → (separator m left p ≡ true) × EndsAt m p
unfolding separator
separator_complete m zero p h = (is_marker_char-At m p [] h, ground arith)
separator_complete m (suc left) p h = ground arith

length-bytes_at : (n : ℕ) (m : Bytes) (i : ℕ) → length (bytes_at n m i) ≡ n
length-bytes_at zero m i = refl
length-bytes_at (suc n) m i = ap suc (length-bytes_at n m (i + 1))

-- A run of digits that a separator ends is counted whole.
field_size_complete :
    (m : Bytes) (len p n : ℕ)
    → n ≤ 10
    → p + n ≤ len
    → All IsDigit (bytes_at n m p)
    → EndsAt m (p + n)
    → field_size m len 10 p ≡ n
field_size_complete m len p n small fits d e =
    let same = length-bytes_at n m p in
    field_size-At m len 10 p (bytes_at n m p) (bytes_at-At n m p) d (omega arith) (omega arith)
      (subst (λ k. EndsAt m (p + k)) (sym same) e)
    ∙ same

fields_loop-step :
    (m : Bytes) (len left p n : ℕ)
    → 1 ≤ n
    → p + n + 1 < len
    → field_size m len 10 p ≡ n
    → separator m left (p + n) ≡ true
    → fields_loop m len (suc left) p
      ≡ Option.map (λ gs. (p, n) ∷ gs) (fields_loop m len left (p + n + 1))
unfolding fields_loop
fields_loop-step m len left p n pos fits e s = rw e (ground arith)

pub fields_loop_complete :
    (m : Bytes) (len left p : ℕ) (fs : List (ℕ × ℕ))
    → Fields m len left p fs
    → fields_loop m len left p ≡ some fs
unfolding fields_loop
fields_loop_complete m len zero p fs h = ap some (sym h)
fields_loop_complete m len (suc left) p [] h = absurd h
fields_loop_complete m len (suc left) p ((q, n) ∷ fs) (e, pos, small, fits, d, s, rest) =
    let ends = separator_complete m left (p + n) s in
    fields_loop-step m len left p n pos fits
      (field_size_complete m len p n small (omega arith) d ends.1) ends.0
    ∙ rw (fields_loop_complete m len left (p + n + 1) fs rest, e)
