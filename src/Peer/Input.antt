-- ===== src/Peer/Input.antt =====
-- Reading from a stream: `readChar`, `skipChar`, `readUInt`, `readString`. A stream is the list of the
-- bytes that are still to come, and one call of `read` gives as many as it asks for if they are to come.
pub mod Numbers
use tox_defragmenter.Prelude.{
  ℕ, ◌+◌, ◌-◌, ◌*◌, ◌^◌, [], ◌∷◌, Bytes, ◌==◌, leb, not, if◌then◌else◌, u32, length, take, drop,
}
use tox_defragmenter.Decimal.{is_digit}
use tox_defragmenter.Peer.Outcome.{Outcome, done, abort, bad_access, ◌>>=◌}

-- The end of the stream reads as 0.
abbrev pub read_char : Bytes → ℕ × Bytes
read_char [] = (0, [])
read_char (c ∷ s) = (c, s)

abbrev pub skip_char : ℕ → Bytes → Outcome Bytes
skip_char skip s = if (read_char s).0 == skip then done (read_char s).1 else abort

-- `u *= 10; u += ch - '0'` on an unsigned.
abbrev pub shift_in : ℕ → ℕ → ℕ
shift_in u c = u32 (u32 (u * 10) + (c - b'0'))

-- The loop of `readUInt`, with the number read so far. At the end of the stream the 0 is no digit.
unfoldable pub read_uint_from : ℕ → Bytes → ℕ → Outcome (ℕ × Bytes)
read_uint_from skip [] u = if skip == 0 then done (u, []) else abort
read_uint_from skip (c ∷ s) u =
    let more = read_uint_from skip s (shift_in u c) in
    if c == skip then done (u, s) else if is_digit c then more else abort

abbrev pub read_uint : ℕ → Bytes → Outcome (ℕ × Bytes)
read_uint skip s = read_uint_from skip s 0

-- For the greatest size `sz+1` is 0, and the buffer is too small.
unfoldable pub read_string : ℕ → Bytes → Outcome (Bytes × Bytes)
read_string skip s = do
  size ← read_uint b' ' s
  if u32 (size.0 + 1) == 0
      then bad_access
      else if not (leb size.0 (length size.1))
      then abort
      else do rest ← skip_char skip (drop size.0 size.1); done (take size.0 size.1, rest)

-- A string in C ends at its first byte 0; `strlen` counts the bytes before it.
unfoldable pub c_string : Bytes → Bytes
c_string [] = []
c_string (c ∷ s) = let rest = c_string s in if c == 0 then [] else c ∷ rest
