-- ===== src/Sender/Split/Pieces.antt =====
-- What the fragments of a message are: markers with consecutive pieces of the message.
use tox_defragmenter.Prelude.{
  ℕ, zero, suc, ◌+◌, ◌-◌, ◌^◌, ◌≤◌, ◌<◌, [], ◌∷◌, ◌++◌, Bytes, leb, ◌≡◌, refl, if◌then◌else◌, u32,
  length, take, drop, List, some, All, arith, lt_or_le, inl, inr, take-append-drop, length-take,
  length-drop, take_all, drop_all, length-append,
}
use mathlib.Core.List.{flatten}
use tox_defragmenter.Marker.{marker_print, marker_text}
use tox_defragmenter.Marker.RoundTrip.{IsMarkerId, marker_print-size}
use tox_defragmenter.Sender.Types.{Fragment}
use tox_defragmenter.Sender.Split.{split_loop, fresh_fragment}

-- A fragment that has not been sent.
abbrev pub fragment : Bytes → Fragment
fragment text = record {
  size = length text;
  bytes = some text;
  receipt = 0;
  times_sent = 0;
  confirmed = 0;
}

module _ (id num_parts total : ℕ) where
  -- The fragments with these pieces, from a part number and an offset on.
  abbrev pub fragments_of : ℕ → ℕ → List Bytes → List Fragment
  fragments_of part_no off [] = []
  fragments_of part_no off (p ∷ ps) =
      fragment (marker_text id part_no num_parts off total ++ p)
      ∷ fragments_of (part_no + 1) (off + length p) ps

-- The pieces of `step` bytes that a message is cut into.
unfoldable pub pieces : ℕ → ℕ → Bytes → List Bytes
pieces zero step m = []
pieces (suc f) step [] = []
pieces (suc f) step (c ∷ m) = take step (c ∷ m) ∷ pieces f step (drop step (c ∷ m))

pub flatten-pieces :
    (f step : ℕ) (m : Bytes) → 1 ≤ step → length m < f → flatten (pieces f step m) ≡ m
unfolding pieces flatten
flatten-pieces zero step m s h = elim h [ ]
flatten-pieces (suc f) step [] s h = refl
flatten-pieces (suc f) step (c ∷ m) s h =
    rw (flatten-pieces f step (drop step (c ∷ m)) s (omega (arith, length-drop step (c ∷ m))))
      (take-append-drop step (c ∷ m))

-- No piece is empty, and none exceeds the step.
abbrev pub Fits : ℕ → Bytes → Type 0
Fits step p = (1 ≤ length p) × (length p ≤ step)

pub pieces-Fits : (f step : ℕ) (m : Bytes) → 1 ≤ step → All (Fits step) (pieces f step m)
unfolding pieces
pieces-Fits zero step m s = tt
pieces-Fits (suc f) step [] s = tt
pieces-Fits (suc f) step (c ∷ m) s =
    (omega (arith, length-take step (c ∷ m)), pieces-Fits f step (drop step (c ∷ m)) s)

take_step :
    (step n : ℕ) (m : Bytes) → length m ≡ n → take (if leb step n then step else n) m ≡ take step m
take_step step n m e = elim (lt_or_le n step) [
  | inl short ↦ ground (arith, take_all n m (omega arith), take_all step m (omega arith))
  | inr long ↦ ground arith
]

drop_step :
    (step n : ℕ) (m : Bytes) → length m ≡ n → drop (if leb step n then step else n) m ≡ drop step m
drop_step step n m e = elim (lt_or_le n step) [
  | inl short ↦ ground (arith, drop_all n m (omega arith), drop_all step m (omega arith))
  | inr long ↦ ground arith
]

module _ (id num_parts total step : ℕ) (h : IsMarkerId id) (hn : num_parts < 2 ^ 32)
    (ht : total < 2 ^ 31) (hs : 1 ≤ step) where
  fresh_fragment-fragment :
      (part_no off : ℕ) (p : Bytes)
      → part_no < 2 ^ 32
      → off < 2 ^ 32
      → fresh_fragment (marker_print id part_no num_parts off (u32 total)) p
        ≡ fragment (marker_text id part_no num_parts off total ++ p)
  fresh_fragment-fragment part_no off p hp ho =
      let e : u32 total ≡ total = omega arith in
      let text = marker_text id part_no num_parts off total in
      let printed = marker_print-size id part_no num_parts off total h hp hn ho (omega arith) in
      rw (e, printed.0)
        (ground (arith, length-append text p, take_all (length text) text (omega arith)))

  pub split_loop-pieces :
      (f part_no off : ℕ) (m : Bytes)
      → length m < f
      → off + length m ≤ total
      → part_no + length m < 2 ^ 32
      → split_loop id num_parts total step f part_no off (length m) m
        ≡ fragments_of id num_parts total part_no off (pieces f step m)
  unfolding split_loop pieces
  split_loop-pieces zero part_no off m b fits few = elim b [ ]
  split_loop-pieces (suc f) part_no off [] b fits few = refl
  split_loop-pieces (suc f) part_no off (c ∷ m) b fits few =
      let p = take step (c ∷ m) in
      let rest = drop step (c ∷ m) in
      let n = suc (length m) in
      let size : length p ≡ (if leb step n then step else n) =
        ground (arith, length-take step (c ∷ m)) in
      let left : n - length p ≡ length rest =
        omega (arith, length-take step (c ∷ m), length-drop step (c ∷ m)) in
      let next : u32 (part_no + 1) ≡ part_no + 1 = omega arith in
      let moved : u32 (off + length p) ≡ off + length p = omega (arith, length-take step (c ∷ m)) in
      rw
        (
          take_step step n (c ∷ m) refl,
          drop_step step n (c ∷ m) refl,
          ← size,
          left,
          next,
          moved,
          fresh_fragment-fragment part_no off p (omega arith) (omega arith),
          split_loop-pieces f (part_no + 1) (off + length p) rest
              (omega (arith, length-drop step (c ∷ m)))
              (omega (arith, length-take step (c ∷ m), length-drop step (c ∷ m)))
              (omega (arith, length-drop step (c ∷ m))),
        )
        (ground arith)
