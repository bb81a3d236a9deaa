-- ===== src/Peer/Fragments/Message.antt =====
-- The fragments that `splitMessage` makes of a message without a byte 0 can be told from their texts.
use tox_defragmenter.Prelude.{
  ℕ, zero, suc, ◌+◌, ◌-◌, ◌^◌, ◌<◌, [], ◌∷◌, ◌++◌, Bytes, true, ◌≡◌, ◌≢◌, ◌∙◌, refl, sym, ap, arith,
  length, take, drop, List, All, All-append, subst, u32, if◌then◌else◌, leb, ◌==◌, inl, inr,
  Bool-cases,
}
use tox_defragmenter.Decimal.{decimal, IsDigit}
use tox_defragmenter.Decimal.Print.{decimal-IsDigit}
use tox_defragmenter.Marker.{marker_exists, marker_text, marker_print, marker_char}
use tox_defragmenter.Marker.Accept.{marker_exists_iff}
use tox_defragmenter.Marker.RoundTrip.{IsMarkerId}
use tox_defragmenter.Sender.Types.{Fragment}
use tox_defragmenter.Sender.Split.{split_loop, split_message, marker_max_size_ever}
use tox_defragmenter.Sender.Split.Correct.{AllReadBack, message_pieces, split_message-AllReadBack}
use tox_defragmenter.Receiver.Wire.{wire}
use tox_defragmenter.Peer.Fragments.{IsCarried}

abbrev pub NoZero : Bytes → Type 0
NoZero = All (λ c. c ≢ 0)

take-NoZero : (n : ℕ) (m : Bytes) → NoZero m → NoZero (take n m)
take-NoZero zero m h = tt
take-NoZero (suc n) [] h = tt
take-NoZero (suc n) (c ∷ m) (h, hs) = (h, take-NoZero n m hs)

drop-NoZero : (n : ℕ) (m : Bytes) → NoZero m → NoZero (drop n m)
drop-NoZero zero m h = h
drop-NoZero (suc n) [] h = tt
drop-NoZero (suc n) (c ∷ m) (h, hs) = drop-NoZero n m hs

digits-NoZero : (ds : Bytes) → All IsDigit ds → NoZero ds
digits-NoZero [] h = tt
digits-NoZero (d ∷ ds) (h, hs) = (λ e. absurd (omega (arith, e, h.0)), digits-NoZero ds hs)

-- A field of the marker, and what comes behind it.
field-NoZero : (n : ℕ) (rest : Bytes) → NoZero rest → NoZero (decimal n ++ b'|' ∷ rest)
field-NoZero n rest h =
    All-append (λ c. c ≢ 0) (decimal n) (b'|' ∷ rest)
      (digits-NoZero (decimal n) (decimal-IsDigit n)) (λ e. absurd (omega (arith, e)), h)

marker_char-NoZero : NoZero marker_char
marker_char-NoZero = (
  λ e. absurd (omega (arith, e)),
  (λ e. absurd (omega (arith, e)), (λ e. absurd (omega (arith, e)), tt)),
)

marker_text-NoZero :
    (id part_no num_parts off sz : ℕ) → NoZero (marker_text id part_no num_parts off sz)
unfolding marker_text
marker_text-NoZero id part_no num_parts off sz =
    All-append (λ c. c ≢ 0) marker_char _ marker_char-NoZero
      (field-NoZero id _ (
        field-NoZero part_no _ (
          field-NoZero num_parts _ (
            field-NoZero off _ (
              All-append (λ c. c ≢ 0) (decimal sz) marker_char
                (digits-NoZero (decimal sz) (decimal-IsDigit sz)) marker_char-NoZero)))))

abbrev wire-NoZero : Fragment → Type 0
wire-NoZero f = NoZero (wire f)

module _ (id num_parts total step : ℕ) where
  split_loop-NoZero :
      (f part_no off len : ℕ) (m : Bytes)
      → NoZero m
      → All wire-NoZero (split_loop id num_parts total step f part_no off len m)
  unfolding split_loop marker_print
  split_loop-NoZero zero part_no off len m h = tt
  split_loop-NoZero (suc f) part_no off len m h =
      let n = if leb step len then step else len in
      let (text, size) = marker_print id part_no num_parts off (u32 total) in
      elim (Bool-cases (len == 0)) [
        | inl ended ↦ rw ended tt
        | inr more ↦ rw more (
          All-append (λ c. c ≢ 0) (take size text) (take n m)
              (take-NoZero size text (marker_text-NoZero id part_no num_parts off (u32 total)))
              (take-NoZero n m h),
          split_loop-NoZero f (u32 (part_no + 1)) (u32 (off + n)) (len - n) (drop n m)
              (drop-NoZero n m h),
        )
      ]

split_message-NoZero :
    (ever : ℕ) (message : Bytes) (max_length id : ℕ)
    → NoZero message
    → All wire-NoZero (split_message ever message max_length id).fragments
unfolding split_message
split_message-NoZero ever message max_length id h =
    split_loop-NoZero id _ _ _ (suc (length message)) 1 0 (u32 (length message)) message h

carried :
    (max_length id num_parts total : ℕ) (ps : List Bytes) (fs : List Fragment) (part_no off : ℕ)
    → max_length < 2 ^ 31
    → AllReadBack max_length id num_parts total part_no off ps fs
    → All wire-NoZero fs
    → All IsCarried fs
carried max_length id num_parts total ps [] part_no off low r z = tt
carried max_length id num_parts total [] (f ∷ fs) part_no off low r z = absurd (cc)
carried max_length id num_parts total (p ∷ ps) (f ∷ fs) part_no off low (r, rs) (z, zs) =
    let text : wire f ≡ r.text = rw r.bytes refl in
    let size : f.size ≡ length (wire f) = r.size ∙ ap length (sym text) in
    (
      record {
        text = record { short = omega (arith, size, r.fits); no_zero = z };
        size = size;
        marked =
            subst (λ t. marker_exists t f.size ≡ true) (sym text)
              ((marker_exists_iff r.text f.size).1 (_, r.parsed));
      },
      carried max_length id num_parts total ps fs (part_no + 1) (off + length p) low rs zs,
    )

-- Every fragment of a message without a byte 0 goes over the net as it is.
pub split_message-IsCarried :
    (message : Bytes) (max_length id : ℕ)
    → IsMarkerId id
    → 63 < max_length
    → max_length < 2 ^ 31
    → length message < 2 ^ 31
    → NoZero message
    → All IsCarried (split_message marker_max_size_ever message max_length id).fragments
split_message-IsCarried message max_length id h hm low hl z =
    carried max_length id _ (length message) (message_pieces message max_length id h hm hl) _ 1 0
      low (split_message-AllReadBack message max_length id h hm hl)
      (split_message-NoZero marker_max_size_ever message max_length id z)
