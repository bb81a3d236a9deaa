-- ===== src/Receiver/Delivery.antt =====
-- A message that `splitMessage` cut up reaches the client of the receiver, whatever the order of its
-- fragments.
use mathlib.Core.List.{flatten}
use tox_defragmenter.Prelude.{
  AllDiffer, ℕ, ◌^◌, ◌≤◌, ◌<◌, [], ◌∷◌, Bytes, ◌≡◌, arith, ap, sym, subst, subst₂, List, length,
  All, none, zero, suc,
}
use tox_defragmenter.Database.Types.{DataRow, Db}
use tox_defragmenter.Database.Statements.{find_meta, find_data}
use tox_defragmenter.Marker.RoundTrip.{IsMarkerId}
use tox_defragmenter.Sender.Split.{split_message, marker_max_size_ever}
use tox_defragmenter.Sender.Split.Pieces.{Fits}
use tox_defragmenter.Sender.Split.Correct.{
  AllReadBack, message_pieces, split_message-pieces, split_message-AllReadBack,
}
use tox_defragmenter.Receiver.Mask.{piece}
use tox_defragmenter.Receiver.Reassembly.{Delivered, arrivals, parts, receive_all, run-Delivered}

All-Fits :
    (step : ℕ) (ps : List Bytes) (k : ℕ)
    → All (Fits step) ps
    → k < length ps
    → 1 ≤ length (piece k ps)
unfolding piece
All-Fits step [] k a h = elim h [ ]
All-Fits step (p ∷ ps) zero (a, rest) h = a.0
All-Fits step (p ∷ ps) (suc k) (a, rest) h = All-Fits step ps k rest (omega arith)

some_piece : (ps : List Bytes) → 1 ≤ length (flatten ps) → 1 ≤ length ps
unfolding flatten
some_piece [] h = h
some_piece (p ∷ ps) h = omega arith

-- A message of at least one byte is cut up with a marker id that is in range and a greatest length of
-- more than 63 bytes, and its fragments come in at a database that knows nothing of the message, in any
-- order, at any times: `ks` lists for each arrival its time and the place of the fragment. Then no
-- call aborts, the client gets exactly the message, once, with the friend and the type, and the
-- database keeps of the message only its metadata.
pub split_message-delivers :
    (new_rowid : List DataRow → ℕ) (rowids : (rows : List DataRow) → 1 ≤ new_rowid rows)
    (message : Bytes) (max_length friend type id : ℕ) (h : IsMarkerId id) (hm : 63 < max_length)
    (hl : length message < 2 ^ 31) (hn : 1 ≤ length message) (ks : List (ℕ × ℕ)) (db : Db)
    (no_meta : find_meta 0 friend id db.meta ≡ none)
    (no_data : find_data 0 friend id db.rows ≡ none) (differ : AllDiffer (parts ks))
    (inside : All
      (λ k. k < (split_message marker_max_size_ever message max_length id).num_parts)
      (parts ks))
    (all : length ks ≡ (split_message marker_max_size_ever message max_length id).num_parts)
    → Delivered friend type id message (
        receive_all new_rowid friend type
          (arrivals (split_message marker_max_size_ever message max_length id).fragments ks)
          db)
split_message-delivers new_rowid rowids message max_length friend type id h hm hl hn ks db no_meta
      no_data differ inside all =
    let (made, whole, fit, count) = split_message-pieces message max_length id h hm hl in
    let ps = message_pieces message max_length id h hm hl in
    let msg = split_message marker_max_size_ever message max_length id in
    let reads = split_message-AllReadBack message max_length id h hm hl in
    subst
      (λ m.
        Delivered friend type id m
          (receive_all new_rowid friend type (arrivals msg.fragments ks) db))
      whole
      (run-Delivered new_rowid rowids max_length friend type id ps msg.fragments
        (omega (arith, ap length whole)) (λ k low. All-Fits _ ps k fit low)
        (subst₂ (λ n t. AllReadBack max_length id n t 1 0 ps msg.fragments) (sym count)
          (sym (ap length whole)) reads)
        ks db (no_meta, no_data) differ
        (subst (λ n. All (λ k. k < n) (parts ks)) (sym count) inside) (omega (arith, all, count))
        (omega (arith, all, count, some_piece ps (omega (arith, ap length whole)))))
