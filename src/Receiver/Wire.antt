-- ===== src/Receiver/Wire.antt =====
-- A fragment of `splitMessage` on its way: `friend_message_cb` takes it for the piece that it holds.
use mathlib.Core.List.{flatten}
use tox_defragmenter.Prelude.{
  ℕ, zero, suc, ◌+◌, ◌-◌, ◌^◌, ◌≤◌, ◌<◌, [], ◌∷◌, true, Bytes, ◌≡◌, ap, subst₂, arith, List, none,
  some, length, get_or, length-drop, u64,
}
use tox_defragmenter.Marker.{marker_exists}
use tox_defragmenter.Marker.Accept.{marker_exists_iff, marker_parse_size}
use tox_defragmenter.Database.Types.{DataRow, Db, ok, ◌>>=◌}
use tox_defragmenter.Database.Inbound.{db_insert_inbound_fragment}
use tox_defragmenter.Sender.Types.{Fragment}
use tox_defragmenter.Sender.Send.{no_fragment}
use tox_defragmenter.Sender.Split.Correct.{ReadsBack, AllReadBack}
use tox_defragmenter.Receiver.{forward, process_in_fragment, friend_message_cb}
use tox_defragmenter.Receiver.Mask.{offset, piece, offset-piece-le}
use tox_defragmenter.Receiver.Store.{fragment_of}

-- The bytes that are sent for a fragment; a NULL pointer has none.
abbrev pub wire : Fragment → Bytes
wire f = elim f.bytes [ none ↦ [] | some text ↦ text ]

module _ (max_length id num_parts total : ℕ) where
  -- The fragment at `k` reads back as the piece at `k`.
  pub AllReadBack-get :
      (ps : List Bytes) (fs : List Fragment) (part_no off k : ℕ)
      → AllReadBack max_length id num_parts total part_no off ps fs
      → k < length ps
      → ReadsBack max_length id
          (part_no + k)
          num_parts
          (off + offset k ps)
          total
          (piece k ps)
          (get_or fs k no_fragment)
  unfolding offset piece
  AllReadBack-get [] fs part_no off k a h = elim h [ ]
  AllReadBack-get (p ∷ ps) [] part_no off k a h = absurd a
  AllReadBack-get (p ∷ ps) (f ∷ fs) part_no off zero (r, a) h =
      subst₂ (λ n o. ReadsBack max_length id n num_parts o total p f) (omega arith) (omega arith) r
  AllReadBack-get (p ∷ ps) (f ∷ fs) part_no off (suc k) (r, a) h =
      subst₂
        (λ n o.
          ReadsBack max_length id n num_parts o total (get_or ps k []) (get_or fs k no_fragment))
        (omega arith) (omega arith)
        (AllReadBack-get ps fs (part_no + 1) (off + length p) k a (omega arith))

module _ (new_rowid : List DataRow → ℕ) (max_length friend type id now : ℕ) (ps : List Bytes)
    (k : ℕ) (f : Fragment) (small : length (flatten ps) < 2 ^ 31) (inside : k < length ps)
    (filled : 1 ≤ length (piece k ps)) where
  -- `length - markerSize` is the size of the piece.
  data_length :
      (r : ReadsBack max_length id
        (1 + k)
        (length ps)
        (0 + offset k ps)
        (length (flatten ps))
        (piece k ps)
        f)
      → u64 (f.size + 2 ^ 64 - r.marker_size) ≡ length (piece k ps)
  data_length r =
      let cut = length-drop r.marker_size r.text in
      omega (
        arith,
        r.size,
        cut,
        ap length r.payload,
        offset-piece-le k ps inside,
        marker_parse_size r.text f.size _ r.parsed,
      )

  pub friend_message_cb-insert :
      (db : Db)
      → ReadsBack max_length id
          (1 + k)
          (length ps)
          (0 + offset k ps)
          (length (flatten ps))
          (piece k ps)
          f
      → friend_message_cb new_rowid friend type (wire f) f.size now db ≡ (
          db_insert_inbound_fragment new_rowid (fragment_of friend id type now ps k) db
          >>= λ result. ok (result.0, forward result.1))
  unfolding friend_message_cb process_in_fragment
  friend_message_cb-insert db r =
      let text : wire f ≡ r.text = rw r.bytes in
      let marked : marker_exists r.text f.size ≡ true =
        (marker_exists_iff r.text f.size).1 (_, r.parsed) in
      let z : 0 + offset k ps ≡ offset k ps = omega arith in
      rw (text, marked) (rw (r.parsed, process_in_fragment) (rw (z, data_length r, r.payload)))
