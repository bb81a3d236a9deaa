-- ===== src/Sender/Heap/Removal.antt =====
-- `msgsOutboundUnlink` takes a message out of the ring.
use tox_defragmenter.Prelude.{
  subst, AllDiffer, ℕ, ◌≤◌, ◌≡◌, ◌≢◌, [], ◌∷◌, List, false, ◌==◌, if◌then◌else◌, arith, Bool-cases,
  inl, inr, refl, ◌∙◌, ap, sym, length, All,
}
use tox_defragmenter.Sender.Heap.{Heap, node_at, set_prev, msgs_outbound_unlink}
use tox_defragmenter.Sender.Heap.Reads.{
  Valid, next-set_next, prev-set_next, next-set_prev, prev-set_prev, length-set_next,
  length-set_prev,
}
use tox_defragmenter.Sender.Heap.Ring.{Chain, IsRing}
use tox_defragmenter.Sender.Heap.Unlink.{Within, remove, unlink-Chain}

module _ (h : Heap) (head p : ℕ) (hp : Valid h p) (hn : Valid h (node_at h p).next)
    (hv : Valid h (node_at h p).prev) where
  abbrev h' : Heap
  h' = (msgs_outbound_unlink p (h, head)).0

  unlink_reads :
      (length h' ≡ length h)
      × ((x : ℕ)
          → 1 ≤ x
          → (node_at h' x).next
            ≡ (if (node_at h p).prev == x then (node_at h p).next else (node_at h x).next))
      × ((x : ℕ)
          → 1 ≤ x
          → (node_at h' x).prev
            ≡ (if (node_at h p).next == x then (node_at h p).prev else (node_at h x).prev))
  unfolding msgs_outbound_unlink
  unlink_reads =
      let n = (node_at h p).next in
      let v = (node_at h p).prev in
      let h1 = set_prev h n v in
      let l1 = length-set_prev h n v in
      let l2 = length-set_next h1 (node_at h1 p).prev (node_at h1 p).next in
      let same_next : (node_at h1 p).next ≡ n = next-set_prev h n p v hn hp.0 in
      let same_prev : (node_at h1 p).prev ≡ v = prev-set_prev h n p v hn hp.0 ∙ ground arith in
      let v1 : Valid h1 (node_at h1 p).prev =
        (omega (arith, same_prev, hv.0), omega (arith, same_prev, l1, hv.1)) in
      (
        omega (arith, l1, l2),
        λ x hx.
            next-set_next h1 (node_at h1 p).prev x (node_at h1 p).next v1 hx
            ∙ ap (λ y. if (node_at h1 p).prev == x then (node_at h1 p).next else y)
                (next-set_prev h n x v hn hx)
            ∙ ap (λ y. if y == x then (node_at h1 p).next else (node_at h x).next) same_prev
            ∙ ap (λ y. if v == x then y else (node_at h x).next) same_next,
        λ x hx.
            prev-set_next h1 (node_at h1 p).prev x (node_at h1 p).next v1 hx
            ∙ prev-set_prev h n x v hn hx,
      )

  unlink-Valid : (x : ℕ) → Valid h x → Valid h' x
  unlink-Valid x (lo, hi) = (lo, omega (arith, unlink_reads.0))

module _ (h : Heap) (end p : ℕ) where
  -- The neighbours of a message of the ring are messages.
  prev-Valid :
      (a : ℕ) (ps : List ℕ)
      → Chain h end a ps
      → Within p ps
      → All (Valid h) (a ∷ ps)
      → Valid h (node_at h p).prev
  prev-Valid a [] c w v = absurd w
  prev-Valid a (q ∷ qs) ((n, b), c) (inl e) (v, vs) =
      subst (Valid h) (sym (ap (λ x. (node_at h x).prev) e ∙ b)) v
  prev-Valid a (q ∷ qs) (l, c) (inr w) (v, vs) = prev-Valid q qs c w vs

  next-Valid :
      (a : ℕ) (ps : List ℕ)
      → Chain h end a ps
      → Within p (a ∷ ps)
      → All (Valid h) (a ∷ ps)
      → Valid h end
      → Valid h (node_at h p).next
  next-Valid a [] (n, b) (inl e) v ve =
      subst (Valid h) (sym (ap (λ x. (node_at h x).next) e ∙ n)) ve
  next-Valid a [] c (inr w) v ve = absurd w
  next-Valid a (q ∷ qs) ((n, b), c) (inl e) (v, (vq, vs)) ve =
      subst (Valid h) (sym (ap (λ x. (node_at h x).next) e ∙ n)) vq
  next-Valid a (q ∷ qs) (l, c) (inr w) (v, vs) ve = next-Valid q qs c w vs ve

  this-Valid : (ps : List ℕ) → Within p ps → All (Valid h) ps → Valid h p
  this-Valid [] w v = absurd w
  this-Valid (q ∷ qs) (inl e) (v, vs) = subst (Valid h) (sym e) v
  this-Valid (q ∷ qs) (inr w) (v, vs) = this-Valid qs w vs

remove-All : (P : ℕ → Type 0) (p : ℕ) (xs : List ℕ) → All P xs → All P (remove p xs)
remove-All P p [] d = tt
remove-All P p (x ∷ xs) (d, ds) = elim (Bool-cases (p == x)) [
  | inl same ↦ rw same ds
  | inr other ↦ rw other (d, remove-All P p xs ds)
]

remove-AllDiffer : (p : ℕ) (xs : List ℕ) → AllDiffer xs → AllDiffer (remove p xs)
remove-AllDiffer p [] d = tt
remove-AllDiffer p (x ∷ xs) (d, ds) = elim (Bool-cases (p == x)) [
  | inl same ↦ rw same ds
  | inr other ↦ rw other (remove-All (λ y. x ≢ y) p xs d, remove-AllDiffer p xs ds)
]

All-Valid :
    (h k : Heap)
    → ((x : ℕ) → Valid h x → Valid k x)
    → (xs : List ℕ) → All (Valid h) xs
    → All (Valid k) xs
All-Valid h k f [] v = tt
All-Valid h k f (x ∷ xs) (v, vs) = (f x v, All-Valid h k f xs vs)

other_differ : (z p : ℕ) (xs : List ℕ) → Within p xs → All (λ x. z ≢ x) xs → z ≢ p
other_differ z p [] w d = absurd w
other_differ z p (x ∷ xs) (inl e) (d, ds) = λ f. d (f ∙ e)
other_differ z p (x ∷ xs) (inr w) (d, ds) = other_differ z p xs w ds

-- A ring whose first message is `head`, without `p`.
pub unlink_from :
    (h : Heap) (head p : ℕ) (ps : List ℕ)
    → IsRing (h, head) (head ∷ ps)
    → Within p ps
    → IsRing ((msgs_outbound_unlink p (h, head)).0, head) (head ∷ remove p ps)
unlink_from h head p ps (e, (vh, vs), (d, ds), c) w =
    let hp = this-Valid h head p ps w vs in
    let hn = next-Valid h head p head ps c (inr w) (vh, vs) vh in
    let hv = prev-Valid h head p head ps c w (vh, vs) in
    let (len, nx, pv) = unlink_reads h head p hp hn hv in
    let kept = unlink-Valid h head p hp hn hv in
    (
      refl,
      (kept head vh, remove-All (Valid _) p ps (All-Valid h _ kept ps vs)),
      (remove-All (λ x. head ≢ x) p ps d, remove-AllDiffer p ps ds),
      unlink-Chain h _ p nx pv head head ps vh.0 (vh, vs) (d, ds) d c w,
    )

-- A message that is not the first of the ring is taken out: `msgsOutboundUnlink` leaves the others in
-- their order.
pub msgs_outbound_unlink-IsRing :
    (h : Heap) (head p : ℕ) (ps : List ℕ)
    → IsRing (h, head) (head ∷ ps)
    → Within p ps
    → IsRing (msgs_outbound_unlink p (h, head)) (head ∷ remove p ps)
unfolding msgs_outbound_unlink
msgs_outbound_unlink-IsRing h head p ps r w =
    let other : (p == head) ≡ false = ground (arith, other_differ head p ps w r.2.0) in
    rw other (unlink_from h head p ps r w)
