-- ===== src/Sender/Heap/First.antt =====
-- `msgsOutboundUnlink` on the first message of the ring, `msgsOutbound`.
use tox_defragmenter.Prelude.{
  subst, AllDiffer, ℕ, ◌≡◌, ◌≢◌, [], ◌∷◌, ◌++◌, List, true, false, ◌==◌, arith, inl, refl, ◌∙◌, ap,
  sym, All,
}
use tox_defragmenter.Sender.Heap.{Heap, node_at, msgs_outbound_unlink}
use tox_defragmenter.Sender.Heap.Reads.{Valid}
use tox_defragmenter.Sender.Heap.Ring.{Linked, Chain, IsRing}
use tox_defragmenter.Sender.Heap.Unlink.{remove}
use tox_defragmenter.Sender.Heap.Removal.{unlink_from}

pub snoc-All : (P : ℕ → Type 0) (xs : List ℕ) (l : ℕ) → All P (xs ++ l ∷ []) → All P xs × P l
snoc-All P [] l (p, u) = (tt, p)
snoc-All P (x ∷ xs) l (p, ps) = let (a, b) = snoc-All P xs l ps in ((p, a), b)

snoc-AllDiffer :
    (xs : List ℕ) (l : ℕ) → AllDiffer (xs ++ l ∷ []) → AllDiffer xs × All (λ x. l ≢ x) xs
snoc-AllDiffer [] l d = (tt, tt)
snoc-AllDiffer (x ∷ xs) l (d, ds) =
    let (a, b) = snoc-All (λ y. x ≢ y) xs l d in
    let (c, e) = snoc-AllDiffer xs l ds in ((a, c), (λ f. b (sym f), e))

pub snoc-Chain :
    (h : Heap) (end a : ℕ) (xs : List ℕ) (l : ℕ)
    → Chain h end a (xs ++ l ∷ [])
    → Chain h l a xs × Linked h l end
snoc-Chain h end a [] l (m, e) = (m, e)
snoc-Chain h end a (x ∷ xs) l (m, c) = let (b, e) = snoc-Chain h end x xs l c in ((m, b), e)

-- The same ring, seen from its last message.
rotate :
    (h : Heap) (head : ℕ) (xs : List ℕ) (l : ℕ)
    → IsRing (h, head) (head ∷ (xs ++ l ∷ []))
    → IsRing (h, l) (l ∷ head ∷ xs)
rotate h head xs l (e, (vh, vs), (d, ds), c) =
    let (va, vl) = snoc-All (Valid h) xs l vs in
    let (da, dl) = snoc-All (λ y. head ≢ y) xs l d in
    let (db, dm) = snoc-AllDiffer xs l ds in
    let (ca, cl) = snoc-Chain h head head xs l c in
    (refl, (vl, (vh, va)), ((λ f. dl (sym f), dm), (da, db)), (cl, ca))

-- The address that becomes `msgsOutbound`.
new_head :
    (h : Heap) (head : ℕ)
    → (node_at h head).next ≢ (node_at h head).prev
    → msgs_outbound_unlink head (h, head)
      ≡ ((msgs_outbound_unlink head (h, (node_at h head).prev)).0, (node_at h head).prev)
unfolding msgs_outbound_unlink
new_head h head d =
    let here : (head == head) ≡ true = ground arith in
    let more : ((node_at h head).next == (node_at h head).prev) ≡ false = ground (arith, d) in
    rw (here, more) refl

-- The first message of a ring of at least three is taken out: the last one becomes the first, and the
-- others keep their order.
pub msgs_outbound_unlink_first :
    (h : Heap) (head q : ℕ) (xs : List ℕ) (l : ℕ)
    → IsRing (h, head) (head ∷ q ∷ (xs ++ l ∷ []))
    → IsRing (msgs_outbound_unlink head (h, head)) (l ∷ q ∷ xs)
msgs_outbound_unlink_first h head q xs l r =
    let turned = rotate h head (q ∷ xs) l r in
    let before : (node_at h head).prev ≡ l = turned.3.0.1 in
    let after : (node_at h head).next ≡ q = r.3.0.0 in
    let differ : q ≢ l = λ f. turned.2.0.1.0 (sym f) in
    let here : (head == head) ≡ true = ground arith in
    let removed : remove head (head ∷ q ∷ xs) ≡ q ∷ xs = rw here refl in
    subst (λ s. IsRing s (l ∷ q ∷ xs))
      (sym (
        new_head h head (λ f. differ (sym after ∙ f ∙ before))
        ∙ ap (λ v. ((msgs_outbound_unlink head (h, v)).0, v)) before))
      (subst (λ ys. IsRing ((msgs_outbound_unlink head (h, l)).0, l) (l ∷ ys)) removed
        (unlink_from h l head (head ∷ q ∷ xs) turned (inl refl)))

-- Of a ring of two messages the first is taken out: `msgsOutbound` becomes NULL, although the
-- other message is still in memory.
pub msgs_outbound_unlink_loses :
    (h : Heap) (head q : ℕ)
    → IsRing (h, head) (head ∷ q ∷ [])
    → (msgs_outbound_unlink head (h, head)).1 ≡ 0
unfolding msgs_outbound_unlink
msgs_outbound_unlink_loses h head q (e, v, d, ((n, b), (m, g))) = ground (arith, n, g)
