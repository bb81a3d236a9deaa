-- ===== src/Sender/Heap/Ring.antt =====
-- The ring of the outbound messages: what the links must be, and the loop over them.
use tox_defragmenter.Prelude.{
  leb, subst, Bool-cases, inl, inr, refl, zero, suc, ◌∙◌, sym, false, ◌==◌, if◌then◌else◌, ◌+◌,
  arith, ◌≢◌, AllDiffer, ℕ, ◌<◌, ◌≡◌, [], ◌∷◌, List, length, All, ◌≤◌,
}
use tox_defragmenter.Sender.Heap.{ring, Heap, node_at, walk}
use tox_defragmenter.Sender.Heap.Reads.{Valid}

-- `p` points to `q`, and `q` points back.
abbrev pub Linked : Heap → ℕ → ℕ → Type 0
Linked h p q = ((node_at h p).next ≡ q) × ((node_at h q).prev ≡ p)

-- The addresses are linked one to the next, and the last one to `end`.
abbrev pub Chain : Heap → ℕ → ℕ → List ℕ → Type 0
Chain h end p [] = Linked h p end
Chain h end p (q ∷ qs) = Linked h p q × Chain h end q qs

-- `msgsOutbound` is NULL, or the first of the addresses, which are different and form a ring.
abbrev pub IsRing : Heap × ℕ → List ℕ → Type 0
IsRing (h, head) [] = head ≡ 0
IsRing (h, head) (p ∷ ps) =
    (head ≡ p) × All (Valid h) (p ∷ ps) × AllDiffer (p ∷ ps) × Chain h p p ps

-- The loop over the ring visits the addresses of the chain, in order.
walk-Chain :
    (f : ℕ) (h : Heap) (end p : ℕ) (ps : List ℕ)
    → Chain h end p ps
    → All (λ q. end ≢ q) ps
    → length ps < f
    → walk f h end p ≡ p ∷ ps
unfolding walk
walk-Chain zero h end p ps c d e = absurd (omega arith)
walk-Chain (suc f) h end p [] (n, v) d e = ground arith
walk-Chain (suc f) h end p (q ∷ qs) ((n, v), c) (d, ds) e =
    let tail = walk-Chain f h end q qs c ds (omega arith) in ground arith

-- The links of the other addresses decide a chain.
pub frame :
    (h h' : Heap) (end p : ℕ) (ps : List ℕ)
    → All (λ q. (node_at h' q).next ≡ (node_at h q).next) (p ∷ ps)
    → All (λ q. (node_at h' q).prev ≡ (node_at h q).prev) ps
    → (node_at h' end).prev ≡ (node_at h end).prev
    → Chain h end p ps
    → Chain h' end p ps
frame h h' end p [] (n, _) v e (a, b) = (n ∙ a, e ∙ b)
frame h h' end p (q ∷ qs) (n, ns) (v, vs) e ((a, b), c) =
    ((n ∙ a, v ∙ b), frame h h' end q qs ns vs e c)

-- How many of the numbers are at most `n`.
count_up_to : ℕ → List ℕ → ℕ
count_up_to n [] = 0
count_up_to n (x ∷ xs) = (if leb x n then 1 else 0) + count_up_to n xs

count_up_to_differ :
    (n : ℕ) (xs : List ℕ) → All (λ x. n + 1 ≢ x) xs → count_up_to (n + 1) xs ≡ count_up_to n xs
unfolding count_up_to
count_up_to_differ n [] d = refl
count_up_to_differ n (x ∷ xs) (d, ds) = ground (arith, count_up_to_differ n xs ds)

count_up_to_suc :
    (n : ℕ) (xs : List ℕ) → AllDiffer xs → count_up_to (n + 1) xs ≤ count_up_to n xs + 1
unfolding count_up_to
count_up_to_suc n [] d = omega arith
count_up_to_suc n (x ∷ xs) (d, ds) = elim (Bool-cases (x == n + 1)) [
  | inl same ↦
      let e : x ≡ n + 1 = ground arith in
      ground (arith, count_up_to_differ n xs (subst (λ y. All (λ z. y ≢ z) xs) e d))
  | inr other ↦ ground (arith, count_up_to_suc n xs ds)
]

count_up_to-le : (n : ℕ) (xs : List ℕ) → AllDiffer xs → All (λ x. 1 ≤ x) xs → count_up_to n xs ≤ n
unfolding count_up_to
count_up_to-le zero [] d p = omega arith
count_up_to-le zero (x ∷ xs) (d, ds) (p, ps) = ground (arith, count_up_to-le zero xs ds ps)
count_up_to-le (suc n) xs d p =
    let e : suc n ≡ n + 1 = omega arith in
    rw e (omega (arith, count_up_to_suc n xs d, count_up_to-le n xs d p))

count_up_to-Valid :
    (h : Heap) (xs : List ℕ)
    → All (Valid h) xs
    → (count_up_to (length h) xs ≡ length xs) × All (λ x. 1 ≤ x) xs
unfolding count_up_to
count_up_to-Valid h [] v = (refl, tt)
count_up_to-Valid h (x ∷ xs) (v, vs) =
    let (c, p) = count_up_to-Valid h xs vs in (ground (arith, v.1, c), (v.0, p))

-- The loops that go from `msgsOutbound` along `next` visit each message of a ring once, in order,
-- and end; there are never more rounds than messages in memory.
pub ring-IsRing : (h : Heap) (head : ℕ) (xs : List ℕ) → IsRing (h, head) xs → ring (h, head) ≡ xs
unfolding ring
ring-IsRing h head [] e = ground (arith, e)
ring-IsRing h head (x ∷ xs) (e, v, d, c) =
    let (count, pos) = count_up_to-Valid h (x ∷ xs) v in
    let few = count_up_to-le (length h) (x ∷ xs) d pos in
    let some_head : (head == 0) ≡ false = ground (arith, e, v.0.0) in
    rw some_head (
      subst (λ a. walk (length h) h a a ≡ x ∷ xs) (sym e)
        (walk-Chain (length h) h x x xs c d.0 (omega (arith, count, few))))
