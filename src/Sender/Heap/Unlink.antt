-- ===== src/Sender/Heap/Unlink.antt =====
-- The ring when the neighbours of one of its messages are linked with each other.
use tox_defragmenter.Prelude.{
  ◌⊎◌, subst, AllDiffer, ℕ, ◌≤◌, ◌≡◌, ◌≢◌, [], ◌∷◌, List, ◌==◌, if◌then◌else◌, arith, Bool-cases,
  inl, inr, ◌∙◌, ap, sym, All,
}
use tox_defragmenter.Sender.Heap.{Heap, node_at}
use tox_defragmenter.Sender.Heap.Reads.{Valid}
use tox_defragmenter.Sender.Heap.Ring.{Chain, frame}

-- The address is one of the list.
abbrev pub Within : ℕ → List ℕ → Type 0
Within p [] = ⊥
Within p (x ∷ xs) = (p ≡ x) ⊎ Within p xs

abbrev pub remove : ℕ → List ℕ → List ℕ
remove p [] = []
remove p (x ∷ xs) = if p == x then xs else x ∷ remove p xs

module _ (h : Heap) (end : ℕ) (p : ℕ) where
  -- Who points to `p`, and whom it points to, are neighbours in the chain.
  prev_differs :
      (z a : ℕ) (ps : List ℕ)
      → Chain h end a ps
      → Within p ps
      → All (λ x. z ≢ x) (a ∷ ps)
      → (node_at h p).prev ≢ z
  prev_differs z a [] c w d = absurd w
  prev_differs z a (q ∷ qs) ((n, v), c) (inl e) (za, d) =
      λ f. za (sym f ∙ ap (λ x. (node_at h x).prev) e ∙ v)
  prev_differs z a (q ∷ qs) ((n, v), c) (inr w) (za, d) = prev_differs z q qs c w d

  next_differs :
      (z a : ℕ) (ps : List ℕ)
      → Chain h end a ps
      → Within p (a ∷ ps)
      → All (λ x. z ≢ x) ps
      → z ≢ end
      → (node_at h p).next ≢ z
  next_differs z a [] (n, v) (inl e) d ze = λ f. ze (sym f ∙ ap (λ x. (node_at h x).next) e ∙ n)
  next_differs z a [] c (inr w) d ze = absurd w
  next_differs z a (q ∷ qs) ((n, v), c) (inl e) (zq, d) ze =
      λ f. zq (sym f ∙ ap (λ x. (node_at h x).next) e ∙ n)
  next_differs z a (q ∷ qs) (l, c) (inr w) (zq, d) ze = next_differs z q qs c w d ze

module _ (h h' : Heap) (p : ℕ)
    (nx : (x : ℕ)
      → 1 ≤ x
      → (node_at h' x).next
        ≡ (if (node_at h p).prev == x then (node_at h p).next else (node_at h x).next))
    (pv : (x : ℕ)
      → 1 ≤ x
      → (node_at h' x).prev
        ≡ (if (node_at h p).next == x then (node_at h p).prev else (node_at h x).prev)) where
  All-next_kept :
      (xs : List ℕ)
      → All (Valid h) xs
      → All (λ x. (node_at h p).prev ≢ x) xs
      → All (λ x. (node_at h' x).next ≡ (node_at h x).next) xs
  All-next_kept [] v d = tt
  All-next_kept (x ∷ xs) (v, vs) (d, ds) = (nx x v.0 ∙ ground (arith, d), All-next_kept xs vs ds)

  All-prev_kept :
      (xs : List ℕ)
      → All (Valid h) xs
      → All (λ x. (node_at h p).next ≢ x) xs
      → All (λ x. (node_at h' x).prev ≡ (node_at h x).prev) xs
  All-prev_kept [] v d = tt
  All-prev_kept (x ∷ xs) (v, vs) (d, ds) = (pv x v.0 ∙ ground (arith, d), All-prev_kept xs vs ds)

  differ_from : (x y : ℕ) (xs : List ℕ) → x ≡ y → All (λ z. y ≢ z) xs → All (λ z. x ≢ z) xs
  differ_from x y xs e d = subst (λ w. All (λ z. w ≢ z) xs) (sym e) d

  -- `p` comes next: its neighbours are linked.
  unlink_next :
      (end a q : ℕ) (qs : List ℕ)
      → 1 ≤ end
      → All (Valid h) (a ∷ q ∷ qs)
      → AllDiffer (a ∷ q ∷ qs)
      → All (λ x. end ≢ x) (q ∷ qs)
      → Chain h end a (q ∷ qs)
      → p ≡ q
      → Chain h' end a qs
  unlink_next end a q [] low (va, v) d e ((n, b), (m, g)) same =
      let before : (node_at h p).prev ≡ a = ap (λ x. (node_at h x).prev) same ∙ b in
      let after : (node_at h p).next ≡ end = ap (λ x. (node_at h x).next) same ∙ m in
      (nx a va.0 ∙ ground (arith, before, after), pv end low ∙ ground (arith, before, after))
  unlink_next end a q (r ∷ rs) low (va, (vq, (vr, vs))) ((aq, (ar, as')), (dq, (dr, d)))
        (ee, (er, es)) ((n, b), ((m, g), c)) same =
      let before : (node_at h p).prev ≡ a = ap (λ x. (node_at h x).prev) same ∙ b in
      let after : (node_at h p).next ≡ r = ap (λ x. (node_at h x).next) same ∙ m in
      (
        (nx a va.0 ∙ ground (arith, before, after), pv r vr.0 ∙ ground (arith, before, after)),
        frame h h' end r rs
            (All-next_kept (r ∷ rs) (vr, vs) (differ_from _ a (r ∷ rs) before (ar, as')))
            (All-prev_kept rs vs (differ_from _ r rs after dr))
            (pv end low ∙ ground (arith, after, er)) c,
      )

  -- The chain without `p`.
  pub unlink-Chain :
      (end a : ℕ) (ps : List ℕ)
      → 1 ≤ end
      → All (Valid h) (a ∷ ps)
      → AllDiffer (a ∷ ps)
      → All (λ x. end ≢ x) ps
      → Chain h end a ps
      → Within p ps
      → Chain h' end a (remove p ps)
  unlink-Chain end a [] low v d e c w = absurd w
  unlink-Chain end a (q ∷ qs) low (va, vs) (as', d) (ee, es) ((n, b), c) w =
      elim (Bool-cases (p == q)) [
        | inl same ↦
            rw same
              (unlink_next end a q qs low (va, vs) (as', d) (ee, es) ((n, b), c) (ground arith))
        | inr other ↦
            let later : Within p qs = elim w [ inl e ↦ absurd (ground (arith, e)) | inr w' ↦ w' ] in
            let from = prev_differs h end p a q qs c later as' in
            let to = next_differs h end p q q qs c (inr later) d.0 (λ e. ee (sym e)) in
            rw other (
              (nx a va.0 ∙ ground (arith, n, from), pv q vs.0.0 ∙ ground (arith, b, to)),
              unlink-Chain end q qs low vs d es c later,
            )
      ]
