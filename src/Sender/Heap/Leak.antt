-- ===== src/Sender/Heap/Leak.antt =====
-- `msgsOutboundDeleteAll`: what stays in memory.
use tox_defragmenter.Prelude.{
  ℕ, zero, suc, ◌+◌, ◌≤◌, ◌≡◌, ◌≢◌, [], ◌∷◌, ◌++◌, List, true, false, ◌==◌, All, arith, ap, sym,
  ◌∙◌, refl, subst, ◌⊎◌, inl, inr, Bool-cases, length, length-append,
}
use tox_defragmenter.Sender.Heap.{
  Heap, Node, node_at, set_next, set_prev, msgs_outbound_unlink, msg_outbound_delete,
  msgs_outbound_delete_all,
}
use tox_defragmenter.Sender.Heap.Reads.{
  Valid, node-set, prev-set_prev, length-set_prev, length-set_next,
}
use tox_defragmenter.Sender.Heap.Unlink.{Within}
use tox_defragmenter.Sender.Heap.Ring.{IsRing}
use tox_defragmenter.Sender.Heap.First.{
  snoc-All, snoc-Chain, msgs_outbound_unlink_first, msgs_outbound_unlink_loses,
}
use tox_defragmenter.Sender.Heap.Free.{without, without-IsRing}

module _ (h : Heap) (p q v : ℕ) (hp : Valid h p) (hq : 1 ≤ q) where
  freed-set_next : (node_at (set_next h p v) q).freed ≡ (node_at h q).freed
  unfolding set_next
  freed-set_next =
      ap (λ (n : Node). n.freed) (node-set h p q (record (node_at h p) { next = v }) hp hq)
      ∙ elim (Bool-cases (p == q)) [
        | inl same ↦ let e : p ≡ q = ground arith in rw same (ap (λ r. (node_at h r).freed) e)
        | inr other ↦ rw other
      ]

  freed-set_prev : (node_at (set_prev h p v) q).freed ≡ (node_at h q).freed
  unfolding set_prev
  freed-set_prev =
      ap (λ (n : Node). n.freed) (node-set h p q (record (node_at h p) { prev = v }) hp hq)
      ∙ elim (Bool-cases (p == q)) [
        | inl same ↦ let e : p ≡ q = ground arith in rw same (ap (λ r. (node_at h r).freed) e)
        | inr other ↦ rw other
      ]

  -- What is freed is marked, and nothing else.
  freed-without : p ≢ q → (node_at (without h p) q).freed ≡ (node_at h q).freed
  unfolding msg_outbound_delete
  freed-without other =
      let differ : (p == q) ≡ false = ground (arith, other) in
      ap (λ (n : Node). n.freed) (node-set h p q (record (node_at h p) { freed = true }) hp hq)
      ∙ rw differ refl

-- Taking a message out of its ring frees nothing.
freed-msgs_outbound_unlink :
    (h : Heap) (p head q : ℕ)
    → Valid h (node_at h p).next
    → Valid h (node_at h p).prev
    → 1 ≤ p
    → 1 ≤ q
    → (node_at (msgs_outbound_unlink p (h, head)).0 q).freed ≡ (node_at h q).freed
unfolding msgs_outbound_unlink
freed-msgs_outbound_unlink h p head q after before hp hq =
    let n = node_at h p in
    let h1 = set_prev h n.next n.prev in
    let same : (node_at h1 p).prev ≡ n.prev =
      prev-set_prev h n.next p n.prev after hp ∙ ground (arith) in
    freed-set_next h1 (node_at h1 p).prev q (node_at h1 p).next
      (subst (Valid h1) (sym same)
        (before.0, omega (arith, before.1, length-set_prev h n.next n.prev)))
      hq
    ∙ freed-set_prev h n.next q n.prev after hq

abbrev pub InUse : Heap → ℕ → Type 0
InUse h p = (node_at h p).freed ≡ false

All-InUse :
    (h h' : Heap) (head : ℕ) (xs : List ℕ)
    → ((x : ℕ) → 1 ≤ x → head ≢ x → (node_at h' x).freed ≡ (node_at h x).freed)
    → All (λ x. head ≢ x) xs
    → All (Valid h) xs
    → All (InUse h) xs
    → All (InUse h') xs
All-InUse h h' head [] same d v u = tt
All-InUse h h' head (x ∷ xs) same (d, ds) (v, vs) (u, us) =
    (same x v.0 d ∙ u, All-InUse h h' head xs same ds vs us)

-- A list is empty or has a last element.
snoc_cases : (xs : List ℕ) → (xs ≡ []) ⊎ ((ys : List ℕ) × (l : ℕ) × (xs ≡ ys ++ l ∷ []))
snoc_cases [] = inl refl
snoc_cases (x ∷ xs) = inr (elim (snoc_cases xs) [
  | inl e ↦ ([], x, ap (◌∷◌ x) e)
  | inr (ys, l, e) ↦ (x ∷ ys, l, ap (◌∷◌ x) e)
])

Within-snoc : (xs : List ℕ) (l : ℕ) → Within l (xs ++ l ∷ [])
Within-snoc [] l = inl refl
Within-snoc (x ∷ xs) l = inr (Within-snoc xs l)

Within-append : (p : ℕ) (xs ys : List ℕ) → Within p xs → Within p (xs ++ ys)
Within-append p [] ys w = absurd w
Within-append p (x ∷ xs) ys (inl e) = inl e
Within-append p (x ∷ xs) ys (inr w) = inr (Within-append p xs ys w)

Within-turn :
    (p head q : ℕ) (xs : List ℕ) (l : ℕ)
    → Within p (l ∷ q ∷ xs)
    → Within p (head ∷ q ∷ (xs ++ l ∷ []))
Within-turn p head q xs l (inl e) =
    inr (inr (subst (λ x. Within x (xs ++ l ∷ [])) (sym e) (Within-snoc xs l)))
Within-turn p head q xs l (inr (inl e)) = inr (inl e)
Within-turn p head q xs l (inr (inr w)) = inr (inr (Within-append p xs (l ∷ []) w))

-- The ring is gone, but a message of it is still in memory.
abbrev pub Leaves : Heap × ℕ → List ℕ → Type 0
Leaves (h, head) ps = (head ≡ 0) × (p : ℕ) × Within p ps × InUse h p

-- Behind the first round the ring has one message less, and what was freed is the first message.
round-InUse :
    (h : Heap) (head to x : ℕ)
    → Valid h (node_at h head).next
    → Valid h (node_at h head).prev
    → Valid h head
    → Valid (msgs_outbound_unlink head (h, to)).0 head
    → 1 ≤ x
    → head ≢ x
    → (node_at (without (msgs_outbound_unlink head (h, to)).0 head) x).freed ≡ (node_at h x).freed
round-InUse h head to x after before v v' hx other =
    freed-without (msgs_outbound_unlink head (h, to)).0 head x 0 v' hx other
    ∙ freed-msgs_outbound_unlink h head to x after before v.0 hx

Valid-unlink : (h : Heap) (p head : ℕ) → Valid h p → Valid (msgs_outbound_unlink p (h, head)).0 p
unfolding msgs_outbound_unlink
Valid-unlink h p head (lo, hi) =
    let n = node_at h p in
    let h1 = set_prev h n.next n.prev in
    (
      lo,
      omega (
        arith,
        hi,
        length-set_prev h n.next n.prev,
        length-set_next h1 (node_at h1 p).prev (node_at h1 p).next,
      ),
    )

-- The heap behind the first round.
abbrev shrunk : Heap → ℕ → Heap
shrunk h head = without (msgs_outbound_unlink head (h, head)).0 head

delete_all_none : (f : ℕ) (h : Heap) → msgs_outbound_delete_all f (h, 0) ≡ (h, 0)
unfolding msgs_outbound_delete_all
delete_all_none zero h = refl
delete_all_none (suc f) h = refl

pair-Leaves :
    (f : ℕ) (h : Heap) (head q : ℕ)
    → IsRing (h, head) (head ∷ q ∷ [])
    → InUse h q
    → Leaves
        (msgs_outbound_delete_all f (shrunk h head, (msgs_outbound_unlink head (h, head)).1))
        (head ∷ q ∷ [])
pair-Leaves f h head q r u =
    let (e, (vh, (vq, _)), ((d, _), _), ((n, b), (m, g))) = r in
    let gone : msgs_outbound_delete_all f (shrunk h head, (msgs_outbound_unlink head (h, head)).1)
        ≡ (shrunk h head, 0) =
      ap (λ (x : ℕ). msgs_outbound_delete_all f (shrunk h head, x))
        (msgs_outbound_unlink_loses h head q r)
      ∙ delete_all_none f (shrunk h head) in
    subst (λ (x : Heap × ℕ). Leaves x (head ∷ q ∷ [])) (sym gone)
      (
        refl,
        q,
        inr (inl refl),
        round-InUse h head head q (subst (Valid h) (sym n) vq) (subst (Valid h) (sym g) vq) vh
              (Valid-unlink h head head vh) vq.0 d
            ∙ u,
      )

-- The ring behind the first round, when there are three messages or more.
shrunk-IsRing :
    (h : Heap) (head q : ℕ) (xs : List ℕ) (l : ℕ)
    → IsRing (h, head) (head ∷ q ∷ (xs ++ l ∷ []))
    → All (InUse h) (head ∷ q ∷ (xs ++ l ∷ []))
    → ((msgs_outbound_unlink head (h, head)).1 ≡ l)
      × IsRing (shrunk h head, l) (l ∷ q ∷ xs)
      × All (InUse (shrunk h head)) (l ∷ q ∷ xs)
shrunk-IsRing h head q xs l r (_, us) =
    let (e, (vh, vs), (ds, _), (c, cs)) = r in
    let (va, vl) = snoc-All (Valid h) (q ∷ xs) l vs in
    let (da, dl) = snoc-All (λ y. head ≢ y) (q ∷ xs) l ds in
    let (ua, ul) = snoc-All (InUse h) (q ∷ xs) l us in
    let (_, (m, g)) = snoc-Chain h head q xs l cs in
    let ring' = msgs_outbound_unlink_first h head q xs l r in
    let to : (msgs_outbound_unlink head (h, head)).1 ≡ l = ring'.0 in
    (
      to,
      without-IsRing (msgs_outbound_unlink head (h, head)).0 head l (l ∷ q ∷ xs)
          (refl, ring'.1, ring'.2, ring'.3),
      All-InUse h (shrunk h head) head (l ∷ q ∷ xs)
          (λ x hx other.
            round-InUse h head head x (subst (Valid h) (sym c.0) va.0) (subst (Valid h) (sym g) vl)
              vh (Valid-unlink h head head vh) hx other)
          (dl, da) (vl, va) (ul, ua),
    )

-- A ring of at least two messages in memory is deleted, with a round for each message or more. Then the
-- loop of `msgsOutboundDeleteAll` ends with `msgsOutbound` NULL, and a message of the ring is still in
-- memory.
pub msgs_outbound_delete_all-leaks :
    (f : ℕ) (h : Heap) (head q : ℕ) (ps : List ℕ)
    → IsRing (h, head) (head ∷ q ∷ ps)
    → All (InUse h) (head ∷ q ∷ ps)
    → length ps + 2 ≤ f
    → Leaves (msgs_outbound_delete_all f (h, head)) (head ∷ q ∷ ps)
unfolding msgs_outbound_delete_all msg_outbound_delete
msgs_outbound_delete_all-leaks zero h head q ps r u enough = absurd (omega (arith, enough))
msgs_outbound_delete_all-leaks (suc f) h head q ps r u enough =
    let some_head : (head == 0) ≡ false = ground (arith, r.1.0.0) in
    let goal : List ℕ → Type 0 = λ xs.
      Leaves (msgs_outbound_delete_all f (shrunk h head, (msgs_outbound_unlink head (h, head)).1))
        (head ∷ q ∷ xs) in
    rw some_head (elim (snoc_cases ps) [
      | inl e ↦
          subst goal (sym e)
            (pair-Leaves f h head q (subst (λ xs. IsRing (h, head) (head ∷ q ∷ xs)) e r) u.1.0)
      | inr (ys, l, e) ↦
          let (to, ring', u') =
            shrunk-IsRing h head q ys l (subst (λ xs. IsRing (h, head) (head ∷ q ∷ xs)) e r)
              (subst (λ xs. All (InUse h) (head ∷ q ∷ xs)) e u) in
          let n : length ps ≡ length ys + 1 = ap length e ∙ length-append ys (l ∷ []) in
          let (gone, p, w, used) =
            msgs_outbound_delete_all-leaks f (shrunk h head) l q ys ring' u' (omega (arith, n)) in
          subst goal (sym e) (
            subst
              (λ x.
                Leaves (msgs_outbound_delete_all f (shrunk h head, x)) (head ∷ q ∷ (ys ++ l ∷ [])))
              (sym to) (gone, p, Within-turn p head q ys l w, used))
    ])
