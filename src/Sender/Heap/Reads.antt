-- ===== src/Sender/Heap/Reads.antt =====
-- What is read behind a write of a link of a message.
use tox_defragmenter.Prelude.{
  ℕ, ◌-◌, ◌≤◌, ◌≡◌, ◌==◌, if◌then◌else◌, arith, Bool-cases, inl, inr, ◌∙◌, ap, length,
  get_or-set_self, get_or-set_ne, length-set,
}
use tox_defragmenter.Sender.Heap.{Heap, Node, node_at, set_node, set_next, set_prev, no_node}

-- `p` is the address of a message in memory.
abbrev pub Valid : Heap → ℕ → Type 0
Valid h p = (1 ≤ p) × (p ≤ length h)

pub node-set :
    (h : Heap) (p q : ℕ) (n : Node)
    → Valid h p
    → 1 ≤ q
    → node_at (set_node h p n) q ≡ (if p == q then n else node_at h q)
node-set h p q n (lo, hi) hq = elim (Bool-cases (p == q)) [
  | inl same ↦
      let e : q - 1 ≡ p - 1 = ground arith in
      rw (same, e) (get_or-set_self h (p - 1) n no_node (omega arith))
  | inr other ↦ rw other (get_or-set_ne h (p - 1) (q - 1) n no_node (ground arith))
]

-- Reads behind a write of a link.
module _ (h : Heap) (p q v : ℕ) (hp : Valid h p) (hq : 1 ≤ q) where
  pub next-set_next : (node_at (set_next h p v) q).next ≡ (if p == q then v else (node_at h q).next)
  unfolding set_next
  next-set_next = ground (arith, node-set h p q (record (node_at h p) { next = v }) hp hq)

  pub prev-set_next : (node_at (set_next h p v) q).prev ≡ (node_at h q).prev
  unfolding set_next
  prev-set_next =
      ap (λ (n : Node). n.prev) (node-set h p q (record (node_at h p) { next = v }) hp hq)
      ∙ elim (Bool-cases (p == q)) [
        | inl same ↦ let e : p ≡ q = ground arith in rw same (ap (λ r. (node_at h r).prev) e)
        | inr other ↦ rw other
      ]

  pub next-set_prev : (node_at (set_prev h p v) q).next ≡ (node_at h q).next
  unfolding set_prev
  next-set_prev =
      ap (λ (n : Node). n.next) (node-set h p q (record (node_at h p) { prev = v }) hp hq)
      ∙ elim (Bool-cases (p == q)) [
        | inl same ↦ let e : p ≡ q = ground arith in rw same (ap (λ r. (node_at h r).next) e)
        | inr other ↦ rw other
      ]

  pub prev-set_prev : (node_at (set_prev h p v) q).prev ≡ (if p == q then v else (node_at h q).prev)
  unfolding set_prev
  prev-set_prev = ground (arith, node-set h p q (record (node_at h p) { prev = v }) hp hq)

pub length-set_next : (h : Heap) (p v : ℕ) → length (set_next h p v) ≡ length h
unfolding set_next
length-set_next h p v = length-set h (p - 1) (record (node_at h p) { next = v })

pub length-set_prev : (h : Heap) (p v : ℕ) → length (set_prev h p v) ≡ length h
unfolding set_prev
length-set_prev h p v = length-set h (p - 1) (record (node_at h p) { prev = v })
