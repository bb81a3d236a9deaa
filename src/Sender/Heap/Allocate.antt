-- ===== src/Sender/Heap/Allocate.antt =====
-- A new message: the ring stays, and linking does not change what a message holds.
use tox_defragmenter.Prelude.{
  ℕ, zero, suc, ◌+◌, ◌-◌, ◌<◌, ◌≡◌, ◌≢◌, [], ◌∷◌, ◌++◌, List, ◌==◌, arith, Bool-cases, inl, inr,
  refl, ◌∙◌, ap, length, length-append, false, get_or, set, All,
}
use tox_defragmenter.Sender.Types.{MsgOutbound}
use tox_defragmenter.Sender.Heap.{
  Heap, Node, node_at, msg_at, no_node, set_msg, set_next, set_prev, allocate, link_alone,
  link_behind, msgs_outbound_link,
}
use tox_defragmenter.Sender.Heap.Reads.{Valid}
use tox_defragmenter.Sender.Heap.Ring.{IsRing, frame}
use tox_defragmenter.Sender.Heap.Link.{insert_second, msgs_outbound_link-IsRing}

msg-set :
    (h : Heap) (i j : ℕ) (n : Node)
    → n.msg ≡ (get_or h i no_node).msg
    → (get_or (set h i n) j no_node).msg ≡ (get_or h j no_node).msg
msg-set [] i j n e = refl
msg-set (x ∷ h) zero zero n e = e
msg-set (x ∷ h) zero (suc j) n e = refl
msg-set (x ∷ h) (suc i) zero n e = refl
msg-set (x ∷ h) (suc i) (suc j) n e = msg-set h i j n e

msg-set_next : (h : Heap) (p v q : ℕ) → msg_at (set_next h p v) q ≡ msg_at h q
unfolding set_next
msg-set_next h p v q = msg-set h (p - 1) (q - 1) (record (node_at h p) { next = v }) refl

msg-set_prev : (h : Heap) (p v q : ℕ) → msg_at (set_prev h p v) q ≡ msg_at h q
unfolding set_prev
msg-set_prev h p v q = msg-set h (p - 1) (q - 1) (record (node_at h p) { prev = v }) refl

-- Linking changes no message.
msg-link : (h : Heap) (head p q : ℕ) → msg_at (msgs_outbound_link p (h, head)).0 q ≡ msg_at h q
unfolding msgs_outbound_link link_alone link_behind
msg-link h head p q = elim (Bool-cases (head == 0)) [
  | inl none_yet ↦ rw none_yet (msg-set_prev (set_next h p p) p p q ∙ msg-set_next h p p q)
  | inr some_yet ↦
      let h1 = set_next h p (node_at h head).next in
      let h2 = set_prev h1 p head in
      let h3 = set_prev h2 (node_at h2 head).next p in
      rw some_yet (
        msg-set_next h3 head p q
        ∙ msg-set_prev h2 (node_at h2 head).next p q
        ∙ msg-set_prev h1 p head q
        ∙ msg-set_next h p (node_at h head).next q)
]

get_or-append_old :
    (h k : Heap) (i : ℕ) → i < length h → get_or (h ++ k) i no_node ≡ get_or h i no_node
get_or-append_old [] k i l = elim l [ ]
get_or-append_old (x ∷ h) k zero l = refl
get_or-append_old (x ∷ h) k (suc i) l = get_or-append_old h k i (omega arith)

get_or-append_new : (h : Heap) (n : Node) → get_or (h ++ n ∷ []) (length h) no_node ≡ n
get_or-append_new [] n = refl
get_or-append_new (x ∷ h) n = get_or-append_new h n

module _ (h : Heap) (m : MsgOutbound) where
  abbrev pub grown : Heap
  grown = (allocate m h).0

  length-grown : length grown ≡ length h + 1
  unfolding allocate
  length-grown = length-append h _

  pub node_kept : (q : ℕ) → Valid h q → node_at grown q ≡ node_at h q
  unfolding allocate
  node_kept q v = get_or-append_old h _ (q - 1) (omega (arith, v.0, v.1))

  msg_new : msg_at grown (length h + 1) ≡ m
  unfolding allocate
  msg_new =
      let e : length h + 1 - 1 ≡ length h = omega arith in
      ap (λ i. (get_or grown i no_node).msg) e ∙ ap (λ (n : Node). n.msg) (get_or-append_new h _)

  All-Valid : (xs : List ℕ) → All (Valid h) xs → All (Valid grown) xs
  All-Valid [] v = tt
  All-Valid (x ∷ xs) (v, vs) = ((v.0, omega (arith, v.1, length-grown)), All-Valid xs vs)

  All-old : (xs : List ℕ) → All (Valid h) xs → All (λ q. length h + 1 ≢ q) xs
  All-old [] v = tt
  All-old (x ∷ xs) (v, vs) = ((λ e. absurd (omega (arith, e, v.1))), All-old xs vs)

  All-next :
      (xs : List ℕ) → All (Valid h) xs → All (λ q. (node_at grown q).next ≡ (node_at h q).next) xs
  All-next [] v = tt
  All-next (x ∷ xs) (v, vs) = (ap (λ (n : Node). n.next) (node_kept x v), All-next xs vs)

  All-prev :
      (xs : List ℕ) → All (Valid h) xs → All (λ q. (node_at grown q).prev ≡ (node_at h q).prev) xs
  All-prev [] v = tt
  All-prev (x ∷ xs) (v, vs) = (ap (λ (n : Node). n.prev) (node_kept x v), All-prev xs vs)

  pub grown-IsRing : (head : ℕ) (xs : List ℕ) → IsRing (h, head) xs → IsRing (grown, head) xs
  grown-IsRing head [] e = e
  grown-IsRing head (x ∷ xs) (e, (v, vs), d, c) = (
    e,
    All-Valid (x ∷ xs) (v, vs),
    d,
    frame h grown x x xs (All-next (x ∷ xs) (v, vs)) (All-prev xs vs)
        (ap (λ (n : Node). n.prev) (node_kept x v)) c,
  )

  pub ring-Valid : (head : ℕ) (xs : List ℕ) → IsRing (h, head) xs → All (Valid h) xs
  ring-Valid head [] e = tt
  ring-Valid head (x ∷ xs) (e, v, d, c) = v

  -- A message is allocated and linked: it stands behind the first message of the ring, or is the
  -- only one, the others keep their order, and it holds what it was made with.
  pub allocate-link :
      (head : ℕ) (xs : List ℕ)
      → IsRing (h, head) xs
      → let after = msgs_outbound_link (length h + 1) (grown, head) in
        IsRing after (insert_second (length h + 1) xs) × (msg_at after.0 (length h + 1) ≡ m)
  allocate-link head xs r =
      let old = ring-Valid head xs r in
      (
        msgs_outbound_link-IsRing grown head (length h + 1) xs (grown-IsRing head xs r)
            (omega arith, omega (arith, length-grown)) (All-old xs old),
        msg-link grown head (length h + 1) (length h + 1) ∙ msg_new,
      )

set-append_last : (h : Heap) (n n' : Node) → set (h ++ n ∷ []) (length h) n' ≡ h ++ n' ∷ []
set-append_last [] n n' = refl
set-append_last (x ∷ h) n n' = ap (◌∷◌ x) (set-append_last h n n')

-- What is written to a new message might have been allocated.
pub set_msg-allocate :
    (h : Heap) (m m' : MsgOutbound) → set_msg (allocate m h).0 (length h + 1) m' ≡ (allocate m' h).0
unfolding set_msg allocate
set_msg-allocate h m m' =
    let new : Node = record { prev = 0; next = 0; msg = m; freed = false } in
    let e : length h + 1 - 1 ≡ length h = omega arith in
    let same : node_at (h ++ new ∷ []) (length h + 1) ≡ new =
      ap (λ i. get_or (h ++ new ∷ []) i no_node) e ∙ get_or-append_new h new in
    ap (λ i. set (h ++ new ∷ []) i (record (node_at (h ++ new ∷ []) (length h + 1)) { msg = m' })) e
    ∙ set-append_last h new (record (node_at (h ++ new ∷ []) (length h + 1)) { msg = m' })
    ∙ ap (λ (n : Node). h ++ record n { msg = m' } ∷ []) same
