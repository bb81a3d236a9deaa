-- ===== src/Sender/Heap/Link.antt =====
-- `msgsOutboundLink` puts a message into the ring.
use tox_defragmenter.Prelude.{
  subst, ℕ, ◌≤◌, ◌≡◌, ◌≢◌, [], ◌∷◌, List, false, ◌==◌, if◌then◌else◌, arith, refl, ◌∙◌, ap, sym,
  length, All,
}
use tox_defragmenter.Sender.Heap.{
  link_behind, link_alone, Heap, node_at, set_next, set_prev, msgs_outbound_link,
}
use tox_defragmenter.Sender.Heap.Reads.{
  Valid, next-set_next, prev-set_next, next-set_prev, prev-set_prev, length-set_next,
  length-set_prev,
}
use tox_defragmenter.Sender.Heap.Ring.{Linked, IsRing, frame}

-- The ring with a new address behind the first one.
abbrev pub insert_second : ℕ → List ℕ → List ℕ
insert_second p [] = p ∷ []
insert_second p (x ∷ xs) = x ∷ p ∷ xs

module _ (h : Heap) (head p n : ℕ) (hh : Valid h head) (hp : Valid h p) (hn : Valid h n)
    (en : (node_at h head).next ≡ n) (new : p ≢ head) where
  abbrev linked : Heap
  linked = link_behind p head h

  -- The links behind the first branch of `msgsOutboundLink`.
  link_behind_reads :
      (length linked ≡ length h)
      × ((q : ℕ)
          → 1 ≤ q
          → (node_at linked q).next
            ≡ (if head == q then p else if p == q then n else (node_at h q).next))
      × ((q : ℕ)
          → 1 ≤ q
          → (node_at linked q).prev
            ≡ (if n == q then p else if p == q then head else (node_at h q).prev))
  unfolding link_behind
  link_behind_reads =
      let h1 = set_next h p (node_at h head).next in
      let h2 = set_prev h1 p head in
      let h3 = set_prev h2 (node_at h2 head).next p in
      let l1 = length-set_next h p (node_at h head).next in
      let l2 = length-set_prev h1 p head in
      let l3 = length-set_prev h2 (node_at h2 head).next p in
      let l4 = length-set_next h3 head p in
      let v1 : Valid h1 p = (hp.0, omega (arith, l1, hp.1)) in
      let e2 : (node_at h2 head).next ≡ n =
        next-set_prev h1 p head head v1 hh.0
        ∙ next-set_next h p head (node_at h head).next hp hh.0
        ∙ ground (arith, en) in
      let v2 : Valid h2 (node_at h2 head).next =
        (omega (arith, e2, hn.0), omega (arith, e2, l1, l2, hn.1)) in
      let v3 : Valid h3 head = (hh.0, omega (arith, l1, l2, l3, hh.1)) in
      (
        omega (arith, l1, l2, l3, l4),
        λ q hq.
            next-set_next h3 head q p v3 hq
            ∙ ap (λ x. if head == q then p else x)
                (next-set_prev h2 (node_at h2 head).next q p v2 hq
                  ∙ next-set_prev h1 p q head v1 hq
                  ∙ next-set_next h p q (node_at h head).next hp hq
                  ∙ ap (λ x. if p == q then x else (node_at h q).next) en),
        λ q hq.
            prev-set_next h3 head q p v3 hq
            ∙ prev-set_prev h2 (node_at h2 head).next q p v2 hq
            ∙ ap (λ x. if (node_at h2 head).next == q then p else x)
                (prev-set_prev h1 p q head v1 hq
                  ∙ ap (λ x. if p == q then head else x)
                      (prev-set_next h p q (node_at h head).next hp hq))
            ∙ ap (λ x. if x == q then p else if p == q then head else (node_at h q).prev) e2,
      )

link_alone-IsRing : (h : Heap) (p : ℕ) → Valid h p → IsRing (link_alone p h, p) (p ∷ [])
unfolding link_alone
link_alone-IsRing h p v =
    let h1 = set_next h p p in
    let l1 = length-set_next h p p in
    let l2 = length-set_prev h1 p p in
    let v1 : Valid h1 p = (v.0, omega (arith, l1, v.1)) in
    (
      refl,
      ((v.0, omega (arith, l1, l2, v.1)), tt),
      (tt, tt),
      (
        next-set_prev h1 p p p v1 v.0 ∙ next-set_next h p p p v v.0 ∙ ground arith,
        prev-set_prev h1 p p p v1 v.0 ∙ ground arith,
      ),
    )

module _ (h : Heap) (head p n : ℕ) (hh : Valid h head) (hp : Valid h p) (hn : Valid h n)
    (en : (node_at h head).next ≡ n) (new : p ≢ head) (fresh : p ≢ n) where
  abbrev h' : Heap
  h' = link_behind p head h

  still-Valid : (x : ℕ) → Valid h x → Valid h' x
  still-Valid x (lo, hi) = (lo, omega (arith, (link_behind_reads h head p n hh hp hn en new).0))

  All-Valid : (xs : List ℕ) → All (Valid h) xs → All (Valid h') xs
  All-Valid [] vs = tt
  All-Valid (x ∷ xs) (v, vs) = (still-Valid x v, All-Valid xs vs)

  next_kept : (x : ℕ) → 1 ≤ x → head ≢ x → p ≢ x → (node_at h' x).next ≡ (node_at h x).next
  next_kept x low a b = (link_behind_reads h head p n hh hp hn en new).1 x low ∙ ground arith

  prev_kept : (x : ℕ) → 1 ≤ x → n ≢ x → p ≢ x → (node_at h' x).prev ≡ (node_at h x).prev
  prev_kept x low a b = (link_behind_reads h head p n hh hp hn en new).2 x low ∙ ground arith

  All-next_kept :
      (xs : List ℕ)
      → All (Valid h) xs
      → All (λ x. head ≢ x) xs
      → All (λ x. p ≢ x) xs
      → All (λ x. (node_at h' x).next ≡ (node_at h x).next) xs
  All-next_kept [] v a b = tt
  All-next_kept (x ∷ xs) (v, vs) (a, as') (b, bs) =
      (next_kept x v.0 a b, All-next_kept xs vs as' bs)

  All-prev_kept :
      (xs : List ℕ)
      → All (Valid h) xs
      → All (λ x. n ≢ x) xs
      → All (λ x. p ≢ x) xs
      → All (λ x. (node_at h' x).prev ≡ (node_at h x).prev) xs
  All-prev_kept [] v a b = tt
  All-prev_kept (x ∷ xs) (v, vs) (a, as') (b, bs) =
      (prev_kept x v.0 a b, All-prev_kept xs vs as' bs)

  -- The two links that are made.
  head_to_new : Linked h' head p
  head_to_new =
      let (len, nx, pv) = link_behind_reads h head p n hh hp hn en new in
      (nx head hh.0 ∙ ground arith, pv p hp.0 ∙ ground arith)

  new_to_next : Linked h' p n
  new_to_next =
      let (len, nx, pv) = link_behind_reads h head p n hh hp hn en new in
      (nx p hp.0 ∙ ground arith, pv n hn.0 ∙ ground arith)

link_behind-IsRing :
    (h : Heap) (head p : ℕ) (xs : List ℕ)
    → IsRing (h, head) (head ∷ xs)
    → Valid h p
    → All (λ q. p ≢ q) (head ∷ xs)
    → IsRing (link_behind p head h, head) (head ∷ p ∷ xs)
link_behind-IsRing h head p [] (e, (vh, vs), (d, ds), (a, b)) v (new, news) = (
  refl,
  (
    still-Valid h head p head vh v vh a new new head vh,
    (still-Valid h head p head vh v vh a new new p v, tt),
  ),
  ((λ e. new (sym e), tt), (tt, tt)),
  (head_to_new h head p head vh v vh a new new, new_to_next h head p head vh v vh a new new),
)
link_behind-IsRing h head p (q ∷ qs) (e, (vh, (vq, vs)), ((hq, hqs), (dq, ds)), ((a, b), c)) v
      (new, (nq, news)) =
    (
      refl,
      (
        still-Valid h head p q vh v vq a new nq head vh,
        (
          still-Valid h head p q vh v vq a new nq p v,
          All-Valid h head p q vh v vq a new nq (q ∷ qs) (vq, vs),
        ),
      ),
      ((λ e. new (sym e), (hq, hqs)), ((nq, news), (dq, ds))),
      (
        head_to_new h head p q vh v vq a new nq,
        (
          new_to_next h head p q vh v vq a new nq,
          frame h (link_behind p head h) head q qs
              (All-next_kept h head p q vh v vq a new nq (q ∷ qs) (vq, vs) (hq, hqs) (nq, news))
              (All-prev_kept h head p q vh v vq a new nq qs vs dq news)
              (prev_kept h head p q vh v vq a new nq head vh.0 (λ e. hq (sym e)) new) c,
        ),
      ),
    )

link_to_some :
    (h : Heap) (head p : ℕ)
    → 1 ≤ head
    → msgs_outbound_link p (h, head) ≡ (link_behind p head h, head)
unfolding msgs_outbound_link
link_to_some h head p low =
    let some_head : (head == 0) ≡ false = ground (arith, low) in rw some_head

link_to_none : (h : Heap) (p : ℕ) → msgs_outbound_link p (h, 0) ≡ (link_alone p h, p)
unfolding msgs_outbound_link
link_to_none h p = refl

-- A message in memory that is not in the ring is linked: `msgsOutboundLink` puts it behind the first
-- message of the ring, or makes it the only one, and keeps the order of the others.
pub msgs_outbound_link-IsRing :
    (h : Heap) (head p : ℕ) (xs : List ℕ)
    → IsRing (h, head) xs
    → Valid h p
    → All (λ q. p ≢ q) xs
    → IsRing (msgs_outbound_link p (h, head)) (insert_second p xs)
msgs_outbound_link-IsRing h head p [] e v new =
    subst (λ r. IsRing r (p ∷ []))
      (sym (ap (λ a. msgs_outbound_link p (h, a)) e ∙ link_to_none h p)) (link_alone-IsRing h p v)
msgs_outbound_link-IsRing h head p (x ∷ xs) (e, (vx, vs), d, c) v new =
    subst (λ r. IsRing r (x ∷ p ∷ xs))
      (sym (ap (λ a. msgs_outbound_link p (h, a)) e ∙ link_to_some h x p vx.0))
      (link_behind-IsRing h x p xs (refl, (vx, vs), d, c) v new)
