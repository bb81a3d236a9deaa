-- ===== src/Sender/Heap/Free.antt =====
-- What stays of the ring when a message is freed.
use tox_defragmenter.Prelude.{
  ℕ, zero, suc, ◌-◌, ◌≡◌, [], ◌∷◌, List, true, refl, arith, length, length-set, get_or, set, All,
}
use tox_defragmenter.Sender.Heap.{Heap, Node, node_at, no_node, msg_outbound_delete}
use tox_defragmenter.Sender.Heap.Reads.{Valid}
use tox_defragmenter.Sender.Heap.Ring.{IsRing, frame}

links-set :
    (h : Heap) (i j : ℕ) (n : Node)
    → n.next ≡ (get_or h i no_node).next
    → n.prev ≡ (get_or h i no_node).prev
    → ((get_or (set h i n) j no_node).next ≡ (get_or h j no_node).next)
      × ((get_or (set h i n) j no_node).prev ≡ (get_or h j no_node).prev)
links-set [] i j n a b = (refl, refl)
links-set (x ∷ h) zero zero n a b = (a, b)
links-set (x ∷ h) zero (suc j) n a b = (refl, refl)
links-set (x ∷ h) (suc i) zero n a b = (refl, refl)
links-set (x ∷ h) (suc i) (suc j) n a b = links-set h i j n a b

module _ (h : Heap) (p : ℕ) where
  abbrev pub without : Heap
  without = msg_outbound_delete p h

  pub links_kept :
      (q : ℕ)
      → ((node_at without q).next ≡ (node_at h q).next)
        × ((node_at without q).prev ≡ (node_at h q).prev)
  unfolding msg_outbound_delete
  links_kept q = links-set h (p - 1) (q - 1) (record (node_at h p) { freed = true }) refl refl

  length-without : length without ≡ length h
  unfolding msg_outbound_delete
  length-without = length-set h (p - 1) (record (node_at h p) { freed = true })

  All-Valid : (xs : List ℕ) → All (Valid h) xs → All (Valid without) xs
  All-Valid [] v = tt
  All-Valid (x ∷ xs) (v, vs) = ((v.0, omega (arith, v.1, length-without)), All-Valid xs vs)

  All-next : (xs : List ℕ) → All (λ q. (node_at without q).next ≡ (node_at h q).next) xs
  All-next [] = tt
  All-next (x ∷ xs) = ((links_kept x).0, All-next xs)

  All-prev : (xs : List ℕ) → All (λ q. (node_at without q).prev ≡ (node_at h q).prev) xs
  All-prev [] = tt
  All-prev (x ∷ xs) = ((links_kept x).1, All-prev xs)

  -- Freeing a message that is out of the ring leaves the ring.
  pub without-IsRing : (head : ℕ) (xs : List ℕ) → IsRing (h, head) xs → IsRing (without, head) xs
  without-IsRing head [] e = e
  without-IsRing head (x ∷ xs) (e, v, d, c) = (
    e,
    All-Valid (x ∷ xs) v,
    d,
    frame h without x x xs (All-next (x ∷ xs)) (All-prev xs) (links_kept x).1 c,
  )
