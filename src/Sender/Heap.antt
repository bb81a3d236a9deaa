-- ===== src/Sender/Heap.antt =====
-- The outbound messages in memory, and the ring that links them: `msgsOutboundLink`,
-- `msgsOutboundUnlink`, `msgOutboundDelete`.
pub mod Reads
pub mod Ring
pub mod Link
pub mod Unlink
pub mod Removal
pub mod First
pub mod Free
pub mod Leak
pub mod Allocate
use tox_defragmenter.Prelude.{
  ℕ, zero, suc, ◌+◌, ◌-◌, [], ◌∷◌, ◌++◌, Bool, true, false, if◌then◌else◌, ◌==◌, length, get_or,
  set, List,
}
use tox_defragmenter.Sender.Types.{MsgOutbound}

-- `struct msg_outbound` with its links; `freed` is set by `free`.
pub record Node : Type 0 where
  pub prev : ℕ
  pub next : ℕ
  pub msg : MsgOutbound
  pub freed : Bool

-- Address `p` is the place `p - 1` of the list, and 0 is NULL. An address is never given out again.
abbrev pub Heap : Type 0
Heap = List Node

abbrev pub no_msg : MsgOutbound
no_msg = record {
  friend_number = 0;
  id = 0;
  type = 0;
  num_parts = 0;
  fragments = [];
  receipt = 0;
  last_sent = 0;
  num_transit = 0;
  num_confirmed = 0;
  num_loss = 0;
  from_db = 0;
}

abbrev pub no_node : Node
no_node = record { prev = 0; next = 0; msg = no_msg; freed = true }

abbrev pub node_at : Heap → ℕ → Node
node_at h p = get_or h (p - 1) no_node

abbrev pub msg_at : Heap → ℕ → MsgOutbound
msg_at h p = (node_at h p).msg

abbrev pub set_node : Heap → ℕ → Node → Heap
set_node h p n = set h (p - 1) n

unfoldable pub set_next : Heap → ℕ → ℕ → Heap
set_next h p q = set_node h p (record (node_at h p) { next = q })

unfoldable pub set_prev : Heap → ℕ → ℕ → Heap
set_prev h p q = set_node h p (record (node_at h p) { prev = q })

unfoldable pub set_msg : Heap → ℕ → MsgOutbound → Heap
set_msg h p m = set_node h p (record (node_at h p) { msg = m })

-- `NEW(msg_outbound)`: the heap with the new message, and its address.
unfoldable pub allocate : MsgOutbound → Heap → Heap × ℕ
allocate m h = (h ++ record { prev = 0; next = 0; msg = m; freed = false } ∷ [], length h + 1)

-- The two branches of `msgsOutboundLink`: behind the first message, and as the only one.
unfoldable pub link_behind : ℕ → ℕ → Heap → Heap
link_behind p head h =
    let h1 = set_next h p (node_at h head).next in
    let h2 = set_prev h1 p head in
    let h3 = set_prev h2 (node_at h2 head).next p in set_next h3 head p

unfoldable pub link_alone : ℕ → Heap → Heap
link_alone p h = set_prev (set_next h p p) p p

-- The heap and `msgsOutbound`.
unfoldable pub msgs_outbound_link : ℕ → Heap × ℕ → Heap × ℕ
msgs_outbound_link p (h, head) =
    if head == 0 then (link_alone p h, p) else (link_behind p head h, head)

unfoldable pub msgs_outbound_unlink : ℕ → Heap × ℕ → Heap × ℕ
msgs_outbound_unlink p (h, head) =
    let n = node_at h p in
    let head' = if p == head then (if n.next == n.prev then 0 else n.prev) else head in
    let h1 = set_prev h n.next n.prev in
    (set_next h1 (node_at h1 p).prev (node_at h1 p).next, head')

unfoldable pub msg_outbound_delete : ℕ → Heap → Heap
msg_outbound_delete p h = set_node h p (record (node_at h p) { freed = true })

-- `msgsOutboundDeleteAll`, with a bound on the rounds.
unfoldable pub msgs_outbound_delete_all : ℕ → Heap × ℕ → Heap × ℕ
msgs_outbound_delete_all zero (h, head) = (h, head)
msgs_outbound_delete_all (suc f) (h, head) =
    let (h', head') = msgs_outbound_unlink head (h, head) in
    let rest = msgs_outbound_delete_all f (msg_outbound_delete head h', head') in
    if head == 0 then (h, head) else rest

-- `do … while ((m = m->next) != msgsOutbound)`: the addresses that the loop visits, from `p` on, with a
-- bound on the rounds.
pub walk : ℕ → Heap → ℕ → ℕ → List ℕ
walk zero h head p = []
walk (suc f) h head p =
    let q = (node_at h p).next in
    let rest = walk f h head q in if q == head then p ∷ [] else p ∷ rest

-- All messages of the ring, from `msgsOutbound` on.
unfoldable pub ring : Heap × ℕ → List ℕ
ring (h, head) = if head == 0 then [] else walk (length h) h head head
