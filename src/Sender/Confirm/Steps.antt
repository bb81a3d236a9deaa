-- ===== src/Sender/Confirm/Steps.antt =====
-- What a receipt does to the message and to its rows, and what happens to a receipt that is unknown.
use tox_defragmenter.Prelude.{
  ℕ, zero, suc, ◌-◌, ◌^◌, ◌≤◌, ◌<◌, ◌≡◌, ◌≢◌, [], ◌∷◌, List, true, false, ◌==◌, if◌then◌else◌,
  arith, inl, inr, refl, sym, ◌∙◌, ap, subst, length, get_or, set, length-set, none, Option-cases,
  Bytes, All,
}
use tox_defragmenter.Database.Types.{Db, Result, ok, ◌>>=◌}
use tox_defragmenter.Database.Waiting.{
  count_set, count_set-set, Waiting, db_outbound_part_confirmed-Waiting,
}
use tox_defragmenter.Sender.Types.{Fragment, MsgOutbound, ReceiptRecord}
use tox_defragmenter.Sender.Receipts.{Table, receipt_at, find_receipt}
use tox_defragmenter.Sender.Channel.{Tox, Channel, get_curr_time_ms, give_receipt}
use tox_defragmenter.Sender.Heap.{Heap, Node, msg_at, node_at, set_msg}
use tox_defragmenter.Sender.Heap.Reads.{Valid, node-set}
use tox_defragmenter.Sender.Send.{no_fragment, fragment_at}
use tox_defragmenter.Sender.State.{State}
use tox_defragmenter.Sender.Confirm.{
  in_range, pending_record, confirm_part, note_confirmed, try_process_receipt,
  friend_read_receipt_cb,
}

-- A message in memory agrees with the confirmations that the database holds.
pub record InStep (m : MsgOutbound) (cs : Bytes) : Type 0 where
  pub marks : (i : ℕ) → (fragment_at m i).confirmed ≡ get_or cs i 0
  pub count : m.num_confirmed ≡ count_set cs
  pub parts : length cs ≡ m.num_parts
  pub whole : length m.fragments ≡ m.num_parts

confirm_marks :
    (fs : List Fragment) (cs : Bytes) (i j : ℕ) (f : Fragment)
    → length fs ≡ length cs
    → f.confirmed ≡ 1
    → ((k : ℕ) → (get_or fs k no_fragment).confirmed ≡ get_or cs k 0)
    → (get_or (set fs i f) j no_fragment).confirmed ≡ get_or (set cs i 1) j 0
confirm_marks [] [] i j f e one m = m j
confirm_marks [] (c ∷ cs) i j f e one m = absurd (omega arith)
confirm_marks (g ∷ fs) [] i j f e one m = absurd (omega arith)
confirm_marks (g ∷ fs) (c ∷ cs) zero zero f e one m = one
confirm_marks (g ∷ fs) (c ∷ cs) zero (suc j) f e one m = m (suc j)
confirm_marks (g ∷ fs) (c ∷ cs) (suc i) zero f e one m = m 0
confirm_marks (g ∷ fs) (c ∷ cs) (suc i) (suc j) f e one m =
    confirm_marks fs cs i j f (omega arith) one (λ k. m (suc k))

count_set-le : (cs : Bytes) → count_set cs ≤ length cs
unfolding count_set
count_set-le [] = omega arith
count_set-le (c ∷ cs) = ground (arith, count_set-le cs)

-- Confirming a part keeps the message in step.
confirm_part-InStep :
    (i : ℕ) (m : MsgOutbound) (cs : Bytes)
    → InStep m cs
    → i < length cs
    → length cs < 2 ^ 31
    → get_or cs i 0 ≡ 0
    → InStep (confirm_part i m) (set cs i 1)
unfolding confirm_part
confirm_part-InStep i m cs v inside small new =
    let f = record (fragment_at m i) { receipt = 0; confirmed = 1; bytes = none } in
    record {
      marks = λ j. confirm_marks m.fragments cs i j f (v.whole ∙ sym v.parts) refl v.marks;
      count = omega (arith, v.count, count_set-set cs i inside new, count_set-le cs);
      parts = length-set cs i 1 ∙ v.parts;
      whole = length-set m.fragments i f ∙ v.whole;
    }

msg_at-set_msg : (h : Heap) (p : ℕ) (m : MsgOutbound) → Valid h p → msg_at (set_msg h p m) p ≡ m
unfolding set_msg
msg_at-set_msg h p m v =
    let here : (p == p) ≡ true = ground arith in
    let n : Node = record (node_at h p) { msg = m } in
    let same : (if p == p then n else node_at h p) ≡ n = rw here refl in
    ap (λ (n : Node). n.msg) (node-set h p p n v v.0 ∙ same)

-- A receipt confirms a part that was not confirmed, of a message in memory that agrees with its rows.
-- Then the part is confirmed in both, neither aborts, and they still agree: the same parts are marked
-- and counted.
pub note_confirmed-InStep :
    (tox : Tox) (r : ReceiptRecord) (s : State) (type : ℕ) (message : Bytes) (receipt : ℕ)
    (cs : Bytes)
    → let m = msg_at s.heap r.msg in
      Valid s.heap r.msg
      → InStep m cs
      → Waiting m.friend_number m.id type message receipt cs s.db
      → 1 ≤ r.part_no
      → r.part_no ≤ length cs
      → length cs < 2 ^ 31
      → get_or cs (r.part_no - 1) 0 ≡ 0
      → (s' : State) × (note_confirmed tox r s ≡ ok s')
        × InStep (msg_at s'.heap r.msg) (set cs (r.part_no - 1) 1)
        × Waiting m.friend_number m.id type message receipt (set cs (r.part_no - 1) 1) s'.db
        × (s'.channel.table ≡ s.channel.table)
unfolding note_confirmed get_curr_time_ms confirm_part
note_confirmed-InStep tox r s type message receipt cs v step rows lo hi small new =
    let m = msg_at s.heap r.msg in
    let i = r.part_no - 1 in
    let m' = confirm_part i m in
    let (db', runs, held, rows') =
      db_outbound_part_confirmed-Waiting m.friend_number m.id type message receipt r.part_no
        (tox.clock s.channel.readings) cs s.db rows lo hi small new in
    let c : Channel = (get_curr_time_ms tox s.channel).1 in
    let s' : State = record s { heap = set_msg s.heap r.msg m'; channel = c; db = db' } in
    (
      s',
      ap
          (λ (res : Result Db). res >>= λ (db : Db).
            ok (record s { heap = set_msg s.heap r.msg m'; channel = c; db = db }))
          runs,
      subst (λ a. InStep a (set cs i 1)) (sym (msg_at-set_msg s.heap r.msg m' v))
          (confirm_part-InStep i m cs step (omega arith) small new),
      rows',
      refl,
    )

absent_at :
    (slots : List ReceiptRecord) (receipt i : ℕ)
    → receipt ≢ 0
    → All (λ (r : ReceiptRecord). r.receipt ≢ receipt) slots
    → receipt_at slots i ≢ receipt
absent_at [] receipt i z a = λ e. z (sym e)
absent_at (x ∷ slots) receipt zero z (a, rest) = a
absent_at (x ∷ slots) receipt (suc i) z (a, rest) = absent_at slots receipt i z rest

pending_record-none :
    (t : Table) (receipt : ℕ)
    → receipt ≢ 0
    → All (λ (r : ReceiptRecord). r.receipt ≢ receipt) t.slots
    → pending_record t receipt ≡ none
unfolding pending_record
pending_record-none t receipt z a = elim (Option-cases (find_receipt t receipt)) [
  | inl e ↦ rw (e, pending_record) refl
  | inr (i, e) ↦
      let other : (receipt_at t.slots i == receipt) ≡ false =
        ground (arith, absent_at t.slots receipt i z a) in
      rw (e, pending_record) (rw other refl)
]

try_process_receipt-none :
    (tox : Tox) (receipt : ℕ) (s : State)
    → pending_record s.channel.table receipt ≡ none
    → try_process_receipt tox receipt s ≡ ok (in_range s.params receipt, s)
unfolding try_process_receipt
try_process_receipt-none tox receipt s e = rw (e, try_process_receipt) refl

-- A receipt other than 0 that no slot of the table holds changes no message and no row. If its
-- number is in the range of the parameters it is taken for a duplicate and dropped; otherwise it
-- is the client's own, and is handed on.
pub friend_read_receipt_cb-unknown :
    (tox : Tox) (friend receipt : ℕ) (s : State)
    → receipt ≢ 0
    → All (λ (r : ReceiptRecord). r.receipt ≢ receipt) s.channel.table.slots
    → friend_read_receipt_cb tox friend receipt s
      ≡ ok (
          if in_range s.params receipt
          then s
          else record s { channel = give_receipt friend receipt s.channel })
unfolding friend_read_receipt_cb
friend_read_receipt_cb-unknown tox friend receipt s some_no absent =
    rw
      (try_process_receipt-none tox receipt s
        (pending_record-none s.channel.table receipt some_no absent))
      refl
