-- ===== src/Receiver/Reassembly.antt =====
-- A long message on its way from `splitMessage` to the client of the receiver, its fragments in any
-- order.
use mathlib.Core.List.{flatten}
use tox_defragmenter.Prelude.{
  AllDiffer, length-replicate, ℕ, ◌+◌, ◌^◌, ◌≤◌, ◌<◌, [], ◌∷◌, Bool, true, false, Bytes, ◌≡◌, ◌≢◌,
  refl, subst, ◌∙◌, arith, inl, inr, Bool-cases, ◌==◌, List, Option, none, some, length, get_or,
  set, replicate, map, ◌++◌, All, get_or-set_ne,
}
use tox_defragmenter.Database.Types.{DataRow, Db, Result, ok, aborted, ◌>>=◌}
use tox_defragmenter.Database.Inbound.{Ready, db_insert_inbound_fragment}
use tox_defragmenter.Sender.Types.{Fragment}
use tox_defragmenter.Sender.Send.{no_fragment}
use tox_defragmenter.Sender.Split.Correct.{AllReadBack}
use tox_defragmenter.Receiver.{ClientMessage, forward, friend_message_cb}
use tox_defragmenter.Receiver.Mask.{piece, arrived, count, count-set, count_none, arrived_none}
use tox_defragmenter.Receiver.Store.{fragment_of, Receiving}
use tox_defragmenter.Receiver.Phase.{
  Phase, absent, partial, finished, Holds, IsFinished, next_phase, accept, Comes,
}
use tox_defragmenter.Receiver.Insert.{IsTaken, db_insert_inbound_fragment-Comes}
use tox_defragmenter.Receiver.Wire.{wire, AllReadBack-get, friend_message_cb-insert}

abbrev pub given : Option ClientMessage → List ClientMessage
given none = []
given (some m) = m ∷ []

module _ (new_rowid : List DataRow → ℕ) (friend type : ℕ) where
  -- The fragments arrive one after the other, each at its time; the messages that the client is given.
  unfoldable pub receive_all : List (ℕ × Fragment) → Db → Result (Db × List ClientMessage)
  receive_all [] db = ok (db, [])
  receive_all ((now, f) ∷ fs) db =
      friend_message_cb new_rowid friend type (wire f) f.size now db >>= λ r.
      receive_all fs r.0 >>= λ rest. ok (rest.0, given r.1 ++ rest.1)

abbrev pub arrivals : List Fragment → List (ℕ × ℕ) → List (ℕ × Fragment)
arrivals fs [] = []
arrivals fs ((now, k) ∷ ks) = (now, get_or fs k no_fragment) ∷ arrivals fs ks

abbrev pub parts : List (ℕ × ℕ) → List ℕ
parts = map (λ a. a.1)

-- The result of a whole run: the client has been given the message, once, and only the metadata of
-- the message is left.
abbrev pub Delivered :
    (friend type id : ℕ) (message : Bytes) → Result (Db × List ClientMessage) → Type 0
Delivered friend type id message aborted = ⊥
Delivered friend type id message (ok (db, ms)) =
    IsFinished friend id db
    × (ms ≡ record { friend_number = friend; type = type; message = message } ∷ [])

module _ (new_rowid : List DataRow → ℕ) (rowids : (rows : List DataRow) → 1 ≤ new_rowid rows)
    (max_length friend type id : ℕ) (ps : List Bytes) (fs : List Fragment)
    (small : length (flatten ps) < 2 ^ 31)
    (filled : (k : ℕ) → k < length ps → 1 ≤ length (piece k ps))
    (reads : AllReadBack max_length id (length ps) (length (flatten ps)) 1 0 ps fs) where
  abbrev run : List (ℕ × ℕ) → Db → Result (Db × List ClientMessage)
  run ks = receive_all new_rowid friend type (arrivals fs ks)

  nothing_given :
      (res : Result (Db × List ClientMessage))
      → Delivered friend type id (flatten ps) res
      → Delivered friend type id (flatten ps) (res >>= λ x. ok (x.0, [] ++ x.1))
  nothing_given aborted d = d
  nothing_given (ok (db, ms)) d = d

  -- What the rest of the run makes of the result for one fragment.
  abbrev after : List (ℕ × ℕ) → Result (Db × Option Ready) → Result (Db × List ClientMessage)
  after ks res =
      (res >>= λ (r : Db × Option Ready). ok (r.0, forward r.1))
      >>= λ (r : Db × Option ClientMessage). run ks r.0 >>= λ rest. ok (rest.0, given r.1 ++ rest.1)

  settle_more :
      (ks : List (ℕ × ℕ)) (bs : List Bool) (res : Result (Db × Option Ready))
      → Comes friend id ps type (partial bs, false) res
      → ((db : Db)
          → Receiving friend id ps bs db
          → Delivered friend type id (flatten ps) (run ks db))
      → Delivered friend type id (flatten ps) (after ks res)
  settle_more ks bs aborted c go = absurd c
  settle_more ks bs (ok (db, r)) (v, e) go = rw e (nothing_given (run ks db) (go db v))

  settle_last :
      (ks : List (ℕ × ℕ)) (res : Result (Db × Option Ready))
      → Comes friend id ps type (finished, true) res
      → length ks ≡ 0
      → Delivered friend type id (flatten ps) (after ks res)
  unfolding receive_all
  settle_last [] aborted c e = c
  settle_last [] (ok (db, r)) (v, (m, due, text, t, from)) e = rw due (v, rw (text, t, from) refl)
  settle_last (k ∷ ks) res c e = absurd (omega arith)

  settle :
      (ks : List (ℕ × ℕ)) (bs : List Bool) (k : ℕ) (res : Result (Db × Option Ready))
      → Comes friend id ps type (accept (length ps) bs k) res
      → arrived k bs ≡ false
      → count (set bs k true) + length ks ≡ length ps
      → ((db : Db)
          → Receiving friend id ps (set bs k true) db
          → 1 ≤ length ks
          → Delivered friend type id (flatten ps) (run ks db))
      → Delivered friend type id (flatten ps) (after ks res)
  unfolding accept
  settle ks bs k res c new n go = elim (Bool-cases (count (set bs k true) == length ps)) [
    | inl all ↦
        settle_last ks res
          (subst (λ p. Comes friend id ps type p res) {y = (finished, true)} (ground arith) c)
          (ground arith)
    | inr less ↦
        settle_more ks (set bs k true) res
          (subst (λ p. Comes friend id ps type p res) {y = (partial (set bs k true), false)}
            (ground arith) c)
          (λ db v. go db v (ground arith))
  ]

  -- One fragment whose piece is missing.
  advance :
      (phase : Phase) (bs : List Bool) (now k : ℕ) (ks : List (ℕ × ℕ)) (db : Db)
      (inside : k < length ps)
      → next_phase (length ps) phase k ≡ accept (length ps) bs k
      → Holds friend id ps phase db
      → IsTaken friend id ps small k inside (filled k inside) type now new_rowid phase
      → arrived k bs ≡ false
      → count (set bs k true) + length ks ≡ length ps
      → ((db : Db)
          → Receiving friend id ps (set bs k true) db
          → 1 ≤ length ks
          → Delivered friend type id (flatten ps) (run ks db))
      → Delivered friend type id (flatten ps) (run ((now, k) ∷ ks) db)
  unfolding receive_all
  advance phase bs now k ks db inside next h taken new n go =
      let r =
        AllReadBack-get max_length id (length ps) (length (flatten ps)) ps fs 1 0 k reads inside in
      let f = get_or fs k no_fragment in
      let came =
        db_insert_inbound_fragment-Comes friend id ps small k inside (filled k inside) type now
          new_rowid phase db h taken (rowids db.rows) in
      rw
        (friend_message_cb-insert new_rowid max_length friend type id now ps k f small inside
          (filled k inside) db r)
        (settle ks bs k _
          (subst
            (λ p.
              Comes friend id ps type p
                (db_insert_inbound_fragment new_rowid (fragment_of friend id type now ps k) db))
            next came)
          new n go)

  -- Marking one of different pieces leaves the others missing.
  still_missing :
      (k : ℕ) (bs : List Bool) (ks : List ℕ)
      → All (λ j. k ≢ j) ks
      → All (λ j. arrived j bs ≡ false) ks
      → All (λ j. arrived j (set bs k true) ≡ false) ks
  still_missing k bs [] d m = tt
  still_missing k bs (j ∷ ks) (n, d) (e, m) =
      (get_or-set_ne bs k j true false n ∙ e, still_missing k bs ks d m)

  next_absent :
      (k : ℕ) → next_phase (length ps) absent k ≡ accept (length ps) (replicate (length ps) false) k
  unfolding next_phase
  next_absent k = refl

  next_partial :
      (bs : List Bool) (k : ℕ) → next_phase (length ps) (partial bs) k ≡ accept (length ps) bs k
  unfolding next_phase
  next_partial bs k = refl

  receive_partial :
      (ks : List (ℕ × ℕ)) (bs : List Bool) (db : Db)
      → Receiving friend id ps bs db
      → AllDiffer (parts ks)
      → All (λ k. k < length ps) (parts ks)
      → All (λ k. arrived k bs ≡ false) (parts ks)
      → count bs + length ks ≡ length ps
      → 1 ≤ length ks
      → Delivered friend type id (flatten ps) (run ks db)
  receive_partial [] bs db v d b m c n = absurd (omega arith)
  receive_partial ((now, k) ∷ ks) bs db v (d, ds) (b, bounds) (m, ms) c n =
      let c' = count-set k bs (omega (arith, v.marks)) m in
      advance (partial bs) bs now k ks db b (next_partial bs k) v (inl m) m (omega arith)
        (λ db' v' n'.
          receive_partial ks (set bs k true) db' v' ds bounds (still_missing k bs (parts ks) d ms)
            (omega arith) n')

  All-missing : (n : ℕ) (ks : List ℕ) → All (λ k. arrived k (replicate n false) ≡ false) ks
  All-missing n [] = tt
  All-missing n (k ∷ ks) = (arrived_none n k, All-missing n ks)

  -- From a database without a trace of the message, fragments of all its pieces in any order give the
  -- client the message, once, and leave its metadata alone.
  pub run-Delivered :
      (ks : List (ℕ × ℕ)) (db : Db)
      → Holds friend id ps absent db
      → AllDiffer (parts ks)
      → All (λ k. k < length ps) (parts ks)
      → length ks ≡ length ps
      → 1 ≤ length ks
      → Delivered friend type id (flatten ps) (run ks db)
  run-Delivered [] db h d b c n = absurd (omega arith)
  run-Delivered ((now, k) ∷ ks) db h (d, ds) (b, bounds) c n =
      let bs = replicate (length ps) false in
      let none_yet = count_none (length ps) in
      let c' =
        count-set k bs (omega (arith, length-replicate (length ps) false))
          (arrived_none (length ps) k) in
      advance absent bs now k ks db b (next_absent k) h tt (arrived_none (length ps) k)
        (omega arith)
        (λ db' v' n'.
          receive_partial ks (set bs k true) db' v' ds bounds
            (still_missing k bs (parts ks) d (All-missing (length ps) (parts ks))) (omega arith) n')
