-- ===== src/Sender/Long/Sends.antt =====
-- `friend_send_message` for a long message, from the split to the stored row.
use tox_defragmenter.Prelude.{
  replicate, ℕ, ◌^◌, ◌≤◌, ◌<◌, ◌≡◌, ◌∷◌, List, false, leb, ◌==◌, refl, sym, ap, ◌∙◌, arith, length,
  map, some, none, Bytes,
}
use tox_defragmenter.Marker.{marker_exists}
use tox_defragmenter.Database.Types.{DataRow, Db, Result, ok, ◌>>=◌, db_lock, db_unlock}
use tox_defragmenter.Database.Statements.{
  find_meta, find_data, insert_data_outbound, insert_meta_outbound, new_meta,
}
use tox_defragmenter.Database.Outbound.{db_insert_outbound_message}
use tox_defragmenter.Sender.Types.{MsgOutbound}
use tox_defragmenter.Sender.Split.{split_message, marker_max_size_ever}
use tox_defragmenter.Sender.Channel.{Tox, get_curr_time_ms}
use tox_defragmenter.Sender.Heap.{allocate, set_msg, msgs_outbound_link, ring}
use tox_defragmenter.Sender.Long.Receipt.{HasReceipt, begun_receipt}
use tox_defragmenter.Sender.Send.InOrder.{
  Accepts, packets, packets_all, log, fragment_packet, send_pass_taken,
}
use tox_defragmenter.Sender.Send.Flow.{send_pass-Bounded}
use tox_defragmenter.Sender.State.{State, generate_msg_id, has_receipt}
use tox_defragmenter.Sender.Long.{
  begin_long, keep_long, friend_send_message_long, friend_send_message,
}

module _ (new_rowid : List DataRow → ℕ) where
  -- The rows that `dbInsertOutboundMessage` makes.
  abbrev pub pending_row : (friend id num_parts : ℕ) (message : Bytes) (receipt : ℕ) → Db → DataRow
  pending_row friend id num_parts message receipt db = record {
    rowid = new_rowid db.rows;
    outbound = 1;
    friend_id = friend;
    frags_id = id;
    message = message;
    confirmed = some (replicate num_parts 0);
    receipt = some receipt;
  }

  insert_outbound_ok :
      (friend type id tm num_parts : ℕ) (message : Bytes) (receipt : ℕ) (db : Db)
      → find_meta 1 friend id db.meta ≡ none
      → find_data 1 friend id db.rows ≡ none
      → db_insert_outbound_message new_rowid friend type id tm num_parts message receipt db
        ≡ ok (record (db_unlock (db_lock db)) {
          meta = new_meta 1 friend type id tm num_parts ∷ db.meta;
          rows = pending_row friend id num_parts message receipt db ∷ db.rows;
        })
  unfolding db_insert_outbound_message insert_data_outbound insert_meta_outbound
  insert_outbound_ok friend type id tm num_parts message receipt db m d = ground (arith, m, d)

module _ (tox : Tox) (new_rowid : List DataRow → ℕ) (friend type : ℕ) (message : Bytes) (s : State)
    (limit : s.params.fragments_at_a_time < 2 ^ 32) where
  abbrev id : ℕ
  id = (generate_msg_id tox s).0

  abbrev msg : MsgOutbound
  msg = split_message s.ever message s.params.max_message_length id

  module _ (whole : length msg.fragments ≡ msg.num_parts)
      (room : msg.num_parts ≤ s.params.fragments_at_a_time)
      (accepts : Accepts tox s.channel.sends msg.num_parts) where
    abbrev begun : (ℕ × MsgOutbound) × State
    begun = begin_long tox new_rowid friend message s

    begin_long_sends :
        (begun.0.1.num_transit ≡ msg.num_parts)
        × (begun.1.channel.events
            ≡ log (map (fragment_packet friend 0) msg.fragments) s.channel.events)
        × (begun.0.1.num_parts ≡ msg.num_parts)
        × (begun.0.1.id ≡ id)
        × (begun.1.db ≡ s.db)
    unfolding begin_long generate_msg_id get_curr_time_ms split_message
    begin_long_sends =
        let s1 = (generate_msg_id tox s).1 in
        let m0 = record msg { friend_number = friend } in
        let ptr = (allocate m0 s1.heap).1 in
        let (events, transit) =
          send_pass_taken tox ptr s.params limit msg.num_parts 0 (m0, s1.channel) accepts
            (omega arith) in
        let (step, _) = send_pass-Bounded tox ptr s.params limit msg.num_parts 0 (m0, s1.channel) in
        let all = packets_all msg.fragments m0 refl in
        (
          transit ∙ omega arith,
          events
              ∙ ap (λ n. log (packets m0 0 n) s.channel.events) (sym whole)
              ∙ ap (λ ps. log ps s.channel.events) all,
          step.parts,
          step.id,
          refl,
        )

    module _ (xs : List ℕ) (receipts : HasReceipt s xs) where
      -- What is promised of the receipt: a number of the range, which no message of the ring has.
      abbrev pub IsNewReceipt : ℕ → Type 0
      IsNewReceipt receipt =
          (has_receipt s.heap (ring (s.heap, s.head)) receipt ≡ false)
          × (s.params.receipt_range_lo ≤ receipt)
          × (receipt ≤ s.params.receipt_range_hi)

      -- The message is kept: it has the type and a receipt, and a row of the database.
      keep_long_ok :
          find_meta 1 friend id s.db.meta ≡ none
          → find_data 1 friend id s.db.rows ≡ none
          → (receipt : ℕ) × (s' : State) × (keep_long tox new_rowid friend type begun.0.0 begun.0.1
                message begun.1
              ≡ ok (receipt, s'))
            × IsNewReceipt receipt
            × (s'.channel.events ≡ begun.1.channel.events)
            × (s'.db.rows
                ≡ pending_row new_rowid friend id msg.num_parts message receipt s.db ∷ s.db.rows)
            × (s'.db.meta ≡ new_meta 1 friend type id id msg.num_parts ∷ s.db.meta)
      unfolding keep_long
      keep_long_ok no_meta no_data =
          let (t, e, n, i, d) = begin_long_sends in
          let s0 = begun.1 in
          let (receipt, found, free, low, high) =
            begun_receipt tox new_rowid friend message s xs receipts in
          let inserted =
            insert_outbound_ok new_rowid friend type id id msg.num_parts message receipt s.db
              no_meta no_data in
          let s1 : State = record s0 { last_receipt = receipt } in
          let linked = msgs_outbound_link begun.0.0 (
            set_msg s1.heap begun.0.0 (record (begun.0.1) { type = type; receipt = receipt }),
            s1.head,
          ) in
          let finish : Db → State = λ db. record s1 { heap = linked.0; head = linked.1; db = db } in
          let moved : db_insert_outbound_message new_rowid friend type begun.0.1.id begun.0.1.id
                begun.0.1.num_parts message receipt s0.db
              ≡ db_insert_outbound_message new_rowid friend type id id msg.num_parts message receipt
                  s.db =
            rw (i, n, d) refl in
          (
            receipt,
            finish (record (db_unlock (db_lock s.db)) {
              meta = new_meta 1 friend type id id msg.num_parts ∷ s.db.meta;
              rows = pending_row new_rowid friend id msg.num_parts message receipt s.db ∷ s.db.rows;
            }),
            rw found (
                ap (λ (res : Result Db). res >>= λ (db : Db). ok (receipt, finish db))
                  (moved ∙ inserted)),
            (free, low, high),
            refl,
            refl,
            refl,
          )

      -- The library is started, the greatest length is more than 63, toxcore takes a packet for each
      -- part, the message is long and carries no marker, all its parts have room in transit, a receipt
      -- of the range is left, and the database has no outbound message with the friend and the new id.
      -- Then the call returns. It sends the fragments of `splitMessage`, one packet each, in order and
      -- as normal messages, whatever the type of the message; it returns a receipt of the range that no
      -- message of the ring has, and the message is stored as pending, with its type, its receipt and
      -- no part confirmed.
      pub friend_send_message-sends :
          s.ever ≡ marker_max_size_ever
          → 63 < s.params.max_message_length
          → marker_exists message (length message) ≡ false
          → s.params.max_message_length < length message
          → 1 ≤ msg.num_parts
          → find_meta 1 friend id s.db.meta ≡ none
          → find_data 1 friend id s.db.rows ≡ none
          → (receipt : ℕ) × (s' : State) × (friend_send_message tox new_rowid friend type message s
              ≡ ok (receipt, s'))
            × IsNewReceipt receipt
            × (s'.channel.events
                ≡ log (map (fragment_packet friend 0) msg.fragments) s.channel.events)
            × (s'.db.rows
                ≡ pending_row new_rowid friend id msg.num_parts message receipt s.db ∷ s.db.rows)
            × (s'.db.meta ≡ new_meta 1 friend type id id msg.num_parts ∷ s.db.meta)
      unfolding friend_send_message friend_send_message_long
      friend_send_message-sends started fits plain long some_part no_meta no_data =
          let (t, e, n, i, d) = begin_long_sends in
          let (receipt, s', kept, new_one, events, rows, meta) = keep_long_ok no_meta no_data in
          let too_long : leb (length message) s.params.max_message_length ≡ false =
            ground (arith, long) in
          let sent_some : (begun.0.1.num_transit == 0) ≡ false = ground (arith, t, some_part) in
          (receipt, s', rw (plain, too_long, sent_some) kept, new_one, events ∙ e, rows, meta)
