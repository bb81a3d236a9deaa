-- ===== src/Sender/Send/Flow.antt =====
-- Flow control: how many fragments are in transit.
use tox_defragmenter.Prelude.{
  ◌∙◌, max, ℕ, zero, suc, ◌+◌, ◌-◌, ◌^◌, ◌≤◌, ◌<◌, ltb, ◌==◌, u32, ◌≡◌, refl, ◌∙◌, max, ◌&&◌, arith,
  inl, inr, Bool-cases,
}
use tox_defragmenter.Sender.Types.{Params}
use tox_defragmenter.Sender.Channel.{Tox, tox_friend_send_message, get_curr_time_ms}
use tox_defragmenter.Sender.Receipts.Number.{add_receipt-num}
use tox_defragmenter.Sender.Send.{
  packet_of, fragment_at, Flight, msg_send_part, part_sent, send_and_note, send_pass, retry,
  retry_pass, msg_send_next_parts,
}

-- The places in transit and `receiptsNum` go up together, modulo 2^32; what the peer has confirmed is
-- not touched.
pub record Step (before after : Flight) : Type 0 where
  balance :
      u32 (after.0.num_transit + before.1.table.num)
      ≡ u32 (before.0.num_transit + after.1.table.num)
  pub lower : before.0.num_transit ≤ after.0.num_transit
  pub parts : after.0.num_parts ≡ before.0.num_parts
  pub confirmed : after.0.num_confirmed ≡ before.0.num_confirmed
  pub id : after.0.id ≡ before.0.id
  pub friend : after.0.friend_number ≡ before.0.friend_number

stay : (fl : Flight) → Step fl fl
stay fl = record {
  balance = refl;
  lower = omega arith;
  parts = refl;
  confirmed = refl;
  id = refl;
  friend = refl;
}

then-Step : {a b c : Flight} → Step a b → Step b c → Step a c
then-Step s t = record {
  balance = omega (arith, s.balance, t.balance);
  lower = omega (arith, s.lower, t.lower);
  parts = t.parts ∙ s.parts;
  confirmed = t.confirmed ∙ s.confirmed;
  id = t.id ∙ s.id;
  friend = t.friend ∙ s.friend;
}

module _ (tox : Tox) (ptr : ℕ) where
  part_sent-Step :
      (receipt i : ℕ) (fl : Flight)
      → fl.0.num_transit < 2 ^ 32 - 1
      → Step fl (part_sent tox ptr receipt i fl)
        × ((part_sent tox ptr receipt i fl).0.num_transit ≡ fl.0.num_transit + 1)
  unfolding part_sent get_curr_time_ms
  part_sent-Step receipt i (m, c) small =
      let n = add_receipt-num c.table (record {
        receipt = receipt;
        msg = ptr;
        part_no = u32 (i + 1);
        timestamp = tox.clock c.readings;
      }) in
      (
        record {
          balance = omega (arith, n);
          lower = omega arith;
          parts = refl;
          confirmed = refl;
          id = refl;
          friend = refl;
        },
        omega arith,
      )

  msg_send_part-Step :
      (i : ℕ) (fl : Flight)
      → fl.0.num_transit < 2 ^ 32 - 1
      → Step fl (msg_send_part tox ptr i fl).1
        × ((msg_send_part tox ptr i fl).1.0.num_transit ≤ fl.0.num_transit + 1)
  unfolding msg_send_part tox_friend_send_message
  msg_send_part-Step i fl small = elim (Bool-cases (tox.reply fl.1.sends (packet_of fl.0 i) == 0)) [
    | inl failed ↦ rw failed (
      record {
        balance = refl;
        lower = omega arith;
        parts = refl;
        confirmed = refl;
        id = refl;
        friend = refl;
      },
      omega arith,
    )
    | inr done ↦
        let (s, n) =
          part_sent-Step (tox.reply fl.1.sends (packet_of fl.0 i)) i
            (fl.0, (tox_friend_send_message tox (packet_of fl.0 i) fl.1).1) small in
        rw done (
          record {
            balance = s.balance;
            lower = s.lower;
            parts = s.parts;
            confirmed = s.confirmed;
            id = s.id;
            friend = s.friend;
          },
          omega (arith, n),
        )
  ]

  send_and_note-Step :
      (i : ℕ) (fl : Flight)
      → fl.0.num_transit < 2 ^ 32 - 1
      → Step fl (send_and_note tox ptr i fl)
        × ((send_and_note tox ptr i fl).0.num_transit ≤ fl.0.num_transit + 1)
  unfolding send_and_note
  send_and_note-Step i fl small =
      let (s, n) = msg_send_part-Step i fl small in
      elim (Bool-cases (msg_send_part tox ptr i fl).0) [
        | inl done ↦ rw done (
          record {
            balance = s.balance;
            lower = s.lower;
            parts = s.parts;
            confirmed = s.confirmed;
            id = s.id;
            friend = s.friend;
          },
          n,
        )
        | inr failed ↦ rw failed (s, n)
      ]

  retry-Step :
      (i : ℕ) (fl : Flight)
      → fl.0.num_transit < 2 ^ 32 - 1
      → Step fl (retry tox ptr i fl) × ((retry tox ptr i fl).0.num_transit ≤ fl.0.num_transit + 1)
  unfolding retry
  retry-Step i fl small =
      elim (Bool-cases ((fragment_at fl.0 i).receipt == 0 && (fragment_at fl.0 i).confirmed == 0)) [
        | inl due ↦ rw due (msg_send_part-Step i fl small)
        | inr not_due ↦ rw not_due (stay fl, omega arith)
      ]

  module _ (params : Params) (limit : params.fragments_at_a_time < 2 ^ 32) where
    abbrev Bounded : Flight → Flight → Type 0
    Bounded before after =
        Step before after
        × (after.0.num_transit ≤ max before.0.num_transit params.fragments_at_a_time)

    pub send_pass-Bounded : (f i : ℕ) (fl : Flight) → Bounded fl (send_pass tox ptr params f i fl)
    unfolding send_pass
    send_pass-Bounded zero i fl = (stay fl, omega arith)
    send_pass-Bounded (suc f) i fl =
        elim (Bool-cases (ltb fl.0.num_transit params.fragments_at_a_time)) [
          | inl room ↦
              let low : fl.0.num_transit < params.fragments_at_a_time = ground arith in
              let (s, n) = send_and_note-Step i fl (omega arith) in
              let (rest, m) = send_pass-Bounded f (i + 1) (send_and_note tox ptr i fl) in
              rw room (then-Step s rest, omega (arith, n, m))
          | inr full ↦ rw full (stay fl, omega arith)
        ]

    retry_pass-Bounded : (f i : ℕ) (fl : Flight) → Bounded fl (retry_pass tox ptr params f i fl)
    unfolding retry_pass
    retry_pass-Bounded zero i fl = (stay fl, omega arith)
    retry_pass-Bounded (suc f) i fl =
        elim (Bool-cases (
          ltb fl.0.num_transit params.fragments_at_a_time
          && ltb (u32 (fl.0.num_transit + fl.0.num_confirmed)) fl.0.num_parts)) [
            | inl room ↦
                let low : fl.0.num_transit < params.fragments_at_a_time = ground arith in
                let (s, n) = retry-Step i fl (omega arith) in
                let (rest, m) = retry_pass-Bounded f (i + 1) (retry tox ptr i fl) in
                rw room (then-Step s rest, omega (arith, n, m))
            | inr full ↦ rw full (stay fl, omega arith)
          ]

    -- While `fragmentsAtATime` is below 2^32, `msgSendNextParts` leaves no more parts in transit
    -- than that, or than were in transit before. `receiptsNum` goes up, modulo 2^32, by as much as
    -- the parts in transit, which do not become fewer; the number of parts, the count of confirmed ones, the id
    -- and the friend stay.
    pub msg_send_next_parts-Bounded :
        (fl : Flight) → Bounded fl (msg_send_next_parts tox ptr params fl)
    unfolding msg_send_next_parts
    msg_send_next_parts-Bounded fl =
        let first = u32 (fl.0.last_sent + 1) in
        let passed = send_pass tox ptr params (fl.0.num_parts - first) first fl in
        let (s, m) = send_pass-Bounded (fl.0.num_parts - first) first fl in
        let (r, n) = retry_pass-Bounded passed.0.num_parts 0 passed in
        (then-Step s r, omega (arith, m, n))
