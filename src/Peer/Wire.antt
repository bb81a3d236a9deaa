-- ===== src/Peer/Wire.antt =====
-- What one peer writes is what the other reads.
use tox_defragmenter.Prelude.{
  ℕ, ◌^◌, ◌<◌, [], ◌∷◌, ◌++◌, Bytes, true, ◌≡◌, ◌≢◌, ◌∙◌, refl, ap, arith, append_assoc, All, ◌==◌,
  length, take_all, none, some, if◌then◌else◌, u32, ltb, List, Option, Bool-cases, inl, inr,
}
use tox_defragmenter.Decimal.{decimal}
use tox_defragmenter.Database.Types.{DataRow}
use tox_defragmenter.Peer.Outcome.{Outcome, done}
use tox_defragmenter.Peer.Packets.{QueuedPacket}
use tox_defragmenter.Peer.Input.Numbers.{read_uint-decimal, read_string-decimal, c_string-All}
use tox_defragmenter.Peer.Output.{limited, on_any_wr}
use tox_defragmenter.Peer.State.{TestPeer}
use tox_defragmenter.Peer.Events.{
  iface_message, iface_case_m, net_message, net_receipt, net_end, net_case_m, net_case_r,
  net_case_e, on_net_rd,
}

-- The bytes of a message that `%.*s` writes whole.
pub record IsText (m : Bytes) : Type 0 where
  pub short : length m < 2 ^ 31
  pub no_zero : All (λ c. c ≢ 0) m

-- What can be told from its text: a message with its length, a receipt, or an end signal.
abbrev MessageFits : Option Bytes → QueuedPacket → Type 0
MessageFits (some m) p = IsText m × (p.msg_length ≡ length m)
MessageFits none p = Unit {0}

pub record IsReadable (p : QueuedPacket) : Type 0 where
  pub message : MessageFits p.msg p
  pub msg_id_fits : p.msg_id < 2 ^ 32
  pub receipt_fits : p.receipt < 2 ^ 32
  pub count_fits : p.cnt_msg_end_signal < 2 ^ 32

pub limited-IsText : (m : Bytes) → IsText m → limited (length m) m ≡ m
unfolding limited
limited-IsText m h =
    let small : ltb (u32 (length m)) (2 ^ 31) ≡ true = ground (arith, h.short) in
    let same : u32 (length m) ≡ length m = omega (arith, h.short) in
    rw (small, same, take_all (length m) m (omega arith)) (c_string-All m h.no_zero)

module _ (my his : ℕ) (clock : ℕ → ℕ) (new_rowid : List DataRow → ℕ) (s : TestPeer)
    (rest : Bytes) where
  net_case_m-text :
      (from id : ℕ) (m : Bytes)
      → from < 2 ^ 32
      → id < 2 ^ 32
      → length m < 2 ^ 31
      → net_case_m my his clock new_rowid
          (b' '
            ∷ (decimal id
                ++ b' '
                  ∷ (decimal from ++ b' ' ∷ (decimal (length m) ++ b' ' ∷ (m ++ b'\n' ∷ rest)))))
          s
        ≡ net_message my his clock new_rowid id from m (record s { net_input = rest })
  unfolding net_case_m
  net_case_m-text from id m hf hi hm =
      rw
        (
          read_uint-decimal b' ' id
              (decimal from ++ b' ' ∷ (decimal (length m) ++ b' ' ∷ (m ++ b'\n' ∷ rest))) refl hi,
          read_uint-decimal b' ' from (decimal (length m) ++ b' ' ∷ (m ++ b'\n' ∷ rest)) refl hf,
          read_string-decimal m rest hm,
        )
        refl

  pub iface_case_m-text :
      (m : Bytes)
      → length m < 2 ^ 31
      → iface_case_m my his clock new_rowid
          (b' ' ∷ (decimal (length m) ++ b' ' ∷ (m ++ b'\n' ∷ rest)))
          s
        ≡ iface_message my his clock new_rowid m (record s { iface_input = rest })
  unfolding iface_case_m
  iface_case_m-text m hm = rw (read_string-decimal m rest hm) refl

  net_case_r-text :
      (id : ℕ)
      → id < 2 ^ 32
      → net_case_r my his clock new_rowid (b' ' ∷ (decimal id ++ b'\n' ∷ rest)) s
        ≡ net_receipt my his clock new_rowid id (record s { net_input = rest })
  unfolding net_case_r
  net_case_r-text id h = rw (read_uint-decimal b'\n' id rest refl h) refl

  net_case_e-text :
      (count : ℕ)
      → count < 2 ^ 32
      → net_case_e my his clock new_rowid (b' ' ∷ (decimal count ++ b'\n' ∷ rest)) s
        ≡ done (net_end my his clock new_rowid count (record s { net_input = rest }))
  unfolding net_case_e
  net_case_e-text count h = rw (read_uint-decimal b'\n' count rest refl h) refl

  -- What a packet that is read does.
  abbrev pub handled : ℕ → QueuedPacket → Outcome TestPeer
  handled from p = elim p.msg [
    | some m ↦ net_message my his clock new_rowid p.msg_id from m (record s { net_input = rest })
    | none ↦
        if p.receipt == 0
        then done
            (net_end my his clock new_rowid p.cnt_msg_end_signal (record s { net_input = rest }))
        else net_receipt my his clock new_rowid p.receipt (record s { net_input = rest })
  ]

  -- The texts with the rest of the stream behind them.
  message_text :
      (from id : ℕ) (m : Bytes)
      → IsText m
      → (b'M'
            ∷ b' '
            ∷ (decimal id
                ++ b' '
                  ∷ (decimal from
                      ++ b' '
                        ∷ (decimal (length m) ++ b' ' ∷ (limited (length m) m ++ b'\n' ∷ [])))))
          ++ rest
        ≡ b'M'
          ∷ b' '
          ∷ (decimal id
              ++ b' ' ∷ (decimal from ++ b' ' ∷ (decimal (length m) ++ b' ' ∷ (m ++ b'\n' ∷ rest))))
  message_text from id m text = rw (limited-IsText m text) (
      ap (λ (t : Bytes). b'M' ∷ b' ' ∷ t)
        (append_assoc (decimal id) _ rest
          ∙ ap (λ (t : Bytes). decimal id ++ b' ' ∷ t)
              (append_assoc (decimal from) _ rest
                ∙ ap (λ (t : Bytes). decimal from ++ b' ' ∷ t)
                    (append_assoc (decimal (length m)) _ rest
                      ∙ ap (λ (t : Bytes). decimal (length m) ++ b' ' ∷ t)
                          (append_assoc m _ rest)))))

  -- Any packet that can be told from its text, which a peer writes to the net, is read by the other peer
  -- as that packet: a message goes to the library with its number, the friend number of the writer and
  -- its bytes, a receipt with its number, and an end signal sets the number of messages to expect. Just
  -- the text is taken from the stream. A message can be told if it is shorter than 2^31 bytes, has no
  -- byte 0, and is given with its length.
  pub on_net_rd-on_any_wr :
      (from : ℕ) (p : QueuedPacket)
      → from < 2 ^ 32
      → IsReadable p
      → on_net_rd my his clock new_rowid (record s { net_input = on_any_wr true from p ++ rest })
        ≡ handled from p
  unfolding on_net_rd on_any_wr
  on_net_rd-on_any_wr from p hf h = by_kind p.msg p.msg_length h.message
    where
      reads : Bytes → Outcome TestPeer
      reads input = on_net_rd my his clock new_rowid (record s { net_input = input })

      by_kind :
          (o : Option Bytes) (length' : ℕ)
          → MessageFits o (record p { msg = o; msg_length = length' })
          → on_net_rd my his clock new_rowid (record s {
            net_input = on_any_wr true from (record p { msg = o; msg_length = length' }) ++ rest;
          })
            ≡ handled from (record p { msg = o; msg_length = length' })
      by_kind (some m) length' (text, e) = rw e (
          ap reads (message_text from p.msg_id m text)
          ∙ net_case_m-text from p.msg_id m hf h.msg_id_fits text.short)
      by_kind none length' _ = elim (Bool-cases (p.receipt == 0)) [
        | inl zero' ↦
            rw (zero', append_assoc (decimal p.cnt_msg_end_signal) (b'\n' ∷ []) rest)
              (net_case_e-text p.cnt_msg_end_signal h.count_fits)
        | inr given ↦
            rw (given, append_assoc (decimal p.receipt) (b'\n' ∷ []) rest)
              (net_case_r-text p.receipt h.receipt_fits)
      ]
