-- ===== src/Peer/Growth/Reads.antt =====
-- `onIfaceRD` and `onNetRD`, whatever they read, only put packets behind the queues.
use tox_defragmenter.Prelude.{
  arith, ℕ, ◌+◌, [], ◌∷◌, Bytes, Bool, true, refl, List, Option, none, some, ◌==◌, not, leb, length,
  u32, ◌≡◌, drop, take, if◌then◌else◌,
}
use tox_defragmenter.Decimal.{is_digit}
use tox_defragmenter.Marker.{marker_exists}
use tox_defragmenter.Database.Types.{DataRow}
use tox_defragmenter.Sender.Channel.{get_curr_time_ms}
use tox_defragmenter.Sender.Long.{friend_send_message}
use tox_defragmenter.Sender.Confirm.{friend_read_receipt_cb}
use tox_defragmenter.Receiver.{ClientMessage, friend_message_cb}
use tox_defragmenter.Peer.Outcome.{Outcome, done, abort, bad_access, ◌>>=◌, of_result}
use tox_defragmenter.Peer.Outcome.Post.{Post, Any, Post-bind, Post-if, Post-of_result}
use tox_defragmenter.Peer.Packets.{QueuedPacket, packet_create_receipt, packet_create_end_signal}
use tox_defragmenter.Peer.Input.{
  read_char, skip_char, read_uint_from, read_uint, read_string, shift_in, c_string,
}
use tox_defragmenter.Peer.State.{TestPeer, base_tox, library_goes}
use tox_defragmenter.Peer.Events.{
  iface_message, iface_end, iface_case_m, iface_case_e, on_iface_rd, deliver, net_message,
  net_receipt, net_eof, net_case_m, net_case_r, net_case_e, on_net_rd,
}
use tox_defragmenter.Peer.Growth.{
  Holds, Grown, Grown-start, Grown-same, Grown-then, Grown-net, append_net-Grown,
}
use tox_defragmenter.Peer.Growth.Calls.{front_friend_message-Grown, library_goes-Grown}

skip_char-Post : (skip : ℕ) (s : Bytes) → Post Any (skip_char skip s)
skip_char-Post skip s = Post-if Any ((read_char s).0 == skip) (done (read_char s).1) abort tt tt

read_uint_from-Post : (skip : ℕ) (s : Bytes) (u : ℕ) → Post Any (read_uint_from skip s u)
unfolding read_uint_from
read_uint_from-Post skip [] u = Post-if Any (skip == 0) (done (u, [])) abort tt tt
read_uint_from-Post skip (c ∷ s) u =
    Post-if Any (c == skip) (done (u, s))
      (if is_digit c then read_uint_from skip s (shift_in u c) else abort) tt
      (Post-if Any (is_digit c) (read_uint_from skip s (shift_in u c)) abort
        (read_uint_from-Post skip s (shift_in u c)) tt)

read_string-Post : (skip : ℕ) (s : Bytes) → Post Any (read_string skip s)
unfolding read_string
read_string-Post skip s =
    Post-bind Any Any (read_uint b' ' s) _ (read_uint_from-Post b' ' s 0) (λ size _.
      let rest =
        skip_char skip (drop size.0 size.1) >>= λ (rest : Bytes). done (take size.0 size.1, rest) in
      Post-if Any (u32 (size.0 + 1) == 0) bad_access
        (if not (leb size.0 (length size.1)) then abort else rest) tt
        (Post-if Any (not (leb size.0 (length size.1))) abort rest tt (
          Post-bind Any Any (skip_char skip (drop size.0 size.1)) _
            (skip_char-Post skip (drop size.0 size.1)) (λ _ _. tt))))

module _ (my his : ℕ) (clock : ℕ → ℕ) (new_rowid : List DataRow → ℕ) (s : TestPeer)
    (ps : Bool → List QueuedPacket) (h : Holds s ps) where
  iface_message-Grown :
      (msg : Bytes) → Post (Grown s ps) (iface_message my his clock new_rowid msg s)
  unfolding iface_message
  iface_message-Grown msg =
      Post-bind Any (Grown s ps)
        (of_result (friend_send_message (base_tox clock s) new_rowid his 0 (c_string msg) s.lib)) _
        (Post-of_result _)
        (λ sending _.
          Post-bind (Grown s ps) (Grown s ps) (library_goes sending.1 s) _
            (library_goes-Grown sending.1 s ps h)
            (λ sent' g.
              Post-if (Grown s ps) (sending.0 == 0) abort
                (done (record sent' { msg_id_iface = u32 (sent'.msg_id_iface + 1) })) tt
                (Grown-then s ps sent' g
                  (done (record sent' { msg_id_iface = u32 (sent'.msg_id_iface + 1) }))
                  (Grown-same sent' _ _ refl refl refl refl refl refl g.queue))))

  iface_end-Grown : Post (Grown s ps) (iface_end my his clock new_rowid s)
  unfolding iface_end
  iface_end-Grown = append_net-Grown (packet_create_end_signal s.msg_id_iface) s ps _ h (λ q hq.
      Grown-net s ps _ q (record s { saw_iface_eof = true }) refl refl refl (omega arith) refl h hq)

  deliver-Grown :
      (m : Option ClientMessage) → Post (Grown s ps) (deliver my his clock new_rowid m s)
  deliver-Grown none = Grown-start s ps h
  deliver-Grown (some m) = front_friend_message-Grown m s ps h

  net_receipt-Grown : (id : ℕ) → Post (Grown s ps) (net_receipt my his clock new_rowid id s)
  unfolding net_receipt
  net_receipt-Grown id =
      Post-bind Any (Grown s ps) (of_result (friend_read_receipt_cb (base_tox clock s) 1 id s.lib))
        _ (Post-of_result _) (λ after _. library_goes-Grown after s ps h)

  net_eof-Grown : Post (Grown s ps) (net_eof my his clock new_rowid s)
  unfolding net_eof
  net_eof-Grown =
      Post-if (Grown s ps) (not s.saw_net_end_signal) abort (done (record s { saw_net_eof = true }))
        tt (Grown-same s ps _ refl refl refl refl refl refl h)

module _ (my his : ℕ) (clock : ℕ → ℕ) (new_rowid : List DataRow → ℕ) (s : TestPeer)
    (ps : Bool → List QueuedPacket) (h : Holds s ps) where
  net_message-Grown :
      (id from : ℕ) (msg : Bytes)
      → Post (Grown s ps) (net_message my his clock new_rowid id from msg s)
  unfolding net_message
  net_message-Grown id from msg =
      let m = c_string msg in
      let (now, read) = get_curr_time_ms (base_tox clock s) s.lib.channel in
      Post-bind Any (Grown s ps)
        (of_result (friend_message_cb new_rowid from 0 m (length m) now s.lib.db)) _
        (Post-of_result _)
        (λ received _.
          let s1 : TestPeer = record s {
            lib = record (s.lib) {
              db = received.0;
              channel = if marker_exists m (length m) then read else s.lib.channel;
            };
          } in
          let same = Grown-same s ps s1 refl refl refl refl refl refl h in
          Grown-then s ps s1 same _ (
            Post-bind (Grown s1 _) (Grown s1 _) (deliver my his clock new_rowid received.1 s1) _
              (deliver-Grown my his clock new_rowid s1 _ same.queue received.1)
              (λ delivered g. Grown-then s1 _ delivered g _ (
                append_net-Grown (packet_create_receipt id) delivered _ _ g.queue (λ q hq.
                  Grown-net delivered _ _ q delivered refl refl refl (omega arith) refl g.queue
                    hq)))))

module _ (my his : ℕ) (clock : ℕ → ℕ) (new_rowid : List DataRow → ℕ) (s : TestPeer)
    (ps : Bool → List QueuedPacket) (h : Holds s ps) where
  -- What is read beside leaves the queues alone.
  rest_read :
      (s1 : TestPeer) (o : Outcome TestPeer)
      → s1.net_out ≡ s.net_out
      → s1.iface_out ≡ s.iface_out
      → s1.net_output ≡ s.net_output
      → s1.iface_output ≡ s.iface_output
      → s1.msg_id_net ≡ s.msg_id_net
      → s1.net_received_messages ≡ s.net_received_messages
      → ((ps' : Bool → List QueuedPacket) → Holds s1 ps' → Post (Grown s1 ps') o)
      → Post (Grown s ps) o
  rest_read s1 o e1 e2 e3 e4 e5 e6 k =
      let same = Grown-same s ps s1 e1 e2 e3 e4 e5 e6 h in
      Grown-then s ps s1 same o (k _ same.queue)

  iface_case_m-Grown :
      (input : Bytes) → Post (Grown s ps) (iface_case_m my his clock new_rowid input s)
  unfolding iface_case_m
  iface_case_m-Grown input =
      Post-bind Any (Grown s ps) (skip_char b' ' input) _ (skip_char-Post b' ' input) (λ blank _.
        Post-bind Any (Grown s ps) (read_string b'\n' blank) _ (read_string-Post b'\n' blank)
          (λ text _.
            rest_read (record s { iface_input = text.1 }) _ refl refl refl refl refl refl
              (λ ps' h'.
                iface_message-Grown my his clock new_rowid (record s { iface_input = text.1 }) ps'
                  h' text.0)))

  iface_case_e-Grown :
      (input : Bytes) → Post (Grown s ps) (iface_case_e my his clock new_rowid input s)
  unfolding iface_case_e
  iface_case_e-Grown input =
      Post-bind Any (Grown s ps) (skip_char b'\n' input) _ (skip_char-Post b'\n' input) (λ rest _.
        rest_read (record s { iface_input = rest }) _ refl refl refl refl refl refl
          (iface_end-Grown my his clock new_rowid (record s { iface_input = rest })))

  net_case_m-Grown : (input : Bytes) → Post (Grown s ps) (net_case_m my his clock new_rowid input s)
  unfolding net_case_m
  net_case_m-Grown input =
      Post-bind Any (Grown s ps) (skip_char b' ' input) _ (skip_char-Post b' ' input) (λ blank _.
        Post-bind Any (Grown s ps) (read_uint b' ' blank) _ (read_uint_from-Post b' ' blank 0)
          (λ id _.
            Post-bind Any (Grown s ps) (read_uint b' ' id.1) _ (read_uint_from-Post b' ' id.1 0)
              (λ from _.
                Post-bind Any (Grown s ps) (read_string b'\n' from.1) _
                  (read_string-Post b'\n' from.1)
                  (λ text _.
                    rest_read (record s { net_input = text.1 }) _ refl refl refl refl refl refl
                      (λ ps' h'.
                        net_message-Grown my his clock new_rowid (record s { net_input = text.1 })
                          ps' h' id.0 from.0 text.0)))))

  net_case_r-Grown : (input : Bytes) → Post (Grown s ps) (net_case_r my his clock new_rowid input s)
  unfolding net_case_r
  net_case_r-Grown input =
      Post-bind Any (Grown s ps) (skip_char b' ' input) _ (skip_char-Post b' ' input) (λ blank _.
        Post-bind Any (Grown s ps) (read_uint b'\n' blank) _ (read_uint_from-Post b'\n' blank 0)
          (λ id _.
            rest_read (record s { net_input = id.1 }) _ refl refl refl refl refl refl
              (λ ps' h'.
                net_receipt-Grown my his clock new_rowid (record s { net_input = id.1 }) ps' h'
                  id.0)))

  net_case_e-Grown : (input : Bytes) → Post (Grown s ps) (net_case_e my his clock new_rowid input s)
  unfolding net_case_e
  net_case_e-Grown input =
      Post-bind Any (Grown s ps) (skip_char b' ' input) _ (skip_char-Post b' ' input) (λ blank _.
        Post-bind Any (Grown s ps) (read_uint b'\n' blank) _ (read_uint_from-Post b'\n' blank 0)
          (λ count _. Grown-same s ps _ refl refl refl refl refl refl h))

  pub on_iface_rd-Grown : Post (Grown s ps) (on_iface_rd my his clock new_rowid s)
  unfolding on_iface_rd
  on_iface_rd-Grown =
      let (c, input) = read_char s.iface_input in
      let e = iface_case_e my his clock new_rowid input s in
      Post-if (Grown s ps) (c == b'M') (iface_case_m my his clock new_rowid input s)
        (if c == b'E' then e else abort) (iface_case_m-Grown input)
        (Post-if (Grown s ps) (c == b'E') e abort (iface_case_e-Grown input) tt)

  pub on_net_rd-Grown : Post (Grown s ps) (on_net_rd my his clock new_rowid s)
  unfolding on_net_rd
  on_net_rd-Grown =
      let (c, input) = read_char s.net_input in
      let r = net_case_r my his clock new_rowid input s in
      let e = net_case_e my his clock new_rowid input s in
      let eof = net_eof my his clock new_rowid (record s { net_input = input }) in
      let last = if c == 0 then eof else abort in
      let others = if c == b'E' then e else last in
      Post-if (Grown s ps) (c == b'M') (net_case_m my his clock new_rowid input s)
        (if c == b'R' then r else others) (net_case_m-Grown input)
        (Post-if (Grown s ps) (c == b'R') r others (net_case_r-Grown input) (
          Post-if (Grown s ps) (c == b'E') e last (net_case_e-Grown input) (
            Post-if (Grown s ps) (c == 0) eof abort
              (rest_read (record s { net_input = input }) eof refl refl refl refl refl refl
                (net_eof-Grown my his clock new_rowid (record s { net_input = input })))
              tt)))
