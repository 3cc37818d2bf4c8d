-- ===== src/Iot/Modbus/RoundTrip.antt =====
-- A good response is read whole, however the network cuts it
-- (mes-iot/src/modbus/ModbusClient.cc).
use mes_cpp.Base.{
  ℕ, ◌+◌, ◌-◌, ◌*◌, ◌%◌, ◌≤◌, ◌<◌, ◌≡◌, refl, ap, sym, ◌∙◌, true, some, List, [], ◌∷◌, ◌++◌, arith,
  All, length, take, drop, length-append,
}
use mes_cpp.Iot.Modbus.{
  Client, ReadResult, ok_code, u16_be, recv_n, receive_pdu, check_header, receive, request, begun,
  read_holding_registers,
}
use mes_cpp.Iot.Modbus.Receive.{stream, IsChunk, recv_n-Reads}
use mes_cpp.Iot.Modbus.Response.{
  pdu_of, frame_of, IsRegister, of-u16_be, length-data_of, parse_pdu-pdu_of,
}

take-length_append : (xs ys : List ℕ) → take (length xs) (xs ++ ys) ≡ xs
take-length_append [] ys = refl
take-length_append (x ∷ xs) ys = ap (λ t. x ∷ t) (take-length_append xs ys)

drop-length_append : (xs ys : List ℕ) → drop (length xs) (xs ++ ys) ≡ ys
drop-length_append [] ys = refl
drop-length_append (x ∷ xs) ys = drop-length_append xs ys

-- `recv_n` reads a known prefix of the stream.
recv_prefix :
    (n : ℕ) (xs rest : List ℕ) (chunks : List (List ℕ))
    → All IsChunk chunks
    → length xs ≡ n
    → stream chunks ≡ xs ++ rest
    → (left : List (List ℕ)) × (recv_n n chunks ≡ some (xs, left))
      × (stream left ≡ rest)
      × All IsChunk left
recv_prefix n xs rest chunks a l e =
    let r = recv_n-Reads n chunks a (omega (arith, ap length e, length-append xs rest)) in
    (
      r.0,
      r.1
          ∙ ap (λ t. some (t, r.0))
              (ap (take n) e ∙ ap (λ k. take k (xs ++ rest)) (sym l) ∙ take-length_append xs rest),
      r.2 ∙ ap (drop n) e ∙ ap (λ k. drop k (xs ++ rest)) (sym l) ∙ drop-length_append xs rest,
      r.3,
    )

module _ (c : Client) (txn : ℕ) (vs rest : List ℕ) where
  header : List ℕ
  header = u16_be txn ++ u16_be 0 ++ u16_be (3 + 2 * length vs) ++ c.unit_id ∷ []

  -- What a client has read when the response has come.
  abbrev pub Answered : Client × ReadResult → Type 0
  Answered r =
      (left : List (List ℕ)) × (r
        ≡ (record c { incoming = left }, record { error = ok_code; registers = vs }))
      × (stream left ≡ rest)
      × All IsChunk left

  pdu-Answered :
      (chunks : List (List ℕ))
      → All IsChunk chunks
      → All IsRegister vs
      → stream chunks ≡ pdu_of vs ++ rest
      → Answered (receive_pdu (record c { incoming = chunks }) (length vs) (2 + 2 * length vs))
  unfolding receive_pdu
  pdu-Answered chunks a h e =
      let r =
        recv_prefix (2 + 2 * length vs) (pdu_of vs) rest chunks a (omega (arith, length-data_of vs))
          e in
      (r.0, rw (r.1, receive_pdu) (rw (parse_pdu-pdu_of (length vs) vs refl h)), r.2, r.3)

  header_passes :
      (chunks : List (List ℕ))
      → txn < 65536
      → length vs ≤ 125
      → check_header (record c { incoming = chunks }) txn (length vs) header
        ≡ receive_pdu (record c { incoming = chunks }) (length vs) (2 + 2 * length vs)
  unfolding check_header header
  header_passes chunks t n =
      let e : 3 + 2 * length vs - 1 ≡ 2 + 2 * length vs = omega arith in
      rw (of-u16_be txn t, of-u16_be (3 + 2 * length vs) (omega arith), e) (ground arith)

  -- Cut the frame into its header and its PDU.
  frame-header : (frame_of txn c.unit_id vs ++ rest) ≡ header ++ (pdu_of vs ++ rest)
  unfolding header
  frame-header = refl

  receive-Answered :
      (chunks : List (List ℕ))
      → txn < 65536
      → length vs ≤ 125
      → All IsChunk chunks
      → All IsRegister vs
      → stream chunks ≡ frame_of txn c.unit_id vs ++ rest
      → Answered (receive (record c { incoming = chunks }) txn (length vs))
  unfolding receive header
  receive-Answered chunks t n a h e =
      let (left, r, s, k) = recv_prefix 7 header (pdu_of vs ++ rest) chunks a refl e in
      rw (r, receive) (rw (header_passes left t n) (pdu-Answered left k h s))

-- If the stream begins with the device's response to the request, cut anywhere into chunks that are
-- not empty, then a connected client that asks for 1 to 125 registers and sends the whole request
-- returns exactly the registers that the device sent and leaves the bytes behind the response, with
-- the next transaction's number.
pub read-frame_of :
    (c : Client) (start_addr : ℕ) (vs rest : List ℕ)
    → c.connected ≡ true
    → c.next_transaction_id < 65536
    → 1 ≤ length vs
    → length vs ≤ 125
    → All IsRegister vs
    → All IsChunk c.incoming
    → stream c.incoming ≡ frame_of c.next_transaction_id c.unit_id vs ++ rest
    → (left : List (List ℕ)) × (read_holding_registers c true start_addr (length vs) ≡ (
      record c {
        next_transaction_id = (c.next_transaction_id + 1) % 65536;
        incoming = left;
        outgoing =
            c.outgoing ++ request c.next_transaction_id c.unit_id start_addr (length vs) ∷ [];
      },
      record { error = ok_code; registers = vs },
    ))
      × (stream left ≡ rest)
      × All IsChunk left
unfolding read_holding_registers
read-frame_of c start_addr vs rest up t one n h a e =
    let r =
      receive-Answered (begun c start_addr (length vs)) c.next_transaction_id vs rest c.incoming t n
        a h e in
    (r.0, ground (arith, r.1), r.2, r.3)
