-- ===== src/Iot/Modbus.antt =====
-- The Modbus TCP client (mes-iot/src/modbus/ModbusClient.cc and .hh). A byte is a number below 256;
-- the socket is the list of the chunks that `recv` will deliver, and an empty chunk or none at all
-- is a closed connection, an error or a timeout.
pub mod Receive
pub mod Response
pub mod RoundTrip
use mathlib.Core.Option.{get_or}
use mes_cpp.Base.{
  ℕ, zero, suc, ◌+◌, ◌-◌, ◌*◌, ◌/◌, ◌%◌, Bool, true, false, not, ◌&&◌, ◌||◌, Option, none, some,
  List, [], ◌∷◌, ◌++◌, ◌==◌, ltb, leb, if◌then◌else◌, ℤ, pos, negsuc, length, get_elem?, take, drop,
}

-- ModbusError, with a value outside the enumeration where the device sends one
abbrev pub ok_code : ℤ
ok_code = pos 0

abbrev pub illegal_data_value : ℤ
illegal_data_value = pos 3

abbrev pub socket_error : ℤ
socket_error = negsuc 0

abbrev pub timeout : ℤ
timeout = negsuc 1

abbrev pub truncated_frame : ℤ
truncated_frame = negsuc 2

abbrev pub transaction_mismatch : ℤ
transaction_mismatch = negsuc 3

pub record ReadResult : Type 0 where
  pub error : ℤ
  pub registers : List ℕ

pub record Client : Type 0 where
  pub connected : Bool
  pub unit_id : ℕ
  pub next_transaction_id : ℕ
  pub incoming : List (List ℕ)
  -- the requests handed to `send`
  pub outgoing : List (List ℕ)

abbrev pub failed : ℤ → ReadResult
failed e = record { error = e; registers = [] }

-- writeU16BE
abbrev pub u16_be : ℕ → List ℕ
u16_be v = v / 256 % 256 ∷ v % 256 ∷ []

-- readU16BE
abbrev pub of_u16_be : ℕ → ℕ → ℕ
of_u16_be hi lo = hi * 256 + lo

abbrev pub byte_at : List ℕ → ℕ → ℕ
byte_at bs i = get_or (get_elem? bs i) 0

unfoldable pub disconnect : Client → Client
disconnect c = if c.connected then record c { connected = false; incoming = [] } else c

-- MBAP header and PDU of a request
unfoldable pub request : ℕ → ℕ → ℕ → ℕ → List ℕ
request txn unit_id start_addr quantity =
    u16_be txn ++ u16_be 0 ++ u16_be 6 ++ unit_id % 256 ∷ 3 ∷ u16_be start_addr ++ u16_be quantity

-- The loop of `recvN`: `n` bytes are still wanted.
unfoldable pub recv_n : ℕ → List (List ℕ) → Option (List ℕ × List (List ℕ))
recv_n zero chunks = some ([], chunks)
recv_n (suc n) [] = none
recv_n (suc n) ([] ∷ chunks) = none
recv_n (suc n) ((b ∷ bs) ∷ chunks) =
    let rest = recv_n (suc n - length (b ∷ bs)) chunks in
    if leb (length (b ∷ bs)) (suc n)
    then elim rest [ none ↦ none | some (xs, left) ↦ some ((b ∷ bs) ++ xs, left) ]
    else some (take (suc n) (b ∷ bs), drop (suc n) (b ∷ bs) ∷ chunks)

-- The loop that takes the registers out of the data.
unfoldable pub registers_of : ℕ → List ℕ → List ℕ
registers_of zero bs = []
registers_of (suc n) [] = []
registers_of (suc n) (hi ∷ []) = []
registers_of (suc n) (hi ∷ lo ∷ bs) = of_u16_be hi lo ∷ registers_of n bs

abbrev pub has_exception_bit : ℕ → Bool
has_exception_bit b = b / 128 % 2 == 1

unfoldable pub parse_pdu : ℕ → List ℕ → ReadResult
parse_pdu quantity pdu =
    let pdu_len : ℕ = length pdu in
    let byte_count : ℕ = byte_at pdu 1 in
    let reg_count : ℕ = byte_count / 2 in
    if has_exception_bit (byte_at pdu 0)
    then failed (pos (if ltb 1 pdu_len then byte_at pdu 1 else 0))
    else if not (byte_at pdu 0 == 3) || ltb pdu_len 2
    then failed truncated_frame
    else if not (reg_count == quantity) || not (pdu_len == 2 + byte_count)
    then failed truncated_frame
    else record { error = ok_code; registers = registers_of reg_count (drop 2 pdu) }

unfoldable pub receive_pdu : Client → ℕ → ℕ → Client × ReadResult
receive_pdu c quantity pdu_len = elim (recv_n pdu_len c.incoming) [
  | none ↦ (disconnect c, failed timeout)
  | some (pdu, left) ↦ (record c { incoming = left }, parse_pdu quantity pdu)
]

unfoldable pub check_header : Client → ℕ → ℕ → List ℕ → Client × ReadResult
check_header c txn quantity mbap =
    let resp_txn : ℕ = of_u16_be (byte_at mbap 0) (byte_at mbap 1) in
    let resp_proto : ℕ = of_u16_be (byte_at mbap 2) (byte_at mbap 3) in
    let resp_len : ℕ = of_u16_be (byte_at mbap 4) (byte_at mbap 5) in
    if not (resp_txn == txn)
    then (c, failed transaction_mismatch)
    else if not (resp_proto == 0) || not (byte_at mbap 6 == c.unit_id)
    then (c, failed truncated_frame)
    else if ltb resp_len 2
    then (c, failed truncated_frame)
    else receive_pdu c quantity (resp_len - 1)

unfoldable pub receive : Client → ℕ → ℕ → Client × ReadResult
receive c txn quantity = elim (recv_n 7 c.incoming) [
  | none ↦ (disconnect c, failed timeout)
  | some (mbap, left) ↦ check_header (record c { incoming = left }) txn quantity mbap
]

-- The client with the next transaction begun.
abbrev pub begun : Client → ℕ → ℕ → Client
begun c start_addr quantity = record c {
  next_transaction_id = (c.next_transaction_id + 1) % 65536;
  outgoing = c.outgoing ++ request c.next_transaction_id c.unit_id start_addr quantity ∷ [];
}

-- `sent`: whether `send` took the whole request.
unfoldable pub read_holding_registers : Client → Bool → ℕ → ℕ → Client × ReadResult
read_holding_registers c sent start_addr quantity =
    if quantity == 0 || ltb 125 quantity
    then (c, failed illegal_data_value)
    else if not c.connected
    then (c, failed socket_error)
    else if not sent
    then (disconnect (begun c start_addr quantity), failed socket_error)
    else receive (begun c start_addr quantity) c.next_transaction_id quantity
