-- ===== src/Iot/Modbus/Response.antt =====
-- What a response is taken for (mes-iot/src/modbus/ModbusClient.cc).
use mes_cpp.Base.{
  ℕ, zero, suc, ◌+◌, ◌-◌, ◌*◌, ◌/◌, ◌%◌, ◌≤◌, ◌<◌, ◌≡◌, refl, ◌⊎◌, inl, inr, Bool, true, List, [],
  ◌∷◌, ◌++◌, arith, Option-cases, All, length, drop,
}
use mes_cpp.Iot.Modbus.{
  Client, ReadResult, ok_code, u16_be, of_u16_be, byte_at, has_exception_bit, recv_n, registers_of,
  parse_pdu, receive_pdu, check_header, receive, begun, read_holding_registers,
}

-- The data of a response.
abbrev pub data_of : List ℕ → List ℕ
data_of [] = []
data_of (v ∷ vs) = u16_be v ++ data_of vs

-- PDU and frame of a response to a read of holding registers, as the protocol describes them at
-- the top of the source.
abbrev pub pdu_of : List ℕ → List ℕ
pdu_of vs = 3 ∷ 2 * length vs ∷ data_of vs

abbrev pub frame_of : ℕ → ℕ → List ℕ → List ℕ
frame_of txn unit_id vs =
    u16_be txn ++ u16_be 0 ++ u16_be (3 + 2 * length vs) ++ unit_id ∷ pdu_of vs

abbrev pub IsRegister : ℕ → Type 0
IsRegister v = v < 65536

pub of-u16_be : (v : ℕ) → v < 65536 → of_u16_be (v / 256 % 256) (v % 256) ≡ v
of-u16_be v h = omega arith

registers_of-data_of :
    (vs : List ℕ) → All IsRegister vs → registers_of (length vs) (data_of vs) ≡ vs
unfolding registers_of
registers_of-data_of [] h = refl
registers_of-data_of (v ∷ vs) h = rw (of-u16_be v h.0, registers_of-data_of vs h.1)

pub length-data_of : (vs : List ℕ) → length (data_of vs) ≡ 2 * length vs
length-data_of [] = omega arith
length-data_of (v ∷ vs) = omega (arith, length-data_of vs)

pub parse_pdu-pdu_of :
    (quantity : ℕ) (vs : List ℕ)
    → length vs ≡ quantity
    → All IsRegister vs
    → parse_pdu quantity (pdu_of vs) ≡ record { error = ok_code; registers = vs }
unfolding parse_pdu
parse_pdu-pdu_of quantity vs n h =
    let e : 2 * length vs / 2 ≡ length vs = omega arith in
    rw e (ground (arith, length-data_of vs, registers_of-data_of vs h))

length-registers_of : (n : ℕ) (bs : List ℕ) → 2 * n ≤ length bs → length (registers_of n bs) ≡ n
unfolding registers_of
length-registers_of zero bs h = refl
length-registers_of (suc n) [] h = absurd (omega arith)
length-registers_of (suc n) (hi ∷ []) h = absurd (omega arith)
length-registers_of (suc n) (hi ∷ lo ∷ bs) h = omega (arith, length-registers_of n bs)

length-drop_two : (a b : ℕ) (bs : List ℕ) → length (drop 2 (a ∷ b ∷ bs)) ≡ length bs
length-drop_two a b bs = refl

-- A PDU that is taken for a good answer holds as many registers as were asked for, unless it is an
-- exception response whose code is zero or missing.
pub parse_pdu_ok :
    (quantity : ℕ) (pdu : List ℕ)
    → (parse_pdu quantity pdu).error ≡ ok_code
    → (length (parse_pdu quantity pdu).registers ≡ quantity)
      ⊎ (has_exception_bit (byte_at pdu 0) ≡ true)
unfolding parse_pdu
parse_pdu_ok quantity [] h = ground arith
parse_pdu_ok quantity (a ∷ []) h = ground arith
parse_pdu_ok quantity (a ∷ b ∷ bs) h = ground (arith, length-registers_of (b / 2) bs)

-- An exception response whose code is zero or missing counts as a good answer with no registers.
pub parse_pdu-exception_zero :
    (quantity fc : ℕ) (more : List ℕ)
    → has_exception_bit fc ≡ true
    → (more ≡ []) ⊎ ((bs : List ℕ) × (more ≡ 0 ∷ bs))
    → parse_pdu quantity (fc ∷ more) ≡ record { error = ok_code; registers = [] }
unfolding parse_pdu
parse_pdu-exception_zero quantity fc [] e z = ground arith
parse_pdu-exception_zero quantity fc (b ∷ bs) e z = ground arith

-- What can be said of a result that carries no error.
abbrev pub Complete : ℕ → ReadResult → Type 0
Complete quantity r = r.error ≡ ok_code → (length r.registers ≡ quantity) ⊎ (r.registers ≡ [])

parse_pdu-Complete : (quantity : ℕ) (pdu : List ℕ) → Complete quantity (parse_pdu quantity pdu)
unfolding parse_pdu
parse_pdu-Complete quantity [] h = ground arith
parse_pdu-Complete quantity (a ∷ []) h = ground arith
parse_pdu-Complete quantity (a ∷ b ∷ bs) h = ground (arith, length-registers_of (b / 2) bs)

receive_pdu-Complete :
    (c : Client) (quantity n : ℕ) → Complete quantity (receive_pdu c quantity n).1
unfolding receive_pdu
receive_pdu-Complete c quantity n = elim (Option-cases (recv_n n c.incoming)) [
  | inl e ↦ rw (e, receive_pdu) (λ h. cc)
  | inr (p, e) ↦ rw (e, receive_pdu) (parse_pdu-Complete quantity p.0)
]

check_header-Complete :
    (c : Client) (txn quantity : ℕ) (mbap : List ℕ)
    → Complete quantity (check_header c txn quantity mbap).1
unfolding check_header
check_header-Complete c txn quantity mbap h =
    ground
      (arith, receive_pdu-Complete c quantity (of_u16_be (byte_at mbap 4) (byte_at mbap 5) - 1))

receive-Complete : (c : Client) (txn quantity : ℕ) → Complete quantity (receive c txn quantity).1
unfolding receive
receive-Complete c txn quantity = elim (Option-cases (recv_n 7 c.incoming)) [
  | inl e ↦ rw (e, receive) (λ h. cc)
  | inr (p, e) ↦ rw (e, receive) (check_header-Complete _ txn quantity p.0)
]

-- A read without an error returns as many registers as were asked for, or none at all.
pub read-Complete :
    (c : Client) (sent : Bool) (start_addr quantity : ℕ)
    → Complete quantity (read_holding_registers c sent start_addr quantity).1
unfolding read_holding_registers
read-Complete c sent start_addr quantity h =
    ground (arith, receive-Complete (begun c start_addr quantity) c.next_transaction_id quantity)
