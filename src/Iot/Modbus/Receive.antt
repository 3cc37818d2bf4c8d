-- ===== src/Iot/Modbus/Receive.antt =====
-- However the network cuts the stream, `recvN` reads its next bytes
-- (mes-iot/src/modbus/ModbusClient.cc).
use mes_cpp.Base.{
  ℕ, zero, suc, ◌-◌, ◌≤◌, ◌<◌, ◌≡◌, refl, ap, sym, ◌∙◌, inl, inr, true, false, some, List, [], ◌∷◌,
  ◌++◌, leb, leb→le, arith, Bool-cases, All, length, take, drop, length-append,
}
use mes_cpp.Iot.Modbus.{recv_n}

-- The bytes of the stream.
unfoldable pub stream : List (List ℕ) → List ℕ
stream [] = []
stream (c ∷ cs) = c ++ stream cs

abbrev pub IsChunk : List ℕ → Type 0
IsChunk c = 0 < length c

pub take-append : (n : ℕ) (xs ys : List ℕ) → n ≤ length xs → take n (xs ++ ys) ≡ take n xs
take-append zero xs ys h = refl
take-append (suc n) [] ys h = absurd (omega arith)
take-append (suc n) (x ∷ xs) ys h = ap (λ t. x ∷ t) (take-append n xs ys (omega arith))

pub drop-append : (n : ℕ) (xs ys : List ℕ) → n ≤ length xs → drop n (xs ++ ys) ≡ drop n xs ++ ys
drop-append zero xs ys h = refl
drop-append (suc n) [] ys h = absurd (omega arith)
drop-append (suc n) (x ∷ xs) ys h = drop-append n xs ys (omega arith)

pub take-append_more :
    (n : ℕ) (xs ys : List ℕ) → length xs ≤ n → take n (xs ++ ys) ≡ xs ++ take (n - length xs) ys
take-append_more n [] ys h = let e : n - 0 ≡ n = omega arith in rw e
take-append_more zero (x ∷ xs) ys h = absurd (omega arith)
take-append_more (suc n) (x ∷ xs) ys h =
    let e : suc n - suc (length xs) ≡ n - length xs = omega arith in
    rw e (ap (λ t. x ∷ t) (take-append_more n xs ys (omega arith)))

pub drop-append_more :
    (n : ℕ) (xs ys : List ℕ) → length xs ≤ n → drop n (xs ++ ys) ≡ drop (n - length xs) ys
drop-append_more n [] ys h = let e : n - 0 ≡ n = omega arith in rw e
drop-append_more zero (x ∷ xs) ys h = absurd (omega arith)
drop-append_more (suc n) (x ∷ xs) ys h =
    let e : suc n - suc (length xs) ≡ n - length xs = omega arith in
    rw e (drop-append_more n xs ys (omega arith))

-- What `recv_n` must give: the next bytes, and a stream that goes on behind them.
abbrev pub Reads : ℕ → List (List ℕ) → Type 0
Reads n chunks =
    (left : List (List ℕ)) × (recv_n n chunks ≡ some (take n (stream chunks), left))
    × (stream left ≡ drop n (stream chunks))
    × All IsChunk left

pub length-drop : (n : ℕ) (xs : List ℕ) → length (drop n xs) ≡ length xs - n
length-drop zero xs = omega arith
length-drop (suc n) [] = omega arith
length-drop (suc n) (x ∷ xs) = omega (arith, length-drop n xs)

longer_chunk :
    (n b : ℕ) (bs : List ℕ) → leb (length (b ∷ bs)) (suc n) ≡ false → suc n < length (b ∷ bs)
longer_chunk n b bs h = ground arith

whole_chunk :
    (n b : ℕ) (bs : List ℕ) (chunks : List (List ℕ))
    → leb (length (b ∷ bs)) (suc n) ≡ true
    → Reads (suc n - length (b ∷ bs)) chunks
    → Reads (suc n) ((b ∷ bs) ∷ chunks)
unfolding recv_n stream
whole_chunk n b bs chunks fits (left, r, s, a) = (
  left,
  ground (arith, r, take-append_more (suc n) (b ∷ bs) (stream chunks)),
  s
      ∙ sym (
          drop-append_more (suc n) (b ∷ bs) (stream chunks)
            (omega (arith, leb→le (length (b ∷ bs)) (suc n) fits))),
  a,
)

part_of_chunk :
    (n b : ℕ) (bs : List ℕ) (chunks : List (List ℕ))
    → leb (length (b ∷ bs)) (suc n) ≡ false
    → All IsChunk chunks
    → Reads (suc n) ((b ∷ bs) ∷ chunks)
unfolding recv_n stream
part_of_chunk n b bs chunks long a = (
  drop (suc n) (b ∷ bs) ∷ chunks,
  ground (arith, take-append (suc n) (b ∷ bs) (stream chunks)),
  sym (drop-append (suc n) (b ∷ bs) (stream chunks) (omega (arith, longer_chunk n b bs long))),
  (omega (arith, length-drop (suc n) (b ∷ bs), longer_chunk n b bs long), a),
)

-- However the bytes were cut into chunks that are not empty, `recv_n` takes the next `n` of them, when
-- so many come, and leaves the rest of the stream, in chunks that are not empty.
pub recv_n-Reads :
    (n : ℕ) (chunks : List (List ℕ))
    → All IsChunk chunks
    → n ≤ length (stream chunks)
    → Reads n chunks
unfolding recv_n stream
recv_n-Reads zero chunks a h = (chunks, refl, refl, a)
recv_n-Reads (suc n) [] a h = absurd (omega arith)
recv_n-Reads (suc n) ([] ∷ chunks) a h = absurd (omega (arith, a.0))
recv_n-Reads (suc n) ((b ∷ bs) ∷ chunks) a h = elim (Bool-cases (leb (length (b ∷ bs)) (suc n))) [
  | inl fits ↦ whole_chunk n b bs chunks fits (
      recv_n-Reads (suc n - length (b ∷ bs)) chunks a.1
        (omega (arith, length-append bs (stream chunks))))
  | inr long ↦ part_of_chunk n b bs chunks long a.1
]
