-- ===== src/Packet/Number/Exchange.antt =====
-- A packet number on its way: its length chosen, its low bytes written and read, and the number
-- recovered from what the receiver has seen.
use flow_q.Prelude.{
  ℕ, zero, suc, ◌+◌, ◌-◌, ◌*◌, ◌/◌, ◌%◌, ◌^◌, ◌<◌, ◌≤◌, ◌≡◌, ◌∙◌, ap, sym, refl, arith,
}
use flow_q.Prelude.{
  List, ◌++◌, length, take, drop, take-length-append, drop-length-append, length-append, ok, ◌>>=◌,
}
use flow_q.Prelude.{bit_and}
use flow_q.Varint.{max_varint, to_byte, shift_in, shift_in_all}
use flow_q.Varint.Bytes.{mask_eight, shift_in_lem}
use flow_q.Packet.Number.{
  select_packet_number_length, select_from, packet_number_bytes, encode_packet_number,
  decode_packet_number, read_truncated_packet_number, valid_packet_number_length,
}
use flow_q.Packet.Number.Recover.{decode_packet_number-truncated}

pub length-packet_number_bytes : (size n : ℕ) → length (packet_number_bytes size n) ≡ size
unfolding packet_number_bytes
length-packet_number_bytes zero n = refl
length-packet_number_bytes (suc size) n = ap suc (length-packet_number_bytes size n)

byte_lem : (n : ℕ) → to_byte (bit_and n 0xff) ≡ n % 256
byte_lem n = rw (mask_eight n) (omega arith)

push_byte : (x n : ℕ) → x < 2 ^ 48 → shift_in x (to_byte (bit_and n 0xff)) ≡ x * 256 + n % 256
push_byte x n h = rw (byte_lem n) (shift_in_lem x (n % 256) (omega arith) (omega arith))

read_one : (x n : ℕ) → x < 2 ^ 48 → shift_in_all x (packet_number_bytes 1 n) ≡ x * 2 ^ 8 + n % 2 ^ 8
unfolding packet_number_bytes shift_in_all
read_one x n h = push_byte x (n / 1) h ∙ omega arith

read_two :
    (x n : ℕ) → x < 2 ^ 40 → shift_in_all x (packet_number_bytes 2 n) ≡ x * 2 ^ 16 + n % 2 ^ 16
unfolding packet_number_bytes shift_in_all
read_two x n h =
    rw (push_byte x (n / 2 ^ 8) (omega arith))
      (read_one (x * 256 + n / 2 ^ 8 % 256) n (omega arith) ∙ omega arith)

read_three :
    (x n : ℕ) → x < 2 ^ 32 → shift_in_all x (packet_number_bytes 3 n) ≡ x * 2 ^ 24 + n % 2 ^ 24
unfolding packet_number_bytes shift_in_all
read_three x n h =
    rw (push_byte x (n / 2 ^ 16) (omega arith))
      (read_two (x * 256 + n / 2 ^ 16 % 256) n (omega arith) ∙ omega arith)

read_four :
    (x n : ℕ) → x < 2 ^ 24 → shift_in_all x (packet_number_bytes 4 n) ≡ x * 2 ^ 32 + n % 2 ^ 32
unfolding packet_number_bytes shift_in_all
read_four x n h =
    rw (push_byte x (n / 2 ^ 24) (omega arith))
      (read_three (x * 256 + n / 2 ^ 24 % 256) n (omega arith) ∙ omega arith)

read_all :
    (size n : ℕ) → size ≤ 4 → shift_in_all 0 (packet_number_bytes size n) ≡ n % 2 ^ (size * 8)
unfolding shift_in_all packet_number_bytes
read_all zero n high = omega arith
read_all (suc zero) n high = read_one 0 n (omega arith) ∙ omega arith
read_all (suc (suc zero)) n high = read_two 0 n (omega arith) ∙ omega arith
read_all (suc (suc (suc zero))) n high = read_three 0 n (omega arith) ∙ omega arith
read_all (suc (suc (suc (suc zero)))) n high = read_four 0 n (omega arith) ∙ omega arith
read_all (suc (suc (suc (suc (suc size))))) n high = absurd (omega (arith, high))

pub take-packet_number_bytes :
    (size n : ℕ) (rest : List ℕ)
    → take size (packet_number_bytes size n ++ rest) ≡ packet_number_bytes size n
take-packet_number_bytes size n rest =
    ap (λ k. take k (packet_number_bytes size n ++ rest)) (sym (length-packet_number_bytes size n))
    ∙ take-length-append (packet_number_bytes size n) rest

pub drop-packet_number_bytes :
    (size n : ℕ) (rest : List ℕ) → drop size (packet_number_bytes size n ++ rest) ≡ rest
drop-packet_number_bytes size n rest =
    ap (λ k. drop k (packet_number_bytes size n ++ rest)) (sym (length-packet_number_bytes size n))
    ∙ drop-length-append (packet_number_bytes size n) rest

-- What is written for `n` is read as `n` without its higher bits.
pub read_truncated_packet_number-bytes :
    (n size : ℕ) (rest : List ℕ)
    → 1 ≤ size
    → size ≤ 4
    → read_truncated_packet_number (packet_number_bytes size n ++ rest) size
      ≡ ok (n % 2 ^ (size * 8))
unfolding read_truncated_packet_number valid_packet_number_length
read_truncated_packet_number-bytes n size rest low high =
    let room : length (packet_number_bytes size n ++ rest) ≡ size + length rest =
      length-append (packet_number_bytes size n) rest
      ∙ ap (λ k. k + length rest) (length-packet_number_bytes size n) in
    ground (arith, read_all size n high, take-packet_number_bytes size n rest, room)

-- The length that is chosen leaves room for twice the gap.
pub select_packet_number_length-eq-ok :
    (n largest_acknowledged : ℕ) {size : ℕ}
    → n ≤ max_varint
    → select_packet_number_length n largest_acknowledged ≡ ok size
    → (1 ≤ size)
      × (size ≤ 4)
      × (largest_acknowledged < n)
      × (2 * (n - largest_acknowledged) < 2 ^ (size * 8))
unfolding select_packet_number_length select_from
select_packet_number_length-eq-ok n largest_acknowledged small e = ground arith

-- A packet number whose length was chosen for the largest number acknowledged is written in that
-- many bytes. A receiver that has got the acknowledged number, and for which the number after the
-- largest received is less than half a window above `n`, reads the bytes and recovers `n`.
pub decode_packet_number-encode :
    (n largest_acknowledged size largest_received : ℕ) (output : List ℕ)
    → n ≤ max_varint
    → select_packet_number_length n largest_acknowledged ≡ ok size
    → size ≤ length output
    → largest_acknowledged ≤ largest_received
    → largest_received + 1 < n + 2 ^ (size * 8) / 2
    → (encode_packet_number n size output >>= λ (written, bytes).
        read_truncated_packet_number bytes written >>= λ truncated.
        decode_packet_number truncated written largest_received)
      ≡ ok n
unfolding encode_packet_number valid_packet_number_length
decode_packet_number-encode n largest_acknowledged size largest_received output small chosen room
      seen near =
    let (low, high, newer, window) =
      select_packet_number_length-eq-ok n largest_acknowledged small chosen in
    let written : encode_packet_number n size output
        ≡ ok (
          size,
          packet_number_bytes size n ++ drop (length (packet_number_bytes size n)) output,
        ) =
      ground (arith, low, high, room) in
    rw
      (
        written,
        read_truncated_packet_number-bytes n size
            (drop (length (packet_number_bytes size n)) output) low high,
      )
      (decode_packet_number-truncated n size largest_received small low high
        (near, omega (arith, window, seen)))
