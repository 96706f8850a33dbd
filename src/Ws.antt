-- ===== src/Ws.antt =====
-- protocol/ws/ws.go: the frames of RFC 6455 and the messages that they carry. This file has the
-- frames as bytes; Ws.Conn has the connection. The HTTP upgrade is not modelled.
pub mod Op
pub mod Conn
mod Bits
pub mod Frames
pub mod Shrinking
pub mod Progress
pub mod Messages
mod Tests
use rain_net.Common.{
  ℕ, suc, ◌%◌, ◌^◌, bit_and, bit_or, bit_xor, Bool, not, [], ◌∷◌, ◌++◌, ltb, leb, nat_beq,
  if◌then◌else◌, length, get_or, take, Bytes, put_u16, get_u16, put_u64, get_u64, Result, ok, err,
  ◌>>=◌, IoError, read_full,
}

abbrev pub max_message_size : ℕ
max_message_size = 2 ^ 20

pub data Error : Type 0 where
  io : IoError → Error
  reserved_bits : Error
  frame_too_large : ℕ → Error
  connection_closed : Error
  no_random : Error
  write_failed : Error
  unexpected_continuation : Error
  unknown_opcode : ℕ → Error

pub record Frame : Type 0 where
  pub fin : Bool
  pub opcode : ℕ
  pub payload : Bytes

-- payload[i] ^ maskKey[i%4] from index `i` on
unfoldable pub mask_from : ℕ → Bytes → Bytes → Bytes
mask_from i key [] = []
mask_from i key (x ∷ xs) = bit_xor x (get_or key (i % 4) 0) ∷ mask_from (suc i) key xs

abbrev pub mask_bit : Bool → ℕ
mask_bit client = if client then 0x80 else 0

-- head[1] and the bytes of the extended length behind it
unfoldable pub length_head : Bool → ℕ → Bytes
length_head client n =
    if ltb n 126
    then bit_or (mask_bit client) (n % 256) ∷ []
    else if leb n 0xffff
    then bit_or (mask_bit client) 126 ∷ put_u16 n
    else bit_or (mask_bit client) 127 ∷ put_u64 n

abbrev pub first_byte : Bool → ℕ → ℕ
first_byte fin opcode = if fin then bit_or opcode 0x80 else opcode

-- headLen, from head[1]
abbrev pub head_len : ℕ → ℕ
head_len second =
    if nat_beq (bit_and second 0x7f) 126
    then 4
    else if nat_beq (bit_and second 0x7f) 127
    then 10
    else 2

-- The array `head` of 14 bytes before the mask, and its first headLen bytes.
unfoldable pub head_bytes : Bool → Frame → Bytes
unfolding length_head
head_bytes client f =
    let head = first_byte f.fin f.opcode ∷ (length_head client (length f.payload) ++ zeros) in
    take (head_len (get_or head 1 0)) head
  where
    zeros : Bytes
    zeros = 0 ∷ 0 ∷ 0 ∷ 0 ∷ 0 ∷ 0 ∷ 0 ∷ 0 ∷ 0 ∷ 0 ∷ 0 ∷ 0 ∷ []

-- The bytes of a frame; a server uses no key.
unfoldable pub frame_bytes : Bool → Bytes → Frame → Bytes
unfolding head_bytes mask_from
frame_bytes client key f =
    if client
    then head_bytes client f ++ (key ++ mask_from 0 key f.payload)
    else head_bytes client f ++ f.payload

-- readFrame on the bytes that the stream still holds: the frame and the bytes behind it.
unfoldable pub read_body : Frame → Bool → ℕ → Bytes → Result Error (Frame × Bytes)
unfolding mask_from
read_body f masked n rest = if ltb max_message_size n then err (frame_too_large n) else do
  (key, behind_key) ← if masked then read_full io 4 rest else ok ([], rest)
  (payload, behind) ← read_full io n behind_key
  ok (record f { payload = if masked then mask_from 0 key payload else payload }, behind)

unfoldable pub read_length : ℕ → Bytes → Result Error (ℕ × Bytes)
read_length short rest =
    if nat_beq short 126
    then (do
      (ext, behind) ← read_full io 2 rest
      ok (get_u16 (get_or ext 0 0) (get_or ext 1 0), behind))
    else if nat_beq short 127
    then (do
      (ext, behind) ← read_full io 8 rest
      ok (
        get_u64 (get_or ext 0 0) (get_or ext 1 0) (get_or ext 2 0) (get_or ext 3 0) (get_or ext 4 0)
            (get_or ext 5 0) (get_or ext 6 0) (get_or ext 7 0),
        behind,
      ))
    else ok (short, rest)

unfoldable pub read_rest : ℕ → ℕ → Bytes → Result Error (Frame × Bytes)
unfolding read_length read_body
read_rest first second rest = if not (nat_beq (bit_and first 0x70) 0) then err reserved_bits else do
  (n, behind) ← read_length (bit_and second 0x7f) rest
  read_body
      (record {
        fin = not (nat_beq (bit_and first 0x80) 0);
        opcode = bit_and first 0x0f;
        payload = [];
      })
      (not (nat_beq (bit_and second 0x80) 0)) n behind

unfoldable pub read_frame : Bytes → Result Error (Frame × Bytes)
unfolding read_rest
read_frame bs = do
  (head, rest) ← read_full io 2 bs
  read_rest (get_or head 0 0) (get_or head 1 0) rest
