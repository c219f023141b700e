-- ===== src/Websocket/Wire.antt =====
-- Frames on the wire (server/internal/realtime/websocket.go): opcodes, close codes, lengths, and
-- the frames that the server writes. Bytes are numbers below 256; a read past the end of the
-- stream, io.ReadFull's error, is `none`.
use veritra.Prelude.{
  ℕ, ◌+◌, ◌*◌, ◌/◌, ◌%◌, ◌^◌, Bool, ◌&&◌, ◌||◌, not, List, [], ◌∷◌, ◌++◌, Option, some, none, ltb,
  leb, ◌==◌, if◌then◌else◌, length, take, drop,
}

abbrev pub max_client_message_size : ℕ
max_client_message_size = 65536

abbrev pub max_control_payload : ℕ
max_control_payload = 125

abbrev pub max_queued_pongs : ℕ
max_queued_pongs = 16

abbrev pub close_protocol_error : ℕ
close_protocol_error = 1002

abbrev pub close_invalid_payload : ℕ
close_invalid_payload = 1007

abbrev pub close_message_too_big : ℕ
close_message_too_big = 1009

abbrev pub op_continuation : ℕ
op_continuation = 0

abbrev pub op_text : ℕ
op_text = 1

abbrev pub op_binary : ℕ
op_binary = 2

abbrev pub op_close : ℕ
op_close = 8

abbrev pub op_ping : ℕ
op_ping = 9

abbrev pub op_pong : ℕ
op_pong = 10

unfoldable pub valid_opcode : ℕ → Bool
valid_opcode opcode = leb opcode op_binary || (leb op_close opcode && leb opcode op_pong)

unfoldable pub valid_close_code : ℕ → Bool
valid_close_code code =
    (leb 3000 code && leb code 4999)
    || ((leb 1000 code && leb code 1003) || (leb 1007 code && leb code 1014))

unfoldable pub read_full : ℕ → List ℕ → Option (List ℕ × List ℕ)
read_full n bytes = if leb n (length bytes) then some (take n bytes, drop n bytes) else none

-- binary.BigEndian
abbrev pub big_endian : ℕ → List ℕ → ℕ
big_endian acc [] = acc
big_endian acc (b ∷ bs) = big_endian (acc * 256 + b) bs

abbrev pub put_uint16 : ℕ → List ℕ
put_uint16 n = n / 256 % 256 ∷ n % 256 ∷ []

abbrev pub put_uint64 : ℕ → List ℕ
put_uint64 n =
    n / 2 ^ 56 % 256
    ∷ n / 2 ^ 48 % 256
    ∷ n / 2 ^ 40 % 256
    ∷ n / 2 ^ 32 % 256
    ∷ n / 2 ^ 24 % 256
    ∷ n / 2 ^ 16 % 256
    ∷ n / 2 ^ 8 % 256
    ∷ n % 256
    ∷ []

-- The bytes of the length in a header that is not masked: the payload's, by the switch.
unfoldable pub length_bytes : ℕ → List ℕ
length_bytes n =
    if leb n 125 then n ∷ [] else if leb n 65535 then 126 ∷ put_uint16 n else 127 ∷ put_uint64 n

-- What reaches the stream, `none` on the error for a control frame that is too large.
unfoldable pub write_frame : ℕ → List ℕ → Option (List ℕ)
write_frame opcode payload =
    if leb op_close opcode && ltb max_control_payload (length payload)
    then none
    else some ((128 + opcode % 128) ∷ (length_bytes (length payload) ++ payload))

unfoldable pub write_close_frame : ℕ → Option (List ℕ)
write_close_frame code =
    if code == 0 then write_frame op_close [] else write_frame op_close (put_uint16 code)

-- The extended length of a frame: the length and the rest, a malformed one, or the end of the
-- stream.
pub data LengthRead : Type 0 where
  read_ok : ℕ → List ℕ → LengthRead
  malformed : LengthRead
  ended : LengthRead

abbrev pub short_enough : Bool → ℕ → List ℕ → LengthRead
short_enough bad n rest = if bad then malformed else read_ok n rest

unfoldable pub read_length : ℕ → List ℕ → LengthRead
read_length n bytes =
    if n == 126
    then (elim (read_full 2 bytes) [
      | none ↦ ended
      | some (buf, rest) ↦ short_enough (ltb (big_endian 0 buf) 126) (big_endian 0 buf) rest
    ])
    else if n == 127
    then (elim (read_full 8 bytes) [
      | none ↦ ended
      | some (buf, rest) ↦
          short_enough (not (big_endian 0 buf / 2 ^ 63 == 0) || leb (big_endian 0 buf) 65535)
            (big_endian 0 buf) rest
    ])
    else read_ok n bytes
