-- ===== src/Websocket/Frames.antt =====
-- The frame reader (`frameReader` of server/internal/realtime/websocket.go). The stream is the
-- bytes that the peer sends before the connection ends. What the reader hands on, pongs to answer
-- and complete messages, is recorded in order; the read deadline is not.
use Prim.Native.Nat.{bit_xor}
use veritra.Prelude.{
  ℕ, zero, suc, ◌+◌, ◌*◌, ◌/◌, ◌%◌, Bool, true, false, ◌&&◌, ◌||◌, not, List, [], ◌∷◌, ◌++◌, Option,
  some, none, ltb, leb, ◌==◌, if◌then◌else◌, length, drop,
}
use veritra.Websocket.Wire.{
  max_client_message_size, max_control_payload, max_queued_pongs, close_protocol_error,
  close_invalid_payload, close_message_too_big, op_continuation, op_text, op_binary, op_close,
  op_ping, op_pong, valid_opcode, valid_close_code, read_full, read_length, LengthRead, read_ok,
  malformed, ended,
}
use veritra.Websocket.Text.{Utf8, check_utf8_prefix}

pub record CloseReply : Type 0 where
  pub send : Bool
  pub code : ℕ

abbrev pub no_reply : CloseReply
no_reply = record { send = false; code = 0 }

abbrev pub reply : ℕ → CloseReply
reply code = record { send = true; code = code }

pub data Event : Type 0 where
  answer_ping : List ℕ → Event
  inbound_message : ℕ → List ℕ → Event

-- The variables of `run`; fragmented_opcode is 0 where no message is open.
pub record FrameReader : Type 0 where
  pub input : List ℕ
  pub fragmented_opcode : ℕ
  pub fragmented_payload : List ℕ
  pub utf8_checked : ℕ
  pub events : List Event

abbrev pub new_frame_reader : List ℕ → FrameReader
new_frame_reader bytes = record {
  input = bytes;
  fragmented_opcode = 0;
  fragmented_payload = [];
  utf8_checked = 0;
  events = [];
}

-- A round of the loop returns, or goes on.
pub data Round : Type 0 where
  stopped : CloseReply → Round
  proceed : FrameReader → Round

abbrev pub and_then : Round → (FrameReader → Round) → Round
and_then (stopped r) k = stopped r
and_then (proceed f) k = k f

-- payload[i] ^= mask[i%4]
unfoldable pub unmask : ℕ → ℕ → ℕ → ℕ → List ℕ → List ℕ
unmask a b c d [] = []
unmask a b c d (p ∷ ps) = bit_xor p a ∷ unmask b c d a ps

-- The mask is the four bytes that were read.
unfoldable pub unmask_with : List ℕ → List ℕ → List ℕ
unmask_with (a ∷ b ∷ c ∷ d ∷ mask) payload = unmask a b c d payload
unmask_with _ payload = payload

unfoldable pub parse_close_payload : Utf8 → List ℕ → Option ℕ
parse_close_payload u [] = some 0
parse_close_payload u (a ∷ []) = none
parse_close_payload u (a ∷ b ∷ reason) =
    if not (valid_close_code (a * 256 + b)) || not (u.valid reason)
    then none
    else some (a * 256 + b)

-- The case of a close frame.
unfoldable pub close_answer : Utf8 → List ℕ → CloseReply
close_answer u payload = elim (parse_close_payload u payload) [
  | some code ↦ reply code
  | none ↦
      if ltb 2 (length payload) && not (u.valid (drop 2 payload))
      then reply close_invalid_payload
      else reply close_protocol_error
]

-- `deliver`; `taken` says whether the sink, if there is one, takes the message before the stop.
unfoldable pub deliver : (List Event → Bool) → ℕ → List ℕ → FrameReader → Round
deliver taken opcode payload f =
    if taken f.events
    then proceed (record f { events = f.events ++ inbound_message opcode payload ∷ [] })
    else stopped no_reply

-- The case of a data frame that opens a message.
unfoldable pub on_data : Utf8 → (List Event → Bool) → ℕ → Bool → List ℕ → FrameReader → Round
on_data u taken opcode fin payload f =
    if fin
    then (if opcode == op_text && not (u.valid payload)
        then stopped (reply close_invalid_payload)
        else deliver taken opcode payload f)
    else proceed
        (record f { fragmented_opcode = opcode; fragmented_payload = payload; utf8_checked = 0 })

-- The switch on the opcode.
unfoldable pub on_opcode : Utf8 → (List Event → Bool) → ℕ → Bool → List ℕ → FrameReader → Round
on_opcode u taken opcode fin payload f =
    if opcode == op_close
    then stopped (close_answer u payload)
    else if opcode == op_ping
    then proceed (record f { events = f.events ++ answer_ping payload ∷ [] })
    else if opcode == op_pong
    then proceed f
    else if opcode == op_continuation
    then proceed (record f { fragmented_payload = f.fragmented_payload ++ payload })
    else on_data u taken opcode fin payload f

-- The check of the text so far.
unfoldable pub check_text : Utf8 → ℕ → Bool → FrameReader → Round
check_text u opcode fin f =
    let (checked, ok) = check_utf8_prefix u f.fragmented_payload f.utf8_checked in
    if f.fragmented_opcode == op_text && (opcode == op_text || opcode == op_continuation)
    then (if not ok || (fin && not (checked == length f.fragmented_payload))
        then stopped (reply close_invalid_payload)
        else proceed (record f { utf8_checked = checked }))
    else proceed f

abbrev pub reset_message : FrameReader → FrameReader
reset_message f = record f { fragmented_opcode = 0; fragmented_payload = []; utf8_checked = 0 }

-- The end of a fragmented message.
unfoldable pub finish_message : (List Event → Bool) → ℕ → Bool → FrameReader → Round
finish_message taken opcode fin f =
    if opcode == op_continuation && fin
    then and_then (deliver taken f.fragmented_opcode f.fragmented_payload f)
        (λ g. proceed (reset_message g))
    else proceed f

-- A complete frame.
unfoldable pub on_payload : Utf8 → (List Event → Bool) → ℕ → Bool → List ℕ → FrameReader → Round
on_payload u taken opcode fin payload f =
    and_then (on_opcode u taken opcode fin payload f)
      (λ g. and_then (check_text u opcode fin g) (λ h. finish_message taken opcode fin h))

-- From the length on: the bounds, the mask and the payload.
unfoldable pub on_length : Utf8 → (List Event → Bool) → ℕ → Bool → ℕ → List ℕ → FrameReader → Round
on_length u taken opcode fin n bytes f =
    if leb op_close opcode && ltb max_control_payload n
    then stopped (reply close_protocol_error)
    else if ltb max_client_message_size n
        || (opcode == op_continuation
            && ltb max_client_message_size (length f.fragmented_payload + n))
    then stopped (reply close_message_too_big)
    else (elim (read_full 4 bytes) [
      | none ↦ stopped no_reply
      | some (mask, rest) ↦ elim (read_full n rest) [
        | none ↦ stopped no_reply
        | some (payload, left) ↦
            on_payload u taken opcode fin (unmask_with mask payload) (record f { input = left })
      ]
    ])

abbrev pub on_length_read : Utf8 → (List Event → Bool) → ℕ → Bool → LengthRead → FrameReader → Round
on_length_read u taken opcode fin (read_ok n bytes) f = on_length u taken opcode fin n bytes f
on_length_read u taken opcode fin malformed f = stopped (reply close_protocol_error)
on_length_read u taken opcode fin ended f = stopped no_reply

-- A frame that has no place here: a fragmented control frame, a continuation of nothing, or a new
-- message inside another.
abbrev pub out_of_place : ℕ → Bool → FrameReader → Bool
out_of_place opcode fin f =
    (leb op_close opcode && not fin)
    || ((opcode == op_continuation && f.fragmented_opcode == 0)
        || ((opcode == op_text || opcode == op_binary) && not (f.fragmented_opcode == 0)))

-- One round of `run`, from its two bytes on.
unfoldable pub on_head : Utf8 → (List Event → Bool) → ℕ → ℕ → List ℕ → FrameReader → Round
on_head u taken first second bytes f =
    let opcode = first % 16 in
    let fin = leb 128 first in
    if not (first / 16 % 8 == 0) || not (valid_opcode opcode)
    then stopped (reply close_protocol_error)
    else if out_of_place opcode fin f
    then stopped (reply close_protocol_error)
    else if ltb second 128
    then stopped (reply close_protocol_error)
    else on_length_read u taken opcode fin (read_length (second % 128) bytes) f

abbrev pub read_frame : Utf8 → (List Event → Bool) → List ℕ → FrameReader → Round
read_frame u taken (first ∷ second ∷ bytes) f = on_head u taken first second bytes f
read_frame u taken _ f = stopped no_reply

unfoldable pub read_round : Utf8 → (List Event → Bool) → FrameReader → Round
read_round u taken f = read_frame u taken f.input f

-- The loop of `run`: the reply and what was handed on, `none` where the fuel is used up.
unfoldable pub run : Utf8 → (List Event → Bool) → ℕ → FrameReader → Option (CloseReply × List Event)
run u taken zero f = none
run u taken (suc fuel) f = elim (read_round u taken f) [
  | stopped r ↦ some (r, f.events)
  | proceed g ↦ run u taken fuel g
]

-- `queuePong` on the channel's queue: the loop drops the oldest until the payload fits.
unfoldable pub queue_pong : List ℕ → List (List ℕ) → List (List ℕ)
queue_pong payload [] = payload ∷ []
queue_pong payload (oldest ∷ queue) =
    let fewer = queue_pong payload queue in
    if ltb (length (oldest ∷ queue)) max_queued_pongs
    then (oldest ∷ queue) ++ payload ∷ []
    else fewer
