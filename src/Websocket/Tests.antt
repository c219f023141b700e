-- ===== src/Websocket/Tests.antt =====
-- The frame reader on a short stream, where a text is valid if it is ASCII.
use veritra.Prelude.{
  ℕ, suc, ◌≡◌, refl, Bool, true, ◌&&◌, List, [], ◌∷◌, ◌++◌, some, ltb, length, arith,
}
use veritra.Websocket.Wire.{
  valid_opcode, valid_close_code, read_full, read_length, read_ok, length_bytes,
}
use veritra.Websocket.Text.{Utf8, check_utf8_prefix, check_from}
use veritra.Websocket.Frames.{
  Event, answer_ping, inbound_message, reply, new_frame_reader, run, read_round, on_head, on_length,
  on_payload, on_opcode, on_data, deliver, check_text, finish_message, unmask, unmask_with,
  close_answer, parse_close_payload,
}
use veritra.Websocket.Ends.{EndsWell, run-EndsWell}
use veritra.Websocket.Written.{read_lengths, read_lengths-length_bytes}

abbrev all_ascii : List ℕ → Bool
all_ascii [] = true
all_ascii (b ∷ bs) = ltb b 128 && all_ascii bs

abbrev ascii : Utf8
ascii = record { valid = all_ascii; full_rune = λ b. true; decode_rune = λ b. (65533, 1) }

abbrev always : List Event → Bool
always es = true

-- A ping "a", the text "hi" in two frames, and a close frame with code 1000, under the mask 0.
abbrev stream : List ℕ
stream =
    137 ∷ 129 ∷ 0 ∷ 0 ∷ 0 ∷ 0 ∷ 97 ∷ 1 ∷ 129 ∷ 0 ∷ 0 ∷ 0 ∷ 0 ∷ 104 ∷ 128 ∷ 129 ∷ 0 ∷ 0 ∷ 0 ∷ 0 ∷ 105
    ∷ 136 ∷ 130 ∷ 0 ∷ 0 ∷ 0 ∷ 0 ∷ 3 ∷ 232 ∷ []

outcome :
    run ascii always (suc (length stream)) (new_frame_reader stream)
    ≡ some (reply 1000, answer_ping (97 ∷ []) ∷ inbound_message 1 (104 ∷ 105 ∷ []) ∷ [])
unfolding run read_round on_head valid_opcode read_length on_length read_full on_payload on_opcode
    on_data deliver check_text check_utf8_prefix check_from finish_message unmask unmask_with
    close_answer parse_close_payload valid_close_code
outcome = refl

run-EndsWell_example :
    EndsWell ascii always (run ascii always (suc (length stream)) (new_frame_reader stream))
run-EndsWell_example = run-EndsWell ascii always stream

read_lengths-length_bytes_example :
    read_lengths (length_bytes 70000 ++ 5 ∷ []) ≡ read_ok 70000 (5 ∷ [])
read_lengths-length_bytes_example = read_lengths-length_bytes 70000 (5 ∷ []) (omega arith)

normal : valid_close_code 1000 ≡ true
unfolding valid_close_code
normal = refl
