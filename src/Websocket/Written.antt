-- ===== src/Websocket/Written.antt =====
-- The frames that the server writes: their lengths are the minimal ones, which the reader's rule
-- for lengths reads back, and a close frame is always written.
use veritra.Prelude.{
  ℕ, suc, ◌+◌, ◌-◌, ◌*◌, ◌/◌, ◌%◌, ◌^◌, ◌<◌, ◌≡◌, ◌≢◌, subst, refl, true, List, [], ◌∷◌, ◌++◌, some,
  ltb, leb, length, drop, arith, tests, Bool-cases, inl, inr,
}
use veritra.Websocket.Wire.{
  max_queued_pongs, valid_close_code, big_endian, put_uint16, put_uint64, length_bytes, write_frame,
  write_close_frame, read_full, read_length, read_ok, malformed, LengthRead,
}
use veritra.Websocket.Frames.{queue_pong, parse_close_payload}
use veritra.Websocket.Text.{Utf8}

-- The first byte of a length, its seven bits, and what stands behind it.
abbrev pub read_lengths : List ℕ → LengthRead
read_lengths [] = malformed
read_lengths (b ∷ bs) = read_length (b % 128) bs

sixteen : (n : ℕ) → n < 2 ^ 16 → big_endian 0 (put_uint16 n) ≡ n
sixteen n h = omega (arith, h)

sixty_four : (n : ℕ) → n < 2 ^ 64 → big_endian 0 (put_uint64 n) ≡ n
sixty_four n h = omega (arith, h)

-- The length that the server writes in a frame header, for every payload below 2^63 bytes, is
-- read back by the rule for lengths of the frame reader, with what follows left.
pub read_lengths-length_bytes :
    (n : ℕ) (rest : List ℕ) → n < 2 ^ 63 → read_lengths (length_bytes n ++ rest) ≡ read_ok n rest
unfolding length_bytes read_length read_full
read_lengths-length_bytes n rest h = elim (Bool-cases (leb n 125)) [
  | inl small ↦ rw small (ground arith)
  | inr large ↦ elim (Bool-cases (leb n 65535)) [
    | inl medium ↦ rw (large, medium) (ground (arith, sixteen n))
    | inr long ↦ rw (large, long) (ground (arith, sixty_four n))
  ]
]

-- Queueing a pong keeps the last pongs that the queue has room for, in order, the new one at the
-- end.
pub queue_pong-drop :
    (payload : List ℕ) (queue : List (List ℕ))
    → queue_pong payload queue ≡ drop (length queue + 1 - max_queued_pongs) (queue ++ payload ∷ [])
unfolding queue_pong
queue_pong-drop payload [] = refl
queue_pong-drop payload (oldest ∷ queue) =
    elim (Bool-cases (ltb (suc (length queue)) max_queued_pongs)) [
      | inl room ↦
          let none_dropped : suc (length queue) + 1 - max_queued_pongs ≡ 0 = omega tests in
          rw (room, none_dropped) refl
      | inr full ↦
          let one_more : suc (length queue) + 1 - max_queued_pongs
              ≡ suc (length queue + 1 - max_queued_pongs) =
            omega tests in
          rw (full, one_more) (queue_pong-drop payload queue)
    ]

not_zero : valid_close_code 0 ≢ true
unfolding valid_close_code
not_zero e = cc

code_bound : (code : ℕ) → valid_close_code code ≡ true → code < 2 ^ 16
unfolding valid_close_code
code_bound code good = ground arith

code_back : (code : ℕ) → code < 2 ^ 16 → code / 256 % 256 * 256 + code % 256 ≡ code
code_back code h = omega (arith, h)

-- A close frame with a code that an endpoint may send is written, with a body that the parser of
-- close bodies reads as the code, provided the empty text is valid.
pub write_close_frame_lem :
    (u : Utf8) (code : ℕ)
    → u.valid [] ≡ true
    → valid_close_code code ≡ true
    → (body : List ℕ) × (write_close_frame code ≡ some (136 ∷ 2 ∷ body))
      × (parse_close_payload u body ≡ some code)
unfolding write_close_frame write_frame parse_close_payload length_bytes
write_close_frame_lem u code text good =
    let pos : code ≢ 0 = (λ e. not_zero (subst (λ c. valid_close_code c ≡ true) e good)) in
    let small : code < 2 ^ 16 = code_bound code good in
    (put_uint16 code, ground (arith, pos), rw (code_back code small, good, text) refl)
