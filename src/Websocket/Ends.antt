-- ===== src/Websocket/Ends.antt =====
-- From the stream of bytes to the end of the frame reader: every round takes bytes, the loop ends,
-- and what it hands on and replies is within the bounds of the protocol.
use veritra.Prelude.{
  ℕ, zero, suc, ◌+◌, ◌/◌, ◌%◌, ◌^◌, ◌≤◌, ◌<◌, ◌≡◌, inl, inr, refl, Bool, true, false, ◌&&◌, ◌||◌,
  not, List, [], ◌∷◌, Option, some, none, ltb, leb, ◌==◌, length, arith, All, length-take,
  length-drop, if_cases, Option-cases,
}
use veritra.Websocket.Wire.{
  max_client_message_size, max_control_payload, op_continuation, op_close, valid_opcode, read_full,
  read_length, short_enough, big_endian, LengthRead, read_ok, malformed, ended,
}
use veritra.Websocket.Text.{Utf8}
use veritra.Websocket.Frames.{
  CloseReply, no_reply, reply, Event, FrameReader, new_frame_reader, Round, stopped, proceed,
  unmask_with, on_payload, on_length, on_length_read, out_of_place, on_head, read_frame, read_round,
  run,
}
use veritra.Websocket.Rounds.{
  IsSendable, IsGood, IsTame, Holds, length-unmask_with, protocol_error, too_big, on_payload-IsTame,
}

read_full-length :
    (n : ℕ) (bytes a rest : List ℕ)
    → read_full n bytes ≡ some (a, rest)
    → (length a ≡ n) × (length rest ≤ length bytes)
unfolding read_full
read_full-length n bytes a rest h = ground (arith, length-take n bytes, length-drop n bytes)

-- A length is read from in front.
abbrev Shorter : ℕ → LengthRead → Type 0
Shorter k (read_ok n rest) = length rest ≤ k
Shorter k malformed = Unit
Shorter k ended = Unit

short_enough-Shorter :
    (k : ℕ) (bad : Bool) (n : ℕ) (rest : List ℕ)
    → length rest ≤ k
    → Shorter k (short_enough bad n rest)
short_enough-Shorter k true n rest h = tt
short_enough-Shorter k false n rest h = h

extended-Shorter :
    (k : ℕ) (bad : List ℕ → Bool) (bytes : List ℕ)
    → Shorter (length bytes) (elim (read_full k bytes) [
      | none ↦ ended
      | some (buf, rest) ↦ short_enough (bad buf) (big_endian 0 buf) rest
    ])
extended-Shorter k bad bytes = go (read_full k bytes) refl
  where
    go :
        (o : Option (List ℕ × List ℕ))
        → read_full k bytes ≡ o
        → Shorter (length bytes) (elim o [
          | none ↦ ended
          | some (buf, rest) ↦ short_enough (bad buf) (big_endian 0 buf) rest
        ])
    go none e = tt
    go (some (buf, rest)) e =
        short_enough-Shorter (length bytes) (bad buf) (big_endian 0 buf) rest
          (read_full-length k bytes buf rest e).1

read_length-Shorter : (n : ℕ) (bytes : List ℕ) → Shorter (length bytes) (read_length n bytes)
unfolding read_length
read_length-Shorter n bytes =
    if_cases (Shorter (length bytes)) (n == 126) _ _
      (λ e. extended-Shorter 2 (λ buf. ltb (big_endian 0 buf) 126) bytes)
      (λ e.
        if_cases (Shorter (length bytes)) (n == 127) _ _
          (λ x.
            extended-Shorter 8
              (λ buf. not (big_endian 0 buf / 2 ^ 63 == 0) || leb (big_endian 0 buf) 65535) bytes)
          (λ x. omega arith))

module _ (u : Utf8) (taken : List Event → Bool) where
  on_length-IsTame :
      (n opcode : ℕ) (fin : Bool) (size : ℕ) (bytes : List ℕ) (f : FrameReader)
      → valid_opcode opcode ≡ true
      → (opcode ≡ 0 → 0 < f.fragmented_opcode)
      → length bytes < n
      → IsTame (suc (length f.input)) f
      → Holds (IsTame n) (on_length u taken opcode fin size bytes f)
  unfolding on_length
  on_length-IsTame n opcode fin size bytes f valid continues short t =
      if_cases (Holds (IsTame n)) (leb op_close opcode && ltb max_control_payload size) _ _
        (λ e. protocol_error)
        (λ small.
          if_cases (Holds (IsTame n))
            (ltb max_client_message_size size
              || (opcode == op_continuation
                  && ltb max_client_message_size (length f.fragmented_payload + size)))
            _ _ (λ e. too_big) (λ fits. go small fits (read_full 4 bytes) refl))
    where
      whole :
          (mask rest payload left : List ℕ)
          → read_full 4 bytes ≡ some (mask, rest)
          → read_full size rest ≡ some (payload, left)
          → (leb op_close opcode && ltb max_control_payload size) ≡ false
          → (ltb max_client_message_size size
              || (opcode == op_continuation
                  && ltb max_client_message_size (length f.fragmented_payload + size)))
            ≡ false
          → Holds
              (IsTame n)
              (on_payload u taken opcode fin (unmask_with mask payload) (record f { input = left }))
      whole mask rest payload left e1 e2 small fits =
          let l1 = read_full-length 4 bytes mask rest e1 in
          let l2 = read_full-length size rest payload left e2 in
          let same = length-unmask_with mask payload in
          on_payload-IsTame u taken n opcode fin (unmask_with mask payload)
            (record f { input = left }) valid
            (
              ground (arith, same, l2.0, fits),
              (λ c. ground (arith, same, l2.0, small)),
              (λ z. ground (arith, same, l2.0, fits)),
            )
            (
              record {
                opcode_le = t.opcode_le;
                payload_le = t.payload_le;
                all_good = t.all_good;
                left_lt = omega (arith, l1.1, l2.1, short);
              },
              continues,
            )

      go :
          (leb op_close opcode && ltb max_control_payload size) ≡ false
          → (ltb max_client_message_size size
              || (opcode == op_continuation
                  && ltb max_client_message_size (length f.fragmented_payload + size)))
            ≡ false
          → (o : Option (List ℕ × List ℕ)) → read_full 4 bytes ≡ o
          → Holds (IsTame n) (elim o [
            | none ↦ stopped no_reply
            | some (mask, rest) ↦ elim (read_full size rest) [
              | none ↦ stopped no_reply
              | some (payload, left) ↦
                  on_payload u taken opcode fin
                    (unmask_with mask payload)
                    (record f { input = left })
            ]
          ])
      go small fits none e = inl refl
      go small fits (some (mask, rest)) e = elim (Option-cases (read_full size rest)) [
        | inl x ↦ rw x (inl refl)
        | inr ((payload, left), x) ↦ rw x (whole mask rest payload left e x small fits)
      ]

  on_length_read-IsTame :
      (n k opcode : ℕ) (fin : Bool) (l : LengthRead) (f : FrameReader)
      → valid_opcode opcode ≡ true
      → (opcode ≡ 0 → 0 < f.fragmented_opcode)
      → Shorter k l
      → k < n
      → IsTame (suc (length f.input)) f
      → Holds (IsTame n) (on_length_read u taken opcode fin l f)
  on_length_read-IsTame n k opcode fin (read_ok size bytes) f valid continues short less t =
      on_length-IsTame n opcode fin size bytes f valid continues (omega (arith, short, less)) t
  on_length_read-IsTame n k opcode fin malformed f valid continues short less t = protocol_error
  on_length_read-IsTame n k opcode fin ended f valid continues short less t = inl refl

  on_head-IsTame :
      (first second : ℕ) (bytes : List ℕ) (f : FrameReader)
      → IsTame (suc (length f.input)) f
      → Holds (IsTame (suc (suc (length bytes)))) (on_head u taken first second bytes f)
  unfolding on_head
  on_head-IsTame first second bytes f t =
      if_cases (Holds (IsTame n)) (not (first / 16 % 8 == 0) || not (valid_opcode (first % 16))) _ _
        (λ e. protocol_error)
        (λ valid.
          if_cases (Holds (IsTame n)) (out_of_place (first % 16) (leb 128 first) f) _ _
            (λ e. protocol_error)
            (λ placed.
              if_cases (Holds (IsTame n)) (ltb second 128) _ _ (λ e. protocol_error)
                (λ masked.
                  on_length_read-IsTame n (length bytes) (first % 16) (leb 128 first)
                    (read_length (second % 128) bytes) f (ground (arith, valid))
                    (λ z. ground (arith, placed, z)) (read_length-Shorter (second % 128) bytes)
                    (omega arith) t)))
    where
      n : ℕ
      n = suc (suc (length bytes))

  read_frame-IsTame :
      (bytes : List ℕ) (f : FrameReader)
      → IsTame (suc (length f.input)) f
      → Holds (IsTame (length bytes)) (read_frame u taken bytes f)
  read_frame-IsTame [] f t = inl refl
  read_frame-IsTame (first ∷ []) f t = inl refl
  read_frame-IsTame (first ∷ second ∷ bytes) f t = on_head-IsTame first second bytes f t

  -- With more fuel than there are bytes, the loop ends, with a sendable reply, and everything that
  -- it handed on is within the bounds.
  abbrev pub EndsWell : Option (CloseReply × List Event) → Type 0
  EndsWell none = ⊥
  EndsWell (some (r, es)) = IsSendable r × All IsGood es

  run_from :
      (fuel : ℕ) (f : FrameReader)
      → length f.input < fuel
      → IsTame (suc (length f.input)) f
      → EndsWell (run u taken fuel f)
  unfolding run read_round
  run_from zero f enough t = absurd (omega (arith, enough))
  run_from (suc fuel) f enough t =
      go (λ g l s. run_from fuel g l s) (read_frame u taken f.input f)
        (read_frame-IsTame f.input f t)
    where
      go :
          ((g : FrameReader)
            → length g.input < fuel
            → IsTame (suc (length g.input)) g
            → EndsWell (run u taken fuel g))
          → (r : Round) → Holds (IsTame (length f.input)) r
          → EndsWell
              (elim r [ stopped reply ↦ some (reply, f.events) | proceed g ↦ run u taken fuel g ])
      go again (stopped r) h = (h, t.all_good)
      go again (proceed g) h = again g (omega (arith, h.left_lt, enough)) (record {
        opcode_le = h.opcode_le;
        payload_le = h.payload_le;
        all_good = h.all_good;
        left_lt = omega arith;
      })

  -- For every stream of bytes the frame reader stops within one round more than there are bytes,
  -- with no reply or a close frame that is empty or has a code that an endpoint may send, having
  -- handed on only pongs of at most 125 bytes and text or binary messages of at most 64 KiB.
  pub run-EndsWell :
      (bytes : List ℕ) → EndsWell (run u taken (suc (length bytes)) (new_frame_reader bytes))
  run-EndsWell bytes =
      run_from (suc (length bytes)) (new_frame_reader bytes) (omega arith) (record {
        opcode_le = omega arith;
        payload_le = omega arith;
        all_good = tt;
        left_lt = omega arith;
      })
