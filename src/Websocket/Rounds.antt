-- ===== src/Websocket/Rounds.antt =====
-- What every round of the frame reader keeps, what it replies, and that the loop ends.
use veritra.Prelude.{
  ℕ, suc, ◌+◌, ◌≤◌, ◌<◌, ◌≡◌, ◌⊎◌, inl, inr, refl, ap, Bool, true, false, ◌&&◌, ◌||◌, not, List, [],
  ◌∷◌, some, ltb, ◌==◌, length, drop, arith, All, All-append, length-append, if_cases, Option-cases,
}
use veritra.Websocket.Wire.{
  max_client_message_size, max_control_payload, close_protocol_error, close_invalid_payload,
  close_message_too_big, op_continuation, op_text, op_close, op_ping, op_pong, valid_opcode,
  valid_close_code,
}
use veritra.Websocket.Text.{Utf8, check_utf8_prefix}
use veritra.Websocket.Frames.{
  CloseReply, reply, Event, answer_ping, inbound_message, FrameReader, Round, stopped, proceed,
  and_then, unmask, unmask_with, parse_close_payload, close_answer, deliver, on_data, on_opcode,
  check_text, finish_message, on_payload,
}

-- No close frame, an empty one, or one with a code that an endpoint may send.
abbrev pub IsSendable : CloseReply → Type 0
IsSendable r = (r.send ≡ false) ⊎ (r.code ≡ 0) ⊎ (valid_close_code r.code ≡ true)

-- A pong within the bound of control frames; a text or binary message within the bound of messages.
abbrev pub IsGood : Event → Type 0
IsGood (answer_ping p) = length p ≤ max_control_payload
IsGood (inbound_message opcode p) =
    (0 < opcode) × (opcode ≤ 2) × (length p ≤ max_client_message_size)

-- The variables are within their bounds, and fewer than n bytes are left.
pub record IsTame (n : ℕ) (f : FrameReader) : Type 0 where
  pub opcode_le : f.fragmented_opcode ≤ 2
  pub payload_le : length f.fragmented_payload ≤ max_client_message_size
  pub all_good : All IsGood f.events
  pub left_lt : length f.input < n

-- A reply is sendable; a reader that goes on has the property.
abbrev pub Holds : (FrameReader → Type 0) → Round → Type 0
Holds P (stopped r) = IsSendable r
Holds P (proceed g) = P g

and_then-Holds :
    (P Q : FrameReader → Type 0) (r : Round) (k : FrameReader → Round)
    → Holds P r
    → ((g : FrameReader) → P g → Holds Q (k g))
    → Holds Q (and_then r k)
and_then-Holds P Q (stopped r) k h s = h
and_then-Holds P Q (proceed g) k h s = s g h

length-unmask : (a b c d : ℕ) (p : List ℕ) → length (unmask a b c d p) ≡ length p
unfolding unmask
length-unmask a b c d [] = refl
length-unmask a b c d (x ∷ p) = ap suc (length-unmask b c d a p)

pub length-unmask_with : (mask p : List ℕ) → length (unmask_with mask p) ≡ length p
unfolding unmask_with
length-unmask_with [] p = refl
length-unmask_with (a ∷ []) p = refl
length-unmask_with (a ∷ b ∷ []) p = refl
length-unmask_with (a ∷ b ∷ c ∷ []) p = refl
length-unmask_with (a ∷ b ∷ c ∷ d ∷ mask) p = length-unmask a b c d p

sendable : (code : ℕ) → valid_close_code code ≡ true → IsSendable (reply code)
sendable code h = inr (inr h)

pub protocol_error : IsSendable (reply close_protocol_error)
unfolding valid_close_code
protocol_error = inr (inr refl)

invalid_payload : IsSendable (reply close_invalid_payload)
unfolding valid_close_code
invalid_payload = inr (inr refl)

pub too_big : IsSendable (reply close_message_too_big)
unfolding valid_close_code
too_big = inr (inr refl)

parsed_code :
    (u : Utf8) (payload : List ℕ) (code : ℕ)
    → parse_close_payload u payload ≡ some code
    → (code ≡ 0) ⊎ (valid_close_code code ≡ true)
unfolding parse_close_payload
parsed_code u [] code h = inl (ground arith)
parsed_code u (a ∷ []) code h = cc
parsed_code u (a ∷ b ∷ reason) code h = ground arith

close_answer-IsSendable : (u : Utf8) (payload : List ℕ) → IsSendable (close_answer u payload)
unfolding close_answer
close_answer-IsSendable u payload = elim (Option-cases (parse_close_payload u payload)) [
  | inl e ↦
      rw (e, close_answer)
        (if_cases IsSendable (ltb 2 (length payload) && not (u.valid (drop 2 payload))) _ _
          (λ x. invalid_payload) (λ x. protocol_error))
  | inr (code, e) ↦ rw (e, close_answer) (inr (parsed_code u payload code e))
]

-- In the middle of a round on a frame: a continuation continues something.
abbrev Mid : ℕ → ℕ → FrameReader → Type 0
Mid n opcode g = IsTame n g × (opcode ≡ 0 → 0 < g.fragmented_opcode)

module _ (u : Utf8) (taken : List Event → Bool) (n opcode : ℕ) (fin : Bool) where
  deliver-IsTame :
      (kind : ℕ) (p : List ℕ) (f : FrameReader)
      → (0 < kind) × (kind ≤ 2) × (length p ≤ max_client_message_size)
      → IsTame n f
      → Holds (IsTame n) (deliver taken kind p f)
  unfolding deliver
  deliver-IsTame kind p f good t =
      if_cases (Holds (IsTame n)) (taken f.events) _ _
        (λ e. record {
          opcode_le = t.opcode_le;
          payload_le = t.payload_le;
          all_good = All-append IsGood f.events (inbound_message kind p ∷ []) t.all_good (good, tt);
          left_lt = t.left_lt;
        })
        (λ e. inl refl)

  finish_message-IsTame :
      (f : FrameReader) → Mid n opcode f → Holds (IsTame n) (finish_message taken opcode fin f)
  unfolding finish_message
  finish_message-IsTame f (t, continues) =
      if_cases (Holds (IsTame n)) (opcode == op_continuation && fin) _ _
        (λ e.
          and_then-Holds (IsTame n) (IsTame n) _ _
            (deliver-IsTame f.fragmented_opcode f.fragmented_payload f
              (ground arith, t.opcode_le, t.payload_le) t)
            (λ g s. record {
              opcode_le = omega arith;
              payload_le = omega arith;
              all_good = s.all_good;
              left_lt = s.left_lt;
            }))
        (λ e. t)

  checked-Mid :
      (f : FrameReader) (k : ℕ) → Mid n opcode f → Mid n opcode (record f { utf8_checked = k })
  checked-Mid f k (t, continues) = (
    record {
      opcode_le = t.opcode_le;
      payload_le = t.payload_le;
      all_good = t.all_good;
      left_lt = t.left_lt;
    },
    continues,
  )

  check_text-Mid :
      (f : FrameReader) → Mid n opcode f → Holds (Mid n opcode) (check_text u opcode fin f)
  unfolding check_text
  check_text-Mid f m =
      let c : ℕ × Bool = check_utf8_prefix u f.fragmented_payload f.utf8_checked in
      if_cases (Holds (Mid n opcode))
        (f.fragmented_opcode == op_text && (opcode == op_text || opcode == op_continuation)) _ _
        (λ e.
          if_cases (Holds (Mid n opcode))
            (not c.1 || (fin && not (c.0 == length f.fragmented_payload)))
            (stopped (reply close_invalid_payload)) (proceed (record f { utf8_checked = c.0 }))
            (λ x. invalid_payload) (λ x. checked-Mid f c.0 m))
        (λ e. m)

  -- What the frame's length was checked for.
  abbrev Fits : ℕ → FrameReader → Type 0
  Fits size f =
      (size ≤ max_client_message_size)
      × (8 ≤ opcode → size ≤ max_control_payload)
      × (opcode ≡ 0 → length f.fragmented_payload + size ≤ max_client_message_size)

  opened-Mid : (r : Round) → 0 < opcode → Holds (IsTame n) r → Holds (Mid n opcode) r
  opened-Mid (stopped r) pos h = h
  opened-Mid (proceed g) pos h = (h, λ e. absurd (omega (arith, e, pos)))

  on_data-Mid :
      (p : List ℕ) (f : FrameReader)
      → 0 < opcode
      → opcode ≤ 2
      → length p ≤ max_client_message_size
      → IsTame n f
      → Holds (Mid n opcode) (on_data u taken opcode fin p f)
  unfolding on_data
  on_data-Mid p f pos le fits t =
      if_cases (Holds (Mid n opcode)) fin _ _
        (λ whole.
          if_cases (Holds (Mid n opcode)) (opcode == op_text && not (u.valid p))
            (stopped (reply close_invalid_payload)) (deliver taken opcode p f)
            (λ e. invalid_payload)
            (λ e.
              opened-Mid (deliver taken opcode p f) pos
                (deliver-IsTame opcode p f (pos, le, fits) t)))
        (λ part. (
          record { opcode_le = le; payload_le = fits; all_good = t.all_good; left_lt = t.left_lt },
          λ e. pos,
        ))

  small :
      valid_opcode opcode ≡ true
      → (opcode == op_close) ≡ false
      → (opcode == op_ping) ≡ false
      → (opcode == op_pong) ≡ false
      → opcode ≤ 2
  unfolding valid_opcode
  small v a b c = ground arith

  on_opcode-Mid :
      (p : List ℕ) (f : FrameReader)
      → valid_opcode opcode ≡ true
      → Fits (length p) f
      → Mid n opcode f
      → Holds (Mid n opcode) (on_opcode u taken opcode fin p f)
  unfolding on_opcode
  on_opcode-Mid p f valid (fits, control, joined) (t, continues) =
      if_cases (Holds (Mid n opcode)) (opcode == op_close) _ _ (λ e. close_answer-IsSendable u p)
        (λ not_close.
          if_cases (Holds (Mid n opcode)) (opcode == op_ping) _ _
            (λ e. (
              record {
                opcode_le = t.opcode_le;
                payload_le = t.payload_le;
                all_good =
                    All-append IsGood f.events (answer_ping p ∷ []) t.all_good (ground arith, tt);
                left_lt = t.left_lt;
              },
              continues,
            ))
            (λ not_ping.
              if_cases (Holds (Mid n opcode)) (opcode == op_pong) _ _ (λ e. (t, continues))
                (λ not_pong.
                  if_cases (Holds (Mid n opcode)) (opcode == op_continuation) _ _
                    (λ e. (
                      record {
                        opcode_le = t.opcode_le;
                        payload_le = ground (arith, length-append f.fragmented_payload p);
                        all_good = t.all_good;
                        left_lt = t.left_lt;
                      },
                      continues,
                    ))
                    (λ data_frame.
                      on_data-Mid p f (ground arith) (small valid not_close not_ping not_pong) fits
                        t))))

  pub on_payload-IsTame :
      (p : List ℕ) (f : FrameReader)
      → valid_opcode opcode ≡ true
      → Fits (length p) f
      → Mid n opcode f
      → Holds (IsTame n) (on_payload u taken opcode fin p f)
  unfolding on_payload
  on_payload-IsTame p f valid fits m =
      and_then-Holds (Mid n opcode) (IsTame n) _ _ (on_opcode-Mid p f valid fits m) (λ g s.
        and_then-Holds (Mid n opcode) (IsTame n) _ _ (check_text-Mid g s)
          (λ h z. finish_message-IsTame h z))
