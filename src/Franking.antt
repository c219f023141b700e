-- ===== src/Franking.antt =====
-- The commitment of a franked message (server/internal/franking/franking.go). A Go string is its
-- bytes here, and HMAC-SHA256, from a key and a message, is a parameter.
use veritra.Prelude.{
  ℕ, ◌<◌, ◌+◌, ◌*◌, ◌++◌, ◌⊎◌, inl, inr, Bool, false, not, ◌||◌, List, [], ◌∷◌, length, ltb, ◌==◌,
  if◌then◌else◌,
}
use veritra.Prelude.Rows.{Bytes, any, bytes_equal}
use veritra.Prelude.Fields.{put_uint32, prefixed_by}
pub mod Binding
mod Tests

abbrev pub key_size : ℕ
key_size = 32

abbrev pub commit_size : ℕ
commit_size = 32

abbrev pub max_id_size : ℕ
max_id_size = 128

abbrev pub max_payload_size : ℕ
max_payload_size = 64 * 1024

-- "veritra-frank-v1"
abbrev pub label : Bytes
label =
    118 ∷ 101 ∷ 114 ∷ 105 ∷ 116 ∷ 114 ∷ 97 ∷ 45 ∷ 102 ∷ 114 ∷ 97 ∷ 110 ∷ 107 ∷ 45 ∷ 118 ∷ 49 ∷ []

pub data FrankError : Type 0 where
  err_key_size : FrankError
  err_invalid_input : FrankError

pub record Context : Type 0 where
  pub conversation_id : Bytes
  pub sender_device_id : Bytes
  pub action_id : Bytes

-- A length of 0 or over the bound.
abbrev pub out_of_bounds : ℕ → Bytes → Bool
out_of_bounds bound field = length field == 0 || ltb bound (length field)

-- The loop that writes each field behind its length.
abbrev pub write_fields : List Bytes → Bytes
write_fields [] = []
write_fields (f ∷ fields) = prefixed_by put_uint32 f ++ write_fields fields

-- What is written to the MAC.
abbrev pub frank_message : Context → Bytes → Bytes
frank_message ctx payload =
    label
    ++ write_fields (ctx.conversation_id ∷ ctx.sender_device_id ∷ ctx.action_id ∷ payload ∷ [])

unfoldable pub commit : (Bytes → Bytes → Bytes) → Bytes → Context → Bytes → FrankError ⊎ Bytes
commit hmac kf ctx payload =
    if not (length kf == key_size)
    then inl err_key_size
    else if any (out_of_bounds max_id_size)
        (ctx.conversation_id ∷ ctx.sender_device_id ∷ ctx.action_id ∷ [])
    then inl err_invalid_input
    else if out_of_bounds max_payload_size payload
    then inl err_invalid_input
    else inr (hmac kf (frank_message ctx payload))

unfoldable pub verify : (Bytes → Bytes → Bytes) → Bytes → Bytes → Context → Bytes → Bool
verify hmac c kf ctx payload = elim (commit hmac kf ctx payload) [
  | inl e ↦ false
  | inr want ↦ if not (length c == commit_size) then false else bytes_equal c want
]
