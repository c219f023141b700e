-- ===== src/Franking/Tests.antt =====
-- A commitment and its verification, with a key as its tag.
use veritra.Prelude.{◌≡◌, ◌⊎◌, ◌↔◌, inl, refl, true, [], ◌∷◌, replicate}
use veritra.Prelude.Rows.{Bytes, any, bytes_equal}
use veritra.Franking.{err_invalid_input, Context, frank_message, commit, verify}
use veritra.Franking.Binding.{Opens, Collides, verify_iff, verify_binds}

abbrev key : Bytes
key = replicate 32 7

abbrev hmac : Bytes → Bytes → Bytes
hmac kf message = kf

abbrev ctx : Context
ctx = record { conversation_id = 1 ∷ []; sender_device_id = 2 ∷ 3 ∷ []; action_id = 4 ∷ [] }

abbrev shifted : Context
shifted = record { conversation_id = 1 ∷ 2 ∷ []; sender_device_id = 3 ∷ []; action_id = 4 ∷ [] }

abbrev payload : Bytes
payload = 5 ∷ []

empty_payload : commit hmac key ctx [] ≡ inl err_invalid_input
unfolding commit any
empty_payload = refl

opened : verify hmac key key ctx payload ≡ true
unfolding verify commit any bytes_equal
opened = refl

opened_shifted : verify hmac key key shifted payload ≡ true
unfolding verify commit any bytes_equal
opened_shifted = refl

verify_iff_example : (verify hmac key key ctx payload ≡ true) ↔ Opens hmac key key ctx payload
verify_iff_example = verify_iff hmac key key ctx payload

verify_binds_example :
    ((ctx ≡ shifted) × (payload ≡ payload))
    ⊎ Collides hmac key key (frank_message ctx payload) (frank_message shifted payload)
verify_binds_example =
    verify_binds hmac key key key ctx shifted payload payload opened opened_shifted
