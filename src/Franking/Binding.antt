-- ===== src/Franking/Binding.antt =====
-- What a franking commitment binds (server/internal/franking/franking.go).
use veritra.Prelude.{
  ◌<◌, ◌≤◌, ◌≡◌, ◌++◌, ◌⊎◌, ◌↔◌, ◌==◌, refl, ap, sym, ◌∙◌, inl, inr, true, false, [], ◌∷◌, length,
  Bool-cases, arith,
}
use veritra.Prelude.Rows.{Bytes, any, bytes_equal, bytes_equal_same, bytes_equal→eq}
use veritra.Prelude.Fields.{
  put_uint32, prefixed_by, append_cancel, put_uint32-IsLengthCode, prefixed_by_cancel,
}
use veritra.Franking.{
  key_size, commit_size, max_id_size, max_payload_size, label, Context, out_of_bounds,
  frank_message, commit, verify,
}

-- The sizes that a commitment is made for.
pub record IsSized (kf : Bytes) (ctx : Context) (payload : Bytes) : Type 0 where
  pub key : length kf ≡ 32
  pub conversation : length ctx.conversation_id ≤ 128
  pub conversation_some : 0 < length ctx.conversation_id
  pub sender : length ctx.sender_device_id ≤ 128
  pub sender_some : 0 < length ctx.sender_device_id
  pub action : length ctx.action_id ≤ 128
  pub action_some : 0 < length ctx.action_id
  pub content : length payload ≤ 65536
  pub content_some : 0 < length payload

-- What a successful verification found.
pub record Opens (hmac : Bytes → Bytes → Bytes) (c kf : Bytes) (ctx : Context) (payload : Bytes)
    : Type 0 where
  pub sized : IsSized kf ctx payload
  pub commit_length : length c ≡ 32
  pub tag : c ≡ hmac kf (frank_message ctx payload)

out_of_bounds-IsSized :
    (kf : Bytes) (ctx : Context) (payload : Bytes)
    → (length kf == key_size) ≡ true
    → any
        (out_of_bounds max_id_size)
        (ctx.conversation_id ∷ ctx.sender_device_id ∷ ctx.action_id ∷ [])
      ≡ false
    → out_of_bounds max_payload_size payload ≡ false
    → IsSized kf ctx payload
unfolding any
out_of_bounds-IsSized kf ctx payload k i p = record {
  key = ground arith;
  conversation = ground arith;
  conversation_some = ground arith;
  sender = ground arith;
  sender_some = ground arith;
  action = ground arith;
  action_some = ground arith;
  content = ground arith;
  content_some = ground arith;
}

pub verify-Opens :
    (hmac : Bytes → Bytes → Bytes) (c kf : Bytes) (ctx : Context) (payload : Bytes)
    → verify hmac c kf ctx payload ≡ true
    → Opens hmac c kf ctx payload
unfolding verify commit
verify-Opens hmac c kf ctx payload h = elim (Bool-cases (length kf == key_size)) [
  | inr k ↦ absurd (ground arith)
  | inl k ↦
      elim (Bool-cases (
        any (out_of_bounds max_id_size)
          (ctx.conversation_id ∷ ctx.sender_device_id ∷ ctx.action_id ∷ []))) [
            | inl i ↦ absurd (ground arith)
            | inr i ↦ elim (Bool-cases (out_of_bounds max_payload_size payload)) [
              | inl p ↦ absurd (ground arith)
              | inr p ↦ elim (Bool-cases (length c == commit_size)) [
                | inr l ↦ absurd (ground arith)
                | inl l ↦ record {
                  sized = out_of_bounds-IsSized kf ctx payload k i p;
                  commit_length = ground arith;
                  tag = bytes_equal→eq _ _ (ground arith);
                }
              ]
            ]
          ]
]

next :
    (f g x y : Bytes)
    → length f < 4294967296
    → length g < 4294967296
    → prefixed_by put_uint32 f ++ x ≡ prefixed_by put_uint32 g ++ y
    → (f ≡ g) × (x ≡ y)
next f g x y a b h = prefixed_by_cancel put_uint32 4294967296 f g x y put_uint32-IsLengthCode a b h

Context_eq :
    {c d : Context}
    → c.conversation_id ≡ d.conversation_id
    → c.sender_device_id ≡ d.sender_device_id
    → c.action_id ≡ d.action_id
    → c ≡ d
Context_eq x y z i = record { conversation_id = x i; sender_device_id = y i; action_id = z i }

module _ (ctx other : Context) (payload content : Bytes) where
  -- A message that goes into the MAC is that of one context and one payload.
  pub frank_message_injective :
      (kf key : Bytes)
      → IsSized kf ctx payload
      → IsSized key other content
      → frank_message ctx payload ≡ frank_message other content
      → (ctx ≡ other) × (payload ≡ content)
  frank_message_injective kf key a b h =
      let (labels, fields) = append_cancel label label _ _ refl h in
      let (x, r) =
        next _ _ _ _ (omega (arith, a.conversation)) (omega (arith, b.conversation)) fields in
      let (y, s) = next _ _ _ _ (omega (arith, a.sender)) (omega (arith, b.sender)) r in
      let (z, t) = next _ _ _ _ (omega (arith, a.action)) (omega (arith, b.action)) s in
      let (w, end) = next _ _ _ _ (omega (arith, a.content)) (omega (arith, b.content)) t in
      (Context_eq x y z, w)

-- The MAC gives one tag to two different texts, under the keys.
pub record Collides (hmac : Bytes → Bytes → Bytes) (kf key m n : Bytes) : Type 0 where
  pub distinct : ¬ (m ≡ n)
  pub same_tag : hmac kf m ≡ hmac key n

bytes_equal_of : {m n : Bytes} → m ≡ n → bytes_equal m n ≡ true
bytes_equal_of {m = m} e = ap (bytes_equal m) (sym e) ∙ bytes_equal_same m

Opens-verify :
    (hmac : Bytes → Bytes → Bytes) (c kf : Bytes) (ctx : Context) (payload : Bytes)
    → Opens hmac c kf ctx payload
    → verify hmac c kf ctx payload ≡ true
unfolding verify commit any
Opens-verify hmac c kf ctx payload o =
    let s = o.sized in
    let same = ap (bytes_equal c) (sym o.tag) ∙ bytes_equal_same c in
    ground (
      arith, same, o.commit_length, s.key, s.conversation, s.conversation_some, s.sender,
      s.sender_some, s.action, s.action_some, s.content, s.content_some,
    )

-- A commitment is verified just where the key has 32 bytes, each id 1 to 128, the payload 1 to
-- 65536, the commitment 32, and the commitment is the tag of the message under the key.
pub verify_iff :
    (hmac : Bytes → Bytes → Bytes) (c kf : Bytes) (ctx : Context) (payload : Bytes)
    → (verify hmac c kf ctx payload ≡ true) ↔ Opens hmac c kf ctx payload
verify_iff hmac c kf ctx payload =
    (verify-Opens hmac c kf ctx payload, Opens-verify hmac c kf ctx payload)

-- Where one commitment is verified twice, whatever the keys, the context and the payload are the
-- same both times, or the messages differ and the MAC gives them one tag under the keys.
pub verify_binds :
    (hmac : Bytes → Bytes → Bytes) (c kf key : Bytes) (ctx other : Context)
    (payload content : Bytes)
    → verify hmac c kf ctx payload ≡ true
    → verify hmac c key other content ≡ true
    → ((ctx ≡ other) × (payload ≡ content))
      ⊎ Collides hmac kf key (frank_message ctx payload) (frank_message other content)
verify_binds hmac c kf key ctx other payload content v w =
    let a = verify-Opens hmac c kf ctx payload v in
    let b = verify-Opens hmac c key other content w in
    elim (Bool-cases (bytes_equal (frank_message ctx payload) (frank_message other content))) [
      | inl same ↦ inl (
          frank_message_injective ctx other payload content kf key a.sized b.sized
            (bytes_equal→eq _ _ same))
      | inr d ↦
          inr record {
            distinct = λ e. let same = bytes_equal_of e in cc;
            same_tag = sym a.tag ∙ b.tag;
          }
    ]
