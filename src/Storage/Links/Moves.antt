-- ===== src/Storage/Links/Moves.antt =====
-- How a device link may change.
use veritra.Prelude.{ℕ, ◌≡◌, refl, ap, sym, ◌∙◌, subst, String, Bool, true, false, str_eq}
use veritra.Prelude.Rows.{Bytes}
use veritra.Storage.Links.State.{
  LinkState, pending, claimed, approved, consumed, revoked, DeviceLink, is_open,
}
use veritra.Storage.Links.Proof.{LinkHost, DeviceLinkClaimInput}
use veritra.Storage.Links.Methods.{in_pending, in_claimed, in_approved, reserved, claimed_link}
use veritra.Storage.Links.Approval.{approved_link, consumed_link, revoked_link}

-- The transitions of a link, any number of them.
pub data Goes : LinkState → LinkState → Type 0 where
  stay : (s : LinkState) → Goes s s
  claim : Goes pending claimed
  approve : Goes claimed approved
  consume : Goes approved consumed
  cancel_pending : Goes pending revoked
  cancel_claimed : Goes claimed revoked
  both : {a b c : LinkState} → Goes a b → Goes b c → Goes a c

-- What the claim binds.
pub record SameClaim (v w : DeviceLink) : Type 0 where
  pub request : w.claim_request_hash ≡ v.claim_request_hash
  pub transcript : w.transcript_hash ≡ v.transcript_hash
  pub signing : w.signing_key ≡ v.signing_key
  pub key_package : w.key_package ≡ v.key_package
  pub token : w.claim_token_hash ≡ v.claim_token_hash
  pub secret : w.device_secret_hash ≡ v.device_secret_hash
  pub session : w.initial_session_hash ≡ v.initial_session_hash

-- What the reservation binds.
pub record SameReservation (v w : DeviceLink) : Type 0 where
  pub request : w.reservation_request_id ≡ v.reservation_request_id
  pub recipient : w.recipient_device_id ≡ v.recipient_device_id
  pub challenge : w.challenge ≡ v.challenge

-- One link at two times: its origin stays, a reservation stays once it is made, a claim stays once
-- it is made, and the state goes along the transitions.
pub record Moves (v w : DeviceLink) : Type 0 where
  pub id : w.id ≡ v.id
  pub code : w.code ≡ v.code
  pub account : w.account_id ≡ v.account_id
  pub source : w.source_device_id ≡ v.source_device_id
  pub expiry : w.expires_at ≡ v.expires_at
  pub reservation : str_eq v.reservation_request_id "" ≡ false → SameReservation v w
  pub claim_stays : in_pending v ≡ false → SameClaim v w
  pub state : Goes v.state w.state

abbrev pub is_pending_state : LinkState → Bool
is_pending_state s = elim s [ pending ↦ true | _ ↦ false ]

-- No transition leads back to pending.
Goes-not_pending :
    (a b : LinkState) → Goes a b → is_pending_state a ≡ false → is_pending_state b ≡ false
Goes-not_pending a _ (stay _) h = h
Goes-not_pending _ _ claim h = refl
Goes-not_pending _ _ approve h = refl
Goes-not_pending _ _ consume h = refl
Goes-not_pending _ _ cancel_pending h = refl
Goes-not_pending _ _ cancel_claimed h = refl
Goes-not_pending a c (both {b = m} first second) h =
    Goes-not_pending m c second (Goes-not_pending a m first h)

same_claim : (v : DeviceLink) → SameClaim v v
same_claim v = record {
  request = refl;
  transcript = refl;
  signing = refl;
  key_package = refl;
  token = refl;
  secret = refl;
  session = refl;
}

pub Moves-same : (v : DeviceLink) → Moves v v
Moves-same v = record {
  id = refl;
  code = refl;
  account = refl;
  source = refl;
  expiry = refl;
  reservation = λ e. record { request = refl; recipient = refl; challenge = refl };
  claim_stays = λ e. same_claim v;
  state = stay v.state;
}

pub Moves-trans : (u v w : DeviceLink) → Moves u v → Moves v w → Moves u w
Moves-trans u v w a b = record {
  id = b.id ∙ a.id;
  code = b.code ∙ a.code;
  account = b.account ∙ a.account;
  source = b.source ∙ a.source;
  expiry = b.expiry ∙ a.expiry;
  reservation = λ e.
      let r = a.reservation e in
      let s = b.reservation (ap (λ x. str_eq x "") r.request ∙ e) in
      record {
        request = s.request ∙ r.request;
        recipient = s.recipient ∙ r.recipient;
        challenge = s.challenge ∙ r.challenge;
      };
  claim_stays = λ e.
      let r = a.claim_stays e in
      let s = b.claim_stays (Goes-not_pending u.state v.state a.state e) in
      record {
        request = s.request ∙ r.request;
        transcript = s.transcript ∙ r.transcript;
        signing = s.signing ∙ r.signing;
        key_package = s.key_package ∙ r.key_package;
        token = s.token ∙ r.token;
        secret = s.secret ∙ r.secret;
        session = s.session ∙ r.session;
      };
  state = both a.state b.state;
}

-- The five updates of a link.
pub reserved-Moves :
    (h : LinkHost) (request device : String) (nonce : Bytes) (v : DeviceLink)
    → str_eq v.reservation_request_id "" ≡ true
    → Moves v (reserved h request device nonce v)
reserved-Moves h request device nonce v free = record {
  id = refl;
  code = refl;
  account = refl;
  source = refl;
  expiry = refl;
  reservation = λ e. absurd (cc (free, e));
  claim_stays = λ e. record {
    request = refl;
    transcript = refl;
    signing = refl;
    key_package = refl;
    token = refl;
    secret = refl;
    session = refl;
  };
  state = stay v.state;
}

state_is_pending : (s : LinkState) → is_pending_state s ≡ true → s ≡ pending
state_is_pending pending h = refl
state_is_pending claimed h = absurd cc
state_is_pending approved h = absurd cc
state_is_pending consumed h = absurd cc
state_is_pending revoked h = absurd cc

pub claimed_link-Moves :
    (input : DeviceLinkClaimInput) (hash : String) (now : ℕ) (v : DeviceLink)
    → in_pending v ≡ true
    → Moves v (claimed_link input hash now v)
claimed_link-Moves input hash now v there = record {
  id = refl;
  code = refl;
  account = refl;
  source = refl;
  expiry = refl;
  reservation = λ e. record { request = refl; recipient = refl; challenge = refl };
  claim_stays = λ e. absurd (cc (there, e));
  state = subst (λ s. Goes s claimed) (sym (state_is_pending v.state there)) claim;
}

-- A change that keeps the reservation and the claim.
keeps_all :
    (v w : DeviceLink)
    → (w.id ≡ v.id)
      × (w.code ≡ v.code)
      × (w.account_id ≡ v.account_id)
      × (w.source_device_id ≡ v.source_device_id)
      × (w.expires_at ≡ v.expires_at)
    → SameReservation v w
    → SameClaim v w
    → Goes v.state w.state
    → Moves v w
keeps_all v w (id, code, account, source, expiry) r c g = record {
  id = id;
  code = code;
  account = account;
  source = source;
  expiry = expiry;
  reservation = λ e. r;
  claim_stays = λ e. c;
  state = g;
}

pub approved_link-Moves :
    (tag : Bytes) (now : ℕ) (v : DeviceLink)
    → in_claimed v ≡ true
    → Moves v (approved_link tag now v)
approved_link-Moves tag now v there =
    keeps_all v (approved_link tag now v) (refl, refl, refl, refl, refl)
      record { request = refl; recipient = refl; challenge = refl }
      record {
        request = refl;
        transcript = refl;
        signing = refl;
        key_package = refl;
        token = refl;
        secret = refl;
        session = refl;
      }
      (from_claimed v.state there)
  where
    from_claimed : (s : LinkState) → elim s [ claimed ↦ true | _ ↦ false ] ≡ true → Goes s approved
    from_claimed claimed h = approve
    from_claimed pending h = absurd cc
    from_claimed approved h = absurd cc
    from_claimed consumed h = absurd cc
    from_claimed revoked h = absurd cc

pub consumed_link-Moves :
    (now : ℕ) (v : DeviceLink) → in_approved v ≡ true → Moves v (consumed_link now v)
consumed_link-Moves now v there =
    keeps_all v (consumed_link now v) (refl, refl, refl, refl, refl)
      record { request = refl; recipient = refl; challenge = refl }
      record {
        request = refl;
        transcript = refl;
        signing = refl;
        key_package = refl;
        token = refl;
        secret = refl;
        session = refl;
      }
      (from_approved v.state there)
  where
    from_approved :
        (s : LinkState) → elim s [ approved ↦ true | _ ↦ false ] ≡ true → Goes s consumed
    from_approved approved h = consume
    from_approved pending h = absurd cc
    from_approved claimed h = absurd cc
    from_approved consumed h = absurd cc
    from_approved revoked h = absurd cc

pub revoked_link-Moves :
    (now : ℕ) (v : DeviceLink) → is_open v.state ≡ true → Moves v (revoked_link now v)
revoked_link-Moves now v there =
    keeps_all v (revoked_link now v) (refl, refl, refl, refl, refl)
      record { request = refl; recipient = refl; challenge = refl }
      record {
        request = refl;
        transcript = refl;
        signing = refl;
        key_package = refl;
        token = refl;
        secret = refl;
        session = refl;
      }
      (from_open v.state there)
  where
    from_open : (s : LinkState) → is_open s ≡ true → Goes s revoked
    from_open pending h = cancel_pending
    from_open claimed h = cancel_claimed
    from_open approved h = absurd cc
    from_open consumed h = absurd cc
    from_open revoked h = absurd cc
