-- ===== src/Storage/Links/Completed.antt =====
-- What the completion of a device link comes from.
use veritra.Prelude.{
  ℕ, ◌≡◌, ◌⊎◌, refl, inl, inr, String, Bool, true, false, not, ◌&&◌, ◌||◌, length, ltb, ◌==◌,
  str_eq, eq_iff, arith, Option-cases,
}
use veritra.Prelude.Rows.{Bytes, any}
use veritra.Storage.{
  ok, >>=-eq-ok, refuse_if-passed, ok-subst, err_not_ok, device_link_not_ready,
  device_link_session_unavailable, device_link_invalid, device_link_verification_failed,
  constraint_failed,
}
use veritra.Storage.Links.State.{
  LinkState, pending, claimed, approved, consumed, revoked, DeviceLink, LinkTables, Session,
  is_visible, load_device_link, valid_window,
}
use veritra.Storage.Links.Proof.{LinkHost, valid_hash, same_bytes}
use veritra.Storage.Links.Approval.{
  SessionLimits, with_session, open_session, recover_session, complete_device_link, completion,
  Completion, session_is_active,
}
use veritra.Storage.Links.Approved.{load_device_link-ok, same_bytes→eq}

-- The first completion opens the session of the claim.
pub record Opens (limits : SessionLimits) (now : ℕ) (id session_hash : String) (v : DeviceLink)
    (t u : LinkTables) : Type 0 where
  pub was_approved : v.state ≡ approved
  pub in_time : ltb now v.expires_at ≡ true
  pub new_token : any (λ (s : Session). str_eq s.token_hash session_hash) t.sessions ≡ false
  pub after : u ≡ with_session limits id session_hash now v t

-- A repeated one finds the session, as long as it is the current one, and opens none.
pub record Recovers (limits : SessionLimits) (now : ℕ) (session_hash : String) (v : DeviceLink)
    (t u : LinkTables) : Type 0 where
  pub was_consumed : v.state ≡ consumed
  pub active : any (session_is_active limits t session_hash v now) t.sessions ≡ true
  pub after : u ≡ t

abbrev Completed : Type 0
Completed = LinkTables × (Completion × Bytes)

opened :
    (limits : SessionLimits) (now : ℕ) (id request_hash session_hash : String) (v : DeviceLink)
    (t u : LinkTables) (x : Completion × Bytes)
    → v.state ≡ approved
    → open_session limits now id request_hash session_hash v t ≡ ok (u, x)
    → Opens limits now id session_hash v t u
unfolding open_session
opened limits now id request_hash session_hash v t u x e h =
    let (early, h1) = refuse_if-passed (not (ltb now v.expires_at)) device_link_invalid _ h in
    let (new, h2) =
      refuse_if-passed (any (λ (s : Session). str_eq s.token_hash session_hash) t.sessions)
        constraint_failed _ h1 in
    record {
      was_approved = e;
      in_time = ground arith;
      new_token = new;
      after =
          ok-subst (λ (y : Completed). y.0 ≡ with_session limits id session_hash now v t)
            (
              with_session limits id session_hash now v t,
              (completion id request_hash session_hash now v, v.approval_tag),
            )
            (u, x) h2 refl;
    }

recovered :
    (limits : SessionLimits) (now : ℕ) (id request_hash session_hash : String) (v : DeviceLink)
    (t u : LinkTables) (x : Completion × Bytes)
    → v.state ≡ consumed
    → recover_session limits now id request_hash session_hash v t ≡ ok (u, x)
    → Recovers limits now session_hash v t u
unfolding recover_session
recovered limits now id request_hash session_hash v t u x e h =
    let (there, h1) =
      refuse_if-passed (not (any (session_is_active limits t session_hash v now) t.sessions))
        device_link_session_unavailable _ h in
    elim (Option-cases v.completed_at) [
      | inl f ↦ absurd (err_not_ok device_link_invalid (u, x) (rw f at h1))
      | inr (at, f) ↦ record {
        was_consumed = e;
        active = ground arith;
        after =
            ok-subst (λ (y : Completed). y.0 ≡ t)
              (t, (completion id request_hash session_hash at v, v.approval_tag)) (u, x)
              (rw f at h1) refl;
      }
    ]

-- A completion that succeeds is for a visible link with the token, the request hash, the session
-- hash and the transcript of its claim; it either opens the session of an approved link that has
-- not expired, under a token that no session has, or finds the active session of a consumed link
-- and changes nothing.
pub complete_device_link-Outcome :
    (h : LinkHost) (limits : SessionLimits) (now : ℕ)
    (id token_hash request_hash session_hash : String) (transcript : Bytes) (t u : LinkTables)
    (x : Completion × Bytes)
    → complete_device_link h limits now id token_hash request_hash session_hash transcript t
      ≡ ok (u, x)
    → (v : DeviceLink) × (is_visible t v ≡ true)
      × (v.id ≡ id)
      × (v.claim_token_hash ≡ token_hash)
      × (v.claim_request_hash ≡ request_hash)
      × (v.initial_session_hash ≡ session_hash)
      × (v.transcript_hash ≡ transcript)
      × (Opens limits now id session_hash v t u ⊎ Recovers limits now session_hash v t u)
unfolding complete_device_link
complete_device_link-Outcome h limits now id token_hash request_hash session_hash transcript t u x
      done =
    let mine : DeviceLink → Bool = λ v. str_eq v.id id && str_eq v.claim_token_hash token_hash in
    let (formed, h1) =
      refuse_if-passed
        (not (valid_hash h token_hash)
          || (not (valid_hash h request_hash)
              || (not (valid_hash h session_hash) || not (length transcript == 32))))
        device_link_verification_failed _ done in
    let (v, loaded, h2) = >>=-eq-ok (load_device_link t mine) _ h1 in
    let (open_, h3) = refuse_if-passed (not (valid_window v now)) device_link_invalid _ h2 in
    let (matches, h4) =
      refuse_if-passed
        (not (str_eq v.claim_request_hash request_hash)
          || (not (str_eq v.initial_session_hash session_hash)
              || not (same_bytes v.transcript_hash transcript)))
        device_link_verification_failed _ h3 in
    let (seen, own) = load_device_link-ok t mine v loaded in
    (
      v,
      seen,
      (eq_iff v.id id).0 (ground arith),
      (eq_iff v.claim_token_hash token_hash).0 (ground arith),
      (eq_iff v.claim_request_hash request_hash).0 (ground arith),
      (eq_iff v.initial_session_hash session_hash).0 (ground arith),
      same_bytes→eq v.transcript_hash transcript (ground arith),
      elim (state_cases v.state) [
        | inl e ↦ inl (opened limits now id request_hash session_hash v t u x e (rw e at h4))
        | inr (inl e) ↦
            inr (recovered limits now id request_hash session_hash v t u x e (rw e at h4))
        | inr (inr (inl e)) ↦ absurd (err_not_ok device_link_not_ready (u, x) (rw e at h4))
        | inr (inr (inr (inl e))) ↦ absurd (err_not_ok device_link_invalid (u, x) (rw e at h4))
        | inr (inr (inr (inr e))) ↦ absurd (err_not_ok device_link_invalid (u, x) (rw e at h4))
      ],
    )
  where
    state_cases :
        (s : LinkState)
        → (s ≡ approved) ⊎ ((s ≡ consumed) ⊎ ((s ≡ claimed) ⊎ ((s ≡ pending) ⊎ (s ≡ revoked))))
    state_cases approved = inl refl
    state_cases consumed = inr (inl refl)
    state_cases claimed = inr (inr (inl refl))
    state_cases pending = inr (inr (inr (inl refl)))
    state_cases revoked = inr (inr (inr (inr refl)))
