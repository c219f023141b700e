-- ===== src/Realtime/Publish.antt =====
-- What a publication does to the sockets (server/internal/realtime/hub.go).
use veritra.Prelude.{
  ℕ, ◌+◌, ◌≡◌, refl, ◌∙◌, String, Bool, false, not, ◌&&◌, ◌||◌, List, [], ◌∷◌, ◌++◌, some, length,
  ltb, leb, ◌==◌, if◌then◌else◌, arith, Bool-cases, inl, inr, ==→eq,
}
use veritra.Prelude.Rows.{any, count, any-append, count-append}
use veritra.Realtime.Client.{Client, Payload, Socket, try_send}
use veritra.Realtime.Hub.{Hub, clients_of, targets, send_one, send_all, publish}

-- A client with the address.
abbrev pub is_at : ℕ → Client → Bool
is_at a c = a == c.address

abbrev pub takes : Socket → Bool
takes s = not s.closed && ltb (length s.queue) 32

abbrev pub is_full : Socket → Bool
is_full s = not s.closed && leb 32 (length s.queue)

-- The accounts have a registered socket at the address.
abbrev pub is_addressed : Hub → List String → ℕ → Bool
is_addressed h [] a = false
is_addressed h (account ∷ accounts) a =
    any (is_at a) (clients_of h account) || is_addressed h accounts a

-- The open sockets of the accounts whose buffers are full.
abbrev pub full_sockets : Hub → List String → ℕ
full_sockets h [] = 0
full_sockets h (account ∷ accounts) =
    count (λ c. is_full (h.sockets c.address)) (clients_of h account) + full_sockets h accounts

-- No address stands twice.
abbrev pub AreApart : List Client → Type 0
AreApart [] = Unit
AreApart (c ∷ cs) = (any (is_at c.address) cs ≡ false) × AreApart cs

abbrev pub queued : Payload → Socket → Socket
queued p s = record s { queue = s.queue ++ p ∷ [] }

try_send_after : (p : Payload) (s : Socket) → (try_send p s).0 ≡ (if takes s then queued p s else s)
unfolding try_send
try_send_after p s = ground arith

send_one_at :
    (p : Payload) (c : Client) (h : Hub) (a : ℕ)
    → (send_one p c h).sockets a
      ≡ (if is_at a c && takes (h.sockets a) then queued p (h.sockets a) else h.sockets a)
unfolding send_one
send_one_at p c h a = elim (Bool-cases (a == c.address)) [
  | inl e ↦
      let same = ==→eq a c.address e in rw e (rw same (try_send_after p (h.sockets c.address)))
  | inr e ↦ rw e refl
]

send_one_dropped :
    (p : Payload) (c : Client) (h : Hub)
    → (send_one p c h).dropped ≡ h.dropped + count (λ d. is_full (h.sockets d.address)) (c ∷ [])
unfolding send_one try_send count
send_one_dropped p c h = ground arith

-- Sockets that are not at the address of the one sent to are as full as before.
count_elsewhere :
    (p : Payload) (c : Client) (h : Hub) (cs : List Client)
    → any (is_at c.address) cs ≡ false
    → count (λ d. is_full ((send_one p c h).sockets d.address)) cs
      ≡ count (λ d. is_full (h.sockets d.address)) cs
unfolding any count
count_elsewhere p c h [] far = refl
count_elsewhere p c h (d ∷ cs) far =
    let away : (d.address == c.address) ≡ false = ground arith in
    rw (send_one_at p c h d.address, away, count_elsewhere p c h cs (ground arith)) refl

send_all_dropped :
    (p : Payload) (cs : List Client) (h : Hub)
    → AreApart cs
    → (send_all p cs h).dropped ≡ h.dropped + count (λ d. is_full (h.sockets d.address)) cs
unfolding send_all count
send_all_dropped p [] h apart = omega arith
send_all_dropped p (c ∷ cs) h apart = omega (
  arith,
  send_all_dropped p cs (send_one p c h) apart.1,
  send_one_dropped p c h,
  count_elsewhere p c h cs apart.0,
)

send_all_at :
    (p : Payload) (cs : List Client) (h : Hub) (a : ℕ)
    → AreApart cs
    → (send_all p cs h).sockets a
      ≡ (if any (is_at a) cs && takes (h.sockets a) then queued p (h.sockets a) else h.sockets a)
unfolding send_all any
send_all_at p [] h a apart = refl
send_all_at p (c ∷ cs) h a apart =
    send_all_at p cs (send_one p c h) a apart.1 ∙ elim (Bool-cases (a == c.address)) [
      | inl e ↦
          let last : any (is_at a) cs ≡ false = rw (==→eq a c.address e) apart.0 in
          rw (last, e) (send_one_at p c h a ∙ rw e refl)
      | inr e ↦ rw (send_one_at p c h a, e) refl
    ]

targets_at :
    (h : Hub) (accounts : List String) (a : ℕ)
    → any (is_at a) (targets h accounts) ≡ is_addressed h accounts a
unfolding targets any
targets_at h [] a = refl
targets_at h (account ∷ accounts) a =
    any-append (is_at a) (clients_of h account) (targets h accounts)
    ∙ rw (targets_at h accounts a) refl

targets_full :
    (h : Hub) (accounts : List String)
    → count (λ c. is_full (h.sockets c.address)) (targets h accounts) ≡ full_sockets h accounts
unfolding targets count
targets_full h [] = refl
targets_full h (account ∷ accounts) =
    count-append (λ c. is_full (h.sockets c.address)) (clients_of h account) (targets h accounts)
    ∙ rw (targets_full h accounts) refl

-- Where the sockets of the accounts are different objects, a publication queues the payload at the
-- end of each open one whose buffer holds fewer than 32 payloads, leaves every other socket of the
-- hub as it is, and adds the number of the open ones whose buffers are full to the drops.
pub publish_lem :
    (h : Hub) (accounts : List String) (p : Payload) (a : ℕ)
    → AreApart (targets h accounts)
    → ((publish accounts (some p) h).sockets a ≡ (
        if is_addressed h accounts a && takes (h.sockets a)
        then queued p (h.sockets a)
        else h.sockets a))
      × ((publish accounts (some p) h).dropped ≡ h.dropped + full_sockets h accounts)
unfolding publish
publish_lem h accounts p a apart = (
  send_all_at p (targets h accounts) h a apart ∙ rw (targets_at h accounts a) refl,
  send_all_dropped p (targets h accounts) h apart ∙ rw (targets_full h accounts) refl,
)
