-- ===== src/Realtime/Outcome.antt =====
-- What `Register` answers, and what it changes (server/internal/realtime/hub.go).
use veritra.Prelude.{
  ℕ, ◌+◌, ◌<◌, ◌≡◌, ◌⊎◌, refl, String, true, false, [], ◌∷◌, length, str_eq, ◌==◌, if◌then◌else◌,
  if_cases, inl, inr, eq_iff, Bool-cases, ==→eq, eq→==,
}
use veritra.Realtime.Client.{Client}
use veritra.Realtime.Hub.{
  Hub, Netip, clients_of, contains, device_count, add_client, at_limit, register, Registration,
  registered, refused, connection_limit, hub_draining, address_keys,
}
use veritra.Realtime.Index.{weight}
use veritra.Realtime.Counters.{count_at, hit, hit_prefix, count_at-bump, count_at-skip_bump}
use veritra.Realtime.Invariant.{one, on_ip, on_prefix}
use veritra.Realtime.Register.{IsSound, at_limit_iff, clients_of-add_client, new_address}

-- The sockets that are registered leave room for one more, under each of the five caps.
abbrev pub HasRoom : Hub → String → String → String → String → Type 0
HasRoom h account device ip_key prefix_key =
    (weight one h.subscribers < 10000)
    × (length (clients_of h account) < 10)
    × (device_count device (clients_of h account) < 3)
    × (weight (on_ip ip_key) h.subscribers < 20)
    × ((prefix_key ≡ "") ⊎ (weight (on_prefix prefix_key) h.subscribers < h.per_prefix_limit))

-- A client that was in no set enters the set of its account and every counter, with an empty and
-- open socket; all other sets and sockets stay.
pub record IsAdded (h : Hub) (c : Client) (h' : Hub) : Type 0 where
  pub new : (a : String) → contains c (clients_of h a) ≡ false
  pub sets :
      (a : String)
      → clients_of h' a
        ≡ (if str_eq c.account_id a then c ∷ clients_of h c.account_id else clients_of h a)
  pub total : h'.total ≡ h.total + 1
  pub ip : (k : String) → count_at k h'.per_ip ≡ count_at k h.per_ip + hit c.ip_key k
  pub prefix :
      (k : String) → count_at k h'.per_prefix ≡ count_at k h.per_prefix + hit_prefix c.prefix_key k
  pub open_socket : (h'.sockets c.address).closed ≡ false
  pub empty_socket : (h'.sockets c.address).queue ≡ []
  pub others : (a : ℕ) → (a ≡ c.address) ⊎ (h'.sockets a ≡ h.sockets a)
  pub draining : h'.draining ≡ h.draining
  pub dropped : h'.dropped ≡ h.dropped

module _ (h : Hub) (account device ip_key prefix_key : String) (v : IsSound h) where
  room :
      at_limit h account device ip_key prefix_key ≡ false
      → HasRoom h account device ip_key prefix_key
  room f =
      let (total, of_account, of_device, of_ip, of_prefix) =
        (at_limit_iff h account device ip_key prefix_key v.consistent).0 f in
      (
        total,
        of_account,
        of_device,
        of_ip,
        elim (Bool-cases (str_eq prefix_key "")) [
          | inl e ↦ inl ((eq_iff prefix_key "").0 e)
          | inr e ↦ inr (of_prefix (λ k. cc (e, (eq_iff prefix_key "").1 k)))
        ],
      )

  no_room :
      at_limit h account device ip_key prefix_key ≡ true
      → ¬ HasRoom h account device ip_key prefix_key
  no_room f (total, of_account, of_device, of_ip, of_prefix) =
      let under = (at_limit_iff h account device ip_key prefix_key v.consistent).1 (
        total,
        of_account,
        of_device,
        of_ip,
        λ k. elim of_prefix [ inl e ↦ absurd (k e) | inr b ↦ b ],
      ) in
      cc (f, under)

add_client-IsAdded :
    (h : Hub) (c : Client) → c.address ≡ h.fresh → IsSound h → IsAdded h c (add_client h c)
unfolding add_client
add_client-IsAdded h c is_new v = record {
  new = λ a. new_address h a c (clients_of h a) is_new (v.consistent.filed a);
  sets = λ a. clients_of-add_client h c a;
  total = refl;
  ip = λ k. count_at-bump c.ip_key k h.per_ip;
  prefix = λ k. count_at-skip_bump c.prefix_key h.per_prefix k;
  open_socket = rw (eq→== c.address c.address refl) refl;
  empty_socket = rw (eq→== c.address c.address refl) refl;
  others = λ a. elim (Bool-cases (a == c.address)) [
    | inl e ↦ inl (==→eq a c.address e)
    | inr e ↦ inr (rw e refl)
  ];
  draining = refl;
  dropped = refl;
}

module _ (ip : Netip) (h : Hub) (account device remote_ip : String) where
  abbrev keys : String × String
  keys = address_keys ip remote_ip

  -- The three answers, as a relation of the hub before, the hub after and the answer.
  abbrev pub Outcome : Hub × Registration → Type 0
  Outcome (h', answer) =
      ((h.draining ≡ true)
        × (answer ≡ refused hub_draining)
        × (h' ≡ record h { rejected_draining = h.rejected_draining + 1 }))
      ⊎ ((h.draining ≡ false)
          × (¬ HasRoom h account device keys.0 keys.1)
          × (answer ≡ refused connection_limit)
          × (h' ≡ record h { rejected_limit = h.rejected_limit + 1 }))
      ⊎ ((h.draining ≡ false)
          × HasRoom h account device keys.0 keys.1
          × (c : Client) × (answer ≡ registered c)
          × (c.account_id ≡ account)
          × (c.device_id ≡ device)
          × (c.remote_ip ≡ remote_ip)
          × (c.ip_key ≡ keys.0)
          × (c.prefix_key ≡ keys.1)
          × IsAdded h c h')

  -- In a sound hub, a registration is refused as draining while the hub drains; otherwise it is
  -- refused as over the limit where the registered sockets reach 10000, 10 of the account, 3 of the
  -- device, 20 of the address or the limit of the IPv6 prefix, in both cases with no change but a
  -- counter; otherwise a client that was in no set enters the set of its account and the counters
  -- of its address and prefix, with an empty open socket, and no other set or socket changes.
  pub register-Outcome : IsSound h → Outcome (register ip h account device remote_ip)
  unfolding register
  register-Outcome v =
      if_cases Outcome h.draining _ _ (λ e. inl (e, refl, refl))
        (λ e.
          if_cases Outcome (at_limit h account device keys.0 keys.1) _ _
            (λ f. inr (inl (e, no_room h account device keys.0 keys.1 v f, refl, refl)))
            (λ f. inr (
              inr (
                e,
                room h account device keys.0 keys.1 v f,
                _,
                refl,
                refl,
                refl,
                refl,
                refl,
                refl,
                add_client-IsAdded h _ refl v,
              ))))
