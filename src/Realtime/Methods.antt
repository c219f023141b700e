-- ===== src/Realtime/Methods.antt =====
-- What the hub's methods that take sockets out do, and that they keep the hub sound.
use veritra.Prelude.{
  ℕ, ◌≡◌, refl, ◌∙◌, String, Bool, true, not, ◌&&◌, List, [], ◌∷◌, arith, str_eq, eq_iff, All,
  if_cases, Bool-cases, inl, inr, eq→==,
}
use veritra.Realtime.Client.{Client, same_client, same_client_iff, close}
use veritra.Realtime.Hub.{
  Hub, clients_of, contains, evict, remove_locked, close_client, unregister, disconnect_where,
  disconnect_device, disconnect_account, disconnect_account_except_device,
}
use veritra.Realtime.Remove.{remove_locked-IsConsistent, remove_locked-IsWithinLimits}
use veritra.Realtime.Register.{IsSound, All-map}
use veritra.Realtime.Disconnect.{
  IsReady, disconnect_where-IsSound, contains-disconnect_where, close_client-IsSound,
  contains-evict,
}

All-inside : (cs : List Client) → All (λ c. contains c cs ≡ true) cs
All-inside [] = tt
All-inside (c ∷ cs) =
    (ground (arith, same_client_iff c c), All-map cs (λ d h. ground arith) (All-inside cs))

pub all-IsReady :
    (account : String) (h : Hub) → IsSound h → IsReady account (clients_of h account) h
all-IsReady account h v = record {
  distinct = v.consistent.distinct account;
  inside = All-inside (clients_of h account);
  home = All-map (clients_of h account) (λ c f. f.0) (v.consistent.filed account);
}

module _ (h : Hub) (v : IsSound h) where
  whole-IsSound :
      (p : Client → Bool) (account : String)
      → IsSound (disconnect_where p account (clients_of h account) h)
  whole-IsSound p account =
      disconnect_where-IsSound p account (clients_of h account) h (all-IsReady account h v) v

  pub disconnect_device-IsSound :
      (account device : String) → IsSound (disconnect_device account device h)
  unfolding disconnect_device
  disconnect_device-IsSound account device = whole-IsSound _ account

  pub disconnect_account_except_device-IsSound :
      (account keep : String) → IsSound (disconnect_account_except_device account keep h)
  unfolding disconnect_account_except_device
  disconnect_account_except_device-IsSound account keep = whole-IsSound _ account

  pub disconnect_account-IsSound : (account : String) → IsSound (disconnect_account account h)
  unfolding disconnect_account
  disconnect_account-IsSound account = whole-IsSound _ account

  -- Who is left after a loop over the whole set.
  who_stays :
      (p : Client → Bool) (account : String) (d : Client) (a : String)
      → contains d (clients_of (disconnect_where p account (clients_of h account) h) a)
        ≡ (contains d (clients_of h a) && not (str_eq account a && p d))
  who_stays p account d a = ground (
    arith,
    contains-disconnect_where p account (clients_of h account) h d a (all-IsReady account h v) v,
    eq_iff account a,
  )

  -- In a sound hub, disconnecting a device takes exactly the sockets of the device out of its
  -- account's set, and no socket of another set.
  pub disconnect_device_lem :
      (account device : String) (d : Client) (a : String)
      → contains d (clients_of (disconnect_device account device h) a)
        ≡ (contains d (clients_of h a) && not (str_eq account a && str_eq d.device_id device))
  unfolding disconnect_device
  disconnect_device_lem account device d a = who_stays _ account d a

  -- In a sound hub, disconnecting an account except one device takes the sockets of its other
  -- devices out, and no others.
  pub disconnect_account_except_device_lem :
      (account keep : String) (d : Client) (a : String)
      → contains d (clients_of (disconnect_account_except_device account keep h) a)
        ≡ (contains d (clients_of h a) && not (str_eq account a && not (str_eq d.device_id keep)))
  unfolding disconnect_account_except_device
  disconnect_account_except_device_lem account keep d a = who_stays _ account d a

  -- In a sound hub, disconnecting an account takes all its sockets out, and no others.
  pub disconnect_account_lem :
      (account : String) (d : Client) (a : String)
      → contains d (clients_of (disconnect_account account h) a)
        ≡ (contains d (clients_of h a) && not (str_eq account a))
  unfolding disconnect_account
  disconnect_account_lem account d a = who_stays (λ c. true) account d a ∙ ground arith

  pub unregister-IsSound : (c : Client) → IsSound (unregister c h)
  unfolding unregister
  unregister-IsSound c = close_client-IsSound c _ (
      if_cases IsSound (contains c (clients_of h c.account_id)) _ _
        (λ e. record {
          consistent = remove_locked-IsConsistent c.account_id c h refl e v.consistent;
          within_limits = remove_locked-IsWithinLimits c.account_id c h refl v.within_limits;
        })
        (λ e. v))

  -- In a sound hub, unregistering a client takes it out of the set of its account, and no other
  -- client.
  pub unregister_lem :
      (c d : Client) (a : String)
      → contains d (clients_of (unregister c h) a)
        ≡ (contains d (clients_of h a) && not (str_eq c.account_id a && same_client d c))
  unfolding unregister evict close_client
  unregister_lem c d a =
      if_cases
        (λ g.
          contains d (clients_of (close_client c g) a)
          ≡ (contains d (clients_of h a) && not (str_eq c.account_id a && same_client d c)))
        (contains c (clients_of h c.account_id)) _ _
        (λ e. contains-evict c.account_id c h d a refl (v.consistent.distinct c.account_id))
        (λ e. ground (arith, e, same_client_iff d c, eq_iff c.account_id a))

-- A loop closes the clients that it takes out, and opens none.
abbrev pub IsClosed : ℕ → Hub → Type 0
IsClosed a h = (h.sockets a).closed ≡ true

evict_closes : (account : String) (c : Client) (h : Hub) → IsClosed c.address (evict account c h)
unfolding evict close_client close
evict_closes account c h = rw (eq→== c.address c.address refl) refl

evict_stays :
    (account : String) (c : Client) (h : Hub) (a : ℕ)
    → IsClosed a h
    → IsClosed a (evict account c h)
unfolding evict close_client close remove_locked
evict_stays account c h a s = ground arith

loop_stays :
    (p : Client → Bool) (account : String) (cs : List Client) (h : Hub) (a : ℕ)
    → IsClosed a h
    → IsClosed a (disconnect_where p account cs h)
unfolding disconnect_where
loop_stays p account [] h a s = s
loop_stays p account (c ∷ cs) h a s =
    loop_stays p account cs _ a
      (if_cases (IsClosed a) (p c) _ _ (λ e. evict_stays account c h a s) (λ e. s))

loop_closes :
    (p : Client → Bool) (account : String) (cs : List Client) (h : Hub) (d : Client)
    → contains d cs ≡ true
    → p d ≡ true
    → IsClosed d.address (disconnect_where p account cs h)
unfolding disconnect_where
loop_closes p account [] h d i pd = cc
loop_closes p account (c ∷ cs) h d i pd = elim (Bool-cases (same_client d c)) [
  | inl e ↦
      let same = (same_client_iff d c).0 e in
      loop_stays p account cs _ d.address (
        if_cases (IsClosed d.address) (p c) _ _ (λ t. rw same (evict_closes account c h)) (λ t. cc))
  | inr e ↦ loop_closes p account cs _ d (rw e at i) pd
]

-- Disconnecting a device closes every registered socket of the device.
pub disconnect_device_closes :
    (h : Hub) (account device : String) (d : Client)
    → contains d (clients_of h account) ≡ true
    → d.device_id ≡ device
    → IsClosed d.address (disconnect_device account device h)
unfolding disconnect_device
disconnect_device_closes h account device d i e =
    loop_closes _ account (clients_of h account) h d i ((eq_iff d.device_id device).1 e)
