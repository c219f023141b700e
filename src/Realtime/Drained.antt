-- ===== src/Realtime/Drained.antt =====
-- After `Drain` no socket is registered ever again, and those that were are closed.
use veritra.Prelude.{
  ℕ, ◌≡◌, refl, ap, sym, subst, String, Bool, true, List, [], ◌∷◌, some, none, arith, str_eq,
  if_cases, Bool-cases, inl, inr,
}
use veritra.Prelude.GoMap.{Map, lookup}
use veritra.Realtime.Client.{Client, same_client, same_client_iff, Payload, close}
use veritra.Realtime.Hub.{
  Hub, Netip, Registration, refused, hub_draining, clients_of, contains, or_empty, register,
  unregister, disconnect_device, disconnect_account, disconnect_account_except_device, drain,
  publish, close_accounts, close_all, close_client, send_one, send_all, targets, disconnect_where,
}
use veritra.Realtime.Methods.{IsClosed}
use veritra.Realtime.Reach.{
  Step, register_step, unregister_step, device_step, except_step, account_step, drain_step,
  publish_step, Reach, here, next, IsDrained,
}

all_stay : (cs : List Client) (h : Hub) (a : ℕ) → IsClosed a h → IsClosed a (close_all cs h)
unfolding close_all close_client close
all_stay [] h a s = s
all_stay (c ∷ cs) h a s = all_stay cs (close_client c h) a (ground arith)

accounts_stay :
    (m : Map (List Client)) (h : Hub) (a : ℕ) → IsClosed a h → IsClosed a (close_accounts m h)
unfolding close_accounts
accounts_stay [] h a s = s
accounts_stay ((k, cs) ∷ m) h a s = accounts_stay m (close_all cs h) a (all_stay cs h a s)

all_close :
    (cs : List Client) (h : Hub) (d : Client)
    → contains d cs ≡ true
    → IsClosed d.address (close_all cs h)
unfolding close_all close_client close
all_close [] h d i = cc
all_close (c ∷ cs) h d i = elim (Bool-cases (same_client d c)) [
  | inl e ↦ all_stay cs (close_client c h) d.address (ground (arith, same_client_iff d c))
  | inr e ↦ all_close cs (close_client c h) d (rw e at i)
]

accounts_close :
    (m : Map (List Client)) (h : Hub) (d : Client) (a : String)
    → contains d (or_empty (lookup a m)) ≡ true
    → IsClosed d.address (close_accounts m h)
unfolding close_accounts lookup
accounts_close [] h d a i = cc
accounts_close ((k, cs) ∷ m) h d a i = elim (Bool-cases (str_eq k a)) [
  | inl e ↦ accounts_stay m (close_all cs h) d.address (all_close cs h d (rw e at i))
  | inr e ↦ accounts_close m (close_all cs h) d a (rw e at i)
]

-- Draining closes every socket that is registered, empties the index and sets the flag.
pub drain_lem :
    (h : Hub) (d : Client) (a : String)
    → contains d (clients_of h a) ≡ true
    → IsClosed d.address (drain h) × IsDrained (drain h)
unfolding drain
drain_lem h d a i = (accounts_close h.subscribers h d a i, (refl, refl, refl))

send_all-IsDrained :
    (p : Payload) (cs : List Client) (h : Hub) → IsDrained h → IsDrained (send_all p cs h)
unfolding send_all send_one
send_all-IsDrained p [] h v = v
send_all-IsDrained p (c ∷ cs) h v = send_all-IsDrained p cs _ v

empty_set : (h : Hub) (a : String) → IsDrained h → clients_of h a ≡ []
unfolding lookup
empty_set h a v = ap (λ (m : Map (List Client)). or_empty (lookup a m)) v.1

loop-IsDrained :
    (p : Client → Bool) (h : Hub) (a : String)
    → IsDrained h
    → IsDrained (disconnect_where p a (clients_of h a) h)
unfolding disconnect_where
loop-IsDrained p h a v =
    subst (λ (cs : List Client). IsDrained (disconnect_where p a cs h)) (sym (empty_set h a v)) v

register-IsDrained :
    (ip : Netip) (h : Hub) (a d r : String)
    → IsDrained h
    → IsDrained (register ip h a d r).0 × ((register ip h a d r).1 ≡ refused hub_draining)
unfolding register
register-IsDrained ip h a d r v =
    if_cases (λ (x : Hub × Registration). IsDrained x.0 × (x.1 ≡ refused hub_draining)) h.draining _
      _ (λ e. (v, refl)) (λ e. cc (v.0))

unregister-IsDrained : (c : Client) (h : Hub) → IsDrained h → IsDrained (unregister c h)
unfolding unregister close_client
unregister-IsDrained c h v =
    if_cases (λ g. IsDrained (close_client c g)) (contains c (clients_of h c.account_id)) _ _
      (λ e. cc (ap (contains c) (empty_set h c.account_id v))) (λ e. v)

Step-IsDrained : {ip : Netip} {h k : Hub} → Step ip h k → IsDrained h → IsDrained k
unfolding disconnect_device disconnect_account disconnect_account_except_device drain publish
Step-IsDrained {ip} (register_step h a d r) v = (register-IsDrained ip h a d r v).0
Step-IsDrained (unregister_step h c) v = unregister-IsDrained c h v
Step-IsDrained (device_step h a d) v = loop-IsDrained _ h a v
Step-IsDrained (except_step h a d) v = loop-IsDrained _ h a v
Step-IsDrained (account_step h a) v = loop-IsDrained _ h a v
Step-IsDrained (drain_step h) v = (refl, refl, refl)
Step-IsDrained (publish_step h accounts none) v = v
Step-IsDrained (publish_step h accounts (some p)) v = send_all-IsDrained p (targets h accounts) h v

Reach-IsDrained : {ip : Netip} {h k : Hub} → IsDrained h → Reach ip h k → IsDrained k
Reach-IsDrained v here = v
Reach-IsDrained v (next r s) = Step-IsDrained s (Reach-IsDrained v r)

-- After a drain, whatever calls follow, no socket is registered and every registration is refused
-- as draining.
pub drained_forever :
    (ip : Netip) (h k : Hub) (account device remote_ip : String)
    → Reach ip (drain h) k
    → (k.subscribers ≡ [])
      × (k.total ≡ 0)
      × ((register ip k account device remote_ip).1 ≡ refused hub_draining)
unfolding drain
drained_forever ip h k account device remote_ip r =
    let v : IsDrained k = Reach-IsDrained (refl, refl, refl) r in
    (v.1, v.2, (register-IsDrained ip k account device remote_ip v).1)
