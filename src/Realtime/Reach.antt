-- ===== src/Realtime/Reach.antt =====
-- The hub over any sequence of calls. Each call runs under the hub's lock, so the calls of
-- concurrent connections are a sequence of steps.
use veritra.Prelude.{ℕ, ◌≡◌, refl, String, true, List, [], ◌∷◌, Option, some, none, arith}
use veritra.Prelude.GoMap.{lookup}
use veritra.Realtime.Client.{Client, Payload}
use veritra.Realtime.Hub.{
  Hub, Netip, new_hub, register, unregister, disconnect_device, disconnect_account,
  disconnect_account_except_device, drain, publish, send_one, send_all, targets,
}
use veritra.Realtime.Invariant.{new_hub-IsConsistent, new_hub-IsWithinLimits}
use veritra.Realtime.Register.{IsSound, touched-IsSound, register-IsSound}
use veritra.Realtime.Methods.{
  disconnect_device-IsSound, disconnect_account-IsSound, disconnect_account_except_device-IsSound,
  unregister-IsSound,
}

pub data Step (ip : Netip) : Hub → Hub → Type 1 where
  register_step :
      (h : Hub) (account device remote_ip : String)
      → Step ip h (register ip h account device remote_ip).0
  unregister_step : (h : Hub) (c : Client) → Step ip h (unregister c h)
  device_step : (h : Hub) (account device : String) → Step ip h (disconnect_device account device h)
  except_step :
      (h : Hub) (account keep : String)
      → Step ip h (disconnect_account_except_device account keep h)
  account_step : (h : Hub) (account : String) → Step ip h (disconnect_account account h)
  drain_step : (h : Hub) → Step ip h (drain h)
  publish_step :
      (h : Hub) (accounts : List String) (p : Option Payload) → Step ip h (publish accounts p h)

pub data Reach (ip : Netip) (h : Hub) : Hub → Type 1 where
  here : Reach ip h h
  next : {g k : Hub} → Reach ip h g → Step ip g k → Reach ip h k

send_all-IsSound :
    (p : Payload) (cs : List Client) (h : Hub) → IsSound h → IsSound (send_all p cs h)
unfolding send_all send_one
send_all-IsSound p [] h v = v
send_all-IsSound p (c ∷ cs) h v =
    send_all-IsSound p cs _
      (touched-IsSound h _ _ h.rejected_limit h.rejected_draining h.draining v)

publish-IsSound :
    (accounts : List String) (p : Option Payload) (h : Hub)
    → IsSound h
    → IsSound (publish accounts p h)
unfolding publish
publish-IsSound accounts none h v = v
publish-IsSound accounts (some p) h v = send_all-IsSound p (targets h accounts) h v

-- What `drain` leaves: no socket in any index, and the flag.
abbrev pub IsDrained : Hub → Type 0
IsDrained h = (h.draining ≡ true) × (h.subscribers ≡ []) × (h.total ≡ 0)

drain-IsSound : (h : Hub) → IsSound (drain h)
unfolding drain lookup
drain-IsSound h = record {
  consistent = record {
    keys = tt;
    sets_tidy = λ a e. cc;
    filed = λ a. tt;
    distinct = λ a. tt;
    total_exact = refl;
    ip_exact = λ k. refl;
    prefix_exact = λ k. refl;
    ip_tidy = λ k e. cc;
    prefix_tidy = λ k e. cc;
  };
  within_limits = record {
    total_cap = omega arith;
    account_cap = λ a. omega arith;
    device_cap = λ a d. omega arith;
    ip_cap = λ k. omega arith;
    prefix_cap = λ k. omega arith;
  };
}

pub Step-IsSound : {ip : Netip} {h k : Hub} → Step ip h k → IsSound h → IsSound k
Step-IsSound {ip} (register_step h a d r) v = register-IsSound ip h a d r v
Step-IsSound (unregister_step h c) v = unregister-IsSound h v c
Step-IsSound (device_step h a d) v = disconnect_device-IsSound h v a d
Step-IsSound (except_step h a d) v = disconnect_account_except_device-IsSound h v a d
Step-IsSound (account_step h a) v = disconnect_account-IsSound h v a
Step-IsSound (drain_step h) v = drain-IsSound h
Step-IsSound (publish_step h accounts p) v = publish-IsSound accounts p h v

Reach-Sound : {ip : Netip} {h k : Hub} → IsSound h → Reach ip h k → IsSound k
Reach-Sound v here = v
Reach-Sound v (next r s) = Step-IsSound s (Reach-Sound v r)

-- From a new hub, after any sequence of registrations, unregistrations, disconnections, drains
-- and publications, the counters equal the sockets that are registered, the sets hold no
-- duplicate, and the total, account, device, address and prefix caps are kept.
pub Reach-IsSound : (ip : Netip) (n : ℕ) (h : Hub) → Reach ip (new_hub n) h → IsSound h
Reach-IsSound ip n h r =
    Reach-Sound
      (record { consistent = new_hub-IsConsistent n; within_limits = new_hub-IsWithinLimits n }) r
