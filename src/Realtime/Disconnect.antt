-- ===== src/Realtime/Disconnect.antt =====
-- The Disconnect methods, `Unregister` and `Drain`.
use veritra.Prelude.{
  ◌≡◌, refl, String, Bool, true, false, not, ◌&&◌, List, [], ◌∷◌, arith, str_eq, eq_iff,
  if◌then◌else◌, All, if_cases,
}
use veritra.Realtime.Client.{Client, same_client, same_client_iff}
use veritra.Realtime.Hub.{Hub, clients_of, contains, erase, close_client, evict, disconnect_where}
use veritra.Realtime.Invariant.{AreDistinct}
use veritra.Realtime.Remove.{
  clients_of-remove_locked, remove_locked-IsConsistent, remove_locked-IsWithinLimits,
}
use veritra.Realtime.Register.{IsSound, touched-IsSound}

contains-erase :
    (d c : Client) (cs : List Client)
    → AreDistinct cs
    → contains d (erase c cs) ≡ (contains d cs && not (same_client d c))
contains-erase d c [] u = refl
contains-erase d c (x ∷ xs) u = ground (
  arith,
  same_client_iff c x,
  same_client_iff d x,
  same_client_iff d c,
  u.0,
  contains-erase d c xs u.1,
)

pub close_client-IsSound : (c : Client) (h : Hub) → IsSound h → IsSound (close_client c h)
unfolding close_client
close_client-IsSound c h v =
    touched-IsSound h _ h.dropped h.rejected_limit h.rejected_draining h.draining v

pub evict-IsSound :
    (account : String) (c : Client) (h : Hub)
    → c.account_id ≡ account
    → contains c (clients_of h account) ≡ true
    → IsSound h
    → IsSound (evict account c h)
unfolding evict
evict-IsSound account c h home inside v = close_client-IsSound c _ (record {
  consistent = remove_locked-IsConsistent account c h home inside v.consistent;
  within_limits = remove_locked-IsWithinLimits account c h home v.within_limits;
})

-- Who is left after one eviction.
pub contains-evict :
    (account : String) (c : Client) (h : Hub) (d : Client) (a : String)
    → c.account_id ≡ account
    → AreDistinct (clients_of h account)
    → contains d (clients_of (evict account c h) a)
      ≡ (contains d (clients_of h a) && not (str_eq account a && same_client d c))
unfolding evict close_client
contains-evict account c h d a home u = rw (clients_of-remove_locked account c h home a) (
    if_cases
      (λ cs.
        contains d cs ≡ (contains d (clients_of h a) && not (str_eq account a && same_client d c)))
      (str_eq account a) _ _
      (λ e. ground (arith, contains-erase d c (clients_of h account) u, eq_iff account a))
      (λ e. rw e (ground arith)))

-- The clients that a loop has still to visit are in the account's set, each once.
pub record IsReady (account : String) (cs : List Client) (h : Hub) : Type 0 where
  pub distinct : AreDistinct cs
  pub inside : All (λ c. contains c (clients_of h account) ≡ true) cs
  pub home : All (λ c. c.account_id ≡ account) cs

apart :
    (c : Client) (cs : List Client) → contains c cs ≡ false → All (λ d. same_client d c ≡ false) cs
apart c [] h = tt
apart c (d ∷ ds) h =
    (ground (arith, same_client_iff c d, same_client_iff d c), apart c ds (ground arith))

still_inside :
    (account : String) (c : Client) (h : Hub) (cs : List Client)
    → c.account_id ≡ account
    → AreDistinct (clients_of h account)
    → All (λ d. same_client d c ≡ false) cs
    → All (λ d. contains d (clients_of h account) ≡ true) cs
    → All (λ d. contains d (clients_of (evict account c h) account) ≡ true) cs
still_inside account c h [] home u far ins = tt
still_inside account c h (d ∷ ds) home u far ins = (
  ground (arith, contains-evict account c h d account home u, far.0, ins.0),
  still_inside account c h ds home u far.1 ins.1,
)

module _ (p : Client → Bool) (account : String) where
  next : (c : Client) (h : Hub) → Hub
  next c h = if p c then evict account c h else h

  next-IsReady :
      (c : Client) (cs : List Client) (h : Hub)
      → AreDistinct (clients_of h account)
      → IsReady account (c ∷ cs) h
      → IsReady account cs (next c h)
  unfolding next
  next-IsReady c cs h u r =
      if_cases (IsReady account cs) (p c) _ _
        (λ e. record {
          distinct = r.distinct.1;
          inside = still_inside account c h cs r.home.0 u (apart c cs r.distinct.0) r.inside.1;
          home = r.home.1;
        })
        (λ e. record { distinct = r.distinct.1; inside = r.inside.1; home = r.home.1 })

  next-IsSound :
      (c : Client) (cs : List Client) (h : Hub)
      → IsReady account (c ∷ cs) h
      → IsSound h
      → IsSound (next c h)
  unfolding next
  next-IsSound c cs h r v =
      if_cases IsSound (p c) _ _ (λ e. evict-IsSound account c h r.home.0 r.inside.0 v) (λ e. v)

  contains-next :
      (c : Client) (h : Hub) (d : Client) (a : String)
      → c.account_id ≡ account
      → AreDistinct (clients_of h account)
      → contains d (clients_of (next c h) a)
        ≡ (contains d (clients_of h a) && not (str_eq account a && (p d && same_client d c)))
  unfolding next
  contains-next c h d a home u =
      if_cases
        (λ g.
          contains d (clients_of g a)
          ≡ (contains d (clients_of h a) && not (str_eq account a && (p d && same_client d c))))
        (p c) _ _ (λ e. ground (arith, contains-evict account c h d a home u, same_client_iff d c))
        (λ e. ground (arith, same_client_iff d c))

  pub disconnect_where-IsSound :
      (cs : List Client) (h : Hub)
      → IsReady account cs h
      → IsSound h
      → IsSound (disconnect_where p account cs h)
  unfolding disconnect_where next
  disconnect_where-IsSound [] h r v = v
  disconnect_where-IsSound (c ∷ cs) h r v =
      disconnect_where-IsSound cs (next c h) (next-IsReady c cs h (v.consistent.distinct account) r)
        (next-IsSound c cs h r v)

  pub contains-disconnect_where :
      (cs : List Client) (h : Hub) (d : Client) (a : String)
      → IsReady account cs h
      → IsSound h
      → contains d (clients_of (disconnect_where p account cs h) a)
        ≡ (contains d (clients_of h a) && not (str_eq account a && (p d && contains d cs)))
  unfolding disconnect_where next
  contains-disconnect_where [] h d a r v = ground arith
  contains-disconnect_where (c ∷ cs) h d a r v =
      let u = v.consistent.distinct account in
      let ih =
        contains-disconnect_where cs (next c h) d a (next-IsReady c cs h u r)
          (next-IsSound c cs h r v) in
      ground (arith, ih, contains-next c h d a r.home.0 u)
