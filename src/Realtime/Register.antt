-- ===== src/Realtime/Register.antt =====
-- `Register`: a new client enters every index, and the caps are kept.
use veritra.Prelude.{
  ℕ, ◌+◌, ◌≤◌, ◌<◌, ◌≡◌, ◌≢◌, ◌↔◌, refl, sym, subst, String, Bool, false, List, [], ◌∷◌, arith,
  str_eq, eq_iff, if◌then◌else◌, length, All, Bool-cases, inl, inr, ◌∙◌, if_cases, eq→==,
}
use text.Mathlib.TextPositions.{eq_refl}
use veritra.Prelude.GoMap.{lookup-insert, insert-HasUniqueKeys}
use veritra.Realtime.Client.{Client, same_client_iff, Socket}
use veritra.Realtime.Hub.{
  Hub, Netip, clients_of, contains, device_count, add_client, at_limit, register, Registration,
  address_keys, max_connections, max_connections_per_ip, max_connections_per_account,
  max_connections_per_device,
}
use veritra.Realtime.Index.{Weight, weight, weight-insert}
use veritra.Realtime.Counters.{count_at-bump, bump-IsTidy, count_at-skip_bump, skip_bump-IsTidy}
use veritra.Realtime.Invariant.{
  one, on_ip, on_prefix, AreDistinct, IsFiled, IsConsistent, IsWithinLimits,
}

pub All-map {κ} :
    {P Q : Client → Type κ} (cs : List Client) → ((c : Client) → P c → Q c) → All P cs → All Q cs
All-map [] f h = tt
All-map (c ∷ cs) f h = (f c h.0, All-map cs f h.1)

-- An object allocated now is none of those allocated before.
pub new_address :
    (h : Hub) (a : String) (c : Client) (cs : List Client)
    → c.address ≡ h.fresh
    → All (IsFiled h a) cs
    → contains c cs ≡ false
new_address h a c [] e f = refl
new_address h a c (d ∷ ds) e f =
    ground (arith, same_client_iff c d, f.0, new_address h a c ds e f.1)

module _ (h : Hub) (c : Client) where
  pub clients_of-add_client :
      (a : String)
      → clients_of (add_client h c) a
        ≡ (if str_eq c.account_id a then c ∷ clients_of h c.account_id else clients_of h a)
  unfolding add_client
  clients_of-add_client a = rw lookup-insert (ground arith)

  after_adding :
      (Q : List Client → Type 0) (a : String)
      → Q (clients_of h a)
      → (c.account_id ≡ a → Q (c ∷ clients_of h c.account_id))
      → Q (clients_of (add_client h c) a)
  after_adding Q a other own =
      subst Q (sym (clients_of-add_client a)) (elim (Bool-cases (str_eq c.account_id a)) [
        | inl e ↦ rw e (own ((eq_iff c.account_id a).0 e))
        | inr e ↦ rw e other
      ])

  added_weight : (w : Weight) → weight w (add_client h c).subscribers ≡ weight w h.subscribers + w c
  unfolding add_client
  added_weight w =
      omega (arith, weight-insert w c.account_id (c ∷ clients_of h c.account_id) h.subscribers)

  older : (a : String) (d : Client) → IsFiled h a d → IsFiled (add_client h c) a d
  unfolding add_client
  older a d f = (f.0, omega (arith, f.1))

  pub add_client-IsConsistent : c.address ≡ h.fresh → IsConsistent h → IsConsistent (add_client h c)
  unfolding add_client
  add_client-IsConsistent new v = record {
    keys = insert-HasUniqueKeys c.account_id _ h.subscribers v.keys;
    sets_tidy = λ a. rw lookup-insert (ground (arith, v.sets_tidy a));
    filed = λ a.
        after_adding (All (IsFiled (add_client h c) a)) a
          (All-map (clients_of h a) (older a) (v.filed a))
          (λ e. (
            (e, omega arith),
            All-map (clients_of h c.account_id) (λ d f. older a d (f.0 ∙ e, f.1))
                (v.filed c.account_id),
          ));
    distinct = λ a.
        after_adding AreDistinct a (v.distinct a) (λ e.
          (new_address h c.account_id c _ new (v.filed c.account_id), v.distinct c.account_id));
    total_exact = omega (arith, v.total_exact, added_weight one);
    ip_exact = λ k. rw count_at-bump (omega (arith, v.ip_exact k, added_weight (on_ip k)));
    prefix_exact =
        λ k. rw count_at-skip_bump (omega (arith, v.prefix_exact k, added_weight (on_prefix k)));
    ip_tidy = bump-IsTidy c.ip_key h.per_ip v.ip_tidy;
    prefix_tidy = skip_bump-IsTidy c.prefix_key h.per_prefix v.prefix_tidy;
  }

  pub add_client-IsWithinLimits :
      at_limit h c.account_id c.device_id c.ip_key c.prefix_key ≡ false
      → IsWithinLimits h
      → IsWithinLimits (add_client h c)
  unfolding add_client at_limit
  add_client-IsWithinLimits room v = record {
    total_cap = ground arith;
    account_cap = λ a.
        after_adding (λ cs. length cs ≤ max_connections_per_account) a (v.account_cap a)
          (λ e. ground arith);
    device_cap = λ a d.
        after_adding (λ cs. device_count d cs ≤ max_connections_per_device) a (v.device_cap a d)
          (λ e. ground (arith, eq_iff c.device_id d, v.device_cap c.account_id d));
    ip_cap = λ k. rw count_at-bump (ground (arith, eq_iff c.ip_key k, v.ip_cap k));
    prefix_cap = λ k. rw count_at-skip_bump (ground (arith, eq_iff c.prefix_key k, v.prefix_cap k));
  }

  pub added_fields :
      (clients_of (add_client h c) c.account_id ≡ c ∷ clients_of h c.account_id)
      × ((add_client h c).total ≡ h.total + 1)
      × (((add_client h c).sockets c.address).closed ≡ false)
  unfolding add_client
  added_fields = (rw (lookup-insert, eq_refl) refl, refl, rw (eq→== c.address c.address refl) refl)

-- In a consistent hub, the test for the caps passes exactly where the sockets that are registered
-- are below each cap.
pub at_limit_iff :
    (h : Hub) (account device ip_key prefix_key : String)
    → IsConsistent h
    → (at_limit h account device ip_key prefix_key ≡ false) ↔ (
        (weight one h.subscribers < max_connections)
        × (length (clients_of h account) < max_connections_per_account)
        × (device_count device (clients_of h account) < max_connections_per_device)
        × (weight (on_ip ip_key) h.subscribers < max_connections_per_ip)
        × (prefix_key ≢ "" → weight (on_prefix prefix_key) h.subscribers < h.per_prefix_limit))
unfolding at_limit
at_limit_iff h account device ip_key prefix_key v = (
  λ f.
      ground
        (arith, v.total_exact, v.ip_exact ip_key, v.prefix_exact prefix_key, eq_iff prefix_key ""),
  λ f.
      ground
        (arith, v.total_exact, v.ip_exact ip_key, v.prefix_exact prefix_key, eq_iff prefix_key ""),
)

-- The rejection counters, the flags and the heap are no part of the indexes.
module _ (h : Hub) (sockets : ℕ → Socket) (dropped rejected_limit rejected_draining : ℕ)
    (draining : Bool) where
  abbrev touched : Hub
  touched = record h {
    sockets = sockets;
    dropped = dropped;
    rejected_limit = rejected_limit;
    rejected_draining = rejected_draining;
    draining = draining;
  }

  pub touched-IsConsistent : IsConsistent h → IsConsistent touched
  touched-IsConsistent v = record {
    keys = v.keys;
    sets_tidy = v.sets_tidy;
    filed = v.filed;
    distinct = v.distinct;
    total_exact = v.total_exact;
    ip_exact = v.ip_exact;
    prefix_exact = v.prefix_exact;
    ip_tidy = v.ip_tidy;
    prefix_tidy = v.prefix_tidy;
  }

  pub touched-IsWithinLimits : IsWithinLimits h → IsWithinLimits touched
  touched-IsWithinLimits v = record {
    total_cap = v.total_cap;
    account_cap = v.account_cap;
    device_cap = v.device_cap;
    ip_cap = v.ip_cap;
    prefix_cap = v.prefix_cap;
  }

-- The hub is sound: its indexes agree and the caps are kept.
pub record IsSound (h : Hub) : Type 0 where
  pub consistent : IsConsistent h
  pub within_limits : IsWithinLimits h

pub touched-IsSound :
    (h : Hub) (sockets : ℕ → Socket) (d l r : ℕ) (b : Bool)
    → IsSound h
    → IsSound (touched h sockets d l r b)
touched-IsSound h sockets d l r b v = record {
  consistent = touched-IsConsistent h sockets d l r b v.consistent;
  within_limits = touched-IsWithinLimits h sockets d l r b v.within_limits;
}

module _ (ip : Netip) (h : Hub) (account device remote_ip : String) where
  abbrev pub keys : String × String
  keys = address_keys ip remote_ip

  pub register-IsSound : IsSound h → IsSound (register ip h account device remote_ip).0
  unfolding register
  register-IsSound v =
      if_cases (λ (x : Hub × Registration). IsSound x.0) h.draining _ _
        (λ e.
          touched-IsSound h h.sockets h.dropped h.rejected_limit (h.rejected_draining + 1)
            h.draining v)
        (λ e.
          if_cases (λ (x : Hub × Registration). IsSound x.0)
            (at_limit h account device keys.0 keys.1) _ _
            (λ f.
              touched-IsSound h h.sockets h.dropped (h.rejected_limit + 1) h.rejected_draining
                h.draining v)
            (λ f. record {
              consistent = add_client-IsConsistent h _ refl v.consistent;
              within_limits = add_client-IsWithinLimits h _ f v.within_limits;
            }))
