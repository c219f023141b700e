-- ===== src/Realtime/Remove.antt =====
-- `removeLocked` keeps the hub consistent and takes out one client.
use veritra.Prelude.{
  ◌+◌, ◌≤◌, ◌≡◌, ◌≢◌, refl, sym, subst, String, true, false, List, [], ◌∷◌, some, arith, str_eq,
  eq_iff, if◌then◌else◌, length, All, Bool-cases, inl, inr,
}
use veritra.Prelude.GoMap.{lookup, HasUniqueKeys}
use veritra.Realtime.Client.{Client, same_client}
use veritra.Realtime.Hub.{
  Hub, clients_of, contains, erase, device_count, or_empty, max_connections_per_account,
  max_connections_per_device, remove_locked, settle,
}
use veritra.Realtime.Index.{
  Weight, weight, weigh-erase, lookup-settle, settle-HasUniqueKeys, weight-settle, settle_tidy,
}
use veritra.Realtime.Counters.{
  count_at-unbump, unbump-IsTidy, count_at-skip_unbump, skip_unbump-IsTidy,
}
use veritra.Realtime.Invariant.{
  one, on_ip, on_prefix, AreDistinct, IsFiled, IsConsistent, IsWithinLimits,
}

All-erase {κ} :
    (P : Client → Type κ) (c : Client) (cs : List Client) → All P cs → All P (erase c cs)
All-erase P c [] h = tt
All-erase P c (d ∷ ds) h = elim (Bool-cases (same_client c d)) [
  | inl e ↦ rw e h.1
  | inr e ↦ rw e (h.0, All-erase P c ds h.1)
]

contains-erase-false :
    (d c : Client) (cs : List Client) → contains d cs ≡ false → contains d (erase c cs) ≡ false
contains-erase-false d c [] h = refl
contains-erase-false d c (b ∷ bs) h = elim (Bool-cases (same_client c b)) [
  | inl e ↦ rw e (ground arith)
  | inr e ↦ rw e (ground (arith, contains-erase-false d c bs))
]

AreDistinct-erase : (c : Client) (cs : List Client) → AreDistinct cs → AreDistinct (erase c cs)
AreDistinct-erase c [] h = tt
AreDistinct-erase c (d ∷ ds) h = elim (Bool-cases (same_client c d)) [
  | inl e ↦ rw e h.1
  | inr e ↦ rw e (contains-erase-false d c ds h.0, AreDistinct-erase c ds h.1)
]

length-erase : (c : Client) (cs : List Client) → length (erase c cs) ≤ length cs
length-erase c [] = omega arith
length-erase c (d ∷ ds) = ground (arith, length-erase c ds)

device_count-erase :
    (k : String) (c : Client) (cs : List Client) → device_count k (erase c cs) ≤ device_count k cs
device_count-erase k c [] = omega arith
device_count-erase k c (d ∷ ds) = ground (arith, device_count-erase k c ds)

-- What the account's set, and every other, is after a removal.
module _ (account : String) (c : Client) (h : Hub) (home : c.account_id ≡ account) where
  pub clients_of-remove_locked :
      (a : String)
      → clients_of (remove_locked account c h) a
        ≡ (if str_eq account a then erase c (clients_of h account) else clients_of h a)
  unfolding remove_locked
  clients_of-remove_locked a =
      subst
        (λ (k : String).
          or_empty (lookup a (settle account k (erase c (clients_of h account)) h.subscribers))
          ≡ (if str_eq account a then erase c (clients_of h account) else clients_of h a))
        (sym home) (lookup-settle account (erase c (clients_of h account)) h.subscribers a)

  after_removal :
      (Q : List Client → Type 0) (a : String)
      → Q (clients_of h a)
      → (account ≡ a → Q (erase c (clients_of h account)))
      → Q (clients_of (remove_locked account c h) a)
  after_removal Q a other own =
      subst Q (sym (clients_of-remove_locked a)) (elim (Bool-cases (str_eq account a)) [
        | inl e ↦ rw e (own ((eq_iff account a).0 e))
        | inr e ↦ rw e other
      ])

  removed_weight :
      (w : Weight)
      → HasUniqueKeys h.subscribers
      → contains c (clients_of h account) ≡ true
      → weight w (remove_locked account c h).subscribers + w c ≡ weight w h.subscribers
  unfolding remove_locked
  removed_weight w u inside =
      subst
        (λ (k : String).
          weight w (settle account k (erase c (clients_of h account)) h.subscribers) + w c
          ≡ weight w h.subscribers)
        (sym home)
        (omega (
          arith,
          weight-settle account (erase c (clients_of h account)) h.subscribers w u,
          weigh-erase w c (clients_of h account) inside,
        ))

  removed_index :
      HasUniqueKeys h.subscribers
      → ((a : String) → lookup a h.subscribers ≢ some [])
      → HasUniqueKeys (remove_locked account c h).subscribers
        × ((a : String) → lookup a (remove_locked account c h).subscribers ≢ some [])
  unfolding remove_locked
  removed_index u t =
      let left = erase c (clients_of h account) in
      subst
        (λ (k : String).
          HasUniqueKeys (settle account k left h.subscribers)
          × ((a : String) → lookup a (settle account k left h.subscribers) ≢ some []))
        (sym home)
        (
          settle-HasUniqueKeys account left h.subscribers u,
          settle_tidy account left h.subscribers t,
        )

  removed-IsFiled :
      (a : String)
      → ((b : String) → All (IsFiled h b) (clients_of h b))
      → All (IsFiled h a) (clients_of (remove_locked account c h) a)
  removed-IsFiled a f = after_removal (All (IsFiled h a)) a (f a) (λ e.
      All-erase (IsFiled h a) c (clients_of h account)
        (subst (λ (b : String). All (IsFiled h b) (clients_of h account)) e (f account)))

  pub remove_locked-IsConsistent :
      contains c (clients_of h account) ≡ true
      → IsConsistent h
      → IsConsistent (remove_locked account c h)
  unfolding remove_locked
  remove_locked-IsConsistent inside v = record {
    keys = (removed_index v.keys v.sets_tidy).0;
    sets_tidy = (removed_index v.keys v.sets_tidy).1;
    filed = λ a. removed-IsFiled a v.filed;
    distinct = λ a.
        after_removal AreDistinct a (v.distinct a)
          (λ e. AreDistinct-erase c _ (v.distinct account));
    total_exact = omega (arith, v.total_exact, removed_weight one v.keys inside);
    ip_exact = λ k.
        rw count_at-unbump (omega (arith, v.ip_exact k, removed_weight (on_ip k) v.keys inside));
    prefix_exact = λ k.
        rw count_at-skip_unbump
          (omega (arith, v.prefix_exact k, removed_weight (on_prefix k) v.keys inside));
    ip_tidy = unbump-IsTidy c.ip_key h.per_ip v.ip_tidy;
    prefix_tidy = skip_unbump-IsTidy c.prefix_key h.per_prefix v.prefix_tidy;
  }

  pub remove_locked-IsWithinLimits : IsWithinLimits h → IsWithinLimits (remove_locked account c h)
  unfolding remove_locked
  remove_locked-IsWithinLimits v = record {
    total_cap = omega (arith, v.total_cap);
    account_cap = λ a.
        after_removal (λ cs. length cs ≤ max_connections_per_account) a (v.account_cap a)
          (λ e. omega (arith, length-erase c (clients_of h account), v.account_cap account));
    device_cap = λ a d.
        after_removal (λ cs. device_count d cs ≤ max_connections_per_device) a (v.device_cap a d)
          (λ e.
            omega (arith, device_count-erase d c (clients_of h account), v.device_cap account d));
    ip_cap = λ k. rw count_at-unbump (omega (arith, v.ip_cap k));
    prefix_cap = λ k. rw count_at-skip_unbump (omega (arith, v.prefix_cap k));
  }
