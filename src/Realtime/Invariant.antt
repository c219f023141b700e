-- ===== src/Realtime/Invariant.antt =====
-- What holds of the hub between two calls: its indexes agree, and every cap is kept.
use veritra.Prelude.{
  ℕ, ◌≤◌, ◌<◌, ◌≡◌, ◌≢◌, refl, String, false, List, [], ◌∷◌, some, arith, length, All,
}
use veritra.Prelude.GoMap.{lookup, HasUniqueKeys}
use veritra.Realtime.Client.{Client}
use veritra.Realtime.Hub.{
  Hub, clients_of, contains, device_count, max_connections, max_connections_per_ip,
  max_connections_per_account, max_connections_per_device, new_hub,
}
use veritra.Realtime.Index.{Weight, weight}
use veritra.Realtime.Counters.{count_at, hit, hit_prefix, IsTidy}

abbrev pub one : Weight
one c = 1

abbrev pub on_ip : String → Weight
on_ip k c = hit c.ip_key k

-- IPv4 sockets, whose prefix key is empty, are not counted.
abbrev pub on_prefix : String → Weight
on_prefix k c = hit_prefix c.prefix_key k

-- No client stands twice.
abbrev pub AreDistinct : List Client → Type 0
AreDistinct [] = Unit
AreDistinct (c ∷ cs) = (contains c cs ≡ false) × AreDistinct cs

-- A client of the account's set: it belongs to the account and was allocated before.
abbrev pub IsFiled : Hub → String → Client → Type 0
IsFiled h a c = (c.account_id ≡ a) × (c.address < h.fresh)

pub record IsConsistent (h : Hub) : Type 0 where
  pub keys : HasUniqueKeys h.subscribers
  pub sets_tidy : (a : String) → lookup a h.subscribers ≢ some []
  pub filed : (a : String) → All (IsFiled h a) (clients_of h a)
  pub distinct : (a : String) → AreDistinct (clients_of h a)
  pub total_exact : h.total ≡ weight one h.subscribers
  pub ip_exact : (k : String) → count_at k h.per_ip ≡ weight (on_ip k) h.subscribers
  pub prefix_exact : (k : String) → count_at k h.per_prefix ≡ weight (on_prefix k) h.subscribers
  pub ip_tidy : IsTidy h.per_ip
  pub prefix_tidy : IsTidy h.per_prefix

-- The caps that `Register` enforces.
pub record IsWithinLimits (h : Hub) : Type 0 where
  pub total_cap : h.total ≤ max_connections
  pub account_cap : (a : String) → length (clients_of h a) ≤ max_connections_per_account
  pub device_cap : (a d : String) → device_count d (clients_of h a) ≤ max_connections_per_device
  pub ip_cap : (k : String) → count_at k h.per_ip ≤ max_connections_per_ip
  pub prefix_cap : (k : String) → count_at k h.per_prefix ≤ h.per_prefix_limit

pub new_hub-IsConsistent : (n : ℕ) → IsConsistent (new_hub n)
unfolding new_hub lookup
new_hub-IsConsistent n = record {
  keys = tt;
  sets_tidy = λ a e. cc;
  filed = λ a. tt;
  distinct = λ a. tt;
  total_exact = refl;
  ip_exact = λ k. refl;
  prefix_exact = λ k. refl;
  ip_tidy = λ k e. cc;
  prefix_tidy = λ k e. cc;
}

pub new_hub-IsWithinLimits : (n : ℕ) → IsWithinLimits (new_hub n)
unfolding new_hub lookup
new_hub-IsWithinLimits n = record {
  total_cap = omega arith;
  account_cap = λ a. omega arith;
  device_cap = λ a d. omega arith;
  ip_cap = λ k. omega arith;
  prefix_cap = λ k. omega arith;
}
