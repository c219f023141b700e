-- ===== src/Limits/Identity.antt =====
-- The network identity of a client (server/internal/httpapi/client_identity.go). The packages net
-- and strings are a parameter, as far as the file uses them.
pub mod Spoofing
mod Tests
use veritra.Prelude.{
  ℕ, zero, suc, String, Bool, true, false, not, ◌&&◌, ◌||◌, List, [], ◌∷◌, Option, some, none,
  if◌then◌else◌,
}

pub record Net : Type 1 where
  pub Ip : Type 0
  pub IpNet : Type 0
  pub parse_ip : String → Option Ip
  pub show : Ip → String
  pub contains : IpNet → Ip → Bool
  -- net.SplitHostPort, the host alone
  pub split_host_port : String → Option String
  pub trim_space : String → String
  -- strings.Trim(value, "[]")
  pub trim_brackets : String → String
  -- strings.Contains(value, "%")
  pub has_zone : String → Bool
  -- strings.Join(values, ",") and strings.Split(joined, ",")
  pub join_commas : List String → String
  pub split_commas : String → List String
  -- strings.Trim(joined, ", \t") == ""
  pub is_blank : String → Bool

-- What `ClientIP` reads of a request: X-Forwarded-For may stand in several headers.
pub record Request : Type 0 where
  pub remote_addr : String
  pub forwarded_for : List String
  pub real_ip : String

abbrev pub max_forwarded_hops : ℕ
max_forwarded_hops = 16

module _ (net : Net) where
  unfoldable pub ip_in_networks : net.Ip → List net.IpNet → Bool
  ip_in_networks ip [] = false
  ip_in_networks ip (n ∷ ns) = net.contains n ip || ip_in_networks ip ns

  -- The host of "host:port", or the value itself.
  abbrev pub host_or : String → String
  host_or value = elim (net.split_host_port value) [ none ↦ value | some host ↦ host ]

  unfoldable pub forwarded_ip : String → Option net.Ip
  forwarded_ip value =
      let bare = net.trim_brackets (host_or (net.trim_space value)) in
      if net.has_zone bare then none else net.parse_ip bare

  unfoldable pub remote_host : String → String
  remote_host remote_addr = elim (net.split_host_port (net.trim_space remote_addr)) [
    | some host ↦ host
    | none ↦ net.trim_brackets (net.trim_space remote_addr)
  ]

  unfoldable pub canonical_ip : String → String
  canonical_ip value = elim (net.parse_ip (net.trim_brackets value)) [
    | some ip ↦ net.show ip
    | none ↦ net.trim_brackets value
  ]

  -- The entries from the right: forwarded[len(forwarded)-1-hops] for hops from 0.
  abbrev pub from_right : List String → List String → List String
  from_right seen [] = seen
  from_right seen (v ∷ vs) = from_right (v ∷ seen) vs

  -- The loop over the hops.
  unfoldable pub walk : List net.IpNet → String → ℕ → List String → String
  walk trusted direct zero entries = direct
  walk trusted direct (suc hops) [] = direct
  walk trusted direct (suc hops) (v ∷ vs) = elim (forwarded_ip v) [
    | none ↦ direct
    | some ip ↦ if not (ip_in_networks ip trusted) then net.show ip else walk trusted direct hops vs
  ]

  -- From the direct peer on, which a trusted proxy is.
  unfoldable pub through_proxy : List net.IpNet → String → Request → String
  through_proxy trusted direct r =
      let joined = net.join_commas r.forwarded_for in
      if net.is_blank joined
      then (elim (forwarded_ip r.real_ip) [ some ip ↦ net.show ip | none ↦ direct ])
      else walk trusted direct max_forwarded_hops (from_right [] (net.split_commas joined))

  unfoldable pub client_ip : List net.IpNet → Request → String
  client_ip trusted r =
      let direct = canonical_ip (remote_host r.remote_addr) in
      elim (net.parse_ip direct) [
        | none ↦ direct
        | some ip ↦
            if not (ip_in_networks ip trusted) then direct else through_proxy trusted direct r
      ]
