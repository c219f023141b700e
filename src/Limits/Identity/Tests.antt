-- ===== src/Limits/Identity/Tests.antt =====
-- A chain through one trusted proxy, in which the client wrote an entry of its own.
use veritra.Prelude.{◌≡◌, refl, String, false, List, [], ◌∷◌, some, none, str_eq, arith}
use veritra.Limits.Identity.{
  Net, Request, client_ip, canonical_ip, remote_host, forwarded_ip, ip_in_networks,
}
use veritra.Limits.Identity.Spoofing.{client_ip_lem}

-- Every text is an address, a network is one address, and the chain is always the same.
abbrev chain : List String
chain = "spoofed" ∷ "client" ∷ "proxy" ∷ []

abbrev texts : Net
texts = record {
  Ip = String;
  IpNet = String;
  parse_ip = λ s. some s;
  show = λ a. a;
  contains = λ n a. str_eq n a;
  split_host_port = λ s. none;
  trim_space = λ s. s;
  trim_brackets = λ s. s;
  has_zone = λ s. false;
  join_commas = λ vs. "spoofed,client,proxy";
  split_commas = λ s. chain;
  is_blank = λ s. false;
}

abbrev asked : Request
asked = record { remote_addr = "proxy"; forwarded_for = "spoofed,client,proxy" ∷ []; real_ip = "" }

client_ip_example : client_ip texts ("proxy" ∷ []) asked ≡ "client"
unfolding forwarded_ip canonical_ip remote_host ip_in_networks
client_ip_example =
    client_ip_lem texts ("proxy" ∷ []) asked "proxy" "client" ("spoofed" ∷ []) ("proxy" ∷ [])
      "client" refl refl refl refl (("proxy", refl, refl), tt) (omega arith) refl refl
