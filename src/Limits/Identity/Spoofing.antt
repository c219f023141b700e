-- ===== src/Limits/Identity/Spoofing.antt =====
-- A client cannot choose its identity: what stands to the left of the entry that the outermost
-- trusted proxy appended has no effect.
use veritra.Prelude.{
  ℕ, suc, ◌+◌, ◌-◌, ◌<◌, ◌≡◌, refl, ap, ◌∙◌, String, true, false, List, [], ◌∷◌, ◌++◌, some, length,
  arith,
}
use veritra.Limits.Identity.{
  Net, Request, max_forwarded_hops, ip_in_networks, forwarded_ip, remote_host, canonical_ip,
  from_right, walk, through_proxy, client_ip,
}

module _ (net : Net) (trusted : List net.IpNet) where
  -- The entry is the address of a trusted proxy.
  abbrev pub IsProxy : String → Type 0
  IsProxy v =
      (ip : net.Ip) × (forwarded_ip net v ≡ some ip) × (ip_in_networks net ip trusted ≡ true)

  abbrev pub AreProxies : List String → Type 0
  AreProxies [] = Unit
  AreProxies (v ∷ vs) = IsProxy v × AreProxies vs

  -- The loop passes the proxies, one hop each.
  walk_proxies :
      (direct : String) (proxies seen : List String) (all hops : ℕ)
      → AreProxies proxies
      → all ≡ length proxies + hops
      → walk net trusted direct all (from_right net seen proxies)
        ≡ walk net trusted direct hops seen
  unfolding walk
  walk_proxies direct [] seen all hops p e =
      ap (λ (n : ℕ). walk net trusted direct n seen) (omega (arith, e))
  walk_proxies direct (v ∷ vs) seen all hops ((ip, parsed, inside), p) e =
      walk_proxies direct vs (v ∷ seen) all (suc hops) p (omega (arith, e))
      ∙ rw (parsed, walk) (rw inside refl)

  from_right-append :
      (seen front back : List String)
      → from_right net seen (front ++ back) ≡ from_right net (from_right net seen front) back
  from_right-append seen [] back = refl
  from_right-append seen (v ∷ front) back = from_right-append (v ∷ seen) front back

  -- Behind a trusted peer, if the forwarding chain ends in an entry that is no trusted proxy and
  -- then fewer than 16 trusted proxies, the identity is the address of that entry, whatever
  -- stands before it in the chain.
  pub client_ip_lem :
      (r : Request) (peer ip : net.Ip) (front proxies : List String) (x : String)
      → net.parse_ip (canonical_ip net (remote_host net r.remote_addr)) ≡ some peer
      → ip_in_networks net peer trusted ≡ true
      → net.is_blank (net.join_commas r.forwarded_for) ≡ false
      → net.split_commas (net.join_commas r.forwarded_for) ≡ front ++ x ∷ proxies
      → AreProxies proxies
      → length proxies < max_forwarded_hops
      → forwarded_ip net x ≡ some ip
      → ip_in_networks net ip trusted ≡ false
      → client_ip net trusted r ≡ net.show ip
  unfolding client_ip through_proxy walk
  client_ip_lem r peer ip front proxies x parsed inside filled chain all short named outside =
      let direct : String = canonical_ip net (remote_host net r.remote_addr) in
      let left : ℕ = max_forwarded_hops - suc (length proxies) in
      let hops : max_forwarded_hops ≡ length proxies + suc left = omega (arith, short) in
      rw (parsed, client_ip)
        (rw (inside, filled, chain, from_right-append)
          (walk_proxies direct proxies (x ∷ from_right net [] front) max_forwarded_hops (suc left)
              all hops
            ∙ rw (named, walk) (rw outside refl)))
