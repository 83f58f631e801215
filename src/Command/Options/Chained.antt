-- ===== src/Command/Options/Chained.antt =====
-- What the options of a valid configuration are.
use dnsproxy_router.Command.Options.{
  ProxyLibrary, Options, parse_addrs, parse_hosts, cached_resolver, hosted_resolver,
  build_base_opts, http3, http2, http11, built, unparsed,
}
use dnsproxy_router.Afp.{Addr}
use dnsproxy_router.Bootstrap.{Hosts, new_hosts}
use dnsproxy_router.Bootstrap.Chain.{Resolver, hosted}
use dnsproxy_router.Config.{Config, NetLibrary}
use dnsproxy_router.Config.Valid.{IsValid, IsNonempty}
use dnsproxy_router.Prelude.{
  ◌≡◌, ◌⊎◌, inl, inr, refl, true, false, none, some, List, [], ◌∷◌, Bytes, All, Option-cases,
}

module _ {U : Type 0} (net : NetLibrary) (lib : ProxyLibrary U)
    (agrees : (a : Bytes)
      → net.parses_addr a ≡ true
      → (x : Addr) × (lib.parse_addr a ≡ some x)) where
  parse_addrs-total :
      (addrs : List Bytes)
      → All (λ a. net.parses_addr a ≡ true) addrs
      → (ips : List Addr) × (parse_addrs lib addrs ≡ some ips)
  unfolding parse_addrs
  parse_addrs-total [] h = ([], refl)
  parse_addrs-total (a ∷ addrs) h =
      let (x, e) = agrees a h.0 in
      let (xs, es) = parse_addrs-total addrs h.1 in (x ∷ xs, rw (e, es, parse_addrs) refl)

  abbrev HasAddrs : Bytes × List Bytes → Type 0
  HasAddrs h = IsNonempty h.0 × IsNonempty h.1 × All (λ a. net.parses_addr a ≡ true) h.1

  parse_hosts-total :
      (hosts : List (Bytes × List Bytes))
      → All HasAddrs hosts
      → (table : Hosts) × (parse_hosts lib hosts ≡ some table)
  unfolding parse_hosts
  parse_hosts-total [] h = ([], refl)
  parse_hosts-total ((name, addrs) ∷ hosts) h =
      let (ips, e) = parse_addrs-total addrs h.0.2 in
      let (rest, es) = parse_hosts-total hosts h.1 in
      ((name, ips) ∷ rest, rw (e, es, parse_hosts) refl)

  hosted_resolver-total :
      (hosts : List (Bytes × List Bytes)) (r : Resolver U)
      → All HasAddrs hosts
      → (r' : Resolver U) × (hosted_resolver lib hosts r ≡ some r')
  unfolding hosted_resolver
  hosted_resolver-total [] r h = (r, refl)
  hosted_resolver-total (x ∷ hosts) r h =
      let (table, e) = parse_hosts-total (x ∷ hosts) h in
      (hosted (new_hosts table) r, rw (e, hosted_resolver) refl)

  -- The options of a valid configuration are refused exactly if the bootstrap addresses are, and
  -- never panic; they have the time-out of a probe and do not prefer IPv6.
  pub build_base_opts-total :
      (cfg : Config)
      → IsValid net cfg
      → ((lib.parse_upstreams cfg.bootstrap cfg.probe_timeout ≡ none)
          × (build_base_opts lib cfg ≡ unparsed))
        ⊎ ((o : Options U) × (build_base_opts lib cfg ≡ built o)
            × (o.timeout ≡ cfg.probe_timeout)
            × (o.prefer_ipv6 ≡ false))
  unfolding build_base_opts
  build_base_opts-total cfg v =
      elim (Option-cases (lib.parse_upstreams cfg.bootstrap cfg.probe_timeout)) [
        | inl e ↦ inl (e, rw (e, build_base_opts) refl)
        | inr (us, e) ↦
            let (r, er) = hosted_resolver-total cfg.hosts (cached_resolver cfg us) v.resolving in
            inr (
              record {
                bootstrap = r;
                timeout = cfg.probe_timeout;
                prefer_ipv6 = false;
                http_versions = http3 ∷ http2 ∷ http11 ∷ [];
              },
              rw (e, er, build_base_opts) refl,
              refl,
              refl,
            )
      ]
