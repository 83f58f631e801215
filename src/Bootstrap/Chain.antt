-- ===== src/Bootstrap/Chain.antt =====
-- The resolvers of internal/bootstrap and internal/afp wrapped around each other, as
-- cmd/dnsproxy/main.go and internal/scheduler/scheduler.go build them. What the innermost upstreams
-- answer is an argument, and so is the family that a prober prefers.
use dnsproxy_router.Bootstrap.{
  normalize_host, filter_by_network, Hosts, BootstrapCache, cache_hit, lookup_hosts, cache_store,
}
use dnsproxy_router.Afp.{Addr, Family, Network, Lookup, select}
use dnsproxy_router.Prelude.{
  ℕ, Bool, true, false, Option, none, some, List, [], ◌∷◌, Bytes, bytes_discrete, lookup,
  if◌then◌else◌,
}
use dnsproxy_router.Prelude.Int.{ℤ}

-- `upstream.Resolver`; a selector has the number of its prober.
pub data Resolver (U : Type 0) : Type 0 where
  parallel : List U → Resolver U
  cached : BootstrapCache → Resolver U → Resolver U
  hosted : Hosts → Resolver U → Resolver U
  selecting : Resolver U → Family → ℕ → Resolver U

-- whether the static table answers, so that the wrapped resolver is not asked
unfoldable pub is_hosted : Hosts → Network → Bytes → Bool
unfolding normalize_host filter_by_network
is_hosted hosts network host = elim (lookup bytes_discrete (normalize_host host) hosts) [
  | none ↦ false
  | some ips ↦ elim (filter_by_network ips network) [ [] ↦ false | a ∷ rest ↦ true ]
]

module _ {U E : Type 0} where
  abbrev or_stored :
      Option (List Addr)
      → BootstrapCache
      → Resolver U
      → Resolver U × Lookup E
      → (Lookup E → BootstrapCache)
      → Resolver U × Lookup E
  or_stored (some addrs) c r asked store = (cached c r, record { addrs = addrs; err = none })
  or_stored none c r asked store = (cached (store asked.1) asked.0, asked.1)

  -- `LookupNetIP` of a chain at a time, with the chain that it leaves, when no other lookup runs in
  -- between
  unfoldable pub look_up :
      (List U → Network → Bytes → Lookup E)
      → (ℕ → Family)
      → ℤ
      → Resolver U
      → Network
      → Bytes
      → Resolver U × Lookup E
  look_up ask prefers now (parallel us) network host = (parallel us, ask us network host)
  look_up ask prefers now (cached c r) network host =
      or_stored (cache_hit c now network host) c r (look_up ask prefers now r network host)
        (cache_store c now network host)
  look_up ask prefers now (hosted hosts r) network host =
      let asked = look_up ask prefers now r network host in
      (
        hosted hosts (if is_hosted hosts network host then r else asked.0),
        lookup_hosts hosts network host asked.1,
      )
  look_up ask prefers now (selecting r prefer prober) network host =
      let asked = look_up ask prefers now r network host in
      (selecting asked.0 prefer prober, select prefer (some (prefers prober)) network asked.1)
