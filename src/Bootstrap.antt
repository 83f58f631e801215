-- ===== src/Bootstrap.antt =====
-- internal/bootstrap: the static host table (hosts.go) and the cache with a fixed lifetime (cache.go).
-- The wrapped resolver's answer is an argument. Host names are lowered as ASCII texts.
pub mod Hosts
pub mod Fresh
pub mod Chain
use dnsproxy_router.Prelude.{
  ℕ, Bool, true, false, not, Option, none, some, List, [], ◌∷◌, ◌++◌, map, filterb, lookup, insert,
  Bytes, bytes_discrete, if◌then◌else◌, ◌==◌,
}
use dnsproxy_router.Prelude.Int.{ℤ, pos, ◌+ℤ◌, ltb_ℤ, leb_ℤ}
use dnsproxy_router.Cache.Key.{to_lower}
use dnsproxy_router.Afp.{Addr, Network, ip, ip4, ip6, Lookup}

-- `strings.TrimSuffix(host, ".")`
unfoldable pub trim_dot : Bytes → Bytes
trim_dot [] = []
trim_dot (b ∷ []) = if b == b'.' then [] else b ∷ []
trim_dot (b ∷ c ∷ bs) = b ∷ trim_dot (c ∷ bs)

unfoldable pub normalize_host : Bytes → Bytes
unfolding trim_dot to_lower
normalize_host host = trim_dot (map to_lower host)

-- An address of either family is not of the other.
unfoldable pub filter_by_network : List Addr → Network → List Addr
filter_by_network ips ip = ips
filter_by_network ips ip4 = filterb (λ a. not a.is6) ips
filter_by_network ips ip6 = filterb (λ a. a.is6) ips

abbrev pub Hosts : Type 0
Hosts = List (Bytes × List Addr)

-- the loop of `NewHostsResolver`, over the table in the order of the iteration
unfoldable pub normalize_hosts : Hosts → Hosts → Hosts
unfolding normalize_host
normalize_hosts [] norm = norm
normalize_hosts ((name, addrs) ∷ hosts) norm =
    normalize_hosts hosts (insert bytes_discrete (normalize_host name) addrs norm)

unfoldable pub new_hosts : Hosts → Hosts
unfolding normalize_hosts
new_hosts hosts = normalize_hosts hosts []

-- An answer of the cache: the addresses and when they expire.
pub record BootstrapEntry : Type 0 where
  pub addrs : List Addr
  pub expire : ℤ

pub record BootstrapCache : Type 0 where
  pub ttl : ℤ
  pub cache : List (Bytes × BootstrapEntry)

unfoldable pub new_cache : ℤ → BootstrapCache
new_cache ttl = record { ttl = if leb_ℤ ttl (pos 0) then pos 5000000000 else ttl; cache = [] }

abbrev pub network_name : Network → Bytes
network_name ip = b'i' ∷ b'p' ∷ []
network_name ip4 = b'i' ∷ b'p' ∷ b'4' ∷ []
network_name ip6 = b'i' ∷ b'p' ∷ b'6' ∷ []

unfoldable pub cache_key : Network → Bytes → Bytes
cache_key network host = network_name network ++ 0 ∷ host

-- the first critical section of `Cache.LookupNetIP`: a hit's addresses
unfoldable pub cache_hit : BootstrapCache → ℤ → Network → Bytes → Option (List Addr)
unfolding cache_key
cache_hit c now network host = elim (lookup bytes_discrete (cache_key network host) c.cache) [
  | none ↦ none
  | some e ↦ if ltb_ℤ now e.expire then some e.addrs else none
]

module _ {E : Type 0} where
  abbrev pub or_inner : List Addr → Lookup E → Lookup E
  or_inner [] inner = inner
  or_inner (a ∷ rest) inner = record { addrs = a ∷ rest; err = none }

  -- `HostsResolver.LookupNetIP`
  unfoldable pub lookup_hosts : Hosts → Network → Bytes → Lookup E → Lookup E
  unfolding normalize_host filter_by_network
  lookup_hosts hosts network host inner = elim (lookup bytes_discrete (normalize_host host) hosts) [
    | none ↦ inner
    | some ips ↦ or_inner (filter_by_network ips network) inner
  ]

  -- the second critical section, with the answer of the wrapped resolver to a lookup that began
  -- at `now`; between the two sections other lookups can run
  unfoldable pub cache_store : BootstrapCache → ℤ → Network → Bytes → Lookup E → BootstrapCache
  unfolding cache_key
  cache_store c now network host inner = elim inner.err [
    | some e ↦ c
    | none ↦ record c {
      cache =
          insert bytes_discrete (cache_key network host)
            (record { addrs = inner.addrs; expire = now +ℤ c.ttl }) c.cache;
    }
  ]

  -- `Cache.LookupNetIP`, when no other lookup runs in between
  unfoldable pub lookup_cached :
      BootstrapCache → ℤ → Network → Bytes → Lookup E → BootstrapCache × Lookup E
  unfolding cache_hit cache_store
  lookup_cached c now network host inner = elim (cache_hit c now network host) [
    | some addrs ↦ (c, record { addrs = addrs; err = none })
    | none ↦ (cache_store c now network host inner, inner)
  ]
