-- ===== src/Command/Options.antt =====
-- cmd/dnsproxy/main.go, buildBaseOpts: the options that the upstreams share. The proxy library's
-- upstreams are of a type `U`.
pub mod Chained
pub mod Repeating
use dnsproxy_router.Afp.{Addr}
use dnsproxy_router.Bootstrap.{Hosts, new_hosts, new_cache}
use dnsproxy_router.Bootstrap.Chain.{Resolver, parallel, cached, hosted}
use dnsproxy_router.Config.{Config}
use dnsproxy_router.Prelude.{
  Bool, true, false, Option, none, some, List, [], ◌∷◌, Bytes, bytes_discrete, insert, ◌>>=◌,
  if◌then◌else◌,
}
use dnsproxy_router.Prelude.Int.{ℤ, pos, ltb_ℤ}

-- What the code uses of the proxy library and of netip: the upstreams of a list of addresses, made
-- with a time-out, and the address that a text stands for.
pub record ProxyLibrary (U : Type 0) : Type 0 where
  pub parse_upstreams : List Bytes → ℤ → Option (List U)
  pub parse_addr : Bytes → Option Addr

pub data HttpVersion : Type 0 where
  http3 http2 http11 : HttpVersion

-- the fields of `upstream.Options` that the code sets
pub record Options (U : Type 0) : Type 0 where
  pub bootstrap : Resolver U
  pub timeout : ℤ
  pub prefer_ipv6 : Bool
  pub http_versions : List HttpVersion

pub data Built (U : Type 0) : Type 0 where
  built : Options U → Built U
  -- the error of the bootstrap addresses
  unparsed : Built U
  -- a panic of `MustParseAddr`
  panics : Built U

-- the resolver of the upstreams, with the cache if it has a lifetime
unfoldable pub cached_resolver : {U : Type 0} → Config → List U → Resolver U
unfolding new_cache
cached_resolver cfg us =
    if ltb_ℤ (pos 0) cfg.bootstrap_cache_ttl
    then cached (new_cache cfg.bootstrap_cache_ttl) (parallel us)
    else parallel us

module _ {U : Type 0} (lib : ProxyLibrary U) where
  -- `netip.MustParseAddr` of each address; `none` is a panic
  unfoldable pub parse_addrs : List Bytes → Option (List Addr)
  parse_addrs [] = some []
  parse_addrs (a ∷ addrs) = do ip ← lib.parse_addr a; ips ← parse_addrs addrs; some (ip ∷ ips)

  -- the loop over `cfg.Hosts`
  unfoldable pub parse_hosts : List (Bytes × List Bytes) → Option Hosts
  unfolding parse_addrs
  parse_hosts [] = some []
  parse_hosts ((name, addrs) ∷ hosts) = do
    ips ← parse_addrs addrs
    rest ← parse_hosts hosts
    some ((name, ips) ∷ rest)

  -- the table of static hosts in front of a resolver, if there are any
  unfoldable pub hosted_resolver : List (Bytes × List Bytes) → Resolver U → Option (Resolver U)
  unfolding parse_hosts new_hosts
  hosted_resolver [] r = some r
  hosted_resolver (h ∷ hs) r = do hosts ← parse_hosts (h ∷ hs); some (hosted (new_hosts hosts) r)

  abbrev or_panic : Config → Option (Resolver U) → Built U
  or_panic cfg none = panics
  or_panic cfg (some r) = built (record {
    bootstrap = r;
    timeout = cfg.probe_timeout;
    prefer_ipv6 = false;
    http_versions = http3 ∷ http2 ∷ http11 ∷ [];
  })

  -- `buildBaseOpts`
  unfoldable pub build_base_opts : Config → Built U
  unfolding cached_resolver hosted_resolver
  build_base_opts cfg = elim (lib.parse_upstreams cfg.bootstrap cfg.probe_timeout) [
    | none ↦ unparsed
    | some us ↦ or_panic cfg (hosted_resolver cfg.hosts (cached_resolver cfg us))
  ]
