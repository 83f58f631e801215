-- ===== src/Tests/Starting.antt =====
-- The start-up with the configuration that a sparse file gives, its options and its resolvers.
use dnsproxy_router.Bootstrap.{cache_hit, cache_store, new_cache}
use dnsproxy_router.Bootstrap.Chain.{look_up}
use dnsproxy_router.Command.Options.Repeating.{Ask, after_asks, build_base_opts-look_up}
use dnsproxy_router.Afp.{Lookup, Network, ip}
use dnsproxy_router.Command.{boot}
use dnsproxy_router.Command.Listeners.{ServeLibrary, Boot, prepared, start_up, healthz}
use dnsproxy_router.Command.Listeners.Enabled.{Listens, start_up-Listens}
use dnsproxy_router.Command.Listeners.Health.{healthz-serve_dns}
use dnsproxy_router.Command.Options.{
  Options, built, build_base_opts, cached_resolver, hosted_resolver, http3, http2, http11,
}
use dnsproxy_router.Config.{Config, second, known, latency}
use dnsproxy_router.Config.Normal.{load_config, accepted}
use dnsproxy_router.Ecs.{off}
use dnsproxy_router.Dns.{Msg}
use dnsproxy_router.Handler.{Handler, fallback, resolve, serve_dns}
use dnsproxy_router.Prelude.{
  insert, lookup, bytes_discrete, ℕ_discrete, inr, ◌≢◌, ℕ, ◌≡◌, ◌⊎◌, refl, Bool, false, ◌*◌, none,
  Option, some, List, [], ◌∷◌, Bytes, codes, arith,
}
use dnsproxy_router.Prelude.Int.{ℤ, pos, ◌+ℤ◌}
use dnsproxy_router.Tests.{small_dns, plain_query}
use dnsproxy_router.Tests.Configuring.{small_net, sparse, filled, fills}
use dnsproxy_router.Tests.Running.{small_lib, small_config}

abbrev serve : ServeLibrary ℤ Bytes
serve = record { load_certificate = λ cert key. some cert; any_address = λ port. some port }

abbrev kept_config : Config
kept_config = record filled { bootstrap_cache_ttl = pos (60 * second) }

abbrev options_of : Config → Options Bytes
options_of cfg = record {
  bootstrap = cached_resolver cfg cfg.bootstrap;
  timeout = cfg.probe_timeout;
  prefer_ipv6 = false;
  http_versions = http3 ∷ http2 ∷ http11 ∷ [];
}

builds : (cfg : Config) → cfg.hosts ≡ [] → build_base_opts small_lib cfg ≡ built (options_of cfg)
unfolding build_base_opts hosted_resolver
builds cfg h = rw (build_base_opts, h) refl

abbrev some_placeholder : Options Bytes → Option (List Bytes)
some_placeholder opts = some []

loads : load_config small_net (some []) (λ bytes. some sparse) ≡ accepted filled
unfolding load_config
loads = fills

start_up-Listens_example :
    (b : Boot ℤ Bytes) × (start_up serve small_net small_lib some_placeholder
        (some [])
        (λ bytes. some sparse)
      ≡ prepared b)
    × Listens serve filled b.proxy
    × (b.process ≡ boot filled)
    × (healthz b.handler ≡ 503)
start_up-Listens_example =
    start_up-Listens serve small_net small_lib some_placeholder (λ port h. (port, refl)) (some [])
      (λ bytes. some sparse) filled (options_of filled) [] loads (builds filled refl) refl
      (λ needed. (filled.cert.cert_path, refl))

-- An upstream that answers each host with its own text, and one that always fails.
abbrev echo : List Bytes → Network → Bytes → Lookup ℕ
echo us network host = record { addrs = record { is6 = false; bytes = host } ∷ []; err = none }

abbrev fails : List Bytes → Network → Bytes → Lookup ℕ
fails us network host = record { addrs = []; err = some 1 }

abbrev other_host : Ask Bytes ℕ
other_host = record {
  ask = echo;
  prefers = λ i. false;
  time = pos 0;
  network = ip;
  host = codes "g";
}

apart : other_host.host ≢ codes "h"
apart e = absurd (ground (arith, e))

-- Another host is looked up before and in between, and the upstreams fail the second time.
build_base_opts-look_up_example :
    let first =
      look_up echo
        (λ i. false)
        (pos 0)
        (after_asks (options_of kept_config).bootstrap (other_host ∷ []))
        ip
        (codes "h") in
    (look_up fails
      (λ i. false)
      (pos (30 * second))
      (after_asks first.0 (other_host ∷ []))
      ip
      (codes "h")).1
    ≡ first.1
unfolding ◌+ℤ◌ look_up insert cached_resolver new_cache cache_hit cache_store lookup bytes_discrete
    ℕ_discrete
build_base_opts-look_up_example =
    build_base_opts-look_up small_lib kept_config ip (codes "h") (omega arith)
      (options_of kept_config) (other_host ∷ []) (other_host ∷ []) echo fails (λ i. false)
      (λ i. false) (pos 0) (pos (30 * second)) (builds kept_config refl) (inr apart, tt)
      (inr apart, tt) (omega arith) refl

abbrev by_latency : Config
by_latency = record small_config { ip_priority = known latency }

abbrev unready : Handler ℕ
unready = record {
  sched = some (record { current = none });
  ecs = record { mode = off; prefix = none };
  dnssec = false;
  fallback_logged = false;
}

healthz-serve_dns_example :
    ((healthz unready ≡ 200)
      × ((r : ℕ) × (m : Msg) × ((serve_dns small_dns unready plain_query).1 ≡ resolve r m)))
    ⊎ ((healthz unready ≡ 503)
        × ((warned : Bool) × ((serve_dns small_dns unready plain_query).1
              ≡ fallback warned plain_query)))
healthz-serve_dns_example = healthz-serve_dns small_dns unready plain_query
