-- ===== src/Config.antt =====
-- internal/config/config.go: the configuration, its defaults and its validation. Decoding YAML is a
-- parameter (load_config), and so are the parsers of Go's net, netip and url packages (NetLibrary). A
-- map is the list of its entries, in the order in which an iteration visits them.
pub mod Checks
pub mod Normal
pub mod Default
pub mod Valid
pub mod Meaning
pub mod Accepted
pub mod Outcome
pub mod Fixed
pub mod Duration
pub mod Targets
use mathlib.Core.List.{Perm}
use dnsproxy_router.Prelude.{
  ℕ, ◌+◌, ◌*◌, Bool, true, false, ◌||◌, Option, none, some, List, [], ◌∷◌, Bytes, lookup,
  bytes_discrete, if◌then◌else◌,
}
use dnsproxy_router.Prelude.Int.{ℤ, pos, leb_ℤ}
use dnsproxy_router.Ecs.{Mode, off, Prefix, EcsError}

-- A text that the code compares with constants: one of them, or any other text.
pub data Named (A : Type 0) : Type 0 where
  known : A → Named A
  other : Bytes → Named A

pub data CertMode : Type 0 where
  acme existing : CertMode

pub data EvictionName : Type 0 where
  fifo lru lfu : EvictionName

pub data Priority : Type 0 where
  ipv4 ipv6 latency : Priority

pub data RaceMode : Type 0 where
  fastest weighted : RaceMode

pub record CertConfig : Type 0 where
  pub mode : Named CertMode
  pub renew : Bool
  pub cert_path : Bytes
  pub key_path : Bytes
  pub email : Bytes
  pub provider : Bytes

pub record EcsConfig : Type 0 where
  pub mode : Mode
  pub address : Bytes

pub record ListenerConfig : Type 0 where
  pub enabled : Bool
  pub port : ℤ
  pub path : Bytes
  pub http3 : Bool

pub record ListenersConfig : Type 0 where
  pub doh : ListenerConfig
  pub dot : ListenerConfig
  pub doq : ListenerConfig
  pub plain_dns : ListenerConfig

unfoldable pub needs_tls : ListenersConfig → Bool
needs_tls l = l.doh.enabled || l.dot.enabled || l.doq.enabled

-- Durations are numbers of nanoseconds.
pub record Config : Type 0 where
  pub domain : Bytes
  pub use_domain : Bool
  pub listeners : ListenersConfig
  pub ecs : EcsConfig
  pub cert : CertConfig
  pub probe_interval : ℤ
  pub probe_timeout : ℤ
  pub probe_count : ℤ
  pub probe_domain : Bytes
  pub cache_enabled : Option Bool
  pub cache_size_bytes : ℤ
  pub cache_ttl : Option ℤ
  pub cache_eviction : Named EvictionName
  pub cache_stale_max_age : ℤ
  pub cache_stale_answer_ttl : ℤ
  pub ttl_min : ℤ
  pub ttl_max : ℤ
  pub bootstrap : List Bytes
  pub bootstrap_cache_ttl : ℤ
  pub hosts : List (Bytes × List Bytes)
  pub ip_priority : Named Priority
  pub provider_ip_priority : List (Bytes × Named Priority)
  pub ip_latency_interval : ℤ
  pub upstream_mode : Named RaceMode
  pub upstream_weights : List (Bytes × ℤ)
  pub race_window : ℤ
  pub health_http : Bytes
  pub breaker_fail_threshold : ℤ
  pub breaker_cooldown : ℤ
  pub dnssec : Bool
  pub dns : List (Bytes × List (Bytes × Bytes))

-- The errors of a load, without their texts.
pub data ConfigError : Type 0 where
  no_listener path_slash path_uri path_end cert_paths cert_mode bad_eviction : ConfigError
  ttl_negative ttl_order host_name bad_priority provider_name bad_mode bad_health : ConfigError
  bad_threshold bad_cooldown weight_name dns_empty dns_name unreadable undecodable : ConfigError
  bad_port bad_weight : Bytes → ℤ → ConfigError
  host_addrs provider_priority dns_modes : Bytes → ConfigError
  host_addr : Bytes → Bytes → ConfigError
  bad_ecs : EcsError → ConfigError

-- What the code uses of Go's packages: whether a text parses, or into what, and the order in which an
-- iteration over a map visits its entries.
pub record NetLibrary : Type 0 where
  pub parse_prefix : Bytes → Option Prefix
  pub parses_addr : Bytes → Bool
  pub parses_uri : Bytes → Bool
  pub split_host_port : Bytes → Option (Bytes × Bytes)
  pub visit : List (Bytes × ListenerConfig) → List (Bytes × ListenerConfig)
  pub visit_perm : (ls : List (Bytes × ListenerConfig)) → Perm (visit ls) ls

abbrev pub splits_host_port : NetLibrary → Bytes → Bool
splits_host_port net text = elim (net.split_host_port text) [ none ↦ false | some p ↦ true ]

abbrev pub second : ℕ
second = 1000000000

abbrev pub minute : ℕ
minute = 60 * second

-- `Weight`
unfoldable pub weight : Config → Bytes → ℤ
weight c name = elim (lookup bytes_discrete name c.upstream_weights) [
  | none ↦ pos 1
  | some w ↦ if leb_ℤ (pos 1) w then w else pos 1
]

-- `IPPriorityFor`; the empty text is `other []`
unfoldable pub ip_priority_for : Config → Bytes → Named Priority
ip_priority_for c provider = elim (lookup bytes_discrete provider c.provider_ip_priority) [
  | none ↦ c.ip_priority
  | some p ↦ elim p [
    | known name ↦ known name
    | other text ↦ elim text [ [] ↦ c.ip_priority | t ∷ ts ↦ other (t ∷ ts) ]
  ]
]
