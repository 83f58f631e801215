-- ===== src/Tests/Configuring.antt =====
-- Configurations on concrete inputs: one that leaves everything to the defaults.
use dnsproxy_router.Config.Default.{default_config}
use dnsproxy_router.Config.Targets.RoundTrip.{target_from_addr-written}
use dnsproxy_router.Config.Targets.{split_colon, parse_uint16, target_from_addr}
use dnsproxy_router.Config.Duration.Exact.{parse_duration-exact}
use dnsproxy_router.Config.Duration.{
  half, mul_int64, div_int64, digits, has_newline, match_days, DurationError, day_duration,
  days_back, from_days, parse_duration, too_many_days, parsed, failed,
}
use dnsproxy_router.Config.Fixed.{normalize-valid}
use dnsproxy_router.Config.Outcome.{normalize-IsValid}
use dnsproxy_router.Config.Valid.{IsValid}
use dnsproxy_router.Config.Normal.{
  with_ports, with_path, trim_dots, with_ecs, with_probes, with_bootstrap, with_priority, with_mode,
  with_window, with_cooldown, validate_listeners, normalize, accepted,
}
use dnsproxy_router.Config.Checks.{
  first_error, port_error, path_error, host_error, ecs_error, cert_error, ttl_error, provider_error,
  breaker_error, weight_error, provider_modes_error, dns_error,
}
use dnsproxy_router.Config.{ListenerConfig, needs_tls, Config, NetLibrary, second, other}
use mathlib.Core.List.Perm
use dnsproxy_router.Prelude.{
  arith, Option, some, none, ◌==◌, if◌then◌else◌, ◌⊎◌, ◌≤◌, ◌<◌, ◌*◌, ◌≡◌, refl, true, false, none,
  List, [], ◌∷◌, Bytes, codes,
}
use dnsproxy_router.Prelude.Int.{ℤ, pos}
use dnsproxy_router.Ecs.{unknown, new}

abbrev pub small_net : NetLibrary
small_net = record {
  parse_prefix = λ text. none;
  parses_addr = λ text. true;
  parses_uri = λ text. true;
  split_host_port = λ text. none;
  visit = λ ls. ls;
  visit_perm = λ ls. Perm.refl ls;
}

abbrev closed : ListenerConfig
closed = record { enabled = false; port = pos 0; path = []; http3 = false }

abbrev pub providers : List (Bytes × List (Bytes × Bytes))
providers = (codes "a", (codes "Plain DNS", codes "udp://9.9.9.9:53") ∷ []) ∷ []

-- What decoding gives of a file that names the certificate, a provider and a threshold.
abbrev pub sparse : Config
sparse = record default_config {
  listeners = record {
    doh = record closed { enabled = true };
    dot = closed;
    doq = closed;
    plain_dns = closed;
  };
  ecs = record { mode = unknown []; address = [] };
  probe_interval = pos 0;
  probe_domain = codes "example.org..";
  cache_enabled = none;
  cache_ttl = none;
  cache_eviction = other [];
  bootstrap = [];
  upstream_weights = (codes "a", pos 100) ∷ [];
  breaker_fail_threshold = pos 3;
  dns = providers;
}

abbrev pub filled : Config
filled = record sparse {
  listeners = record {
    doh = record { enabled = true; port = pos 443; path = codes "/dns-query"; http3 = false };
    dot = record closed { port = pos 853 };
    doq = record closed { port = pos 853 };
    plain_dns = record closed { port = pos 53 };
  };
  ecs = default_config.ecs;
  probe_interval = default_config.probe_interval;
  probe_domain = codes "example.org.";
  cache_enabled = default_config.cache_enabled;
  cache_ttl = default_config.cache_ttl;
  cache_eviction = default_config.cache_eviction;
  bootstrap = default_config.bootstrap;
  breaker_cooldown = pos (30 * second);
}

pub fills : normalize small_net sparse ≡ accepted filled
unfolding normalize validate_listeners with_ports with_path with_ecs with_probes trim_dots
    with_bootstrap with_priority with_mode with_window with_cooldown first_error port_error
    path_error host_error ecs_error new cert_error needs_tls ttl_error provider_error breaker_error
    weight_error provider_modes_error dns_error
fills = refl

normalize-IsValid_example : IsValid small_net filled
normalize-IsValid_example = normalize-IsValid small_net sparse filled fills

normalize-valid_example : normalize small_net filled ≡ accepted filled
normalize-valid_example =
    normalize-valid small_net filled (normalize-IsValid small_net sparse filled fills)

-- A library that knows one duration, twelve hours.
abbrev small_parse : Bytes → Option ℤ
small_parse [] = none
small_parse (b ∷ bs) = if b == b'1' then some (pos 43200000000000) else none

parse_duration-exact_example :
    ((216000000000000 < half)
      × (parse_duration small_parse (codes "2d12h") ≡ parsed (pos 216000000000000)))
    ⊎ ((half ≤ 216000000000000)
        × ((e : DurationError) × (parse_duration small_parse (codes "2d12h") ≡ failed e)))
unfolding digits has_newline match_days
parse_duration-exact_example =
    parse_duration-exact small_parse 2 43200000000000 (omega arith) (codes "2d12h") (codes "12h")
      refl refl refl

-- Days whose nanoseconds wrap around to a small positive number.
overflows : parse_duration small_parse (codes "213504d") ≡ failed too_many_days
unfolding parse_duration from_days digits has_newline match_days day_duration days_back mul_int64
    div_int64
overflows = refl

-- A library that splits at the first colon.
abbrev naming_net : NetLibrary
naming_net = record small_net { split_host_port = split_colon; parses_addr = λ text. false }

target_from_addr-written_example :
    target_from_addr naming_net (codes "https://dns.a:8443/q")
    ≡ some (record { host = codes "dns.a"; port = 8443 })
unfolding split_colon parse_uint16 digits
target_from_addr-written_example =
    target_from_addr-written naming_net (codes "https") (codes "dns.a") (codes "8443") (codes "/q")
      8443 (ground arith) (ground arith) refl ((refl, (refl, (refl, (refl, (refl, tt))))), refl)
      refl refl
