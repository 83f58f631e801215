-- ===== src/Config/Default.antt =====
-- internal/config/config.go, DefaultConfig.
use dnsproxy_router.Config.Normal.{default_bootstrap}
use dnsproxy_router.Config.{Config, second, minute, known, acme, lru, ipv4, fastest}
use dnsproxy_router.Prelude.{◌*◌, true, false, some, [], codes}
use dnsproxy_router.Prelude.Int.{pos}
use dnsproxy_router.Ecs.{off}

-- `DefaultConfig`
abbrev pub default_config : Config
default_config = record {
  domain = codes "example.com";
  use_domain = true;
  listeners = record {
    doh = record { enabled = true; port = pos 443; path = codes "/dns-query"; http3 = false };
    dot = record { enabled = false; port = pos 853; path = []; http3 = false };
    doq = record { enabled = false; port = pos 853; path = []; http3 = false };
    plain_dns = record { enabled = false; port = pos 53; path = []; http3 = false };
  };
  ecs = record { mode = off; address = [] };
  cert = record {
    mode = known acme;
    renew = true;
    cert_path = codes "/etc/dnsproxy/certs/fullchain.pem";
    key_path = codes "/etc/dnsproxy/certs/privkey.pem";
    email = codes "you@example.com";
    provider = codes "cloudflare";
  };
  probe_interval = pos (15 * minute);
  probe_timeout = pos (3 * second);
  probe_count = pos 3;
  probe_domain = codes "example.com.";
  cache_enabled = some true;
  cache_size_bytes = pos (64 * 1024 * 1024);
  cache_ttl = some (pos (30 * minute));
  cache_eviction = known lru;
  cache_stale_max_age = pos 0;
  cache_stale_answer_ttl = pos 0;
  ttl_min = pos 0;
  ttl_max = pos 0;
  bootstrap = default_bootstrap;
  bootstrap_cache_ttl = pos 0;
  hosts = [];
  ip_priority = known ipv4;
  provider_ip_priority = [];
  ip_latency_interval = pos (15 * minute);
  upstream_mode = known fastest;
  upstream_weights = [];
  race_window = pos 50000000;
  health_http = [];
  breaker_fail_threshold = pos 0;
  breaker_cooldown = pos 0;
  dnssec = false;
  dns = [];
}
