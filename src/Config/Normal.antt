-- ===== src/Config/Normal.antt =====
-- internal/config/config.go, validateListeners, normalize and LoadConfig: a chain of steps that write
-- defaults and return the first error.
use dnsproxy_router.Prelude.{
  ℕ, ◌*◌, Bool, true, not, ◌&&◌, ◌==◌, Option, none, some, List, [], ◌∷◌, ◌++◌, Bytes,
  if◌then◌else◌, codes,
}
use dnsproxy_router.Prelude.Int.{ℤ, pos, leb_ℤ, ltb_ℤ}
use dnsproxy_router.Ecs.{Mode, off, pass, override, unknown}
use dnsproxy_router.Config.{
  Named, ListenerConfig, ListenersConfig, Config, ConfigError, NetLibrary, splits_host_port, second,
  minute, known, other, lru, ipv4, fastest, no_listener, bad_eviction, bad_priority, bad_mode,
  bad_health, unreadable, undecodable,
}
use dnsproxy_router.Config.Checks.{
  check, first_error, is_empty, is_known, port_error, path_error, host_error, ecs_error, cert_error,
  ttl_error, provider_error, breaker_error, weight_error, dns_error,
}

pub data Result : Type 0 where
  accepted : Config → Result
  refused : ConfigError → Result

infixl 5 ◌>>=◌
abbrev pub ◌>>=◌ : Result → (Config → Result) → Result
accepted c >>= f = f c
refused e >>= f = refused e

-- `if err := …; err != nil { return err }` with the configuration as it stands then
abbrev pub refuse : Option ConfigError → Config → Result
refuse none c = accepted c
refuse (some e) c = refused e

abbrev pub positive_or : ℤ → ℤ → ℤ
positive_or def x = if leb_ℤ x (pos 0) then def else x

-- a default for a pointer that is `nil`
abbrev pub value_or : {A : Type 0} → A → Option A → A
value_or def none = def
value_or def (some a) = a

-- a default for the empty text
abbrev pub text_or : Bytes → Bytes → Bytes
text_or def [] = def
text_or def (b ∷ bs) = b ∷ bs

abbrev pub named_or : {A : Type 0} → A → Named A → Named A
named_or def (known a) = known a
named_or def (other []) = known def
named_or def (other (b ∷ bs)) = other (b ∷ bs)

-- `defaultPort`, written back
abbrev pub with_port : ℤ → ListenerConfig → ListenerConfig
with_port def l = record l { port = positive_or def l.port }

-- the first four lines of `validateListeners`
unfoldable pub with_ports : Config → Config
with_ports c = record c {
  listeners = record {
    doh = with_port (pos 443) c.listeners.doh;
    dot = with_port (pos 853) c.listeners.dot;
    doq = with_port (pos 853) c.listeners.doq;
    plain_dns = with_port (pos 53) c.listeners.plain_dns;
  };
}

abbrev pub no_listener_error : ListenersConfig → Option ConfigError
no_listener_error l =
    check (not l.doh.enabled && not l.dot.enabled && not l.doq.enabled && not l.plain_dns.enabled)
      no_listener

abbrev pub named_listeners : ListenersConfig → List (Bytes × ListenerConfig)
named_listeners l =
    (codes "listeners.doh", l.doh)
    ∷ (codes "listeners.dot", l.dot)
    ∷ (codes "listeners.doq", l.doq)
    ∷ (codes "listeners.plain_dns", l.plain_dns)
    ∷ []

abbrev pub with_doh_path : ListenerConfig → ListenerConfig
with_doh_path l = record l {
  path = if l.enabled then text_or (codes "/dns-query") l.path else l.path;
}

-- the DoH path of `validateListeners`
unfoldable pub with_path : Config → Config
with_path c = record c { listeners = record c.listeners { doh = with_doh_path c.listeners.doh } }

-- `strings.TrimRight(s, ".")`
abbrev pub cons_unless_dots : ℕ → Bytes → Bytes
cons_unless_dots b [] = if b == b'.' then [] else b ∷ []
cons_unless_dots b (c ∷ cs) = b ∷ c ∷ cs

unfoldable pub trim_dots : Bytes → Bytes
trim_dots [] = []
trim_dots (b ∷ bs) = cons_unless_dots b (trim_dots bs)

abbrev pub ecs_mode_or_off : Mode → Mode
ecs_mode_or_off off = off
ecs_mode_or_off pass = pass
ecs_mode_or_off override = override
ecs_mode_or_off (unknown []) = off
ecs_mode_or_off (unknown (b ∷ bs)) = unknown (b ∷ bs)

unfoldable pub with_ecs : Config → Config
with_ecs c = record c { ecs = record c.ecs { mode = ecs_mode_or_off c.ecs.mode } }

-- the probes, the cache's switch, size and lifetime, and its policy
unfoldable pub with_probes : Config → Config
unfolding trim_dots
with_probes c = record c {
  probe_interval = positive_or (pos (15 * minute)) c.probe_interval;
  probe_timeout = positive_or (pos (3 * second)) c.probe_timeout;
  probe_count = positive_or (pos 3) c.probe_count;
  probe_domain = trim_dots (text_or (codes "example.com.") c.probe_domain) ++ b'.' ∷ [];
  cache_enabled = some (value_or true c.cache_enabled);
  cache_size_bytes = positive_or (pos (64 * 1024 * 1024)) c.cache_size_bytes;
  cache_ttl = some (value_or (pos (30 * minute)) c.cache_ttl);
  cache_eviction = named_or lru c.cache_eviction;
}

abbrev pub bootstrap_or : List Bytes → List Bytes → List Bytes
bootstrap_or def [] = def
bootstrap_or def (b ∷ bs) = b ∷ bs

abbrev pub default_bootstrap : List Bytes
default_bootstrap = codes "1.1.1.1:53" ∷ codes "8.8.8.8:53" ∷ []

unfoldable pub with_bootstrap : Config → Config
with_bootstrap c = record c { bootstrap = bootstrap_or default_bootstrap c.bootstrap }

unfoldable pub with_priority : Config → Config
with_priority c = record c { ip_priority = named_or ipv4 c.ip_priority }

-- the interval and the race mode
unfoldable pub with_mode : Config → Config
with_mode c = record c {
  ip_latency_interval = positive_or (pos (15 * minute)) c.ip_latency_interval;
  upstream_mode = named_or fastest c.upstream_mode;
}

unfoldable pub with_window : Config → Config
with_window c = record c { race_window = positive_or (pos 50000000) c.race_window }

abbrev pub is_zero_ℤ : ℤ → Bool
is_zero_ℤ d = leb_ℤ d (pos 0) && leb_ℤ (pos 0) d

unfoldable pub with_cooldown : Config → Config
with_cooldown c = record c {
  breaker_cooldown =
      if ltb_ℤ (pos 0) c.breaker_fail_threshold && is_zero_ℤ c.breaker_cooldown
      then pos (30 * second)
      else c.breaker_cooldown;
}

module _ (net : NetLibrary) where
  unfoldable pub validate_listeners : Config → Result
  unfolding with_ports with_path first_error port_error path_error
  validate_listeners c = do
    a ← refuse (no_listener_error c.listeners) (with_ports c)
    b ← refuse (first_error port_error (net.visit (named_listeners a.listeners))) (with_path a)
    refuse (if b.listeners.doh.enabled then path_error net b.listeners.doh.path else none) b

  unfoldable pub normalize : Config → Result
  normalize c = do
    a ← validate_listeners c
    b ← refuse (ecs_error net (with_ecs a).ecs) (with_ecs a)
    d ← refuse (cert_error b) (with_probes b)
    e ← refuse (check (not (is_known d.cache_eviction)) bad_eviction) d
    f ← refuse (ttl_error e) (with_bootstrap e)
    g ← refuse (first_error (host_error net) f.hosts) (with_priority f)
    h ← refuse (check (not (is_known g.ip_priority)) bad_priority) g
    i ← refuse (first_error provider_error h.provider_ip_priority) (with_mode h)
    j ← refuse (check (not (is_known i.upstream_mode)) bad_mode) (with_window i)
    k ←
        refuse
          (check (not (is_empty j.health_http) && not (splits_host_port net j.health_http))
            bad_health)
          j
    l ← refuse (breaker_error k) (with_cooldown k)
    m ← refuse (first_error weight_error l.upstream_weights) l
    refuse (dns_error m) m

  -- `LoadConfig`; what the file's bytes and their decoding give
  unfoldable pub load_config : Option Bytes → (Bytes → Option Config) → Result
  load_config file decode = elim file [
    | none ↦ refused unreadable
    | some bytes ↦ elim (decode bytes) [ none ↦ refused undecodable | some c ↦ normalize c ]
  ]
