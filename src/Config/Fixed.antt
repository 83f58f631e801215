-- ===== src/Config/Fixed.antt =====
-- `normalize` leaves a valid configuration as it is.
use dnsproxy_router.Config.Meaning.{
  All-↔, first_error-none, first_error-Perm, port_error-IsPort, path_error-IsPath, ecs_error-IsEcs,
  host_error-none, cert_error-none, ttl_error-none, provider_error-none, weight_error-none,
  dns_error-none,
}
use dnsproxy_router.Config.Valid.{IsKnown, IsNonempty, IsPath, IsEcs, IsQualified, IsValid}
use dnsproxy_router.Config.Normal.{
  ◌>>=◌, Result, refuse, positive_or, value_or, text_or, named_or, with_ports, no_listener_error,
  named_listeners, with_doh_path, with_path, trim_dots, ecs_mode_or_off, with_ecs, with_probes,
  bootstrap_or, default_bootstrap, with_bootstrap, with_priority, with_mode, with_window, is_zero_ℤ,
  with_cooldown, validate_listeners, normalize, accepted,
}
use dnsproxy_router.Config.Checks.{
  check, first_error, is_empty, is_known, port_error, path_error, host_error, ecs_error, cert_error,
  ttl_error, provider_error, breaker_error, weight_error,
}
use dnsproxy_router.Config.{
  Named, EcsConfig, ListenerConfig, Config, ConfigError, NetLibrary, splits_host_port, second,
  minute, lru, ipv4, fastest, bad_eviction, bad_priority, bad_mode, bad_health,
}
use dnsproxy_router.Prelude.{
  codes, ◌*◌, ◌≡◌, ◌≢◌, ◌⊎◌, ◌++◌, inl, inr, refl, sym, ap, ◌∙◌, Bool, true, false, not, ◌&&◌,
  Option, none, some, List, [], ◌∷◌, Bytes, arith, if◌then◌else◌,
}
use dnsproxy_router.Prelude.Int.{ltb_ℤ, ℤ, pos, ◌≤ℤ◌, ◌<ℤ◌}

-- A step with a check that finds nothing and a write that changes nothing.
goes_on :
    (f : Config → Option ConfigError) (x c : Config) (k : Config → Result)
    → x ≡ c
    → f c ≡ none
    → (refuse (f x) x >>= k) ≡ k c
goes_on f x c k e h = rw (e, h)

-- A step whose check comes before its write.
then_writes :
    (e : Option ConfigError) (x c : Config) (k : Config → Result)
    → x ≡ c
    → e ≡ none
    → (refuse e x >>= k) ≡ k c
then_writes e x c k p h = rw (p, h)

kept : (def x : ℤ) → pos 1 ≤ℤ x → positive_or def x ≡ x
kept def x h = ground arith

positive_kept : (def x : ℤ) → pos 0 <ℤ x → positive_or def x ≡ x
positive_kept def x h = ground arith

cooldown_kept :
    (t d : ℤ)
    → (t ≡ pos 0) ⊎ (pos 0 <ℤ d)
    → (if ltb_ℤ (pos 0) t && is_zero_ℤ d then pos (30 * second) else d) ≡ d
cooldown_kept t d h = ground arith

text_kept : (def t : Bytes) → IsNonempty t → text_or def t ≡ t
text_kept def t h = ground arith

qualified-IsNonempty : (d : Bytes) → IsQualified d → IsNonempty d
unfolding trim_dots
qualified-IsNonempty [] h = ground arith
qualified-IsNonempty (b ∷ bs) h = tt

doh_kept :
    (parses : Bytes → Bool) (l : ListenerConfig)
    → (l.enabled ≡ false) ⊎ IsPath parses l.path
    → with_doh_path l ≡ l
doh_kept parses l h = ground arith

mode_kept : (net : NetLibrary) (e : EcsConfig) → IsEcs net e → ecs_mode_or_off e.mode ≡ e.mode
mode_kept net e h = ground arith

value_kept : {A : Type 0} (def : A) (o : Option A) → o ≢ none → some (value_or def o) ≡ o
value_kept def o h = ground arith

named_kept : {A : Type 0} (def : A) (t : Named A) → IsKnown t → named_or def t ≡ t
named_kept def t h = ground arith

bootstrap_kept : (def b : List Bytes) → IsNonempty b → bootstrap_or def b ≡ b
bootstrap_kept def b h = ground arith

domain_kept : (def d : Bytes) → IsQualified d → trim_dots (text_or def d) ++ b'.' ∷ [] ≡ d
domain_kept def d h =
    ap (λ t. trim_dots t ++ b'.' ∷ []) (text_kept def d (qualified-IsNonempty d h)) ∙ sym h

known-check :
    {A : Type 0} (t : Named A) (e : ConfigError) → IsKnown t → check (not (is_known t)) e ≡ none
known-check t e h = ground arith

health-check :
    (t : Bytes) (b : Bool)
    → (t ≡ []) ⊎ (b ≡ true)
    → check (not (is_empty t) && not b) bad_health ≡ none
health-check t b h = ground arith

breaker-check :
    (c : Config)
    → pos 0 ≤ℤ c.breaker_fail_threshold
    → pos 0 ≤ℤ c.breaker_cooldown
    → breaker_error c ≡ none
unfolding breaker_error
breaker-check c h k = ground arith

path-check : (net : NetLibrary) (p : Bytes) → IsPath net.parses_uri p → path_error net p ≡ none
path-check net [] h = absurd h
path-check net (b ∷ bs) h = (path_error-IsPath net b bs).1 h

doh-check :
    (net : NetLibrary) (l : ListenerConfig)
    → (l.enabled ≡ false) ⊎ IsPath net.parses_uri l.path
    → (if l.enabled then path_error net l.path else none) ≡ none
doh-check net l (inl f) = rw f refl
doh-check net l (inr p) = rw (path-check net l.path p) (ground arith)

module _ (net : NetLibrary) (c : Config) (v : IsValid net c) where
  ports : with_ports c ≡ c
  unfolding with_ports
  ports = rw (
    kept (pos 443) c.listeners.doh.port v.listening.doh_port.0,
    kept (pos 853) c.listeners.dot.port v.listening.dot_port.0,
    kept (pos 853) c.listeners.doq.port v.listening.doq_port.0,
    kept (pos 53) c.listeners.plain_dns.port v.listening.plain_port.0,
  )

  path : with_path c ≡ c
  unfolding with_path
  path =
      ap (λ l. record c { listeners = record c.listeners { doh = l } })
        (doh_kept net.parses_uri c.listeners.doh v.listening.doh_path)

  ecs : with_ecs c ≡ c
  unfolding with_ecs
  ecs = ap (λ m. record c { ecs = record c.ecs { mode = m } }) (mode_kept net c.ecs v.ecs_policy)

  probes : with_probes c ≡ c
  unfolding with_probes
  probes = rw (
    positive_kept (pos (15 * minute)) c.probe_interval v.probing.0,
    positive_kept (pos (3 * second)) c.probe_timeout v.probing.1,
    positive_kept (pos 3) c.probe_count v.probing.2,
    domain_kept (codes "example.com.") c.probe_domain v.probing.3,
    value_kept true c.cache_enabled v.caching.0,
    positive_kept (pos (64 * 1024 * 1024)) c.cache_size_bytes v.caching.1,
    value_kept (pos (30 * minute)) c.cache_ttl v.caching.2,
    named_kept lru c.cache_eviction v.caching.3,
  )

  bootstraps : with_bootstrap c ≡ c
  unfolding with_bootstrap
  bootstraps = rw (bootstrap_kept default_bootstrap c.bootstrap v.bootstrapping)

  priority : with_priority c ≡ c
  unfolding with_priority
  priority = rw (named_kept ipv4 c.ip_priority v.preferring.0)

  mode : with_mode c ≡ c
  unfolding with_mode
  mode = rw (
    positive_kept (pos (15 * minute)) c.ip_latency_interval v.preferring.2,
    named_kept fastest c.upstream_mode v.racing.0,
  )

  window : with_window c ≡ c
  unfolding with_window
  window = rw (positive_kept (pos 50000000) c.race_window v.racing.1)

  cooldown : with_cooldown c ≡ c
  unfolding with_cooldown
  cooldown = rw (cooldown_kept c.breaker_fail_threshold c.breaker_cooldown v.breaking.2)

  listeners_error : no_listener_error c.listeners ≡ none
  listeners_error = ground (arith, v.listening.some_listener)

  ports_error : first_error port_error (net.visit (named_listeners c.listeners)) ≡ none
  ports_error = (first_error-Perm port_error _ _ (net.visit_perm (named_listeners c.listeners))).1 (
      (first_error-none port_error (named_listeners c.listeners)).1 (
        (port_error-IsPort _ v.listening.doh_port.0).1 v.listening.doh_port,
        (
          (port_error-IsPort _ v.listening.dot_port.0).1 v.listening.dot_port,
          (
            (port_error-IsPort _ v.listening.doq_port.0).1 v.listening.doq_port,
            ((port_error-IsPort _ v.listening.plain_port.0).1 v.listening.plain_port, tt),
          ),
        ),
      ))

  doh_error : (if c.listeners.doh.enabled then path_error net c.listeners.doh.path else none) ≡ none
  doh_error = doh-check net c.listeners.doh v.listening.doh_path

  listeners_kept : validate_listeners net c ≡ accepted c
  unfolding validate_listeners
  listeners_kept =
      then_writes (no_listener_error c.listeners) (with_ports c) c _ ports listeners_error
      ∙ then_writes (first_error port_error (net.visit (named_listeners c.listeners))) (with_path c)
          c _ path ports_error
      ∙ rw doh_error

  -- A valid configuration is returned as it is.
  pub normalize-valid : normalize net c ≡ accepted c
  unfolding normalize
  normalize-valid = rw listeners_kept (
      goes_on (λ x. ecs_error net x.ecs) (with_ecs c) c _ ecs
        ((ecs_error-IsEcs net c.ecs).1 v.ecs_policy)
      ∙ then_writes (cert_error c) (with_probes c) c _ probes ((cert_error-none c).1 v.certified)
      ∙ then_writes (check (not (is_known c.cache_eviction)) bad_eviction) c c _ refl
          (known-check c.cache_eviction _ v.caching.3)
      ∙ then_writes (ttl_error c) (with_bootstrap c) c _ bootstraps
          ((ttl_error-none c).1 v.clamping)
      ∙ then_writes (first_error (host_error net) c.hosts) (with_priority c) c _ priority
          ((first_error-none _ _).1 ((All-↔ (host_error-none net) c.hosts).1 v.resolving))
      ∙ then_writes (check (not (is_known c.ip_priority)) bad_priority) c c _ refl
          (known-check c.ip_priority _ v.preferring.0)
      ∙ then_writes (first_error provider_error c.provider_ip_priority) (with_mode c) c _ mode
          ((first_error-none _ _).1 ((All-↔ provider_error-none _).1 v.preferring.1))
      ∙ then_writes (check (not (is_known c.upstream_mode)) bad_mode) (with_window c) c _ window
          (known-check c.upstream_mode _ v.racing.0)
      ∙ then_writes
          (check (not (is_empty c.health_http) && not (splits_host_port net c.health_http))
            bad_health)
          c c _ refl (health-check c.health_http _ v.health)
      ∙ then_writes (breaker_error c) (with_cooldown c) c _ cooldown
          (breaker-check c v.breaking.0 v.breaking.1)
      ∙ then_writes (first_error weight_error c.upstream_weights) c c _ refl
          ((first_error-none _ _).1 ((All-↔ weight_error-none _).1 v.weighing))
      ∙ rw ((dns_error-none c).1 v.upstreams))
