-- ===== src/Config/Valid.antt =====
-- What a configuration has to satisfy, written without the checks and the defaults of the code.
use dnsproxy_router.Config.Normal.{trim_dots}
use dnsproxy_router.Config.Checks.{last_or}
use dnsproxy_router.Config.{
  splits_host_port, splits_host_port, splits_host_port, splits_host_port, splits_host_port, Named,
  EcsConfig, ListenerConfig, ListenersConfig, Config, NetLibrary, splits_host_port, known,
}
use dnsproxy_router.Prelude.{
  ◌≡◌, ◌≢◌, ◌⊎◌, ◌++◌, Bool, true, false, ◌||◌, none, some, List, [], ◌∷◌, Bytes, All,
}
use dnsproxy_router.Prelude.Int.{pos, ◌≤ℤ◌, ◌<ℤ◌}
use dnsproxy_router.Ecs.{Prefix, off, pass, override}

abbrev pub IsKnown : {A : Type 0} → Named A → Type 0
IsKnown {A} t = (a : A) × (t ≡ known a)

abbrev pub IsNonempty {ℓ} : {A : Type ℓ} → List A → Type 0
IsNonempty [] = ⊥
IsNonempty (x ∷ xs) = Unit

abbrev pub IsPort : ListenerConfig → Type 0
IsPort l = (pos 1 ≤ℤ l.port) × ((l.enabled ≡ false) ⊎ (l.port ≤ℤ pos 65535))

-- of the form `/`, or `/…` without a slash at the end
abbrev pub IsPath : (Bytes → Bool) → Bytes → Type 0
IsPath parses [] = ⊥
IsPath parses (b ∷ bs) = (b ≡ b'/') × (parses (b ∷ bs) ≡ true) × ((bs ≡ []) ⊎ (last_or b bs ≢ b'/'))

abbrev pub IsEcs : NetLibrary → EcsConfig → Type 0
IsEcs net e =
    (e.mode ≡ off)
    ⊎ (e.mode ≡ pass)
    ⊎ ((e.mode ≡ override) × ((p : Prefix) × (net.parse_prefix e.address ≡ some p)))

-- The text of the probe's name ends with a dot, and without it not with another.
abbrev pub IsQualified : Bytes → Type 0
IsQualified d = d ≡ trim_dots d ++ b'.' ∷ []

pub record IsListening (net : NetLibrary) (l : ListenersConfig) : Type 0 where
  pub some_listener :
      (l.doh.enabled || l.dot.enabled || l.doq.enabled || l.plain_dns.enabled) ≡ true
  pub doh_port : IsPort l.doh
  pub dot_port : IsPort l.dot
  pub doq_port : IsPort l.doq
  pub plain_port : IsPort l.plain_dns
  pub doh_path : (l.doh.enabled ≡ false) ⊎ IsPath net.parses_uri l.doh.path

pub record IsValid (net : NetLibrary) (c : Config) : Type 0 where
  pub listening : IsListening net c.listeners
  pub ecs_policy : IsEcs net c.ecs
  pub certified :
      ((c.listeners.doh.enabled ≡ false)
        × (c.listeners.dot.enabled ≡ false)
        × (c.listeners.doq.enabled ≡ false))
      ⊎ (IsNonempty c.cert.cert_path × IsNonempty c.cert.key_path × IsKnown c.cert.mode)
  pub probing :
      (pos 0 <ℤ c.probe_interval)
      × (pos 0 <ℤ c.probe_timeout)
      × (pos 0 <ℤ c.probe_count)
      × IsQualified c.probe_domain
  pub caching :
      (c.cache_enabled ≢ none)
      × (pos 0 <ℤ c.cache_size_bytes)
      × (c.cache_ttl ≢ none)
      × IsKnown c.cache_eviction
  pub clamping :
      (pos 0 ≤ℤ c.ttl_min) × (pos 0 ≤ℤ c.ttl_max) × ((c.ttl_max ≡ pos 0) ⊎ (c.ttl_min ≤ℤ c.ttl_max))
  pub bootstrapping : IsNonempty c.bootstrap
  pub resolving :
      All (λ h. IsNonempty h.0 × IsNonempty h.1 × All (λ a. net.parses_addr a ≡ true) h.1) c.hosts
  pub preferring :
      IsKnown c.ip_priority
      × All (λ p. IsNonempty p.0 × IsKnown p.1) c.provider_ip_priority
      × (pos 0 <ℤ c.ip_latency_interval)
  pub racing : IsKnown c.upstream_mode × (pos 0 <ℤ c.race_window)
  pub health : (c.health_http ≡ []) ⊎ (splits_host_port net c.health_http ≡ true)
  pub breaking :
      (pos 0 ≤ℤ c.breaker_fail_threshold)
      × (pos 0 ≤ℤ c.breaker_cooldown)
      × ((c.breaker_fail_threshold ≡ pos 0) ⊎ (pos 0 <ℤ c.breaker_cooldown))
  pub weighing : All (λ w. IsNonempty w.0 × (pos 1 ≤ℤ w.1) × (w.1 ≤ℤ pos 100)) c.upstream_weights
  pub upstreams : IsNonempty c.dns × All (λ p. IsNonempty p.0 × IsNonempty p.1) c.dns
