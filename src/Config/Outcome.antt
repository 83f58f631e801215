-- ===== src/Config/Outcome.antt =====
-- The configurations that `normalize` returns are the valid ones, and it leaves those as they are.
use dnsproxy_router.Config.Default.{default_config}
use dnsproxy_router.Config.Accepted.{refuse-accepted, last-accepted, settled, validate-accepted}
use dnsproxy_router.Config.Meaning.{
  All-↔, first_error-none, ecs_error-IsEcs, host_error-none, cert_error-none, ttl_error-none,
  provider_error-none, weight_error-none, dns_error-none,
}
use dnsproxy_router.Config.Valid.{IsKnown, IsNonempty, IsQualified, IsValid}
use dnsproxy_router.Config.Normal.{
  text_or, cons_unless_dots, trim_dots, with_ecs, with_probes, with_bootstrap, with_priority,
  with_mode, with_window, with_cooldown, normalize, accepted,
}
use dnsproxy_router.Config.Checks.{
  check, first_error, is_empty, is_known, host_error, ecs_error, cert_error, ttl_error,
  provider_error, breaker_error, weight_error, dns_error,
}
use dnsproxy_router.Config.{
  List, Named, Config, ConfigError, NetLibrary, splits_host_port, acme, lru, ipv4, fastest,
  bad_eviction, bad_priority, bad_mode, bad_health,
}
use dnsproxy_router.Prelude.{
  inl, inr, All, codes, ℕ, ◌≡◌, ◌≢◌, ◌⊎◌, ◌++◌, refl, sym, ap, subst, ◌∙◌, Bool, true, not, ◌&&◌,
  none, [], ◌∷◌, Bytes, arith,
}
use dnsproxy_router.Prelude.Int.{pos, ◌≤ℤ◌, ◌<ℤ◌}

IsKnown-named :
    {A : Type 0} (t : Named A) (e : ConfigError) → check (not (is_known t)) e ≡ none → IsKnown t
IsKnown-named t e h = ground arith

trimmed :
    (b : ℕ) (t : Bytes) → t ≡ trim_dots t → cons_unless_dots b t ≡ trim_dots (cons_unless_dots b t)
unfolding trim_dots
trimmed b [] h = ground arith
trimmed b (x ∷ xs) h = ap (cons_unless_dots b) h

trim_dots-twice : (d : Bytes) → trim_dots d ≡ trim_dots (trim_dots d)
unfolding trim_dots
trim_dots-twice [] = refl
trim_dots-twice (b ∷ bs) = trimmed b (trim_dots bs) (trim_dots-twice bs)

trim_dots-append : (d : Bytes) → trim_dots (d ++ b'.' ∷ []) ≡ trim_dots d
unfolding trim_dots
trim_dots-append [] = refl
trim_dots-append (b ∷ bs) = ap (cons_unless_dots b) (trim_dots-append bs)

qualified : (d : Bytes) → IsQualified (trim_dots d ++ b'.' ∷ [])
qualified d = ap (λ t. t ++ b'.' ∷ []) (trim_dots-twice d ∙ sym (trim_dots-append (trim_dots d)))

breaking_of :
    (c : Config)
    → breaker_error c ≡ none
    → (pos 0 ≤ℤ c.breaker_fail_threshold)
      × (pos 0 ≤ℤ (with_cooldown c).breaker_cooldown)
      × ((c.breaker_fail_threshold ≡ pos 0) ⊎ (pos 0 <ℤ (with_cooldown c).breaker_cooldown))
unfolding breaker_error with_cooldown
breaking_of c h = ground arith

probed :
    (c : Config)
    → (pos 0 <ℤ (with_probes c).probe_interval)
      × (pos 0 <ℤ (with_probes c).probe_timeout)
      × (pos 0 <ℤ (with_probes c).probe_count)
unfolding with_probes
probed c = ground arith

cached :
    (c : Config)
    → ((with_probes c).cache_enabled ≢ none)
      × (pos 0 <ℤ (with_probes c).cache_size_bytes)
      × ((with_probes c).cache_ttl ≢ none)
unfolding with_probes
cached c = ground arith

raced :
    (c : Config)
    → (pos 0 <ℤ (with_mode c).ip_latency_interval) × (pos 0 <ℤ (with_window c).race_window)
unfolding with_mode with_window
raced c = ground arith

bootstrapped : (c : Config) → IsNonempty (with_bootstrap c).bootstrap
unfolding with_bootstrap
bootstrapped c = ground arith

health_of :
    (t : Bytes) (b : Bool)
    → check (not (is_empty t) && not b) bad_health ≡ none
    → (t ≡ []) ⊎ (b ≡ true)
health_of t b h = ground arith

module _ (net : NetLibrary) where
  -- Every configuration that `normalize` returns is valid.
  pub normalize-IsValid : (c d : Config) → normalize net c ≡ accepted d → IsValid net d
  unfolding normalize with_ecs with_probes with_bootstrap with_priority with_mode with_window
      with_cooldown
  normalize-IsValid c d h =
      let x = with_ecs (settled c) in
      let y = with_bootstrap (with_probes x) in
      let z = with_mode (with_priority y) in
      let w = with_cooldown (with_window z) in
      let (listening, h) = validate-accepted net c _ d h in
      let (ecs, h) = refuse-accepted (ecs_error net x.ecs) x _ d h in
      let (cert, h) = refuse-accepted (cert_error x) (with_probes x) _ d h in
      let (evict, h) =
        refuse-accepted (check (not (is_known y.cache_eviction)) bad_eviction) (with_probes x) _ d
          h in
      let (ttl, h) = refuse-accepted (ttl_error (with_probes x)) y _ d h in
      let (hosts, h) =
        refuse-accepted (first_error (host_error net) y.hosts) (with_priority y) _ d h in
      let (prio, h) =
        refuse-accepted (check (not (is_known z.ip_priority)) bad_priority) (with_priority y) _ d
          h in
      let (provider, h) =
        refuse-accepted (first_error provider_error z.provider_ip_priority) z _ d h in
      let (race, h) =
        refuse-accepted (check (not (is_known z.upstream_mode)) bad_mode) (with_window z) _ d h in
      let (health, h) =
        refuse-accepted
          (check (not (is_empty z.health_http) && not (splits_host_port net z.health_http))
            bad_health)
          (with_window z) _ d h in
      let (breaker, h) = refuse-accepted (breaker_error (with_window z)) w _ d h in
      let (weights, h) = refuse-accepted (first_error weight_error w.upstream_weights) w _ d h in
      let (dns, h) = last-accepted (dns_error w) w d h in
      subst (IsValid net) h (record {
        listening = listening;
        ecs_policy = (ecs_error-IsEcs net _).0 ecs;
        certified = (cert_error-none _).0 cert;
        probing = (
          (probed x).0,
          (probed x).1,
          (probed x).2,
          qualified (text_or (codes "example.com.") x.probe_domain),
        );
        caching = ((cached x).0, (cached x).1, (cached x).2, IsKnown-named _ _ evict);
        clamping = (ttl_error-none _).0 ttl;
        bootstrapping = bootstrapped (with_probes x);
        resolving = (All-↔ (host_error-none net) _).0 ((first_error-none _ _).0 hosts);
        preferring = (
          IsKnown-named _ _ prio,
          (All-↔ provider_error-none _).0 ((first_error-none _ _).0 provider),
          (raced (with_priority y)).0,
        );
        racing = (IsKnown-named _ _ race, (raced z).1);
        health = health_of _ _ health;
        breaking = breaking_of (with_window z) breaker;
        weighing = (All-↔ weight_error-none _).0 ((first_error-none _ _).0 weights);
        upstreams = (dns_error-none _).0 dns;
      })

  -- With any upstreams that have names and modes, the default configuration is valid, where the
  -- library takes `/dns-query` for a path.
  pub default-IsValid :
      (dns : List (Bytes × List (Bytes × Bytes)))
      → net.parses_uri (codes "/dns-query") ≡ true
      → IsNonempty dns
      → All (λ p. IsNonempty p.0 × IsNonempty p.1) dns
      → IsValid net (record default_config { dns = dns })
  unfolding trim_dots
  default-IsValid dns path some_dns each = record {
    listening = record {
      some_listener = refl;
      doh_port = (omega arith, inr (omega arith));
      dot_port = (omega arith, inl refl);
      doq_port = (omega arith, inl refl);
      plain_port = (omega arith, inl refl);
      doh_path = inr (refl, path, inr (ground arith));
    };
    ecs_policy = inl refl;
    certified = inr (tt, tt, (acme, refl));
    probing = (omega arith, omega arith, omega arith, refl);
    caching = ((λ e. ground arith), omega arith, (λ e. ground arith), (lru, refl));
    clamping = (omega arith, omega arith, inl refl);
    bootstrapping = tt;
    resolving = tt;
    preferring = ((ipv4, refl), tt, omega arith);
    racing = ((fastest, refl), omega arith);
    health = inl refl;
    breaking = (omega arith, omega arith, inl refl);
    weighing = tt;
    upstreams = (some_dns, each);
  }
