-- ===== src/Scheduler/Providers/Preferring.antt =====
-- Each provider's options, by its priority of address families.
use dnsproxy_router.Scheduler.Providers.{afp_targets_of, prefer}
use dnsproxy_router.Afp.{ipv4}
use dnsproxy_router.Afp.Prober.{Prober, Target, new_prober}
use dnsproxy_router.Bootstrap.Chain.{Resolver, selecting}
use dnsproxy_router.Command.Options.{Options}
use dnsproxy_router.Config.{
  Config, NetLibrary, Priority, Named, known, other, ipv6, latency, ip_priority_for,
}
use dnsproxy_router.Config.Targets.{UpstreamTarget, upstream_targets_for}
use dnsproxy_router.Prelude.{
  none, Bool, false, true, ℕ, ◌≡◌, ◌≢◌, ◌⊎◌, some, List, [], ◌∷◌, get_elem?, Bytes, bytes_discrete,
  lookup,
}
use dnsproxy_router.Prelude.Sort.{SliceSort}

-- The priority of a provider: its own, if it has one that is not the empty text, else the general one.
abbrev pub IsPriority : Config → Bytes → Named Priority → Type 0
IsPriority cfg name n =
    ((n ≡ cfg.ip_priority)
      × ((lookup bytes_discrete name cfg.provider_ip_priority ≡ none)
          ⊎ (lookup bytes_discrete name cfg.provider_ip_priority ≡ some (other []))))
    ⊎ ((n ≢ other []) × (lookup bytes_discrete name cfg.provider_ip_priority ≡ some n))

-- The hosts and the ports of a provider's targets, in their order.
pub data SameTargets : List UpstreamTarget → List Target → Type 0 where
  no_targets : SameTargets [] []
  next_target :
      (host : Bytes) (port : ℕ) {us : List UpstreamTarget} {ts : List Target}
      → SameTargets us ts
      → SameTargets
          (record { host = host; port = port } ∷ us)
          (record { host = host; port = port } ∷ ts)

module _ {U : Type 0} (net : NetLibrary) (slices : SliceSort UpstreamTarget) (cfg : Config)
    (base : Options U) where
  abbrev targets_of : Bytes → List Target
  targets_of name = afp_targets_of (upstream_targets_for net slices cfg name)

  -- The cases of the loop's body.
  abbrev Chooses : Bytes → Options U → List Prober → Type 0
  Chooses name o probers =
      ((ip_priority_for cfg name ≡ known ipv6) × (o ≡ prefer true base))
      ⊎ ((ip_priority_for cfg name ≡ known latency)
          × ((i : ℕ) × (o
                ≡ record base { prefer_ipv6 = false; bootstrap = selecting base.bootstrap ipv4 i })
              × (get_elem? probers i ≡ some (new_prober (targets_of name) cfg.ip_latency_interval))
              × (targets_of name ≢ [])))
      ⊎ ((ip_priority_for cfg name ≢ known ipv6)
          × ((ip_priority_for cfg name ≡ known latency) → targets_of name ≡ [])
          × (o ≡ prefer false base))

  abbrev Gets : Bytes → List (Bytes × Options U) → List Prober → Type 0
  Gets name opts probers =
      (o : Options U) × (lookup bytes_discrete name opts ≡ some o) × Chooses name o probers

  -- The base options with another preference and another resolver.
  pub record IsBased (six : Bool) (boot : Resolver U) (o : Options U) : Type 0 where
    pub prefer_ipv6 : o.prefer_ipv6 ≡ six
    pub bootstrap : o.bootstrap ≡ boot
    pub timeout : o.timeout ≡ base.timeout
    pub http_versions : o.http_versions ≡ base.http_versions

  -- A selector over the base resolver that begins with IPv4 and follows a prober of the provider's
  -- own targets, at the configured interval.
  pub record Follows (name : Bytes) (o : Options U) (probers : List Prober) : Type 0 where
    pub place : ℕ
    pub prober : Prober
    pub options : IsBased false (selecting base.bootstrap ipv4 place) o
    pub there : get_elem? probers place ≡ some prober
    pub targets : SameTargets (upstream_targets_for net slices cfg name) prober.targets
    pub interval : prober.interval ≡ cfg.ip_latency_interval
    pub begins : prober.current ≡ ipv4

  -- What the priority of a provider asks for.
  abbrev pub Prefers : Bytes → Options U → List Prober → Type 0
  Prefers name o probers =
      (IsPriority cfg name (known ipv6) × IsBased true base.bootstrap o)
      ⊎ (IsPriority cfg name (known latency)
          × (upstream_targets_for net slices cfg name ≢ [])
          × Follows name o probers)
      ⊎ (IsPriority cfg name (known latency)
          × (upstream_targets_for net slices cfg name ≡ [])
          × IsBased false base.bootstrap o)
      ⊎ (((n : Named Priority) × IsPriority cfg name n × (n ≢ known ipv6) × (n ≢ known latency))
          × IsBased false base.bootstrap o)
