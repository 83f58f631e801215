-- ===== src/Scheduler/Providers.antt =====
-- internal/scheduler/scheduler.go, New: the options of each provider's upstreams, and the probers
-- that `Start` starts. A prober is named by its position among them.
pub mod Preferring
use dnsproxy_router.Afp.{ipv4}
use dnsproxy_router.Afp.Prober.{Prober, Target, new_prober}
use dnsproxy_router.Bootstrap.Chain.{Resolver, selecting}
use dnsproxy_router.Command.Options.{Options}
use dnsproxy_router.Config.{
  Config, NetLibrary, Priority, known, other, ipv6, latency, ip_priority_for,
}
use dnsproxy_router.Config.Targets.{UpstreamTarget, upstream_targets_for}
use dnsproxy_router.Prelude.{
  Bool, ℕ, true, false, List, [], ◌∷◌, ◌++◌, map, length, Bytes, bytes_discrete, insert,
}
use dnsproxy_router.Prelude.Int.{ℤ}
use dnsproxy_router.Prelude.Sort.{SliceSort}

-- `afpTargetsOf`
unfoldable pub afp_targets_of : List UpstreamTarget → List Target
afp_targets_of [] = []
afp_targets_of (t ∷ ts) = record { host = t.host; port = t.port } ∷ afp_targets_of ts

module _ {U : Type 0} where
  -- the clone of the base options, with the preference set
  abbrev pub prefer : Bool → Options U → Options U
  prefer six base = record base { prefer_ipv6 = six }

  -- a provider by latency: with targets, a prober of its own and a selector that follows it
  unfoldable pub latency_opts : List Target → ℤ → Options U → List Prober → Options U × List Prober
  unfolding new_prober
  latency_opts [] interval base probers = (prefer false base, probers)
  latency_opts (t ∷ ts) interval base probers = (
    record base { prefer_ipv6 = false; bootstrap = selecting base.bootstrap ipv4 (length probers) },
    probers ++ new_prober (t ∷ ts) interval ∷ [],
  )

  module _ (net : NetLibrary) (slices : SliceSort UpstreamTarget) (cfg : Config)
      (base : Options U) where
    -- the body of the loop over the providers
    unfoldable pub options_for : Bytes → List Prober → Options U × List Prober
    unfolding latency_opts
    options_for name probers = elim (ip_priority_for cfg name) [
      | other text ↦ (prefer false base, probers)
      | known p ↦ elim p [
        | Priority.ipv4 ↦ (prefer false base, probers)
        | ipv6 ↦ (prefer true base, probers)
        | latency ↦
            latency_opts (afp_targets_of (upstream_targets_for net slices cfg name))
              cfg.ip_latency_interval base probers
      ]
    ]

    -- the loop over the providers, with the options and the probers so far
    unfoldable pub provider_opts :
        List (Bytes × List (Bytes × Bytes))
        → List (Bytes × Options U)
        → List Prober
        → List (Bytes × Options U) × List Prober
    unfolding options_for
    provider_opts [] opts probers = (opts, probers)
    provider_opts ((name, modes) ∷ dns) opts probers =
        provider_opts dns (insert bytes_discrete name (options_for name probers).0 opts)
          (options_for name probers).1
