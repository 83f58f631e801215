-- ===== src/Command/Listeners/Health.antt =====
-- The health check and the handler agree.
use dnsproxy_router.Command.Listeners.{healthz}
use dnsproxy_router.Dns.{Msg, DnsLibrary}
use dnsproxy_router.Handler
use dnsproxy_router.Handler.{
  Handler, Outcome, fallback, resolve, serve_dns, client_wants_do, set_do,
}
use dnsproxy_router.Ecs.{apply}
use dnsproxy_router.Prelude.{
  if◌then◌else◌, arith, not, ◌&&◌, ◌≡◌, ◌⊎◌, inl, inr, refl, Bool, Option-cases,
}

module _ {R : Type 0} (lib : DnsLibrary) (h : Handler R) (req : Msg) where
  -- The health check answers 200 exactly when a request is handed to routes, and 503 exactly when it
  -- falls back on the placeholder.
  pub healthz-serve_dns :
      ((healthz h ≡ 200) × ((r : R) × (m : Msg) × ((serve_dns lib h req).1 ≡ resolve r m)))
      ⊎ ((healthz h ≡ 503) × ((warned : Bool) × ((serve_dns lib h req).1 ≡ fallback warned req)))
  unfolding healthz Handler.ready serve_dns
  healthz-serve_dns = elim (Option-cases h.sched) [
    | inl bad ↦ inr (ground (arith, bad), (not h.fallback_logged, ground (arith, bad)))
    | inr (s, at) ↦ elim (Option-cases s.current) [
      | inl bad ↦ inr (ground (arith, at, bad), (not h.fallback_logged, ground (arith, at, bad)))
      | inr (r, good) ↦ inl (
        ground (arith, at, good),
        (
          r,
          if h.dnssec && client_wants_do lib req
              then set_do lib (apply lib h.ecs req)
              else apply lib h.ecs req,
          rw (serve_dns, at, good) refl,
        ),
      )
    ]
  ]
