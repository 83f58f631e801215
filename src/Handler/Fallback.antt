-- ===== src/Handler/Fallback.antt =====
-- The requests that come while the scheduler has no routes.
use dnsproxy_router.Prelude.{
  ℕ, suc, ◌+◌, ◌≡◌, refl, Bool, true, false, not, Option, none, some, List, [], ◌∷◌, arith,
  if◌then◌else◌,
}
use dnsproxy_router.Dns.{Msg, DnsLibrary}
use dnsproxy_router.Ecs.{EcsPolicy}
use dnsproxy_router.Handler.{Handler, Sched, Outcome, fallback, resolve, new, serve_dns}

-- A request, and the routes that the scheduler has when it comes.
abbrev pub Visit : Type 0 → Type 0
Visit R = Option R × Msg

abbrev pub routed_by : {R : Type 0} → Handler R → Option R → Handler R
routed_by h routes = record h { sched = some (record { current = routes }) }

abbrev pub warned_by : {R : Type 0} → Outcome R → ℕ
warned_by (fallback true req) = 1
warned_by (fallback false req) = 0
warned_by (resolve r req) = 0

-- Whether a request without routes that comes after these, the latest first, is the first such since
-- the start or since the last one that had routes.
abbrev pub begins : {R : Type 0} → List (Visit R) → Bool
begins [] = true
begins ((some r, req) ∷ visits) = true
begins ((none, req) ∷ visits) = false

-- The number of stretches of requests without routes.
abbrev pub stretches : {R : Type 0} → List (Visit R) → ℕ
stretches [] = 0
stretches ((some r, req) ∷ visits) = stretches visits
stretches ((none, req) ∷ visits) =
    if begins visits then suc (stretches visits) else stretches visits

module _ (lib : DnsLibrary) {R : Type 0} (h : Handler R) where
  -- The handler after requests, the latest first.
  unfoldable pub after_visits : List (Visit R) → Handler R
  after_visits [] = h
  after_visits ((routes, req) ∷ visits) =
      (serve_dns lib (routed_by (after_visits visits) routes) req).0

  -- The warnings that were logged.
  unfoldable pub warnings : List (Visit R) → ℕ
  unfolding after_visits
  warnings [] = 0
  warnings ((routes, req) ∷ visits) =
      warned_by (serve_dns lib (routed_by (after_visits visits) routes) req).1 + warnings visits

module _ (lib : DnsLibrary) {R : Type 0} (sched : Option (Sched R)) (ecs : EcsPolicy)
    (dnssec : Bool) where
  logged :
      (visits : List (Visit R))
      → (after_visits lib (new sched ecs dnssec) visits).fallback_logged ≡ not (begins visits)
  unfolding after_visits serve_dns new
  logged [] = refl
  logged ((none, req) ∷ visits) = refl
  logged ((some r, req) ∷ visits) = refl

  falls_back :
      (visits : List (Visit R)) (req : Msg)
      → (serve_dns lib (routed_by (after_visits lib (new sched ecs dnssec) visits) none) req).1
        ≡ fallback (begins visits) req
  unfolding serve_dns
  falls_back visits req = ground (arith, logged visits)

  counted :
      (visits : List (Visit R)) → warnings lib (new sched ecs dnssec) visits ≡ stretches visits
  unfolding warnings serve_dns
  counted [] = refl
  counted ((some r, req) ∷ visits) = omega (arith, counted visits)
  counted ((none, req) ∷ visits) = ground (arith, counted visits, logged visits)

  -- After any requests on a new handler, with and without routes in any order: a request that comes
  -- without routes goes to the default upstreams as it came, whatever the ECS policy and the DNSSEC
  -- switch say; a warning is logged with it exactly if it is the first since the start or since the
  -- last request that had routes; and the warnings logged are as many as the stretches of requests
  -- without routes.
  pub serve_dns-fallback :
      (visits : List (Visit R)) (req : Msg)
      → ((serve_dns lib (routed_by (after_visits lib (new sched ecs dnssec) visits) none) req).1
          ≡ fallback (begins visits) req)
        × (warnings lib (new sched ecs dnssec) visits ≡ stretches visits)
  serve_dns-fallback visits req = (falls_back visits req, counted visits)
