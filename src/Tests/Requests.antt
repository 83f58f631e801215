-- ===== src/Tests/Requests.antt =====
-- Requests with an OPT record that has the DO bit, a cookie and a client subnet, and without one.
use dnsproxy_router.Prelude.{
  List, ℕ, ◌≡◌, ◌⊎◌, refl, true, false, none, some, [], ◌∷◌, get_elem?, length,
}
use dnsproxy_router.Dns.{EdnsOption, Rr, Msg, type_opt}
use dnsproxy_router.Ecs.{Prefix, EcsPolicy, off, override, apply}
use dnsproxy_router.Ecs.Options.{apply-override, subnets, IsSubnetFor, Keeps, SameRest}
use dnsproxy_router.Handler.{Handler, new, resolve, fallback, serve_dns, client_wants_do}
use dnsproxy_router.Handler.Request.{AsksDnssec, serve_dns-AsksDnssec}
use dnsproxy_router.Handler.Fallback.{Visit, routed_by, after_visits, warnings, serve_dns-fallback}
use dnsproxy_router.Tests.{small_dns, query, plain_query}

abbrev ecs_off : EcsPolicy
ecs_off = record { mode = off; prefix = none }

abbrev net : Prefix
net = record { is4 = true; address = 1 ∷ 2 ∷ 3 ∷ 0 ∷ []; bits = 24 }

abbrev ecs_override : EcsPolicy
ecs_override = record { mode = override; prefix = some net }

abbrev handler : Handler ℕ
handler = record {
  sched = some (record { current = some 5 });
  ecs = ecs_off;
  dnssec = true;
  fallback_logged = false;
}

apply-override_example :
    (i : ℕ) × (o : Rr) × (s : EdnsOption) × (get_elem? (apply small_dns ecs_override query).extra i
      ≡ some o)
    × (o.rrtype ≡ type_opt)
    × (subnets o.options ≡ s ∷ [])
    × IsSubnetFor net s
    × SameRest query (apply small_dns ecs_override query) i
    × (((small_dns.is_edns0 query ≡ none)
          × (i ≡ length query.extra)
          × (o ≡ record {
            name = b'.' ∷ [];
            rrtype = type_opt;
            ttl = 0;
            options = s ∷ [];
            body = [];
          }))
        ⊎ ((small_dns.is_edns0 query ≡ some i)
            × ((old : Rr) × (get_elem? query.extra i ≡ some old) × Keeps old o)))
apply-override_example = apply-override small_dns ecs_override net query refl refl

wishes : client_wants_do small_dns query ≡ true
unfolding client_wants_do small_dns
wishes = refl

serve_dns-AsksDnssec_example :
    (req' : Msg) × ((serve_dns small_dns handler query).1 ≡ resolve 5 req')
    × (req'.question ≡ query.question)
    × AsksDnssec small_dns req'
serve_dns-AsksDnssec_example = serve_dns-AsksDnssec small_dns handler query 5 refl refl wishes

-- One without routes, one with, one without.
abbrev visits : List (Visit ℕ)
visits = (none, query) ∷ (some 5, query) ∷ (none, plain_query) ∷ []

serve_dns-fallback_example :
    ((serve_dns small_dns
        (routed_by (after_visits small_dns (new none ecs_off true) visits) none)
        plain_query).1
      ≡ fallback false plain_query)
    × (warnings small_dns (new none ecs_off true) visits ≡ 2)
serve_dns-fallback_example = serve_dns-fallback small_dns none ecs_off true visits plain_query
