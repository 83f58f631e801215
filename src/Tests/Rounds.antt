-- ===== src/Tests/Rounds.antt =====
-- A round of the scheduler in which a new line of a provider is faster than its live one.
use dnsproxy_router.Config.Default.{default_config}
use dnsproxy_router.Scheduler.Round.Open.{IsSound}
use dnsproxy_router.Scheduler.Round.Rounds.{rounds, rounds-new-IsSound}
use dnsproxy_router.Scheduler.Round.{
  Scheduler, new, Probe, cache_config, aggregate, routes_of, reselect, probe_and_select,
}
use dnsproxy_router.Prelude.{
  inr, arith, ℕ_discrete, insert, ◌≡◌, refl, true, some, List, [], ◌∷◌, ◌++◌, Bytes, codes, lookup,
  bytes_discrete,
}
use dnsproxy_router.Prelude.Int.{pos}
use dnsproxy_router.Prelude.Sort.{by_insertion}
use dnsproxy_router.Config.{Config}
use dnsproxy_router.Config.Valid.{IsValid}
use dnsproxy_router.Config.Outcome.{default-IsValid}
use dnsproxy_router.Scheduler.Round.Clamped.{IsWithin, aggregate-AllTtls}
use dnsproxy_router.Cache
use dnsproxy_router.Cache.{clamp}
use dnsproxy_router.Cache.Ttl.{AllTtls}
use dnsproxy_router.Tests.{answer_of_query}
use dnsproxy_router.Tests.Configuring.{small_net, providers}

abbrev before : Scheduler
before = record {
  live = (codes "a" ++ 0 ∷ codes "9", some 0) ∷ [];
  signature = codes "a=9;";
  current = routes_of default_config (record { weight = 1; upstream = some 0 } ∷ []);
  next = 1;
  closed = [];
  retired = [];
}

abbrev met : List (Bytes × List Probe)
met =
    (
      codes "a",
      record { mode = codes "DNS-over-TLS"; addr = codes "9"; dials = true; rtt = 20; ok = true }
          ∷ record {
            mode = codes "DNS-over-HTTPS";
            addr = codes "8";
            dials = true;
            rtt = 5;
            ok = true;
          }
          ∷ [],
    )
    ∷ []

abbrev after_round : Scheduler
after_round = record {
  live = (codes "a" ++ 0 ∷ codes "8", some 1) ∷ [];
  signature = codes "a=8;";
  current = routes_of default_config (record { weight = 1; upstream = some 1 } ∷ []);
  next = 2;
  closed = [];
  retired = some 0 ∷ [];
}

switches : probe_and_select by_insertion default_config before met ≡ after_round
unfolding probe_and_select reselect bytes_discrete by_insertion lookup ℕ_discrete insert
switches = refl

-- A round in which the line is found, and one in which the other line of the provider is faster.
abbrev found_then_left : List (List (Bytes × List Probe))
found_then_left =
    ((
      codes "a",
      record { mode = codes "DNS-over-TLS"; addr = codes "9"; dials = true; rtt = 20; ok = true }
          ∷ [],
    )
      ∷ [])
    ∷ met
    ∷ []

rounds-new-IsSound_example : IsSound (rounds by_insertion default_config found_then_left new)
rounds-new-IsSound_example = rounds-new-IsSound by_insertion default_config found_then_left

abbrev clamped_config : Config
clamped_config = record default_config {
  ttl_min = pos 60000000000;
  ttl_max = pos 120000000000;
  dns = providers;
}

default_config-IsValid : IsValid small_net (record default_config { dns = providers })
default_config-IsValid = default-IsValid small_net providers refl tt ((tt, tt), tt)

clamped_config-IsValid : IsValid small_net clamped_config
clamped_config-IsValid = record {
  listening = default_config-IsValid.listening;
  ecs_policy = default_config-IsValid.ecs_policy;
  certified = default_config-IsValid.certified;
  probing = default_config-IsValid.probing;
  caching = default_config-IsValid.caching;
  bootstrapping = default_config-IsValid.bootstrapping;
  resolving = default_config-IsValid.resolving;
  preferring = default_config-IsValid.preferring;
  racing = default_config-IsValid.racing;
  health = default_config-IsValid.health;
  breaking = default_config-IsValid.breaking;
  weighing = default_config-IsValid.weighing;
  upstreams = default_config-IsValid.upstreams;
  clamping = (omega arith, omega arith, inr (omega arith));
}

aggregate-AllTtls_example :
    AllTtls
      (IsWithin (pos 60000000000) (pos 120000000000))
      (clamp (Cache.new (cache_config clamped_config)) answer_of_query)
unfolding aggregate
aggregate-AllTtls_example =
    aggregate-AllTtls small_net clamped_config [] (Cache.new (cache_config clamped_config))
      answer_of_query clamped_config-IsValid (omega arith) (omega arith) refl
