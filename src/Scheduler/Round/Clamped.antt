-- ===== src/Scheduler/Round/Clamped.antt =====
-- What a valid configuration grants the cache of a selection.
use mathlib.Core.Option.{some_inj}
use dnsproxy_router.Prelude.{
  [], ◌∷◌, All, suc, ◌*◌, ℕ, ◌≤◌, ◌≡◌, ◌⊎◌, inl, inr, sym, ap, subst, Bool, true, false, Option,
  none, some, List, if◌then◌else◌, arith,
}
use dnsproxy_router.Prelude.Int.{ℤ, negsuc, pos, ◌<ℤ◌, ◌≤ℤ◌}
use dnsproxy_router.Dns.{Rr, Msg, type_opt}
use dnsproxy_router.Config.{Config, NetLibrary}
use dnsproxy_router.Config.Normal.{value_or}
use dnsproxy_router.Config.Valid.{IsValid}
use dnsproxy_router.Cache
use dnsproxy_router.Cache.{Cache, clamp}
use dnsproxy_router.Cache.Records.{u32_seconds}
use dnsproxy_router.Cache.Ttl.{AllTtls, clamp-AllTtls}
use dnsproxy_router.Race.{Member}
use dnsproxy_router.Scheduler.Round.{cache_config, aggregate}

-- Below 2 ^ 32 seconds the seconds of a shorter duration are no more.
seconds_mono :
    (a b : ℤ) → pos 0 ≤ℤ a → a ≤ℤ b → b <ℤ pos 4294967296000000000 → u32_seconds a ≤ u32_seconds b
unfolding u32_seconds
seconds_mono a b h k l = ground arith

if_some : {A : Type 0} (b : Bool) (x c : A) → (if b then some x else none) ≡ some c → c ≡ x
if_some true x c h = sym (some_inj.0 h)
if_some false x c h = absurd (ground arith)

cache_of :
    (cfg : Config) (ms : List (Member (Option ℕ))) (c : Cache)
    → (aggregate cfg ms).cache ≡ some c
    → c ≡ Cache.new (cache_config cfg)
unfolding aggregate
cache_of cfg ms c h = if_some (value_or true cfg.cache_enabled) (Cache.new (cache_config cfg)) c h

no_seconds : (b : ℤ) → b ≡ pos 0 → u32_seconds b ≡ 0
unfolding u32_seconds
no_seconds b h = ap u32_seconds h

-- A TTL of at least `low` and, where `high` is a second or more, at most `high`, in whole seconds.
abbrev pub IsWithin : ℤ → ℤ → ℕ → Type 0
IsWithin low high t =
    (low <ℤ pos (suc t * 1000000000)) × ((high <ℤ pos 1000000000) ⊎ (pos (t * 1000000000) ≤ℤ high))

in_seconds :
    (low high : ℤ) (t : ℕ)
    → pos 0 ≤ℤ low
    → pos 0 ≤ℤ high
    → low <ℤ pos 4294967296000000000
    → high <ℤ pos 4294967296000000000
    → u32_seconds low ≤ t
    → (u32_seconds high ≡ 0) ⊎ (t ≤ u32_seconds high)
    → IsWithin low high t
unfolding u32_seconds
in_seconds (pos a) (pos b) t p q low high lower upper = (ground arith, ground arith)
in_seconds (negsuc a) high t p q small short lower upper = absurd (omega arith)
in_seconds low (negsuc b) t p q small short lower upper = absurd (omega arith)

All-weaken :
    (P Q : Rr → Type 0) → ((rr : Rr) → P rr → Q rr) → (rrs : List Rr) → All P rrs → All Q rrs
All-weaken P Q f [] h = tt
All-weaken P Q f (rr ∷ rrs) h = (f rr h.0, All-weaken P Q f rrs h.1)

AllTtls-weaken : (P Q : ℕ → Type 0) → ((t : ℕ) → P t → Q t) → (m : Msg) → AllTtls P m → AllTtls Q m
AllTtls-weaken P Q f m (a, b, c) =
    let each : (rr : Rr) → (rr.rrtype ≡ type_opt) ⊎ P rr.ttl → (rr.rrtype ≡ type_opt) ⊎ Q rr.ttl =
      λ rr h. elim h [ inl opt ↦ inl opt | inr p ↦ inr (f rr.ttl p) ] in
    (All-weaken _ _ each m.answer a, All-weaken _ _ each m.ns b, All-weaken _ _ each m.extra c)

-- In front of the upstreams of a valid configuration whose TTL bounds are below 2 ^ 32 seconds, each
-- record but the OPT records of a response that the cache has clamped has a TTL of at least the
-- whole seconds of the configured minimum and, where the maximum is a second or more, at most the
-- maximum.
pub aggregate-AllTtls :
    (net : NetLibrary) (cfg : Config) (ms : List (Member (Option ℕ))) (c : Cache) (m : Msg)
    → IsValid net cfg
    → cfg.ttl_min <ℤ pos 4294967296000000000
    → cfg.ttl_max <ℤ pos 4294967296000000000
    → (aggregate cfg ms).cache ≡ some c
    → AllTtls (IsWithin cfg.ttl_min cfg.ttl_max) (clamp c m)
unfolding Cache.new cache_config
aggregate-AllTtls net cfg ms c m v low short e =
    subst (λ c. AllTtls (IsWithin cfg.ttl_min cfg.ttl_max) (clamp c m)) (sym (cache_of cfg ms c e))
      (AllTtls-weaken _ _
        (λ t h. in_seconds cfg.ttl_min cfg.ttl_max t v.clamping.0 v.clamping.1 low short h.0 h.1)
        (clamp (Cache.new (cache_config cfg)) m)
        (clamp-AllTtls (Cache.new (cache_config cfg)) m (ordered v.clamping)))
  where
    ordered :
        (pos 0 ≤ℤ cfg.ttl_min)
          × (pos 0 ≤ℤ cfg.ttl_max)
          × ((cfg.ttl_max ≡ pos 0) ⊎ (cfg.ttl_min ≤ℤ cfg.ttl_max))
        → (u32_seconds cfg.ttl_max ≡ 0) ⊎ (u32_seconds cfg.ttl_min ≤ u32_seconds cfg.ttl_max)
    ordered (a, b, inl z) = inl (no_seconds cfg.ttl_max z)
    ordered (a, b, inr k) = inr (seconds_mono cfg.ttl_min cfg.ttl_max a k short)
