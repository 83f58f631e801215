-- ===== src/Cache/Runs.antt =====
-- The calls from outside, in any order: what holds of the cache after them.
use dnsproxy_router.Cache.Calls.{get_at-IsCounted, get_stale_at-IsCounted, set_at-IsCounted}
use dnsproxy_router.Prelude.{
  ◌≡◌, List, [], ◌∷◌, arith, Option-cases, inl, inr, length, Bool-cases, ◌+◌, refl, lookup,
}
use dnsproxy_router.Prelude.Int.{ℤ, leb_ℤ, pos}
use dnsproxy_router.Dns.{Msg, DnsLibrary}
use dnsproxy_router.Cache.Records.{cacheable}
use dnsproxy_router.Cache.Key.{key}
use dnsproxy_router.Cache.Count.{IsCounted, new-IsCounted, clear-IsCounted}
use dnsproxy_router.Cache.Order.{IsLinear, IsLinearPolicy}
use dnsproxy_router.Cache.Linear.{get_at-IsLinear, get_stale_at-IsLinear, set_at-IsLinear}
use dnsproxy_router.Cache.{Cache, Config, default_policy, new, clear, lifetime, get, get_stale, put}

-- A call from outside, with the clock's reading.
pub data Call : Type 0 where
  gets gets_stale : ℤ → Msg → Call
  puts : ℤ → Msg → Msg → Call
  clears : Call

-- A cache that holds nothing.
nothing-IsLinear :
    (c : Cache)
    → c.items ≡ []
    → c.order ≡ []
    → c.total ≡ 0
    → IsLinearPolicy c.cfg.eviction
    → IsLinear c
unfolding lookup
nothing-IsLinear c items order total policy = record {
  policy = policy;
  valid = record { counted = rw (items, total) refl; distinct = rw items tt };
  listed = λ k. rw (items, order) refl;
  linked = λ k e at. absurd (ground arith);
  once = rw order tt;
}

module _ (lib : DnsLibrary) where
  unfoldable pub step : Cache → Call → Cache
  step c (gets now req) = (get lib c now req).0
  step c (gets_stale now req) = (get_stale lib c now req).0
  step c (puts now req resp) = put lib c now req resp
  step c clears = clear c

  unfoldable pub run : Cache → List Call → Cache
  unfolding step
  run c [] = c
  run c (call ∷ calls) = run (step c call) calls

  get-IsCounted : (c : Cache) (now : ℤ) (req : Msg) → IsCounted c → IsCounted (get lib c now req).0
  unfolding get
  get-IsCounted c now req v = elim (Option-cases (key lib req)) [
    | inl h ↦ rw (h, get) v
    | inr (k, h) ↦ rw (h, get) (get_at-IsCounted c now k v)
  ]

  get_stale-IsCounted :
      (c : Cache) (now : ℤ) (req : Msg) → IsCounted c → IsCounted (get_stale lib c now req).0
  unfolding get_stale
  get_stale-IsCounted c now req v = elim (Option-cases (key lib req)) [
    | inl h ↦ rw (h, get_stale) v
    | inr (k, h) ↦
        let w = get_stale_at-IsCounted c now k v in
        rw (h, get_stale) (ground (arith, v.counted, v.distinct, w.counted, w.distinct))
  ]

  put-IsCounted :
      (c : Cache) (now : ℤ) (req resp : Msg) → IsCounted c → IsCounted (put lib c now req resp)
  unfolding put
  put-IsCounted c now req resp v = elim (Option-cases (key lib req)) [
    | inl h ↦ rw (h, put) v
    | inr (k, h) ↦ elim (Option-cases (lifetime c.cfg resp)) [
      | inl f ↦ rw (h, put) (ground (arith, v.counted, v.distinct))
      | inr (ttl, f) ↦
          let w = set_at-IsCounted c now k resp (lib.len resp + length k) ttl v in
          rw (h, put) (ground (arith, v.counted, v.distinct, w.counted, w.distinct))
    ]
  ]

  step-IsCounted : (c : Cache) (call : Call) → IsCounted c → IsCounted (step c call)
  unfolding step
  step-IsCounted c (gets now req) v = get-IsCounted c now req v
  step-IsCounted c (gets_stale now req) v = get_stale-IsCounted c now req v
  step-IsCounted c (puts now req resp) v = put-IsCounted c now req resp v
  step-IsCounted c clears v = clear-IsCounted c

  run-IsCounted : (calls : List Call) (c : Cache) → IsCounted c → IsCounted (run c calls)
  unfolding run
  run-IsCounted [] c v = v
  run-IsCounted (call ∷ calls) c v = run-IsCounted calls (step c call) (step-IsCounted c call v)

  -- Whatever the configuration and the policy, after any calls on a new cache the byte count that
  -- `Size` returns is the sum of the entries' sizes, and no key stands twice.
  pub run-new-IsCounted : (cfg : Config) (calls : List Call) → IsCounted (run (new cfg) calls)
  run-new-IsCounted cfg calls = run-IsCounted calls (new cfg) (new-IsCounted cfg)

  get-IsLinear : (c : Cache) (now : ℤ) (req : Msg) → IsLinear c → IsLinear (get lib c now req).0
  unfolding get
  get-IsLinear c now req v = elim (Option-cases (key lib req)) [
    | inl h ↦ rw (h, get) v
    | inr (k, h) ↦ rw (h, get) (get_at-IsLinear c now k v)
  ]

  get_stale-IsLinear :
      (c : Cache) (now : ℤ) (req : Msg) → IsLinear c → IsLinear (get_stale lib c now req).0
  unfolding get_stale
  get_stale-IsLinear c now req v = elim (Option-cases (key lib req)) [
    | inl h ↦ rw (h, get_stale) v
    | inr (k, h) ↦ elim (Bool-cases (leb_ℤ c.cfg.stale_max_age (pos 0))) [
      | inl off ↦ rw (h, get_stale, off) v
      | inr on ↦ rw (h, get_stale, on) (get_stale_at-IsLinear c now k v)
    ]
  ]

  put-IsLinear :
      (c : Cache) (now : ℤ) (req resp : Msg) → IsLinear c → IsLinear (put lib c now req resp)
  unfolding put
  put-IsLinear c now req resp v = elim (Option-cases (key lib req)) [
    | inl h ↦ rw (h, put) v
    | inr (k, h) ↦ elim (Bool-cases (cacheable resp)) [
      | inr bad ↦ rw (h, put, bad) v
      | inl good ↦ elim (Option-cases (lifetime c.cfg resp)) [
        | inl f ↦ rw (h, put, good, f) v
        | inr (ttl, f) ↦
            rw (h, put, good, f) (set_at-IsLinear c now k resp (lib.len resp + length k) ttl v)
      ]
    ]
  ]

  step-IsLinear : (c : Cache) (call : Call) → IsLinear c → IsLinear (step c call)
  unfolding step clear
  step-IsLinear c (gets now req) v = get-IsLinear c now req v
  step-IsLinear c (gets_stale now req) v = get_stale-IsLinear c now req v
  step-IsLinear c (puts now req resp) v = put-IsLinear c now req resp v
  step-IsLinear c clears v = nothing-IsLinear (clear c) refl refl refl v.policy

  run-IsLinear : (calls : List Call) (c : Cache) → IsLinear c → IsLinear (run c calls)
  unfolding run
  run-IsLinear [] c v = v
  run-IsLinear (call ∷ calls) c v = run-IsLinear calls (step c call) (step-IsLinear c call v)

  -- After any calls on a new cache of the FIFO or the LRU policy, which is also the default, the
  -- order list holds each cached key exactly once and no other, every entry is linked to it and
  -- none to the heap, and the byte count is the sum of the sizes.
  pub run-new-IsLinear :
      (cfg : Config) (calls : List Call)
      → IsLinearPolicy (default_policy cfg.eviction)
      → IsLinear (run (new cfg) calls)
  unfolding new
  run-new-IsLinear cfg calls h =
      run-IsLinear calls (new cfg) (nothing-IsLinear (new cfg) refl refl refl h)
