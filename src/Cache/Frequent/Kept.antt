-- ===== src/Cache/Frequent/Kept.antt =====
-- LFU: the calls from outside, in any order, and what evictOne takes after them.
use dnsproxy_router.Cache.Frequent.Victim.{EvictsLeast, evict_one-EvictsLeast}
use dnsproxy_router.Cache.Frequent.{IsFrequent}
use dnsproxy_router.Cache.Frequent.Removal.{Loses-IsFrequent, remove_entry-Loses}
use dnsproxy_router.Cache.Frequent.Steps.{
  touch-IsFrequent, replace_entry-IsFrequent, insert_by-IsFrequent, evict_for-IsFrequent,
}
use dnsproxy_router.Cache.Count.{evict_for-absent}
use dnsproxy_router.Cache.Runs.{Call, gets, gets_stale, puts, clears, step, run}
use dnsproxy_router.Cache.Records.{cacheable}
use dnsproxy_router.Cache.Key.{key}
use dnsproxy_router.Cache.Heap.{Entry}
use dnsproxy_router.Cache.Heap.Links.{index, index_of}
use dnsproxy_router.Cache.{
  Cache, Config, Policy, lfu, default_policy, new, clear, remove_entry, evict_one, evict_for,
  new_entry, insert_by, insert_entry, get_at, get_stale_at, set_at, lifetime, get, get_stale, put,
}
use dnsproxy_router.Dns.{Msg, DnsLibrary}
use dnsproxy_router.Prelude.Int.{ℤ, pos, ltb_ℤ, leb_ℤ}
use dnsproxy_router.Prelude.{
  inl, inr, ℕ, ◌+◌, ◌≡◌, refl, sym, ap, subst, none, some, List, [], ◌∷◌, Bytes, bytes_discrete,
  length, lookup, arith, Bool-cases, Option-cases,
}

removed :
    (c : Cache) (k : Bytes) (e : Entry)
    → IsFrequent c
    → lookup bytes_discrete k c.items ≡ some e
    → IsFrequent (remove_entry c k e)
removed c k e v at = Loses-IsFrequent c (remove_entry c k e) k v (remove_entry-Loses c k e v at)

get_at-IsFrequent : (c : Cache) (now : ℤ) (k : Bytes) → IsFrequent c → IsFrequent (get_at c now k).0
unfolding get_at
get_at-IsFrequent c now k v = elim (Option-cases (lookup bytes_discrete k c.items)) [
  | inl h ↦ rw (h, get_at) v
  | inr (e, h) ↦
      rw (h, get_at)
        (elim (Bool-cases (ltb_ℤ e.expire now)) [
          | inl old ↦ rw old (elim (Bool-cases (ltb_ℤ e.stale_until now)) [
            | inl dead ↦ rw dead (removed c k e v h)
            | inr kept ↦ rw kept v
          ])
          | inr young ↦ rw young (touch-IsFrequent c k e v h)
        ])
]

get_stale_at-IsFrequent :
    (c : Cache) (now : ℤ) (k : Bytes) → IsFrequent c → IsFrequent (get_stale_at c now k).0
unfolding get_stale_at
get_stale_at-IsFrequent c now k v = elim (Option-cases (lookup bytes_discrete k c.items)) [
  | inl h ↦ rw (h, get_stale_at) v
  | inr (e, h) ↦
      rw (h, get_stale_at)
        (elim (Bool-cases (ltb_ℤ now e.expire)) [
          | inl young ↦ rw young v
          | inr old ↦ rw old (elim (Bool-cases (ltb_ℤ e.stale_until now)) [
            | inl dead ↦ rw dead (removed c k e v h)
            | inr kept ↦ rw kept v
          ])
        ])
]

counted_IsFrequent : (c : Cache) (t : ℕ) → IsFrequent c → IsFrequent (record c { total = t })
counted_IsFrequent c t v = record { policy = v.policy; ordered = v.ordered; placed = v.placed }

set_at-IsFrequent :
    (c : Cache) (now : ℤ) (k : Bytes) (msg : Msg) (size : ℕ) (ttl : ℤ)
    → IsFrequent c
    → IsFrequent (set_at c now k msg size ttl)
unfolding set_at insert_entry
set_at-IsFrequent c now k msg size ttl v = elim (Option-cases (lookup bytes_discrete k c.items)) [
  | inl h ↦
      let c' = evict_for c size in
      let w = evict_for-IsFrequent c size v in
      rw (h, set_at)
        (subst
          (λ (p : Policy).
            IsFrequent (
              insert_by p (record c' { total = c'.total + size }) k
                (new_entry c' now msg size ttl)))
          (sym w.policy)
          (insert_by-IsFrequent (record c' { total = c'.total + size }) k
            (new_entry c' now msg size ttl) (counted_IsFrequent c' (c'.total + size) w)
            (evict_for-absent c size k h) refl))
  | inr (e, h) ↦ rw (h, set_at) (replace_entry-IsFrequent c now k e msg size ttl v h)
]

nothing-IsFrequent : (c : Cache) → c.items ≡ [] → c.heap ≡ [] → c.cfg.eviction ≡ lfu → IsFrequent c
unfolding lookup index_of
nothing-IsFrequent c items heap policy =
    let missing : (x : Bytes) → lookup bytes_discrete x c.items ≡ none =
      λ x. ap (lookup bytes_discrete x) items in
    record {
      policy = policy;
      ordered = record {
        linked = record {
          there = λ i k at. absurd (ground (arith, heap, at));
          back = λ i k at. absurd (cc (ap index (missing k), at));
        };
        heap = λ m p l. absurd (omega (arith, ap (λ (hs : List Bytes). length hs) heap));
      };
      placed = λ k e at. absurd (cc (missing k, at));
    }

module _ (lib : DnsLibrary) where
  get-IsFrequent :
      (c : Cache) (now : ℤ) (req : Msg) → IsFrequent c → IsFrequent (get lib c now req).0
  unfolding get
  get-IsFrequent c now req v = elim (Option-cases (key lib req)) [
    | inl h ↦ rw (h, get) v
    | inr (k, h) ↦ rw (h, get) (get_at-IsFrequent c now k v)
  ]

  get_stale-IsFrequent :
      (c : Cache) (now : ℤ) (req : Msg) → IsFrequent c → IsFrequent (get_stale lib c now req).0
  unfolding get_stale
  get_stale-IsFrequent c now req v = elim (Option-cases (key lib req)) [
    | inl h ↦ rw (h, get_stale) v
    | inr (k, h) ↦ elim (Bool-cases (leb_ℤ c.cfg.stale_max_age (pos 0))) [
      | inl off ↦ rw (h, get_stale, off) v
      | inr on ↦ rw (h, get_stale, on) (get_stale_at-IsFrequent c now k v)
    ]
  ]

  put-IsFrequent :
      (c : Cache) (now : ℤ) (req resp : Msg) → IsFrequent c → IsFrequent (put lib c now req resp)
  unfolding put
  put-IsFrequent c now req resp v = elim (Option-cases (key lib req)) [
    | inl h ↦ rw (h, put) v
    | inr (k, h) ↦ elim (Bool-cases (cacheable resp)) [
      | inr bad ↦ rw (h, put, bad) v
      | inl good ↦ elim (Option-cases (lifetime c.cfg resp)) [
        | inl f ↦ rw (h, put, good, f) v
        | inr (ttl, f) ↦
            rw (h, put, good, f) (set_at-IsFrequent c now k resp (lib.len resp + length k) ttl v)
      ]
    ]
  ]

  step-IsFrequent : (c : Cache) (call : Call) → IsFrequent c → IsFrequent (step lib c call)
  unfolding step clear
  step-IsFrequent c (gets now req) v = get-IsFrequent c now req v
  step-IsFrequent c (gets_stale now req) v = get_stale-IsFrequent c now req v
  step-IsFrequent c (puts now req resp) v = put-IsFrequent c now req resp v
  step-IsFrequent c clears v = nothing-IsFrequent (clear c) refl refl v.policy

  run-IsFrequent : (calls : List Call) (c : Cache) → IsFrequent c → IsFrequent (run lib c calls)
  unfolding run
  run-IsFrequent [] c v = v
  run-IsFrequent (call ∷ calls) c v =
      run-IsFrequent calls (step lib c call) (step-IsFrequent c call v)

  -- After any calls on a new cache of the LFU policy, every entry is in the heap.
  pub run-new-IsFrequent :
      (cfg : Config) (calls : List Call) → cfg.eviction ≡ lfu → IsFrequent (run lib (new cfg) calls)
  unfolding new
  run-new-IsFrequent cfg calls h =
      run-IsFrequent calls (new cfg) (nothing-IsFrequent (new cfg) refl refl (ap default_policy h))

  -- After any calls on a new cache of the LFU policy in which something is cached, `evictOne`
  -- removes a cached entry that is used least often, and of those one with the lowest sequence
  -- number; the other entries stay, the same but for their places in the heap, and the heap stays
  -- in order.
  pub run-EvictsLeast :
      (cfg : Config) (calls : List Call) (k : Bytes) (e : Entry)
      → cfg.eviction ≡ lfu
      → lookup bytes_discrete k (run lib (new cfg) calls).items ≡ some e
      → EvictsLeast (run lib (new cfg) calls) (evict_one (run lib (new cfg) calls))
  run-EvictsLeast cfg calls k e h at =
      evict_one-EvictsLeast (run lib (new cfg) calls) k e (run-new-IsFrequent cfg calls h) at
