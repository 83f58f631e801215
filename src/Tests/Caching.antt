-- ===== src/Tests/Caching.antt =====
-- Caches on concrete inputs: a new one, and one that holds one response of twenty bytes.
use dnsproxy_router.Dns.{Msg}
use dnsproxy_router.Cache.Shown.{IsShown, IsAnswer, fresh_answer-IsAnswer}
use dnsproxy_router.Prelude.{
  ◌≡◌, ◌≤◌, ◌<◌, inr, refl, true, none, some, [], ◌∷◌, arith, lookup, bytes_discrete, Bytes,
  ℕ_discrete,
}
use dnsproxy_router.Prelude.Int.{pos, ◌+ℤ◌, ◌-ℤ◌}
use dnsproxy_router.Prelude.Totals.{has}
use dnsproxy_router.Cache.{
  Config, Cache, lru, new, evict_for, set_at, get_at, get_stale_at, fresh_answer,
}
use dnsproxy_router.Cache.Heap.{Entry}
use dnsproxy_router.Cache.Count.{IsCounted}
use dnsproxy_router.Cache.Runs.{gets, puts, clears, run, run-new-IsCounted, run-new-IsLinear}
use dnsproxy_router.Cache.Order.{IsLinear}
use dnsproxy_router.Cache.Room.{EvictsOldest, evict_for-EvictsOldest}
use dnsproxy_router.Cache.Bound.{set_at-bounded, set_at-replaces}
use dnsproxy_router.Cache.RoundTrip.{get_at-set_at, get_stale_at-set_at}
use dnsproxy_router.Tests.{small_dns, query, plain_query, answer_of_query}

abbrev pub config : Config
config = record {
  max_bytes = pos 50;
  ttl = pos 100;
  eviction = lru;
  stale_max_age = pos 50;
  stale_answer_ttl = pos 30;
  min_ttl = pos 0;
  max_ttl = pos 60000000000;
}

abbrev pub empty_cache : Cache
empty_cache = record { cfg = config; items = []; total = 0; order = []; heap = []; seq = 0 }

empty_cache-IsLinear : IsLinear empty_cache
unfolding lookup
empty_cache-IsLinear = record {
  policy = inr refl;
  valid = record { counted = refl; distinct = tt };
  listed = λ k. refl;
  linked = λ k e h. absurd (ground arith);
  once = tt;
}

abbrev alpha : Bytes
alpha = b'a' ∷ []

abbrev beta : Bytes
beta = b'b' ∷ []

abbrev stored : Entry
stored = record {
  msg = answer_of_query;
  size = 20;
  expire = pos 100;
  stale_until = pos 150;
  freq = 1;
  seq = 0;
  elem = true;
  heap_idx = none;
}

abbrev holding : Cache
holding = record empty_cache { items = (alpha, stored) ∷ []; total = 20; order = alpha ∷ [] }

holding-IsLinear : IsLinear holding
unfolding lookup
holding-IsLinear = record {
  policy = inr refl;
  valid = record { counted = refl; distinct = (refl, tt) };
  listed = λ j. elim (bytes_discrete j alpha) [ yes p ↦ ground arith | no p ↦ ground arith ];
  linked = λ j e h. elim (bytes_discrete j alpha) [ yes p ↦ ground arith | no p ↦ ground arith ];
  once = (refl, tt);
}

run-new-IsCounted_example : IsCounted (
    run small_dns
      (new config)
      (puts (pos 0) query answer_of_query ∷ gets (pos 1) query ∷ gets (pos 2) plain_query ∷ []))
run-new-IsCounted_example =
    run-new-IsCounted small_dns config
      (puts (pos 0) query answer_of_query ∷ gets (pos 1) query ∷ gets (pos 2) plain_query ∷ [])

run-new-IsLinear_example :
    IsLinear (run small_dns (new config) (puts (pos 0) query answer_of_query ∷ clears ∷ []))
run-new-IsLinear_example =
    run-new-IsLinear small_dns config (puts (pos 0) query answer_of_query ∷ clears ∷ []) (inr refl)

evict_for-EvictsOldest_example :
    EvictsOldest 40 50 holding (evict_for holding 40) × IsLinear (evict_for holding 40)
evict_for-EvictsOldest_example =
    evict_for-EvictsOldest holding 40 50 refl (omega arith) holding-IsLinear

set_at-bounded_example : (set_at holding (pos 5) beta answer_of_query 40 (pos 100)).total ≤ 50
unfolding lookup bytes_discrete ℕ_discrete
set_at-bounded_example =
    set_at-bounded holding (pos 5) beta answer_of_query 40 50 (pos 100) holding-IsLinear refl
      (omega arith) refl (omega arith)

-- A replacement of 60 bytes under a limit of 50.
set_at-replaces_example :
    ((j : Bytes)
      → has bytes_discrete j (set_at holding (pos 5) alpha answer_of_query 60 (pos 100)).items
        ≡ has bytes_discrete j holding.items)
    × (50 < (set_at holding (pos 5) alpha answer_of_query 60 (pos 100)).total)
unfolding lookup bytes_discrete ℕ_discrete
set_at-replaces_example =
    set_at-replaces holding (pos 5) alpha stored answer_of_query 60 50 (pos 100) holding-IsLinear
      refl (omega arith)

get_at-set_at_example :
    (a : Msg) × ((get_at (set_at holding (pos 0) beta answer_of_query 20 (pos 100)) (pos 70) beta).1
      ≡ some a)
    × IsAnswer (IsShown ((pos 0 +ℤ pos 100) -ℤ pos 70) (pos 60000000000)) answer_of_query a
unfolding ◌+ℤ◌ ◌-ℤ◌
get_at-set_at_example =
    get_at-set_at holding (pos 0) beta answer_of_query 20 (pos 100) (pos 70) (omega arith)
      (omega arith) (omega arith) (omega arith)

get_stale_at-set_at_example :
    let s = set_at holding (pos 0) beta answer_of_query 20 (pos 100) in
    (get_at s (pos 120) beta ≡ (s, none))
    × ((a : Msg) × (get_stale_at s (pos 120) beta ≡ (s, some a))
        × IsAnswer (IsShown (pos 30) (pos 60000000000)) answer_of_query a)
unfolding ◌+ℤ◌
get_stale_at-set_at_example =
    get_stale_at-set_at holding (pos 0) beta answer_of_query 20 (pos 100) (pos 120) (omega arith)
      (omega arith) (omega arith) (omega arith) (omega arith)

fresh_answer-IsAnswer_example :
    IsAnswer
      (IsShown (pos 100 -ℤ pos 20) (pos 60000000000))
      answer_of_query
      (fresh_answer config (pos 20) stored)
unfolding ◌-ℤ◌
fresh_answer-IsAnswer_example =
    fresh_answer-IsAnswer config (pos 20) stored (omega arith) (omega arith) (omega arith)
