-- ===== src/Tests/Evicting.antt =====
-- internal/cache/cache.go: an LFU cache with two entries, one of which has been used again.
use dnsproxy_router.Cache.Frequent.Victim.{EvictsLeast}
use dnsproxy_router.Prelude.{
  false, ◌≡◌, refl, some, List, [], ◌∷◌, Bytes, lookup, bytes_discrete, ℕ_discrete, insert, modify,
}
use dnsproxy_router.Prelude.Int.{pos, ◌+ℤ◌, ◌-ℤ◌}
use dnsproxy_router.Cache.{
  Config, lfu, new, evict_one, set_at, insert_by, insert_entry, lifetime, evict_for, evict_within,
  evict_loop, get_at, put, get, touch, touch_by,
}
use dnsproxy_router.Cache.Heap.{
  Entry, push, up, less, entry_less, entry_at, swap, fix_at, settle, down, child,
}
use dnsproxy_router.Cache.Records.{cacheable, has_ip_ans, has_soa}
use dnsproxy_router.Cache.Key.{key}
use dnsproxy_router.Cache.Runs.{Call, gets, puts, run, step}
use dnsproxy_router.Cache.Frequent.Kept.{run-EvictsLeast}
use dnsproxy_router.Tests.{small_dns, query, plain_query, answer_of_query}
use dnsproxy_router.Tests.Caching.{config}

abbrev counting : Config
counting = record config { max_bytes = pos 1000; eviction = lfu }

abbrev calls : List Call
calls =
    puts (pos 0) query answer_of_query
    ∷ puts (pos 1) plain_query answer_of_query
    ∷ gets (pos 2) query
    ∷ []

abbrev plain_key : Bytes
plain_key = b'a' ∷ b'|' ∷ b'1' ∷ b'|' ∷ b'1' ∷ []

abbrev plain_entry : Entry
plain_entry = record {
  msg = answer_of_query;
  size = 25;
  expire = pos 101;
  stale_until = pos 151;
  freq = 1;
  seq = 2;
  elem = false;
  heap_idx = some 0;
}

plain_key-cached :
    lookup bytes_discrete plain_key (run small_dns (new counting) calls).items ≡ some plain_entry
unfolding run step get put key cacheable has_ip_ans has_soa lifetime set_at evict_for evict_within
    evict_loop insert_entry insert_by push up less entry_less entry_at swap fix_at settle down child
    get_at touch touch_by lookup insert modify bytes_discrete ℕ_discrete ◌+ℤ◌ ◌-ℤ◌ new small_dns
plain_key-cached = refl

run-EvictsLeast_example :
    EvictsLeast
      (run small_dns (new counting) calls)
      (evict_one (run small_dns (new counting) calls))
run-EvictsLeast_example =
    run-EvictsLeast small_dns counting calls plain_key plain_entry refl plain_key-cached
