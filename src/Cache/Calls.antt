-- ===== src/Cache/Calls.antt =====
-- Set, Get and GetStale keep the count of bytes and each key once, whatever the policy.
use dnsproxy_router.Cache.Count.{
  IsCounted, with_heap-Shrinks, touch-IsCounted, remove_entry-Shrinks, evict_for-Shrinks,
}
use dnsproxy_router.Prelude.{
  ◌-◌, ℕ, suc, ◌+◌, ◌≡◌, refl, true, none, some, arith, lookup, Bytes, bytes_discrete, insert,
  modify, Option-cases, inl, inr,
}
use dnsproxy_router.Prelude.Int.{ℤ}
use dnsproxy_router.Prelude.Totals.{total-insert, total-modify, insert-Distinct, modify-Distinct}
use dnsproxy_router.Dns.{Msg}
use dnsproxy_router.Cache.Heap.{Entry, push}
use dnsproxy_router.Cache.Sizes.{size_of, strip-push}
use dnsproxy_router.Cache.{
  insert_by, Cache, Policy, fifo, lru, lfu, evict_for, new_entry, insert_entry, renewed,
  replace_entry, get_at, get_stale_at, set_at, lfu_of,
}

-- Adding an entry under a new key.
inserted :
    (c : Cache) (k : Bytes) (e : Entry) (t : ℕ)
    → lookup bytes_discrete k c.items ≡ none
    → IsCounted c
    → t ≡ c.total + e.size
    → IsCounted (record c { items = insert bytes_discrete k e c.items; total = t })
inserted c k e t absent v h = record {
  counted = omega (arith, total-insert bytes_discrete size_of k e c.items absent, v.counted);
  distinct = insert-Distinct bytes_discrete k e c.items v.distinct;
}

pub insert_by-IsCounted :
    (p : Policy) (c : Cache) (k : Bytes) (e : Entry)
    → lookup bytes_discrete k c.items ≡ none
    → IsCounted c
    → IsCounted (insert_by p (record c { total = c.total + e.size }) k e)
unfolding insert_by
insert_by-IsCounted fifo c k e absent v =
    let w = inserted c k (record e { elem = true }) (c.total + e.size) absent v refl in
    record { counted = w.counted; distinct = w.distinct }
insert_by-IsCounted lru c k e absent v =
    let w = inserted c k (record e { elem = true }) (c.total + e.size) absent v refl in
    record { counted = w.counted; distinct = w.distinct }
insert_by-IsCounted lfu c k e absent v =
    let e' = record e { seq = suc c.seq } in
    let w = inserted c k e' (c.total + e.size) absent v refl in
    let c' = record c {
      items = insert bytes_discrete k e' c.items;
      total = c.total + e.size;
      seq = suc c.seq;
    } in
    (with_heap-Shrinks c' (push (lfu_of c') k) (strip-push (lfu_of c') k)).keeps
      (record { counted = w.counted; distinct = w.distinct })
insert_by-IsCounted _ c k e absent v = inserted c k e (c.total + e.size) absent v refl

pub renewed-IsCounted :
    (c : Cache) (now : ℤ) (k : Bytes) (e : Entry) (msg : Msg) (size : ℕ) (ttl : ℤ)
    → lookup bytes_discrete k c.items ≡ some e
    → IsCounted c
    → IsCounted (record c {
      items = modify bytes_discrete k (renewed c now msg size ttl) c.items;
      total = c.total + size - e.size;
    })
renewed-IsCounted c now k e msg size ttl at v =
    let g = renewed c now msg size ttl in
    record {
      counted =
          omega (arith, v.counted, total-modify bytes_discrete size_of k e g c.items v.distinct at);
      distinct = modify-Distinct bytes_discrete k g c.items v.distinct;
    }

replace_entry-IsCounted :
    (c : Cache) (now : ℤ) (k : Bytes) (e : Entry) (msg : Msg) (size : ℕ) (ttl : ℤ)
    → lookup bytes_discrete k c.items ≡ some e
    → IsCounted c
    → IsCounted (replace_entry c now k e msg size ttl)
unfolding replace_entry
replace_entry-IsCounted c now k e msg size ttl at v =
    touch-IsCounted
      (record c {
        items = modify bytes_discrete k (renewed c now msg size ttl) c.items;
        total = c.total + size - e.size;
      })
      k (renewed c now msg size ttl e) (renewed-IsCounted c now k e msg size ttl at v)

pub get_at-IsCounted :
    (c : Cache) (now : ℤ) (k : Bytes) → IsCounted c → IsCounted (get_at c now k).0
unfolding get_at
get_at-IsCounted c now k v = elim (Option-cases (lookup bytes_discrete k c.items)) [
  | inl h ↦ rw (h, get_at) v
  | inr (e, h) ↦
      let gone = (remove_entry-Shrinks c k e h).keeps v in
      let used = touch-IsCounted c k e v in
      rw (h, get_at) (ground (arith, gone.counted, gone.distinct, used.counted, used.distinct))
]

pub get_stale_at-IsCounted :
    (c : Cache) (now : ℤ) (k : Bytes) → IsCounted c → IsCounted (get_stale_at c now k).0
unfolding get_stale_at
get_stale_at-IsCounted c now k v = elim (Option-cases (lookup bytes_discrete k c.items)) [
  | inl h ↦ rw (h, get_stale_at) v
  | inr (e, h) ↦
      let gone = (remove_entry-Shrinks c k e h).keeps v in
      rw (h, get_stale_at) (ground (arith, gone.counted, gone.distinct))
]

pub set_at-IsCounted :
    (c : Cache) (now : ℤ) (k : Bytes) (msg : Msg) (size : ℕ) (ttl : ℤ)
    → IsCounted c
    → IsCounted (set_at c now k msg size ttl)
unfolding set_at insert_entry
set_at-IsCounted c now k msg size ttl v = elim (Option-cases (lookup bytes_discrete k c.items)) [
  | inl h ↦
      let s = evict_for-Shrinks c size in
      let c' = evict_for c size in
      rw (h, set_at)
        (insert_by-IsCounted c'.cfg.eviction c' k (new_entry c' now msg size ttl) (s.absent k h)
          (s.keeps v))
  | inr (e, h) ↦ rw (h, set_at) (replace_entry-IsCounted c now k e msg size ttl h v)
]
