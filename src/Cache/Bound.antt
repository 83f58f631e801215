-- ===== src/Cache/Bound.antt =====
-- The byte limit under FIFO and LRU: kept by every new key, and passed by a replacement.
use dnsproxy_router.Prelude.{
  ℕ, ◌+◌, ◌-◌, ◌≤◌, ◌<◌, ◌≡◌, refl, ap, inl, inr, none, some, ◌∙◌, arith, lookup, Bytes,
  bytes_discrete, lookup-modify_self, lookup-modify_ne, modify,
}
use dnsproxy_router.Prelude.Int.{ℤ, pos}
use dnsproxy_router.Prelude.Totals.{has}
use dnsproxy_router.Dns.{Msg}
use dnsproxy_router.Cache.Heap.{Entry}
use dnsproxy_router.Cache.Sizes.{bytes}
use dnsproxy_router.Cache.Order.{IsLinear, IsLinearPolicy}
use dnsproxy_router.Cache.Room.{evict_for-EvictsOldest}
use dnsproxy_router.Cache.{
  new_entry, Cache, Policy, fifo, lru, evict_for, insert_by, insert_entry, replace_entry, touch,
  touch_by, renewed, set_at,
}

insert_by-total :
    (p : Policy) (c : Cache) (k : Bytes) (e : Entry)
    → IsLinearPolicy p
    → (insert_by p c k e).total ≡ c.total
unfolding insert_by
insert_by-total fifo c k e h = refl
insert_by-total lru c k e h = refl
insert_by-total _ c k e h = absurd (ground arith)

-- Under FIFO and LRU, storing a response under a new key leaves at most the limit of bytes, if the
-- response itself is not larger than the limit.
pub set_at-bounded :
    (c : Cache) (now : ℤ) (k : Bytes) (msg : Msg) (size limit : ℕ) (ttl : ℤ)
    → IsLinear c
    → c.cfg.max_bytes ≡ pos limit
    → 0 < limit
    → lookup bytes_discrete k c.items ≡ none
    → size ≤ limit
    → (set_at c now k msg size ttl).total ≤ limit
unfolding set_at insert_entry
set_at-bounded c now k msg size limit ttl v m h absent fits =
    let (s, w) = evict_for-EvictsOldest c size limit m h v in
    let c' = evict_for c size in
    let room : c'.total + size ≤ limit = elim s.room [
      | inl e ↦ omega (arith, w.valid.counted, ap bytes e)
      | inr r ↦ r
    ] in
    rw (absent, set_at)
      (omega (
        arith,
        insert_by-total c'.cfg.eviction (record c' { total = c'.total + size }) k
            (new_entry c' now msg size ttl) w.policy,
      ))

touch_by-linear :
    (p : Policy) (c : Cache) (k : Bytes) (e : Entry)
    → IsLinearPolicy p
    → ((touch_by p c k e).total ≡ c.total) × ((touch_by p c k e).items ≡ c.items)
unfolding touch_by
touch_by-linear fifo c k e h = (refl, refl)
touch_by-linear lru c k e h = ground arith
touch_by-linear _ c k e h = absurd (ground arith)

-- Storing a response under a key that is cached evicts nothing, under FIFO and LRU: every key stays
-- and the count changes by the difference of the sizes, so that a larger response takes the count
-- past the limit when there is no room for the difference.
pub set_at-replaces :
    (c : Cache) (now : ℤ) (k : Bytes) (e : Entry) (msg : Msg) (size limit : ℕ) (ttl : ℤ)
    → IsLinear c
    → lookup bytes_discrete k c.items ≡ some e
    → limit + e.size < c.total + size
    → ((j : Bytes)
        → has bytes_discrete j (set_at c now k msg size ttl).items ≡ has bytes_discrete j c.items)
      × (limit < (set_at c now k msg size ttl).total)
unfolding set_at replace_entry touch
set_at-replaces c now k e msg size limit ttl v at large =
    let g = renewed c now msg size ttl in
    let c' = record c {
      items = modify bytes_discrete k g c.items;
      total = c.total + size - e.size;
    } in
    let (count, kept) = touch_by-linear c.cfg.eviction c' k (g e) v.policy in
    rw (at, set_at) (λ j. ap (has bytes_discrete j) kept ∙ has-modify j g, omega (arith, count))
  where
    has-modify :
        (j : Bytes) (g : Entry → Entry)
        → has bytes_discrete j (modify bytes_discrete k g c.items) ≡ has bytes_discrete j c.items
    has-modify j g = elim (bytes_discrete j k) [
      | yes p ↦ rw p (ground (arith, lookup-modify_self bytes_discrete k g c.items))
      | no p ↦ ground (arith, lookup-modify_ne bytes_discrete k j g c.items p)
    ]
