-- ===== src/Cache/Linear.antt =====
-- FIFO and LRU caches stay well-formed under every call.
use dnsproxy_router.Cache.Calls.{insert_by-IsCounted, renewed-IsCounted}
use dnsproxy_router.Prelude.{
  ◌==◌, ◌≢◌, Bool-cases, ℕ, ◌+◌, ◌-◌, ◌≡◌, refl, sym, ap, ◌∙◌, ◌⊎◌, inl, inr, true, false, none,
  some, List, [], ◌∷◌, ◌++◌, arith, lookup, Bytes, bytes_discrete, insert, modify, Option-cases,
  length, lookup-insert_self, lookup-insert_ne, lookup-modify_self, lookup-modify_ne,
}
use dnsproxy_router.Prelude.Int.{ℤ, pos, negsuc, ltb_ℤ}
use dnsproxy_router.Prelude.Totals.{has}
use dnsproxy_router.Dns.{Msg}
use dnsproxy_router.Cache.Heap.{Entry}
use dnsproxy_router.Cache.Count.{IsCounted, evict_for-absent}
use dnsproxy_router.Cache.Order.{
  IsLinearPolicy, IsLinear, member, member-append, member-drop_key_self, member-drop_key_ne,
  drop_key-Once, snoc-Once,
}
use dnsproxy_router.Cache.Room.{evict_loop-EvictsOldest, without-valid, remove_entry-without}
use dnsproxy_router.Cache.{
  evict_within, evict_for, Cache, Policy, fifo, lru, drop_key, touch, touch_by, insert_by,
  new_entry, renewed, replace_entry, get_at, get_stale_at, set_at, insert_entry,
}

-- A key at the back of a list that does not hold it.
member-back :
    (k j : Bytes) (ks : List Bytes)
    → (member k ks ≡ false)
    → ((j ≡ k) × (member j (ks ++ k ∷ []) ≡ true))
      ⊎ ((j ≢ k) × (member j (ks ++ k ∷ []) ≡ member j ks))
member-back k j ks h = elim (bytes_discrete j k) [
  | yes p ↦ inl (p, ground (arith, member-append j ks (k ∷ [])))
  | no p ↦ inr (p, ground (arith, member-append j ks (k ∷ [])))
]

-- A cached key moves to the back.
to_back-IsLinear :
    (c : Cache) (k : Bytes)
    → has bytes_discrete k c.items ≡ true
    → IsLinear c
    → IsLinear (record c { order = drop_key k c.order ++ k ∷ [] })
to_back-IsLinear c k at v = record {
  policy = v.policy;
  valid = record { counted = v.valid.counted; distinct = v.valid.distinct };
  listed = λ j. elim (member-back k j (drop_key k c.order) (member-drop_key_self k c.order)) [
    | inl (p, e) ↦ e ∙ sym (ap (λ i. has bytes_discrete i c.items) p ∙ at)
    | inr (p, e) ↦ e ∙ member-drop_key_ne k j c.order p ∙ v.listed j
  ];
  linked = v.linked;
  once =
      snoc-Once k (drop_key k c.order) (member-drop_key_self k c.order)
        (drop_key-Once k c.order v.once);
}

touch_by-IsLinear :
    (p : Policy) (c : Cache) (k : Bytes) (e : Entry)
    → IsLinearPolicy p
    → has bytes_discrete k c.items ≡ true
    → IsLinear c
    → IsLinear (touch_by p c k e)
unfolding touch_by
touch_by-IsLinear fifo c k e p at v = v
touch_by-IsLinear lru c k e p at v = elim (Bool-cases e.elem) [
  | inl h ↦ rw (h, touch_by) (to_back-IsLinear c k at v)
  | inr h ↦ rw (h, touch_by) v
]
touch_by-IsLinear _ c k e p at v = absurd (ground arith)

-- A new entry goes to the back.
add-IsLinear :
    (c : Cache) (k : Bytes) (e : Entry) (t : ℕ)
    → lookup bytes_discrete k c.items ≡ none
    → (e.elem ≡ true) × (e.heap_idx ≡ none)
    → IsCounted (record c {
      items = insert bytes_discrete k e c.items;
      order = c.order ++ k ∷ [];
      total = t;
    })
    → IsLinear c
    → IsLinear (record c {
      items = insert bytes_discrete k e c.items;
      order = c.order ++ k ∷ [];
      total = t;
    })
add-IsLinear c k e t absent links valid v =
    let new : member k c.order ≡ false = ground (arith, v.listed k) in
    record {
      policy = v.policy;
      valid = valid;
      listed = λ j. elim (member-back k j c.order new) [
        | inl (p, h) ↦
            h
            ∙ sym (
                ap (λ i. has bytes_discrete i (insert bytes_discrete k e c.items)) p
                ∙ ground (arith, lookup-insert_self bytes_discrete k e c.items))
        | inr (p, h) ↦
            h ∙ v.listed j ∙ ground (arith, lookup-insert_ne bytes_discrete k j e c.items p)
      ];
      linked = λ j d h. elim (bytes_discrete j k) [
        | yes p ↦
            let same : some e ≡ some d =
              sym (lookup-insert_self bytes_discrete k e c.items)
              ∙ ap (λ i. lookup bytes_discrete i (insert bytes_discrete k e c.items)) (sym p)
              ∙ h in
            ground arith
        | no p ↦ v.linked j d (sym (lookup-insert_ne bytes_discrete k j e c.items p) ∙ h)
      ];
      once = snoc-Once k c.order new v.once;
    }

insert_by-IsLinear :
    (p : Policy) (c : Cache) (k : Bytes) (e : Entry)
    → IsLinearPolicy p
    → lookup bytes_discrete k c.items ≡ none
    → e.heap_idx ≡ none
    → IsLinear c
    → IsLinear (insert_by p (record c { total = c.total + e.size }) k e)
unfolding insert_by
insert_by-IsLinear fifo c k e linear absent h v =
    add-IsLinear c k (record e { elem = true }) (c.total + e.size) absent (refl, h)
      (insert_by-IsCounted fifo c k e absent v.valid) v
insert_by-IsLinear lru c k e linear absent h v =
    add-IsLinear c k (record e { elem = true }) (c.total + e.size) absent (refl, h)
      (insert_by-IsCounted lru c k e absent v.valid) v
insert_by-IsLinear _ c k e linear absent h v = absurd (ground arith)

-- New contents for a cached key.
renew-IsLinear :
    (c : Cache) (k : Bytes) (g : Entry → Entry) (t : ℕ)
    → ((e : Entry) → ((g e).elem ≡ e.elem) × ((g e).heap_idx ≡ e.heap_idx))
    → IsCounted (record c { items = modify bytes_discrete k g c.items; total = t })
    → IsLinear c
    → IsLinear (record c { items = modify bytes_discrete k g c.items; total = t })
renew-IsLinear c k g t links valid v = record {
  policy = v.policy;
  valid = valid;
  listed = λ j. elim (bytes_discrete j k) [
    | yes p ↦ rw p (v.listed k ∙ ground (arith, lookup-modify_self bytes_discrete k g c.items))
    | no p ↦ v.listed j ∙ ground (arith, lookup-modify_ne bytes_discrete k j g c.items p)
  ];
  linked = λ j d h. elim (bytes_discrete j k) [
    | yes p ↦
        let h' =
          sym (ap (λ i. lookup bytes_discrete i (modify bytes_discrete k g c.items)) p) ∙ h in
        elim (Option-cases (lookup bytes_discrete k c.items)) [
          | inl n ↦ absurd (ground (arith, lookup-modify_self bytes_discrete k g c.items))
          | inr (e, n) ↦
              ground (arith, lookup-modify_self bytes_discrete k g c.items, links e, v.linked k e n)
        ]
    | no p ↦ v.linked j d (sym (lookup-modify_ne bytes_discrete k j g c.items p) ∙ h)
  ];
  once = v.once;
}

has_of_some :
    (k : Bytes) (e : Entry) (c : Cache)
    → lookup bytes_discrete k c.items ≡ some e
    → has bytes_discrete k c.items ≡ true
has_of_some k e c h = ground arith

pub get_at-IsLinear : (c : Cache) (now : ℤ) (k : Bytes) → IsLinear c → IsLinear (get_at c now k).0
unfolding get_at touch
get_at-IsLinear c now k v = elim (Option-cases (lookup bytes_discrete k c.items)) [
  | inl h ↦ rw (h, get_at) v
  | inr (e, h) ↦
      rw (h, get_at)
        (elim (Bool-cases (ltb_ℤ e.expire now)) [
          | inl old ↦ rw old (elim (Bool-cases (ltb_ℤ e.stale_until now)) [
            | inl dead ↦ rw (dead, remove_entry-without c k e h v) (without-valid c k e h v)
            | inr kept ↦ rw kept v
          ])
          | inr young ↦
              rw young (touch_by-IsLinear c.cfg.eviction c k e v.policy (has_of_some k e c h) v)
        ])
]

pub get_stale_at-IsLinear :
    (c : Cache) (now : ℤ) (k : Bytes) → IsLinear c → IsLinear (get_stale_at c now k).0
unfolding get_stale_at
get_stale_at-IsLinear c now k v = elim (Option-cases (lookup bytes_discrete k c.items)) [
  | inl h ↦ rw (h, get_stale_at) v
  | inr (e, h) ↦
      rw (h, get_stale_at)
        (elim (Bool-cases (ltb_ℤ now e.expire)) [
          | inl young ↦ rw young v
          | inr old ↦ rw old (elim (Bool-cases (ltb_ℤ e.stale_until now)) [
            | inl dead ↦ rw (dead, remove_entry-without c k e h v) (without-valid c k e h v)
            | inr kept ↦ rw kept v
          ])
        ])
]

replace_entry-IsLinear :
    (c : Cache) (now : ℤ) (k : Bytes) (e : Entry) (msg : Msg) (size : ℕ) (ttl : ℤ)
    → lookup bytes_discrete k c.items ≡ some e
    → IsLinear c
    → IsLinear (replace_entry c now k e msg size ttl)
unfolding replace_entry touch
replace_entry-IsLinear c now k e msg size ttl at v =
    let g = renewed c now msg size ttl in
    let c' = record c {
      items = modify bytes_discrete k g c.items;
      total = c.total + size - e.size;
    } in
    touch_by-IsLinear c.cfg.eviction c' k (g e) v.policy
      (ground (arith, lookup-modify_self bytes_discrete k g c.items))
      (renew-IsLinear c k g (c.total + size - e.size) (λ d. (refl, refl))
        (renewed-IsCounted c now k e msg size ttl at v.valid) v)

evict_for-IsLinear : (c : Cache) (size : ℕ) → IsLinear c → IsLinear (evict_for c size)
unfolding evict_for evict_within
evict_for-IsLinear c size v = by_limit c.cfg.max_bytes
  where
    by_limit : (limit : ℤ) → IsLinear (evict_within limit c size)
    by_limit (pos limit) = elim (Bool-cases (limit == 0)) [
      | inl off ↦ rw off v
      | inr on ↦ rw on (evict_loop-EvictsOldest (length c.items) size limit c (omega arith) v).1
    ]
    by_limit (negsuc n) = v

pub set_at-IsLinear :
    (c : Cache) (now : ℤ) (k : Bytes) (msg : Msg) (size : ℕ) (ttl : ℤ)
    → IsLinear c
    → IsLinear (set_at c now k msg size ttl)
unfolding set_at insert_entry
set_at-IsLinear c now k msg size ttl v = elim (Option-cases (lookup bytes_discrete k c.items)) [
  | inl h ↦
      let c' = evict_for c size in
      let w = evict_for-IsLinear c size v in
      rw (h, set_at)
        (insert_by-IsLinear c'.cfg.eviction c' k (new_entry c' now msg size ttl) w.policy
          (evict_for-absent c size k h) refl w)
  | inr (e, h) ↦ rw (h, set_at) (replace_entry-IsLinear c now k e msg size ttl h v)
]
