-- ===== src/Cache/Room.antt =====
-- `evictFor` under FIFO and LRU: the front of the order list goes, as far as is needed.
use dnsproxy_router.Prelude.{
  ℕ, zero, suc, ◌+◌, ◌<◌, ◌≤◌, ◌≡◌, refl, sym, ap, ◌∙◌, ◌⊎◌, inl, inr, true, false, not, ◌==◌, ◌&&◌,
  ltb, some, List, [], ◌∷◌, ◌++◌, arith, lookup, Bytes, bytes_discrete, remove, Bool-cases, length,
  lookup-remove_ne, subst, ◌≢◌,
}
use dnsproxy_router.Prelude.Int.{pos}
use dnsproxy_router.Prelude.Totals.{length-remove, total-remove, some_of_has, lookup-head}
use dnsproxy_router.Cache.Heap.{Entry, Items}
use dnsproxy_router.Cache.Sizes.{size_of}
use dnsproxy_router.Cache.Count.{IsCounted, remove_entry-IsCounted}
use dnsproxy_router.Cache.Order.{
  member, member-head, drop_key_self, member-append, Once, IsLinear, drop_key_absent, without,
  without-IsLinear,
}
use dnsproxy_router.Cache.{
  Cache, drop_key, remove_entry, evict_one, evict_by, evict_loop, evict_within, evict_for,
}

-- From `c` to `c'` the keys `gone` were evicted: they were the front of the order list, the other
-- entries are what they were, the new bytes have room unless nothing is left, and without the
-- eviction of the last of them there would not have been.
pub record EvictsOldest (size limit : ℕ) (c c' : Cache) : Type 0 where
  pub gone : List Bytes
  pub front_of_order : c.order ≡ gone ++ c'.order
  pub kept :
      (j : Bytes)
      → member j c'.order ≡ true
      → lookup bytes_discrete j c'.items ≡ lookup bytes_discrete j c.items
  pub room : (c'.items ≡ []) ⊎ (c'.total + size ≤ limit)
  pub needed :
      ((gone ≡ []) × (c' ≡ c))
      ⊎ ((before : List Bytes) × (k : Bytes) × (e : Entry) × (gone ≡ before ++ k ∷ [])
          × (lookup bytes_discrete k c.items ≡ some e)
          × (limit < c'.total + e.size + size))

pub remove_entry-without :
    (c : Cache) (k : Bytes) (e : Entry)
    → lookup bytes_discrete k c.items ≡ some e
    → IsLinear c
    → remove_entry c k e ≡ without c k e
unfolding remove_entry
remove_entry-without c k e h v = let l = v.linked k e h in ground arith

-- With something cached, `evictOne` takes off the front of the order list.
evict_one-front :
    (c : Cache) (k : Bytes) (ks : List Bytes)
    → c.order ≡ k ∷ ks
    → IsLinear c
    → (e : Entry) × (lookup bytes_discrete k c.items ≡ some e) × (evict_one c ≡ without c k e)
unfolding evict_one evict_by
evict_one-front c k ks o v =
    let there : member k c.order ≡ true = ap (member k) o ∙ member-head k ks in
    let (e, at) = some_of_has bytes_discrete k c.items (sym (v.listed k) ∙ there) in
    (e, at, let p = v.policy in ground (arith, remove_entry-without c k e at v))

-- An order list with nothing on it: nothing is cached.
items_nil : (c : Cache) (m : Items) → c.items ≡ m → c.order ≡ [] → IsLinear c → m ≡ []
items_nil c [] e o v = refl
items_nil c ((k, d) ∷ m) e o v = absurd (
    ground (
      arith,
      v.listed k,
      ap (member k) o,
      ap (lookup bytes_discrete k) e,
      lookup-head bytes_discrete k d m,
    ))

-- Taking off the front leaves the rest of the order list.
front-order :
    (c : Cache) (k : Bytes) (ks : List Bytes) (e : Entry)
    → c.order ≡ k ∷ ks
    → Once c.order
    → (without c k e).order ≡ ks
front-order c k ks e o once =
    ap (drop_key k) o ∙ drop_key_self k ks ∙ drop_key_absent k ks (subst Once o once).0

member-back : (k : Bytes) (ks : List Bytes) → member k (ks ++ k ∷ []) ≡ true
member-back k ks = member-append k ks (k ∷ []) ∙ ground (arith, member-head k [])

-- One eviction before the others.
EvictsOldest-cons :
    (size limit : ℕ) (c c' : Cache) (k : Bytes) (ks : List Bytes) (e : Entry)
    → c.order ≡ k ∷ ks
    → lookup bytes_discrete k c.items ≡ some e
    → IsLinear c
    → limit < c.total + size
    → EvictsOldest size limit (without c k e) c'
    → EvictsOldest size limit c c'
EvictsOldest-cons size limit c c' k ks e o at v full s = record {
  gone = k ∷ s.gone;
  front_of_order = o ∙ ap (◌∷◌ k) rest;
  kept = λ j h.
      s.kept j h
      ∙ lookup-remove_ne bytes_discrete k j c.items (λ p.
        absurd (apart j (ap (member j) rest ∙ member-append j s.gone c'.order ∙ ground arith) p));
  room = s.room;
  needed = inr (last s.needed);
}
  where
    rest : ks ≡ s.gone ++ c'.order
    rest = sym (front-order c k ks e o v.once) ∙ s.front_of_order

    apart : (j : Bytes) → member j ks ≡ true → j ≢ k
    apart j h p = ground (arith, (subst Once o v.once).0, ap (λ i. member i ks) p)

    last :
        ((s.gone ≡ []) × (c' ≡ without c k e))
          ⊎ ((before : List Bytes) × (i : Bytes) × (d : Entry) × (s.gone ≡ before ++ i ∷ [])
              × (lookup bytes_discrete i (remove bytes_discrete k c.items) ≡ some d)
              × (limit < c'.total + d.size + size))
        → (before : List Bytes) × (i : Bytes) × (d : Entry) × (k ∷ s.gone ≡ before ++ i ∷ [])
          × (lookup bytes_discrete i c.items ≡ some d)
          × (limit < c'.total + d.size + size)
    last (inl (nothing, same)) = (
      [],
      k,
      e,
      ap (◌∷◌ k) nothing,
      at,
      omega (
        arith,
        ap (λ (x : Cache). x.total) same,
        total-remove bytes_discrete size_of k e c.items v.valid.distinct at,
        v.valid.counted,
      ),
    )
    last (inr (before, i, d, g, there, lt)) =
        let inside : member i s.gone ≡ true = ap (member i) g ∙ member-back i before in
        let other = apart i (ap (member i) rest ∙ member-append i s.gone c'.order ∙ ground arith) in
        (
          k ∷ before,
          i,
          d,
          ap (◌∷◌ k) g,
          sym (lookup-remove_ne bytes_discrete k i c.items other) ∙ there,
          lt,
        )

nil_of_length : (m : Items) → length m ≤ 0 → m ≡ []
nil_of_length [] h = refl
nil_of_length (e ∷ m) h = elim h [ ]

stay :
    (size limit : ℕ) (c : Cache)
    → (c.items ≡ []) ⊎ (c.total + size ≤ limit)
    → EvictsOldest size limit c c
stay size limit c room = record {
  gone = [];
  front_of_order = refl;
  kept = λ j h. refl;
  room = room;
  needed = inl (refl, refl);
}

stopped :
    (size limit : ℕ) (c : Cache)
    → (not (length c.items == 0) && ltb limit (c.total + size)) ≡ false
    → (c.items ≡ []) ⊎ (c.total + size ≤ limit)
stopped size limit c h = elim (Bool-cases (length c.items == 0)) [
  | inl e ↦ inl (nil_of_length c.items (ground arith))
  | inr e ↦ inr (ground arith)
]

pub without-valid :
    (c : Cache) (k : Bytes) (e : Entry)
    → lookup bytes_discrete k c.items ≡ some e
    → IsLinear c
    → IsLinear (without c k e)
without-valid c k e at v =
    without-IsLinear c k e
      (subst IsCounted (remove_entry-without c k e at v) (remove_entry-IsCounted c k e at v.valid))
      v

pub evict_loop-EvictsOldest :
    (rounds size limit : ℕ) (c : Cache)
    → length c.items ≤ rounds
    → IsLinear c
    → EvictsOldest size limit c (evict_loop rounds size limit c)
      × IsLinear (evict_loop rounds size limit c)
unfolding evict_loop
evict_loop-EvictsOldest zero size limit c h v =
    (stay size limit c (inl (nil_of_length c.items h)), v)
evict_loop-EvictsOldest (suc rounds) size limit c h v =
    elim (Bool-cases (not (length c.items == 0) && ltb limit (c.total + size))) [
      | inr stop ↦ rw stop (stay size limit c (stopped size limit c stop), v)
      | inl go ↦
          rw go (
            by_order (λ d h' v'. evict_loop-EvictsOldest rounds size limit d h' v') c.order refl go)
    ]
  where
    by_order :
        ((d : Cache)
          → length d.items ≤ rounds
          → IsLinear d
          → EvictsOldest size limit d (evict_loop rounds size limit d)
            × IsLinear (evict_loop rounds size limit d))
        → (ks : List Bytes) → c.order ≡ ks
        → (not (length c.items == 0) && ltb limit (c.total + size)) ≡ true
        → EvictsOldest size limit c (evict_loop rounds size limit (evict_one c))
          × IsLinear (evict_loop rounds size limit (evict_one c))
    by_order ih [] o go = absurd (ground (arith, ap length (items_nil c c.items refl o v)))
    by_order ih (k ∷ ks) o go =
        let (e, at, step) = evict_one-front c k ks o v in
        let (s, w) =
          ih (without c k e) (omega (arith, length-remove bytes_discrete k e c.items at))
            (without-valid c k e at v) in
        rw step (EvictsOldest-cons size limit c _ k ks e o at v (ground arith) s, w)

-- With a byte limit, `evictFor` under FIFO and LRU evicts entries from the front of the order list
-- only, the longest there first, until the new bytes have room or nothing is left; it evicts no
-- more than is needed, leaves the other entries as they were, and keeps the cache well-formed.
pub evict_for-EvictsOldest :
    (c : Cache) (size limit : ℕ)
    → c.cfg.max_bytes ≡ pos limit
    → 0 < limit
    → IsLinear c
    → EvictsOldest size limit c (evict_for c size) × IsLinear (evict_for c size)
unfolding evict_for evict_within
evict_for-EvictsOldest c size limit m h v =
    let off : (limit == 0) ≡ false = ground arith in
    subst
      (λ b. EvictsOldest size limit c (evict_within b c size) × IsLinear (evict_within b c size))
      (sym m) (rw off (evict_loop-EvictsOldest (length c.items) size limit c (omega arith) v))
