-- ===== src/Cache/Frequent/Victim.antt =====
-- LFU: the entry that evictOne takes.
use dnsproxy_router.Cache.Frequent.Removal.{
  found_too, Loses, forgotten-Loses, placed_slot, leave_heap-none, remove_entry_lem,
  evict_least_lem, remove_found_lem,
}
use dnsproxy_router.Cache.Frequent.{IsFrequent}
use dnsproxy_router.Cache.{
  Cache, Policy, lfu_of, with_heap, leave_heap, remove_entry, evict_least, evict_by, evict_one,
}
use dnsproxy_router.Cache.Heap.{Entry, pop_min}
use dnsproxy_router.Cache.Heap.Ranks.{Le, Le-at}
use dnsproxy_router.Cache.Heap.Links.{index, index_of, rank_at, rank}
use dnsproxy_router.Cache.Heap.Changes.{pop_min-Without}
use dnsproxy_router.Prelude.{
  ℕ, ◌≡◌, ◌<◌, inl, inr, refl, sym, ap, ◌∙◌, subst, none, some, List, [], ◌∷◌, Bytes,
  bytes_discrete, length, get_elem?, lookup, arith, Option-cases, lt_of_get_elem?,
}

-- `evictOne` under LFU, where something is cached: the entry that goes is used least often, and of
-- those the oldest; the others stay as they are.
pub record EvictsLeast (c d : Cache) : Type 0 where
  pub victim : Bytes
  pub entry : Entry
  pub cached : lookup bytes_discrete victim c.items ≡ some entry
  pub least :
      (x : Bytes) (e : Entry)
      → lookup bytes_discrete x c.items ≡ some e
      → Le (entry.freq, entry.seq) (e.freq, e.seq)
  pub loses : Loses c d victim

slot_rank :
    (c : Cache) (m : ℕ) (x : Bytes) (e : Entry)
    → get_elem? c.heap m ≡ some x
    → lookup bytes_discrete x c.items ≡ some e
    → rank (lfu_of c) m ≡ (e.freq, e.seq)
unfolding rank rank_at
slot_rank c m x e slot at = rw (slot, at) refl

least_in :
    (c : Cache) (k : Bytes) (e : Entry)
    → IsFrequent c
    → get_elem? c.heap 0 ≡ some k
    → lookup bytes_discrete k c.items ≡ some e
    → ((m : ℕ) → m < length c.heap → Le (rank (lfu_of c) 0) (rank (lfu_of c) m))
    → (x : Bytes) (f : Entry) → lookup bytes_discrete x c.items ≡ some f
    → Le (e.freq, e.seq) (f.freq, f.seq)
least_in c k e v top at least x f there =
    let (i, idx, slot) = placed_slot c x f v there in
    Le-at (sym (slot_rank c 0 k e top at)) (sym (slot_rank c i x f slot there))
      (least i (lt_of_get_elem? c.heap i x slot))

top_of :
    (c : Cache)
    → IsFrequent c
    → (k : Bytes) (ks : List Bytes) → c.heap ≡ k ∷ ks
    → (e : Entry) × (get_elem? c.heap 0 ≡ some k) × (lookup bytes_discrete k c.items ≡ some e)
unfolding index_of
top_of c v k ks e =
    let top : get_elem? c.heap 0 ≡ some k = ap (λ (hs : List Bytes). get_elem? hs 0) e in
    elim (Option-cases (lookup bytes_discrete k c.items)) [
      | inl bad ↦ absurd (cc (v.ordered.linked.there 0 k top, bad))
      | inr (f, at) ↦ (f, top, at)
    ]

pub evict_least-EvictsLeast :
    (c : Cache) (k : Bytes) (ks : List Bytes)
    → IsFrequent c
    → c.heap ≡ k ∷ ks
    → EvictsLeast c (evict_least c)
unfolding index_of
evict_least-EvictsLeast c k ks v full =
    let (e, top, at) = top_of c v k ks full in
    let (found, u, least) = pop_min-Without (lfu_of c) k v.ordered top in
    let s = (pop_min (lfu_of c)).0 in
    let (f, there) =
      found_too (lookup bytes_discrete k c.items)
        (lookup bytes_discrete k (pop_min (lfu_of c)).0.items) e (sym (u.same k)) at in
    let idx : f.heap_idx ≡ none = sym (ap index there) ∙ u.gone in
    let left : leave_heap (with_heap c (pop_min (lfu_of c)).0) f
        ≡ with_heap c (pop_min (lfu_of c)).0 =
      leave_heap-none (with_heap c (pop_min (lfu_of c)).0) f idx in
    let (same, policy) =
      remove_entry_lem (with_heap c (pop_min (lfu_of c)).0) (with_heap c (pop_min (lfu_of c)).0) k f
        left in
    let goes : evict_least c ≡ remove_entry (with_heap c (pop_min (lfu_of c)).0) k f =
      evict_least_lem c k ks full
      ∙ remove_found_lem (with_heap c (pop_min (lfu_of c)).0) (pop_min (lfu_of c)).1 k f found
          there in
    record {
      victim = k;
      entry = e;
      cached = at;
      least = least_in c k e v top at least;
      loses =
          subst (λ d. Loses c d k) (sym goes)
            (forgotten-Loses c (remove_entry (with_heap c (pop_min (lfu_of c)).0) k f) k
              (pop_min (lfu_of c)).0 u same policy);
    }

evict_least-cached :
    (c : Cache) (hs : List Bytes) (i : ℕ)
    → IsFrequent c
    → c.heap ≡ hs
    → i < length c.heap
    → EvictsLeast c (evict_least c)
evict_least-cached c [] i v empty lt =
    absurd (omega (arith, ap (λ (l : List Bytes). length l) empty))
evict_least-cached c (k ∷ ks) i v full lt = evict_least-EvictsLeast c k ks v full

-- `evictOne` of an LFU cache that is not empty removes an entry that is used least often, of those
-- one that was added first, and leaves the other entries as they are, in a heap that is in order.
pub evict_one-EvictsLeast :
    (c : Cache) (x : Bytes) (e : Entry)
    → IsFrequent c
    → lookup bytes_discrete x c.items ≡ some e
    → EvictsLeast c (evict_one c)
unfolding evict_one evict_by
evict_one-EvictsLeast c x e v at =
    let (i, idx, slot) = placed_slot c x e v at in
    subst (EvictsLeast c) (sym (ap (λ (p : Policy). evict_by p c) v.policy))
      (evict_least-cached c c.heap i v refl (lt_of_get_elem? c.heap i x slot))
