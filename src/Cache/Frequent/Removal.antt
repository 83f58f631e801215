-- ===== src/Cache/Frequent/Removal.antt =====
-- LFU: an entry that removeEntry takes leaves the others in the heap, in order.
use dnsproxy_router.Cache.Frequent.{IsFrequent, AgreesOn, IsOrdered-outside}
use dnsproxy_router.Cache.{
  Cache, lfu_of, with_heap, leave_heap, remove_entry, remove_found, evict_least,
}
use dnsproxy_router.Cache.Heap.{Entry, Items, Lfu, pop_min, remove_at}
use dnsproxy_router.Cache.Heap.Links.{bare, index, rank_of, index_of, rank_at}
use dnsproxy_router.Cache.Heap.Changes.{IsOrdered, Without, remove_at-Without}
use mathlib.Core.Option
use mathlib.Core.Option.{some_inj}
use dnsproxy_router.Prelude.{
  ℕ, ◌≡◌, ◌≢◌, refl, sym, ap, ◌∙◌, subst, Option, none, some, List, [], ◌∷◌, Bytes, bytes_discrete,
  get_elem?, remove, lookup, lookup-remove_self, lookup-remove_ne,
}

-- Lookups that agree but for an index.
pub found_too :
    (o p : Option Entry) (e : Entry)
    → Option.map bare o ≡ Option.map bare p
    → o ≡ some e
    → (e' : Entry) × (p ≡ some e')
found_too o none e h at = absurd (cc (ap (Option.map bare) at, h))
found_too o (some e') e h at = (e', refl)

pub AgreesOn-lookup :
    (a b : Items) (x : Bytes)
    → lookup bytes_discrete x a ≡ lookup bytes_discrete x b
    → AgreesOn a b x
unfolding index_of rank_at
AgreesOn-lookup a b x h = (ap index h, ap rank_of h)

-- `d` is `c` without the entry of `k`.
pub record Loses (c d : Cache) (k : Bytes) : Type 0 where
  pub ordered : IsOrdered (lfu_of d)
  pub policy : d.cfg.eviction ≡ c.cfg.eviction
  pub gone : lookup bytes_discrete k d.items ≡ none
  pub others :
      (x : Bytes)
      → x ≢ k
      → Option.map bare (lookup bytes_discrete x d.items)
        ≡ Option.map bare (lookup bytes_discrete x c.items)
  pub placed :
      (x : Bytes) (m : ℕ)
      → x ≢ k
      → index_of c.items x ≡ some m
      → (n : ℕ) × (index_of d.items x ≡ some n)

pub Loses-IsFrequent : (c d : Cache) (k : Bytes) → IsFrequent c → Loses c d k → IsFrequent d
Loses-IsFrequent c d k v u = record {
  policy = u.policy ∙ v.policy;
  ordered = u.ordered;
  placed = λ x e at. elim (bytes_discrete x k) [
    | yes same ↦ absurd (cc (ap (λ y. lookup bytes_discrete y d.items) same, u.gone, at))
    | no apart ↦
        let (e', there) =
          found_too (lookup bytes_discrete x d.items) (lookup bytes_discrete x c.items) e
            (u.others x apart) at in
        let (m, placed) = v.placed x e' there in u.placed x m apart placed
  ];
}

-- An entry that left the heap leaves the map.
pub forgotten-Loses :
    (c d : Cache) (k : Bytes) (s : Lfu)
    → Without (lfu_of c) s k
    → lfu_of d ≡ record { slots = s.slots; items = remove bytes_discrete k s.items }
    → d.cfg.eviction ≡ c.cfg.eviction
    → Loses c d k
unfolding index_of
forgotten-Loses c d k s u e policy =
    let items : d.items ≡ remove bytes_discrete k s.items = ap (λ (h : Lfu). h.items) e in
    let lost : lookup bytes_discrete k (remove bytes_discrete k s.items) ≡ none =
      lookup-remove_self bytes_discrete k s.items in
    record {
      ordered = subst IsOrdered (sym e) (
          IsOrdered-outside s.slots s.items (remove bytes_discrete k s.items) k
            (λ x apart.
              AgreesOn-lookup (remove bytes_discrete k s.items) s.items x
                (lookup-remove_ne bytes_discrete k x s.items apart))
            u.ordered u.gone (ap index lost));
      policy = policy;
      gone = ap (lookup bytes_discrete k) items ∙ lost;
      others = λ x apart.
          ap (λ m. Option.map bare (lookup bytes_discrete x m)) items
          ∙ ap (Option.map bare) (lookup-remove_ne bytes_discrete k x s.items apart)
          ∙ u.same x;
      placed = λ x m apart at.
          let (n, there) = u.placed x m apart at in
          (
            n,
            ap (λ i. index (lookup bytes_discrete x i)) items
                ∙ ap index (lookup-remove_ne bytes_discrete k x s.items apart)
                ∙ there,
          );
    }

pub placed_slot :
    (c : Cache) (k : Bytes) (e : Entry)
    → IsFrequent c
    → lookup bytes_discrete k c.items ≡ some e
    → (i : ℕ) × (e.heap_idx ≡ some i) × (get_elem? c.heap i ≡ some k)
unfolding index_of
placed_slot c k e v at =
    let (i, there) = v.placed k e at in
    (i, sym (ap index at) ∙ there, v.ordered.linked.back i k there)

left_at : (c : Cache) (o : Option ℕ) → Cache
left_at c o = elim o [ none ↦ c | some j ↦ with_heap c (remove_at (lfu_of c) j).0 ]

pub leave_heap-none : (c : Cache) (e : Entry) → e.heap_idx ≡ none → leave_heap c e ≡ c
unfolding left_at
leave_heap-none c e loose = ap (left_at c) loose

pub remove_entry_lem :
    (c d : Cache) (k : Bytes) (e : Entry)
    → leave_heap c e ≡ d
    → (lfu_of (remove_entry c k e)
        ≡ record { slots = d.heap; items = remove bytes_discrete k d.items })
      × ((remove_entry c k e).cfg.eviction ≡ d.cfg.eviction)
unfolding remove_entry
remove_entry_lem c d k e h = (
  ap
      (λ (x : Cache).
        let l : Lfu = record { slots = x.heap; items = remove bytes_discrete k x.items } in l)
      h,
  ap (λ (x : Cache). x.cfg.eviction) h,
)

-- `removeEntry`.
pub remove_entry-Loses :
    (c : Cache) (k : Bytes) (e : Entry)
    → IsFrequent c
    → lookup bytes_discrete k c.items ≡ some e
    → Loses c (remove_entry c k e) k
remove_entry-Loses c k e v at =
    let (i, idx, slot) = placed_slot c k e v at in
    let left : leave_heap c e ≡ with_heap c (remove_at (lfu_of c) i).0 =
      unfold left_at in ap (left_at c) idx in
    let (same, policy) = remove_entry_lem c (with_heap c (remove_at (lfu_of c) i).0) k e left in
    forgotten-Loses c (remove_entry c k e) k (remove_at (lfu_of c) i).0
      (remove_at-Without (lfu_of c) i k v.ordered slot) same policy

pub evict_least_lem :
    (c : Cache) (k : Bytes) (ks : List Bytes)
    → c.heap ≡ k ∷ ks
    → evict_least c ≡ remove_found (with_heap c (pop_min (lfu_of c)).0) (pop_min (lfu_of c)).1
unfolding evict_least
evict_least_lem c k ks e =
    ap
      (λ (hs : List Bytes).
        let d : Cache = elim hs [
          | [] ↦ c
          | x ∷ xs ↦ remove_found (with_heap c (pop_min (lfu_of c)).0) (pop_min (lfu_of c)).1
        ] in
        d)
      e

pub remove_found_lem :
    (d : Cache) (o : Option Bytes) (k : Bytes) (e : Entry)
    → o ≡ some k
    → lookup bytes_discrete k d.items ≡ some e
    → remove_found d o ≡ remove_entry d k e
remove_found_lem d o k e h at =
    ap (remove_found d) h
    ∙ ap
        (λ (l : Option Entry).
          let x : Cache = elim l [ none ↦ d | some f ↦ remove_entry d k f ] in x)
        at
