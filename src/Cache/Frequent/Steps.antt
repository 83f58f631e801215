-- ===== src/Cache/Frequent/Steps.antt =====
-- LFU: touch, insertEntry, replaceEntry and evictFor keep every entry in the heap and it in order.
use dnsproxy_router.Cache.Heap.Added.{push-IsOrdered}
use dnsproxy_router.Cache.Frequent.Victim.{evict_least-EvictsLeast}
use dnsproxy_router.Cache.Frequent.{IsFrequent, AgreesOn, IsOrdered-outside, IsBroken-inside}
use dnsproxy_router.Cache.Frequent.Removal.{
  found_too, AgreesOn-lookup, Loses-IsFrequent, placed_slot,
}
use dnsproxy_router.Cache.{
  Cache, Policy, lfu, lfu_of, with_heap, bump, touch, touch_by, remove_found, evict_least, evict_by,
  evict_one, evict_loop, evict_within, evict_for, insert_by, renewed, replace_entry,
}
use dnsproxy_router.Cache.Heap.{Entry, Items, fix_at, pop_min}
use dnsproxy_router.Cache.Heap.Ranks.{Le-at, parent}
use dnsproxy_router.Cache.Heap.Links.{index, rank_of, index_of, rank_at, rank_or, rank, SameEntries}
use dnsproxy_router.Cache.Heap.Changes.{IsOrdered, fix_at-IsOrdered}
use dnsproxy_router.Dns.{Msg}
use dnsproxy_router.Prelude.Int.{ℤ, pos, negsuc}
use mathlib.Core.Option
use dnsproxy_router.Prelude.{
  inl, inr, ℕ, zero, suc, ◌+◌, ◌-◌, ◌≡◌, ◌≢◌, refl, sym, ap, ◌∙◌, subst, not, ◌&&◌, ltb, ◌==◌,
  Option, none, some, List, [], ◌∷◌, Bytes, bytes_discrete, length, get_elem?, modify, insert,
  lookup, Bool-cases, lt_of_get_elem?, lookup-modify_self, lookup-modify_ne, lookup-insert_self,
  lookup-insert_ne,
}

-- The entries are in an ordered heap up to their indices, and none has left it.
kept-IsFrequent :
    (d : Cache) (items : Items)
    → d.cfg.eviction ≡ lfu
    → IsOrdered (lfu_of d)
    → SameEntries d.items items
    → ((x : Bytes) (e : Entry)
        → lookup bytes_discrete x items ≡ some e
        → (n : ℕ) × (index_of d.items x ≡ some n))
    → IsFrequent d
kept-IsFrequent d items policy ordered same placed = record {
  policy = policy;
  ordered = ordered;
  placed = λ x e at.
      let (f, there) =
        found_too (lookup bytes_discrete x d.items) (lookup bytes_discrete x items) e (same x) at in
      placed x f there;
}

-- A change of the entry of one key that leaves its index.
module _ (c : Cache) (v : IsFrequent c) (k : Bytes) (e : Entry) (g : Entry → Entry) (i : ℕ)
    (at : lookup bytes_discrete k c.items ≡ some e) (idx : (g e).heap_idx ≡ some i) where
  abbrev changed : Items
  changed = modify bytes_discrete k g c.items

  changed_entry : lookup bytes_discrete k changed ≡ some (g e)
  changed_entry = lookup-modify_self bytes_discrete k g c.items ∙ ap (Option.map g) at

  changed_other : (x : Bytes) → x ≢ k → AgreesOn changed c.items x
  changed_other x apart =
      AgreesOn-lookup changed c.items x (lookup-modify_ne bytes_discrete k x g c.items apart)

  changed_index : index_of changed k ≡ some i
  unfolding index_of
  changed_index = ap index changed_entry ∙ idx

  changed_placed :
      (x : Bytes) (f : Entry)
      → lookup bytes_discrete x changed ≡ some f
      → (n : ℕ) × (index_of changed x ≡ some n)
  changed_placed x f h = elim (bytes_discrete x k) [
    | yes same ↦ (i, ap (index_of changed) same ∙ changed_index)
    | no apart ↦
        let (n, there) =
          v.placed x f (sym (lookup-modify_ne bytes_discrete k x g c.items apart) ∙ h) in
        (n, (changed_other x apart).0 ∙ there)
  ]

touched : (c : Cache) (k : Bytes) (o : Option ℕ) → Cache
touched c k o = elim o [
  | none ↦ record c { items = modify bytes_discrete k bump c.items }
  | some i ↦
      with_heap c
        (fix_at (record { slots = c.heap; items = modify bytes_discrete k bump c.items }) i)
]

touch_lfu :
    (c : Cache) (k : Bytes) (e : Entry)
    → IsFrequent c
    → lookup bytes_discrete k c.items ≡ some e
    → IsFrequent (touch_by lfu c k e)
unfolding touch_by index_of
touch_lfu c k e v at =
    let (i, idx, slot) = placed_slot c k e v at in
    let (linked, broken) =
      IsBroken-inside c.heap c.items (changed c v k e bump i at idx) k
        (changed_other c v k e bump i at idx) v.ordered i (ap index at ∙ idx)
        (changed_index c v k e bump i at idx) in
    let (ordered, same, places) =
      fix_at-IsOrdered (record { slots = c.heap; items = modify bytes_discrete k bump c.items }) i
        (lt_of_get_elem? c.heap i k slot) linked broken in
    let goes : touch_by lfu c k e ≡ touched c k (some i) = unfold touched in ap (touched c k) idx in
    subst IsFrequent (sym goes) (
      unfold touched in
      kept-IsFrequent (touched c k (some i)) (changed c v k e bump i at idx) v.policy ordered same
        (λ x f h. let (n, there) = changed_placed c v k e bump i at idx x f h in places x n there))

-- `touch`.
pub touch-IsFrequent :
    (c : Cache) (k : Bytes) (e : Entry)
    → IsFrequent c
    → lookup bytes_discrete k c.items ≡ some e
    → IsFrequent (touch c k e)
unfolding touch
touch-IsFrequent c k e v at =
    subst (λ (p : Policy). IsFrequent (touch_by p c k e)) (sym v.policy) (touch_lfu c k e v at)

-- The order of the heap reads the frequencies, the sequence numbers and the indices only.
module _ (slots : List Bytes) (old new : Items) (same : (x : Bytes) → AgreesOn new old x) where
  same_rank : (o : Option Bytes) → rank_or new o ≡ rank_or old o
  same_rank none = refl
  same_rank (some x) = (same x).1

  IsOrdered-same :
      IsOrdered (record { slots = slots; items = old })
      → IsOrdered (record { slots = slots; items = new })
  unfolding rank
  IsOrdered-same v = record {
    linked = record {
      there = λ m x at. (same x).0 ∙ v.linked.there m x at;
      back = λ m x at. v.linked.back m x (sym (same x).0 ∙ at);
    };
    heap = λ m p l.
        Le-at (same_rank (get_elem? slots (parent m))) (same_rank (get_elem? slots m))
          (v.heap m p l);
  }

-- `replaceEntry`.
pub replace_entry-IsFrequent :
    (c : Cache) (now : ℤ) (k : Bytes) (e : Entry) (msg : Msg) (size : ℕ) (ttl : ℤ)
    → IsFrequent c
    → lookup bytes_discrete k c.items ≡ some e
    → IsFrequent (replace_entry c now k e msg size ttl)
unfolding replace_entry index_of rank_at
replace_entry-IsFrequent c now k e msg size ttl v at =
    let (i, idx, slot) = placed_slot c k e v at in
    let entry = changed_entry c v k e (renewed c now msg size ttl) i at idx in
    let agrees : (x : Bytes)
        → AgreesOn (modify bytes_discrete k (renewed c now msg size ttl) c.items) c.items x =
      λ x. elim (bytes_discrete x k) [
        | yes same ↦
            subst (AgreesOn (modify bytes_discrete k (renewed c now msg size ttl) c.items) c.items)
              (sym same)
              (ap index entry ∙ sym (ap index at), ap rank_of entry ∙ sym (ap rank_of at))
        | no apart ↦ changed_other c v k e (renewed c now msg size ttl) i at idx x apart
      ] in
    touch-IsFrequent
      (record c {
        total = c.total + size - e.size;
        items = modify bytes_discrete k (renewed c now msg size ttl) c.items;
      })
      k (renewed c now msg size ttl e)
      (record {
        policy = v.policy;
        ordered =
            IsOrdered-same c.heap c.items
              (modify bytes_discrete k (renewed c now msg size ttl) c.items) agrees v.ordered;
        placed = changed_placed c v k e (renewed c now msg size ttl) i at idx;
      })
      entry

-- `insertEntry` of a key that is not cached.
pub insert_by-IsFrequent :
    (c : Cache) (k : Bytes) (e : Entry)
    → IsFrequent c
    → lookup bytes_discrete k c.items ≡ none
    → e.heap_idx ≡ none
    → IsFrequent (insert_by lfu c k e)
unfolding insert_by index_of
insert_by-IsFrequent c k e v absent loose =
    let items : Items = insert bytes_discrete k (record e { seq = suc c.seq }) c.items in
    let cached : lookup bytes_discrete k
          (insert bytes_discrete k (record e { seq = suc c.seq }) c.items)
        ≡ some (record e { seq = suc c.seq }) =
      lookup-insert_self bytes_discrete k (record e { seq = suc c.seq }) c.items in
    let other : (x : Bytes)
        → x ≢ k
        → AgreesOn (insert bytes_discrete k (record e { seq = suc c.seq }) c.items) c.items x =
      λ x apart.
        AgreesOn-lookup (insert bytes_discrete k (record e { seq = suc c.seq }) c.items) c.items x
          (lookup-insert_ne bytes_discrete k x (record e { seq = suc c.seq }) c.items apart) in
    let (ordered, same, places, (n, top)) =
      push-IsOrdered
        (record {
          slots = c.heap;
          items = insert bytes_discrete k (record e { seq = suc c.seq }) c.items;
        })
        (IsOrdered-outside c.heap c.items
          (insert bytes_discrete k (record e { seq = suc c.seq }) c.items) k other v.ordered
          (ap index absent) (ap index cached ∙ loose))
        k (record e { seq = suc c.seq }) cached loose in
    kept-IsFrequent (insert_by lfu c k e)
      (insert bytes_discrete k (record e { seq = suc c.seq }) c.items) v.policy ordered same
      (λ x f h. elim (bytes_discrete x k) [
        | yes eq ↦ (n, ap (index_of (insert_by lfu c k e).items) eq ∙ top)
        | no apart ↦
            let (m, there) = v.placed x f (
              sym (lookup-insert_ne bytes_discrete k x (record e { seq = suc c.seq }) c.items apart)
              ∙ h) in
            places x m ((other x apart).0 ∙ there)
      ])

evict_least-IsFrequent :
    (c : Cache) (hs : List Bytes) → IsFrequent c → c.heap ≡ hs → IsFrequent (evict_least c)
unfolding evict_least
evict_least-IsFrequent c [] v empty =
    subst IsFrequent
      (sym (
        ap
          (λ (hs : List Bytes).
            let d : Cache = elim hs [
              | [] ↦ c
              | x ∷ xs ↦ remove_found (with_heap c (pop_min (lfu_of c)).0) (pop_min (lfu_of c)).1
            ] in
            d)
          empty))
      v
evict_least-IsFrequent c (k ∷ ks) v full =
    let w = evict_least-EvictsLeast c k ks v full in
    Loses-IsFrequent c (evict_least c) w.victim v w.loses

evict_one-IsFrequent : (c : Cache) → IsFrequent c → IsFrequent (evict_one c)
unfolding evict_one evict_by
evict_one-IsFrequent c v =
    subst (λ (p : Policy). IsFrequent (evict_by p c)) (sym v.policy)
      (evict_least-IsFrequent c c.heap v refl)

evict_loop-IsFrequent :
    (rounds size limit : ℕ) (c : Cache) → IsFrequent c → IsFrequent (evict_loop rounds size limit c)
unfolding evict_loop
evict_loop-IsFrequent zero size limit c v = v
evict_loop-IsFrequent (suc rounds) size limit c v =
    let w = evict_loop-IsFrequent rounds size limit (evict_one c) (evict_one-IsFrequent c v) in
    elim (Bool-cases (not (length c.items == 0) && ltb limit (c.total + size))) [
      | inl more ↦ rw more w
      | inr done ↦ rw done v
    ]

evict_within-IsFrequent :
    (limit : ℤ) (c : Cache) (size : ℕ) → IsFrequent c → IsFrequent (evict_within limit c size)
unfolding evict_within
evict_within-IsFrequent (pos limit) c size v = elim (Bool-cases (limit == 0)) [
  | inl off ↦ rw off v
  | inr on ↦ rw on (evict_loop-IsFrequent (length c.items) size limit c v)
]
evict_within-IsFrequent (negsuc n) c size v = v

-- `evictFor`.
pub evict_for-IsFrequent : (c : Cache) (size : ℕ) → IsFrequent c → IsFrequent (evict_for c size)
unfolding evict_for
evict_for-IsFrequent c size v = evict_within-IsFrequent c.cfg.max_bytes c size v
