-- ===== src/Cache/Count.antt =====
-- The count of bytes agrees with the entries, and each key stands once, whatever the policy and
-- whatever the calls.
use dnsproxy_router.Prelude.{
  ◌==◌, not, ◌&&◌, ltb, Bool-cases, subst, ℕ, zero, suc, ◌+◌, ◌≡◌, refl, sym, ap, ◌∙◌, Option, none,
  some, List, [], ◌∷◌, arith, lookup, Bytes, bytes_discrete, modify, Option-cases, inl, inr, length,
}
use dnsproxy_router.Prelude.Int.{ℤ, pos, negsuc}
use dnsproxy_router.Prelude.Totals.{
  Distinct, total-remove, total-modify_same, remove-Distinct, modify-Distinct, lookup-remove-none,
}
use dnsproxy_router.Cache.Heap.{Entry, Lfu, fix_at, pop_min, remove_at}
use dnsproxy_router.Cache.Sizes.{
  strip, bytes, size_of, strip-fix_at, strip-pop_min, strip-remove_at, bytes_of_strip,
  Distinct-of_strip, lookup_of_strip, none_of_strip,
}
use dnsproxy_router.Cache.{
  touch_by, evict_least, evict_by, evict_within, Cache, Config, Policy, fifo, lru, lfu, new, clear,
  touch, leave_heap, remove_entry, remove_found, front, evict_one, evict_loop, evict_for, lfu_of,
  with_heap, bump,
}

pub record IsCounted (c : Cache) : Type 0 where
  pub counted : c.total ≡ bytes c.items
  pub distinct : Distinct bytes_discrete c.items

-- Entries may go, the count is kept.
pub record Shrinks (c c' : Cache) : Type 0 where
  pub config : c'.cfg ≡ c.cfg
  pub keeps : IsCounted c → IsCounted c'
  pub absent :
      (j : Bytes) → lookup bytes_discrete j c.items ≡ none → lookup bytes_discrete j c'.items ≡ none

Shrinks-refl : (c : Cache) → Shrinks c c
Shrinks-refl c = record { config = refl; keeps = λ v. v; absent = λ j h. h }

Shrinks-trans : {a b c : Cache} → Shrinks a b → Shrinks b c → Shrinks a c
Shrinks-trans s t = record {
  config = t.config ∙ s.config;
  keeps = λ v. t.keeps (s.keeps v);
  absent = λ j h. t.absent j (s.absent j h);
}

-- Writing heap indices only.
pub with_heap-Shrinks :
    (c : Cache) (h : Lfu) → strip h.items ≡ strip c.items → Shrinks c (with_heap c h)
with_heap-Shrinks c h same = record {
  config = refl;
  keeps = λ v. record {
    counted = omega (arith, v.counted, bytes_of_strip c.items h.items same);
    distinct = Distinct-of_strip c.items h.items same v.distinct;
  };
  absent = λ j e. none_of_strip c.items h.items same j e;
}

pub new-IsCounted : (cfg : Config) → IsCounted (new cfg)
unfolding new
new-IsCounted cfg = record { counted = refl; distinct = tt }

pub clear-IsCounted : (c : Cache) → IsCounted (clear c)
unfolding clear
clear-IsCounted c = record { counted = refl; distinct = tt }

touch_by-IsCounted :
    (p : Policy) (c : Cache) (k : Bytes) (e : Entry) → IsCounted c → IsCounted (touch_by p c k e)
unfolding touch_by
touch_by-IsCounted lru c k e v = ground (arith, v.counted, v.distinct)
touch_by-IsCounted lfu c k e v =
    let m = modify bytes_discrete k bump c.items in
    let c' = record c { items = m } in
    let bumped : IsCounted c' = record {
      counted =
          v.counted ∙ sym (total-modify_same bytes_discrete size_of k bump c.items (λ e. refl));
      distinct = modify-Distinct bytes_discrete k bump c.items v.distinct;
    } in
    elim (Option-cases e.heap_idx) [
      | inl h ↦ rw (h, touch_by) bumped
      | inr (i, h) ↦
          rw (h, touch_by)
            ((with_heap-Shrinks c' (fix_at (lfu_of c') i) (strip-fix_at (lfu_of c') i)).keeps
              bumped)
    ]
touch_by-IsCounted _ c k e v = v

pub touch-IsCounted : (c : Cache) (k : Bytes) (e : Entry) → IsCounted c → IsCounted (touch c k e)
unfolding touch
touch-IsCounted c k e v = touch_by-IsCounted c.cfg.eviction c k e v

leave_heap-Shrinks : (c : Cache) (e : Entry) → Shrinks c (leave_heap c e)
leave_heap-Shrinks c e = elim (Option-cases e.heap_idx) [
  | inl h ↦ rw h (Shrinks-refl c)
  | inr (i, h) ↦ rw h (with_heap-Shrinks c _ (strip-remove_at (lfu_of c) i))
]

leave_heap-lookup :
    (c : Cache) (k : Bytes) (e : Entry)
    → lookup bytes_discrete k c.items ≡ some e
    → (e' : Entry) × (lookup bytes_discrete k (leave_heap c e).items ≡ some e') × (e'.size ≡ e.size)
leave_heap-lookup c k e at = elim (Option-cases e.heap_idx) [
  | inl h ↦ rw h (e, at, refl)
  | inr (i, h) ↦
      let (e', there, same) =
        lookup_of_strip c.items (remove_at (lfu_of c) i).0.items (strip-remove_at (lfu_of c) i) k e
          at in
      rw h (e', there, ap size_of same)
]

pub remove_entry-Shrinks :
    (c : Cache) (k : Bytes) (e : Entry)
    → lookup bytes_discrete k c.items ≡ some e
    → Shrinks c (remove_entry c k e)
unfolding remove_entry
remove_entry-Shrinks c k e at =
    let s = leave_heap-Shrinks c e in
    let (e', there, same) = leave_heap-lookup c k e at in
    let m = (leave_heap c e).items in
    record {
      config = s.config;
      keeps = λ v.
          let w = s.keeps v in
          record {
            counted = omega (
              arith,
              total-remove bytes_discrete size_of k e' m w.distinct there,
              w.counted,
              same,
            );
            distinct = remove-Distinct bytes_discrete k m w.distinct;
          };
      absent = λ j h. lookup-remove-none bytes_discrete k j m (s.absent j h);
    }

pub remove_entry-IsCounted :
    (c : Cache) (k : Bytes) (e : Entry)
    → lookup bytes_discrete k c.items ≡ some e
    → IsCounted c
    → IsCounted (remove_entry c k e)
remove_entry-IsCounted c k e at v = (remove_entry-Shrinks c k e at).keeps v

remove_found-Shrinks : (c : Cache) (found : Option Bytes) → Shrinks c (remove_found c found)
remove_found-Shrinks c none = Shrinks-refl c
remove_found-Shrinks c (some k) = elim (Option-cases (lookup bytes_discrete k c.items)) [
  | inl h ↦ rw (h, remove_found) (Shrinks-refl c)
  | inr (e, h) ↦ rw (h, remove_found) (remove_entry-Shrinks c k e h)
]

evict_least-Shrinks : (c : Cache) (ks : List Bytes) → c.heap ≡ ks → Shrinks c (evict_least c)
unfolding evict_least
evict_least-Shrinks c [] e =
    subst
      (λ ks. Shrinks c (elim ks [
        | [] ↦ c
        | k ∷ ks ↦ let (h, found) = pop_min (lfu_of c) in remove_found (with_heap c h) found
      ]))
      (sym e) (Shrinks-refl c)
evict_least-Shrinks c (k ∷ ks) e =
    let popped = pop_min (lfu_of c) in
    subst
      (λ ks. Shrinks c (elim ks [
        | [] ↦ c
        | k ∷ ks ↦ let (h, found) = pop_min (lfu_of c) in remove_found (with_heap c h) found
      ]))
      (sym e)
      (Shrinks-trans (with_heap-Shrinks c popped.0 (strip-pop_min (lfu_of c)))
        (remove_found-Shrinks (with_heap c popped.0) popped.1))

evict_by-Shrinks : (p : Policy) (c : Cache) → Shrinks c (evict_by p c)
unfolding evict_by
evict_by-Shrinks fifo c = remove_found-Shrinks c (front c.order)
evict_by-Shrinks lru c = remove_found-Shrinks c (front c.order)
evict_by-Shrinks lfu c = evict_least-Shrinks c c.heap refl
evict_by-Shrinks _ c = Shrinks-refl c

evict_one-Shrinks : (c : Cache) → Shrinks c (evict_one c)
unfolding evict_one
evict_one-Shrinks c = evict_by-Shrinks c.cfg.eviction c

evict_loop-Shrinks :
    (rounds size limit : ℕ) (c : Cache) → Shrinks c (evict_loop rounds size limit c)
unfolding evict_loop
evict_loop-Shrinks zero size limit c = Shrinks-refl c
evict_loop-Shrinks (suc rounds) size limit c =
    elim (Bool-cases (not (length c.items == 0) && ltb limit (c.total + size))) [
      | inl go ↦
          rw go (
            Shrinks-trans (evict_one-Shrinks c)
              (evict_loop-Shrinks rounds size limit (evict_one c)))
      | inr stop ↦ rw stop (Shrinks-refl c)
    ]

evict_within-Shrinks : (limit : ℤ) (c : Cache) (size : ℕ) → Shrinks c (evict_within limit c size)
unfolding evict_within
evict_within-Shrinks (pos limit) c size = elim (Bool-cases (limit == 0)) [
  | inl off ↦ rw off (Shrinks-refl c)
  | inr on ↦ rw on (evict_loop-Shrinks (length c.items) size limit c)
]
evict_within-Shrinks (negsuc n) c size = Shrinks-refl c

pub evict_for-Shrinks : (c : Cache) (size : ℕ) → Shrinks c (evict_for c size)
unfolding evict_for
evict_for-Shrinks c size = evict_within-Shrinks c.cfg.max_bytes c size

-- A key that is not cached is not cached after an eviction.
pub evict_for-absent :
    (c : Cache) (size : ℕ) (k : Bytes)
    → lookup bytes_discrete k c.items ≡ none
    → lookup bytes_discrete k (evict_for c size).items ≡ none
evict_for-absent c size k h = (evict_for-Shrinks c size).absent k h

pub evict_for-cfg : (c : Cache) (size : ℕ) → (evict_for c size).cfg ≡ c.cfg
evict_for-cfg c size = (evict_for-Shrinks c size).config
