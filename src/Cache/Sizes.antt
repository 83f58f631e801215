-- ===== src/Cache/Sizes.antt =====
-- The count of bytes, under every policy. The heap moves entries about and rewrites their `heap_idx`
-- only: `strip` forgets that field.
use mathlib.Core.Option
use dnsproxy_router.Prelude.{
  ℕ, zero, suc, ◌-◌, ◌/◌, ◌≡◌, refl, sym, ap, ◌∙◌, Option, none, some, [], ◌∷◌, ◌++◌, arith, lookup,
  Bytes, bytes_discrete, modify, total, get_elem?, Option-cases, inl, inr, length,
}
use dnsproxy_router.Prelude.Totals.{Distinct}
use dnsproxy_router.Cache.Heap.{
  Entry, Items, Lfu, set_heap_idx, child, swap, up, down, settle, fix_at, push, drop_last, pop_min,
  remove_at,
}

abbrev pub strip : Items → Items
strip [] = []
strip (e ∷ m) = (e.0, set_heap_idx none e.1) ∷ strip m

abbrev pub size_of : Entry → ℕ
size_of e = e.size

abbrev pub bytes : Items → ℕ
bytes = total size_of

strip-modify :
    (k : Bytes) (i : Option ℕ) (m : Items)
    → strip (modify bytes_discrete k (set_heap_idx i) m) ≡ strip m
unfolding modify
strip-modify k i [] = refl
strip-modify k i (e ∷ m) = ground (arith, strip-modify k i m)

strip-swap : (h : Lfu) (i j : ℕ) → strip (swap h i j).items ≡ strip h.items
unfolding swap
strip-swap h i j = elim (Option-cases (get_elem? h.slots i)) [
  | inl e ↦ ground arith
  | inr (k, e) ↦ elim (Option-cases (get_elem? h.slots j)) [
    | inl f ↦ ground arith
    | inr (l, f) ↦ ground (
      arith,
      strip-modify k (some j) (modify bytes_discrete l (set_heap_idx (some i)) h.items),
      strip-modify l (some i) h.items,
    )
  ]
]

strip-up : (fuel : ℕ) (h : Lfu) (j : ℕ) → strip (up fuel h j).items ≡ strip h.items
unfolding up
strip-up zero h j = refl
strip-up (suc fuel) h j =
    let i = (j - 1) / 2 in ground (arith, strip-up fuel (swap h i j) i, strip-swap h i j)

strip-down : (fuel : ℕ) (h : Lfu) (i n : ℕ) → strip (down fuel h i n).0.items ≡ strip h.items
unfolding down
strip-down zero h i n = refl
strip-down (suc fuel) h i n =
    let j = child h i n in ground (arith, strip-down fuel (swap h i j) j n, strip-swap h i j)

strip-settle : (h : Lfu) (i n : ℕ) → strip (settle h i n).items ≡ strip h.items
unfolding settle
strip-settle h i n =
    let d = down (length h.slots) h i n in
    ground (arith, strip-down (length h.slots) h i n, strip-up (length h.slots) d.0 i)

pub strip-fix_at : (h : Lfu) (i : ℕ) → strip (fix_at h i).items ≡ strip h.items
unfolding fix_at
strip-fix_at h i = strip-settle h i (length h.slots)

pub strip-push : (h : Lfu) (k : Bytes) → strip (push h k).items ≡ strip h.items
unfolding push
strip-push h k =
    let n = length h.slots in
    let longer : Lfu = record {
      slots = h.slots ++ k ∷ [];
      items = modify bytes_discrete k (set_heap_idx (some n)) h.items;
    } in
    strip-up (suc n) longer n ∙ strip-modify k (some n) h.items

strip-drop_last : (h : Lfu) → strip (drop_last h).0.items ≡ strip h.items
unfolding drop_last
strip-drop_last h = elim (Option-cases (get_elem? h.slots (length h.slots - 1))) [
  | inl e ↦ ground arith
  | inr (k, e) ↦ ground (arith, strip-modify k none h.items)
]

pub strip-pop_min : (h : Lfu) → strip (pop_min h).0.items ≡ strip h.items
unfolding pop_min
strip-pop_min h =
    let n = length h.slots - 1 in
    strip-drop_last (down (length h.slots) (swap h 0 n) 0 n).0
    ∙ strip-down (length h.slots) (swap h 0 n) 0 n
    ∙ strip-swap h 0 n

pub strip-remove_at : (h : Lfu) (i : ℕ) → strip (remove_at h i).0.items ≡ strip h.items
unfolding remove_at
strip-remove_at h i =
    let n = length h.slots - 1 in
    ground (
      arith,
      strip-drop_last h,
      strip-drop_last (settle (swap h i n) i n),
      strip-settle (swap h i n) i n,
      strip-swap h i n,
    )

lookup-strip :
    (k : Bytes) (m : Items)
    → lookup bytes_discrete k (strip m) ≡ Option.map (set_heap_idx none) (lookup bytes_discrete k m)
unfolding lookup
lookup-strip k [] = refl
lookup-strip k (e ∷ m) = ground (arith, lookup-strip k m)

bytes-strip : (m : Items) → bytes (strip m) ≡ bytes m
bytes-strip [] = refl
bytes-strip (e ∷ m) = omega (arith, bytes-strip m)

strip-Distinct : (m : Items) → Distinct bytes_discrete m → Distinct bytes_discrete (strip m)
strip-Distinct [] d = tt
strip-Distinct (e ∷ m) d = (lookup-strip e.0 m ∙ rw d.0 refl, strip-Distinct m d.1)

of_strip-Distinct : (m : Items) → Distinct bytes_discrete (strip m) → Distinct bytes_discrete m
of_strip-Distinct [] d = tt
of_strip-Distinct (e ∷ m) d = (ground (arith, lookup-strip e.0 m), of_strip-Distinct m d.1)

-- What two dictionaries share that differ in the heap's indices only.
module _ (m m' : Items) (same : strip m' ≡ strip m) where
  pub bytes_of_strip : bytes m' ≡ bytes m
  bytes_of_strip = omega (arith, bytes-strip m, bytes-strip m', ap bytes same)

  pub Distinct-of_strip : Distinct bytes_discrete m → Distinct bytes_discrete m'
  Distinct-of_strip d = of_strip-Distinct m' (rw same (strip-Distinct m d))

  pub lookup_of_strip :
      (k : Bytes) (e : Entry)
      → lookup bytes_discrete k m ≡ some e
      → (e' : Entry) × (lookup bytes_discrete k m' ≡ some e')
        × (set_heap_idx none e' ≡ set_heap_idx none e)
  lookup_of_strip k e h =
      let both : Option.map (set_heap_idx none) (lookup bytes_discrete k m')
          ≡ some (set_heap_idx none e) =
        sym (lookup-strip k m')
        ∙ ap (lookup bytes_discrete k) same
        ∙ lookup-strip k m
        ∙ ap (Option.map (set_heap_idx none)) h in
      elim (Option-cases (lookup bytes_discrete k m')) [
        | inl none_there ↦ absurd (ground arith)
        | inr (e', at) ↦ (e', at, ground arith)
      ]

  pub none_of_strip :
      (k : Bytes) → lookup bytes_discrete k m ≡ none → lookup bytes_discrete k m' ≡ none
  none_of_strip k h =
      ground (arith, lookup-strip k m', lookup-strip k m, ap (lookup bytes_discrete k) same)
