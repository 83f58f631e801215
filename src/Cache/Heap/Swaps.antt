-- ===== src/Cache/Heap/Swaps.antt =====
-- What `Swap` does to the slots, and what `Less` says of them.
use dnsproxy_router.Cache.Heap.{Items, Lfu, set_heap_idx, swap}
use dnsproxy_router.Cache.Heap.Ranks.{Swaps}
use dnsproxy_router.Cache.Heap.Links.{
  IsLinked, SameEntries, index_of, rank, rank_at-same, modify-SameEntries, index-modify_self,
  index-modify_ne, rank_or,
}
use mathlib.Core.Option.{some_inj}
use dnsproxy_router.Prelude.{
  ℕ, ◌≡◌, ◌≢◌, ◌<◌, refl, sym, ap, ◌∙◌, subst, Option, none, some, Bytes, bytes_discrete,
  ℕ_discrete, modify, get_elem?, set, length, length-set, get_elem?-set_self, get_elem?-set_ne,
  get_elem?-some, lt_of_get_elem?, arith,
}

-- A swap of the slots `i` and `j`, which hold `k` and `l`.
module _ (h : Lfu) (v : IsLinked h) (i j : ℕ) (k l : Bytes) (hk : get_elem? h.slots i ≡ some k)
    (hl : get_elem? h.slots j ≡ some l) where
  inner : Items
  inner = modify bytes_discrete l (set_heap_idx (some i)) h.items

  abbrev swapped : Lfu
  swapped = record {
    slots = set (set h.slots i l) j k;
    items =
        modify bytes_discrete k (set_heap_idx (some j))
          (modify bytes_discrete l (set_heap_idx (some i)) h.items);
  }

  swap-swapped : swap h i j ≡ swapped
  unfolding swap
  swap-swapped = rw (swap, hk, hl) refl

  slot_right : get_elem? swapped.slots j ≡ some k
  slot_right =
      get_elem?-set_self (set h.slots i l) j k
        (omega (arith, length-set h.slots i l, lt_of_get_elem? h.slots j l hl))

  slot_left : get_elem? swapped.slots i ≡ some l
  slot_left = elim (ℕ_discrete i j) [
    | yes same ↦
        subst (λ x. get_elem? swapped.slots x ≡ some l) (sym same)
          (slot_right ∙ sym hk ∙ ap (get_elem? h.slots) same ∙ hl)
    | no apart ↦
        get_elem?-set_ne (set h.slots i l) j i k (λ e. apart (sym e))
        ∙ get_elem?-set_self h.slots i l (lt_of_get_elem? h.slots i k hk)
  ]

  slot_else : (m : ℕ) → m ≢ i → m ≢ j → get_elem? swapped.slots m ≡ get_elem? h.slots m
  slot_else m a b =
      get_elem?-set_ne (set h.slots i l) j m k (λ e. b (sym e))
      ∙ get_elem?-set_ne h.slots i m l (λ e. a (sym e))

  swapped-SameEntries : SameEntries swapped.items h.items
  swapped-SameEntries x =
      modify-SameEntries k (some j) (modify bytes_discrete l (set_heap_idx (some i)) h.items) x
      ∙ modify-SameEntries l (some i) h.items x

  inner_left :
      (m : ℕ)
      → index_of h.items k ≡ some m
      → (n : ℕ) × (index_of (modify bytes_discrete l (set_heap_idx (some i)) h.items) k ≡ some n)
  inner_left m e = elim (bytes_discrete k l) [
    | yes same ↦ (
      i,
      subst (λ x. index_of (modify bytes_discrete l (set_heap_idx (some i)) h.items) x ≡ some i)
          (sym same) (index-modify_self l (some i) h.items j (v.there j l hl)),
    )
    | no apart ↦ (m, index-modify_ne l k (some i) h.items apart ∙ e)
  ]

  index_k : index_of swapped.items k ≡ some j
  index_k =
      let (n, e) = inner_left i (v.there i k hk) in
      index-modify_self k (some j) (modify bytes_discrete l (set_heap_idx (some i)) h.items) n e

  index_l : index_of swapped.items l ≡ some i
  index_l = elim (bytes_discrete l k) [
    | yes same ↦
        subst (λ x. index_of swapped.items x ≡ some i) (sym same)
          (index_k ∙ (sym (v.there j l hl) ∙ ap (index_of h.items) same ∙ v.there i k hk))
    | no apart ↦
        index-modify_ne k l (some j) (modify bytes_discrete l (set_heap_idx (some i)) h.items) apart
        ∙ index-modify_self l (some i) h.items j (v.there j l hl)
  ]

  index_else : (x : Bytes) → x ≢ k → x ≢ l → index_of swapped.items x ≡ index_of h.items x
  index_else x a b =
      index-modify_ne k x (some j) (modify bytes_discrete l (set_heap_idx (some i)) h.items) a
      ∙ index-modify_ne l x (some i) h.items b

  there_after :
      (m : ℕ) (x : Bytes) → get_elem? swapped.slots m ≡ some x → index_of swapped.items x ≡ some m
  there_after m x at = elim (ℕ_discrete m j) [
    | yes same ↦
        let e : x ≡ k = some_inj.0 (sym at ∙ ap (get_elem? swapped.slots) same ∙ slot_right) in
        ap (index_of swapped.items) e ∙ index_k ∙ ap some (sym same)
    | no right ↦ elim (ℕ_discrete m i) [
      | yes same ↦
          let e : x ≡ l = some_inj.0 (sym at ∙ ap (get_elem? swapped.slots) same ∙ slot_left) in
          ap (index_of swapped.items) e ∙ index_l ∙ ap some (sym same)
      | no left ↦
          let old : index_of h.items x ≡ some m = v.there m x (sym (slot_else m left right) ∙ at) in
          index_else x (λ e. left (some_inj.0 (sym old ∙ ap (index_of h.items) e ∙ v.there i k hk)))
            (λ e. right (some_inj.0 (sym old ∙ ap (index_of h.items) e ∙ v.there j l hl)))
          ∙ old
    ]
  ]

  back_after :
      (m : ℕ) (x : Bytes) → index_of swapped.items x ≡ some m → get_elem? swapped.slots m ≡ some x
  back_after m x at = elim (bytes_discrete x k) [
    | yes same ↦
        let e : m ≡ j = some_inj.0 (sym at ∙ ap (index_of swapped.items) same ∙ index_k) in
        ap (get_elem? swapped.slots) e ∙ slot_right ∙ ap some (sym same)
    | no right ↦ elim (bytes_discrete x l) [
      | yes same ↦
          let e : m ≡ i = some_inj.0 (sym at ∙ ap (index_of swapped.items) same ∙ index_l) in
          ap (get_elem? swapped.slots) e ∙ slot_left ∙ ap some (sym same)
      | no left ↦
          let old : get_elem? h.slots m ≡ some x =
            v.back m x (sym (index_else x right left) ∙ at) in
          slot_else m (λ e. right (some_inj.0 (sym old ∙ ap (get_elem? h.slots) e ∙ hk)))
            (λ e. left (some_inj.0 (sym old ∙ ap (get_elem? h.slots) e ∙ hl)))
          ∙ old
    ]
  ]

  placed_after :
      (x : Bytes) (m : ℕ)
      → index_of h.items x ≡ some m
      → (n : ℕ) × (index_of swapped.items x ≡ some n)
  placed_after x m at = elim (bytes_discrete x k) [
    | yes same ↦ (j, ap (index_of swapped.items) same ∙ index_k)
    | no right ↦ elim (bytes_discrete x l) [
      | yes same ↦ (i, ap (index_of swapped.items) same ∙ index_l)
      | no left ↦ (m, index_else x right left ∙ at)
    ]
  ]

  rank-swapped :
      (m : ℕ) (o : Option Bytes)
      → get_elem? swapped.slots m ≡ o
      → rank swapped m ≡ rank_or h.items o
  unfolding rank
  rank-swapped m none e = ap (rank_or swapped.items) e
  rank-swapped m (some x) e =
      ap (rank_or swapped.items) e ∙ rank_at-same swapped.items h.items x swapped-SameEntries

  swapped-Swaps : Swaps (rank h) (rank swapped) i j
  unfolding rank
  swapped-Swaps = record {
    at_left = rank-swapped i (some l) slot_left ∙ ap (rank_or h.items) (sym hl);
    at_right = rank-swapped j (some k) slot_right ∙ ap (rank_or h.items) (sym hk);
    elsewhere = λ m a b. rank-swapped m (get_elem? h.slots m) (slot_else m a b);
  }

-- What a swap keeps and does.
pub record Swapped (h s : Lfu) (i j : ℕ) : Type 0 where
  pub linked : IsLinked s
  pub same : SameEntries s.items h.items
  pub swaps : Swaps (rank h) (rank s) i j
  pub right : get_elem? s.slots j ≡ get_elem? h.slots i
  pub left : get_elem? s.slots i ≡ get_elem? h.slots j
  pub elsewhere : (m : ℕ) → m ≢ i → m ≢ j → get_elem? s.slots m ≡ get_elem? h.slots m
  pub size : length s.slots ≡ length h.slots
  pub placed :
      (x : Bytes) (m : ℕ) → index_of h.items x ≡ some m → (n : ℕ) × (index_of s.items x ≡ some n)

pub swap-Swapped :
    (h : Lfu) (i j : ℕ)
    → IsLinked h
    → i < length h.slots
    → j < length h.slots
    → Swapped h (swap h i j) i j
swap-Swapped h i j v a b =
    let (k, hk) = get_elem?-some h.slots i a in
    let (l, hl) = get_elem?-some h.slots j b in
    subst (λ s. Swapped h s i j) (sym (swap-swapped h v i j k l hk hl))
      (record {
        linked = record {
          there = there_after h v i j k l hk hl;
          back = back_after h v i j k l hk hl;
        };
        same = swapped-SameEntries h v i j k l hk hl;
        swaps = swapped-Swaps h v i j k l hk hl;
        right = slot_right h v i j k l hk hl ∙ sym hk;
        left = slot_left h v i j k l hk hl ∙ sym hl;
        elsewhere = slot_else h v i j k l hk hl;
        size = length-set (set h.slots i l) j k ∙ length-set h.slots i l;
        placed = placed_after h v i j k l hk hl;
      })
