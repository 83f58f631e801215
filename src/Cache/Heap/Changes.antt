-- ===== src/Cache/Heap/Changes.antt =====
-- heap.Fix, heap.Remove and heap.Pop of container/heap on the heap of the LFU policy.
use dnsproxy_router.Cache.Heap.{Lfu, swap, down, settle, fix_at, drop_last, pop_min, remove_at}
use dnsproxy_router.Cache.Heap.Ranks.{Le, Le-trans, Le-at, parent, IsHeap, IsBroken, root-Le}
use dnsproxy_router.Cache.Heap.Links.{IsLinked, SameEntries, index_of, rank}
use dnsproxy_router.Cache.Heap.Swaps.{Swapped, swap-Swapped}
use dnsproxy_router.Cache.Heap.Sift.{Repairs}
use dnsproxy_router.Cache.Heap.Sink.{down-Repairs}
use dnsproxy_router.Cache.Heap.Repair.{if_other, if_one, settle-Repairs, Dropped, drop_last-Dropped}
use dnsproxy_router.Prelude.{
  ◌≢◌, ℕ, suc, ◌-◌, ◌≡◌, ◌<◌, sym, ap, ◌∙◌, subst, none, some, Bytes, ℕ_discrete, length, get_elem?,
  arith, ◌==◌, lt_of_get_elem?,
}

-- The slots and the entries point at each other, and no slot is before the one above it.
pub record IsOrdered (h : Lfu) : Type 0 where
  pub linked : IsLinked h
  pub heap : IsHeap (rank h) (length h.slots)

-- `s` is `h` without the entry of `k` in its slots.
pub record Without (h s : Lfu) (k : Bytes) : Type 0 where
  pub ordered : IsOrdered s
  pub same : SameEntries s.items h.items
  pub size : suc (length s.slots) ≡ length h.slots
  pub gone : index_of s.items k ≡ none
  pub placed :
      (x : Bytes) (m : ℕ)
      → x ≢ k
      → index_of h.items x ≡ some m
      → (n : ℕ) × (index_of s.items x ≡ some n)

-- The last slot of a heap that is in order below it is dropped.
cut_off-Without :
    (h s : Lfu) (k : Bytes) (n : ℕ)
    → length h.slots ≡ suc n
    → Dropped h s k
    → IsHeap (rank h) n
    → Without h s k
cut_off-Without h s k n size d heap = record {
  ordered = record {
    linked = d.linked;
    heap = λ m pos lt.
        Le-at (d.ranks (parent m) (omega (arith, d.size))) (d.ranks m (omega (arith, d.size)))
          (heap m pos (omega (arith, d.size)));
  };
  same = d.same;
  size = omega (arith, d.size);
  gone = d.gone;
  placed = λ x m apart at. (m, d.others x apart ∙ at);
}

-- A slot that is swapped with the last one is the only one that is broken below the last.
module _ (h : Lfu) (v : IsOrdered h) (i n : ℕ) (size : length h.slots ≡ suc n)
    (lt : i < suc n) where
  last-Swapped : Swapped h (swap h i n) i n
  last-Swapped = swap-Swapped h i n v.linked (omega arith) (omega arith)

  last-IsBroken : IsBroken (rank (swap h i n)) i n
  last-IsBroken =
      let w = last-Swapped in
      record {
        edges = λ m p l apart free.
            Le-at (w.swaps.elsewhere (parent m) free (λ e. omega arith))
              (w.swaps.elsewhere m apart (λ e. omega arith)) (v.heap m p (omega arith));
        across = λ m p l kid top.
            Le-at (w.swaps.elsewhere (parent i) (λ e. omega arith) (λ e. omega arith))
              (w.swaps.elsewhere m (λ e. omega arith) (λ e. omega arith))
              (Le-trans (rank h (parent i)) (rank h i) (rank h m) (v.heap i top (omega arith))
                (subst (λ x. Le (rank h x) (rank h m)) kid (v.heap m p (omega arith))));
      }

  -- What is repaired below the last slot, and the last slot dropped.
  repaired-Without :
      (k : Bytes) (s : Lfu)
      → get_elem? h.slots i ≡ some k
      → Repairs (swap h i n) s n
      → ((drop_last s).1 ≡ some k) × Without h (drop_last s).0 k
  repaired-Without k s at (kept, heap) =
      let w = last-Swapped in
      let total : length s.slots ≡ suc n = kept.size ∙ w.size ∙ size in
      let last : get_elem? s.slots (length s.slots - 1) ≡ some k =
        ap (get_elem? s.slots) (omega arith) ∙ kept.beyond n (omega arith) ∙ w.right ∙ at in
      let (found, d) = drop_last-Dropped s kept.linked k last in
      let u = cut_off-Without s (drop_last s).0 k n total d heap in
      (
        found,
        record {
          ordered = u.ordered;
          same = λ x. u.same x ∙ kept.same x ∙ w.same x;
          size = omega (arith, u.size, total);
          gone = u.gone;
          placed = λ x m apart there.
              let (a, first) = w.placed x m there in
              let (b, second) = kept.placed x a first in u.placed x b apart second;
        },
      )

-- `heap.Pop` takes a least entry and leaves the others in order.
pub pop_min-Without :
    (h : Lfu) (k : Bytes)
    → IsOrdered h
    → get_elem? h.slots 0 ≡ some k
    → ((pop_min h).1 ≡ some k)
      × Without h (pop_min h).0 k
      × ((m : ℕ) → m < length h.slots → Le (rank h 0) (rank h m))
unfolding pop_min
pop_min-Without h k v at =
    let n = length h.slots - 1 in
    let pos : 0 < length h.slots = lt_of_get_elem? h.slots 0 k at in
    let size : length h.slots ≡ suc (length h.slots - 1) = omega arith in
    let w = last-Swapped h v 0 (length h.slots - 1) size (omega arith) in
    let (found, u) =
      repaired-Without h v 0 (length h.slots - 1) size (omega arith) k
        (down (length h.slots) (swap h 0 (length h.slots - 1)) 0 (length h.slots - 1)).0 at
        (down-Repairs (length h.slots) (swap h 0 (length h.slots - 1)) 0 (length h.slots - 1)
          (omega arith) (omega (arith, w.size)) w.linked
          (last-IsBroken h v 0 (length h.slots - 1) size (omega arith))
          (λ top. absurd (omega arith))) in
    (found, u, root-Le (rank h) (length h.slots) v.heap)

-- `heap.Remove` takes the entry of a slot and leaves the others in order.
pub remove_at-Without :
    (h : Lfu) (i : ℕ) (k : Bytes)
    → IsOrdered h
    → get_elem? h.slots i ≡ some k
    → Without h (remove_at h i).0 k
unfolding remove_at
remove_at-Without h i k v at =
    let lt : i < length h.slots = lt_of_get_elem? h.slots i k at in
    let size : length h.slots ≡ suc (length h.slots - 1) = omega arith in
    elim (ℕ_discrete i (length h.slots - 1)) [
      | yes same ↦
          let stays : remove_at h i ≡ drop_last h =
            if_one (length h.slots - 1 == i) (drop_last h)
              (drop_last (settle (swap h i (length h.slots - 1)) i (length h.slots - 1)))
              (ground (arith, same)) in
          let (found, d) =
            drop_last-Dropped h v.linked k (ap (get_elem? h.slots) (sym same) ∙ at) in
          subst (λ r. Without h r.0 k) (sym stays)
            (cut_off-Without h (drop_last h).0 k (length h.slots - 1) size d
              (λ m p l. v.heap m p (omega arith)))
      | no apart ↦
          let goes : remove_at h i
              ≡ drop_last (settle (swap h i (length h.slots - 1)) i (length h.slots - 1)) =
            if_other (length h.slots - 1 == i) (drop_last h)
              (drop_last (settle (swap h i (length h.slots - 1)) i (length h.slots - 1)))
              (ground (arith, apart)) in
          let w = last-Swapped h v i (length h.slots - 1) size (omega arith) in
          let (found, u) =
            repaired-Without h v i (length h.slots - 1) size (omega arith) k
              (settle (swap h i (length h.slots - 1)) i (length h.slots - 1)) at
              (settle-Repairs (swap h i (length h.slots - 1)) i (length h.slots - 1) (omega arith)
                (omega (arith, w.size)) w.linked
                (last-IsBroken h v i (length h.slots - 1) size (omega arith))) in
          subst (λ r. Without h r.0 k) (sym goes) u
    ]

-- What is in the heap stays there.
abbrev pub Places : Lfu → Lfu → Type 0
Places h s =
    (x : Bytes) (m : ℕ) → index_of h.items x ≡ some m → (n : ℕ) × (index_of s.items x ≡ some n)

-- A slot whose rank has changed is repaired by `heap.Fix`.
pub fix_at-IsOrdered :
    (h : Lfu) (i : ℕ)
    → i < length h.slots
    → IsLinked h
    → IsBroken (rank h) i (length h.slots)
    → IsOrdered (fix_at h i) × SameEntries (fix_at h i).items h.items × Places h (fix_at h i)
unfolding fix_at
fix_at-IsOrdered h i lt v broken =
    let (kept, heap) = settle-Repairs h i (length h.slots) lt (omega arith) v broken in
    (
      record { linked = kept.linked; heap = λ m p l. heap m p (omega (arith, kept.size)) },
      kept.same,
      kept.placed,
    )
