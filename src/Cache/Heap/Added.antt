-- ===== src/Cache/Heap/Added.antt =====
-- `heap.Push` on the heap of the LFU policy.
use dnsproxy_router.Cache.Heap.Changes.{IsOrdered, Places}
use dnsproxy_router.Cache.Heap.{Entry, Lfu, set_heap_idx, push}
use dnsproxy_router.Cache.Heap.Ranks.{Le-at, parent, IsBroken}
use dnsproxy_router.Cache.Heap.Links.{
  IsLinked, SameEntries, index, index_of, rank, rank_or, rank_at-same, modify-SameEntries,
  index-modify_ne,
}
use dnsproxy_router.Cache.Heap.Sift.{up-Repairs}
use mathlib.Core.Option
use mathlib.Core.Option.{some_inj}
use dnsproxy_router.Prelude.{
  ℕ, zero, suc, ◌≡◌, ◌<◌, refl, sym, ap, ◌∙◌, Option, none, some, List, [], ◌∷◌, ◌++◌, Bytes,
  bytes_discrete, ℕ_discrete, length, get_elem?, modify, lookup, arith, lt_of_get_elem?,
  get_elem?-snoc, length-append, lookup-modify_self,
}

get-snoc :
    {A : Type 0} (xs : List A) (x : A) (m : ℕ)
    → m < length xs
    → get_elem? (xs ++ x ∷ []) m ≡ get_elem? xs m
get-snoc [] x m h = absurd (omega arith)
get-snoc (y ∷ xs) x zero h = refl
get-snoc (y ∷ xs) x (suc m) h = get-snoc xs x m (omega arith)

module _ (h : Lfu) (v : IsOrdered h) (k : Bytes) (e : Entry)
    (cached : lookup bytes_discrete k h.items ≡ some e) (loose : e.heap_idx ≡ none) where
  abbrev pushed : Lfu
  pushed = record {
    slots = h.slots ++ k ∷ [];
    items = modify bytes_discrete k (set_heap_idx (some (length h.slots))) h.items;
  }

  length-pushed : length pushed.slots ≡ suc (length h.slots)
  length-pushed = omega (arith, length-append {0} h.slots (k ∷ []))

  unplaced : index_of h.items k ≡ none
  unfolding index_of
  unplaced = ap index cached ∙ loose

  index_pushed : index_of pushed.items k ≡ some (length h.slots)
  unfolding index_of
  index_pushed = ap index (
      lookup-modify_self bytes_discrete k (set_heap_idx (some (length h.slots))) h.items
      ∙ ap (Option.map (set_heap_idx (some (length h.slots)))) cached)

  pushed-IsLinked : IsLinked pushed
  pushed-IsLinked = record {
    there = λ m x at. elim (ℕ_discrete m (length h.slots)) [
      | yes same ↦
          let which : x ≡ k =
            some_inj.0 (sym at ∙ ap (get_elem? pushed.slots) same ∙ get_elem?-snoc h.slots k) in
          ap (index_of pushed.items) which ∙ index_pushed ∙ ap some (sym same)
      | no apart ↦
          let bound : m < length pushed.slots = lt_of_get_elem? pushed.slots m x at in
          let old : index_of h.items x ≡ some m =
            v.linked.there m x (sym (get-snoc h.slots k m (omega (arith, length-pushed))) ∙ at) in
          index-modify_ne k x (some (length h.slots)) h.items
            (λ same. absurd (cc (unplaced, ap (index_of h.items) same, old)))
          ∙ old
    ];
    back = λ m x at. elim (bytes_discrete x k) [
      | yes same ↦
          let which : m ≡ length h.slots =
            some_inj.0 (sym at ∙ ap (index_of pushed.items) same ∙ index_pushed) in
          ap (get_elem? pushed.slots) which ∙ get_elem?-snoc h.slots k ∙ ap some (sym same)
      | no apart ↦
          let old : get_elem? h.slots m ≡ some x =
            v.linked.back m x
              (sym (index-modify_ne k x (some (length h.slots)) h.items apart) ∙ at) in
          get-snoc h.slots k m (lt_of_get_elem? h.slots m x old) ∙ old
    ];
  }

  pushed-rank :
      (m : ℕ) (o : Option Bytes) → get_elem? pushed.slots m ≡ o → rank pushed m ≡ rank_or h.items o
  unfolding rank
  pushed-rank m none at = ap (rank_or pushed.items) at
  pushed-rank m (some x) at =
      ap (rank_or pushed.items) at
      ∙ rank_at-same pushed.items h.items x (modify-SameEntries k (some (length h.slots)) h.items)

  old_rank : (m : ℕ) → m < length h.slots → rank pushed m ≡ rank h m
  unfolding rank
  old_rank m lt = pushed-rank m (get_elem? h.slots m) (get-snoc h.slots k m lt)

  pushed-IsBroken : IsBroken (rank pushed) (length h.slots) (suc (length h.slots))
  pushed-IsBroken = record {
    edges = λ m p l apart free.
        Le-at (old_rank (parent m) (omega arith)) (old_rank m (omega arith))
          (v.heap m p (omega arith));
    across = λ m p l kid top. absurd (omega arith);
  }

  -- `heap.Push` puts an entry that is not in the heap among the others.
  pub push-IsOrdered :
      IsOrdered (push h k)
      × SameEntries (push h k).items h.items
      × Places h (push h k)
      × ((n : ℕ) × (index_of (push h k).items k ≡ some n))
  unfolding push
  push-IsOrdered =
      let (kept, heap) =
        up-Repairs (suc (length h.slots)) pushed (length h.slots) (suc (length h.slots))
          (omega arith) (omega arith) (omega (arith, length-pushed)) pushed-IsLinked pushed-IsBroken
          (λ m p l kid. absurd (omega arith)) in
      (
        record {
          linked = kept.linked;
          heap = λ m p l. heap m p (omega (arith, kept.size, length-pushed));
        },
        λ x. kept.same x ∙ modify-SameEntries k (some (length h.slots)) h.items x,
        λ x m at. kept.placed x m (
            index-modify_ne k x (some (length h.slots)) h.items
              (λ same. absurd (cc (unplaced, ap (index_of h.items) same, at)))
            ∙ at),
        kept.placed k (length h.slots) index_pushed,
      )
