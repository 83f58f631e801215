-- ===== src/Cache/Frequent.antt =====
-- LFU: every entry is in the heap, and what each step of the cache does to it.
pub mod Removal
pub mod Victim
pub mod Steps
pub mod Kept
use dnsproxy_router.Cache.{Cache, new, lfu_of, lfu}
use dnsproxy_router.Cache.Heap.{Entry, Items, Lfu, set_heap_idx, fix_at, push, pop_min, remove_at}
use dnsproxy_router.Cache.Heap.Ranks.{Le, Le-trans, Le-at, parent, IsHeap, IsBroken}
use dnsproxy_router.Cache.Heap.Links.{
  bare, index, rank_of, index_of, rank_at, rank_or, rank, SameEntries, IsLinked, rank_at-same,
}
use dnsproxy_router.Cache.Heap.Changes.{
  IsOrdered, Without, Places, pop_min-Without, remove_at-Without, fix_at-IsOrdered,
}
use mathlib.Core.Option
use mathlib.Core.Option.{some_inj}
use dnsproxy_router.Prelude.{
  ℕ, zero, suc, ◌+◌, ◌-◌, ◌/◌, ◌≡◌, ◌≢◌, ◌≤◌, ◌<◌, ◌⊎◌, inl, inr, refl, sym, ap, ◌∙◌, subst, Bool,
  true, false, Option, none, some, List, [], ◌∷◌, Bytes, bytes_discrete, ℕ_discrete, length,
  get_elem?, modify, remove, insert, lookup, arith, Option-cases, lt_of_get_elem?,
  lookup-modify_self, lookup-modify_ne, lookup-remove_self, lookup-remove_ne, lookup-insert_self,
  lookup-insert_ne,
}

-- Every cached entry is in the heap, which is in order.
pub record IsFrequent (c : Cache) : Type 0 where
  pub policy : c.cfg.eviction ≡ lfu
  pub ordered : IsOrdered (lfu_of c)
  pub placed :
      (k : Bytes) (e : Entry)
      → lookup bytes_discrete k c.items ≡ some e
      → (i : ℕ) × (index_of c.items k ≡ some i)

-- The other entries that the heap names keep what the order reads.
abbrev pub AgreesOn : Items → Items → Bytes → Type 0
AgreesOn a b x = (index_of a x ≡ index_of b x) × (rank_at a x ≡ rank_at b x)

-- The order of the heap reads the entries in the slots only.
module _ (slots : List Bytes) (old new : Items) (k : Bytes)
    (apart : (x : Bytes) → x ≢ k → AgreesOn new old x)
    (v : IsOrdered (record { slots = slots; items = old })) where
  rank_apart :
      (m : ℕ) (o : Option Bytes)
      → get_elem? slots m ≡ o
      → o ≢ some k
      → rank (record { slots = slots; items = new }) m
        ≡ rank (record { slots = slots; items = old }) m
  unfolding rank
  rank_apart m none at free = ap (rank_or new) at ∙ sym (ap (rank_or old) at)
  rank_apart m (some x) at free =
      ap (rank_or new) at ∙ (apart x (λ e. free (ap some e))).1 ∙ sym (ap (rank_or old) at)

  -- A key that is in no slot, before and after.
  pub IsOrdered-outside :
      index_of old k ≡ none
      → index_of new k ≡ none
      → IsOrdered (record { slots = slots; items = new })
  IsOrdered-outside before after =
      let free : (m : ℕ) → get_elem? slots m ≢ some k =
        λ m at. absurd (cc (v.linked.there m k at, before)) in
      record {
        linked = record {
          there = λ m x at. (apart x (λ e. free m (at ∙ ap some e))).0 ∙ v.linked.there m x at;
          back = λ m x at.
              let other : x ≢ k = λ e. absurd (cc (ap (index_of new) e, at, after)) in
              v.linked.back m x (sym (apart x other).0 ∙ at);
        };
        heap = λ m p l.
            Le-at (rank_apart (parent m) (get_elem? slots (parent m)) refl (free (parent m)))
              (rank_apart m (get_elem? slots m) refl (free m)) (v.heap m p l);
      }

  -- A key in the slot `i`, with another rank.
  pub IsBroken-inside :
      (i : ℕ)
      → index_of old k ≡ some i
      → index_of new k ≡ some i
      → IsLinked (record { slots = slots; items = new })
        × IsBroken (rank (record { slots = slots; items = new })) i (length slots)
  IsBroken-inside i before after =
      let free : (m : ℕ) → m ≢ i → get_elem? slots m ≢ some k =
        λ m other at. other (some_inj.0 (sym (v.linked.there m k at) ∙ before)) in
      let same : (x : Bytes) → index_of new x ≡ index_of old x = λ x. elim (bytes_discrete x k) [
        | yes e ↦ ap (index_of new) e ∙ after ∙ sym (ap (index_of old) e ∙ before)
        | no other ↦ (apart x other).0
      ] in
      (
        record {
          there = λ m x at. same x ∙ v.linked.there m x at;
          back = λ m x at. v.linked.back m x (sym (same x) ∙ at);
        },
        record {
          edges = λ m p l other over.
              Le-at (rank_apart (parent m) (get_elem? slots (parent m)) refl (free (parent m) over))
                (rank_apart m (get_elem? slots m) refl (free m other)) (v.heap m p l);
          across = λ m p l kid top.
              Le-at
                (rank_apart (parent i) (get_elem? slots (parent i)) refl
                  (free (parent i) (λ e. omega arith)))
                (rank_apart m (get_elem? slots m) refl (free m (λ e. omega arith)))
                (Le-trans _ (rank (record { slots = slots; items = old }) i) _
                  (v.heap i top (omega arith))
                  (subst
                    (λ x.
                      Le (rank (record { slots = slots; items = old }) x)
                        (rank (record { slots = slots; items = old }) m))
                    kid (v.heap m p l)));
        },
      )
