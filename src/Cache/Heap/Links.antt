-- ===== src/Cache/Heap/Links.antt =====
-- The slots of a heap and the indices in its entries point at each other, and a swap keeps it so.
use dnsproxy_router.Cache.Heap.{Entry, Items, Lfu, set_heap_idx}
use dnsproxy_router.Cache.Heap.Ranks.{Rank}
use mathlib.Core.Option
use mathlib.Core.Option.{some_inj}
use dnsproxy_router.Prelude.{
  ℕ, ◌≡◌, ◌≢◌, refl, sym, ap, ◌∙◌, subst, Option, none, some, Bytes, bytes_discrete, lookup, modify,
  get_elem?, lookup-modify_self, lookup-modify_ne,
}

-- An entry but for its index.
abbrev pub bare : Entry → Entry
bare e = record e { heap_idx = none }

abbrev pub index : Option Entry → Option ℕ
index none = none
index (some e) = e.heap_idx

abbrev pub rank_of : Option Entry → Rank
rank_of none = (0, 0)
rank_of (some e) = (e.freq, e.seq)

unfoldable pub index_of : Items → Bytes → Option ℕ
index_of items k = index (lookup bytes_discrete k items)

unfoldable pub rank_at : Items → Bytes → Rank
rank_at items k = rank_of (lookup bytes_discrete k items)

abbrev pub rank_or : Items → Option Bytes → Rank
rank_or items none = (0, 0)
rank_or items (some k) = rank_at items k

-- The frequency and the sequence number in a slot.
unfoldable pub rank : Lfu → ℕ → Rank
rank h i = rank_or h.items (get_elem? h.slots i)

-- The entries are the same but for their indices.
abbrev pub SameEntries : Items → Items → Type 0
SameEntries a b =
    (k : Bytes)
    → Option.map bare (lookup bytes_discrete k a) ≡ Option.map bare (lookup bytes_discrete k b)

pub record IsLinked (h : Lfu) : Type 0 where
  pub there : (i : ℕ) (k : Bytes) → get_elem? h.slots i ≡ some k → index_of h.items k ≡ some i
  pub back : (i : ℕ) (k : Bytes) → index_of h.items k ≡ some i → get_elem? h.slots i ≡ some k

rank_of-bare : (o : Option Entry) → rank_of (Option.map bare o) ≡ rank_of o
rank_of-bare none = refl
rank_of-bare (some e) = refl

pub rank_at-same : (a b : Items) (k : Bytes) → SameEntries a b → rank_at a k ≡ rank_at b k
unfolding rank_at
rank_at-same a b k h =
    sym (rank_of-bare (lookup bytes_discrete k a))
    ∙ ap rank_of (h k)
    ∙ rank_of-bare (lookup bytes_discrete k b)

bare_idx :
    (v : Option ℕ) (o : Option Entry)
    → Option.map bare (Option.map (set_heap_idx v) o) ≡ Option.map bare o
bare_idx v none = refl
bare_idx v (some e) = refl

-- Writing an index changes no more.
pub modify-SameEntries :
    (k : Bytes) (v : Option ℕ) (items : Items)
    → SameEntries (modify bytes_discrete k (set_heap_idx v) items) items
modify-SameEntries k v items x = elim (bytes_discrete x k) [
  | yes same ↦
      subst
        (λ y.
          Option.map bare (lookup bytes_discrete y (modify bytes_discrete k (set_heap_idx v) items))
          ≡ Option.map bare (lookup bytes_discrete y items))
        (sym same)
        (ap (Option.map bare) (lookup-modify_self bytes_discrete k (set_heap_idx v) items)
          ∙ bare_idx v (lookup bytes_discrete k items))
  | no apart ↦
      ap (Option.map bare) (lookup-modify_ne bytes_discrete k x (set_heap_idx v) items apart)
]

-- An entry that has an index gets the one that is written.
written :
    (v : Option ℕ) (o : Option Entry) (i : ℕ)
    → index o ≡ some i
    → index (Option.map (set_heap_idx v) o) ≡ v
written v none i h = cc
written v (some e) i h = refl

pub index-modify_self :
    (k : Bytes) (v : Option ℕ) (items : Items) (i : ℕ)
    → index_of items k ≡ some i
    → index_of (modify bytes_discrete k (set_heap_idx v) items) k ≡ v
unfolding index_of
index-modify_self k v items i h =
    ap index (lookup-modify_self bytes_discrete k (set_heap_idx v) items)
    ∙ written v (lookup bytes_discrete k items) i h

pub index-modify_ne :
    (k j : Bytes) (v : Option ℕ) (items : Items)
    → j ≢ k
    → index_of (modify bytes_discrete k (set_heap_idx v) items) j ≡ index_of items j
unfolding index_of
index-modify_ne k j v items h =
    ap index (lookup-modify_ne bytes_discrete k j (set_heap_idx v) items h)
