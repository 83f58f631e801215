-- ===== src/Cache/Order.antt =====
-- FIFO and LRU: the order list holds each cached key once, and the entries are linked to it.
use dnsproxy_router.Prelude.{
  ◌⊎◌, if_pos, ◌-◌, ◌≡◌, refl, sym, ap, ◌∙◌, ◌≢◌, Bool, true, false, ◌||◌, none, some, List, [],
  ◌∷◌, ◌++◌, arith, lookup, Bytes, bytes_discrete, remove, ite, lookup-remove_self,
  lookup-remove_ne, if_neg,
}
use dnsproxy_router.Prelude.Totals.{has}
use dnsproxy_router.Cache.Heap.{Entry}
use dnsproxy_router.Cache.Count.{IsCounted}
use dnsproxy_router.Cache.{lru, fifo, Policy, Cache, drop_key}

abbrev pub member : Bytes → List Bytes → Bool
member k [] = false
member k (j ∷ js) = ite (bytes_discrete k j) true (member k js)

abbrev pub Once : List Bytes → Type 0
Once [] = Unit
Once (k ∷ ks) = (member k ks ≡ false) × Once ks

abbrev pub IsLinearPolicy : Policy → Type 0
IsLinearPolicy p = (p ≡ fifo) ⊎ (p ≡ lru)

pub record IsLinear (c : Cache) : Type 0 where
  pub policy : IsLinearPolicy c.cfg.eviction
  pub valid : IsCounted c
  pub listed : (k : Bytes) → member k c.order ≡ has bytes_discrete k c.items
  pub linked :
      (k : Bytes) (e : Entry)
      → lookup bytes_discrete k c.items ≡ some e
      → (e.elem ≡ true) × (e.heap_idx ≡ none)
  pub once : Once c.order

pub member-append :
    (k : Bytes) (xs ys : List Bytes) → member k (xs ++ ys) ≡ (member k xs || member k ys)
member-append k [] ys = refl
member-append k (x ∷ xs) ys = ground (arith, member-append k xs ys)

pub member-head : (k : Bytes) (ks : List Bytes) → member k (k ∷ ks) ≡ true
member-head k ks = if_pos (bytes_discrete k k) refl true (member k ks)

pub drop_key_self : (k : Bytes) (ks : List Bytes) → drop_key k (k ∷ ks) ≡ drop_key k ks
unfolding drop_key
drop_key_self k ks = if_pos (bytes_discrete k k) refl _ _

pub member-drop_key_self : (k : Bytes) (ks : List Bytes) → member k (drop_key k ks) ≡ false
unfolding drop_key
member-drop_key_self k [] = refl
member-drop_key_self k (j ∷ js) = ground (arith, member-drop_key_self k js)

pub member-drop_key_ne :
    (k i : Bytes) (ks : List Bytes) → i ≢ k → member i (drop_key k ks) ≡ member i ks
unfolding drop_key
member-drop_key_ne k i [] h = refl
member-drop_key_ne k i (j ∷ js) h = ground (arith, member-drop_key_ne k i js)

pub drop_key_absent : (k : Bytes) (ks : List Bytes) → member k ks ≡ false → drop_key k ks ≡ ks
unfolding drop_key
drop_key_absent k [] h = refl
drop_key_absent k (j ∷ js) h = ground (arith, drop_key_absent k js)

member-drop_key-false :
    (k i : Bytes) (ks : List Bytes) → member i ks ≡ false → member i (drop_key k ks) ≡ false
unfolding drop_key
member-drop_key-false k i [] h = refl
member-drop_key-false k i (j ∷ js) h = ground (arith, member-drop_key-false k i js)

pub drop_key-Once : (k : Bytes) (ks : List Bytes) → Once ks → Once (drop_key k ks)
unfolding drop_key
drop_key-Once k [] h = tt
drop_key-Once k (j ∷ js) h =
    ground (arith, drop_key-Once k js h.1, member-drop_key-false k j js h.0)

pub snoc-Once : (k : Bytes) (ks : List Bytes) → member k ks ≡ false → Once ks → Once (ks ++ k ∷ [])
snoc-Once k [] a h = (refl, tt)
snoc-Once k (j ∷ js) a h = elim (bytes_discrete k j) [
  | yes p ↦ absurd (ground arith)
  | no p ↦ (
    member-append j js (k ∷ []) ∙ rw (h.0, if_neg (bytes_discrete j k) (λ q. p (sym q))),
    snoc-Once k js (ground arith) h.1,
  )
]

-- What taking an entry off does.
abbrev pub without : Cache → Bytes → Entry → Cache
without c k e = record c {
  items = remove bytes_discrete k c.items;
  total = c.total - e.size;
  order = drop_key k c.order;
}

pub without-IsLinear :
    (c : Cache) (k : Bytes) (e : Entry)
    → IsCounted (without c k e)
    → IsLinear c
    → IsLinear (without c k e)
without-IsLinear c k e valid v = record {
  policy = v.policy;
  valid = valid;
  listed = λ j. elim (bytes_discrete j k) [
    | yes p ↦
        rw (p, member-drop_key_self k c.order)
          (ground (arith, lookup-remove_self bytes_discrete k c.items))
    | no p ↦ ground (
      arith,
      member-drop_key_ne k j c.order p,
      v.listed j,
      lookup-remove_ne bytes_discrete k j c.items p,
    )
  ];
  linked = λ j d h. elim (bytes_discrete j k) [
    | yes p ↦ absurd (
        ground (
          arith,
          lookup-remove_self bytes_discrete k c.items,
          ap (λ i. lookup bytes_discrete i (remove bytes_discrete k c.items)) p,
        ))
    | no p ↦ v.linked j d (sym (lookup-remove_ne bytes_discrete k j c.items p) ∙ h)
  ];
  once = drop_key-Once k c.order v.once;
}
