-- ===== src/Cache/Heap.antt =====
-- internal/cache/cache.go, lfuHeap, under the algorithms of Go's container/heap. A slot of the heap
-- names its entry by the key, the entry's own `heap_idx` points back. An index that is out of
-- range, which no caller passes, is never less and swaps nothing.
pub mod Ranks
pub mod Links
pub mod Swaps
pub mod Sift
pub mod Sink
pub mod Repair
pub mod Changes
pub mod Added
use dnsproxy_router.Prelude.{
  ℕ, zero, suc, ◌+◌, ◌-◌, ◌*◌, ◌/◌, Bool, false, not, ◌&&◌, ◌||◌, Option, none, some, List, [], ◌∷◌,
  ◌++◌, ltb, leb, ◌==◌, if◌then◌else◌, ◌>>=◌, get_elem?, set, length, lookup, Bytes, bytes_discrete,
  modify,
}
use dnsproxy_router.Prelude.Int.{ℤ}
use dnsproxy_router.Dns.{Msg}

pub record Entry : Type 0 where
  pub msg : Msg
  pub size : ℕ
  pub expire : ℤ
  pub stale_until : ℤ
  pub freq : ℕ
  pub seq : ℕ
  -- whether `elem` points to a node of the order list
  pub elem : Bool
  -- `none` is -1
  pub heap_idx : Option ℕ

abbrev pub Items : Type 0
Items = List (Bytes × Entry)

pub record Lfu : Type 0 where
  pub slots : List Bytes
  pub items : Items

abbrev pub set_heap_idx : Option ℕ → Entry → Entry
set_heap_idx i e = record e { heap_idx = i }

unfoldable pub entry_at : Lfu → ℕ → Option Entry
entry_at h i = do k ← get_elem? h.slots i; lookup bytes_discrete k h.items

unfoldable pub entry_less : Entry → Entry → Bool
entry_less a b = if not (a.freq == b.freq) then ltb a.freq b.freq else ltb a.seq b.seq

-- `Less`
unfoldable pub less : Lfu → ℕ → ℕ → Bool
unfolding entry_at entry_less
less h i j = elim (entry_at h i) [
  | none ↦ false
  | some a ↦ elim (entry_at h j) [ none ↦ false | some b ↦ entry_less a b ]
]

-- `Swap`
unfoldable pub swap : Lfu → ℕ → ℕ → Lfu
swap h i j = elim (get_elem? h.slots i) [
  | none ↦ h
  | some k ↦ elim (get_elem? h.slots j) [
    | none ↦ h
    | some l ↦ record {
      slots = set (set h.slots i l) j k;
      items =
          modify bytes_discrete k (set_heap_idx (some j))
            (modify bytes_discrete l (set_heap_idx (some i)) h.items);
    }
  ]
]

-- `up`, with fuel: the index falls in each round
unfoldable pub up : ℕ → Lfu → ℕ → Lfu
unfolding less swap
up zero h j = h
up (suc fuel) h j =
    let i = (j - 1) / 2 in
    let rest = up fuel (swap h i j) i in if i == j || not (less h j i) then h else rest

-- the child that `down` compares with: the lesser of the two
unfoldable pub child : Lfu → ℕ → ℕ → ℕ
unfolding less
child h i n = let j = 2 * i + 1 in if ltb (j + 1) n && less h (j + 1) j then j + 1 else j

-- `down`, with fuel: the index grows in each round; it returns where the element came to rest
unfoldable pub down : ℕ → Lfu → ℕ → ℕ → Lfu × ℕ
unfolding child less swap
down zero h i n = (h, i)
down (suc fuel) h i n =
    let j = child h i n in
    let rest = down fuel (swap h i j) j n in
    if leb n (2 * i + 1) || not (less h j i) then (h, i) else rest

-- `if !down(h, i, n) { up(h, i) }`
unfoldable pub settle : Lfu → ℕ → ℕ → Lfu
unfolding up down
settle h i n =
    let (h', at) = down (length h.slots) h i n in if ltb i at then h' else up (length h.slots) h' i

-- `heap.Fix`
unfoldable pub fix_at : Lfu → ℕ → Lfu
unfolding settle
fix_at h i = settle h i (length h.slots)

-- `Push` and `heap.Push`
unfoldable pub push : Lfu → Bytes → Lfu
unfolding up
push h k =
    let n = length h.slots in
    up (suc n)
      (record {
        slots = h.slots ++ k ∷ [];
        items = modify bytes_discrete k (set_heap_idx (some n)) h.items;
      })
      n

abbrev pub without_last {ℓ} : {A : Type ℓ} → List A → List A
without_last [] = []
without_last (x ∷ []) = []
without_last (x ∷ y ∷ xs) = x ∷ without_last (y ∷ xs)

-- `Pop`: the last slot goes, and its entry forgets its index
unfoldable pub drop_last : Lfu → Lfu × Option Bytes
drop_last h = elim (get_elem? h.slots (length h.slots - 1)) [
  | none ↦ (h, none)
  | some k ↦ (
    record {
      slots = without_last h.slots;
      items = modify bytes_discrete k (set_heap_idx none) h.items;
    },
    some k,
  )
]

-- `heap.Pop`
unfoldable pub pop_min : Lfu → Lfu × Option Bytes
unfolding down swap drop_last
pop_min h =
    let n = length h.slots - 1 in
    let (h', at) = down (length h.slots) (swap h 0 n) 0 n in drop_last h'

-- `heap.Remove`
unfoldable pub remove_at : Lfu → ℕ → Lfu × Option Bytes
unfolding settle swap drop_last
remove_at h i =
    let n = length h.slots - 1 in
    if n == i then drop_last h else drop_last (settle (swap h i n) i n)
