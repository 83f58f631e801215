-- ===== src/Cache/Heap/Repair.antt =====
-- `down` with `up` after it, and the removal of the last slot.
use dnsproxy_router.Cache.Heap.{
  Lfu, set_heap_idx, swap, up, child, down, settle, without_last, drop_last,
}
use dnsproxy_router.Cache.Heap.Ranks.{IsBroken, Below}
use dnsproxy_router.Cache.Heap.Links.{
  IsLinked, SameEntries, index_of, rank, rank_or, rank_at-same, modify-SameEntries,
  index-modify_self, index-modify_ne,
}
use dnsproxy_router.Cache.Heap.Sift.{Repairs, later, up-Repairs}
use dnsproxy_router.Cache.Heap.Sink.{
  cases_of_down, stops, down-stays, down-Repairs, sinks_later, sinks-IsLinked, sinks-Kept,
  sinks-IsBroken, sinks-Above,
}
use mathlib.Core.Option.{some_inj}
use dnsproxy_router.Prelude.{
  ℕ, zero, suc, ◌+◌, ◌-◌, ◌≡◌, ◌≢◌, ◌≤◌, ◌<◌, ◌⊎◌, inl, inr, refl, sym, ap, ◌∙◌, subst, Bool, true,
  false, Option, none, some, List, [], ◌∷◌, Bytes, bytes_discrete, length, get_elem?, modify, arith,
  ltb, lt→ltb, if◌then◌else◌, lt_of_get_elem?,
}

pub if_one : {A : Type 0} (b : Bool) (x y : A) → b ≡ true → (if b then x else y) ≡ x
if_one b x y h = rw h refl

pub if_other : {A : Type 0} (b : Bool) (x y : A) → b ≡ false → (if b then x else y) ≡ y
if_other b x y h = rw h refl

-- Either `down` leaves the heap alone, and the slot is in order with those below it; or the slot sinks,
-- and the heap is repaired.
first_down :
    (fuel : ℕ) (h : Lfu) (i n : ℕ)
    → n ≤ fuel + i
    → n ≤ length h.slots
    → IsLinked h
    → IsBroken (rank h) i n
    → ((down fuel h i n ≡ (h, i)) × Below (rank h) i n)
      ⊎ ((i < (down fuel h i n).1) × Repairs h (down fuel h i n).0 n)
unfolding down
first_down zero h i n f size v broken = inl (refl, λ m p l kid. absurd (omega arith))
first_down (suc fuel) h i n f size v broken = elim (cases_of_down fuel h i n) [
  | inl (why, e) ↦ inl (e, stops h i n v size why)
  | inr (inside, go, e) ↦
      let (further, fits) = sinks_later h i n v size broken inside go in
      let linked = sinks-IsLinked h i n v size broken inside go in
      let rest : child h i n ≤ (down fuel (swap h i (child h i n)) (child h i n) n).1 =
        down-stays fuel (swap h i (child h i n)) (child h i n) n fits linked in
      inr (
        subst (λ s. i < s.1) (sym e) (omega (arith, further, rest)),
        subst (λ s. Repairs h s.0 n) (sym e)
            (later h (swap h i (child h i n)) (down fuel (swap h i (child h i n)) (child h i n) n).0
              n (sinks-Kept h i n v size broken inside go)
              (down-Repairs fuel (swap h i (child h i n)) (child h i n) n (omega (arith, further))
                fits linked (sinks-IsBroken h i n v size broken inside go)
                (sinks-Above h i n v size broken inside go))),
      )
]

-- `settle` repairs a heap that is broken at one slot.
pub settle-Repairs :
    (h : Lfu) (i n : ℕ)
    → i < n
    → n ≤ length h.slots
    → IsLinked h
    → IsBroken (rank h) i n
    → Repairs h (settle h i n) n
unfolding settle
settle-Repairs h i n lt size v broken =
    elim (first_down (length h.slots) h i n (omega arith) size v broken) [
      | inl (e, below) ↦
          let rises : settle h i n ≡ up (length h.slots) h i =
            ap (λ (d : Lfu × ℕ). if ltb i d.1 then d.0 else up (length h.slots) d.0 i) e
            ∙ if_other (ltb i i) h (up (length h.slots) h i) (ground arith) in
          subst (λ s. Repairs h s n) (sym rises)
            (up-Repairs (length h.slots) h i n (omega arith) lt size v broken below)
      | inr (sinks, repaired) ↦
          let sunk : settle h i n ≡ (down (length h.slots) h i n).0 =
            if_one (ltb i (down (length h.slots) h i n).1) (down (length h.slots) h i n).0
              (up (length h.slots) (down (length h.slots) h i n).0 i) (lt→ltb _ _ sinks) in
          subst (λ s. Repairs h s n) (sym sunk) repaired
    ]

get-without_last :
    {A : Type 0} (xs : List A) (m : ℕ)
    → suc m < length xs
    → get_elem? (without_last xs) m ≡ get_elem? xs m
get-without_last [] m h = absurd (omega arith)
get-without_last (x ∷ []) m h = absurd (omega arith)
get-without_last (x ∷ y ∷ xs) zero h = refl
get-without_last (x ∷ y ∷ xs) (suc m) h = get-without_last (y ∷ xs) m (omega arith)

length-without_last : {A : Type 0} (xs : List A) → length (without_last xs) ≡ length xs - 1
length-without_last [] = refl
length-without_last (x ∷ []) = refl
length-without_last (x ∷ y ∷ xs) = omega (arith, length-without_last (y ∷ xs))

-- The heap without its last slot, which held `k`.
pub record Dropped (h s : Lfu) (k : Bytes) : Type 0 where
  pub linked : IsLinked s
  pub same : SameEntries s.items h.items
  pub size : length s.slots ≡ length h.slots - 1
  pub kept : (m : ℕ) → suc m < length h.slots → get_elem? s.slots m ≡ get_elem? h.slots m
  pub ranks : (m : ℕ) → suc m < length h.slots → rank s m ≡ rank h m
  pub gone : index_of s.items k ≡ none
  pub others : (x : Bytes) → x ≢ k → index_of s.items x ≡ index_of h.items x

module _ (h : Lfu) (v : IsLinked h) (k : Bytes)
    (last : get_elem? h.slots (length h.slots - 1) ≡ some k) where
  abbrev dropped : Lfu
  dropped = record {
    slots = without_last h.slots;
    items = modify bytes_discrete k (set_heap_idx none) h.items;
  }

  drop_last-dropped : drop_last h ≡ (dropped, some k)
  unfolding drop_last
  drop_last-dropped = rw (drop_last, last) refl

  index_last : index_of h.items k ≡ some (length h.slots - 1)
  index_last = v.there (length h.slots - 1) k last

  dropped-there :
      (m : ℕ) (x : Bytes) → get_elem? dropped.slots m ≡ some x → index_of dropped.items x ≡ some m
  dropped-there m x at =
      let inside : suc m < length h.slots =
        omega (arith, lt_of_get_elem? dropped.slots m x at, length-without_last h.slots) in
      let old : index_of h.items x ≡ some m =
        v.there m x (sym (get-without_last h.slots m inside) ∙ at) in
      index-modify_ne k x none h.items (λ same.
        let e : m ≡ length h.slots - 1 =
          some_inj.0 (sym old ∙ ap (index_of h.items) same ∙ index_last) in
        absurd (omega arith))
      ∙ old

  dropped-back :
      (m : ℕ) (x : Bytes) → index_of dropped.items x ≡ some m → get_elem? dropped.slots m ≡ some x
  dropped-back m x at = elim (bytes_discrete x k) [
    | yes same ↦ absurd (
        cc (
          index-modify_self k none h.items (length h.slots - 1) index_last,
          ap (index_of dropped.items) same,
          at,
        ))
    | no apart ↦
        let old : get_elem? h.slots m ≡ some x =
          v.back m x (sym (index-modify_ne k x none h.items apart) ∙ at) in
        let bound : m < length h.slots = lt_of_get_elem? h.slots m x old in
        let below : m ≢ length h.slots - 1 =
          λ e. apart (some_inj.0 (sym old ∙ ap (get_elem? h.slots) e ∙ last)) in
        get-without_last h.slots m (omega arith) ∙ old
  ]

  dropped-rank :
      (m : ℕ) (o : Option Bytes)
      → get_elem? dropped.slots m ≡ o
      → rank dropped m ≡ rank_or h.items o
  unfolding rank
  dropped-rank m none e = ap (rank_or dropped.items) e
  dropped-rank m (some x) e =
      ap (rank_or dropped.items) e
      ∙ rank_at-same dropped.items h.items x (modify-SameEntries k none h.items)

  pub drop_last-Dropped : ((drop_last h).1 ≡ some k) × Dropped h (drop_last h).0 k
  unfolding rank
  drop_last-Dropped = (
    ap (λ r. r.1) drop_last-dropped,
    subst (λ r. Dropped h r.0 k) (sym drop_last-dropped)
        (record {
          linked = record { there = dropped-there; back = dropped-back };
          same = modify-SameEntries k none h.items;
          size = length-without_last h.slots;
          kept = get-without_last h.slots;
          ranks = λ m l. dropped-rank m (get_elem? h.slots m) (get-without_last h.slots m l);
          gone = index-modify_self k none h.items (length h.slots - 1) index_last;
          others = λ x apart. index-modify_ne k x none h.items apart;
        }),
  )
