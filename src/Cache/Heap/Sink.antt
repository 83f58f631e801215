-- ===== src/Cache/Heap/Sink.antt =====
-- `down`, and `down` with `up` after it, repair a heap with a broken edge.
use dnsproxy_router.Cache.Heap.{Lfu, less, swap, child, down}
use dnsproxy_router.Cache.Heap.Ranks.{
  Le, Le-trans, Le-refl, parent, IsBroken, Below, Above, whole, down-IsBroken, down-Above,
}
use dnsproxy_router.Cache.Heap.Links.{IsLinked, rank}
use dnsproxy_router.Cache.Heap.Swaps.{Swapped, swap-Swapped}
use dnsproxy_router.Cache.Heap.Sift.{
  less-Le, not_less-Le, Kept, Kept-refl, Repairs, later, swap-Kept, if_true, if_false,
}
use dnsproxy_router.Prelude.{
  ℕ, zero, suc, ◌+◌, ◌*◌, ◌≡◌, ◌≤◌, ◌<◌, ◌⊎◌, inl, inr, refl, sym, ap, subst, Bool, true, false,
  ℕ_discrete, length, Bool-cases, arith, ltb, leb, leb→le, not, if◌then◌else◌, ◌&&◌,
}

-- The child that `down` goes to: one below the slot, and none below it is less.
pub record IsLeast (h : Lfu) (i n j : ℕ) : Type 0 where
  pub within : j < n
  pub above : parent j ≡ i
  pub pos : 0 < j
  pub least : (m : ℕ) → 0 < m → m < n → parent m ≡ i → Le (rank h j) (rank h m)

if_and :
    {A : Type 0} (b c : Bool) (x y : A)
    → ((b ≡ true) × (c ≡ true) × ((if b && c then x else y) ≡ x))
      ⊎ (((b ≡ false) ⊎ (c ≡ false)) × ((if b && c then x else y) ≡ y))
if_and true true x y = inl (refl, refl, refl)
if_and true false x y = inr (inr refl, refl)
if_and false c x y = inr (inl refl, refl)

pub child-IsLeast :
    (h : Lfu) (i n : ℕ)
    → IsLinked h
    → n ≤ length h.slots
    → 2 * i + 1 < n
    → IsLeast h i n (child h i n)
unfolding child
child-IsLeast h i n v size lt =
    elim (if_and (ltb (2 * i + 1 + 1) n) (less h (2 * i + 1 + 1) (2 * i + 1)) (2 * i + 1 + 1)
      (2 * i + 1)) [
        | inl (b, c, e) ↦
            let two : 2 * i + 1 + 1 < n = ground (arith, b) in
            subst (IsLeast h i n) (sym e) (record {
              within = two;
              above = omega arith;
              pos = omega arith;
              least = λ m p l kid. elim (ℕ_discrete m (2 * i + 1)) [
                | yes same ↦
                    subst (λ x. Le (rank h (2 * i + 1 + 1)) (rank h x)) (sym same)
                      (less-Le h (2 * i + 1 + 1) (2 * i + 1) v (omega arith) (omega arith) c)
                | no right ↦
                    subst (λ x. Le (rank h (2 * i + 1 + 1)) (rank h x)) (omega arith)
                      (Le-refl (rank h (2 * i + 1 + 1)))
              ];
            })
        | inr (b, e) ↦ subst (IsLeast h i n) (sym e) (record {
          within = lt;
          above = omega arith;
          pos = omega arith;
          least = λ m p l kid. elim (ℕ_discrete m (2 * i + 1)) [
            | yes same ↦
                subst (λ x. Le (rank h (2 * i + 1)) (rank h x)) (sym same)
                  (Le-refl (rank h (2 * i + 1)))
            | no right ↦
                let at : 2 * i + 1 + 1 ≡ m = omega arith in
                subst (λ x. Le (rank h (2 * i + 1)) (rank h x)) at
                  (elim b [
                    | inl out ↦ absurd (ground (arith, out, at, l))
                    | inr not_less ↦
                        not_less-Le h (2 * i + 1 + 1) (2 * i + 1) v (omega (arith)) (omega arith)
                          not_less
                  ])
          ];
        })
      ]

down_stops :
    (fuel : ℕ) (h : Lfu) (i n : ℕ)
    → (n ≤ 2 * i + 1) ⊎ (less h (child h i n) i ≡ false)
    → down (suc fuel) h i n ≡ (h, i)
unfolding down
down_stops fuel h i n (inl out) =
    if_true (leb n (2 * i + 1)) (not (less h (child h i n) i)) (h, i)
      (down fuel (swap h i (child h i n)) (child h i n) n) (inl (ground (arith, out)))
down_stops fuel h i n (inr stop) =
    if_true (leb n (2 * i + 1)) (not (less h (child h i n) i)) (h, i)
      (down fuel (swap h i (child h i n)) (child h i n) n) (inr (ap not stop))

down_goes :
    (fuel : ℕ) (h : Lfu) (i n : ℕ)
    → 2 * i + 1 < n
    → less h (child h i n) i ≡ true
    → down (suc fuel) h i n ≡ down fuel (swap h i (child h i n)) (child h i n) n
unfolding down
down_goes fuel h i n inside go =
    if_false (leb n (2 * i + 1)) (not (less h (child h i n) i)) (h, i)
      (down fuel (swap h i (child h i n)) (child h i n) n) (ground (arith, inside)) (ap not go)

-- What `down` does first: it stops, with order below the slot, or it swaps with a least child.
pub stops :
    (h : Lfu) (i n : ℕ)
    → IsLinked h
    → n ≤ length h.slots
    → (n ≤ 2 * i + 1) ⊎ ((2 * i + 1 < n) × (less h (child h i n) i ≡ false))
    → Below (rank h) i n
stops h i n v size (inl out) m p l kid = absurd (omega arith)
stops h i n v size (inr (inside, stop)) m p l kid =
    let c = child-IsLeast h i n v size inside in
    Le-trans (rank h i) (rank h (child h i n)) (rank h m)
      (not_less-Le h (child h i n) i v (omega (arith, c.within)) (omega arith) stop)
      (c.least m p l kid)

pub cases_of_down :
    (fuel : ℕ) (h : Lfu) (i n : ℕ)
    → (((n ≤ 2 * i + 1) ⊎ ((2 * i + 1 < n) × (less h (child h i n) i ≡ false)))
        × (down (suc fuel) h i n ≡ (h, i)))
      ⊎ ((2 * i + 1 < n)
          × (less h (child h i n) i ≡ true)
          × (down (suc fuel) h i n ≡ down fuel (swap h i (child h i n)) (child h i n) n))
cases_of_down fuel h i n = elim (Bool-cases (leb n (2 * i + 1))) [
  | inl out ↦ let o = leb→le n (2 * i + 1) out in inl (inl o, down_stops fuel h i n (inl o))
  | inr inside ↦
      let lt : 2 * i + 1 < n = ground (arith, inside) in
      elim (Bool-cases (less h (child h i n) i)) [
        | inr stop ↦ inl (inr (lt, stop), down_stops fuel h i n (inr stop))
        | inl go ↦ inr (lt, go, down_goes fuel h i n lt go)
      ]
]

module _ (h : Lfu) (i n : ℕ) (v : IsLinked h) (size : n ≤ length h.slots)
    (broken : IsBroken (rank h) i n) (inside : 2 * i + 1 < n)
    (go : less h (child h i n) i ≡ true) where
  abbrev pub next_heap : Lfu
  next_heap = swap h i (child h i n)

  pub sinks_by : Swapped h next_heap i (child h i n)
  sinks_by =
      let c = child-IsLeast h i n v size inside in
      swap-Swapped h i (child h i n) v (omega arith) (omega (arith, c.within))

  pub sinks-IsBroken : IsBroken (rank next_heap) (child h i n) n
  sinks-IsBroken =
      let c = child-IsLeast h i n v size inside in
      let w = sinks_by in
      down-IsBroken (rank h) (rank next_heap) i (child h i n) n w.swaps broken c.pos c.within
        c.above (less-Le h (child h i n) i v (omega (arith, c.within)) (omega arith) go) c.least

  pub sinks-Above : Above (rank next_heap) (child h i n)
  sinks-Above =
      let c = child-IsLeast h i n v size inside in
      let w = sinks_by in
      down-Above (rank h) (rank next_heap) i (child h i n) n w.swaps broken c.pos c.within c.above
        (less-Le h (child h i n) i v (omega (arith, c.within)) (omega arith) go) c.least

  pub sinks-Kept : Kept h next_heap n
  sinks-Kept =
      let c = child-IsLeast h i n v size inside in
      swap-Kept h next_heap i (child h i n) n (omega arith) c.within sinks_by

  pub sinks_later : (i < child h i n) × (n ≤ length next_heap.slots)
  sinks_later =
      let c = child-IsLeast h i n v size inside in
      let w = sinks_by in (omega (arith, c.above, c.pos), omega (arith, w.size))

  pub sinks-IsLinked : IsLinked next_heap
  sinks-IsLinked = let w = sinks_by in w.linked

-- `down` from a slot that is in order with the one above it, with enough fuel.
pub down-Repairs :
    (fuel : ℕ) (h : Lfu) (i n : ℕ)
    → n ≤ fuel + i
    → n ≤ length h.slots
    → IsLinked h
    → IsBroken (rank h) i n
    → Above (rank h) i
    → Repairs h (down fuel h i n).0 n
unfolding down
down-Repairs zero h i n f size v broken above =
    (Kept-refl h n v, whole (rank h) i n broken (λ m p l kid. absurd (omega arith)) above)
down-Repairs (suc fuel) h i n f size v broken above = elim (cases_of_down fuel h i n) [
  | inl (why, e) ↦
      subst (λ s. Repairs h s.0 n) (sym e)
        (Kept-refl h n v, whole (rank h) i n broken (stops h i n v size why) above)
  | inr (inside, go, e) ↦
      let (further, fits) = sinks_later h i n v size broken inside go in
      subst (λ s. Repairs h s.0 n) (sym e)
        (later h (swap h i (child h i n)) (down fuel (swap h i (child h i n)) (child h i n) n).0 n
          (sinks-Kept h i n v size broken inside go)
          (down-Repairs fuel (swap h i (child h i n)) (child h i n) n (omega arith) fits
            (sinks-IsLinked h i n v size broken inside go)
            (sinks-IsBroken h i n v size broken inside go)
            (sinks-Above h i n v size broken inside go)))
]

-- The slot comes to rest where it is or further down.
pub down-stays :
    (fuel : ℕ) (h : Lfu) (i n : ℕ) → n ≤ length h.slots → IsLinked h → i ≤ (down fuel h i n).1
unfolding down
down-stays zero h i n size v = omega arith
down-stays (suc fuel) h i n size v = elim (cases_of_down fuel h i n) [
  | inl (why, e) ↦ subst (λ s. i ≤ s.1) (sym e) (omega arith)
  | inr (inside, go, e) ↦
      let c = child-IsLeast h i n v size inside in
      let w = swap-Swapped h i (child h i n) v (omega arith) (omega (arith, c.within)) in
      let rest : child h i n ≤ (down fuel (swap h i (child h i n)) (child h i n) n).1 =
        down-stays fuel (swap h i (child h i n)) (child h i n) n (omega (arith, w.size)) w.linked in
      subst (λ s. i ≤ s.1) (sym e) (omega (arith, c.above, c.pos, rest))
]
