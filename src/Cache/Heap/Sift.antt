-- ===== src/Cache/Heap/Sift.antt =====
-- `up`, `down` and the two one after the other repair a heap with a broken edge.
use dnsproxy_router.Cache.Heap.{Bytes, Entry, Lfu, entry_at, entry_less, less, swap, up}
use dnsproxy_router.Cache.Heap.Ranks.{
  Le, parent, IsHeap, IsBroken, Below, whole, up-IsBroken, up-Below,
}
use dnsproxy_router.Cache.Heap.Links.{
  index_of, IsLinked, SameEntries, index_of, index, rank, rank_at,
}
use dnsproxy_router.Cache.Heap.Swaps.{Swapped, swap-Swapped}
use dnsproxy_router.Prelude.{
  ℕ, zero, suc, ◌≡◌, ◌≤◌, ◌<◌, ◌⊎◌, inl, inr, refl, sym, ap, ◌∙◌, subst, Bool, true, false, some,
  bytes_discrete, ℕ_discrete, lookup, get_elem?, length, get_elem?-some, Option-cases, Bool-cases,
  arith, not, if◌then◌else◌, ◌==◌, ◌||◌,
}

-- The entry in a slot, and its rank.
pub entry_of :
    (h : Lfu) (i : ℕ)
    → IsLinked h
    → i < length h.slots
    → (e : Entry) × (entry_at h i ≡ some e) × (rank h i ≡ (e.freq, e.seq))
unfolding entry_at rank rank_at index_of
entry_of h i v lt =
    let (k, hk) = get_elem?-some h.slots i lt in
    elim (Option-cases (lookup bytes_discrete k h.items)) [
      | inl bad ↦ absurd (cc (v.there i k hk, ap index bad))
      | inr (e, at) ↦ (e, rw (hk, at) refl, rw (hk, at) refl)
    ]

module _ (h : Lfu) (i j : ℕ) (v : IsLinked h) (a : i < length h.slots)
    (b : j < length h.slots) where
  pub less-Le : less h i j ≡ true → Le (rank h i) (rank h j)
  unfolding less entry_less
  less-Le yes_less =
      let (x, hx, rx) = entry_of h i v a in
      let (y, hy, ry) = entry_of h j v b in rw (rx, ry) (ground (arith, hx, hy, yes_less))

  pub not_less-Le : less h i j ≡ false → Le (rank h j) (rank h i)
  unfolding less entry_less
  not_less-Le not_less =
      let (x, hx, rx) = entry_of h i v a in
      let (y, hy, ry) = entry_of h j v b in rw (rx, ry) (ground (arith, hx, hy, not_less))

-- What sifting below `n` keeps.
pub record Kept (h s : Lfu) (n : ℕ) : Type 0 where
  pub linked : IsLinked s
  pub same : SameEntries s.items h.items
  pub size : length s.slots ≡ length h.slots
  pub beyond : (m : ℕ) → n ≤ m → get_elem? s.slots m ≡ get_elem? h.slots m
  pub placed :
      (x : Bytes) (m : ℕ) → index_of h.items x ≡ some m → (k : ℕ) × (index_of s.items x ≡ some k)

pub Kept-refl : (h : Lfu) (n : ℕ) → IsLinked h → Kept h h n
Kept-refl h n v = record {
  linked = v;
  same = λ k. refl;
  size = refl;
  beyond = λ m l. refl;
  placed = λ x m at. (m, at);
}

pub Kept-trans : (h s t : Lfu) (n : ℕ) → Kept h s n → Kept s t n → Kept h t n
Kept-trans h s t n a b = record {
  linked = b.linked;
  same = λ k. b.same k ∙ a.same k;
  size = b.size ∙ a.size;
  beyond = λ m l. b.beyond m l ∙ a.beyond m l;
  placed = λ x m at. let (k, there) = a.placed x m at in b.placed x k there;
}

pub swap-Kept : (h s : Lfu) (i j n : ℕ) → i < n → j < n → Swapped h s i j → Kept h s n
swap-Kept h s i j n a b w = record {
  linked = w.linked;
  same = w.same;
  size = w.size;
  beyond = λ m l. w.elsewhere m (λ e. omega arith) (λ e. omega arith);
  placed = w.placed;
}

-- `s` is `h` with a heap below `n`.
abbrev pub Repairs : Lfu → Lfu → ℕ → Type 0
Repairs h s n = Kept h s n × IsHeap (rank s) n

pub later : (h s t : Lfu) (n : ℕ) → Kept h s n → Repairs s t n → Repairs h t n
later h s t n a (b, c) = (Kept-trans h s t n a b, c)

pub if_true :
    {A : Type 0} (b c : Bool) (x y : A) → (b ≡ true) ⊎ (c ≡ true) → (if b || c then x else y) ≡ x
if_true b c x y h = ground arith

pub if_false :
    {A : Type 0} (b c : Bool) (x y : A) → b ≡ false → c ≡ false → (if b || c then x else y) ≡ y
if_false b c x y h k = ground arith

up_stops :
    (fuel : ℕ) (h : Lfu) (j : ℕ) → (j ≡ 0) ⊎ (less h j (parent j) ≡ false) → up (suc fuel) h j ≡ h
unfolding up
up_stops fuel h j (inl top) =
    if_true (parent j == j) (not (less h j (parent j))) h (up fuel (swap h (parent j) j) (parent j))
      (inl (ground (arith, top)))
up_stops fuel h j (inr stop) =
    if_true (parent j == j) (not (less h j (parent j))) h (up fuel (swap h (parent j) j) (parent j))
      (inr (ap not stop))

up_goes :
    (fuel : ℕ) (h : Lfu) (j : ℕ)
    → 0 < j
    → less h j (parent j) ≡ true
    → up (suc fuel) h j ≡ up fuel (swap h (parent j) j) (parent j)
unfolding up
up_goes fuel h j pos go =
    if_false (parent j == j) (not (less h j (parent j))) h
      (up fuel (swap h (parent j) j) (parent j)) (ground (arith, pos)) (ap not go)

pub up-Repairs :
    (fuel : ℕ) (h : Lfu) (j n : ℕ)
    → j < fuel
    → j < n
    → n ≤ length h.slots
    → IsLinked h
    → IsBroken (rank h) j n
    → Below (rank h) j n
    → Repairs h (up fuel h j) n
up-Repairs zero h j n f lt size v broken below = absurd (omega arith)
up-Repairs (suc fuel) h j n f lt size v broken below = elim (ℕ_discrete j 0) [
  | yes top ↦
      subst (λ s. Repairs h s n) (sym (up_stops fuel h j (inl top)))
        (Kept-refl h n v, whole (rank h) j n broken below (λ pos. absurd (omega arith)))
  | no deep ↦ elim (Bool-cases (less h j (parent j))) [
    | inr stop ↦
        subst (λ s. Repairs h s n) (sym (up_stops fuel h j (inr stop)))
          (
            Kept-refl h n v,
            whole (rank h) j n broken below
                (λ pos. not_less-Le h j (parent j) v (omega arith) (omega arith) stop),
          )
    | inl go ↦
        let w = swap-Swapped h (parent j) j v (omega arith) (omega arith) in
        let le = less-Le h j (parent j) v (omega arith) (omega arith) go in
        subst (λ s. Repairs h s n) (sym (up_goes fuel h j (omega arith) go))
          (later h (swap h (parent j) j) (up fuel (swap h (parent j) j) (parent j)) n
            (swap-Kept h (swap h (parent j) j) (parent j) j n (omega arith) lt w)
            (up-Repairs fuel (swap h (parent j) j) (parent j) n (omega arith) (omega arith)
              (omega (arith, w.size)) w.linked
              (up-IsBroken (rank h) (rank (swap h (parent j) j)) j n w.swaps broken (omega arith) lt
                le)
              (up-Below (rank h) (rank (swap h (parent j) j)) j n w.swaps broken (omega arith) lt
                le)))
  ]
]
