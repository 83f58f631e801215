-- ===== src/Cache/Heap/Ranks.antt =====
-- The order of a heap, on the frequencies and sequence numbers of its slots as a function of the
-- index: what a swap of two slots does to a heap in which one edge is broken.
use dnsproxy_router.Prelude.{
  ℕ, zero, suc, ◌-◌, ◌/◌, ◌≤◌, ◌<◌, ◌≡◌, ◌≢◌, ◌⊎◌, sym, ap, ◌∙◌, subst, ℕ_discrete, arith,
}

-- A frequency and a sequence number.
abbrev pub Rank : Type 0
Rank = ℕ × ℕ

abbrev pub Le : Rank → Rank → Type 0
Le a b = (a.0 < b.0) ⊎ ((a.0 ≡ b.0) × (a.1 ≤ b.1))

pub Le-trans : (a b c : Rank) → Le a b → Le b c → Le a c
Le-trans a b c h k = ground arith

pub Le-refl : (a : Rank) → Le a a
Le-refl a = ground arith

pub Le-at : {a b c d : Rank} → a ≡ c → b ≡ d → Le c d → Le a b
Le-at p q h = rw (p, q) h

abbrev pub parent : ℕ → ℕ
parent m = (m - 1) / 2

-- The edge above each slot but the first is in order, below `n`.
abbrev pub IsHeap : (ℕ → Rank) → ℕ → Type 0
IsHeap r n = (m : ℕ) → 0 < m → m < n → Le (r (parent m)) (r m)

-- All edges but those at `j` are in order, and the slots below `j` are with the one above it.
pub record IsBroken (r : ℕ → Rank) (j n : ℕ) : Type 0 where
  pub edges : (m : ℕ) → 0 < m → m < n → m ≢ j → parent m ≢ j → Le (r (parent m)) (r m)
  pub across : (m : ℕ) → 0 < m → m < n → parent m ≡ j → 0 < j → Le (r (parent j)) (r m)

-- The edges below `j` are in order too.
abbrev pub Below : (ℕ → Rank) → ℕ → ℕ → Type 0
Below r j n = (m : ℕ) → 0 < m → m < n → parent m ≡ j → Le (r j) (r m)

-- The edge above `j` is in order too.
abbrev pub Above : (ℕ → Rank) → ℕ → Type 0
Above r j = 0 < j → Le (r (parent j)) (r j)

pub whole : (r : ℕ → Rank) (j n : ℕ) → IsBroken r j n → Below r j n → Above r j → IsHeap r n
whole r j n v below above m pos lt = elim (ℕ_discrete m j) [
  | yes same ↦ subst (λ x. Le (r (parent x)) (r x)) (sym same) (above (omega arith))
  | no apart ↦ elim (ℕ_discrete (parent m) j) [
    | yes child ↦ subst (λ x. Le (r x) (r m)) (sym child) (below m pos lt child)
    | no free ↦ v.edges m pos lt apart free
  ]
]

-- The first slot of a heap is least.
root_under : (r : ℕ → Rank) (n : ℕ) → IsHeap r n → (fuel m : ℕ) → m < fuel → m < n → Le (r 0) (r m)
root_under r n v zero m h lt = absurd (omega arith)
root_under r n v (suc fuel) m h lt = elim (ℕ_discrete m 0) [
  | yes first ↦ subst (λ x. Le (r 0) (r x)) (sym first) (Le-refl (r 0))
  | no later ↦
      Le-trans (r 0) (r (parent m)) (r m)
        (root_under r n v fuel (parent m) (omega arith) (omega arith)) (v m (omega arith) lt)
]

pub root-Le : (r : ℕ → Rank) (n : ℕ) → IsHeap r n → (m : ℕ) → m < n → Le (r 0) (r m)
root-Le r n v m lt = root_under r n v (suc m) m (omega arith) lt

-- `s` is `r` with the slots `i` and `j` swapped.
pub record Swaps (r s : ℕ → Rank) (i j : ℕ) : Type 0 where
  pub at_left : s i ≡ r j
  pub at_right : s j ≡ r i
  pub elsewhere : (m : ℕ) → m ≢ i → m ≢ j → s m ≡ r m

-- A slot goes up: what was broken at `j`, with order below it, is broken at its parent.
module _ (r s : ℕ → Rank) (j n : ℕ) (sw : Swaps r s (parent j) j) (v : IsBroken r j n) (pos : 0 < j)
    (lt : j < n) (less : Le (r j) (r (parent j))) where
  -- a child of the parent, other than `j`
  sibling : (m : ℕ) → 0 < m → m < n → parent m ≡ parent j → m ≢ j → Le (r (parent j)) (r m)
  sibling m p l child other =
      subst (λ x. Le (r x) (r m)) child (v.edges m p l other (λ e. omega arith))

  pub up-IsBroken : IsBroken s (parent j) n
  up-IsBroken = record {
    edges = λ m p l apart free. elim (ℕ_discrete m j) [
      | yes same ↦ absurd (free (ap parent same))
      | no other ↦ elim (ℕ_discrete (parent m) j) [
        | yes child ↦
            Le-at (ap s child ∙ sw.at_right) (sw.elsewhere m apart other) (v.across m p l child pos)
        | no neither ↦
            Le-at (sw.elsewhere (parent m) free neither) (sw.elsewhere m apart other)
              (v.edges m p l other neither)
      ]
    ];
    across = λ m p l child top.
        let over : Le (r (parent (parent j))) (r (parent j)) =
          v.edges (parent j) top (omega arith) (λ e. omega arith) (λ e. omega arith) in
        let left : s (parent (parent j)) ≡ r (parent (parent j)) =
          sw.elsewhere (parent (parent j)) (λ e. omega arith) (λ e. omega arith) in
        elim (ℕ_discrete m j) [
          | yes same ↦ Le-at left (ap s same ∙ sw.at_right) over
          | no other ↦ Le-at left (sw.elsewhere m (λ e. omega arith) other) (
              Le-trans (r (parent (parent j))) (r (parent j)) (r m) over
                (sibling m p l child other))
        ];
  }

  pub up-Below : Below s (parent j) n
  up-Below m p l child = elim (ℕ_discrete m j) [
    | yes same ↦ Le-at sw.at_left (ap s same ∙ sw.at_right) less
    | no other ↦
        Le-at sw.at_left (sw.elsewhere m (λ e. omega arith) other)
          (Le-trans (r j) (r (parent j)) (r m) less (sibling m p l child other))
  ]

-- A slot goes down, to its lesser child: what was broken at `i` is broken at the child `j`, with
-- order above it.
module _ (r s : ℕ → Rank) (i j n : ℕ) (sw : Swaps r s i j) (v : IsBroken r i n) (pos : 0 < j)
    (lt : j < n) (child : parent j ≡ i) (less : Le (r j) (r i))
    (least : (m : ℕ) → 0 < m → m < n → parent m ≡ i → Le (r j) (r m)) where
  pub down-IsBroken : IsBroken s j n
  down-IsBroken = record {
    edges = λ m p l apart free. elim (ℕ_discrete m i) [
      | yes same ↦
          Le-at (sw.elsewhere (parent m) (λ e. omega arith) (λ e. omega arith))
            (ap s same ∙ sw.at_left)
            (subst (λ x. Le (r (parent x)) (r j)) (sym same)
              (v.across j pos lt child (omega arith)))
      | no other ↦ elim (ℕ_discrete (parent m) i) [
        | yes kid ↦ Le-at (ap s kid ∙ sw.at_left) (sw.elsewhere m other apart) (least m p l kid)
        | no neither ↦
            Le-at (sw.elsewhere (parent m) neither free) (sw.elsewhere m other apart)
              (v.edges m p l other neither)
      ]
    ];
    across = λ m p l kid top.
        Le-at (ap s child ∙ sw.at_left) (sw.elsewhere m (λ e. omega arith) (λ e. omega arith))
          (subst (λ x. Le (r x) (r m)) kid (v.edges m p l (λ e. omega arith) (λ e. omega arith)));
  }

  pub down-Above : Above s j
  down-Above top = Le-at (ap s child ∙ sw.at_left) sw.at_right less
