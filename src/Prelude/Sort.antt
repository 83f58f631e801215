-- ===== src/Prelude/Sort.antt =====
-- The contract of Go's `sort.Slice`, which leaves the order of equal elements open: whatever sort
-- is used, it rearranges the slice, and no element stands before one that is less. `by_insertion`
-- is one that meets it.
use mathlib.Core.Bool.{Bool-set}
use mathlib.Core.List.{Mem, Perm, not-mem-nil, eq-or-mem_of_mem-cons}
use mathlib.Core.List.Perm
use mathlib.Core.Logic.Or
use mathlib.Core.Bool.{Bool, true, false}
use mathlib.Core.List.{List, [], ◌∷◌}
use mathlib.Core.Path.{◌≡◌}
use native.Mathlib.Omega.{arith}
use dnsproxy_router.Prelude.Lists.{All}
use dnsproxy_router.Prelude.Tests.{if◌then◌else◌}

-- What `sort.Slice` asks of its `less`.
pub record IsStrictWeak {ℓ} {A : Type ℓ} (less : A → A → Bool) : Type ℓ where
  pub asymmetric : (a b : A) → less a b ≡ true → less b a ≡ false
  pub comparable : (a b c : A) → less b a ≡ false → less c b ≡ false → less c a ≡ false

abbrev pub IsSorted {ℓ} : {A : Type ℓ} → (A → A → Bool) → List A → Type 0
IsSorted less [] = Unit
IsSorted less (x ∷ xs) = All (λ y. less y x ≡ false) xs × IsSorted less xs

pub record SliceSort {ℓ} (A : Type ℓ) : Type ℓ where
  pub sort : (A → A → Bool) → List A → List A
  pub sort-perm : (less : A → A → Bool) (xs : List A) → Perm (sort less xs) xs
  pub sort-IsSorted :
      (less : A → A → Bool) (xs : List A) → IsStrictWeak less → IsSorted less (sort less xs)

module _ {ℓ} {A : Type ℓ} where
  pub All-mem :
      (p : A → Bool) (b : Bool) (xs : List A) → All (λ y. p y ≡ b) xs → (a : A) → Mem a xs → p a ≡ b
  All-mem p b [] h a m = absurd (not-mem-nil m)
  All-mem p b (x ∷ xs) h a m =
      Or.elim (Bool-set _ _) (eq-or-mem_of_mem-cons m) (λ e. rw e h.0) (All-mem p b xs h.1 a)

module _ {ℓ} {A : Type ℓ} (less : A → A → Bool) where
  unfoldable pub put_in : A → List A → List A
  put_in a [] = a ∷ []
  put_in a (x ∷ xs) = if less x a then x ∷ put_in a xs else a ∷ x ∷ xs

  unfoldable pub insertion_sort : List A → List A
  unfolding put_in
  insertion_sort [] = []
  insertion_sort (x ∷ xs) = put_in x (insertion_sort xs)

  put_in-perm : (a : A) (xs : List A) → Perm (put_in a xs) (a ∷ xs)
  unfolding put_in
  put_in-perm a [] = Perm.refl _
  put_in-perm a (x ∷ xs) = ground (
    arith,
    Perm.refl (a ∷ x ∷ xs),
    Perm.trans (Perm.cons x (put_in-perm a xs)) (Perm.swap a x xs),
  )

  pub insertion_sort-perm : (xs : List A) → Perm (insertion_sort xs) xs
  unfolding insertion_sort
  insertion_sort-perm [] = Perm.refl _
  insertion_sort-perm (x ∷ xs) =
      Perm.trans (put_in-perm x (insertion_sort xs)) (Perm.cons x (insertion_sort-perm xs))

  All-put_in :
      (a b : A) (xs : List A)
      → less a b ≡ false
      → All (λ y. less y b ≡ false) xs
      → All (λ y. less y b ≡ false) (put_in a xs)
  unfolding put_in
  All-put_in a b [] h all = (h, tt)
  All-put_in a b (x ∷ xs) h all = ground (arith, All-put_in a b xs h all.1)

  module _ (weak : IsStrictWeak less) where
    All-above :
        (a x : A) (xs : List A)
        → less x a ≡ false
        → All (λ y. less y x ≡ false) xs
        → All (λ y. less y a ≡ false) xs
    All-above a x [] h all = tt
    All-above a x (y ∷ ys) h all = (weak.comparable a x y h all.0, All-above a x ys h all.1)

    put_in-IsSorted : (a : A) (xs : List A) → IsSorted less xs → IsSorted less (put_in a xs)
    unfolding put_in
    put_in-IsSorted a [] s = (tt, tt)
    put_in-IsSorted a (x ∷ xs) s =
        ground (
          arith,
          All-put_in a x xs,
          weak.asymmetric x a,
          put_in-IsSorted a xs s.1,
          All-above a x xs,
        )

    pub insertion_sort-IsSorted : (xs : List A) → IsSorted less (insertion_sort xs)
    unfolding insertion_sort
    insertion_sort-IsSorted [] = tt
    insertion_sort-IsSorted (x ∷ xs) =
        put_in-IsSorted x (insertion_sort xs) (insertion_sort-IsSorted xs)

unfoldable pub by_insertion {ℓ} : {A : Type ℓ} → SliceSort A
unfolding insertion_sort
by_insertion = record {
  sort = insertion_sort;
  sort-perm = insertion_sort-perm;
  sort-IsSorted = λ less xs weak. insertion_sort-IsSorted less weak xs;
}
