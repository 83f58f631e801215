-- ===== src/Scheduler/Signature.antt =====
-- The signature of a selection does not depend on the iteration order of a map.
use mathlib.Core.Bool.{Bool-set}
use mathlib.Core.Logic.Or
use mathlib.Core.List.{Mem, Perm, mem-cons_self, eq-or-mem_of_mem-cons, not-mem-nil}
use mathlib.Core.List.Perm
use dnsproxy_router.Prelude.{
  ◌≡◌, refl, sym, ap, subst, ◌∙◌, true, false, List, [], ◌∷◌, arith, Bytes,
}
use dnsproxy_router.Prelude.Sort.{SliceSort, IsStrictWeak, IsSorted, All-mem}
use dnsproxy_router.Scheduler.{bytes_less, write_pairs, select_signature}

bytes_less-asymmetric : (a b : Bytes) → bytes_less a b ≡ true → bytes_less b a ≡ false
unfolding bytes_less
bytes_less-asymmetric a [] h = absurd (ground arith)
bytes_less-asymmetric [] (y ∷ ys) h = refl
bytes_less-asymmetric (x ∷ xs) (y ∷ ys) h = ground (arith, bytes_less-asymmetric xs ys)

bytes_less-comparable :
    (a b c : Bytes) → bytes_less b a ≡ false → bytes_less c b ≡ false → bytes_less c a ≡ false
unfolding bytes_less
bytes_less-comparable [] b c h k = refl
bytes_less-comparable (x ∷ xs) [] c h k = absurd (ground arith)
bytes_less-comparable (x ∷ xs) (y ∷ ys) [] h k = absurd (ground arith)
bytes_less-comparable (x ∷ xs) (y ∷ ys) (z ∷ zs) h k =
    ground (arith, bytes_less-comparable xs ys zs)

-- Strings of which neither is less are equal.
bytes_less-total : (a b : Bytes) → bytes_less a b ≡ false → bytes_less b a ≡ false → a ≡ b
unfolding bytes_less
bytes_less-total [] [] h k = refl
bytes_less-total [] (y ∷ ys) h k = absurd (ground arith)
bytes_less-total (x ∷ xs) [] h k = absurd (ground arith)
bytes_less-total (x ∷ xs) (y ∷ ys) h k = ground (arith, bytes_less-total xs ys)

bytes_less-irreflexive : (a : Bytes) → bytes_less a a ≡ false
bytes_less-irreflexive a = ground (arith, bytes_less-asymmetric a a)

-- The head of a sorted list is least.
least :
    (a : Bytes) (l : List Bytes) (b : Bytes)
    → IsSorted bytes_less (a ∷ l)
    → Mem b (a ∷ l)
    → bytes_less b a ≡ false
least a l b s m =
    Or.elim (Bool-set _ _) (eq-or-mem_of_mem-cons m)
      (λ e. subst (λ c. bytes_less c a ≡ false) (sym e) (bytes_less-irreflexive a))
      (All-mem (λ y. bytes_less y a) false l s.0 b)

-- One order only sorts a list of strings.
sorted_unique :
    (xs ys : List Bytes) → IsSorted bytes_less xs → IsSorted bytes_less ys → Perm xs ys → xs ≡ ys
sorted_unique [] [] s t p = refl
sorted_unique [] (y ∷ ys) s t p = absurd (not-mem-nil ((Perm.mem_iff p).1 mem-cons_self))
sorted_unique (x ∷ xs) [] s t p = absurd (not-mem-nil ((Perm.mem_iff p).0 mem-cons_self))
sorted_unique (x ∷ xs) (y ∷ ys) s t p =
    let same : x ≡ y =
      bytes_less-total x y (least y ys x t ((Perm.mem_iff p).0 mem-cons_self))
        (least x xs y s ((Perm.mem_iff p).1 mem-cons_self)) in
    let rest : Perm xs ys = Perm.cons_inv (subst (λ z. Perm (x ∷ xs) (z ∷ ys)) (sym same) p) in
    ap (λ z. z ∷ xs) same ∙ ap (◌∷◌ y) (sorted_unique xs ys s.1 t.1 rest)

-- Whatever order the iteration over the map takes, the signature is the same.
pub select_signature-Perm :
    (slices : SliceSort Bytes) (names other : List Bytes) (sel_addr : List (Bytes × Bytes))
    → Perm names other
    → select_signature slices names sel_addr ≡ select_signature slices other sel_addr
unfolding select_signature
select_signature-Perm slices names other sel_addr p =
    ap (λ ns. write_pairs ns sel_addr)
      (sorted_unique (slices.sort bytes_less names) (slices.sort bytes_less other)
        (slices.sort-IsSorted bytes_less names weak) (slices.sort-IsSorted bytes_less other weak)
        (Perm.trans (slices.sort-perm bytes_less names)
          (Perm.trans p (Perm.symm (slices.sort-perm bytes_less other)))))
  where
    weak : IsStrictWeak bytes_less
    weak = record { asymmetric = bytes_less-asymmetric; comparable = bytes_less-comparable }
