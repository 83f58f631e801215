-- ===== src/Prelude/Totals.antt =====
-- Dictionaries with each key once: sums over their values, and their keys, under the operations.
use Prim.Native.Nat.{ℕ, ◌+◌, ◌<◌}
use mathlib.Core.Path.{◌≡◌, refl, sym}
use mathlib.Core.Bool.{Bool, true, false}
use mathlib.Core.Logic.{if_pos}
use mathlib.Core.List.{List, [], ◌∷◌, lookup}
use mathlib.Core.Option.{Option, none, some}
use native.Mathlib.Omega.{arith}
use dnsproxy_router.Prelude.Assoc.{insert, remove, modify, total, lookup-insert_ne}
use dnsproxy_router.Prelude.Lists.{length}

module _ {ℓ} {K V : Type ℓ} (dec : Discrete K) where
  abbrev pub has : K → List (K × V) → Bool
  has k m = elim (lookup dec k m) [ none ↦ false | some v ↦ true ]

  pub some_of_has :
      (k : K) (m : List (K × V)) → has k m ≡ true → (v : V) × (lookup dec k m ≡ some v)
  some_of_has k m h = found (lookup dec k m) refl
    where
      found : (o : Option V) → lookup dec k m ≡ o → (v : V) × (lookup dec k m ≡ some v)
      found none e = absurd (ground arith)
      found (some v) e = (v, e)

  pub lookup-head : (k : K) (v : V) (m : List (K × V)) → lookup dec k ((k, v) ∷ m) ≡ some v
  unfolding lookup
  lookup-head k v m = if_pos (dec k k) refl _ _

  -- Each key stands once.
  abbrev pub Distinct : List (K × V) → Type ℓ
  Distinct [] = Unit
  Distinct (e ∷ m) = (lookup dec e.0 m ≡ none) × Distinct m

  pub lookup-remove-none :
      (k j : K) (m : List (K × V)) → lookup dec j m ≡ none → lookup dec j (remove dec k m) ≡ none
  unfolding lookup remove
  lookup-remove-none k j [] h = refl
  lookup-remove-none k j (e ∷ m) h = ground (arith, lookup-remove-none k j m)

  pub lookup-modify-none :
      (k j : K) (g : V → V) (m : List (K × V))
      → lookup dec j m ≡ none
      → lookup dec j (modify dec k g m) ≡ none
  unfolding lookup modify
  lookup-modify-none k j g [] h = refl
  lookup-modify-none k j g (e ∷ m) h = ground (arith, lookup-modify-none k j g m)

  pub insert-Distinct :
      (k : K) (v : V) (m : List (K × V)) → Distinct m → Distinct (insert dec k v m)
  unfolding lookup insert
  insert-Distinct k v [] d = (refl, tt)
  insert-Distinct k v (e ∷ m) d = elim (dec k e.0) [
    | yes p ↦ ground arith
    | no p ↦
        ground (arith, insert-Distinct k v m d.1, lookup-insert_ne dec k e.0 v m (λ q. p (sym q)))
  ]

  pub remove-Distinct : (k : K) (m : List (K × V)) → Distinct m → Distinct (remove dec k m)
  unfolding remove
  remove-Distinct k [] d = tt
  remove-Distinct k (e ∷ m) d =
      ground (arith, remove-Distinct k m d.1, lookup-remove-none k e.0 m d.0)

  pub modify-Distinct :
      (k : K) (g : V → V) (m : List (K × V)) → Distinct m → Distinct (modify dec k g m)
  unfolding modify
  modify-Distinct k g [] d = tt
  modify-Distinct k g (e ∷ m) d =
      ground (arith, modify-Distinct k g m d.1, lookup-modify-none k e.0 g m d.0)

  remove_absent : (k : K) (m : List (K × V)) → lookup dec k m ≡ none → remove dec k m ≡ m
  unfolding lookup remove
  remove_absent k [] h = refl
  remove_absent k (e ∷ m) h = ground (arith, remove_absent k m)

  modify_absent :
      (k : K) (g : V → V) (m : List (K × V)) → lookup dec k m ≡ none → modify dec k g m ≡ m
  unfolding lookup modify
  modify_absent k g [] h = refl
  modify_absent k g (e ∷ m) h = ground (arith, modify_absent k g m)

  pub length-remove :
      (k : K) (v : V) (m : List (K × V))
      → lookup dec k m ≡ some v
      → length (remove dec k m) < length m
  unfolding lookup remove
  length-remove k v [] h = cc
  length-remove k v (e ∷ m) h = elim (dec k e.0) [
    | yes p ↦ ground (arith, length-remove_le k m)
    | no p ↦ ground (arith, length-remove k v m)
  ]
    where
      length-remove_le : (k : K) (m : List (K × V)) → length (remove dec k m) < length m + 1
      length-remove_le k [] = omega arith
      length-remove_le k (e ∷ m) = ground (arith, length-remove_le k m)

  module _ (f : V → ℕ) where
    pub total-insert :
        (k : K) (v : V) (m : List (K × V))
        → lookup dec k m ≡ none
        → total f (insert dec k v m) ≡ total f m + f v
    unfolding lookup insert
    total-insert k v [] h = omega arith
    total-insert k v (e ∷ m) h = ground (arith, total-insert k v m)

    pub total-remove :
        (k : K) (v : V) (m : List (K × V))
        → Distinct m
        → lookup dec k m ≡ some v
        → total f (remove dec k m) + f v ≡ total f m
    unfolding lookup remove
    total-remove k v [] d h = cc
    total-remove k v (e ∷ m) d h = ground (arith, total-remove k v m d.1, remove_absent e.0 m d.0)

    pub total-modify :
        (k : K) (v : V) (g : V → V) (m : List (K × V))
        → Distinct m
        → lookup dec k m ≡ some v
        → total f (modify dec k g m) + f v ≡ total f m + f (g v)
    unfolding lookup modify
    total-modify k v g [] d h = cc
    total-modify k v g (e ∷ m) d h =
        ground (arith, total-modify k v g m d.1, modify_absent e.0 g m d.0)

    pub total-modify_same :
        (k : K) (g : V → V) (m : List (K × V))
        → ((v : V) → f (g v) ≡ f v)
        → total f (modify dec k g m) ≡ total f m
    unfolding modify
    total-modify_same k g [] h = refl
    total-modify_same k g (e ∷ m) h = ground (arith, h e.1, total-modify_same k g m h)
