-- ===== src/Prelude/Assoc.antt =====
-- Dictionaries as association lists, read by the library's `lookup`. Go's map holds a key once;
-- `insert` replaces in place or appends, so a list built by these operations does so too.
use Prim.Native.Nat.{ℕ, ◌+◌}
use mathlib.Core.Path.{◌≡◌, refl}
use mathlib.Core.Logic.{◌≢◌, ite}
use mathlib.Core.List.{List, [], ◌∷◌, lookup, map}
use mathlib.Core.Option
use mathlib.Core.Option.{Option, none, some}
use native.Mathlib.Decide.{ℕ_discrete}
use native.Mathlib.Omega.{arith}

-- Texts are their bytes.
abbrev pub Bytes : Type 0
Bytes = List ℕ

unfoldable pub bytes_discrete : Discrete Bytes
bytes_discrete = hlevel ℕ_discrete

module _ {ℓ} {K V : Type ℓ} where
  abbrev pub keys : List (K × V) → List K
  keys = map (λ e. e.0)

  -- The sum of a measure over the values.
  abbrev pub total : (V → ℕ) → List (K × V) → ℕ
  total f [] = 0
  total f (e ∷ m) = f e.1 + total f m

module _ {ℓ} {K V : Type ℓ} (dec : Discrete K) where
  -- `m[k] = v`
  unfoldable pub insert : K → V → List (K × V) → List (K × V)
  insert k v [] = (k, v) ∷ []
  insert k v (e ∷ m) = ite (dec k e.0) ((k, v) ∷ m) (e ∷ insert k v m)

  -- `delete(m, k)`
  unfoldable pub remove : K → List (K × V) → List (K × V)
  remove k [] = []
  remove k (e ∷ m) = ite (dec k e.0) (remove k m) (e ∷ remove k m)

  -- A write through the pointer `m[k]`; nothing happens at a key that is not there.
  unfoldable pub modify : K → (V → V) → List (K × V) → List (K × V)
  modify k f [] = []
  modify k f (e ∷ m) = ite (dec k e.0) ((e.0, f e.1) ∷ modify k f m) (e ∷ modify k f m)

  pub lookup-insert_self : (k : K) (v : V) (m : List (K × V)) → lookup dec k (insert k v m) ≡ some v
  unfolding lookup insert
  lookup-insert_self k v [] = ground arith
  lookup-insert_self k v (e ∷ m) = ground (arith, lookup-insert_self k v m)

  pub lookup-insert_ne :
      (k j : K) (v : V) (m : List (K × V)) → j ≢ k → lookup dec j (insert k v m) ≡ lookup dec j m
  unfolding lookup insert
  lookup-insert_ne k j v [] h = ground arith
  lookup-insert_ne k j v (e ∷ m) h = ground (arith, lookup-insert_ne k j v m)

  pub lookup-remove_self : (k : K) (m : List (K × V)) → lookup dec k (remove k m) ≡ none
  unfolding lookup remove
  lookup-remove_self k [] = refl
  lookup-remove_self k (e ∷ m) = ground (arith, lookup-remove_self k m)

  pub lookup-remove_ne :
      (k j : K) (m : List (K × V)) → j ≢ k → lookup dec j (remove k m) ≡ lookup dec j m
  unfolding lookup remove
  lookup-remove_ne k j [] h = refl
  lookup-remove_ne k j (e ∷ m) h = ground (arith, lookup-remove_ne k j m)

  pub lookup-modify_self :
      (k : K) (f : V → V) (m : List (K × V))
      → lookup dec k (modify k f m) ≡ Option.map f (lookup dec k m)
  unfolding lookup modify
  lookup-modify_self k f [] = refl
  lookup-modify_self k f (e ∷ m) = ground (arith, lookup-modify_self k f m)

  pub lookup-modify_ne :
      (k j : K) (f : V → V) (m : List (K × V))
      → j ≢ k
      → lookup dec j (modify k f m) ≡ lookup dec j m
  unfolding lookup modify
  lookup-modify_ne k j f [] h = refl
  lookup-modify_ne k j f (e ∷ m) h = ground (arith, lookup-modify_ne k j f m)
