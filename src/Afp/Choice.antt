-- ===== src/Afp/Choice.antt =====
-- The preferred family, and what the selector makes of it.
use mathlib.Core.List.{Perm, Permᴰ}
use mathlib.Core.Bool.{Bool-set}
use mathlib.Core.Logic.{∥∥₁_elim}
use dnsproxy_router.Prelude.{
  ℕ, suc, ◌*◌, ◌≤◌, ◌<◌, ◌≡◌, refl, ap, ◌∙◌, ◌⊎◌, Bool, true, false, Option, none, some, List,
  arith,
}
use dnsproxy_router.Afp.{
  no_tally, count, Family, ipv4, ipv6, Measured, Tally, tally_one, tally, choose, probe,
}

-- The choice is the family with the lower average time; IPv4 on a tie; a family without a
-- measurement loses; without any measurement the preference stays.
pub choose-lower_average :
    (current : Family) (t : Tally)
    → ((t.v4_count ≡ 0) × (t.v6_count ≡ 0) × (choose current t ≡ current))
      ⊎ ((choose current t ≡ ipv4)
          × (0 < t.v4_count)
          × ((t.v6_count ≡ 0) ⊎ (t.v4_total * t.v6_count ≤ t.v6_total * t.v4_count)))
      ⊎ ((choose current t ≡ ipv6)
          × (0 < t.v6_count)
          × ((t.v4_count ≡ 0) ⊎ (t.v6_total * t.v4_count < t.v4_total * t.v6_count)))
unfolding choose
choose-lower_average current t = ground arith

count-swap : (x y : Bool) (m n : ℕ) (t : Tally) → count x m (count y n t) ≡ count y n (count x m t)
unfolding count
count-swap true true m n t =
    ap (λ s. record t { v6_count = suc (suc t.v6_count); v6_total = s }) (omega arith)
count-swap true false m n t = refl
count-swap false true m n t = refl
count-swap false false m n t =
    ap (λ s. record t { v4_count = suc (suc t.v4_count); v4_total = s }) (omega arith)

tally_one-swap :
    (a b : Measured) (t : Tally) → tally_one a (tally_one b t) ≡ tally_one b (tally_one a t)
unfolding tally_one
tally_one-swap a b t = by_rtt a.rtt b.rtt
  where
    step : Option ℕ → Bool → Tally → Tally
    step o is6 t = elim o [ none ↦ t | some rtt ↦ count is6 rtt t ]

    by_rtt : (x y : Option ℕ) → step x a.is6 (step y b.is6 t) ≡ step y b.is6 (step x a.is6 t)
    by_rtt none y = refl
    by_rtt (some m) none = refl
    by_rtt (some m) (some n) = count-swap a.is6 b.is6 m n t

-- The order in which the goroutines count their measurements does not matter.
tally-Permᴰ : {xs ys : List Measured} → Permᴰ xs ys → (t : Tally) → tally xs t ≡ tally ys t
unfolding tally
tally-Permᴰ Permᴰ.nil t = refl
tally-Permᴰ (Permᴰ.cons {b = b} {l₁ = xs} eq p) t =
    ap (λ m. tally xs (tally_one m t)) eq ∙ tally-Permᴰ p (tally_one b t)
tally-Permᴰ (Permᴰ.swap {b = b} {a' = c} {b' = d} {l = xs} e f) t = ap (tally xs) (
    ap (λ m. tally_one b (tally_one m t)) e
    ∙ ap (λ m. tally_one m (tally_one d t)) f
    ∙ tally_one-swap c d t)
tally-Permᴰ (Permᴰ.trans p q) t = tally-Permᴰ p t ∙ tally-Permᴰ q t

-- The preference that a round of probing arrives at does not depend on the order in which its
-- measurements are counted.
pub probe-Perm :
    (current : Family) (xs ys : List Measured) → Perm xs ys → probe current xs ≡ probe current ys
unfolding probe
probe-Perm current xs ys p =
    ∥∥₁_elim p (Bool-set _ _) (λ d. ap (choose current) (tally-Permᴰ d no_tally))
