-- ===== src/Scheduler/Best.antt =====
-- The line that a round chooses for a provider.
use dnsproxy_router.Prelude.{
  ◌∙◌, ap, Any, ◌≤◌, ◌<◌, ◌≡◌, refl, ◌⊎◌, inl, inr, true, false, none, some, List, [], ◌∷◌, arith,
  All, Bool-cases,
}
use dnsproxy_router.Scheduler.{ProbeResult, better, pick_best_from, pick_best}

better-cases :
    (b r : ProbeResult)
    → b.ok ≡ true
    → ((better (some b) r ≡ some b) × ((r.ok ≡ false) ⊎ (b.rtt ≤ r.rtt)))
      ⊎ ((better (some b) r ≡ some r) × (r.ok ≡ true) × (r.rtt < b.rtt))
unfolding better
better-cases b r h = ground arith

-- `best` is what the loop should make of the best so far `b` and the results
abbrev IsBest : ProbeResult → ProbeResult → List ProbeResult → Type 0
IsBest best b results =
    (best.ok ≡ true)
    × ((best ≡ b) ⊎ Any (λ q. best ≡ q) results)
    × (best.rtt ≤ b.rtt)
    × All (λ q. (q.ok ≡ false) ⊎ (best.rtt ≤ q.rtt)) results

module _ (b r : ProbeResult) (results : List ProbeResult) (best : ProbeResult) where
  kept-IsBest :
      (r.ok ≡ false) ⊎ (b.rtt ≤ r.rtt) → IsBest best b results → IsBest best b (r ∷ results)
  kept-IsBest (inl bad) (ok, inl one, bound, all) = (ok, inl one, bound, (inl bad, all))
  kept-IsBest (inl bad) (ok, inr one, bound, all) = (ok, inr (inr one), bound, (inl bad, all))
  kept-IsBest (inr le) (ok, inl one, bound, all) = (ok, inl one, bound, (inr (omega arith), all))
  kept-IsBest (inr le) (ok, inr one, bound, all) =
      (ok, inr (inr one), bound, (inr (omega arith), all))

  changed-IsBest : r.rtt < b.rtt → IsBest best r results → IsBest best b (r ∷ results)
  changed-IsBest faster (ok, one, bound, all) = (ok, inr one, omega arith, (inr bound, all))

better-none : (r : ProbeResult) → r.ok ≡ true → better none r ≡ some r
unfolding better
better-none r h = ground arith

pick_best_from-IsBest :
    (b : ProbeResult) (results : List ProbeResult)
    → b.ok ≡ true
    → (best : ProbeResult) × (pick_best_from (some b) results ≡ some best) × IsBest best b results
unfolding pick_best_from
pick_best_from-IsBest b [] h = (b, refl, (h, inl refl, omega arith, tt))
pick_best_from-IsBest b (r ∷ results) h = elim (better-cases b r h) [
  | inl (eq, worse) ↦
      let (best, found, is) = pick_best_from-IsBest b results h in
      (best, ap (λ o. pick_best_from o results) eq ∙ found, kept-IsBest b r results best worse is)
  | inr (eq, good, faster) ↦
      let (best, found, is) = pick_best_from-IsBest r results good in
      (
        best,
        ap (λ o. pick_best_from o results) eq ∙ found,
        changed-IsBest b r results best faster is,
      )
]

-- `pickBest` finds nothing exactly if no result is usable; otherwise it returns a usable one of
-- the results, and no usable one was faster.
pub pick_best-fastest :
    (results : List ProbeResult)
    → ((pick_best results ≡ none) × All (λ r. r.ok ≡ false) results)
      ⊎ ((best : ProbeResult) × (pick_best results ≡ some best)
          × (best.ok ≡ true)
          × Any (λ r. best ≡ r) results
          × All (λ r. (r.ok ≡ false) ⊎ (best.rtt ≤ r.rtt)) results)
unfolding pick_best pick_best_from better
pick_best-fastest [] = inl (refl, tt)
pick_best-fastest (r ∷ results) = elim (Bool-cases r.ok) [
  | inl good ↦
      let (best, found, is) = pick_best_from-IsBest r results good in
      let (ok, one, bound, all) = is in
      inr (
        best,
        ap (λ o. pick_best_from o results) (better-none r good) ∙ found,
        ok,
        one,
        (inr bound, all),
      )
  | inr bad ↦ elim (pick_best-fastest results) [
    | inl (nothing, all) ↦ inl (rw (bad) nothing, (bad, all))
    | inr (best, found, ok, one, all) ↦ inr (best, rw (bad) found, ok, inr one, (inl bad, all))
  ]
]
