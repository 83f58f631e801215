-- ===== src/Breaker/History.antt =====
-- The breaker against an independent reading of the whole history of outcomes.
use dnsproxy_router.Prelude.{
  ap, subst, ℕ, suc, ◌<◌, ◌≤◌, ◌≡◌, refl, Bool, Option, none, some, List, [], ◌∷◌, arith, leb, ◌==◌,
  if◌then◌else◌, get_elem?, filterb, Bool-cases, inl, inr, ==_iff, get_elem?-replicate, ◌∙◌,
}
use dnsproxy_router.Prelude.Int.{ℤ}
use dnsproxy_router.Breaker.{Breaker, BreakerState, fresh, new_breaker, note, report}
use dnsproxy_router.Breaker.Outcomes.{report-config, report_self, report-other}

pub record Outcome : Type 0 where
  pub member : ℕ
  pub time : ℤ
  pub ok : Bool

-- The breaker after a history, newest outcome first.
unfoldable pub after : Breaker → List Outcome → Breaker
after b [] = b
after b (o ∷ os) = report (after b os) o.member o.time o.ok

pub after-more :
    (b : Breaker) (o : Outcome) (os : List Outcome)
    → after b (o ∷ os) ≡ report (after b os) o.member o.time o.ok
unfolding after
after-more b o os = refl

-- What happened to one member.
abbrev pub of_member : ℕ → List Outcome → List Outcome
of_member i = filterb (λ o. o.member == i)

-- The number of failures since the last success.
abbrev pub streak : List Outcome → ℕ
streak [] = 0
streak (o ∷ os) = if o.ok then 0 else suc (streak os)

abbrev pub latest : List Outcome → Option ℤ
latest [] = none
latest (o ∷ os) = some o.time

-- The state that a history calls for: the streak, and the time of the latest outcome if the streak
-- has reached the threshold.
abbrev pub summary : ℕ → List Outcome → BreakerState
summary threshold os = record {
  consecutive = streak os;
  opened_at = if leb threshold (streak os) then latest os else none;
}

pub after-config :
    (b : Breaker) (os : List Outcome)
    → ((after b os).fail_threshold ≡ b.fail_threshold) × ((after b os).cooldown ≡ b.cooldown)
unfolding after
after-config b [] = (refl, refl)
after-config b (o ∷ os) =
    ground (arith, after-config b os, report-config (after b os) o.member o.time o.ok)

-- One more outcome of the member, on the summary.
note-summary :
    (threshold : ℕ) (o : Outcome) (os : List Outcome)
    → 1 ≤ threshold
    → note threshold o.time o.ok (summary threshold os) ≡ summary threshold (o ∷ os)
unfolding note
note-summary threshold o os h = ground arith

-- After any history the breaker that `newBreaker` built holds for each member what the history
-- calls for: the number of failures since the last success, opened at the latest outcome exactly
-- when that number has reached the threshold.
pub after-summary :
    (n threshold : ℕ) (cooldown : ℤ) (os : List Outcome) (i : ℕ)
    → 1 ≤ threshold
    → i < n
    → get_elem? (after (new_breaker n threshold cooldown) os).states i
      ≡ some (summary threshold (of_member i os))
unfolding after new_breaker
after-summary n threshold cooldown [] i h lt = ground (arith, get_elem?-replicate n i fresh lt)
after-summary n threshold cooldown (o ∷ os) i h lt = elim (Bool-cases (o.member == i)) [
  | inl e ↦
      let same = (==_iff o.member i).0 e in
      rw e (
        subst
          (λ k.
            get_elem? (report b o.member o.time o.ok).states k
            ≡ some (summary threshold (o ∷ of_member i os)))
          same
          (report_self b o.member o.time o.ok (summary threshold (of_member i os))
              (rw same (after-summary n threshold cooldown os i h lt))
            ∙ ap some (
                rw (after-config (new_breaker n threshold cooldown) os).0
                  (note-summary threshold o (of_member i os) h))))
  | inr e ↦ rw e (
      report-other b o.member o.time o.ok i (λ p. ground arith)
      ∙ after-summary n threshold cooldown os i h lt)
]
  where
    b : Breaker
    b = after (new_breaker n threshold cooldown) os
