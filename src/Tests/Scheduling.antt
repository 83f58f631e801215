-- ===== src/Tests/Scheduling.antt =====
-- The breaker, the probes and the address families on concrete inputs.
use mathlib.Core.List.Perm
use dnsproxy_router.Prelude.{
  ℕ, ◌≡◌, ◌<◌, ◌≤◌, ◌⊎◌, Bool, true, false, none, some, List, [], ◌∷◌, arith, get_elem?, Any, All,
  ◌*◌, Bytes,
}
use dnsproxy_router.Prelude.Int.{pos, ◌+ℤ◌}
use dnsproxy_router.Breaker.{new_breaker, pick}
use dnsproxy_router.Breaker.History.{Outcome, after, after-summary}
use dnsproxy_router.Breaker.Candidates.{pick-after}
use dnsproxy_router.Scheduler.{ProbeResult, pick_best, Attempt, select_signature}
use dnsproxy_router.Scheduler.Best.{pick_best-fastest}
use dnsproxy_router.Prelude.Sort.{by_insertion}
use dnsproxy_router.Scheduler.Signature.{select_signature-Perm}
use dnsproxy_router.Afp.{Measured, Tally, choose, ipv4, ipv6}
use dnsproxy_router.Afp.Choice.{choose-lower_average}

-- Member 0 of three has failed twice, at 3 and at 5; member 1 once.
abbrev failures : List Outcome
failures =
    record { member = 0; time = pos 5; ok = false }
    ∷ record { member = 1; time = pos 4; ok = false }
    ∷ record { member = 0; time = pos 3; ok = false }
    ∷ []

pick-after_example : pick (after (new_breaker 3 2 (pos 10)) failures) 3 (pos 12) ≡ some (1 ∷ 2 ∷ [])
unfolding ◌+ℤ◌
pick-after_example = pick-after 3 2 (pos 10) failures (pos 12) (omega arith)

after-summary_example :
    get_elem? (after (new_breaker 3 2 (pos 10)) failures).states 0
    ≡ some (record { consecutive = 2; opened_at = some (pos 5) })
after-summary_example = after-summary 3 2 (pos 10) failures 0 (omega arith) (omega arith)

abbrev probed : Bool → ℕ → ProbeResult
probed ok rtt = record { mode = []; addr = []; upstream = some 0; rtt = rtt; ok = ok; fresh = true }

abbrev lines : List ProbeResult
lines = probed true 30 ∷ probed false 0 ∷ probed true 20 ∷ []

pick_best-fastest_example :
    ((pick_best lines ≡ none) × All (λ r. r.ok ≡ false) lines)
    ⊎ ((best : ProbeResult) × (pick_best lines ≡ some best)
        × (best.ok ≡ true)
        × Any (λ r. best ≡ r) lines
        × All (λ r. (r.ok ≡ false) ⊎ (best.rtt ≤ r.rtt)) lines)
pick_best-fastest_example = pick_best-fastest lines

-- Three exchanges, of which the second fails with the error 9.
abbrev attempts : List (Attempt ℕ)
attempts =
    record { elapsed = 30; err = none }
    ∷ record { elapsed = 5; err = some 9 }
    ∷ record { elapsed = 10; err = none }
    ∷ []

abbrev chosen : List (Bytes × Bytes)
chosen = (b'x' ∷ [], b'1' ∷ []) ∷ (b'a' ∷ [], b'2' ∷ []) ∷ []

select_signature-Perm_example :
    select_signature by_insertion ((b'x' ∷ []) ∷ (b'a' ∷ []) ∷ []) chosen
    ≡ select_signature by_insertion ((b'a' ∷ []) ∷ (b'x' ∷ []) ∷ []) chosen
select_signature-Perm_example =
    select_signature-Perm by_insertion ((b'x' ∷ []) ∷ (b'a' ∷ []) ∷ [])
      ((b'a' ∷ []) ∷ (b'x' ∷ []) ∷ []) chosen (Perm.swap (b'a' ∷ []) (b'x' ∷ []) [])

abbrev counts : Tally
counts = record { v4_count = 2; v4_total = 50; v6_count = 1; v6_total = 20 }

choose-lower_average_example :
    ((counts.v4_count ≡ 0) × (counts.v6_count ≡ 0) × (choose ipv4 counts ≡ ipv4))
    ⊎ ((choose ipv4 counts ≡ ipv4)
        × (0 < counts.v4_count)
        × ((counts.v6_count ≡ 0)
            ⊎ (counts.v4_total * counts.v6_count ≤ counts.v6_total * counts.v4_count)))
    ⊎ ((choose ipv4 counts ≡ ipv6)
        × (0 < counts.v6_count)
        × ((counts.v4_count ≡ 0)
            ⊎ (counts.v6_total * counts.v4_count < counts.v4_total * counts.v6_count)))
choose-lower_average_example = choose-lower_average ipv4 counts

abbrev fast6 : Measured
fast6 = record { is6 = true; rtt = some 20 }

abbrev slow4 : Measured
slow4 = record { is6 = false; rtt = some 40 }
