-- ===== src/Scheduler/Round/Origin.antt =====
-- Where the upstreams of a round come from: each is live already, or made in the round.
use dnsproxy_router.Scheduler.Round.{Probe, line_key, existing, probe_provider}
use mathlib.Core.Option.{some_inj}
use dnsproxy_router.Prelude.{
  ℕ, suc, ◌≤◌, ◌<◌, ◌≡◌, ◌⊎◌, inl, inr, refl, sym, ap, ◌∙◌, true, false, Option, some, List, [],
  ◌∷◌, Bytes, bytes_discrete, lookup, All, arith, Option-cases, Bool-cases,
}
use dnsproxy_router.Scheduler.{ProbeResult}

abbrev pub Live : Type 0
Live = List (Bytes × Option ℕ)

abbrev pub Holds : Live → Bytes → ℕ → Type 0
Holds live key u = lookup bytes_discrete key live ≡ some (some u)

-- The upstream of a result is live under the result's key, or one of those from `lo` to `hi`.
abbrev pub IsFrom : Live → ℕ → ℕ → Bytes → ProbeResult → Type 0
IsFrom live lo hi name r =
    (u : ℕ)
    → r.upstream ≡ some u
    → ((r.fresh ≡ false) × Holds live (line_key name r.addr) u)
      ⊎ ((r.fresh ≡ true) × (lo ≤ u) × (u < hi))

existing-live : (live : Live) (key : Bytes) (u : ℕ) → existing live key ≡ some u → Holds live key u
unfolding existing
existing-live live key u h = elim (Option-cases (lookup bytes_discrete key live)) [
  | inl e ↦ absurd (ground (arith, e))
  | inr (v, e) ↦ e ∙ ap some (sym (value e) ∙ h)
]
  where
    value : {v : Option ℕ} → lookup bytes_discrete key live ≡ some v → existing live key ≡ v
    value {v} e = rw (existing, e) refl

IsFrom-later :
    (live : Live) (next hi : ℕ) (name : Bytes) (results : List ProbeResult)
    → All (IsFrom live (suc next) hi name) results
    → All (IsFrom live next hi name) results
IsFrom-later live next hi name [] h = tt
IsFrom-later live next hi name (r ∷ rs) h = (
  λ u e. elim (h.0 u e) [ inl a ↦ inl a | inr (f, a, b) ↦ inr (f, omega arith, b) ],
  IsFrom-later live next hi name rs h.1,
)

pub probe_provider-IsFrom :
    (live : Live) (next : ℕ) (name : Bytes) (probes : List Probe)
    → (next ≤ (probe_provider live next name probes).1)
      × All
          (IsFrom live next (probe_provider live next name probes).1 name)
          (probe_provider live next name probes).0
unfolding probe_provider
probe_provider-IsFrom live next name [] = (omega arith, tt)
probe_provider-IsFrom live next name (p ∷ probes) =
    let (up, made) = probe_provider-IsFrom live (suc next) name probes in
    let (same, rest) = probe_provider-IsFrom live next name probes in
    elim (Option-cases (existing live (line_key name p.addr))) [
      | inr (u, h) ↦
          rw (h, probe_provider)
            (same, ((λ v e. inl (refl, existing-live live (line_key name p.addr) v (h ∙ e))), rest))
      | inl h ↦ elim (Bool-cases p.dials) [
        | inl d ↦
            rw (h, d, probe_provider)
              (
                omega arith,
                (
                  (λ v e. inr (refl, omega (arith, some_inj.0 e), omega (arith, some_inj.0 e))),
                  IsFrom-later live next _ name _ made,
                ),
              )
        | inr d ↦ rw (h, d, probe_provider) (same, rest)
      ]
    ]
