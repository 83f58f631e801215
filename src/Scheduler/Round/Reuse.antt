-- ===== src/Scheduler/Round/Reuse.antt =====
-- Which results of a round have the upstream that is live under their key.
use dnsproxy_router.Scheduler.Round.{Probe, line_key, existing, probe_provider}
use mathlib.Core.Option.{some_inj}
use dnsproxy_router.Prelude.{
  ℕ, suc, ◌≡◌, ◌⊎◌, inl, inr, refl, sym, subst, ◌∙◌, Bool, true, false, Option, none, some, List,
  [], ◌∷◌, Bytes, bytes_discrete, lookup, insert, if◌then◌else◌, ltb, ◌&&◌, All, arith,
  Option-cases, ite, Bool-cases,
}
use dnsproxy_router.Scheduler.{ProbeResult, better, pick_best_from, pick_best, settle_provider}

-- A result for a line that is live has the live upstream.
abbrev pub Reuses : List (Bytes × Option ℕ) → Bytes → ProbeResult → Type 0
Reuses live name r =
    (u : ℕ)
    → lookup bytes_discrete (line_key name r.addr) live ≡ some (some u)
    → r.upstream ≡ some u

live-existing :
    (live : List (Bytes × Option ℕ)) (key : Bytes) (u : ℕ)
    → lookup bytes_discrete key live ≡ some (some u)
    → existing live key ≡ some u
unfolding existing
live-existing live key u h = rw (existing, h) refl

pub probe_provider-Reuses :
    (live : List (Bytes × Option ℕ)) (next : ℕ) (name : Bytes) (probes : List Probe)
    → All (Reuses live name) (probe_provider live next name probes).0
unfolding probe_provider
probe_provider-Reuses live next name [] = tt
probe_provider-Reuses live next name (p ∷ probes) =
    let made = probe_provider-Reuses live (suc next) name probes in
    let rest = probe_provider-Reuses live next name probes in
    elim (Option-cases (existing live (line_key name p.addr))) [
      | inr (u, h) ↦
          rw (h, probe_provider)
            ((λ v k. sym h ∙ live-existing live (line_key name p.addr) v k), rest)
      | inl h ↦ elim (Bool-cases p.dials) [
        | inl d ↦
            rw (h, d, probe_provider)
              (
                (λ v k. absurd (ground (arith, live-existing live (line_key name p.addr) v k))),
                made,
              )
        | inr d ↦ rw (h, d, probe_provider) rest
      ]
    ]

if_cases : {A : Type 0} (b : Bool) (x y z : A) → (if b then x else y) ≡ z → (x ≡ z) ⊎ (y ≡ z)
if_cases true x y z h = inl h
if_cases false x y z h = inr h

better-cases :
    (best : Option ProbeResult) (r a : ProbeResult)
    → better best r ≡ some a
    → (r ≡ a) ⊎ (best ≡ some a)
unfolding better
better-cases none r a e = elim (if_cases r.ok (some r) none (some a) e) [
  | inl h ↦ inl (some_inj.0 h)
  | inr h ↦ inr h
]
better-cases (some b) r a e =
    elim (if_cases (r.ok && ltb r.rtt b.rtt) (some r) (some b) (some a) e) [
      | inl h ↦ inl (some_inj.0 h)
      | inr h ↦ inr h
    ]

settle_provider-best :
    (results : List ProbeResult) → (settle_provider results).0 ≡ pick_best results
unfolding settle_provider
settle_provider-best results = elim (Option-cases (pick_best results)) [
  | inl h ↦ rw (h, settle_provider) refl
  | inr (b, h) ↦ rw (h, settle_provider) refl
]

module _ (P : ProbeResult → Type 0) where
  pick_best_from-keeps :
      (results : List ProbeResult) (best : Option ProbeResult) (b : ProbeResult)
      → ((a : ProbeResult) → best ≡ some a → P a)
      → All P results
      → pick_best_from best results ≡ some b
      → P b
  unfolding pick_best_from
  pick_best_from-keeps [] best b h all e = h b e
  pick_best_from-keeps (r ∷ results) best b h all e =
      pick_best_from-keeps results (better best r) b
        (λ a k. elim (better-cases best r a k) [
          | inl same ↦ subst P same all.0
          | inr old ↦ h a old
        ])
        all.1 e

  pub settle_provider-keeps :
      (results : List ProbeResult) (b : ProbeResult)
      → All P results
      → (settle_provider results).0 ≡ some b
      → P b
  unfolding pick_best
  settle_provider-keeps results b all e =
      pick_best_from-keeps results none b (λ a h. absurd (ground arith)) all
        (sym (settle_provider-best results) ∙ e)

ite-All :
    {A : Type 0} {B : Type 0} (P : B → Type 0) (d : Dec A) (xs ys : List B)
    → All P xs
    → All P ys
    → All P (ite d xs ys)
ite-All P (yes a) xs ys h k = h
ite-All P (no f) xs ys h k = k

pub insert-All :
    {V : Type 0} (P : Bytes × V → Type 0) (k : Bytes) (v : V) (m : List (Bytes × V))
    → P (k, v)
    → All P m
    → All P (insert bytes_discrete k v m)
unfolding insert
insert-All P k v [] p h = (p, tt)
insert-All P k v (e ∷ m) p h =
    ite-All P (bytes_discrete k e.0) ((k, v) ∷ m) (e ∷ insert bytes_discrete k v m) (p, h.1)
      (h.0, insert-All P k v m p h.1)
