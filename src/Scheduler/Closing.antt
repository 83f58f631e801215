-- ===== src/Scheduler/Closing.antt =====
-- Which upstreams are closed when a provider's part of a round is over.
use dnsproxy_router.Prelude.{
  ℕ, ◌≡◌, ◌≢◌, ◌⊎◌, inl, inr, refl, true, false, Option, none, some, List, [], ◌∷◌, All, Any, arith,
  Option-cases, subst, sym,
}
use dnsproxy_router.Scheduler.{
  pick_best, close_fresh, settle_provider, ProbeResult, differs, to_close,
}

to_close-spares :
    (r : ProbeResult) (keep : Option ℕ) (u : ℕ)
    → to_close r keep ≡ some u
    → (keep ≢ some u) × (r.fresh ≡ true) × (r.upstream ≡ some u)
unfolding to_close differs
to_close-spares r keep u h = ground arith

-- Of the upstreams that are closed each is new in this round and not the one to keep.
abbrev pub IsClosable : Option ℕ → List ProbeResult → ℕ → Type 0
IsClosable keep results u =
    (keep ≢ some u) × Any (λ r. (r.fresh ≡ true) × (r.upstream ≡ some u)) results

-- A result whose upstream stays open, or is among those that are closed.
abbrev pub IsSettled : Option ℕ → List ℕ → ProbeResult → Type 0
IsSettled keep closed r =
    (r.fresh ≡ false)
    ⊎ (r.upstream ≡ none)
    ⊎ (r.upstream ≡ keep)
    ⊎ Any (λ u. r.upstream ≡ some u) closed

to_close-cases :
    (r : ProbeResult) (keep : Option ℕ)
    → to_close r keep ≡ none
    → (r.fresh ≡ false) ⊎ (r.upstream ≡ none) ⊎ (r.upstream ≡ keep)
unfolding to_close differs
to_close-cases r keep h = ground arith

pub All-map :
    {A : Type 0} {P Q : A → Type 0} → ((a : A) → P a → Q a) → (xs : List A) → All P xs → All Q xs
All-map f [] h = tt
All-map f (x ∷ xs) h = (f x h.0, All-map f xs h.1)

more-IsSettled :
    (keep : Option ℕ) (closed : List ℕ) (u : ℕ) (r : ProbeResult)
    → IsSettled keep closed r
    → IsSettled keep (u ∷ closed) r
more-IsSettled keep closed u r (inl a) = inl a
more-IsSettled keep closed u r (inr (inl a)) = inr (inl a)
more-IsSettled keep closed u r (inr (inr (inl a))) = inr (inr (inl a))
more-IsSettled keep closed u r (inr (inr (inr a))) = inr (inr (inr (inr a)))

early-IsSettled :
    (keep : Option ℕ) (closed : List ℕ) (r : ProbeResult)
    → (r.fresh ≡ false) ⊎ (r.upstream ≡ none) ⊎ (r.upstream ≡ keep)
    → IsSettled keep closed r
early-IsSettled keep closed r (inl a) = inl a
early-IsSettled keep closed r (inr (inl a)) = inr (inl a)
early-IsSettled keep closed r (inr (inr a)) = inr (inr (inl a))

abbrev IsDone : Option ℕ → List ProbeResult → List ℕ → Type 0
IsDone keep results closed =
    All (IsClosable keep results) closed × All (IsSettled keep closed) results

close_fresh-none :
    (r : ProbeResult) (results : List ProbeResult) (keep : Option ℕ)
    → to_close r keep ≡ none
    → close_fresh (r ∷ results) keep ≡ close_fresh results keep
unfolding close_fresh
close_fresh-none r results keep h = ground arith

close_fresh-some :
    (r : ProbeResult) (results : List ProbeResult) (keep : Option ℕ) (u : ℕ)
    → to_close r keep ≡ some u
    → close_fresh (r ∷ results) keep ≡ u ∷ close_fresh results keep
unfolding close_fresh
close_fresh-some r results keep u h = ground arith

close_fresh-closes :
    (results : List ProbeResult) (keep : Option ℕ)
    → All (IsClosable keep results) (close_fresh results keep)
      × All (IsSettled keep (close_fresh results keep)) results
unfolding close_fresh
close_fresh-closes [] keep = (tt, tt)
close_fresh-closes (r ∷ results) keep =
    let (closable, settled) = close_fresh-closes results keep in
    let closed = close_fresh results keep in
    let closable' : All (IsClosable keep (r ∷ results)) closed =
      All-map (λ u p. (p.0, inr p.1)) closed closable in
    elim (Option-cases (to_close r keep)) [
      | inl h ↦
          subst (IsDone keep (r ∷ results)) (sym (close_fresh-none r results keep h))
            (closable', (early-IsSettled keep closed r (to_close-cases r keep h), settled))
      | inr (u, h) ↦
          let (not_kept, fresh, at) = to_close-spares r keep u h in
          subst (IsDone keep (r ∷ results)) (sym (close_fresh-some r results keep u h)) (
            ((not_kept, inl (fresh, at)), closable'),
            (inr (inr (inr (inl at))), All-map (more-IsSettled keep closed u) results settled),
          )
    ]

abbrev pub upstream_of : Option ProbeResult → Option ℕ
upstream_of none = none
upstream_of (some best) = best.upstream

-- A provider's part of a round ends with the line that `pickBest` chooses. Each upstream that was
-- closed is one that a result made in this round, and not the chosen line's; and each one that a
-- result made in this round is closed or the chosen line's.
pub settle_provider-closes :
    (results : List ProbeResult)
    → let settled = settle_provider results in
      (settled.0 ≡ pick_best results)
      × All (IsClosable (upstream_of settled.0) results) settled.1
      × All (IsSettled (upstream_of settled.0) settled.1) results
unfolding settle_provider
settle_provider-closes results = elim (Option-cases (pick_best results)) [
  | inl h ↦
      rw (settle_provider, h)
        (let (closable, settled) = close_fresh-closes results none in (refl, closable, settled))
  | inr (best, h) ↦
      rw (settle_provider, h)
        (let (closable, settled) = close_fresh-closes results best.upstream in
          (refl, closable, settled))
]
