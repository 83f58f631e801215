-- ===== src/Scheduler/Probes.antt =====
-- The probes of one line: the time that `probeMode` gives it.
use mathlib.Core.List.{Mem, Perm, Permᴰ, mem-cons_self, mem-cons_of_mem, append-nil, append_assoc}
use mathlib.Core.List.Perm
use mathlib.Core.Logic.{∥∥₁_elim}
use mathlib.Core.Option.{some_inj}
use mathlib.Core.HLevel.{hedberg}
use dnsproxy_router.Prelude.{
  subst, ℕ_discrete, zero, ℕ, suc, ◌/◌, ◌≡◌, ◌⊎◌, inl, inr, refl, sym, ap, ◌∙◌, Option, none, some,
  List, [], ◌∷◌, ◌++◌, arith, length, get_elem?, get_elem?-some, Option-cases, ltb,
}
use dnsproxy_router.Prelude.Sort.{SliceSort}
use dnsproxy_router.Scheduler.{Attempt, gather, median, probe_mode}

length-Permᴰ : {xs ys : List ℕ} → Permᴰ xs ys → length xs ≡ length ys
length-Permᴰ Permᴰ.nil = refl
length-Permᴰ (Permᴰ.cons e p) = ap suc (length-Permᴰ p)
length-Permᴰ (Permᴰ.swap e f) = refl
length-Permᴰ (Permᴰ.trans p q) = length-Permᴰ p ∙ length-Permᴰ q

length-Perm : (xs ys : List ℕ) → Perm xs ys → length xs ≡ length ys
length-Perm xs ys p = ∥∥₁_elim p (hedberg ℕ_discrete _ _) length-Permᴰ

mem_of_get_elem? : (xs : List ℕ) (i a : ℕ) → get_elem? xs i ≡ some a → Mem a xs
mem_of_get_elem? [] i a h = absurd (ground arith)
mem_of_get_elem? (x ∷ xs) zero a h = subst (λ b. Mem b (x ∷ xs)) (some_inj.0 h) mem-cons_self
mem_of_get_elem? (x ∷ xs) (suc i) a h = mem-cons_of_mem x (mem_of_get_elem? xs i a h)

-- The median of the times of a list that is not empty exists and is one of them.
median-mem :
    (slices : SliceSort ℕ) (d : ℕ) (ds : List ℕ)
    → (m : ℕ) × (median slices (d ∷ ds) ≡ some m) × Mem m (d ∷ ds)
unfolding median
median-mem slices d ds =
    let sorted = slices.sort ltb (d ∷ ds) in
    let p = slices.sort-perm ltb (d ∷ ds) in
    let n : length sorted ≡ suc (length ds) = length-Perm sorted (d ∷ ds) p in
    let (m, at) = get_elem?-some sorted (suc (length ds) / 2) (omega (arith, n)) in
    (m, at, (Perm.mem_iff p).0 (mem_of_get_elem? sorted _ m at))

module _ {E : Type 0} where
  -- The times of the successes, in order.
  abbrev pub times : List (Attempt E) → List ℕ
  times [] = []
  times (a ∷ attempts) = elim a.err [ none ↦ a.elapsed ∷ times attempts | some e ↦ times attempts ]

  -- The error that came first.
  abbrev pub first_error : List (Attempt E) → Option E
  first_error [] = none
  first_error (a ∷ attempts) = elim a.err [ none ↦ first_error attempts | some e ↦ some e ]

  abbrev first_or : Option E → List (Attempt E) → Option E
  first_or none attempts = first_error attempts
  first_or (some e) attempts = some e

  gather-times :
      (attempts : List (Attempt E)) (rtts : List ℕ) (first : Option E)
      → (gather attempts rtts first).0 ≡ rtts ++ times attempts
  unfolding gather
  gather-times [] rtts first = sym (append-nil rtts)
  gather-times (a ∷ attempts) rtts first = elim (Option-cases a.err) [
    | inl h ↦ rw h (
        gather-times attempts (rtts ++ a.elapsed ∷ []) first
        ∙ append_assoc rtts (a.elapsed ∷ []) (times attempts))
    | inr (e, h) ↦ rw h (gather-times attempts rtts _)
  ]

  gather-first :
      (attempts : List (Attempt E)) (rtts : List ℕ) (first : Option E)
      → (gather attempts rtts first).1 ≡ first_or first attempts
  unfolding gather
  gather-first [] rtts none = refl
  gather-first [] rtts (some f) = refl
  gather-first (a ∷ attempts) rtts none = elim (Option-cases a.err) [
    | inl h ↦ rw h (gather-first attempts (rtts ++ a.elapsed ∷ []) none)
    | inr (e, h) ↦ rw h (gather-first attempts rtts (some e))
  ]
  gather-first (a ∷ attempts) rtts (some f) = elim (Option-cases a.err) [
    | inl h ↦ rw h (gather-first attempts (rtts ++ a.elapsed ∷ []) (some f))
    | inr (e, h) ↦ rw h (gather-first attempts rtts (some f))
  ]

  -- `probeMode` never panics. If an exchange succeeded, it returns the time of one that did, and no
  -- error, whatever failed beside it; if none did, it returns the first error.
  pub probe_mode-tolerates :
      (slices : SliceSort ℕ) (attempts : List (Attempt E))
      → ((times attempts ≡ []) × (probe_mode slices attempts ≡ some (0, first_error attempts)))
        ⊎ ((m : ℕ) × (probe_mode slices attempts ≡ some (m, none)) × Mem m (times attempts))
  unfolding probe_mode
  probe_mode-tolerates slices attempts = by_times (times attempts) refl
    where
      rtts : (gather attempts [] none).0 ≡ times attempts
      rtts = gather-times attempts [] none

      error : (gather attempts [] none).1 ≡ first_error attempts
      error = gather-first attempts [] none

      by_times :
          (ts : List ℕ)
          → times attempts ≡ ts
          → ((times attempts ≡ []) × (probe_mode slices attempts ≡ some (0, first_error attempts)))
            ⊎ ((m : ℕ) × (probe_mode slices attempts ≡ some (m, none)) × Mem m (times attempts))
      by_times [] h = inl (h, rw (probe_mode, rtts, h, error) refl)
      by_times (d ∷ ds) h =
          let (m, at, one) = median-mem slices d ds in
          inr (m, rw (probe_mode, rtts, h, at) refl, rw h one)
