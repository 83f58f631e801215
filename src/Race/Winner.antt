-- ===== src/Race/Winner.antt =====
-- `exchangeWeighted` and `pickWeighted`: the best success of the window.
use mathlib.Core.Bool.{Bool-set}
use mathlib.Core.Logic.Or
use mathlib.Core.List.{
  Mem, Perm, not-mem-nil, mem-cons_self, eq-or-mem_of_mem-cons, append-nil, append_assoc,
}
use mathlib.Core.List.Perm
use dnsproxy_router.Prelude.{
  ℕ, zero, suc, ◌+◌, ◌<◌, ◌≤◌, ◌≡◌, refl, ◌⊎◌, inl, inr, Bool, true, false, Option, none, some,
  List, [], ◌∷◌, ◌++◌, map, ap, ◌∙◌, arith, length, All, filterb,
}
use dnsproxy_router.Prelude.Sort.{SliceSort, IsStrictWeak, IsSorted, All-mem}
use dnsproxy_router.Race.{
  RaceResult, succeeded, heavier, first_of_sorted, pick_weighted, receive_weighted,
}

module _ {M E : Type 0} where
  -- `a` is at least as good as `b`: it weighs more, or as much and was no slower.
  abbrev pub IsBetter : RaceResult M E → RaceResult M E → Type 0
  IsBetter a b = (b.weight < a.weight) ⊎ ((b.weight ≡ a.weight) × (a.elapsed ≤ b.elapsed))

  heavier-IsStrictWeak : IsStrictWeak (heavier {M = M} {E = E})
  unfolding heavier
  heavier-IsStrictWeak = record {
    asymmetric = λ a b h. ground arith;
    comparable = λ a b c h k. ground arith;
  }

  heavier-irreflexive : (a : RaceResult M E) → heavier a a ≡ false
  unfolding heavier
  heavier-irreflexive a = ground arith

  not-heavier : (a b : RaceResult M E) → heavier b a ≡ false → IsBetter a b
  unfolding heavier
  not-heavier a b h = ground arith

  module _ (no_reply : E) (slices : SliceSort (RaceResult M E)) where
    best_of :
        (l cs : List (RaceResult M E)) (c : RaceResult M E)
        → Perm l (c ∷ cs)
        → IsSorted heavier l
        → (win : RaceResult M E) × (first_of_sorted no_reply slices l
            ≡ record { resp = win.reply.resp; err = none })
          × Mem win (c ∷ cs)
          × ((d : RaceResult M E) → Mem d (c ∷ cs) → heavier d win ≡ false)
    unfolding first_of_sorted
    best_of [] cs c p s = absurd (not-mem-nil ((Perm.mem_iff p).1 mem-cons_self))
    best_of (x ∷ xs) cs c p s = (
      x,
      refl,
      (Perm.mem_iff p).0 mem-cons_self,
      λ d m.
          Or.elim (Bool-set _ _) (eq-or-mem_of_mem-cons ((Perm.mem_iff p).1 m))
            (λ e. rw e (heavier-irreflexive x)) (All-mem (λ y. heavier y x) false xs s.0 d),
    )

    -- With candidates, `pickWeighted` returns the response of one of them that is at least as good
    -- as each of them.
    pub pick_weighted-best :
        (c : RaceResult M E) (cands : List (RaceResult M E))
        → (win : RaceResult M E) × (pick_weighted no_reply slices (c ∷ cands)
            ≡ record { resp = win.reply.resp; err = none })
          × Mem win (c ∷ cands)
          × ((d : RaceResult M E) → Mem d (c ∷ cands) → IsBetter win d)
    unfolding pick_weighted
    pick_weighted-best c cands =
        let l = slices.sort heavier (c ∷ cands) in
        let (win, got, member, top) =
          best_of l cands c (slices.sort-perm heavier (c ∷ cands))
            (slices.sort-IsSorted heavier (c ∷ cands) heavier-IsStrictWeak) in
        (win, got, member, λ d m. not-heavier win d (top d m))

    -- After the first success the loop gathers successes until the timer fires.
    receive_weighted-set :
        (rest : List (Option (RaceResult M E))) (n : ℕ) (cands mids : List (RaceResult M E))
        → length mids < n
        → receive_weighted no_reply slices n cands true (map some mids ++ none ∷ rest)
          ≡ some (pick_weighted no_reply slices (cands ++ filterb succeeded mids))
    unfolding receive_weighted
    receive_weighted-set rest zero cands mids lt = elim lt [ ]
    receive_weighted-set rest (suc n) cands [] lt = rw append-nil
    receive_weighted-set rest (suc n) cands (m ∷ mids) lt = ground (
      arith,
      receive_weighted-set rest n cands mids,
      receive_weighted-set rest n (cands ++ m ∷ []) mids,
      append_assoc cands (m ∷ []) (filterb succeeded mids),
    )

    -- The loop ends with the last answer, if the timer has not fired before.
    receive_weighted-all :
        (cands mids : List (RaceResult M E)) (set : Bool)
        → receive_weighted no_reply slices (length mids) cands set (map some mids)
          ≡ some (pick_weighted no_reply slices (cands ++ filterb succeeded mids))
    unfolding receive_weighted
    receive_weighted-all cands [] set = rw append-nil
    receive_weighted-all cands (m ∷ mids) set = ground (
      arith,
      receive_weighted-all cands mids set,
      receive_weighted-all (cands ++ m ∷ []) mids true,
      append_assoc cands (m ∷ []) (filterb succeeded mids),
    )

    -- Before the first success the timer is not set: failures are only counted.
    pub receive_weighted-window :
        (n : ℕ) (failures mids : List (RaceResult M E)) (win : RaceResult M E)
        (rest : List (Option (RaceResult M E)))
        → All (λ res. succeeded res ≡ false) failures
        → succeeded win ≡ true
        → suc (length failures + length mids) < n
        → receive_weighted no_reply slices n [] false
            (map some failures ++ some win ∷ (map some mids ++ none ∷ rest))
          ≡ some (pick_weighted no_reply slices (win ∷ filterb succeeded mids))
    unfolding receive_weighted
    receive_weighted-window zero failures mids win rest all ok lt = elim lt [ ]
    receive_weighted-window (suc n) [] mids win rest all ok lt =
        ground (arith, receive_weighted-set rest n (win ∷ []) mids)
    receive_weighted-window (suc n) (f ∷ failures) mids win rest all ok lt =
        ground (arith, receive_weighted-window n failures mids win rest all.1 ok)

    -- When the window's timer fires, the query is answered by the best of the successes received
    -- by then, whoever is still to answer: by the response of one of them, which weighs more than
    -- each of the others, or as much and was no slower.
    pub window-best :
        (n : ℕ) (failures mids : List (RaceResult M E)) (first : RaceResult M E)
        (rest : List (Option (RaceResult M E)))
        → All (λ res. succeeded res ≡ false) failures
        → succeeded first ≡ true
        → suc (length failures + length mids) < n
        → (win : RaceResult M E) × (receive_weighted no_reply slices n [] false
              (map some failures ++ some first ∷ (map some mids ++ none ∷ rest))
            ≡ some (record { resp = win.reply.resp; err = none }))
          × Mem win (first ∷ filterb succeeded mids)
          × ((d : RaceResult M E) → Mem d (first ∷ filterb succeeded mids) → IsBetter win d)
    window-best n failures mids first rest all ok lt =
        let (win, got, member, best) = pick_weighted-best first (filterb succeeded mids) in
        (
          win,
          receive_weighted-window n failures mids first rest all ok lt ∙ ap some got,
          member,
          best,
        )

    -- If everybody answers before the timer fires, the loop ends with the choice among all the
    -- successes, and with `ErrNoReply` exactly if there is none.
    pub complete-best :
        (results : List (RaceResult M E))
        → ((filterb succeeded results ≡ [])
            × (receive_weighted no_reply slices (length results) [] false (map some results)
                ≡ some (record { resp = none; err = some no_reply })))
          ⊎ ((win : RaceResult M E) × (receive_weighted no_reply slices
                  (length results)
                  []
                  false
                  (map some results)
                ≡ some (record { resp = win.reply.resp; err = none }))
              × Mem win (filterb succeeded results)
              × ((d : RaceResult M E) → Mem d (filterb succeeded results) → IsBetter win d))
    unfolding pick_weighted
    complete-best results = choose (filterb succeeded results) refl
      where
        choose :
            (cs : List (RaceResult M E))
            → filterb succeeded results ≡ cs
            → ((cs ≡ [])
                × (receive_weighted no_reply slices (length results) [] false (map some results)
                    ≡ some (record { resp = none; err = some no_reply })))
              ⊎ ((win : RaceResult M E) × (receive_weighted no_reply slices
                      (length results)
                      []
                      false
                      (map some results)
                    ≡ some (record { resp = win.reply.resp; err = none }))
                  × Mem win cs
                  × ((d : RaceResult M E) → Mem d cs → IsBetter win d))
        choose [] e = inl (refl, receive_weighted-all [] results false ∙ rw e refl)
        choose (c ∷ cs) e =
            let (win, got, member, best) = pick_weighted-best c cs in
            inr (win, receive_weighted-all [] results false ∙ rw e (ap some got), member, best)
