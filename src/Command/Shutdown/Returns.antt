-- ===== src/Command/Shutdown/Returns.antt =====
-- The way of one scheduler to its begin, to the end of its first round and to its end.
use dnsproxy_router.Command.Shutdown.{Gets, own, by_step, at_once}
use dnsproxy_router.Command.{app_cancelled, Process, with_life}
use dnsproxy_router.Command.Options.{ProxyLibrary}
use dnsproxy_router.Config.{NetLibrary}
use dnsproxy_router.Prelude.{
  ℕ, ◌≡◌, ◌<◌, ◌||◌, ◌⊎◌, inl, inr, refl, sym, ap, subst, true, [], Bytes,
}
use dnsproxy_router.Prelude.Sort.{SliceSort}
use dnsproxy_router.Scheduler.Life.{
  Phase, Life, launched, first_round, looping, waiting, ended, has_started, first_done, begin,
  round, leave, finish, Moves, begins, first, leaves, finishes,
}
use dnsproxy_router.Scheduler.Life.Open.{leave_phase, Moves-cancelled}

phase_cases :
    (x : Phase) → (x ≡ launched) ⊎ (x ≡ first_round) ⊎ (x ≡ looping) ⊎ (x ≡ waiting) ⊎ (x ≡ ended)
phase_cases launched = inl refl
phase_cases first_round = inr (inl refl)
phase_cases looping = inr (inr (inl refl))
phase_cases waiting = inr (inr (inr (inl refl)))
phase_cases ended = inr (inr (inr (inr refl)))

module _ {U : Type 0} (net : NetLibrary) (lib : ProxyLibrary U) (slices : SliceSort Bytes)
    (id : ℕ) where
  -- what holds of a life holds of the scheduler that has it
  holds : (Q : Life → Type 0) (p : Process) (l : Life) → Q l → Q ((with_life p id l).lives id)
  holds Q p l h = subst Q (sym (own net lib slices id Q p l)) h

  abbrev HasBegun : Life → Type 0
  HasBegun l = has_started l.phase ≡ true

  abbrev IsProbed : Life → Type 0
  IsProbed l = first_done l.phase ≡ true

  abbrev IsOver : Life → Type 0
  IsOver l = l.phase ≡ ended

  abbrev pub Reaches : (Life → Type 0) → Process → Type 0
  Reaches P p = Gets net lib slices p id P

  begin_phase : (l : Life) → (begin l).phase ≡ first_round
  unfolding begin
  begin_phase l = refl

  round_phase : (l : Life) → (round slices [] l).phase ≡ looping
  unfolding round
  round_phase l = refl

  finish_phase : (l : Life) → (finish l).phase ≡ ended
  unfolding finish
  finish_phase l = refl

  pub begun : (p : Process) → id < p.next → Reaches HasBegun p
  begun p made = elim (phase_cases (p.lives id).phase) [
    | inl new ↦ by_step net lib slices id HasBegun p (begin (p.lives id)) made (begins new) (
        at_once net lib slices id HasBegun (with_life p id (begin (p.lives id)))
          (holds HasBegun p (begin (p.lives id)) (ap has_started (begin_phase (p.lives id)))))
    | inr (inl e) ↦ at_once net lib slices id HasBegun p (ap has_started e)
    | inr (inr (inl e)) ↦ at_once net lib slices id HasBegun p (ap has_started e)
    | inr (inr (inr (inl e))) ↦ at_once net lib slices id HasBegun p (ap has_started e)
    | inr (inr (inr (inr e))) ↦ at_once net lib slices id HasBegun p (ap has_started e)
  ]

  IsProbed-from_first :
      (p : Process) → id < p.next → (p.lives id).phase ≡ first_round → Reaches IsProbed p
  IsProbed-from_first p made e =
      by_step net lib slices id IsProbed p (round slices [] (p.lives id)) made (first [] e) (
        at_once net lib slices id IsProbed (with_life p id (round slices [] (p.lives id))) (
          holds IsProbed p (round slices [] (p.lives id))
            (ap first_done (round_phase (p.lives id)))))

  pub probed : (p : Process) → id < p.next → Reaches IsProbed p
  probed p made = elim (phase_cases (p.lives id).phase) [
    | inl new ↦ by_step net lib slices id IsProbed p (begin (p.lives id)) made (begins new) (
        IsProbed-from_first (with_life p id (begin (p.lives id))) made
          (holds (λ l. l.phase ≡ first_round) p (begin (p.lives id)) (begin_phase (p.lives id))))
    | inr (inl e) ↦ IsProbed-from_first p made e
    | inr (inr (inl e)) ↦ at_once net lib slices id IsProbed p (ap first_done e)
    | inr (inr (inr (inl e))) ↦ at_once net lib slices id IsProbed p (ap first_done e)
    | inr (inr (inr (inr e))) ↦ at_once net lib slices id IsProbed p (ap first_done e)
  ]

  -- told to stop, by the process or by itself
  abbrev pub IsTold : Process → Type 0
  IsTold p = (app_cancelled p.main || (p.lives id).cancelled) ≡ true

  IsTold-with_life :
      (p : Process) (l : Life)
      → Moves slices (app_cancelled p.main) (p.lives id) l
      → IsTold p
      → IsTold (with_life p id l)
  IsTold-with_life p l m told =
      holds (λ x. (app_cancelled p.main || x.cancelled) ≡ true) p l
        (subst (λ b. (app_cancelled p.main || b) ≡ true) (sym (Moves-cancelled m)) told)

  IsOver-from_waiting :
      (p : Process) → id < p.next → (p.lives id).phase ≡ waiting → Reaches IsOver p
  IsOver-from_waiting p made e =
      by_step net lib slices id IsOver p (finish (p.lives id)) made (finishes e) (
        at_once net lib slices id IsOver (with_life p id (finish (p.lives id)))
          (holds IsOver p (finish (p.lives id)) (finish_phase (p.lives id))))

  IsOver-from_looping :
      (p : Process) → id < p.next → (p.lives id).phase ≡ looping → IsTold p → Reaches IsOver p
  IsOver-from_looping p made e told =
      by_step net lib slices id IsOver p (leave (p.lives id)) made (leaves e told) (
        IsOver-from_waiting (with_life p id (leave (p.lives id))) made
          (holds (λ l. l.phase ≡ waiting) p (leave (p.lives id)) (leave_phase (p.lives id))))

  IsOver-from_first :
      (p : Process) → id < p.next → (p.lives id).phase ≡ first_round → IsTold p → Reaches IsOver p
  IsOver-from_first p made e told =
      by_step net lib slices id IsOver p (round slices [] (p.lives id)) made (first [] e) (
        IsOver-from_looping (with_life p id (round slices [] (p.lives id))) made
          (holds (λ l. l.phase ≡ looping) p (round slices [] (p.lives id))
            (round_phase (p.lives id)))
          (IsTold-with_life p (round slices [] (p.lives id)) (first [] e) told))

  pub over : (p : Process) → id < p.next → IsTold p → Reaches IsOver p
  over p made told = elim (phase_cases (p.lives id).phase) [
    | inl new ↦ by_step net lib slices id IsOver p (begin (p.lives id)) made (begins new) (
        IsOver-from_first (with_life p id (begin (p.lives id))) made
          (holds (λ l. l.phase ≡ first_round) p (begin (p.lives id)) (begin_phase (p.lives id)))
          (IsTold-with_life p (begin (p.lives id)) (begins new) told))
    | inr (inl e) ↦ IsOver-from_first p made e told
    | inr (inr (inl e)) ↦ IsOver-from_looping p made e told
    | inr (inr (inr (inl e))) ↦ IsOver-from_waiting p made e
    | inr (inr (inr (inr e))) ↦ at_once net lib slices id IsOver p e
  ]
