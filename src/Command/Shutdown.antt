-- ===== src/Command/Shutdown.antt =====
-- The waits of `Stop`, of `Retire` and of the reload loop come to an end: from each state that the
-- process can reach, steps lead out of them.
pub mod Returns
use dnsproxy_router.Command.{moves, app_cancelled, Process, with_life, Step, moves}
use dnsproxy_router.Coalescer.{update}
use dnsproxy_router.Command.Options.{ProxyLibrary}
use dnsproxy_router.Config.{NetLibrary}
use dnsproxy_router.Prelude.{
  ℕ, ◌≡◌, ◌<◌, ◌||◌, refl, sym, ap, ◌∙◌, subst, if_pos, Bool, true, false, [], Bytes, ℕ_discrete,
  arith,
}
use dnsproxy_router.Prelude.Sort.{SliceSort}
use dnsproxy_router.Scheduler.Life.{
  Phase, Life, launched, first_round, looping, waiting, ended, has_started, first_done, begin,
  round, leave, finish, Moves, begins, first, leaves, finishes,
}
use dnsproxy_router.Scheduler.Life.Open.{leave_phase}

module _ {U : Type 0} (net : NetLibrary) (lib : ProxyLibrary U) (slices : SliceSort Bytes) where
  -- Any number of steps.
  pub data Continues (p : Process) : Process → Type 0 where
    here : Continues p p
    next : {q r : Process} → Continues p q → Step net lib slices q r → Continues p r

  pub Continues-trans : {p q r : Process} → Continues p q → Continues q r → Continues p r
  Continues-trans c here = c
  Continues-trans c (next d step) = next (Continues-trans c d) step

  -- Steps of one scheduler lead to a state with `P` in which `main` and the reload loop stand where
  -- they stood.
  abbrev pub Gets : Process → ℕ → (Life → Type 0) → Type 0
  Gets p id P =
      (q : Process) × Continues p q
      × (q.main ≡ p.main)
      × (q.reload ≡ p.reload)
      × (q.next ≡ p.next)
      × (q.slot ≡ p.slot)
      × (q.done ≡ p.done)
      × P (q.lives id)

  module _ (id : ℕ) (P : Life → Type 0) where
    pub own : (p : Process) (l : Life) → (with_life p id l).lives id ≡ l
    own p l = if_pos (ℕ_discrete id id) refl l (p.lives id)

    -- by one step more
    pub by_step :
        (p : Process) (l : Life)
        → id < p.next
        → Moves slices (app_cancelled p.main) (p.lives id) l
        → Gets (with_life p id l) id P
        → Gets p id P
    by_step p l made m (q, c, a, b, d, e, f, g) =
        (q, Continues-trans (next here (moves id l made m)) c, a, b, d, e, f, g)

    pub at_once : (p : Process) → P (p.lives id) → Gets p id P
    at_once p h = (p, here, refl, refl, refl, refl, refl, h)
