-- ===== src/Command/Serving.antt =====
-- What holds of the process in every state that it can reach.
pub mod Kept
use dnsproxy_router.Command.{
  Reload, Main, app_cancelled, Process, with_life, listening, returned, awaiting, swapping,
  retiring, cancelling, serving, draining, stopped, crashed, stopping, joining, exited,
}
use dnsproxy_router.Coalescer.{update}
use dnsproxy_router.Prelude.{
  ℕ, suc, ◌≡◌, ◌≢◌, ◌<◌, ◌⊎◌, inl, inr, refl, sym, subst, if_pos, if_neg, Bool, true, false, List,
  Any, ℕ_discrete, arith,
}
use dnsproxy_router.Scheduler.Life.{Life, has_started, ended}
use dnsproxy_router.Scheduler.Life.Open.{has_left, IsOrderly}

-- The scheduler that the reload loop has at hand, and those of them that it means to swap in.
abbrev pub Handles : Reload → ℕ → Type 0
Handles listening i = ⊥
Handles returned i = ⊥
Handles (awaiting id) i = i ≡ id
Handles (swapping id) i = i ≡ id
Handles (retiring id delay after) i = i ≡ id
Handles (cancelling id after) i = i ≡ id

abbrev pub Awaits : Reload → ℕ → Type 0
Awaits listening i = ⊥
Awaits returned i = ⊥
Awaits (awaiting id) i = i ≡ id
Awaits (swapping id) i = i ≡ id
Awaits (retiring id delay after) i = ⊥
Awaits (cancelling id after) i = ⊥

-- not told to stop, and in its loop or before it
abbrev pub Runs : Life → Type 0
Runs l = (l.cancelled ≡ false) × (has_left l.phase ≡ false)

abbrev pub Fits : Process → Reload → Type 0
Fits p listening = Unit {0}
Fits p returned = Unit {0}
Fits p (awaiting id) =
    (id < p.next) × (id ≢ p.slot) × (app_cancelled p.main ≡ false → Runs (p.lives id))
Fits p (swapping id) =
    (id < p.next)
    × (id ≢ p.slot)
    × (app_cancelled p.main ≡ false → Runs (p.lives id))
    × Any (λ f. f ≡ id) p.found
Fits p (retiring id delay after) = (id < p.next) × (id ≢ p.slot)
Fits p (cancelling id after) = (id < p.next) × (id ≢ p.slot)

abbrev pub Stops : Process → Main → Type 0
Stops p serving = Unit {0}
Stops p draining = Unit {0}
Stops p stopped = Unit {0}
Stops p crashed = Unit {0}
Stops p (stopping id) = id < p.next
Stops p (joining id) = (id < p.next) × ((p.lives id).cancelled ≡ true)
Stops p (exited id) = (id < p.next) × ((p.lives id).phase ≡ ended)

pub record Inv (p : Process) : Type 0 where
  pub slot_made : p.slot < p.next
  pub orderly : (i : ℕ) → IsOrderly (p.lives i)
  pub fits : Fits p p.reload
  pub kept :
      (i : ℕ) → i < p.next → (i ≡ p.slot) ⊎ ((p.lives i).cancelled ≡ true) ⊎ Handles p.reload i
  pub running : app_cancelled p.main ≡ false → Runs (p.lives p.slot)
  pub installed : (p.slot ≡ 0) ⊎ Any (λ f. f ≡ p.slot) p.found
  pub stops : Stops p p.main

-- What a step does to the life of a scheduler.
pub record Keeps (l l' : Life) : Type 0 where
  pub orderly : IsOrderly l → IsOrderly l'
  pub told : l.cancelled ≡ true → l'.cancelled ≡ true
  pub over : l.phase ≡ ended → l'.phase ≡ ended

pub update-at :
    (P : Life → Type 0) (lives : ℕ → Life) (i j : ℕ) (l : Life)
    → (j ≡ i → P (lives j) → P l)
    → P (lives j)
    → P (update lives i l j)
update-at P lives i j l f h = elim (ℕ_discrete j i) [
  | yes same ↦ subst P (sym (if_pos (ℕ_discrete j i) same l (lives j))) (f same h)
  | no apart ↦ subst P (sym (if_neg (ℕ_discrete j i) apart l (lives j))) h
]

module _ (p : Process) (i : ℕ) (l : Life) (keeps : Keeps (p.lives i) l)
    (harmless : (i ≡ p.slot) ⊎ Awaits p.reload i
      → app_cancelled p.main ≡ false
      → Runs (p.lives i)
      → Runs l) where
  -- the step as seen from any scheduler
  at :
      (P : Life → Type 0) (j : ℕ) → (P (p.lives i) → P l) → P (p.lives j) → P (update p.lives i l j)
  at P j f h = update-at P p.lives i j l (λ e now. f (subst (λ x. P (p.lives x)) e now)) h

  Runs-on :
      (j : ℕ)
      → (j ≡ i → (i ≡ p.slot) ⊎ Awaits p.reload i)
      → (app_cancelled p.main ≡ false → Runs (p.lives j))
      → app_cancelled p.main ≡ false
      → Runs (update p.lives i l j)
  Runs-on j who runs up =
      update-at Runs p.lives i j l
        (λ e now. harmless (who e) up (subst (λ x. Runs (p.lives x)) e now)) (runs up)

  with_life-Fits :
      (r : Reload) → (Awaits r i → Awaits p.reload i) → Fits p r → Fits (with_life p i l) r
  with_life-Fits listening who h = tt
  with_life-Fits returned who h = tt
  with_life-Fits (retiring id delay after) who h = h
  with_life-Fits (cancelling id after) who h = h
  with_life-Fits (awaiting id) who (a, b, runs) = (a, b, Runs-on id (λ e. inr (who (sym e))) runs)
  with_life-Fits (swapping id) who (a, b, runs, seen) =
      (a, b, Runs-on id (λ e. inr (who (sym e))) runs, seen)

  with_life-Stops : (m : Main) → Stops p m → Stops (with_life p i l) m
  with_life-Stops serving h = tt
  with_life-Stops draining h = tt
  with_life-Stops stopped h = tt
  with_life-Stops crashed h = tt
  with_life-Stops (stopping id) h = h
  with_life-Stops (joining id) (a, told) = (a, at (λ x. x.cancelled ≡ true) id keeps.told told)
  with_life-Stops (exited id) (a, over) = (a, at (λ x. x.phase ≡ ended) id keeps.over over)

  -- A step of one scheduler.
  pub with_life-Inv : Inv p → Inv (with_life p i l)
  with_life-Inv v = record {
    slot_made = v.slot_made;
    orderly = λ j. at IsOrderly j keeps.orderly (v.orderly j);
    fits = with_life-Fits p.reload (λ a. a) v.fits;
    kept = λ j made. elim (v.kept j made) [
      | inl here ↦ inl here
      | inr (inl told) ↦ inr (inl (at (λ x. x.cancelled ≡ true) j keeps.told told))
      | inr (inr handled) ↦ inr (inr handled)
    ];
    running = Runs-on p.slot (λ e. inl (sym e)) v.running;
    installed = v.installed;
    stops = with_life-Stops p.main v.stops;
  }
