-- ===== src/Scheduler/Life/Open.antt =====
-- What the steps of a scheduler's life keep: the upstreams stay open until it leaves its loop.
use dnsproxy_router.Scheduler.Round.{close_all_live}
use dnsproxy_router.Scheduler.Life.{
  begins, first, ticks, leaves, finishes, fires, has_started, begin, round, finish, fire, leaves,
  ticks, has_started, finish, first, begins, round, fire, begin, Phase, Life, launch, leave, Moves,
  launched, first_round, looping, waiting, ended,
}
use dnsproxy_router.Scheduler.Round.Open.{IsSound}
use dnsproxy_router.Scheduler.Round.Rounds.{round-IsSound, new-IsSound}
use dnsproxy_router.Prelude.{
  ap, ◌≡◌, ◌⊎◌, inl, inr, refl, Bool, true, false, [], Bytes, arith, Bool-cases,
}
use dnsproxy_router.Prelude.Int.{pos, ltb_ℤ}
use dnsproxy_router.Prelude.Sort.{SliceSort}
use dnsproxy_router.Config.{Config}

-- behind the loop
abbrev pub has_left : Phase → Bool
has_left launched = false
has_left first_round = false
has_left looping = false
has_left waiting = true
has_left ended = true

-- Until it has left its loop, a scheduler's live upstreams are open and no timer is set; then either
-- the timer is set, or nothing is live.
pub record IsOrderly (l : Life) : Type 0 where
  pub sound : has_left l.phase ≡ false → IsSound l.sched
  pub still : has_left l.phase ≡ false → l.timer ≡ false
  pub left : has_left l.phase ≡ true → (l.timer ≡ true) ⊎ (l.sched.live ≡ [])

pub launch-IsOrderly : SliceSort Bytes → (cfg : Config) → IsOrderly (launch cfg)
unfolding launch
launch-IsOrderly slices cfg = record {
  sound = λ h. new-IsSound slices cfg;
  still = λ h. refl;
  left = λ h. cc;
}

leave-left : (l : Life) → ((leave l).timer ≡ true) ⊎ ((leave l).sched.live ≡ [])
unfolding leave close_all_live
leave-left l = elim (Bool-cases (ltb_ℤ (pos 0) l.grace)) [
  | inl h ↦ inl (rw h refl)
  | inr h ↦ inr (rw h refl)
]

leave-has_left : (l : Life) → has_left (leave l).phase ≡ true
unfolding leave
leave-has_left l = ground arith

pub leave_phase : (l : Life) → (leave l).phase ≡ waiting
unfolding leave
leave_phase l = ground arith

-- A step keeps this, and does not cancel.
pub Moves-IsOrderly :
    {slices : SliceSort Bytes} {parent : Bool} {l l' : Life}
    → Moves slices parent l l'
    → IsOrderly l
    → IsOrderly l'
unfolding begin round finish fire close_all_live
Moves-IsOrderly {l} (begins at) v =
    let here : has_left l.phase ≡ false = ap has_left at in
    record { sound = λ h. v.sound here; still = λ h. v.still here; left = λ h. cc }
Moves-IsOrderly {slices} {l} (first met at) v =
    let here : has_left l.phase ≡ false = ap has_left at in
    record {
      sound = λ h. round-IsSound slices l.cfg l.sched met (v.sound here);
      still = λ h. v.still here;
      left = λ h. cc;
    }
Moves-IsOrderly {slices} {l} (ticks met at) v =
    let here : has_left l.phase ≡ false = ap has_left at in
    record {
      sound = λ h. round-IsSound slices l.cfg l.sched met (v.sound here);
      still = λ h. v.still here;
      left = λ h. cc;
    }
Moves-IsOrderly {l} (leaves at stop) v = record {
  sound = λ h. absurd (cc (leave-has_left l));
  still = λ h. absurd (cc (leave-has_left l));
  left = λ h. leave-left l;
}
Moves-IsOrderly {l} (finishes at) v = record {
  sound = λ h. absurd (cc);
  still = λ h. absurd (cc);
  left = λ h. v.left (ap has_left at);
}
Moves-IsOrderly {l} (fires set) v = record {
  sound = λ h. absurd (cc (v.still h));
  still = λ h. refl;
  left = λ h. inr refl;
}

-- A step neither calls the scheduler's own `cancel` nor undoes a call.
pub Moves-cancelled :
    {slices : SliceSort Bytes} {parent : Bool} {l l' : Life}
    → Moves slices parent l l'
    → l'.cancelled ≡ l.cancelled
unfolding begin round leave finish fire
Moves-cancelled (begins at) = refl
Moves-cancelled (first met at) = refl
Moves-cancelled (ticks met at) = refl
Moves-cancelled {l} (leaves at stop) = ground arith
Moves-cancelled (finishes at) = refl
Moves-cancelled (fires set) = refl

-- What has begun does not become undone.
pub Moves-has_started :
    {slices : SliceSort Bytes} {parent : Bool} {l l' : Life}
    → Moves slices parent l l'
    → has_started l.phase ≡ true
    → has_started l'.phase ≡ true
unfolding begin round leave finish fire
Moves-has_started (begins at) h = refl
Moves-has_started (first met at) h = refl
Moves-has_started (ticks met at) h = refl
Moves-has_started {l} (leaves at stop) h = ground arith
Moves-has_started (finishes at) h = refl
Moves-has_started (fires set) h = h

-- A scheduler that has not been told to stop stays in its loop.
pub Moves-stays :
    {slices : SliceSort Bytes} {parent : Bool} {l l' : Life}
    → Moves slices parent l l'
    → parent ≡ false
    → l.cancelled ≡ false
    → has_left l.phase ≡ false
    → has_left l'.phase ≡ false
unfolding begin round finish fire
Moves-stays (begins at) up c h = refl
Moves-stays (first met at) up c h = refl
Moves-stays (ticks met at) up c h = refl
Moves-stays (leaves at stop) up c h = absurd (ground arith)
Moves-stays (finishes at) up c h = absurd (ground arith)
Moves-stays (fires set) up c h = h

-- A scheduler that has ended stays so.
pub Moves-ended :
    {slices : SliceSort Bytes} {parent : Bool} {l l' : Life}
    → Moves slices parent l l'
    → l.phase ≡ ended
    → l'.phase ≡ ended
unfolding fire
Moves-ended (begins at) e = absurd (ground arith)
Moves-ended (first met at) e = absurd (ground arith)
Moves-ended (ticks met at) e = absurd (ground arith)
Moves-ended (leaves at stop) e = absurd (ground arith)
Moves-ended (finishes at) e = absurd (ground arith)
Moves-ended (fires set) e = e
