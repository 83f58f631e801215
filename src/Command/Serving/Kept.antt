-- ===== src/Command/Serving/Kept.antt =====
-- Every step of the process keeps what holds of it.
use dnsproxy_router.Command.Serving.{
  Handles, Awaits, Runs, Fits, Stops, Inv, Keeps, update-at, with_life-Inv,
}
use dnsproxy_router.Command.{
  ends, ℤ, After, Reload, Step, start, later, moves, signal, hup, quits, decides, gives_up, swaps,
  stores, cancels, drains, drained, reads, stops, exits, Main, app_cancelled, Process, boot, resume,
  with_life, decide, swap_in, relaunch, hang_up, Step, Reach, again, listening, returned, awaiting,
  swapping, retiring, cancelling, serving, draining, stopped, crashed, stopping, joining, exited,
}
use dnsproxy_router.Coalescer.{update}
use dnsproxy_router.Config.{ConfigError, Config, NetLibrary}
use dnsproxy_router.Command.Options.{
  Options, Built, ProxyLibrary, build_base_opts, built, unparsed, panics,
}
use dnsproxy_router.Config.Normal.{Result, load_config, accepted, refused}
use dnsproxy_router.Prelude.{
  ◌∙◌, Option, Bool, ap, ℕ, ◌≡◌, ◌⊎◌, inl, inr, refl, sym, if_pos, subst, true, false, Bytes,
  ℕ_discrete, Option-cases, arith,
}
use dnsproxy_router.Prelude.Int.{pos}
use dnsproxy_router.Prelude.Sort.{SliceSort}
use dnsproxy_router.Scheduler.Life.{store_grace, cancel, Moves, Life, launch, ended, current_config}
use dnsproxy_router.Scheduler.Life.Open.{
  Moves-stays, Moves-ended, Moves-cancelled, Moves-IsOrderly, IsOrderly, launch-IsOrderly,
}

module _ (p : Process) (v : Inv p) where
  -- The reload loop moves on.
  reload-Inv :
      (r : Reload)
      → Fits p r
      → ((i : ℕ) → Handles p.reload i → ((p.lives i).cancelled ≡ true) ⊎ Handles r i)
      → Inv (record p { reload = r })
  reload-Inv r fit handed = record {
    slot_made = v.slot_made;
    orderly = v.orderly;
    fits = fit;
    kept = λ i made. elim (v.kept i made) [
      | inl here ↦ inl here
      | inr (inl told) ↦ inr (inl told)
      | inr (inr handled) ↦ inr (handed i handled)
    ];
    running = v.running;
    installed = v.installed;
    stops = v.stops;
  }

  main-Fits :
      (m : Main)
      → (app_cancelled m ≡ false → app_cancelled p.main ≡ false)
      → (r : Reload) → Fits p r
      → Fits (record p { main = m }) r
  main-Fits m up listening h = tt
  main-Fits m up returned h = tt
  main-Fits m up (awaiting id) (a, b, runs) = (a, b, λ e. runs (up e))
  main-Fits m up (swapping id) (a, b, runs, seen) = (a, b, (λ e. runs (up e)), seen)
  main-Fits m up (retiring id delay after) h = h
  main-Fits m up (cancelling id after) h = h

  -- `main` moves on.
  main-Inv :
      (m : Main)
      → (app_cancelled m ≡ false → app_cancelled p.main ≡ false)
      → Stops p m
      → Inv (record p { main = m })
  main-Inv m up halts = record {
    slot_made = v.slot_made;
    orderly = v.orderly;
    fits = main-Fits m up p.reload v.fits;
    kept = v.kept;
    running = λ e. v.running (up e);
    installed = v.installed;
    stops = halts;
  }

  Fits-at : (r : Reload) → p.reload ≡ r → Fits p r
  Fits-at r e = subst (Fits p) e v.fits

  Handles-at : (r : Reload) → p.reload ≡ r → (i : ℕ) → Handles p.reload i → Handles r i
  Handles-at r e i h = subst (λ x. Handles x i) e h

  Awaits-at : (r : Reload) → p.reload ≡ r → (i : ℕ) → Awaits p.reload i → Awaits r i
  Awaits-at r e i h = subst (λ x. Awaits x i) e h

  Stops-at : (m : Main) → p.main ≡ m → Stops p m
  Stops-at m e = subst (Stops p) e v.stops

  decide-Inv : (id : ℕ) → p.reload ≡ awaiting id → Inv (decide p id)
  unfolding decide
  decide-Inv id e = elim (Option-cases (current_config (p.lives id))) [
    | inl bad ↦
        rw (decide, bad)
          (let (a, b, runs) = Fits-at (awaiting id) e in
            reload-Inv (retiring id (pos 0) again) (a, b)
              (λ i h. inr (Handles-at (awaiting id) e i h)))
    | inr (routes, good) ↦
        rw (decide, good)
          (let (a, b, runs) = Fits-at (awaiting id) e in
            record {
              slot_made = v.slot_made;
              orderly = v.orderly;
              fits = (a, b, runs, inl refl);
              kept = λ i made. elim (v.kept i made) [
                | inl here ↦ inl here
                | inr (inl told) ↦ inr (inl told)
                | inr (inr handled) ↦ inr (inr (Handles-at (awaiting id) e i handled))
              ];
              running = v.running;
              installed = elim v.installed [ inl first ↦ inl first | inr seen ↦ inr (inr seen) ];
              stops = v.stops;
            })
  ]

  swap_in-Inv : (id : ℕ) → p.reload ≡ swapping id → Inv (swap_in p id)
  unfolding swap_in
  swap_in-Inv id e =
      let (a, b, runs, seen) = Fits-at (swapping id) e in
      record {
        slot_made = a;
        orderly = v.orderly;
        fits = (v.slot_made, λ same. b (sym same));
        kept = λ i made. elim (v.kept i made) [
          | inl here ↦ inr (inr here)
          | inr (inl told) ↦ inr (inl told)
          | inr (inr handled) ↦ inl (Handles-at (swapping id) e i handled)
        ];
        running = runs;
        installed = inr seen;
        stops = v.stops;
      }

  module _ (cfg : Config) where
    launched_at :
        (P : Life → Type 0) (j : ℕ)
        → (j ≡ p.next → P (launch cfg))
        → P (p.lives j)
        → P (update p.lives p.next (launch cfg) j)
    launched_at P j f h = update-at P p.lives p.next j (launch cfg) (λ same old. f same) h

    relaunch-Stops : (m : Main) → Stops p m → Stops (relaunch p cfg) m
    relaunch-Stops serving h = tt
    relaunch-Stops draining h = tt
    relaunch-Stops stopped h = tt
    relaunch-Stops crashed h = tt
    relaunch-Stops (stopping id) h = omega arith
    relaunch-Stops (joining id) (a, told) =
        (omega arith, launched_at (λ x. x.cancelled ≡ true) id (λ same. absurd (omega arith)) told)
    relaunch-Stops (exited id) (a, over) =
        (omega arith, launched_at (λ x. x.phase ≡ ended) id (λ same. absurd (omega arith)) over)

    launch-Runs : Runs (launch cfg)
    unfolding launch
    launch-Runs = (refl, refl)

    -- A new scheduler is started.
    relaunch-Inv : SliceSort Bytes → p.reload ≡ listening → Inv (relaunch p cfg)
    relaunch-Inv slices e = record {
      slot_made = omega (arith, v.slot_made);
      orderly = λ j. launched_at IsOrderly j (λ same. launch-IsOrderly slices cfg) (v.orderly j);
      fits = (
        omega arith,
        λ same. omega (arith, v.slot_made),
        λ up.
            subst Runs (sym (if_pos (ℕ_discrete p.next p.next) refl (launch cfg) (p.lives p.next)))
              launch-Runs,
      );
      kept = λ i made. elim (ℕ_discrete i p.next) [
        | yes same ↦ inr (inr same)
        | no apart ↦ elim (v.kept i (omega arith)) [
          | inl here ↦ inl here
          | inr (inl told) ↦
              inr (inl (launched_at (λ x. x.cancelled ≡ true) i (λ same. absurd (apart same)) told))
          | inr (inr handled) ↦ absurd (Handles-at listening e i handled)
        ]
      ];
      running = λ up. launched_at Runs p.slot (λ same. launch-Runs) (v.running up);
      installed = v.installed;
      stops = relaunch-Stops p.main v.stops;
    }

pub Result-cases :
    (r : Result) → ((e : ConfigError) × (r ≡ refused e)) ⊎ ((cfg : Config) × (r ≡ accepted cfg))
Result-cases (refused e) = inl (e, refl)
Result-cases (accepted cfg) = inr (cfg, refl)

pub Built-cases :
    {U : Type 0} (b : Built U) → (b ≡ unparsed) ⊎ (b ≡ panics) ⊎ ((o : Options U) × (b ≡ built o))
Built-cases unparsed = inl refl
Built-cases panics = inr (inl refl)
Built-cases (built o) = inr (inr (o, refl))

-- What the functions of one scheduler do to its life.
store_grace-Keeps : (delay : ℤ) (l : Life) → Keeps l (store_grace delay l)
unfolding store_grace
store_grace-Keeps delay l = record {
  orderly = λ v. record { sound = v.sound; still = v.still; left = v.left };
  told = λ h. h;
  over = λ h. h;
}

cancel-Keeps : (l : Life) → Keeps l (cancel l)
unfolding cancel
cancel-Keeps l = record {
  orderly = λ v. record { sound = v.sound; still = v.still; left = v.left };
  told = λ h. refl;
  over = λ h. h;
}

Moves-Keeps :
    {slices : SliceSort Bytes} {parent : Bool} {l l' : Life} → Moves slices parent l l' → Keeps l l'
Moves-Keeps m = record {
  orderly = Moves-IsOrderly m;
  told = λ h. Moves-cancelled m ∙ h;
  over = Moves-ended m;
}

module _ (p : Process) (v : Inv p) where
  -- `Retire` stores its delay.
  stores-Inv :
      (id : ℕ) (delay : ℤ) (after : After)
      → p.reload ≡ retiring id delay after
      → Inv (record (with_life p id (store_grace delay (p.lives id))) {
        reload = cancelling id after;
      })
  unfolding store_grace
  stores-Inv id delay after e =
      reload-Inv (with_life p id (store_grace delay (p.lives id)))
        (with_life-Inv p id (store_grace delay (p.lives id)) (store_grace-Keeps delay (p.lives id))
          (λ who up h. h) v)
        (cancelling id after) (Fits-at p v (retiring id delay after) e)
        (λ i h. inr (Handles-at p v (retiring id delay after) e i h))

  told_at : (id : ℕ) → ((with_life p id (cancel (p.lives id))).lives id).cancelled ≡ true
  unfolding cancel
  told_at id =
      subst (λ x. x.cancelled ≡ true)
        (sym (if_pos (ℕ_discrete id id) refl (cancel (p.lives id)) (p.lives id))) refl

  resume-Fits : (q : Process) (after : After) → Fits q (resume after)
  resume-Fits q again = tt
  resume-Fits q ends = tt

  -- `Retire` cancels.
  cancels-Inv :
      (id : ℕ) (after : After)
      → p.reload ≡ cancelling id after
      → Inv (record (with_life p id (cancel (p.lives id))) { reload = resume after })
  cancels-Inv id after e =
      reload-Inv (with_life p id (cancel (p.lives id)))
        (with_life-Inv p id (cancel (p.lives id)) (cancel-Keeps (p.lives id)) harmless v)
        (resume after) (resume-Fits (with_life p id (cancel (p.lives id))) after)
        (λ i h. inl (
          subst (λ x. ((with_life p id (cancel (p.lives id))).lives x).cancelled ≡ true)
            (sym (Handles-at p v (cancelling id after) e i h)) (told_at id)))
    where
      harmless :
          (id ≡ p.slot) ⊎ Awaits p.reload id
          → app_cancelled p.main ≡ false
          → Runs (p.lives id)
          → Runs (cancel (p.lives id))
      harmless (inl here) up runs = absurd ((Fits-at p v (cancelling id after) e).1 here)
      harmless (inr waits) up runs = absurd (Awaits-at p v (cancelling id after) e id waits)

  -- `Stop` cancels.
  stops-Inv :
      (id : ℕ)
      → p.main ≡ stopping id
      → Inv (record (with_life p id (cancel (p.lives id))) { main = joining id })
  stops-Inv id e =
      main-Inv (with_life p id (cancel (p.lives id)))
        (with_life-Inv p id (cancel (p.lives id)) (cancel-Keeps (p.lives id))
          (λ who up h. absurd (cc (ap app_cancelled e))) v)
        (joining id) (λ up. absurd (cc)) (Stops-at p v (stopping id) e, told_at id)

boot-Inv : SliceSort Bytes → (cfg : Config) → Inv (boot cfg)
unfolding boot launch
boot-Inv slices cfg = record {
  slot_made = omega arith;
  orderly = λ i. launch-IsOrderly slices cfg;
  fits = tt;
  kept = λ i made. inl (omega arith);
  running = λ up. (refl, refl);
  installed = inl refl;
  stops = tt;
}

module _ {U : Type 0} (net : NetLibrary) (lib : ProxyLibrary U) (slices : SliceSort Bytes) where
  hang_up-Inv :
      (p : Process) (v : Inv p) (file : Option Bytes) (decode : Bytes → Option Config)
      → p.reload ≡ listening
      → Inv (hang_up net lib p file decode)
  unfolding hang_up
  hang_up-Inv p v file decode e = elim (Result-cases (load_config net file decode)) [
    | inl (error, bad) ↦ rw (hang_up, bad) v
    | inr (cfg, good) ↦ elim (Built-cases (build_base_opts lib cfg)) [
      | inl bad ↦ rw (hang_up, good, bad) v
      | inr (inl crash) ↦ rw (hang_up, good, crash) (main-Inv p v crashed (λ up. absurd (cc)) tt)
      | inr (inr (opts, done)) ↦ rw (hang_up, good, done) (relaunch-Inv p v cfg slices e)
    ]
  ]

  -- Every step keeps what holds of the process.
  pub Step-Inv : {p q : Process} → Step net lib slices p q → Inv p → Inv q
  Step-Inv {p} (moves i l made m) v =
      with_life-Inv p i l (Moves-Keeps m)
        (λ who up runs. (Moves-cancelled m ∙ runs.0, Moves-stays m up runs.0 runs.1)) v
  Step-Inv signal v = record {
    slot_made = v.slot_made;
    orderly = v.orderly;
    fits = v.fits;
    kept = v.kept;
    running = v.running;
    installed = v.installed;
    stops = v.stops;
  }
  Step-Inv {p} (hup file decode e) v = hang_up-Inv p v file decode e
  Step-Inv {p} (quits e stop) v =
      reload-Inv p v returned tt (λ i h. inr (Handles-at p v listening e i h))
  Step-Inv {p} (decides id e first) v = decide-Inv p v id e
  Step-Inv {p} (gives_up id e stop) v =
      let fit = Fits-at p v (awaiting id) e in
      reload-Inv p v (retiring id (pos 0) ends) (fit.0, fit.1)
        (λ i h. inr (Handles-at p v (awaiting id) e i h))
  Step-Inv {p} (swaps id e) v = swap_in-Inv p v id e
  Step-Inv {p} (stores id delay after e begun) v = stores-Inv p v id delay after e
  Step-Inv {p} (cancels id after e) v = cancels-Inv p v id after e
  Step-Inv {p} (drains e stop) v = main-Inv p v draining (λ up. ap app_cancelled e) tt
  Step-Inv {p} (drained e) v = main-Inv p v stopped (λ up. absurd (cc)) tt
  Step-Inv {p} (reads e) v = main-Inv p v (stopping p.slot) (λ up. absurd (cc)) v.slot_made
  Step-Inv {p} (stops id e begun) v = stops-Inv p v id e
  Step-Inv {p} (exits id e over) v =
      main-Inv p v (exited id) (λ up. absurd (cc)) ((Stops-at p v (joining id) e).0, over)

  pub Reach-Inv : {cfg : Config} {p : Process} → Reach net lib slices cfg p → Inv p
  Reach-Inv {cfg} start = boot-Inv slices cfg
  Reach-Inv (later r step) = Step-Inv step (Reach-Inv r)
