-- ===== src/Command/Exit.antt =====
-- Neither the exit of the process nor a reload can be stuck.
use dnsproxy_router.Command.Shutdown.Returns.{begun, probed, over}
use dnsproxy_router.Command.Shutdown.{here, next, Continues, Continues-trans}
use dnsproxy_router.Command.Serving.Kept.{Reach-Inv}
use dnsproxy_router.Command.Serving.{Fits, Stops, Inv}
use dnsproxy_router.Command.{
  some, After, again, ends, Reload, listening, returned, awaiting, swapping, retiring, cancelling,
  Main, serving, draining, stopped, crashed, stopping, joining, exited, app_cancelled, Process,
  resume, with_life, decide, swap_in, Step, decides, swaps, stores, cancels, drains, drained, reads,
  stops, exits, Reach,
}
use dnsproxy_router.Afp.{Addr}
use dnsproxy_router.Command.Reloading.{Reach-ne-crashed}
use dnsproxy_router.Command.Options.{ProxyLibrary}
use dnsproxy_router.Config.{Config, NetLibrary}
use dnsproxy_router.Prelude.{
  ℕ, ◌≡◌, ◌≢◌, ◌<◌, ◌⊎◌, ◌||◌, inl, inr, refl, ap, ◌∙◌, subst, true, ◌∷◌, Bytes, Option-cases,
  arith,
}
use dnsproxy_router.Prelude.Int.{ℤ, pos}
use dnsproxy_router.Prelude.Sort.{SliceSort}
use dnsproxy_router.Scheduler.Life.{current_config, ended, cancel, store_grace}

module _ {U : Type 0} (net : NetLibrary) (lib : ProxyLibrary U) (slices : SliceSort Bytes) where
  abbrev Leads : Process → Process → Type 0
  Leads = Continues net lib slices

  -- Steps lead out of `main`, and the scheduler that it stopped has ended.
  abbrev pub Exits : Process → Type 0
  Exits p =
      (q : Process) × Leads p q × (id : ℕ) × (q.main ≡ exited id) × ((q.lives id).phase ≡ ended)

  after : (p q : Process) → Leads p q → Exits q → Exits p
  after p q c (r, d, id, e, over) = (r, Continues-trans net lib slices c d, id, e, over)

  one : (p q : Process) → Step net lib slices p q → Leads p q
  one p q step = next here step

  exit_joining : (p : Process) (id : ℕ) → id < p.next → p.main ≡ joining id → Exits p
  exit_joining p id made e =
      let (q, c, m, r, n, s, d, finished) =
        over net lib slices id p made (ap (λ x. app_cancelled x || (p.lives id).cancelled) e) in
      (record q { main = exited id }, next c (exits id (m ∙ e) finished), id, refl, finished)

  exit_stopping : (p : Process) (id : ℕ) → id < p.next → p.main ≡ stopping id → Exits p
  exit_stopping p id made e =
      let (q, c, m, r, n, s, d, begins) = begun net lib slices id p made in
      after p q c (
        after q (record (with_life q id (cancel (q.lives id))) { main = joining id })
          (one q _ (stops id (m ∙ e) begins))
          (exit_joining (record (with_life q id (cancel (q.lives id))) { main = joining id }) id
            (omega (arith, n, made)) refl))

  exit_stopped : (p : Process) → p.slot < p.next → p.main ≡ stopped → Exits p
  exit_stopped p made e =
      after p (record p { main = stopping p.slot }) (one p _ (reads e))
        (exit_stopping (record p { main = stopping p.slot }) p.slot made refl)

  exit_draining : (p : Process) → p.slot < p.next → p.main ≡ draining → Exits p
  exit_draining p made e =
      after p (record p { main = stopped }) (one p _ (drained e))
        (exit_stopped (record p { main = stopped }) made refl)

  exit_serving : (p : Process) → p.slot < p.next → p.done ≡ true → p.main ≡ serving → Exits p
  exit_serving p made stop e =
      after p (record p { main = draining }) (one p _ (drains e stop))
        (exit_draining (record p { main = draining }) made refl)

  exit_from :
      (p : Process) (v : Inv p) → p.done ≡ true → (m : Main) → p.main ≡ m → m ≢ crashed → Exits p
  exit_from p v stop serving e fine = exit_serving p v.slot_made stop e
  exit_from p v stop draining e fine = exit_draining p v.slot_made e
  exit_from p v stop stopped e fine = exit_stopped p v.slot_made e
  exit_from p v stop crashed e fine = absurd (fine refl)
  exit_from p v stop (stopping id) e fine = exit_stopping p id (subst (Stops p) e v.stops) e
  exit_from p v stop (joining id) e fine = exit_joining p id (subst (Stops p) e v.stops).0 e
  exit_from p v stop (exited id) e fine = (p, here, id, e, (subst (Stops p) e v.stops).1)

  -- After a signal the process can always get to its exit, if netip parses what it accepts as an
  -- address: wherever the reload loop and the schedulers stand there are steps to the return of
  -- `main`, and then the loop of the scheduler that it stopped has ended. No wait of `Stop` is for
  -- ever, and no reload has killed the process by a panic.
  pub shutdown-exits :
      ((a : Bytes) → net.parses_addr a ≡ true → (x : Addr) × (lib.parse_addr a ≡ some x))
      → {cfg : Config} {p : Process} → Reach net lib slices cfg p
      → p.done ≡ true
      → Exits p
  shutdown-exits agrees {cfg} {p} r stop =
      exit_from p (Reach-Inv net lib slices r) stop p.main refl
        (Reach-ne-crashed net lib agrees slices r)

  -- The reload loop is at its `select` or has returned.
  abbrev pub Settles : Process → Type 0
  Settles p = (q : Process) × Leads p q × ((q.reload ≡ listening) ⊎ (q.reload ≡ returned))

  later-Settles : (p q : Process) → Leads p q → Settles q → Settles p
  later-Settles p q c (r, d, h) = (r, Continues-trans net lib slices c d, h)

  resume_settles : (after : After) → (resume after ≡ listening) ⊎ (resume after ≡ returned)
  resume_settles again = inl refl
  resume_settles ends = inr refl

  settle_cancelling :
      (p : Process) (id : ℕ) (next_stop : After) → p.reload ≡ cancelling id next_stop → Settles p
  settle_cancelling p id next_stop e = (
    record (with_life p id (cancel (p.lives id))) { reload = resume next_stop },
    one p _ (cancels id next_stop e),
    resume_settles next_stop,
  )

  settle_retiring :
      (p : Process) (id : ℕ) (delay : ℤ) (next_stop : After)
      → id < p.next
      → p.reload ≡ retiring id delay next_stop
      → Settles p
  settle_retiring p id delay next_stop made e =
      let (q, c, m, r, n, s, d, begins) = begun net lib slices id p made in
      later-Settles p q c (
        later-Settles q
          (record (with_life q id (store_grace delay (q.lives id))) {
            reload = cancelling id next_stop;
          })
          (one q _ (stores id delay next_stop (r ∙ e) begins))
          (settle_cancelling
            (record (with_life q id (store_grace delay (q.lives id))) {
              reload = cancelling id next_stop;
            })
            id next_stop refl))

  settle_swapping : (p : Process) (id : ℕ) → p.slot < p.next → p.reload ≡ swapping id → Settles p
  unfolding swap_in
  settle_swapping p id made e =
      later-Settles p (swap_in p id) (one p (swap_in p id) (swaps id e))
        (settle_retiring (swap_in p id) p.slot _ again made refl)

  settle_decided : (p : Process) (id : ℕ) → id < p.next → p.slot < p.next → Settles (decide p id)
  unfolding decide
  settle_decided p id made slot_made = elim (Option-cases (current_config (p.lives id))) [
    | inl bad ↦
        rw (decide, bad)
          (settle_retiring (record p { reload = retiring id (pos 0) again }) id (pos 0) again made
            refl)
    | inr (routes, good) ↦
        rw (decide, good)
          (settle_swapping (record p { reload = swapping id; found = id ∷ p.found }) id slot_made
            refl)
  ]

  settle_awaiting :
      (p : Process) (id : ℕ) → id < p.next → p.slot < p.next → p.reload ≡ awaiting id → Settles p
  settle_awaiting p id made slot_made e =
      let (q, c, m, r, n, s, d, done) = probed net lib slices id p made in
      later-Settles p q c (
        later-Settles q (decide q id) (one q (decide q id) (decides id (r ∙ e) done))
          (settle_decided q id (omega (arith, n, made)) (omega (arith, n, s, slot_made))))

  settle_from : (p : Process) (v : Inv p) (r : Reload) → p.reload ≡ r → Settles p
  settle_from p v listening e = (p, here, inl e)
  settle_from p v returned e = (p, here, inr e)
  settle_from p v (awaiting id) e = settle_awaiting p id (subst (Fits p) e v.fits).0 v.slot_made e
  settle_from p v (swapping id) e = settle_swapping p id v.slot_made e
  settle_from p v (retiring id delay next_stop) e =
      settle_retiring p id delay next_stop (subst (Fits p) e v.fits).0 e
  settle_from p v (cancelling id next_stop) e = settle_cancelling p id next_stop e

  -- A reload can always be brought to its end: from each state that the process can reach there are
  -- steps that bring the reload loop back to its `select`, or to its return. No wait of `Retire` or
  -- for a first round is for ever.
  pub reload-Settles : {cfg : Config} {p : Process} → Reach net lib slices cfg p → Settles p
  reload-Settles {p} r = settle_from p (Reach-Inv net lib slices r) p.reload refl
