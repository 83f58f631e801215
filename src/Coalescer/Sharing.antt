-- ===== src/Coalescer/Sharing.antt =====
-- What every reachable state of the coalescer grants its callers.
use dnsproxy_router.Prelude.{
  ℕ, ◌≡◌, ◌⊎◌, inl, inr, refl, sym, ap, ◌∙◌, subst, some, ◌∷◌, Bytes, Option-cases, lookup,
  bytes_discrete, arith,
}
use mathlib.Core.Option.{some_inj}
use dnsproxy_router.Race.{Reply}
use dnsproxy_router.Coalescer.{update, empty, enter, complete, read_call, shared}
use dnsproxy_router.Coalescer.Steps.{
  idle, waiting, running, finishing, returned, System, Step, call, answer, leave, wake, init, Reach,
  start, later, move, seat,
}
use dnsproxy_router.Coalescer.Flight.{update_self, PassedOn, finished, Fits, Inv}
use dnsproxy_router.Coalescer.Ends.{answer-Inv, leave-Inv, wake-Inv}
use dnsproxy_router.Coalescer.Moves.{
  joins-Inv, leads-Inv, Fits-at, complete-pending, read-finished, leader_of,
}

module _ {M E : Type 0} where
  call-Inv :
      (s : System M E) (i : ℕ) (key : Bytes)
      → s.pc i ≡ idle
      → Inv s
      → Inv (move s i (enter s.group i key).0 (seat key (enter s.group i key).1))
  unfolding enter
  call-Inv s i key e inv = elim (Option-cases (lookup bytes_discrete key s.group.m)) [
    | inl h ↦ rw (h, enter) (leads-Inv s inv i key e h)
    | inr (id, h) ↦ rw (h, enter) (joins-Inv s inv i key e id h)
  ]

  Step-Inv : {s t : System M E} → Step s t → Inv s → Inv t
  Step-Inv {s} (call i key e) inv = call-Inv s i key e inv
  Step-Inv {s} (answer i key id reply e) inv =
      subst
        (λ g. Inv (record {
          group = g;
          pc = update s.pc i (finishing key id reply);
          answers = (i, key, reply) ∷ s.answers;
        }))
        (sym (complete-pending s.group id i reply (Fits-at s inv i i (running key id) e).1))
        (answer-Inv s inv i key id reply e)
  Step-Inv {s} (leave i key id reply e) inv = leave-Inv s inv i key id reply e
  Step-Inv {s} (wake i key id reply e read) inv = wake-Inv s inv i key id reply e read

  Inv-init : Inv {M = M} {E = E} init
  unfolding empty lookup
  Inv-init = record {
    unused = λ id h. refl;
    fits = λ i. tt;
    led = λ key id found. absurd (ground arith);
  }

  Reach-Inv : {s : System M E} → Reach s → Inv s
  Reach-Inv start = Inv-init
  Reach-Inv (later r st) = Step-Inv st (Reach-Inv r)

  -- However the calls interleave, two that are in `fn` for the same key are one and the same: a key
  -- is asked for once at a time.
  pub single_flight :
      (s : System M E) (i j id l : ℕ) (key : Bytes)
      → Reach s
      → s.pc i ≡ running key id
      → s.pc j ≡ running key l
      → i ≡ j
  single_flight s i j id l key r a b =
      let inv = Reach-Inv r in
      let (at, mine) = Fits-at s inv i i (running key id) a in
      let (at', yours) = Fits-at s inv j j (running key l) b in
      let same : l ≡ id = some_inj.0 (sym at' ∙ at) in
      leader_of s inv i id i j mine (ap s.group.calls (sym same) ∙ yours)

  -- However the calls interleave, what a call of `Do` returns is what `fn` returned for the same key:
  -- if `fn` returned it to this very call, it is passed on as it is; if to another call, the response
  -- is passed on without an error, or the error if there is no response.
  pub returned-PassedOn :
      (s : System M E) (i : ℕ) (key : Bytes) (reply : Reply M E)
      → Reach s
      → s.pc i ≡ returned key reply
      → PassedOn i key reply s.answers
  returned-PassedOn s i key reply r e = subst (Fits s i) e ((Reach-Inv r).fits i)

  -- A call that waits can return at once, or the one that it waits for is in `fn` for the same key,
  -- and when that returns the waiting one can.
  pub waiting-ends :
      (s : System M E) (i id : ℕ) (key : Bytes)
      → Reach s
      → s.pc i ≡ waiting key id
      → ((reply : Reply M E) × (read_call s.group id ≡ some reply))
        ⊎ ((j : ℕ) × (s.pc j ≡ running key id)
            × ((reply : Reply M E)
                → read_call (complete s.group id reply) id ≡ some (shared reply)))
  waiting-ends s i id key r e = elim (Fits-at s (Reach-Inv r) i i (waiting key id) e) [
    | inr (j, reply, c, apart, a) ↦ inl (shared reply, read-finished s.group id j reply c)
    | inl (j, c, run) ↦ inr (
      j,
      run,
      λ reply.
          ap (λ g. read_call g id) (complete-pending s.group id j reply c)
          ∙ read-finished (record s.group { calls = update s.group.calls id (finished j reply) }) id
              j reply (update_self s.group.calls id (finished j reply)),
    )
  ]
