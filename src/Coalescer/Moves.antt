-- ===== src/Coalescer/Moves.antt =====
-- A call that joins or leads keeps the invariant.
use dnsproxy_router.Prelude.{
  ℕ, suc, ◌≡◌, ◌≢◌, ◌≤◌, inl, inr, refl, sym, ap, ◌∙◌, subst, none, some, List, Bytes,
  bytes_discrete, lookup, arith, lookup-insert_self, lookup-insert_ne, insert,
}
use mathlib.Core.Option.{some_inj}
use dnsproxy_router.Race.{Reply}
use dnsproxy_router.Coalescer.{Coalescer, Call, update, complete, shared, read_call}
use dnsproxy_router.Coalescer.Steps.{Pc, idle, waiting, running, finishing, System, move}
use dnsproxy_router.Coalescer.Flight.{
  update_self, update-ne, pending, finished, Fits, IsLed, Inv, stays, Fits-holds, after, Keeps,
  Fits-kept,
}

module _ {M E : Type 0} (g : Coalescer M E) (id j : ℕ) where
  pub read-pending : g.calls id ≡ pending j → read_call g id ≡ none
  unfolding read_call
  read-pending c = rw (read_call, c) refl

  pub read-finished : (r : Reply M E) → g.calls id ≡ finished j r → read_call g id ≡ some (shared r)
  unfolding read_call
  read-finished r c = rw (read_call, c) refl

  pub complete-pending :
      (r : Reply M E)
      → g.calls id ≡ pending j
      → complete g id r ≡ record g { calls = update g.calls id (finished j r) }
  unfolding complete
  complete-pending r c = rw (complete, c) refl

module _ {M E : Type 0} (s : System M E) (inv : Inv s) (i : ℕ) where
  pub Fits-at : (j : ℕ) (q : Pc M E) → s.pc j ≡ q → Fits s j q
  Fits-at j q e = subst (Fits s j) e (inv.fits j)

  pub leader_of : (l j k : ℕ) → s.group.calls l ≡ pending j → s.group.calls l ≡ pending k → j ≡ k
  leader_of l j k a b = ground arith

  pub not_pending :
      (l j k : ℕ) (r : Reply M E) → s.group.calls l ≡ finished j r → s.group.calls l ≢ pending k
  not_pending l j k r a b = ground arith

  pub key_of : (k h : Bytes) (x y : ℕ) → ◌≡◌ {A = Pc M E} (running k x) (running h y) → k ≡ h
  key_of k h x y e = ground arith

  -- A leader other than thread `i` is a leader still.
  pub IsLed-kept :
      (g : Coalescer M E) (p : Pc M E) (answers : List (ℕ × Bytes × Reply M E)) (key : Bytes)
      (id : ℕ)
      → s.pc i ≢ running key id
      → ((reply : Reply M E) → s.pc i ≢ finishing key id reply)
      → IsLed s key id
      → IsLed (after s i g p answers) key id
  IsLed-kept g p answers key id a b (j, inl run) = (j, inl (stays s i j p _ a run))
  IsLed-kept g p answers key id a b (j, inr (reply, fin)) =
      (j, inr (reply, stays s i j p _ (b reply) fin))

  module _ (g : Coalescer M E) (p : Pc M E) (answers : List (ℕ × Bytes × Reply M E)) where
    -- The invariant after a step, from what it does to thread `i` and what it keeps.
    pub Inv-after :
        ((id : ℕ) → g.next ≤ id → g.calls id ≡ none)
        → Fits (after s i g p answers) i p
        → ((j : ℕ) → j ≢ i → Fits (after s i g p answers) j (s.pc j))
        → ((key : Bytes) (id : ℕ)
            → lookup bytes_discrete key g.m ≡ some id
            → IsLed (after s i g p answers) key id)
        → Inv (after s i g p answers)
    Inv-after unused self other led = record {
      unused = unused;
      fits = Fits-holds s (after s i g p answers) i p self other;
      led = led;
    }

  module _ (key : Bytes) (e : s.pc i ≡ idle) where
    away : (q : Pc M E) → idle ≢ q → s.pc i ≢ q
    away q h same = h (sym e ∙ same)

    -- Waiting for a call that is in flight.
    pub joins-Inv :
        (id : ℕ)
        → lookup bytes_discrete key s.group.m ≡ some id
        → Inv (move s i s.group (waiting key id))
    joins-Inv id at =
        Inv-after s.group (waiting key id) s.answers inv.unused (self (inv.led key id at))
          (λ j apart.
            Fits-kept s i s.group (waiting key id) s.answers j (s.pc j) keeps (inv.fits j))
          (λ k l found.
            IsLed-kept s.group (waiting key id) s.answers k l (away _ (cc)) (λ r. away _ (cc))
              (inv.led k l found))
      where
        keeps : {j : ℕ} {q : Pc M E} → Keeps s i s.group (waiting key id) s.answers j q
        keeps = record {
          registered = λ k l w found. found;
          objects = λ l c found. found;
          history = λ P a. a;
          apart = λ k l. away (running k l) (cc);
        }

        self : IsLed s key id → Fits (move s i s.group (waiting key id)) i (waiting key id)
        self (j, inl run) =
            inl (j, (Fits-at j _ run).1, stays s i j (waiting key id) _ (away _ (cc)) run)
        self (j, inr (reply, fin)) =
            let (_, c, a) = Fits-at j _ fin in
            inr (j, reply, c, λ same. absurd (cc (ap s.pc same, e, fin)), a)

    -- Leading a new call.
    pub leads-Inv :
        lookup bytes_discrete key s.group.m ≡ none
        → Inv (
            move s i
              (record {
                m = insert bytes_discrete key s.group.next s.group.m;
                calls = update s.group.calls s.group.next (pending i);
                next = suc s.group.next;
              })
              (running key s.group.next))
    leads-Inv none_yet =
        Inv-after g (running key n) s.answers unused
          (
            lookup-insert_self bytes_discrete key n s.group.m,
            update_self s.group.calls n (pending i),
          )
          (λ j apart. Fits-kept s i g (running key n) s.answers j (s.pc j) keeps (inv.fits j)) led
      where
        n : ℕ
        n = s.group.next

        g : Coalescer M E
        g = record {
          m = insert bytes_discrete key n s.group.m;
          calls = update s.group.calls n (pending i);
          next = suc n;
        }

        other : (k : Bytes) (l : ℕ) → lookup bytes_discrete k s.group.m ≡ some l → k ≢ key
        other k l found same = cc (ap (λ x. lookup bytes_discrete x s.group.m) same)

        unused : (l : ℕ) → suc n ≤ l → g.calls l ≡ none
        unused l h =
            update-ne s.group.calls n l (pending i) (λ same. omega arith)
            ∙ inv.unused l (omega arith)

        old : (l : ℕ) (c : Call M E) → s.group.calls l ≡ some c → l ≢ n
        old l c found same = cc (inv.unused l (omega arith))

        keeps : {j : ℕ} {q : Pc M E} → Keeps s i g (running key n) s.answers j q
        keeps = record {
          registered = λ k l w found.
              lookup-insert_ne bytes_discrete key k n s.group.m (other k l found) ∙ found;
          objects = λ l c found. update-ne s.group.calls n l (pending i) (old l c found) ∙ found;
          history = λ P a. a;
          apart = λ k l. away (running k l) (cc);
        }

        led :
            (k : Bytes) (l : ℕ)
            → lookup bytes_discrete k g.m ≡ some l
            → IsLed (after s i g (running key n) s.answers) k l
        led k l found = elim (bytes_discrete k key) [
          | yes same ↦
              let at : l ≡ n = some_inj.0 (
                sym found
                ∙ ap (λ x. lookup bytes_discrete x g.m) same
                ∙ lookup-insert_self bytes_discrete key n s.group.m) in
              (
                i,
                inl (
                    update_self s.pc i (running key n)
                    ∙ ap (λ x. running x n) (sym same)
                    ∙ ap (running k) (sym at)),
              )
          | no apart ↦
              IsLed-kept g (running key n) s.answers k l (away _ (cc)) (λ r. away _ (cc))
                (inv.led k l
                  (sym (lookup-insert_ne bytes_discrete key k n s.group.m apart) ∙ found))
        ]
