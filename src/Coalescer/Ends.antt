-- ===== src/Coalescer/Ends.antt =====
-- An answer, the end of the call that led, and a return of one that waited keep the invariant.
use dnsproxy_router.Prelude.{
  Any-map, ℕ, ◌≡◌, ◌≢◌, ◌≤◌, ◌⊎◌, inl, inr, refl, sym, subst, ap, ◌∙◌, Option, none, some, List,
  ◌∷◌, Bytes, bytes_discrete, ℕ_discrete, lookup, arith, lookup-remove_self, lookup-remove_ne,
}
use mathlib.Core.Option.{some_inj}
use dnsproxy_router.Race.{Reply}
use dnsproxy_router.Coalescer.{Coalescer, Call, update, forget, shared, read_call}
use dnsproxy_router.Coalescer.Steps.{Pc, idle, waiting, running, finishing, returned, System, move}
use dnsproxy_router.Coalescer.Flight.{
  update_self, update-ne, PassedOn, IsShared, shared-IsShared, pending, finished, Fits, IsLed, Inv,
  stays, after, Keeps, Fits-kept,
}
use dnsproxy_router.Coalescer.Moves.{
  read-pending, read-finished, Fits-at, leader_of, not_pending, key_of, IsLed-kept, Inv-after,
}

module _ {M E : Type 0} (s : System M E) (inv : Inv s) (i : ℕ) where
  -- The leader's second critical section.
  pub leave-Inv :
      (key : Bytes) (id : ℕ) (reply : Reply M E)
      → s.pc i ≡ finishing key id reply
      → Inv (move s i (forget s.group key) (returned key reply))
  unfolding forget
  leave-Inv key id reply e =
      Inv-after s inv i g p s.answers inv.unused
        (Any-map (λ a h. (h.1, inl (h.0, h.2))) s.answers (Fits-at s inv i i _ e).2)
        (λ j apart. Fits-kept s i g p s.answers j (s.pc j) (keeps j apart) (inv.fits j)) led
    where
      g : Coalescer M E
      g = forget s.group key

      p : Pc M E
      p = returned key reply

      away : (q : Pc M E) → finishing key id reply ≢ q → s.pc i ≢ q
      away q h same = h (sym e ∙ same)

      same_call :
          (k : Bytes) (l : ℕ)
          → k ≡ key
          → lookup bytes_discrete k s.group.m ≡ some l
          → s.group.calls l ≡ finished i reply
      same_call k l same found =
          ap s.group.calls (
            some_inj.0 (
              sym found
              ∙ ap (λ x. lookup bytes_discrete x s.group.m) same
              ∙ (Fits-at s inv i i _ e).0))
          ∙ (Fits-at s inv i i _ e).1

      other :
          (j : ℕ) (k : Bytes) (l : ℕ)
          → j ≢ i
          → (s.pc j ≡ running k l) ⊎ ((r : Reply M E) × (s.pc j ≡ finishing k l r))
          → k ≢ key
      other j k l apart (inl run) same =
          let (at, c) = Fits-at s inv i j _ run in cc (same_call k l same at)
      other j k l apart (inr (r, fin)) same =
          let (at, c, a) = Fits-at s inv i j _ fin in apart (cc (same_call k l same at))

      keeps : (j : ℕ) → j ≢ i → Keeps s i g p s.answers j (s.pc j)
      keeps j apart = record {
        registered = λ k l w found.
            lookup-remove_ne bytes_discrete key k s.group.m (other j k l apart w) ∙ found;
        objects = λ l c found. found;
        history = λ P a. a;
        apart = λ k l. away (running k l) (cc);
      }

      gone : (k : Bytes) (l : ℕ) → k ≡ key → lookup bytes_discrete k g.m ≢ some l
      gone k l same found =
          let none_left : none ≡ some l =
            sym (lookup-remove_self bytes_discrete key s.group.m)
            ∙ sym (ap (λ x. lookup bytes_discrete x g.m) same)
            ∙ found in
          cc

      led :
          (k : Bytes) (l : ℕ)
          → lookup bytes_discrete k g.m ≡ some l
          → IsLed (after s i g p s.answers) k l
      led k l found = elim (bytes_discrete k key) [
        | yes same ↦ absurd (gone k l same found)
        | no apart ↦
            IsLed-kept s inv i g p s.answers k l (away _ (cc))
              (λ r. away _ (λ x. apart (ground arith)))
              (inv.led k l (sym (lookup-remove_ne bytes_discrete key k s.group.m apart) ∙ found))
      ]

  -- A waiter returns.
  pub wake-Inv :
      (key : Bytes) (id : ℕ) (reply : Reply M E)
      → s.pc i ≡ waiting key id
      → read_call s.group id ≡ some reply
      → Inv (move s i s.group (returned key reply))
  unfolding read_call
  wake-Inv key id reply e read =
      Inv-after s inv i s.group p s.answers inv.unused (self (Fits-at s inv i i _ e))
        (λ j apart. Fits-kept s i s.group p s.answers j (s.pc j) keeps (inv.fits j))
        (λ k l found.
          IsLed-kept s inv i s.group p s.answers k l (away _ (cc)) (λ r. away _ (cc))
            (inv.led k l found))
    where
      p : Pc M E
      p = returned key reply

      away : (q : Pc M E) → waiting key id ≢ q → s.pc i ≢ q
      away q h same = h (sym e ∙ same)

      keeps : {j : ℕ} {q : Pc M E} → Keeps s i s.group p s.answers j q
      keeps = record {
        registered = λ k l w found. found;
        objects = λ l c found. found;
        history = λ P a. a;
        apart = λ k l. away (running k l) (cc);
      }

      self : Fits s i (waiting key id) → PassedOn i key reply s.answers
      self (inl (j, c, run)) = absurd (cc (read-pending s.group id j c))
      self (inr (j, r, c, apart, a)) =
          let eq : reply ≡ shared r = cc (read-finished s.group id j r c) in
          Any-map
            (λ b h. (
              h.1,
              inr (
                λ same. apart (sym h.0 ∙ same),
                subst (λ x. IsShared b.2 x) (sym (eq ∙ ap shared h.2)) (shared-IsShared b.2),
              ),
            ))
            s.answers a

  -- The leader's `fn` returns.
  pub answer-Inv :
      (key : Bytes) (id : ℕ) (reply : Reply M E)
      → s.pc i ≡ running key id
      → Inv (
          after s i
            (record s.group { calls = update s.group.calls id (finished i reply) })
            (finishing key id reply)
            ((i, key, reply) ∷ s.answers))
  answer-Inv key id reply e =
      Inv-after s inv i g p answers unused
        (
          (Fits-at s inv i i _ e).0,
          update_self s.group.calls id (finished i reply),
          inl (refl, refl, refl),
        )
        (λ j apart. other j apart (s.pc j) refl) led
    where
      p : Pc M E
      p = finishing key id reply

      g : Coalescer M E
      g = record s.group { calls = update s.group.calls id (finished i reply) }

      answers : List (ℕ × Bytes × Reply M E)
      answers = (i, key, reply) ∷ s.answers

      mine : s.group.calls id ≡ pending i
      mine = (Fits-at s inv i i _ e).1

      unused : (l : ℕ) → s.group.next ≤ l → g.calls l ≡ none
      unused l h =
          update-ne s.group.calls id l (finished i reply)
            (λ same. cc (inv.unused l h, ap s.group.calls same, mine))
          ∙ inv.unused l h

      away : (q : Pc M E) → running key id ≢ q → s.pc i ≢ q
      away q h same = h (sym e ∙ same)

      object : (l : ℕ) (c : Option (Call M E)) → s.group.calls l ≡ c → pending i ≢ c → g.calls l ≡ c
      object l c at h =
          update-ne s.group.calls id l (finished i reply)
            (λ same. h (sym mine ∙ sym (ap s.group.calls same) ∙ at))
          ∙ at

      other : (j : ℕ) → j ≢ i → (q : Pc M E) → s.pc j ≡ q → Fits (after s i g p answers) j q
      other j apart idle at = tt
      other j apart (running k l) at =
          let (found, c) = Fits-at s inv i j _ at in
          (found, object l _ c (λ same. apart (ground arith)))
      other j apart (finishing k l r) at =
          let (found, c, a) = Fits-at s inv i j _ at in (found, object l _ c (λ same. cc), inr a)
      other j apart (returned k r) at = inr (Fits-at s inv i j _ at)
      other j apart (waiting k l) at = elim (Fits-at s inv i j _ at) [
        | inr (w, r, c, n, a) ↦ inr (w, r, object l _ c (λ same. cc), n, inr a)
        | inl (w, c, run) ↦ elim (ℕ_discrete l id) [
          | no different ↦ inl (
            w,
            update-ne s.group.calls id l (finished i reply) different ∙ c,
            stays s i w p _ (away _ (λ x. different (ground arith))) run,
          )
          | yes same ↦
              let one : w ≡ i = leader_of s inv i l w i (c) (ap s.group.calls same ∙ mine) in
              inr (
                i,
                reply,
                ap g.calls same ∙ update_self s.group.calls id (finished i reply),
                λ same. apart (sym same),
                inl (refl, key_of s inv i key k id l (sym e ∙ ap s.pc (sym one) ∙ run), refl),
              )
        ]
      ]

      by_leader : {k : Bytes} {l : ℕ} → IsLed s k l → l ≡ id → IsLed (after s i g p answers) k l
      by_leader {k} {l} (w, inl run) same =
          let one : w ≡ i =
            leader_of s inv i l w i (Fits-at s inv i w _ run).1 (ap s.group.calls same ∙ mine) in
          let named : key ≡ k = key_of s inv i key k id l (sym e ∙ ap s.pc (sym one) ∙ run) in
          (
            i,
            inr (
              reply,
              update_self s.pc i p
                  ∙ ap (λ x. finishing x id reply) named
                  ∙ ap (λ x. finishing k x reply) (sym same),
            ),
          )
      by_leader {k} {l} (w, inr (r, fin)) same =
          absurd
            (not_pending s inv i l w i r (Fits-at s inv i w _ fin).1 (ap s.group.calls same ∙ mine))

      led :
          (k : Bytes) (l : ℕ)
          → lookup bytes_discrete k g.m ≡ some l
          → IsLed (after s i g p answers) k l
      led k l found = elim (ℕ_discrete l id) [
        | no different ↦
            IsLed-kept s inv i g p answers k l (away _ (λ x. different (ground arith)))
              (λ r. away _ (λ x. cc)) (inv.led k l found)
        | yes same ↦ by_leader (inv.led k l found) same
      ]
