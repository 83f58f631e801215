-- ===== src/Coalescer/Flight.antt =====
-- What holds in every reachable state of the coalescer.
use dnsproxy_router.Prelude.{
  ℕ, ◌≡◌, ◌≢◌, ◌≤◌, ◌⊎◌, inl, inr, refl, sym, ap, ◌∙◌, subst, Option, none, some, List, Bytes,
  bytes_discrete, ℕ_discrete, lookup, Any, Option-cases, if_pos, if_neg,
}
use dnsproxy_router.Race.{Reply}
use dnsproxy_router.Coalescer.{Coalescer, Call, update, shared}
use dnsproxy_router.Coalescer.Steps.{Pc, idle, waiting, running, finishing, returned, System}

module _ {ℓ} {A : Type ℓ} (f : ℕ → A) where
  pub update_self : (i : ℕ) (a : A) → update f i a i ≡ a
  update_self i a = if_pos (ℕ_discrete i i) refl a (f i)

  pub update-ne : (i j : ℕ) (a : A) → j ≢ i → update f i a j ≡ f j
  update-ne i j a h = if_neg (ℕ_discrete j i) h a (f j)

module _ {M E : Type 0} where
  -- `fn` returned the reply to thread `i`, for the key.
  abbrev pub Answered : ℕ → Bytes → Reply M E → List (ℕ × Bytes × Reply M E) → Type 0
  Answered i key reply = Any (λ a. (a.0 ≡ i) × (a.1 ≡ key) × (reply ≡ a.2))

  -- The response alone, or the error if there is no response.
  abbrev pub IsShared : Reply M E → Reply M E → Type 0
  IsShared given reply =
      (reply.resp ≡ given.resp)
      × (((given.resp ≡ none) × (reply.err ≡ given.err))
          ⊎ ((given.resp ≢ none) × (reply.err ≡ none)))

  pub shared-IsShared : (given : Reply M E) → IsShared given (shared given)
  unfolding shared
  shared-IsShared given = elim (Option-cases given.resp) [
    | inl h ↦ rw h (refl, inl (refl, refl))
    | inr (m, h) ↦ rw h (refl, inr (λ e. cc, refl))
  ]

  -- The reply is what `fn` returned for the key: as it is, if it returned it to thread `i` itself, and
  -- the response or else the error, if it returned it to another.
  abbrev pub PassedOn : ℕ → Bytes → Reply M E → List (ℕ × Bytes × Reply M E) → Type 0
  PassedOn i key reply =
      Any (λ a. (a.1 ≡ key) × (((a.0 ≡ i) × (reply ≡ a.2)) ⊎ ((a.0 ≢ i) × IsShared a.2 reply)))

  abbrev pub pending : ℕ → Option (Call M E)
  pending i = some (record { leader = i; result = none })

  abbrev pub finished : ℕ → Reply M E → Option (Call M E)
  finished i reply = some (record { leader = i; result = some reply })

  -- What the state of thread `i` says about the rest.
  abbrev pub Fits : System M E → ℕ → Pc M E → Type 0
  Fits s i idle = Unit
  Fits s i (running key id) =
      (lookup bytes_discrete key s.group.m ≡ some id) × (s.group.calls id ≡ pending i)
  Fits s i (finishing key id reply) =
      (lookup bytes_discrete key s.group.m ≡ some id)
      × (s.group.calls id ≡ finished i reply)
      × Answered i key reply s.answers
  Fits s i (waiting key id) =
      ((j : ℕ) × (s.group.calls id ≡ pending j) × (s.pc j ≡ running key id))
      ⊎ ((j : ℕ) × (reply : Reply M E) × (s.group.calls id ≡ finished j reply)
          × (j ≢ i)
          × Answered j key reply s.answers)
  Fits s i (returned key reply) = PassedOn i key reply s.answers

  -- A registered call has a leader that is still to remove it.
  abbrev pub IsLed : System M E → Bytes → ℕ → Type 0
  IsLed s key id =
      (i : ℕ) × ((s.pc i ≡ running key id)
        ⊎ ((reply : Reply M E) × (s.pc i ≡ finishing key id reply)))

  pub record Inv (s : System M E) : Type 0 where
    pub unused : (id : ℕ) → s.group.next ≤ id → s.group.calls id ≡ none
    pub fits : (i : ℕ) → Fits s i (s.pc i)
    pub led :
        (key : Bytes) (id : ℕ) → lookup bytes_discrete key s.group.m ≡ some id → IsLed s key id

  -- A thread that stands at `q` stands there still while another, which does not, moves.
  pub stays :
      (s : System M E) (i j : ℕ) (p q : Pc M E) → s.pc i ≢ q → s.pc j ≡ q → update s.pc i p j ≡ q
  stays s i j p q h e = update-ne s.pc i j p (λ same. h (ap s.pc (sym same) ∙ e)) ∙ e

  -- All threads fit if the one that moves does and the others do.
  pub Fits-holds :
      (s t : System M E) (i : ℕ) (p : Pc M E)
      → Fits t i p
      → ((j : ℕ) → j ≢ i → Fits t j (s.pc j))
      → (j : ℕ) → Fits t j (update s.pc i p j)
  Fits-holds s t i p self other j = elim (ℕ_discrete j i) [
    | yes e ↦
        subst (λ k. Fits t k (update s.pc i p k)) (sym e)
          (subst (Fits t i) (sym (update_self s.pc i p)) self)
    | no h ↦ subst (Fits t j) (sym (update-ne s.pc i j p h)) (other j h)
  ]

  module _ (s : System M E) (i : ℕ) (g : Coalescer M E) (p : Pc M E)
      (answers : List (ℕ × Bytes × Reply M E)) where
    abbrev pub after : System M E
    after = record { group = g; pc = update s.pc i p; answers = answers }

    -- What a step of thread `i` keeps of what thread `j`, at `q`, rests on.
    pub record Keeps (j : ℕ) (q : Pc M E) : Type 1 where
      pub registered :
          (key : Bytes) (id : ℕ)
          → (q ≡ running key id) ⊎ ((reply : Reply M E) × (q ≡ finishing key id reply))
          → lookup bytes_discrete key s.group.m ≡ some id
          → lookup bytes_discrete key g.m ≡ some id
      pub objects : (id : ℕ) (c : Call M E) → s.group.calls id ≡ some c → g.calls id ≡ some c
      pub history : (P : ℕ × Bytes × Reply M E → Type 0) → Any P s.answers → Any P answers
      pub apart : (key : Bytes) (id : ℕ) → s.pc i ≢ running key id

    pub Fits-kept : (j : ℕ) (q : Pc M E) → Keeps j q → Fits s j q → Fits after j q
    Fits-kept j idle k f = tt
    Fits-kept j (running key id) k (at, c) = (k.registered key id (inl refl) at, k.objects id _ c)
    Fits-kept j (finishing key id reply) k (at, c, a) =
        (k.registered key id (inr (reply, refl)) at, k.objects id _ c, k.history _ a)
    Fits-kept j (waiting key id) k (inl (l, c, e)) =
        inl (l, k.objects id _ c, stays s i l p (running key id) (k.apart key id) e)
    Fits-kept j (waiting key id) k (inr (l, reply, c, apart, a)) =
        inr (l, reply, k.objects id _ c, apart, k.history _ a)
    Fits-kept j (returned key reply) k a = k.history _ a
