-- ===== src/Coalescer.antt =====
-- internal/scheduler/coalescer.go: calls for the same key while one is in flight share its answer. The
-- calls of `Do` are threads, numbered in the order in which they come; a `coalesceCall` is an address
-- in a memory of such objects.
pub mod Steps
pub mod Flight
pub mod Moves
pub mod Ends
pub mod Sharing
use dnsproxy_router.Prelude.{
  ℕ, suc, Option, none, some, List, [], ◌∷◌, Bytes, bytes_discrete, ℕ_discrete, lookup, insert,
  remove, ite,
}
use dnsproxy_router.Race.{Reply}

-- An object at one address, or the state of one thread, is written.
abbrev pub update {ℓ} : {A : Type ℓ} → (ℕ → A) → ℕ → A → ℕ → A
update f i a j = ite (ℕ_discrete j i) a (f j)

-- `result` is written before `wg.Done`, and read after `wg.Wait` only: `none` is a call that is not
-- done. `leader` is the thread that made the object.
pub record Call (M E : Type 0) : Type 0 where
  pub leader : ℕ
  pub result : Option (Reply M E)

pub record Coalescer (M E : Type 0) : Type 0 where
  pub m : List (Bytes × ℕ)
  pub calls : ℕ → Option (Call M E)
  -- the next free address
  pub next : ℕ

unfoldable pub empty : {M E : Type 0} → Coalescer M E
empty = record { m = []; calls = λ id. none; next = 0 }

-- What the first critical section of `Do` decides: to wait for a call, or to run `fn` for a new one.
pub data Role : Type 0 where
  joins leads : ℕ → Role

module _ {M E : Type 0} where
  -- the first critical section, in thread `i`
  unfoldable pub enter : Coalescer M E → ℕ → Bytes → Coalescer M E × Role
  enter g i key = elim (lookup bytes_discrete key g.m) [
    | some id ↦ (g, joins id)
    | none ↦ (
      record {
        m = insert bytes_discrete key g.next g.m;
        calls = update g.calls g.next (some (record { leader = i; result = none }));
        next = suc g.next;
      },
      leads g.next,
    )
  ]

  -- the leader's writes, up to `wg.Done`
  unfoldable pub complete : Coalescer M E → ℕ → Reply M E → Coalescer M E
  complete g id reply = elim (g.calls id) [
    | none ↦ g
    | some c ↦ record g { calls = update g.calls id (some (record c { result = some reply })) }
  ]

  -- the leader's second critical section
  unfoldable pub forget : Coalescer M E → Bytes → Coalescer M E
  forget g key = record g { m = remove bytes_discrete key g.m }

  -- what a waiter returns of the leader's answer: the response without the error, else the error
  unfoldable pub shared : Reply M E → Reply M E
  shared reply = elim reply.resp [
    | some m ↦ record { resp = some m; err = none }
    | none ↦ record { resp = none; err = reply.err }
  ]

  -- `wg.Wait` and what follows it; `none` is a waiter that still waits
  unfoldable pub read_call : Coalescer M E → ℕ → Option (Reply M E)
  unfolding shared
  read_call g id = elim (g.calls id) [
    | none ↦ none
    | some c ↦ elim c.result [ none ↦ none | some reply ↦ some (shared reply) ]
  ]
