-- ===== src/Coalescer/Steps.antt =====
-- Any number of calls of `Do`, interleaved in any order, a critical section at a time.
use dnsproxy_router.Prelude.{ℕ, ◌≡◌, some, List, [], ◌∷◌, Bytes}
use dnsproxy_router.Race.{Reply}
use dnsproxy_router.Coalescer.{
  Coalescer, empty, Role, joins, leads, update, enter, complete, forget, read_call,
}

-- Where a thread stands.
pub data Pc (M E : Type 0) : Type 0 where
  idle : Pc M E
  waiting : (key : Bytes) (id : ℕ) → Pc M E
  -- in `fn`
  running : (key : Bytes) (id : ℕ) → Pc M E
  -- between `wg.Done` and the second critical section
  finishing : (key : Bytes) (id : ℕ) (reply : Reply M E) → Pc M E
  returned : (key : Bytes) (reply : Reply M E) → Pc M E

-- `answers` is the history of what `fn` returned, to which thread, and for which key.
pub record System (M E : Type 0) : Type 0 where
  pub group : Coalescer M E
  pub pc : ℕ → Pc M E
  pub answers : List (ℕ × Bytes × Reply M E)

module _ {M E : Type 0} where
  abbrev pub seat : Bytes → Role → Pc M E
  seat key (joins id) = waiting key id
  seat key (leads id) = running key id

  abbrev pub move : System M E → ℕ → Coalescer M E → Pc M E → System M E
  move s i g p = record s { group = g; pc = update s.pc i p }

  -- One step of thread `i`. What `fn` returns, and when, is open.
  pub data Step (s : System M E) : System M E → Type 0 where
    call :
        (i : ℕ) (key : Bytes)
        → s.pc i ≡ idle
        → Step s (move s i (enter s.group i key).0 (seat key (enter s.group i key).1))
    answer :
        (i : ℕ) (key : Bytes) (id : ℕ) (reply : Reply M E)
        → s.pc i ≡ running key id
        → Step s (record {
          group = complete s.group id reply;
          pc = update s.pc i (finishing key id reply);
          answers = (i, key, reply) ∷ s.answers;
        })
    leave :
        (i : ℕ) (key : Bytes) (id : ℕ) (reply : Reply M E)
        → s.pc i ≡ finishing key id reply
        → Step s (move s i (forget s.group key) (returned key reply))
    wake :
        (i : ℕ) (key : Bytes) (id : ℕ) (reply : Reply M E)
        → s.pc i ≡ waiting key id
        → read_call s.group id ≡ some reply
        → Step s (move s i s.group (returned key reply))

  abbrev pub init : System M E
  init = record { group = empty; pc = λ i. idle; answers = [] }

  pub data Reach : System M E → Type 0 where
    start : Reach init
    later : {s t : System M E} → Reach s → Step s t → Reach t
