-- ===== src/Afp/Prober.antt =====
-- internal/afp/prober.go: a prober, its rounds and its loop. What the resolver answers and what the
-- connection attempts take is open in each round; `probe-Perm` says that the order in which the
-- goroutines count does not matter.
use dnsproxy_router.Afp.{Addr, Family, ipv4, Lookup, Measured, probe}
use dnsproxy_router.Prelude.{ℕ, Option, none, some, List, [], ◌∷◌, ◌++◌, Bytes}
use dnsproxy_router.Prelude.Int.{ℤ}

-- `Target`
pub record Target : Type 0 where
  pub host : Bytes
  pub port : ℕ

pub record Prober : Type 0 where
  pub targets : List Target
  pub interval : ℤ
  pub current : Family

-- `NewProber`
unfoldable pub new_prober : List Target → ℤ → Prober
new_prober targets interval = record { targets = targets; interval = interval; current = ipv4 }

-- What a round meets: the resolver's answer for a host, and the time that `measure` returns for an
-- address and a port, if the connection succeeds.
pub record Surroundings (E : Type 0) : Type 0 where
  pub answer : Bytes → Lookup E
  pub measure : Addr → ℕ → Option ℕ

module _ {E : Type 0} (around : Surroundings E) where
  -- the loop over the addresses of a target
  unfoldable pub measure_addrs : List Addr → ℕ → List Measured
  measure_addrs [] port = []
  measure_addrs (a ∷ addrs) port =
      record { is6 = a.is6; rtt = around.measure a port } ∷ measure_addrs addrs port

  -- the goroutine of a target; without an address there is nothing to measure
  unfoldable pub measure_target : Target → List Measured
  unfolding measure_addrs
  measure_target t = elim (around.answer t.host).err [
    | some e ↦ []
    | none ↦ measure_addrs (around.answer t.host).addrs t.port
  ]

  unfoldable pub measure_targets : List Target → List Measured
  unfolding measure_target
  measure_targets [] = []
  measure_targets (t ∷ targets) = measure_target t ++ measure_targets targets

  -- `probe`
  unfoldable pub probe_round : Prober → Prober
  unfolding measure_targets probe
  probe_round p = record p { current = probe p.current (measure_targets p.targets) }

-- `Start`: the first round, then one for each tick until the context is cancelled
unfoldable pub start : {E : Type 0} → List (Surroundings E) → Prober → Prober
unfolding probe_round
start [] p = p
start (around ∷ later) p = start later (probe_round around p)
