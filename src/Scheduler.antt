-- ===== src/Scheduler.antt =====
-- internal/scheduler/scheduler.go: the probes of a round and the choice of each provider's line. A
-- line's upstream is named by its position in a table of upstream objects, so that two pointers are
-- equal when the numbers are; the outcomes of the probes are arguments.
pub mod Best
pub mod Closing
pub mod Probes
pub mod Signature
pub mod Round
pub mod Life
pub mod Providers
use dnsproxy_router.Prelude.{
  ◌++◌, ℕ, zero, suc, ◌/◌, Bool, true, false, not, ◌&&◌, Option, none, some, List, [], ◌∷◌, ltb,
  ◌==◌, if◌then◌else◌, get_elem?, length, Bytes, bytes_discrete, lookup,
}
use dnsproxy_router.Prelude.Sort.{SliceSort}

pub record ProbeResult : Type 0 where
  pub mode : Bytes
  pub addr : Bytes
  pub upstream : Option ℕ
  pub rtt : ℕ
  pub ok : Bool
  pub fresh : Bool

-- the loop's body in `pickBest`: the new best
unfoldable pub better : Option ProbeResult → ProbeResult → Option ProbeResult
better none r = if r.ok then some r else none
better (some b) r = if r.ok && ltb r.rtt b.rtt then some r else some b

-- the loop of `pickBest`, with the best so far
unfoldable pub pick_best_from : Option ProbeResult → List ProbeResult → Option ProbeResult
unfolding better
pick_best_from best [] = best
pick_best_from best (r ∷ results) = pick_best_from (better best r) results

unfoldable pub pick_best : List ProbeResult → Option ProbeResult
unfolding pick_best_from
pick_best results = pick_best_from none results

-- `u != keep` of two interface values, of which either may be nil
unfoldable pub differs : Option ℕ → Option ℕ → Bool
differs none none = false
differs none (some v) = true
differs (some u) none = true
differs (some u) (some v) = not (u == v)

-- the upstream that `closeFresh` closes for one result
unfoldable pub to_close : ProbeResult → Option ℕ → Option ℕ
unfolding differs
to_close r keep = elim r.upstream [
  | none ↦ none
  | some u ↦ if r.fresh && differs (some u) keep then some u else none
]

-- `closeFresh`: the upstreams that it closes, in order
unfoldable pub close_fresh : List ProbeResult → Option ℕ → List ℕ
unfolding to_close
close_fresh [] keep = []
close_fresh (r ∷ results) keep =
    let rest = close_fresh results keep in
    elim (to_close r keep) [ none ↦ rest | some u ↦ u ∷ rest ]

-- what one provider's part of a round ends with: its line, and the upstreams that were closed
unfoldable pub settle_provider : List ProbeResult → Option ProbeResult × List ℕ
unfolding pick_best close_fresh
settle_provider results = elim (pick_best results) [
  | none ↦ (none, close_fresh results none)
  | some best ↦ (some best, close_fresh results best.upstream)
]

-- `median`; `none` is the panic on an empty slice
unfoldable pub median : SliceSort ℕ → List ℕ → Option ℕ
median slices ds = get_elem? (slices.sort ltb ds) (length ds / 2)

-- One exchange of `probeMode`: how long it took, and its error.
pub record Attempt (E : Type 0) : Type 0 where
  pub elapsed : ℕ
  pub err : Option E

module _ {E : Type 0} where
  -- the loop of `probeMode`: the times of the successes, and the first error
  unfoldable pub gather : List (Attempt E) → List ℕ → Option E → List ℕ × Option E
  gather [] rtts first = (rtts, first)
  gather (a ∷ attempts) rtts first =
      gather attempts (elim a.err [ none ↦ rtts ++ a.elapsed ∷ [] | some e ↦ rtts ])
        (elim a.err [ none ↦ first | some e ↦ elim first [ none ↦ some e | some f ↦ some f ] ])

  -- `(rtt, nil)` on success, `(0, firstErr)` on failure; `none` is a panic of `median`
  unfoldable pub probe_mode : SliceSort ℕ → List (Attempt E) → Option (ℕ × Option E)
  unfolding gather median
  probe_mode slices attempts =
      let (rtts, first) = gather attempts [] none in
      elim rtts [
        | [] ↦ some (0, first)
        | d ∷ ds ↦ elim (median slices (d ∷ ds)) [ none ↦ none | some m ↦ some (m, none) ]
      ]

-- `<` on strings
unfoldable pub bytes_less : Bytes → Bytes → Bool
bytes_less a [] = false
bytes_less [] (y ∷ ys) = true
bytes_less (x ∷ xs) (y ∷ ys) =
    let rest = bytes_less xs ys in if ltb x y then true else if ltb y x then false else rest

unfoldable pub write_pairs : List Bytes → List (Bytes × Bytes) → Bytes
write_pairs [] sel_addr = []
write_pairs (n ∷ names) sel_addr =
    n
    ++ b'='
      ∷ ((elim (lookup bytes_discrete n sel_addr) [ none ↦ [] | some addr ↦ addr ])
          ++ b';' ∷ write_pairs names sel_addr)

-- `selectSignature`; `names` are the map's keys in the order of its iteration
unfoldable pub select_signature : SliceSort Bytes → List Bytes → List (Bytes × Bytes) → Bytes
unfolding bytes_less write_pairs
select_signature slices names sel_addr = write_pairs (slices.sort bytes_less names) sel_addr
