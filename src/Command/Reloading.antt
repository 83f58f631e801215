-- ===== src/Command/Reloading.antt =====
-- What a reload makes of the configuration file.
use dnsproxy_router.Command.{
  start, later, moves, signal, hup, quits, decides, gives_up, swaps, stores, cancels, drains,
  drained, reads, stops, exits, Process, boot, decide, swap_in, hang_up, Step, Reach, crashed,
}
use dnsproxy_router.Command.Serving.Kept.{Result-cases, Built-cases}
use dnsproxy_router.Afp.{Addr}
use dnsproxy_router.Command.Options.{ProxyLibrary, build_base_opts, panics}
use dnsproxy_router.Command.Options.Chained.{build_base_opts-total}
use dnsproxy_router.Config.{Config, NetLibrary}
use dnsproxy_router.Config.Normal.{load_config, accepted}
use dnsproxy_router.Config.Outcome.{normalize-IsValid}
use dnsproxy_router.Config.Valid.{IsValid}
use dnsproxy_router.Prelude.{
  ◌≡◌, ◌≢◌, ℕ, true, inl, inr, refl, sym, ◌∙◌, none, some, Bytes, Option, Option-cases, arith,
}
use dnsproxy_router.Prelude.Sort.{SliceSort}

-- What `LoadConfig` accepts is valid.
pub load_config-IsValid :
    (net : NetLibrary) (file : Option Bytes) (decode : Bytes → Option Config) (cfg : Config)
    → load_config net file decode ≡ accepted cfg
    → IsValid net cfg
unfolding load_config
load_config-IsValid net none decode cfg e = absurd (ground arith)
load_config-IsValid net (some bytes) decode cfg e = elim (Option-cases (decode bytes)) [
  | inl bad ↦ absurd (ground (arith, bad))
  | inr (c, good) ↦ normalize-IsValid net c cfg (sym (rw (good, load_config) refl) ∙ e)
]

module _ {U : Type 0} (net : NetLibrary) (lib : ProxyLibrary U)
    (agrees : (a : Bytes)
      → net.parses_addr a ≡ true
      → (x : Addr) × (lib.parse_addr a ≡ some x)) where
  build_base_opts-ne-panics : (cfg : Config) → IsValid net cfg → build_base_opts lib cfg ≢ panics
  build_base_opts-ne-panics cfg v bad = elim (build_base_opts-total net lib agrees cfg v) [
    | inl (e, refused) ↦ cc
    | inr (o, good, timeout, six) ↦ cc
  ]

  hang_up-main :
      (p : Process) (file : Option Bytes) (decode : Bytes → Option Config)
      → (hang_up net lib p file decode).main ≡ p.main
  unfolding hang_up
  hang_up-main p file decode = elim (Result-cases (load_config net file decode)) [
    | inl (error, bad) ↦ rw (hang_up, bad) refl
    | inr (cfg, good) ↦ elim (Built-cases (build_base_opts lib cfg)) [
      | inl bad ↦ rw (hang_up, good, bad) refl
      | inr (inl crash) ↦
          absurd
            (build_base_opts-ne-panics cfg (load_config-IsValid net file decode cfg good) crash)
      | inr (inr (opts, done)) ↦ rw (hang_up, good, done) refl
    ]
  ]

  decide-main : (p : Process) (id : ℕ) → (decide p id).main ≡ p.main
  unfolding decide
  decide-main p id = ground arith

  module _ (slices : SliceSort Bytes) where
    Step-ne-crashed :
        {p q : Process} → Step net lib slices p q → p.main ≢ crashed → q.main ≢ crashed
    unfolding swap_in
    Step-ne-crashed (moves i l made m) fine = fine
    Step-ne-crashed signal fine = fine
    Step-ne-crashed {p} (hup file decode e) fine =
        λ bad. fine (sym (hang_up-main p file decode) ∙ bad)
    Step-ne-crashed (quits e stop) fine = fine
    Step-ne-crashed {p} (decides id e first) fine = λ bad. fine (sym (decide-main p id) ∙ bad)
    Step-ne-crashed (gives_up id e stop) fine = fine
    Step-ne-crashed (swaps id e) fine = fine
    Step-ne-crashed (stores id delay after e begun) fine = fine
    Step-ne-crashed (cancels id after e) fine = fine
    Step-ne-crashed (drains e stop) fine = λ bad. cc
    Step-ne-crashed (drained e) fine = λ bad. cc
    Step-ne-crashed (reads e) fine = λ bad. cc
    Step-ne-crashed (stops id e begun) fine = λ bad. cc
    Step-ne-crashed (exits id e over) fine = λ bad. cc

    -- No reload panics: a configuration that is accepted has only addresses that parse.
    pub Reach-ne-crashed :
        {cfg : Config} {p : Process} → Reach net lib slices cfg p → p.main ≢ crashed
    unfolding boot
    Reach-ne-crashed start = λ bad. cc
    Reach-ne-crashed (later r step) = Step-ne-crashed step (Reach-ne-crashed r)
