-- ===== src/Handler/Request.antt =====
-- The request that the upstreams are asked.
use dnsproxy_router.Prelude.{
  arith, get_elem?-snoc, ℕ, ◌≡◌, ◌∙◌, true, false, not, ◌&&◌, inl, inr, some, get_elem?,
  Option-cases, Bool-cases, length, All, get_elem?-set_self, lt_of_get_elem?,
}
use dnsproxy_router.Dns.{Rr, Msg, DnsLibrary, type_opt}
use dnsproxy_router.Ecs.{EcsPolicy, strip_opt, set_ecs_override, is_opt, off, apply, update_at}
use dnsproxy_router.Ecs.Options.{apply-off}
use dnsproxy_router.Handler.{Handler, resolve, routes, client_wants_do, raise_do, set_do, serve_dns}

module _ (lib : DnsLibrary) where
  -- An OPT record with the DO bit stands among the additional records.
  abbrev pub AsksDnssec : Msg → Type 0
  AsksDnssec m =
      (i : ℕ) × (o : Rr) × (get_elem? m.extra i ≡ some o)
      × (o.rrtype ≡ type_opt)
      × (lib.do_bit o ≡ true)

  raised-bit : (o : Rr) → lib.do_bit (raise_do lib o) ≡ true
  raised-bit o = elim (Bool-cases (lib.do_bit o)) [
    | inl h ↦ rw h h
    | inr h ↦ rw h (lib.do-set_do o)
  ]

  raised-type : (o : Rr) → o.rrtype ≡ type_opt → (raise_do lib o).rrtype ≡ type_opt
  raised-type o e = elim (Bool-cases (lib.do_bit o)) [
    | inl h ↦ rw h e
    | inr h ↦ rw h ((lib.set_do_keeps o).0 ∙ e)
  ]

  set_do-AsksDnssec : (m : Msg) → AsksDnssec (set_do lib m)
  unfolding set_do update_at
  set_do-AsksDnssec m = elim (Option-cases (lib.is_edns0 m)) [
    | inl h ↦
        rw (h, set_do)
          (
            length m.extra,
            lib.new_opt 1232 true,
            get_elem?-snoc m.extra (lib.new_opt 1232 true),
            lib.new_opt_type 1232 true,
            lib.do-new_opt 1232 true,
          )
    | inr (i, h) ↦
        let (o, at, type) = lib.is_edns0_some m i h in
        let low = lt_of_get_elem? m.extra i o at in
        rw (h, set_do, at, update_at)
          (
            i,
            raise_do lib o,
            get_elem?-set_self m.extra i (raise_do lib o) low,
            raised-type o type,
            raised-bit o,
          )
  ]

  set_do-question : (m : Msg) → (set_do lib m).question ≡ m.question
  unfolding set_do
  set_do-question m = ground arith

  apply-question : (e : EcsPolicy) (m : Msg) → (apply lib e m).question ≡ m.question
  unfolding apply strip_opt set_ecs_override
  apply-question e m = ground arith

  module _ {R : Type 0} (h : Handler R) (req : Msg) where
    -- With routes and with DNSSEC switched on in the handler, a request whose OPT record has the DO
    -- bit reaches the upstreams with its question and with an OPT record that has it, whatever the ECS
    -- mode does to the OPT record.
    pub serve_dns-AsksDnssec :
        (r : R)
        → routes h ≡ some r
        → h.dnssec ≡ true
        → client_wants_do lib req ≡ true
        → (req' : Msg) × ((serve_dns lib h req).1 ≡ resolve r req')
          × (req'.question ≡ req.question)
          × AsksDnssec req'
    unfolding serve_dns
    serve_dns-AsksDnssec r found on wish = (
      set_do lib (apply lib h.ecs req),
      rw (found, serve_dns, on, wish),
      set_do-question (apply lib h.ecs req) ∙ apply-question h.ecs req,
      set_do-AsksDnssec (apply lib h.ecs req),
    )

    -- With ECS off, a request that carries no such wish reaches the upstreams without any OPT
    -- record.
    pub serve_dns-plain :
        (r : R)
        → routes h ≡ some r
        → h.ecs.mode ≡ off
        → (h.dnssec && client_wants_do lib req) ≡ false
        → (req' : Msg) × ((serve_dns lib h req).1 ≡ resolve r req')
          × All (λ rr. not (is_opt rr) ≡ true) req'.extra
    unfolding serve_dns
    serve_dns-plain r found mode wish =
        (apply lib h.ecs req, rw (found, serve_dns, wish), (apply-off lib h.ecs req mode).0)
