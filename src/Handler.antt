-- ===== src/Handler.antt =====
-- internal/handler/handler.go: the request handler between the proxy library and the scheduler. The
-- library's resolution is outside; what is modelled is the request that it is given, and the
-- route. A scheduler is seen through its current routes, `none` until the first round is done.
pub mod Request
pub mod Fallback
use dnsproxy_router.Prelude.{
  not, Bool, true, false, ◌&&◌, Option, none, some, [], ◌∷◌, ◌++◌, get_elem?, if◌then◌else◌,
}
use dnsproxy_router.Dns.{Rr, Msg, DnsLibrary}
use dnsproxy_router.Ecs.{EcsPolicy, apply, update_at}

-- A scheduler with its current routes of type `R`.
pub record Sched (R : Type 0) : Type 0 where
  pub current : Option R

pub record Handler (R : Type 0) : Type 0 where
  pub sched : Option (Sched R)
  pub ecs : EcsPolicy
  pub dnssec : Bool
  pub fallback_logged : Bool

unfoldable pub new : {R : Type 0} → Option (Sched R) → EcsPolicy → Bool → Handler R
new sched ecs dnssec = record { sched = sched; ecs = ecs; dnssec = dnssec; fallback_logged = false }

-- the old scheduler beside the handler with the new one
unfoldable pub swap : {R : Type 0} → Handler R → Option (Sched R) → Handler R × Option (Sched R)
swap h s = (record h { sched = s }, h.sched)

-- `Load` of the scheduler and `CurrentConfig`
abbrev pub routes : {R : Type 0} → Handler R → Option R
routes h = elim h.sched [ none ↦ none | some s ↦ s.current ]

unfoldable pub ready : {R : Type 0} → Handler R → Bool
ready h = elim (routes h) [ none ↦ false | some r ↦ true ]

-- What the request is handed to: the library's default upstreams, or the routes, with the message
-- as it then is. `warned` says whether a warning was logged.
pub data Outcome (R : Type 0) : Type 0 where
  fallback : (warned : Bool) → Msg → Outcome R
  resolve : R → Msg → Outcome R

module _ (lib : DnsLibrary) where
  unfoldable pub client_wants_do : Msg → Bool
  client_wants_do m = elim (lib.is_edns0 m) [
    | none ↦ false
    | some i ↦ elim (get_elem? m.extra i) [ none ↦ false | some o ↦ lib.do_bit o ]
  ]

  abbrev pub raise_do : Rr → Rr
  raise_do o = if lib.do_bit o then o else lib.set_do o

  unfoldable pub set_do : Msg → Msg
  unfolding update_at
  set_do m = elim (lib.is_edns0 m) [
    | none ↦ record m { extra = m.extra ++ lib.new_opt 1232 true ∷ [] }
    | some i ↦ record m { extra = update_at raise_do i m.extra }
  ]

  unfoldable pub serve_dns : {R : Type 0} → Handler R → Msg → Handler R × Outcome R
  unfolding client_wants_do set_do apply
  serve_dns h req = elim (routes h) [
    | none ↦ (record h { fallback_logged = true }, fallback (not h.fallback_logged) req)
    | some r ↦
        let client_do = h.dnssec && client_wants_do req in
        let req' = apply lib h.ecs req in
        (record h { fallback_logged = false }, resolve r (if client_do then set_do req' else req'))
  ]
