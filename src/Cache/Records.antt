-- ===== src/Cache/Records.antt =====
-- internal/cache/cache.go: what the cache reads from the records of a response, and the TTLs that it
-- writes into them. A `uint32` is a number below 2 ^ 32.
use dnsproxy_router.Prelude.{
  ℕ, suc, ◌-◌, ◌/◌, ◌%◌, Bool, false, not, ◌&&◌, ◌||◌, List, [], ◌∷◌, map, ltb, ◌==◌, if◌then◌else◌,
}
use dnsproxy_router.Prelude.Int.{ℤ, pos, negsuc}
use dnsproxy_router.Dns.{
  Rr, Msg, type_a, type_aaaa, type_soa, type_opt, rcode_success, rcode_name_error,
  rcode_server_failure,
}

abbrev pub u32_mod : ℕ
u32_mod = 4294967296

-- `time.Second` in nanoseconds
abbrev pub second : ℕ
second = 1000000000

-- `uint32(d / time.Second)`: the quotient is cut towards 0, then reduced modulo 2 ^ 32
unfoldable pub u32_seconds : ℤ → ℕ
u32_seconds (pos n) = n / second % u32_mod
u32_seconds (negsuc n) = (u32_mod - suc n / second % u32_mod) % u32_mod

-- `uint32(d.Seconds())` of a duration that is not negative
unfoldable pub whole_seconds : ℤ → ℕ
whole_seconds (pos n) = n / second % u32_mod
whole_seconds (negsuc n) = 0

abbrev pub map_records : (Rr → Rr) → Msg → Msg
map_records f m = record m { answer = map f m.answer; ns = map f m.ns; extra = map f m.extra }

abbrev pub is_opt : Rr → Bool
is_opt rr = rr.rrtype == type_opt

unfoldable pub set_ttl_of : ℕ → Rr → Rr
set_ttl_of ttl rr = if is_opt rr then rr else record rr { ttl = ttl }

unfoldable pub set_ttl : Msg → ℕ → Msg
unfolding set_ttl_of
set_ttl m ttl = map_records (set_ttl_of ttl) m

-- one record of the loop of `Clamp`
unfoldable pub clamp_of : ℕ → ℕ → Rr → Rr
clamp_of low high rr =
    let raised = if ltb 0 low && ltb rr.ttl low then low else rr.ttl in
    let cut = if ltb 0 high && ltb high raised then high else raised in
    if is_opt rr then rr else record rr { ttl = cut }

unfoldable pub clamp_between : ℕ → ℕ → Msg → Msg
unfolding clamp_of
clamp_between low high m = if low == 0 && high == 0 then m else map_records (clamp_of low high) m

-- the inner loop of `recordTTL`
unfoldable pub least_ttl : ℕ → List Rr → ℕ
least_ttl ttl [] = ttl
least_ttl ttl (rr ∷ rrs) =
    least_ttl (if is_opt rr then ttl else if ltb rr.ttl ttl then rr.ttl else ttl) rrs

unfoldable pub record_ttl : Msg → ℕ
unfolding least_ttl
record_ttl m =
    let ttl = least_ttl (least_ttl (least_ttl (u32_mod - 1) m.answer) m.ns) m.extra in
    let cut = if m.rcode == rcode_server_failure && ltb 30 ttl then 30 else ttl in
    let found = if ttl == u32_mod - 1 then 0 else cut in
    elim m.question [ [] ↦ 0 | q ∷ [] ↦ if m.truncated then 0 else found | q ∷ q' ∷ qs ↦ 0 ]

unfoldable pub has_ip_ans : List Rr → Bool
has_ip_ans [] = false
has_ip_ans (rr ∷ rrs) = rr.rrtype == type_a || rr.rrtype == type_aaaa || has_ip_ans rrs

unfoldable pub has_soa : List Rr → Bool
has_soa [] = false
has_soa (rr ∷ rrs) = rr.rrtype == type_soa || has_soa rrs

unfoldable pub cacheable : Msg → Bool
unfolding has_ip_ans has_soa
cacheable m = elim m.question [
  | [] ↦ false
  | q ∷ [] ↦
      not m.truncated
      && (if m.rcode == rcode_success
          then not (q.qtype == type_a) && not (q.qtype == type_aaaa)
            || has_ip_ans m.answer
            || has_soa m.ns
          else if m.rcode == rcode_name_error
          then has_soa m.ns
          else m.rcode == rcode_server_failure)
  | q ∷ q' ∷ qs ↦ false
]
