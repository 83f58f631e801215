-- ===== src/Cache/Ttl.antt =====
-- The TTLs of a response that `Clamp` has gone over.
use dnsproxy_router.Prelude.{
  ◌&&◌, ℕ, ◌≤◌, ◌≡◌, ◌⊎◌, inl, inr, List, [], ◌∷◌, arith, map, All, Bool-cases, ltb, ◌==◌,
  if◌then◌else◌,
}
use dnsproxy_router.Dns.{Rr, Msg, type_opt}
use dnsproxy_router.Cache.Records.{is_opt, clamp_of, clamp_between, u32_seconds, least_ttl}
use dnsproxy_router.Cache.{Cache, clamp}

-- A property of every record of a message but the OPT records.
abbrev pub AllTtls : (ℕ → Type 0) → Msg → Type 0
AllTtls P m =
    All (λ rr. (rr.rrtype ≡ type_opt) ⊎ P rr.ttl) m.answer
    × All (λ rr. (rr.rrtype ≡ type_opt) ⊎ P rr.ttl) m.ns
    × All (λ rr. (rr.rrtype ≡ type_opt) ⊎ P rr.ttl) m.extra

map-All :
    (P : Rr → Type 0) (f : Rr → Rr) → ((rr : Rr) → P (f rr)) → (rrs : List Rr) → All P (map f rrs)
map-All P f h [] = tt
map-All P f h (rr ∷ rrs) = (h rr, map-All P f h rrs)

All-free : (P : Rr → Type 0) (rrs : List Rr) → ((rr : Rr) → P rr) → All P rrs
All-free P [] h = tt
All-free P (rr ∷ rrs) h = (h rr, All-free P rrs h)

-- The record after the clamp.
clamp_of-ttl :
    (low high : ℕ) (rr : Rr)
    → (high ≡ 0) ⊎ (low ≤ high)
    → ((clamp_of low high rr).rrtype ≡ type_opt)
      ⊎ ((low ≤ (clamp_of low high rr).ttl) × ((high ≡ 0) ⊎ ((clamp_of low high rr).ttl ≤ high)))
unfolding clamp_of
clamp_of-ttl low high rr h = elim (Bool-cases (is_opt rr)) [
  | inl e ↦ inl (ground arith)
  | inr e ↦ inr (ground arith, ground arith)
]

-- After `Clamp` every TTL is at least the minimum, and at most the maximum where one is set, if
-- the minimum is not above a maximum.
pub clamp-AllTtls :
    (c : Cache) (m : Msg)
    → (u32_seconds c.cfg.max_ttl ≡ 0) ⊎ (u32_seconds c.cfg.min_ttl ≤ u32_seconds c.cfg.max_ttl)
    → AllTtls
        (λ t.
          (u32_seconds c.cfg.min_ttl ≤ t)
          × ((u32_seconds c.cfg.max_ttl ≡ 0) ⊎ (t ≤ u32_seconds c.cfg.max_ttl)))
        (clamp c m)
unfolding clamp clamp_between
clamp-AllTtls c m h =
    let low = u32_seconds c.cfg.min_ttl in
    let high = u32_seconds c.cfg.max_ttl in
    let each = λ (rr : Rr). clamp_of-ttl low high rr h in
    elim (Bool-cases (low == 0 && high == 0)) [
      | inl off ↦
          let free : (rrs : List Rr)
              → All
                  (λ rr. (rr.rrtype ≡ type_opt) ⊎ ((low ≤ rr.ttl) × ((high ≡ 0) ⊎ (rr.ttl ≤ high))))
                  rrs =
            λ rrs.
              All-free
                (λ rr. (rr.rrtype ≡ type_opt) ⊎ ((low ≤ rr.ttl) × ((high ≡ 0) ⊎ (rr.ttl ≤ high))))
                rrs (λ rr. inr (ground arith, ground arith)) in
          rw off (free m.answer, free m.ns, free m.extra)
      | inr on ↦ rw on (
        map-All _ (clamp_of low high) each m.answer,
        map-All _ (clamp_of low high) each m.ns,
        map-All _ (clamp_of low high) each m.extra,
      )
    ]

least_ttl-le : (t : ℕ) (rrs : List Rr) → least_ttl t rrs ≤ t
unfolding least_ttl
least_ttl-le t [] = omega arith
least_ttl-le t (rr ∷ rrs) =
    ground (arith, least_ttl-le (if is_opt rr then t else if ltb rr.ttl t then rr.ttl else t) rrs)
