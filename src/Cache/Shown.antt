-- ===== src/Cache/Shown.antt =====
-- What a client sees of a cached response: the records with their TTLs rewritten.
use dnsproxy_router.Prelude.{
  ℕ, suc, ◌*◌, ◌≤◌, ◌≡◌, ◌≢◌, ◌⊎◌, inl, inr, refl, List, [], ◌∷◌, arith, map, Bool-cases, ltb, ◌==◌,
  ◌&&◌, if◌then◌else◌,
}
use dnsproxy_router.Prelude.Int.{ℤ, pos, negsuc, ◌≤ℤ◌, ◌<ℤ◌, ◌-ℤ◌}
use dnsproxy_router.Dns.{Rr, Msg, type_opt}
use dnsproxy_router.Cache.Heap.{Entry}
use dnsproxy_router.Cache.Records.{is_opt, set_ttl_of, set_ttl, u32_seconds, whole_seconds}
use dnsproxy_router.Cache.{Config, fresh_answer, stale_answer}

-- `t` seconds are the most that fit into the duration `left`, or one if none does, and that fit into
-- `max`, if at least one does.
pub record IsShown (left max : ℤ) (t : ℕ) : Type 0 where
  pub positive : 1 ≤ t
  pub within : (t ≡ 1) ⊎ (pos (t * 1000000000) ≤ℤ left)
  pub capped : (max <ℤ pos 1000000000) ⊎ (pos (t * 1000000000) ≤ℤ max)
  pub most :
      (left <ℤ pos (suc t * 1000000000))
      ⊎ ((pos 1000000000 ≤ℤ max) × (max <ℤ pos (suc t * 1000000000)))

-- A duration that is less than 2 ^ 32 seconds.
abbrev pub IsShort : ℤ → Type 0
IsShort d = d <ℤ pos 4294967296000000000

-- A record with another TTL, which an OPT record keeps.
pub record IsRetimed (P : ℕ → Type 0) (old new : Rr) : Type 0 where
  pub name : new.name ≡ old.name
  pub rrtype : new.rrtype ≡ old.rrtype
  pub options : new.options ≡ old.options
  pub body : new.body ≡ old.body
  pub ttl : ((old.rrtype ≡ type_opt) × (new.ttl ≡ old.ttl)) ⊎ ((old.rrtype ≢ type_opt) × P new.ttl)

pub data Retimed (P : ℕ → Type 0) : List Rr → List Rr → Type 0 where
  none_left : Retimed P [] []
  one_more :
      {old new : Rr} {olds news : List Rr}
      → IsRetimed P old new
      → Retimed P olds news
      → Retimed P (old ∷ olds) (new ∷ news)

-- The response with other TTLs, all of which `P` holds of.
pub record IsAnswer (P : ℕ → Type 0) (old new : Msg) : Type 0 where
  pub question : new.question ≡ old.question
  pub rcode : new.rcode ≡ old.rcode
  pub truncated : new.truncated ≡ old.truncated
  pub id : new.id ≡ old.id
  pub answer : Retimed P old.answer new.answer
  pub ns : Retimed P old.ns new.ns
  pub extra : Retimed P old.extra new.extra

module _ (P : ℕ → Type 0) (t : ℕ) (h : P t) where
  set_ttl_of-IsRetimed : (rr : Rr) → IsRetimed P rr (set_ttl_of t rr)
  unfolding set_ttl_of
  set_ttl_of-IsRetimed rr = elim (Bool-cases (is_opt rr)) [
    | inl opt ↦ rw opt (record {
      name = refl;
      rrtype = refl;
      options = refl;
      body = refl;
      ttl = inl (ground arith, refl);
    })
    | inr plain ↦ rw plain (record {
      name = refl;
      rrtype = refl;
      options = refl;
      body = refl;
      ttl = inr (ground arith, h);
    })
  ]

  all-Retimed : (rrs : List Rr) → Retimed P rrs (map (set_ttl_of t) rrs)
  all-Retimed [] = none_left
  all-Retimed (rr ∷ rrs) = one_more (set_ttl_of-IsRetimed rr) (all-Retimed rrs)

  set_ttl-IsAnswer : (m : Msg) → IsAnswer P m (set_ttl m t)
  unfolding set_ttl
  set_ttl-IsAnswer m = record {
    question = refl;
    rcode = refl;
    truncated = refl;
    id = refl;
    answer = all-Retimed m.answer;
    ns = all-Retimed m.ns;
    extra = all-Retimed m.extra;
  }

-- The TTL that `Get` and `GetStale` choose.
abbrev chosen : ℕ → ℕ → ℕ
chosen given high =
    let shown = if given == 0 then 1 else given in
    if ltb 0 high && ltb high shown then high else shown

chosen-IsShown :
    (left max : ℤ)
    → pos 0 ≤ℤ max
    → IsShort max
    → IsShort left
    → IsShown left max (chosen (whole_seconds left) (u32_seconds max))
unfolding whole_seconds u32_seconds
chosen-IsShown (pos n) (pos m) low short left = record {
  positive = ground arith;
  within = ground arith;
  capped = ground arith;
  most = ground arith;
}
chosen-IsShown (negsuc n) (pos m) low short left = record {
  positive = ground arith;
  within = ground arith;
  capped = ground arith;
  most = ground arith;
}
chosen-IsShown left (negsuc m) low short h = absurd (ground arith)

-- In the answer of a hit each record is the stored one with the whole seconds that the entry has
-- left as its TTL, but at least a second, and not more than the maximum where that is a second or
-- more; an OPT record keeps its field. The maximum is not negative, and it and the time left are
-- below 2 ^ 32 seconds.
pub fresh_answer-IsAnswer :
    (cfg : Config) (now : ℤ) (e : Entry)
    → pos 0 ≤ℤ cfg.max_ttl
    → IsShort cfg.max_ttl
    → IsShort (e.expire -ℤ now)
    → IsAnswer (IsShown (e.expire -ℤ now) cfg.max_ttl) e.msg (fresh_answer cfg now e)
unfolding fresh_answer
fresh_answer-IsAnswer cfg now e low short left =
    set_ttl-IsAnswer (IsShown (e.expire -ℤ now) cfg.max_ttl)
      (chosen (whole_seconds (e.expire -ℤ now)) (u32_seconds cfg.max_ttl))
      (chosen-IsShown (e.expire -ℤ now) cfg.max_ttl low short left) e.msg

pub stale_answer-IsAnswer :
    (cfg : Config) (e : Entry)
    → pos 0 ≤ℤ cfg.max_ttl
    → IsShort cfg.max_ttl
    → IsShort cfg.stale_answer_ttl
    → IsAnswer (IsShown cfg.stale_answer_ttl cfg.max_ttl) e.msg (stale_answer cfg e)
unfolding stale_answer
stale_answer-IsAnswer cfg e low short left =
    set_ttl-IsAnswer (IsShown cfg.stale_answer_ttl cfg.max_ttl)
      (chosen (whole_seconds cfg.stale_answer_ttl) (u32_seconds cfg.max_ttl))
      (chosen-IsShown cfg.stale_answer_ttl cfg.max_ttl low short left) e.msg
