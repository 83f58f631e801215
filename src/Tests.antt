-- ===== src/Tests.antt =====
-- Test data: small messages, a DNS library of one's own, and the components' concrete inputs.
pub mod Scheduling
pub mod Racing
pub mod Caching
pub mod Requests
pub mod Resolving
pub mod Sharing
pub mod Configuring
pub mod Rounds
pub mod Running
pub mod Starting
pub mod Evicting
use dnsproxy_router.Prelude.{
  Bytes, ℕ, zero, suc, ◌≡◌, ◌≢◌, Bool, true, false, Option, none, some, List, [], ◌∷◌, arith,
  get_elem?, All, ◌==◌, if◌then◌else◌, refl, Bool-cases, Option-cases, inl, inr,
}
use dnsproxy_router.Dns.{
  EdnsOption, subnet, other_option, Rr, Question, Msg, DnsLibrary, type_a, type_opt,
}

abbrev pub next : Option ℕ → Option ℕ
next none = none
next (some i) = some (suc i)

-- the position of the first OPT record
unfoldable pub find_opt : List Rr → Option ℕ
find_opt [] = none
find_opt (rr ∷ rrs) =
    let later = next (find_opt rrs) in if rr.rrtype == type_opt then some 0 else later

pub find_opt-some :
    (rrs : List Rr) (i : ℕ)
    → find_opt rrs ≡ some i
    → (o : Rr) × (get_elem? rrs i ≡ some o) × (o.rrtype ≡ type_opt)
unfolding find_opt
find_opt-some [] i h = absurd (ground arith)
find_opt-some (rr ∷ rrs) zero h = (rr, refl, ground arith)
find_opt-some (rr ∷ rrs) (suc i) h = find_opt-some rrs i (ground arith)

pub find_opt-none : (rrs : List Rr) → find_opt rrs ≡ none → All (λ o. o.rrtype ≢ type_opt) rrs
unfolding find_opt
find_opt-none [] h = tt
find_opt-none (rr ∷ rrs) h = ground (arith, find_opt-none rrs)

abbrev pub bit_of : Bytes → Bool
bit_of [] = false
bit_of (b ∷ bs) = true

abbrev pub body_of : Bool → Bytes
body_of true = 1 ∷ []
body_of false = []

pub do_of_body : (wanted : Bool) → bit_of (body_of wanted) ≡ wanted
do_of_body true = refl
do_of_body false = refl

-- A library in which a record has the DO bit if its body is not empty.
unfoldable pub small_dns : DnsLibrary
unfolding find_opt
small_dns = record {
  is_edns0 = λ m. find_opt m.extra;
  do_bit = λ o. bit_of o.body;
  set_do = λ o. record o { body = 1 ∷ [] };
  new_opt = λ size wanted. record {
    name = b'.' ∷ [];
    rrtype = type_opt;
    ttl = 0;
    options = [];
    body = body_of wanted;
  };
  len = λ m. 20;
  is_edns0_some = λ m i. find_opt-some m.extra i;
  is_edns0_none = λ m. find_opt-none m.extra;
  do-set_do = λ o. refl;
  set_do_keeps = λ o. (refl, refl);
  do-new_opt = λ size. do_of_body;
  new_opt_type = λ size wanted. refl;
}

-- An OPT record with the DO bit, a cookie and a client subnet.
abbrev pub client_opt : Rr
client_opt = record {
  name = b'.' ∷ [];
  rrtype = type_opt;
  ttl = 0;
  options = other_option 10 (7 ∷ []) ∷ subnet 1 32 0 (10 ∷ 1 ∷ 2 ∷ 3 ∷ []) ∷ [];
  body = 1 ∷ [];
}

abbrev pub address_record : Rr
address_record = record { name = b'a' ∷ []; rrtype = type_a; ttl = 300; options = []; body = [] }

abbrev pub query : Msg
query = record {
  question = record { name = b'a' ∷ []; qtype = type_a; qclass = 1 } ∷ [];
  answer = [];
  ns = [];
  extra = client_opt ∷ [];
  rcode = 0;
  truncated = false;
  id = 7;
}

abbrev pub plain_query : Msg
plain_query = record query { extra = [] }

abbrev pub answer_of_query : Msg
answer_of_query = record query { answer = address_record ∷ []; extra = [] }
