-- ===== src/Dns.antt =====
-- The messages of github.com/miekg/dns as far as the router reads them, and the functions of that
-- library that it calls, as an interface: a record of operations with their documented behaviour.
-- Values are immutable here, so `Copy` is the value itself.
use dnsproxy_router.Prelude.{
  ℕ, ◌≡◌, ◌≢◌, Bool, true, Option, none, some, List, get_elem?, All, Bytes,
}

-- An EDNS option: a client subnet, or any other, with its code and its body.
pub data EdnsOption : Type 0 where
  subnet : (family source_netmask source_scope : ℕ) (address : Bytes) → EdnsOption
  other_option : (code : ℕ) (body : Bytes) → EdnsOption

-- A resource record: the header fields that the code reads, the options of an OPT record, and what
-- the code only passes on.
pub record Rr : Type 0 where
  pub name : Bytes
  pub rrtype : ℕ
  pub ttl : ℕ
  pub options : List EdnsOption
  pub body : Bytes

pub record Question : Type 0 where
  pub name : Bytes
  pub qtype : ℕ
  pub qclass : ℕ

pub record Msg : Type 0 where
  pub question : List Question
  pub answer : List Rr
  pub ns : List Rr
  pub extra : List Rr
  pub rcode : ℕ
  pub truncated : Bool
  pub id : ℕ

abbrev pub type_a : ℕ
type_a = 1

abbrev pub type_soa : ℕ
type_soa = 6

abbrev pub type_aaaa : ℕ
type_aaaa = 28

abbrev pub type_opt : ℕ
type_opt = 41

abbrev pub rcode_success : ℕ
rcode_success = 0

abbrev pub rcode_server_failure : ℕ
rcode_server_failure = 2

abbrev pub rcode_name_error : ℕ
rcode_name_error = 3

pub record DnsLibrary : Type 0 where
  -- `IsEdns0` returns a pointer to an OPT record of `Extra`, or nil: the record's position
  pub is_edns0 : Msg → Option ℕ
  -- `OPT.Do` and `OPT.SetDo`
  pub do_bit : Rr → Bool
  pub set_do : Rr → Rr
  -- the OPT record that `SetEdns0` appends to `Extra`, for a UDP size and a DO bit
  pub new_opt : ℕ → Bool → Rr
  -- `Msg.Len`
  pub len : Msg → ℕ
  pub is_edns0_some :
      (m : Msg) (i : ℕ)
      → is_edns0 m ≡ some i
      → (o : Rr) × (get_elem? m.extra i ≡ some o) × (o.rrtype ≡ type_opt)
  pub is_edns0_none : (m : Msg) → is_edns0 m ≡ none → All (λ o. o.rrtype ≢ type_opt) m.extra
  pub do-set_do : (o : Rr) → do_bit (set_do o) ≡ true
  pub set_do_keeps : (o : Rr) → ((set_do o).rrtype ≡ o.rrtype) × ((set_do o).options ≡ o.options)
  pub do-new_opt : (size : ℕ) (do_wanted : Bool) → do_bit (new_opt size do_wanted) ≡ do_wanted
  pub new_opt_type : (size : ℕ) (do_wanted : Bool) → (new_opt size do_wanted).rrtype ≡ type_opt
