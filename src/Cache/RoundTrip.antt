-- ===== src/Cache/RoundTrip.antt =====
-- What `Set` stores, `Get` and `GetStale` find until it is too old.

use dnsproxy_router.Cache.Shown.{
  IsShown, IsShort, IsAnswer, fresh_answer-IsAnswer, stale_answer-IsAnswer,
}
use dnsproxy_router.Prelude.{
  lookup-remove_self, Bool-cases, ℕ, ◌+◌, ◌-◌, ◌≡◌, refl, ap, ◌∙◌, inl, inr, true, false, none,
  some, arith, lookup, Bytes, bytes_discrete, Option-cases, lookup-insert_self, lookup-modify_self,
  modify, insert,
}
use dnsproxy_router.Prelude.Int.{◌<ℤ◌, ℤ, ltb_ℤ, ◌+ℤ◌, ◌-ℤ◌, ◌≤ℤ◌}
use dnsproxy_router.Dns.{Msg}
use mathlib.Core.Option
use dnsproxy_router.Cache.Heap.{Entry, Lfu, push, fix_at}
use dnsproxy_router.Cache.Count.{evict_for-cfg}
use dnsproxy_router.Cache.Sizes.{strip, strip-fix_at, strip-push, lookup_of_strip}
use dnsproxy_router.Cache.{
  pos, remove_entry, leave_heap, lfu_of, bump, with_heap, suc, Cache, Config, lfu, Policy, fifo,
  lru, evict_for, insert_by, insert_entry, replace_entry, touch, touch_by, renewed, new_entry,
  set_at, get_at, get_stale_at, fresh_answer, stale_answer,
}

-- The parts of an entry that an answer is made of.
abbrev SameAnswer : Entry → Entry → Type 0
SameAnswer d e = (d.msg ≡ e.msg) × (d.expire ≡ e.expire) × (d.stale_until ≡ e.stale_until)

abbrev Holds : Cache → Bytes → Entry → Type 0
Holds c k e = (d : Entry) × (lookup bytes_discrete k c.items ≡ some d) × SameAnswer d e

-- The heap's work does not touch them.
Holds-with_heap :
    (c : Cache) (h : Lfu) (k : Bytes) (e : Entry)
    → strip h.items ≡ strip c.items
    → Holds c k e
    → Holds (with_heap c h) k e
Holds-with_heap c h k e same (d, at, (m, x, u)) =
    let (d', there, core) = lookup_of_strip c.items h.items same k d at in
    (
      d',
      there,
      (
        ap (λ (y : Entry). y.msg) core ∙ m,
        ap (λ (y : Entry). y.expire) core ∙ x,
        ap (λ (y : Entry). y.stale_until) core ∙ u,
      ),
    )

insert_by-Holds : (p : Policy) (c : Cache) (k : Bytes) (e : Entry) → Holds (insert_by p c k e) k e
unfolding insert_by
insert_by-Holds fifo c k e =
    (record e { elem = true }, lookup-insert_self bytes_discrete k _ c.items, (refl, refl, refl))
insert_by-Holds lru c k e =
    (record e { elem = true }, lookup-insert_self bytes_discrete k _ c.items, (refl, refl, refl))
insert_by-Holds lfu c k e =
    let e' = record e { seq = suc c.seq } in
    let c' = record c { items = insert bytes_discrete k e' c.items; seq = suc c.seq } in
    Holds-with_heap c' (push (lfu_of c') k) k e (strip-push (lfu_of c') k)
      (e', lookup-insert_self bytes_discrete k e' c.items, (refl, refl, refl))
insert_by-Holds _ c k e = (e, lookup-insert_self bytes_discrete k e c.items, (refl, refl, refl))

touch_by-Holds :
    (p : Policy) (c : Cache) (k : Bytes) (e d : Entry) → Holds c k e → Holds (touch_by p c k d) k e
unfolding touch_by
touch_by-Holds lru c k e d h = elim (Bool-cases d.elem) [
  | inl l ↦ rw (l, touch_by) h
  | inr l ↦ rw (l, touch_by) h
]
touch_by-Holds lfu c k e d (e', at, same) =
    let c' = record c { items = modify bytes_discrete k bump c.items } in
    let bumped : Holds c' k e =
      (bump e', lookup-modify_self bytes_discrete k bump c.items ∙ ap (Option.map bump) at, same) in
    elim (Option-cases d.heap_idx) [
      | inl n ↦ rw (n, touch_by) bumped
      | inr (i, n) ↦
          rw (n, touch_by)
            (Holds-with_heap c' (fix_at (lfu_of c') i) k e (strip-fix_at (lfu_of c') i) bumped)
    ]
touch_by-Holds _ c k e d h = h

insert_by-cfg : (p : Policy) (c : Cache) (k : Bytes) (e : Entry) → (insert_by p c k e).cfg ≡ c.cfg
unfolding insert_by
insert_by-cfg fifo c k e = refl
insert_by-cfg _ c k e = refl

touch_by-cfg : (p : Policy) (c : Cache) (k : Bytes) (e : Entry) → (touch_by p c k e).cfg ≡ c.cfg
unfolding touch_by
touch_by-cfg lru c k e = ground arith
touch_by-cfg lfu c k e = elim (Option-cases e.heap_idx) [
  | inl n ↦ rw (n, touch_by) refl
  | inr (i, n) ↦ rw (n, touch_by) refl
]
touch_by-cfg _ c k e = refl

-- After `Set` the entry under the key holds the response and the times; the configuration stays.
pub set_at-Holds :
    (c : Cache) (now : ℤ) (k : Bytes) (msg : Msg) (size : ℕ) (ttl : ℤ)
    → Holds (set_at c now k msg size ttl) k (new_entry c now msg size ttl)
      × ((set_at c now k msg size ttl).cfg ≡ c.cfg)
unfolding set_at insert_entry replace_entry touch
set_at-Holds c now k msg size ttl = elim (Option-cases (lookup bytes_discrete k c.items)) [
  | inl h ↦
      let c' = evict_for c size in
      let same = ap (λ (f : Config). now +ℤ (ttl +ℤ f.stale_max_age)) (evict_for-cfg c size) in
      let (d, at, (m, x, u)) =
        insert_by-Holds c'.cfg.eviction (record c' { total = c'.total + size }) k
          (new_entry c' now msg size ttl) in
      rw (h, set_at)
        (
          (d, at, (m, x, u ∙ same)),
          insert_by-cfg c'.cfg.eviction (record c' { total = c'.total + size }) k
                (new_entry c' now msg size ttl)
              ∙ evict_for-cfg c size,
        )
  | inr (e, h) ↦
      let g = renewed c now msg size ttl in
      let c' = record c {
        items = modify bytes_discrete k g c.items;
        total = c.total + size - e.size;
      } in
      rw (h, set_at)
        (
          touch_by-Holds c.cfg.eviction c' k (new_entry c now msg size ttl) (g e) (
            g e,
            lookup-modify_self bytes_discrete k g c.items ∙ ap (Option.map g) h,
            (refl, refl, refl),
          ),
          touch_by-cfg c.cfg.eviction c' k (g e),
        )
]

fresh_answer-same :
    (cfg : Config) (now : ℤ) (d e : Entry)
    → SameAnswer d e
    → fresh_answer cfg now d ≡ fresh_answer cfg now e
unfolding fresh_answer
fresh_answer-same cfg now d e (m, x, u) = rw (m, x)

stale_answer-same :
    (cfg : Config) (d e : Entry) → SameAnswer d e → stale_answer cfg d ≡ stale_answer cfg e
unfolding stale_answer
stale_answer-same cfg d e (m, x, u) = rw m

remove_entry-lookup :
    (c : Cache) (k : Bytes) (e : Entry) → lookup bytes_discrete k (remove_entry c k e).items ≡ none
unfolding remove_entry
remove_entry-lookup c k e = lookup-remove_self bytes_discrete k (leave_heap c e).items

module _ (c : Cache) (now : ℤ) (k : Bytes) (msg : Msg) (size : ℕ) (ttl later : ℤ) where
  -- `Get` finds the entry that `Set` has just stored.
  pub get_at-stored :
      later ≤ℤ now +ℤ ttl
      → (get_at (set_at c now k msg size ttl) later k).1
        ≡ some (fresh_answer c.cfg later (new_entry c now msg size ttl))
  unfolding get_at
  get_at-stored h =
      let (held, cfg) = set_at-Holds c now k msg size ttl in
      let (d, at, same) = held in
      let young : ltb_ℤ d.expire later ≡ false = ground (arith, same.1) in
      rw (at, get_at, young)
        (ap some (
          ap (λ f. fresh_answer f later d) cfg
          ∙ fresh_answer-same c.cfg later d (new_entry c now msg size ttl) same))

  -- After the lifetime `GetStale` finds it.
  pub get_stale_at-stored :
      now +ℤ ttl <ℤ later
      → later ≤ℤ now +ℤ (ttl +ℤ c.cfg.stale_max_age)
      → let s = set_at c now k msg size ttl in
        (get_at s later k ≡ (s, none))
        × (get_stale_at s later k ≡ (s, some (stale_answer c.cfg (new_entry c now msg size ttl))))
  unfolding get_at get_stale_at
  get_stale_at-stored h w =
      let (held, cfg) = set_at-Holds c now k msg size ttl in
      let (d, at, same) = held in
      let old : ltb_ℤ d.expire later ≡ true = ground (arith, same.1) in
      let not_young : ltb_ℤ later d.expire ≡ false = ground (arith, same.1) in
      let kept : ltb_ℤ d.stale_until later ≡ false = ground (arith, same.2) in
      let s = set_at c now k msg size ttl in
      let answer : stale_answer s.cfg d ≡ stale_answer c.cfg (new_entry c now msg size ttl) =
        ap (λ f. stale_answer f d) cfg
        ∙ stale_answer-same c.cfg d (new_entry c now msg size ttl) same in
      (
        rw (at, get_at, old, kept) refl,
        rw (at, get_stale_at, not_young, kept) (ap (λ m. (s, some m)) answer),
      )

  -- Under every policy, what `Set` has just stored is returned by `Get` until its lifetime is over:
  -- the same message, each record but the OPT records with the whole seconds left of the lifetime
  -- as its TTL, but at least a second, and not more than the maximum where that is a second or
  -- more. The maximum is not negative, and it and the time left are below 2 ^ 32 seconds.
  pub get_at-set_at :
      later ≤ℤ now +ℤ ttl
      → pos 0 ≤ℤ c.cfg.max_ttl
      → IsShort c.cfg.max_ttl
      → IsShort ((now +ℤ ttl) -ℤ later)
      → (a : Msg) × ((get_at (set_at c now k msg size ttl) later k).1 ≡ some a)
        × IsAnswer (IsShown ((now +ℤ ttl) -ℤ later) c.cfg.max_ttl) msg a
  get_at-set_at h low short left = (
    fresh_answer c.cfg later (new_entry c now msg size ttl),
    get_at-stored h,
    fresh_answer-IsAnswer c.cfg later (new_entry c now msg size ttl) low short left,
  )

  -- Once its lifetime is over, `Get` no longer returns it, but within the stale window keeps it, and
  -- `GetStale` then returns it: the same message, each record but the OPT records with the whole
  -- seconds of the configured stale TTL as its TTL, but at least a second, and not more than the
  -- maximum where that is a second or more. The maximum is not negative, and both are below 2 ^ 32
  -- seconds.
  pub get_stale_at-set_at :
      now +ℤ ttl <ℤ later
      → later ≤ℤ now +ℤ (ttl +ℤ c.cfg.stale_max_age)
      → pos 0 ≤ℤ c.cfg.max_ttl
      → IsShort c.cfg.max_ttl
      → IsShort c.cfg.stale_answer_ttl
      → let s = set_at c now k msg size ttl in
        (get_at s later k ≡ (s, none))
        × ((a : Msg) × (get_stale_at s later k ≡ (s, some a))
            × IsAnswer (IsShown c.cfg.stale_answer_ttl c.cfg.max_ttl) msg a)
  get_stale_at-set_at h w low short given =
      let (missed, found) = get_stale_at-stored h w in
      (
        missed,
        (
          stale_answer c.cfg (new_entry c now msg size ttl),
          found,
          stale_answer-IsAnswer c.cfg (new_entry c now msg size ttl) low short given,
        ),
      )

  -- When the stale window is over too, neither returns it, and either removes it.
  pub gone-set_at :
      now +ℤ ttl <ℤ later
      → now +ℤ (ttl +ℤ c.cfg.stale_max_age) <ℤ later
      → let s = set_at c now k msg size ttl in
        ((get_at s later k).1 ≡ none)
        × (lookup bytes_discrete k (get_at s later k).0.items ≡ none)
        × ((get_stale_at s later k).1 ≡ none)
        × (lookup bytes_discrete k (get_stale_at s later k).0.items ≡ none)
  unfolding get_at get_stale_at
  gone-set_at h w =
      let (held, cfg) = set_at-Holds c now k msg size ttl in
      let (d, at, same) = held in
      let old : ltb_ℤ d.expire later ≡ true = ground (arith, same.1) in
      let not_young : ltb_ℤ later d.expire ≡ false = ground (arith, same.1) in
      let dead : ltb_ℤ d.stale_until later ≡ true = ground (arith, same.2) in
      let s = set_at c now k msg size ttl in
      (
        rw (at, get_at, old) refl,
        rw (at, get_at, old, dead) (remove_entry-lookup s k d),
        rw (at, get_stale_at, not_young, dead) refl,
        rw (at, get_stale_at, not_young, dead) (remove_entry-lookup s k d),
      )
