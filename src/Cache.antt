-- ===== src/Cache.antt =====
-- internal/cache/cache.go: the response cache, bounded in bytes, with three eviction policies. The map
-- of entries is an association list; an entry is reached from the order list and the heap by its
-- key. Each operation takes the clock's reading. Byte counts and times do not wrap around.
pub mod Records
pub mod Key
pub mod Heap
pub mod Sizes
pub mod Count
pub mod Calls
pub mod Order
pub mod Room
pub mod Linear
pub mod Frequent
pub mod Runs
pub mod Bound
pub mod RoundTrip
pub mod Ttl
pub mod Shown
use dnsproxy_router.Prelude.{
  ℕ, zero, suc, ◌+◌, ◌-◌, ◌*◌, Bool, true, false, not, ◌&&◌, Option, none, some, List, [], ◌∷◌,
  ◌++◌, ltb, leb, ◌==◌, if◌then◌else◌, length, lookup, Bytes, bytes_discrete, insert, remove,
  modify, ite,
}
use dnsproxy_router.Prelude.Int.{ℤ, pos, negsuc, ◌+ℤ◌, ◌-ℤ◌, ltb_ℤ, leb_ℤ}
use dnsproxy_router.Dns.{Msg, DnsLibrary}
use Records.{u32_seconds, whole_seconds, second, set_ttl, clamp_between, record_ttl, cacheable}
use Key.{key}
use Heap.{Entry, Items, Lfu, fix_at, push, pop_min, remove_at}

-- `unset` is the empty text, `unknown` any text that is no policy.
pub data Policy : Type 0 where
  unset fifo lru lfu unknown : Policy

pub record Config : Type 0 where
  pub max_bytes : ℤ
  pub ttl : ℤ
  pub eviction : Policy
  pub stale_max_age : ℤ
  pub stale_answer_ttl : ℤ
  pub min_ttl : ℤ
  pub max_ttl : ℤ

pub record Cache : Type 0 where
  pub cfg : Config
  pub items : Items
  pub total : ℕ
  -- the order list's keys, the front first
  pub order : List Bytes
  pub heap : List Bytes
  pub seq : ℕ

abbrev pub default_policy : Policy → Policy
default_policy unset = lru
default_policy p = p

unfoldable pub new : Config → Cache
new cfg = record {
  cfg = record cfg {
    eviction = default_policy cfg.eviction;
    stale_answer_ttl =
        if leb_ℤ cfg.stale_answer_ttl (pos 0) then pos (30 * second) else cfg.stale_answer_ttl;
  };
  items = [];
  total = 0;
  order = [];
  heap = [];
  seq = 0;
}

unfoldable pub clear : Cache → Cache
clear c = record c { items = []; total = 0; order = []; heap = [] }

-- `list.Remove` of the node with the key
unfoldable pub drop_key : Bytes → List Bytes → List Bytes
drop_key k [] = []
drop_key k (j ∷ js) = ite (bytes_discrete k j) (drop_key k js) (j ∷ drop_key k js)

abbrev pub with_heap : Cache → Lfu → Cache
with_heap c h = record c { items = h.items; heap = h.slots }

abbrev pub lfu_of : Cache → Lfu
lfu_of c = record { slots = c.heap; items = c.items }

abbrev pub bump : Entry → Entry
bump e = record e { freq = suc e.freq }

-- the cases of `touch`, by the policy
unfoldable pub touch_by : Policy → Cache → Bytes → Entry → Cache
unfolding drop_key fix_at
touch_by lru c k e = if e.elem then record c { order = drop_key k c.order ++ k ∷ [] } else c
touch_by lfu c k e =
    let c' = record c { items = modify bytes_discrete k bump c.items } in
    elim e.heap_idx [ none ↦ c' | some i ↦ with_heap c' (fix_at (lfu_of c') i) ]
touch_by _ c k e = c

-- `touch`, of the entry `e` under the key
unfoldable pub touch : Cache → Bytes → Entry → Cache
unfolding touch_by
touch c k e = touch_by c.cfg.eviction c k e

-- the last step of `removeEntry`, and before it the map and the count
abbrev pub leave_heap : Cache → Entry → Cache
leave_heap c e = elim e.heap_idx [ none ↦ c | some i ↦ with_heap c (remove_at (lfu_of c) i).0 ]

-- `removeEntry`, of the entry `e` under the key. The heap is left first, since the slots name
-- their entries through the map; the other entries are what the order of these steps leaves them.
unfoldable pub remove_entry : Cache → Bytes → Entry → Cache
unfolding drop_key remove_at
remove_entry c k e =
    let c' = leave_heap c e in
    record c' {
      items = remove bytes_discrete k c'.items;
      total = c'.total - e.size;
      order = if e.elem then drop_key k c'.order else c'.order;
    }

abbrev pub remove_found : Cache → Option Bytes → Cache
remove_found c found = elim found [
  | none ↦ c
  | some k ↦ elim (lookup bytes_discrete k c.items) [ none ↦ c | some e ↦ remove_entry c k e ]
]

abbrev pub front : List Bytes → Option Bytes
front [] = none
front (k ∷ ks) = some k

-- the heap's part of `evictOne`
unfoldable pub evict_least : Cache → Cache
unfolding remove_entry pop_min
evict_least c = elim c.heap [
  | [] ↦ c
  | k ∷ ks ↦ let (h, found) = pop_min (lfu_of c) in remove_found (with_heap c h) found
]

-- the cases of `evictOne`, by the policy
unfoldable pub evict_by : Policy → Cache → Cache
unfolding remove_entry evict_least
evict_by fifo c = remove_found c (front c.order)
evict_by lru c = remove_found c (front c.order)
evict_by lfu c = evict_least c
evict_by _ c = c

-- `evictOne`
unfoldable pub evict_one : Cache → Cache
unfolding evict_by
evict_one c = evict_by c.cfg.eviction c

-- the loop of `evictFor`, with as many rounds as there are entries
unfoldable pub evict_loop : ℕ → ℕ → ℕ → Cache → Cache
unfolding evict_one
evict_loop zero size limit c = c
evict_loop (suc rounds) size limit c =
    let rest = evict_loop rounds size limit (evict_one c) in
    if not (length c.items == 0) && ltb limit (c.total + size) then rest else c

unfoldable pub evict_within : ℤ → Cache → ℕ → Cache
unfolding evict_loop
evict_within (pos limit) c size = if limit == 0 then c else evict_loop (length c.items) size limit c
evict_within (negsuc n) c size = c

-- `evictFor`
unfoldable pub evict_for : Cache → ℕ → Cache
unfolding evict_within
evict_for c size = evict_within c.cfg.max_bytes c size

abbrev pub new_entry : Cache → ℤ → Msg → ℕ → ℤ → Entry
new_entry c now msg size ttl = record {
  msg = msg;
  size = size;
  expire = now +ℤ ttl;
  stale_until = now +ℤ (ttl +ℤ c.cfg.stale_max_age);
  freq = 1;
  seq = 0;
  elem = false;
  heap_idx = none;
}

-- the cases of `insertEntry`, by the policy, for the entry `e`
unfoldable pub insert_by : Policy → Cache → Bytes → Entry → Cache
unfolding push
insert_by fifo c k e = record c {
  items = insert bytes_discrete k (record e { elem = true }) c.items;
  order = c.order ++ k ∷ [];
}
insert_by lru c k e = record c {
  items = insert bytes_discrete k (record e { elem = true }) c.items;
  order = c.order ++ k ∷ [];
}
insert_by lfu c k e =
    let c' = record c {
      items = insert bytes_discrete k (record e { seq = suc c.seq }) c.items;
      seq = suc c.seq;
    } in
    with_heap c' (push (lfu_of c') k)
insert_by _ c k e = record c { items = insert bytes_discrete k e c.items }

-- `insertEntry`
unfoldable pub insert_entry : Cache → ℤ → Bytes → Msg → ℕ → ℤ → Cache
unfolding insert_by
insert_entry c now k msg size ttl =
    insert_by c.cfg.eviction (record c { total = c.total + size }) k (new_entry c now msg size ttl)

abbrev pub renewed : Cache → ℤ → Msg → ℕ → ℤ → Entry → Entry
renewed c now msg size ttl e = record e {
  msg = msg;
  size = size;
  expire = now +ℤ ttl;
  stale_until = now +ℤ (ttl +ℤ c.cfg.stale_max_age);
}

-- `replaceEntry`, of the entry `e` under the key. The count includes `e.size`, so it can be
-- subtracted.
unfoldable pub replace_entry : Cache → ℤ → Bytes → Entry → Msg → ℕ → ℤ → Cache
unfolding touch
replace_entry c now k e msg size ttl =
    touch
      (record c {
        total = c.total + size - e.size;
        items = modify bytes_discrete k (renewed c now msg size ttl) c.items;
      })
      k (renewed c now msg size ttl e)

-- what `Get` makes of the entry that it finds
unfoldable pub fresh_answer : Config → ℤ → Entry → Msg
unfolding whole_seconds u32_seconds set_ttl
fresh_answer cfg now e =
    let left = whole_seconds (e.expire -ℤ now) in
    let shown = if left == 0 then 1 else left in
    let high = u32_seconds cfg.max_ttl in
    set_ttl e.msg (if ltb 0 high && ltb high shown then high else shown)

-- what `GetStale` makes of the entry that it finds
unfoldable pub stale_answer : Config → Entry → Msg
unfolding whole_seconds u32_seconds set_ttl
stale_answer cfg e =
    let given = whole_seconds cfg.stale_answer_ttl in
    let shown = if given == 0 then 1 else given in
    let high = u32_seconds cfg.max_ttl in
    set_ttl e.msg (if ltb 0 high && ltb high shown then high else shown)

-- `Get`, from the key on
unfoldable pub get_at : Cache → ℤ → Bytes → Cache × Option Msg
unfolding remove_entry touch fresh_answer
get_at c now k = elim (lookup bytes_discrete k c.items) [
  | none ↦ (c, none)
  | some e ↦
      if ltb_ℤ e.expire now
      then (if ltb_ℤ e.stale_until now then remove_entry c k e else c, none)
      else (touch c k e, some (fresh_answer c.cfg now e))
]

-- `GetStale`, from the key on
unfoldable pub get_stale_at : Cache → ℤ → Bytes → Cache × Option Msg
unfolding remove_entry stale_answer
get_stale_at c now k = elim (lookup bytes_discrete k c.items) [
  | none ↦ (c, none)
  | some e ↦
      if ltb_ℤ now e.expire
      then (c, none)
      else if ltb_ℤ e.stale_until now
      then (remove_entry c k e, none)
      else (c, some (stale_answer c.cfg e))
]

-- `Set`, from the key, the size and the lifetime on
unfoldable pub set_at : Cache → ℤ → Bytes → Msg → ℕ → ℤ → Cache
unfolding replace_entry evict_for insert_entry
set_at c now k msg size ttl = elim (lookup bytes_discrete k c.items) [
  | none ↦ insert_entry (evict_for c size) now k msg size ttl
  | some e ↦ replace_entry c now k e msg size ttl
]

-- the lifetime that `Set` gives a response; `none` is the early return
unfoldable pub lifetime : Config → Msg → Option ℤ
unfolding record_ttl
lifetime cfg resp =
    if leb_ℤ cfg.ttl (pos 0)
    then (if record_ttl resp == 0 then none else some (pos (record_ttl resp * second)))
    else some cfg.ttl

-- `Clamp`
unfoldable pub clamp : Cache → Msg → Msg
unfolding clamp_between u32_seconds
clamp c resp = clamp_between (u32_seconds c.cfg.min_ttl) (u32_seconds c.cfg.max_ttl) resp

module _ (lib : DnsLibrary) where
  unfoldable pub get : Cache → ℤ → Msg → Cache × Option Msg
  unfolding get_at key
  get c now req = elim (key lib req) [ none ↦ (c, none) | some k ↦ get_at c now k ]

  unfoldable pub get_stale : Cache → ℤ → Msg → Cache × Option Msg
  unfolding get_stale_at key
  get_stale c now req = elim (key lib req) [
    | none ↦ (c, none)
    | some k ↦ if leb_ℤ c.cfg.stale_max_age (pos 0) then (c, none) else get_stale_at c now k
  ]

  unfoldable pub put : Cache → ℤ → Msg → Msg → Cache
  unfolding set_at key cacheable lifetime
  put c now req resp = elim (key lib req) [
    | none ↦ c
    | some k ↦
        if cacheable resp
        then elim (lifetime c.cfg resp) [
          | none ↦ c
          | some ttl ↦ set_at c now k resp (lib.len resp + length k) ttl
        ]
        else c
  ]
