-- ===== src/Tests/Sharing.antt =====
-- Two calls of the coalescer for one key, and the cache in front of an upstream.
use dnsproxy_router.Prelude.{
  ℕ, ◌≡◌, ◌⊎◌, refl, true, none, some, [], ◌∷◌, Bytes, arith, lookup, bytes_discrete, ℕ_discrete,
  insert,
}
use dnsproxy_router.Prelude.Int.{pos, ◌+ℤ◌}
use dnsproxy_router.Dns.{Msg}
use dnsproxy_router.Race.{Reply}
use dnsproxy_router.Coalescer.{update, enter, complete, empty, shared, read_call}
use dnsproxy_router.Coalescer.Steps.{
  finishing, System, call, answer, wake, init, Reach, start, later, move, seat, running, waiting,
  returned,
}
use dnsproxy_router.Coalescer.Flight.{PassedOn}
use dnsproxy_router.Coalescer.Sharing.{single_flight, returned-PassedOn, waiting-ends}
use dnsproxy_router.Cache.{fresh_answer, new_entry, clamp, lifetime}
use dnsproxy_router.Cache.Key.{key, key_of}
use dnsproxy_router.CachingUpstream.{look, fill, fresh}
use dnsproxy_router.CachingUpstream.Serving.{look-fill}
use dnsproxy_router.Tests.{find_opt, small_dns, plain_query, answer_of_query}
use dnsproxy_router.Tests.Caching.{config, empty_cache}
use dnsproxy_router.Cache.Records.{cacheable, clamp_between, has_ip_ans, u32_seconds}
use dnsproxy_router.Cache.Key.{to_lower, itoa, digits_from, edns_key}

abbrev name : Bytes
name = b'a' ∷ []

-- Thread 0 leads, thread 1 joins it.
abbrev joining : System ℕ ℕ → ℕ → System ℕ ℕ
joining s i = move s i (enter s.group i name).0 (seat name (enter s.group i name).1)

-- Thread 0 leads, thread 1 joins it.
abbrev led : System ℕ ℕ
led = joining init 0

abbrev joined : System ℕ ℕ
joined = joining led 1

joined-Reach : Reach joined
unfolding ℕ_discrete
joined-Reach = later (later start (call 0 name refl)) (call 1 name refl)

leads : joined.pc 0 ≡ running name 0
unfolding enter empty lookup ℕ_discrete
leads = refl

waits : joined.pc 1 ≡ waiting name 0
unfolding enter empty lookup ℕ_discrete bytes_discrete insert
waits = refl

abbrev failed : Reply ℕ ℕ
failed = record { resp = some 3; err = some 5 }

-- what thread 1 gets of it
abbrev passed : Reply ℕ ℕ
passed = record { resp = some 3; err = none }

abbrev answered : System ℕ ℕ
answered = record {
  group = complete joined.group 0 failed;
  pc = update joined.pc 0 (finishing name 0 failed);
  answers = (0, name, failed) ∷ [];
}

answered-Reach : Reach answered
answered-Reach = later joined-Reach (answer 0 name 0 failed leads)

woken : answered.pc 1 ≡ waiting name 0
unfolding enter empty lookup ℕ_discrete bytes_discrete insert
woken = refl

reads : read_call answered.group 0 ≡ some passed
unfolding enter empty lookup ℕ_discrete bytes_discrete insert complete read_call shared
reads = refl

abbrev done : System ℕ ℕ
done = move answered 1 answered.group (returned name passed)

done-Reach : Reach done
done-Reach = later answered-Reach (wake 1 name 0 passed woken reads)

returns : done.pc 1 ≡ returned name passed
unfolding ℕ_discrete
returns = refl

single_flight_example : ◌≡◌ {A = ℕ} 0 0
single_flight_example = single_flight joined 0 0 0 0 name joined-Reach leads leads

returned-PassedOn_example : PassedOn 1 name passed ((0, name, failed) ∷ [])
returned-PassedOn_example = returned-PassedOn done 1 name passed done-Reach returns

waiting-ends_example :
    ((reply : Reply ℕ ℕ) × (read_call joined.group 0 ≡ some reply))
    ⊎ ((j : ℕ) × (joined.pc j ≡ running name 0)
        × ((reply : Reply ℕ ℕ) → read_call (complete joined.group 0 reply) 0 ≡ some (shared reply)))
waiting-ends_example = waiting-ends joined 1 0 name joined-Reach waits

-- the plain query under another id
abbrev again : Msg
again = record plain_query { id = 8 }

abbrev alpha_key : Bytes
alpha_key = b'a' ∷ b'|' ∷ b'1' ∷ b'|' ∷ b'1' ∷ []

abbrev answer_now : Reply Msg ℕ
answer_now = record { resp = some answer_of_query; err = none }

key-plain_query : key small_dns plain_query ≡ some alpha_key
unfolding key key_of to_lower itoa digits_from edns_key find_opt small_dns
key-plain_query = refl

key-again : key small_dns again ≡ some alpha_key
unfolding key key_of to_lower itoa digits_from edns_key find_opt small_dns
key-again = refl

good : cacheable (clamp empty_cache answer_of_query) ≡ true
unfolding clamp clamp_between cacheable has_ip_ans u32_seconds
good = refl

life : lifetime config (clamp empty_cache answer_of_query) ≡ some (pos 100)
unfolding lifetime
life = refl

look-fill_example :
    (m : Msg) × ((look small_dns
        (fill small_dns empty_cache (pos 0) plain_query answer_now).0
        (pos 70)
        (pos 71)
        again).1
      ≡ fresh m)
    × (m
        ≡ fresh_answer config
            (pos 70)
            (new_entry empty_cache (pos 0) (clamp empty_cache answer_of_query) 25 (pos 100)))
    × (m.id ≡ 7)
    × (m.question ≡ again.question)
unfolding ◌+ℤ◌ small_dns
look-fill_example =
    look-fill small_dns empty_cache (pos 0) plain_query again answer_of_query alpha_key (pos 100)
      key-plain_query key-again good life ℕ (pos 70) (pos 71) (omega arith)
