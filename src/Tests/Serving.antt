-- ===== src/Tests/Serving.antt =====
-- The health of a target, a session, the retries of a rule, and a Dubbo router.
use fgw.Base.{
  ℕ, suc, ◌≡◌, refl, true, false, List, [], ◌∷◌, Option, none, some, arith, Text, txt, text_eq,
  text_equality, lookup, inr, trim, index_of, text_eq_refl, if◌then◌else◌,
}
use fgw.Backends.HealthCheck.{
  Response, Settings, Health, Event, is_healthy, run_events, IsConsistent,
}
use fgw.Backends.HealthCheck.Transitions.{run_events-IsConsistent}
use fgw.Backends.Sessions.{Kind, Headers, SetCookie, State, restore, preserve}
use fgw.Backends.Sessions.RoundTrip.{restore-preserve}
use fgw.Backends.Connections
use fgw.Backends.Connections.{
  Step, Steps, IsCounted, new_backend, on_start, on_update, new_backend-IsCounted,
}
use fgw.Backends.Retries.{need_retry, serve, serve-retries}
use fgw.Dubbo.{MatchKind, DubboMatch, DubboRule, Body, fields, cache_key, find_entry, handle}
use fgw.Dubbo
use fgw.Dubbo.Cache.{find_entry-cache_key}

abbrev address : Text
address = txt "10.0.0.1:80"

abbrev settings : Settings
settings = record {
  max_fails = some 2;
  interval = none;
  fail_timeout = some 30;
  matches = record { status_codes = some (200 ∷ []); body = none; headers = none } ∷ [];
}

abbrev up : Health
up = (record { is_healthy = true; fail_count = 0; fail_time = 0; last_check_time = 0 }, [])

abbrev down : Health
down = (
  record { is_healthy = false; fail_count = 2; fail_time = 10; last_check_time = 0 },
  (address, true) ∷ [],
)

up-IsConsistent : IsConsistent address settings up
unfolding is_healthy lookup
up-IsConsistent = (refl, refl)

down-IsConsistent : IsConsistent address settings down
unfolding is_healthy lookup text_eq
down-IsConsistent = (refl, refl)

abbrev bad_gateway : Response
bad_gateway = record { status = 502; body = none; headers = [] }

abbrev events : List (Event address settings)
events = Event.answered 3 bad_gateway ∷ Event.ended 4 true ∷ Event.checked 40 ∷ []

run_events-IsConsistent_example :
    IsConsistent address settings (run_events address settings events up)
run_events-IsConsistent_example =
    run_events-IsConsistent address settings events up refl up-IsConsistent

-- A cache of one session.
abbrev cache_get : Text → Option (Text × ℕ) → Option ℕ
cache_get k none = none
cache_get k (some e) = if text_eq e.0 k then some e.1 else none

abbrev cache_put : Text → ℕ → Option (Text × ℕ) → Option (Text × ℕ)
cache_put k v c = some (k, v)

cache_law : (j : Text) (w : ℕ) (c : Option (Text × ℕ)) → cache_get j (cache_put j w c) ≡ some w
cache_law j w c = rw (text_eq_refl j) refl

abbrev response : Headers
response = record {
  cookie = none;
  set_cookie = SetCookie.single (txt "sid=abc;Path=/");
  named = none;
}

abbrev request : Headers
request = record { cookie = some (txt "sid=abc"); set_cookie = SetCookie.missing; named = none }

abbrev fresh : State cache_get cache_put
fresh = record { key = none; sessions = none }

restore-preserve_example :
    (restore cache_get cache_put Kind.cookie
      (txt "sid")
      request
      (preserve cache_get cache_put Kind.cookie (txt "sid") response 9 fresh)).0
    ≡ some 9
unfolding index_of trim
restore-preserve_example =
    restore-preserve cache_get cache_put (txt "sid") (txt "abc") (some (txt "Path=/")) none response
      request 9 fresh cache_law refl refl refl refl refl refl

serve-retries_example :
    (serve none (some 3) 0 (500 ∷ 503 ∷ []) ≡ none)
    × (serve none (some 3) 0 (500 ∷ 503 ∷ 502 ∷ 200 ∷ []) ≡ some 502)
unfolding need_retry text_eq
serve-retries_example =
    serve-retries none (some 3) 3 (500 ∷ 503 ∷ []) 502 (200 ∷ []) refl (refl, (refl, tt))
      (omega arith) (inr refl)

abbrev call_rule : DubboRule text_eq
call_rule = record {
  matches = some (
      record {
        kind = MatchKind.exact;
        service = some (txt "user");
        version = none;
        method = none;
        signature = none;
      }
      ∷ []);
  name = txt "rule1";
  resource = txt "route1";
}

abbrev get_user : Body
get_user = record {
  service = txt "user";
  version = txt "1";
  method = txt "get";
  signature = txt "V";
}

abbrev get_order : Body
get_order = record {
  service = txt "order";
  version = txt "1";
  method = txt "get";
  signature = txt "V";
}

find_entry-cache_key_example :
    find_entry text_eq (call_rule ∷ []) get_user ≡ find_entry text_eq (call_rule ∷ []) get_user
unfolding index_of
find_entry-cache_key_example =
    find_entry-cache_key text_eq (call_rule ∷ []) get_user get_user
      (refl, (refl, (refl, (refl, tt)))) (refl, (refl, (refl, (refl, tt)))) refl

abbrev Selections : Type 0
Selections = List (Text × ℕ)

abbrev get_cached : Text → Selections → Option ℕ
get_cached k c = lookup k c

abbrev put_cached : Text → Option ℕ → Selections → Selections
put_cached k none c = c
put_cached k (some v) c = (k, v) ∷ c

abbrev run_rule : DubboRule text_eq → ℕ → ℕ × ℕ
run_rule r n = (n, suc n)

abbrev router : Dubbo.State text_eq get_cached put_cached run_rule
router = record {
  cache = (cache_key get_order, 8) ∷ [];
  balancers = 0;
  selection = none;
  matched = none;
}

abbrev served : Dubbo.State text_eq get_cached put_cached run_rule
served = (handle text_eq get_cached put_cached run_rule (call_rule ∷ []) get_user router).1

abbrev two_started : Connections.State
two_started = on_update 1 (on_start 8 1 (on_start 7 0 (new_backend 2)))

two_started-Steps : Steps (new_backend 2) two_started
unfolding on_start
two_started-Steps = Steps.more (Step.start (new_backend 2) 7 0 refl refl) (
    Steps.more (Step.start (on_start 7 0 (new_backend 2)) 8 1 refl refl) (
      Steps.more (Step.update (on_start 8 1 (on_start 7 0 (new_backend 2))) 1)
        (Steps.done two_started)))

new_backend-IsCounted_example : IsCounted two_started
new_backend-IsCounted_example = new_backend-IsCounted 2 two_started two_started-Steps
