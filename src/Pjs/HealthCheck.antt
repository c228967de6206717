-- ===== src/Pjs/HealthCheck.antt =====
-- pjs/common/health-check.js: the targets of one service, their probes, and the cache of the targets
-- that are out. Metrics and logs are left out. A cache is used as a map; `none` is one that is not
-- made yet. A probe is sent outside of the program and ends with an event.
pub mod Cached
pub mod Failures
pub mod Runs
use fgw.Base.{
  ℕ, ◌+◌, Bool, true, false, not, ◌&&◌, ◌||◌, List, [], ◌∷◌, ◌++◌, map, flat_map, Option, none,
  some, Text, txt, truthy, text_eq, text_equality, starts_with, to_lower, last_index_of, take, drop,
  lookup, insert, erase, any, ltb, leb, ◌==◌, if◌then◌else◌,
}
use fgw.Pjs.Matches.{
  Match, Response, Code, matched, bad_status, bad_body, bad_header, bad_matches, match_response,
}

-- serviceConfig.HealthCheck, with 0 for a number that is not set. Without a path probes are TCP.
pub record Settings : Type 0 where
  pub interval : ℕ
  pub max_fails : ℕ
  pub fail_timeout : ℕ
  pub path : Option Text

pub record Target : Type 0 where
  pub ip : Text
  pub port : Text
  pub alive : Bool
  pub error_count : ℕ
  pub fail_tick : ℕ
  pub tick : ℕ
  pub reason : Option Text
  pub http_status : Option ℕ

abbrev pub Cache : Type 0
Cache = Option (List (Text × Bool))

abbrev pub cached : Option Bool → Bool
cached none = false
cached (some b) = b

abbrev pub get : Text → Cache → Bool
get a none = false
get a (some c) = cached (lookup a c)

abbrev pub put : Text → Cache → Cache
put a none = some ((a, true) ∷ [])
put a (some c) = some (insert a true c)

abbrev pub remove : Text → Cache → Cache
remove a none = none
remove a (some c) = some (erase a c)

-- The targets of the service in healthCheckTargets, by their addresses, and its cache.
pub record Service : Type 0 where
  pub targets : List (Text × Target)
  pub cache : Cache

-- The target of an endpoint.
unfoldable pub new_target : Text → Target
new_target address =
    let target : (ip port : Text) → Target = λ ip port. record {
      ip = ip;
      port = port;
      alive = true;
      error_count = 0;
      fail_tick = 0;
      tick = 0;
      reason = none;
      http_status = none;
    } in
    elim (last_index_of b':' address) [
      | none ↦ target [] address
      | some i ↦ target (take i address) (drop (i + 1) address)
    ]

-- Whether the targets of a service are checked at all.
abbrev pub is_checked : Settings → Bool
is_checked cfg = ltb 0 cfg.max_fails && (ltb 0 cfg.interval || ltb 0 cfg.fail_timeout)

-- `_changed`.
pub data Changed : Type 0 where
  up same down : Changed

module _ (cfg : Settings) where
  unfoldable pub ok : Text → Target → Cache → Target × (Cache × Changed)
  ok a t c = if t.alive then (record t { reason = some (txt "ok") }, (c, same)) else (
    record t { alive = true; error_count = 0; reason = some (txt "ok") },
    (if get a c then remove a c else c, up),
  )

  unfoldable pub fail : Text → Target → Cache → Target × (Cache × Changed)
  fail a t c =
      if leb cfg.max_fails (t.error_count + 1) && t.alive
      then (
        record t { error_count = t.error_count + 1; alive = false; fail_tick = 0 },
        (if get a c then c else put a c, down),
      )
      else (record t { error_count = t.error_count + 1 }, (c, same))

abbrev pub reason_of : Code → Text
reason_of matched = txt "ok"
reason_of bad_status = txt "Bad-StatusCode"
reason_of bad_body = txt "Bad-Body"
reason_of bad_header = txt "Bad-Header"
reason_of bad_matches = txt "Bad-Matches"

-- How a probe ends: with a response, or, over TCP, with the error of its stream.
pub data Outcome : Type 0 where
  answered : Response → Outcome
  closed : (error : Option Text) → Outcome

-- `!e.error || e.error === "ReadTimeout" || e.error === "IdleTimeout"`.
abbrev pub is_reached : Option Text → Bool
is_reached none = true
is_reached (some e) = text_eq e (txt "ReadTimeout") || text_eq e (txt "IdleTimeout")

module _ (cfg : Settings) (matches : List Match) where
  abbrev pub settle_code : Code → Text → Target → Cache → Target × (Cache × Changed)
  settle_code matched a t c = ok cfg a t c
  settle_code bad_status a t c = fail cfg a (record t { reason = some (reason_of bad_status) }) c
  settle_code bad_body a t c = fail cfg a (record t { reason = some (reason_of bad_body) }) c
  settle_code bad_header a t c = fail cfg a (record t { reason = some (reason_of bad_header) }) c
  settle_code bad_matches a t c = fail cfg a (record t { reason = some (reason_of bad_matches) }) c

  -- The end of `check`, and of a connection in the first task.
  unfoldable pub on_outcome : Outcome → Text → Target → Cache → Target × (Cache × Changed)
  unfolding match_response ok fail
  on_outcome (answered r) a t c =
      settle_code (match_response matches r) a (record t { http_status = r.status }) c
  on_outcome (closed error) a t c =
      if is_reached error
      then ok cfg a t c
      else fail cfg a (record t { reason = some (txt "ConnectionRefused") }) c

  -- A refused connection of a request, in pjs/http/forward.js.
  unfoldable pub on_refused : Text → Target → Cache → Target × (Cache × Changed)
  unfolding fail
  on_refused a t c =
      let (t', rest) = fail cfg a t c in
      (record t' { reason = some (txt "ConnectionRefused") }, rest)

  -- The first task on a target, with whether a probe is sent.
  unfoldable pub tick_active : Target → Target × Bool
  tick_active t =
      if ltb 0 cfg.interval
      then (if leb cfg.interval (t.tick + 1)
          then (record t { tick = 0 }, true)
          else (record t { tick = t.tick + 1 }, false))
      else (t, false)

  -- The second task on a target.
  unfoldable pub tick_passive : Text → Target → Cache → Target × (Cache × Changed)
  unfolding ok
  tick_passive a t c =
      if not t.alive && (ltb 0 cfg.fail_timeout && not (ltb 0 cfg.interval))
      then (let t' = record t { fail_tick = t.fail_tick + 1 } in
          if leb cfg.fail_timeout (t.fail_tick + 1) then ok cfg a t' c else (t', (c, same)))
      else (t, (c, same))

-- A step on the target of an address.
abbrev pub Step : Type 0
Step = Text → Target → Cache → Target × (Cache × Changed)

abbrev pub step_of : Step → Text → Option Target → Service → Service
step_of f a none s = s
step_of f a (some t) s =
    let r = f a t s.cache in record { targets = insert a r.0 s.targets; cache = r.1.0 }

unfoldable pub on_target : Step → Text → Service → Service
on_target f a s = step_of f a (lookup a s.targets) s

-- `forEach` over the targets of some addresses.
unfoldable pub on_each : Step → List Text → Service → Service
unfolding on_target
on_each f [] s = s
on_each f (a ∷ more) s = on_each f more (on_target f a s)

abbrev pub addresses : Service → List Text
addresses s = map (λ b. b.0) s.targets

pub data Event : Type 0 where
  active_second passive_second : Event
  outcome : (address : Text) → Outcome → Event
  refused : (address : Text) → Event

module _ (cfg : Settings) (matches : List Match) where
  abbrev pub active_step : Step
  active_step a t c = ((tick_active cfg matches t).0, (c, same))

  unfoldable pub on_event : Event → Service → Service
  unfolding on_each on_target on_outcome on_refused tick_active tick_passive
  on_event active_second s = on_each active_step (addresses s) s
  on_event passive_second s = on_each (tick_passive cfg matches) (addresses s) s
  on_event (outcome a o) s = on_target (on_outcome cfg matches o) a s
  on_event (refused a) s = on_target (on_refused cfg matches) a s

  unfoldable pub run_events : List Event → Service → Service
  unfolding on_event
  run_events [] s = s
  run_events (e ∷ es) s = run_events es (on_event e s)

-- The service when its targets are made.
abbrev pub add_endpoint : Text → List (Text × Target) → List (Text × Target)
add_endpoint a ts = insert a (new_target a) ts

unfoldable pub add_endpoints : List Text → List (Text × Target) → List (Text × Target)
unfolding new_target
add_endpoints [] ts = ts
add_endpoints (a ∷ more) ts = add_endpoints more (add_endpoint a ts)

unfoldable pub new_service : List Text → Service
unfolding add_endpoints
new_service endpoints = record { targets = add_endpoints endpoints []; cache = none }
