-- ===== src/Backends/HealthCheck.antt =====
-- src/modules/health-check.js, for one target of a backend. Times are in seconds. The shared map of
-- the unhealthy targets is an association list. A setting that is missing is `none`: no comparison
-- with it holds.
pub mod Transitions
use fgw.Base.{
  ℕ, suc, ◌+◌, ◌≤◌, ◌<◌, ◌≡◌, refl, Bool, true, false, not, ◌&&◌, List, [], ◌∷◌, map, Option, none,
  some, arith, Text, text_eq, text_equality, truthy, to_lower, lookup, insert, erase, lookup-insert,
  lookup-erase, lookup-insert_ne, beq_refl, leb, ltb, any, ◌==◌, if◌then◌else◌, Bool-cases, inl,
  inr, ◌≢◌,
}

-- What a response must look like.
pub record ResponseMatch : Type 0 where
  pub status_codes : Option (List ℕ)
  pub body : Option Text
  pub headers : Option (List (Text × Text))

pub record Response : Type 0 where
  pub status : ℕ
  pub body : Option Text
  pub headers : List (Text × Text)

abbrev same_value : Option Text → Text → Bool
same_value none v = false
same_value (some w) v = text_eq w v

abbrev pub match_headers : Option (List (Text × Text)) → Response → Bool
match_headers none res = true
match_headers (some hs) res =
    not (any (λ h. not (same_value (lookup (to_lower h.0) res.headers) h.1)) hs)

abbrev pub match_body : Option Text → Option (List (Text × Text)) → Response → Bool
match_body none hs res = match_headers hs res
match_body (some b) hs res = if truthy b then same_value res.body b else match_headers hs res

-- The function that `matches` holds for a match: the first setting that is there decides.
unfoldable pub response_matches : ResponseMatch → Response → Bool
response_matches m res = elim (m.status_codes) [
  | none ↦ match_body m.body m.headers res
  | some codes ↦ any (λ c. c == res.status) codes
]

pub record Settings : Type 0 where
  pub max_fails : Option ℕ
  pub interval : Option ℕ
  pub fail_timeout : Option ℕ
  pub matches : List ResponseMatch

pub record Target : Type 0 where
  pub is_healthy : Bool
  pub fail_count : ℕ
  pub fail_time : ℕ
  pub last_check_time : ℕ

-- The target with the map of the unhealthy ones.
abbrev pub Health : Type 0
Health = Target × List (Text × Bool)

abbrev pub reached : Option ℕ → ℕ → Bool
reached none n = false
reached (some m) n = leb m n

abbrev pub passed : Option ℕ → ℕ → ℕ → Bool
passed none since t = false
passed (some limit) since t = leb (since + limit) t

abbrev pub is_set : Option ℕ → Bool
is_set none = false
is_set (some n) = ltb 0 n

unfoldable pub new_target : ℕ → Target
new_target now = record { is_healthy = true; fail_count = 0; fail_time = 0; last_check_time = now }

abbrev pub is_absent : Option Bool → Bool
is_absent none = true
is_absent (some b) = false

-- isHealthy, for a backend that has a policy.
unfoldable pub is_healthy : Text → List (Text × Bool) → Bool
is_healthy address unhealthy = is_absent (lookup address unhealthy)

module _ (address : Text) (c : Settings) where
  unfoldable pub reset : Health → Health
  reset (g, unhealthy) =
      (record g { is_healthy = true; fail_count = 0; fail_time = 0 }, erase address unhealthy)

  unfoldable pub fail : ℕ → Health → Health
  fail now (g, unhealthy) =
      if reached c.max_fails (g.fail_count + 1)
      then (
        record g { is_healthy = false; fail_count = g.fail_count + 1; fail_time = now },
        insert address true unhealthy,
      )
      else (record g { fail_count = g.fail_count + 1; fail_time = now }, unhealthy)

  -- check: whether a probe is sent, and what is left.
  unfoldable pub check : ℕ → Health → Bool × Health
  unfolding reset
  check t (g, unhealthy) =
      if is_set c.interval
      then (if passed c.interval g.last_check_time t
          then (true, (record g { last_check_time = t }, unhealthy))
          else (false, (g, unhealthy)))
      else (if not g.is_healthy && passed c.fail_timeout g.fail_time t
          then (false, reset (g, unhealthy))
          else (false, (g, unhealthy)))

  -- The first response to a probe of a path.
  unfoldable pub on_probe_response : ℕ → Response → Health → Health
  unfolding reset fail
  on_probe_response now res h =
      if any (λ m. not (response_matches m res)) c.matches then fail now h else reset h

  -- The end of a probe that only connects, with whether it is an error.
  unfoldable pub on_probe_end : ℕ → Bool → Health → Health
  unfolding reset fail
  on_probe_end now is_error h = if is_error then fail now h else reset h

  -- What happens to a target: a check by the timer, or the outcome of a probe.
  pub data Event : Type 0 where
    checked : ℕ → Event
    answered : ℕ → Response → Event
    ended : ℕ → Bool → Event

  unfoldable pub on_event : Event → Health → Health
  unfolding check on_probe_response on_probe_end
  on_event (checked t) h = (check t h).1
  on_event (answered now res) h = on_probe_response now res h
  on_event (ended now is_error) h = on_probe_end now is_error h

  unfoldable pub run_events : List Event → Health → Health
  unfolding on_event
  run_events [] h = h
  run_events (e ∷ es) h = run_events es (on_event e h)

  -- The target, the map and the count of failures agree.
  abbrev pub IsConsistent : Health → Type 0
  IsConsistent (g, unhealthy) =
      (is_healthy address unhealthy ≡ g.is_healthy)
      × (g.is_healthy ≡ not (reached c.max_fails g.fail_count))
