-- ===== src/Pjs/CircuitBreaker.antt =====
-- pjs/http/circuit-breaker.js. Times are in milliseconds, ratios are fractions compared exactly, and
-- what `consume(1)` of a quota returns is an argument of the step that calls it.
pub mod Degraded
pub mod Windows
use fgw.Base.{
  ℕ, ◌+◌, ◌*◌, Bool, true, false, not, ◌&&◌, ◌||◌, List, [], ◌∷◌, ◌++◌, Option, none, some, ltb,
  leb, ◌==◌, if◌then◌else◌,
}
use fgw.Pjs.{or_number}

pub record Ratio : Type 0 where
  pub num : ℕ
  pub den : ℕ

-- serviceConfig.CircuitBreaking, with `none` for what is not set.
pub record Settings : Type 0 where
  pub min_request_amount : Option ℕ
  pub stat_time_window : Option ℕ
  pub slow_time_threshold : Option ℕ
  pub slow_amount_threshold : ℕ
  pub slow_ratio_threshold : Ratio
  pub error_amount_threshold : ℕ
  pub error_ratio_threshold : Ratio
  pub degraded_time_window : Option ℕ
  pub degraded_status_code : Option ℕ

pub record Breaker : Type 0 where
  pub tick : ℕ
  pub delay : ℕ
  pub total : ℕ
  pub slow_amount : ℕ
  pub error_amount : ℕ
  pub degraded : Bool
  pub last_degraded : Bool

-- What open() and close() write to the log: total, slowAmount and errorAmount.
pub data Log : Type 0 where
  opened : (total slow_amount error_amount : ℕ) → Log
  closed : (total slow_amount error_amount : ℕ) → Log

abbrev pub new_breaker : Breaker
new_breaker = record {
  tick = 0;
  delay = 0;
  total = 0;
  slow_amount = 0;
  error_amount = 0;
  degraded = false;
  last_degraded = false;
}

-- `ratio > 0`.
abbrev pub is_set : Ratio → Bool
is_set r = ltb 0 r.num

-- `amount / total >= ratio`, which is false for 0 / 0.
abbrev pub reaches : (amount total : ℕ) → Ratio → Bool
reaches amount total r = ltb 0 total && leb (r.num * total) (amount * r.den)

abbrev pub log_open : Breaker → Breaker × List Log
log_open b = (
  b,
  if not b.last_degraded && b.degraded
      then opened b.total b.slow_amount b.error_amount ∷ []
      else [],
)

abbrev pub log_close : Breaker → List Log
log_close b = closed b.total b.slow_amount b.error_amount ∷ []

module _ (cfg : Settings) where
  abbrev pub min_amount : ℕ
  min_amount = or_number cfg.min_request_amount 100

  abbrev pub stat_window : ℕ
  stat_window = or_number cfg.stat_time_window 30

  abbrev pub degraded_window : ℕ
  degraded_window = or_number cfg.degraded_time_window 30

  abbrev pub slow_enabled : Bool
  slow_enabled = ltb 0 cfg.slow_amount_threshold || is_set cfg.slow_ratio_threshold

  abbrev pub error_enabled : Bool
  error_enabled = ltb 0 cfg.error_amount_threshold || is_set cfg.error_ratio_threshold

  abbrev pub is_slow : ℕ → Bool
  is_slow millis = leb (1000 * or_number cfg.slow_time_threshold 5) millis

  unfoldable pub increase : Breaker → Breaker
  increase b = record b { total = b.total + 1 }

  -- Whether an amount breaks: its quota did not grant one, or its ratio is reached.
  unfoldable pub breaks : (threshold granted amount total : ℕ) → Ratio → Bool
  breaks threshold granted amount total r =
      (ltb 0 threshold && not (granted == 1))
      || (is_set r && (leb min_amount total && reaches amount total r))

  unfoldable pub check_slow : (granted millis : ℕ) → Breaker → Breaker × List Log
  unfolding breaks
  check_slow granted millis b =
      if slow_enabled && is_slow millis
      then (let amount = if ltb b.slow_amount b.total then b.slow_amount + 1 else b.slow_amount in
          log_open (record b {
            last_degraded = b.degraded;
            slow_amount = amount;
            degraded =
                b.degraded
                || breaks cfg.slow_amount_threshold granted amount b.total cfg.slow_ratio_threshold;
          }))
      else (b, [])

  unfoldable pub check_error : (granted status : ℕ) → Breaker → Breaker × List Log
  unfolding breaks
  check_error granted status b =
      if error_enabled && ltb 499 status
      then (let amount =
            if ltb b.error_amount b.total then b.error_amount + 1 else b.error_amount in
          log_open (record b {
            last_degraded = b.degraded;
            error_amount = amount;
            degraded =
                b.degraded
                || breaks cfg.error_amount_threshold granted amount b.total
                    cfg.error_ratio_threshold;
          }))
      else (b, [])

  -- The first statement of refreshTimer, on a degraded breaker.
  unfoldable pub count_delay : Breaker → Breaker × List Log
  count_delay b =
      if ltb degraded_window (b.delay + 1)
      then (
        record {
          tick = 0;
          delay = 0;
          total = 0;
          slow_amount = 0;
          error_amount = 0;
          degraded = false;
          last_degraded = false;
        },
        log_close (record b { degraded = false; last_degraded = false }),
      )
      else (record b { delay = b.delay + 1 }, [])

  -- The second, on one that is not.
  unfoldable pub count_tick : Breaker → Breaker
  count_tick b =
      if ltb stat_window (b.tick + 1)
      then record b { tick = 0; total = 0; slow_amount = 0; error_amount = 0 }
      else record b { tick = b.tick + 1 }

  unfoldable pub refresh_timer : Breaker → Breaker × List Log
  unfolding count_delay count_tick
  refresh_timer b =
      let (b', logs) = if b.degraded then count_delay b else (b, []) in
      (if b'.degraded then b' else count_tick b', logs)

  -- A request: the answer, with its status, of a degraded breaker, or `none` where it is passed on.
  unfoldable pub on_request : Breaker → Breaker × Option ℕ
  unfolding increase
  on_request b =
      if b.degraded then (b, some (or_number cfg.degraded_status_code 409)) else (increase b, none)

  -- The head of a response to a request that was passed on.
  unfoldable pub on_response :
      (error_granted slow_granted status millis : ℕ) → Breaker → Breaker × List Log
  unfolding check_error check_slow
  on_response error_granted slow_granted status millis b =
      let (b1, logs1) = check_error error_granted status b in
      let (b2, logs2) = check_slow slow_granted millis b1 in (b2, logs1 ++ logs2)

pub data Event : Type 0 where
  request : Event
  response : (error_granted slow_granted status millis : ℕ) → Event
  second : Event

module _ (cfg : Settings) where
  unfoldable pub on_event : Event → Breaker → Breaker × List Log
  unfolding on_request on_response refresh_timer
  on_event request b = ((on_request cfg b).0, [])
  on_event (response e s status millis) b = on_response cfg e s status millis b
  on_event second b = refresh_timer cfg b

  -- A series of requests, responses and ticks of the task, with what is logged.
  unfoldable pub run_events : List Event → Breaker → Breaker × List Log
  unfolding on_event
  run_events [] b = (b, [])
  run_events (e ∷ es) b =
      let (b', logs) = on_event e b in let (b'', more) = run_events es b' in (b'', logs ++ more)
