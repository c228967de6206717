-- ===== src/Filters/CircuitBreak.antt =====
-- src/filters/http/CircuitBreak.js. Times are in milliseconds. A threshold that is missing from the
-- configuration is NaN, here `none`: no comparison with it holds. `reaches e t` is the comparison
-- `e / t >= errorRatioThreshold` of floating-point numbers. The shared map is a record.
use fgw.Base.{
  ℕ, ◌+◌, ◌-◌, ◌≤◌, ◌<◌, ◌≡◌, Bool, true, false, ◌&&◌, List, [], ◌∷◌, Option, none, some, arith,
  ltb, leb, ◌==◌, if◌then◌else◌, not, Bool-cases, inl, inr,
}

pub record Config : Type 0 where
  pub latency : Option ℕ
  pub error_count : Option ℕ
  pub concurrency : Option ℕ
  pub check_interval : Option ℕ
  pub break_interval : ℕ

pub record States : Type 0 where
  pub start : ℕ
  pub concurrency : ℕ
  pub total : ℕ
  pub error : ℕ
  pub broken_before : ℕ

abbrev pub at_least : ℕ → Option ℕ → Bool
at_least n none = false
at_least n (some m) = leb m n

-- isBroken.
unfoldable pub is_broken : ℕ → States → Bool
is_broken now s = not (s.broken_before == 0) && ltb now s.broken_before

module _ (reaches : ℕ → ℕ → Bool) (c : Config) where
  -- `t - since >= limit` for a time `since` that is not after `t`.
  abbrev pub elapsed : ℕ → ℕ → Option ℕ → Bool
  elapsed t since limit = at_least (t - since) limit

  -- check, at the time `t`, for a request that began at `began`: the counters first.
  unfoldable pub count_response : ℕ → ℕ → States → States
  count_response t began s =
      if elapsed t began c.latency
      then record s { total = s.total + 1; error = s.error + 1 }
      else record s { total = s.total + 1 }

  unfoldable pub must_break : States → Bool
  must_break s =
      ltb 0 s.total
      && (at_least s.concurrency c.concurrency
          && (at_least s.error c.error_count && reaches s.error s.total))

  unfoldable pub settle : ℕ → States → States
  unfolding must_break
  settle t s =
      if must_break s
      then record s { broken_before = t + c.break_interval; start = 0; total = 0; error = 0 }
      else (if not (s.start == 0) && elapsed t s.start c.check_interval
          then record s { start = t; total = 0; error = 0 }
          else record s { start = t })

  unfoldable pub check : ℕ → ℕ → States → States
  unfolding count_response settle
  check t began s = settle t (count_response t began s)

  -- The head of a request: it is denied, or passes and counts as running.
  unfoldable pub on_request : ℕ → States → Bool × States
  unfolding is_broken
  on_request now s =
      if is_broken now s then (false, s) else (true, record s { concurrency = s.concurrency + 1 })

  -- The head of a response to a request that passed at the time `began`, and so was counted as
  -- running: the count is not zero.
  unfoldable pub on_response : ℕ → ℕ → States → States
  unfolding check
  on_response t began s = check t began (record s { concurrency = s.concurrency - 1 })

  -- No more errors than responses are ever counted.
  pub on_response-error-le-total :
      (t began : ℕ) (s : States)
      → s.error ≤ s.total
      → (on_response t began s).error ≤ (on_response t began s).total
  unfolding on_response
  on_response-error-le-total t began s h = ground arith

  pub data Event : Type 0 where
    request : (now : ℕ) → Event
    response : (t began : ℕ) → Event

  unfoldable pub on_event : Event → States → States
  unfolding on_request on_response
  on_event (request now) s = (on_request now s).1
  on_event (response t began) s = on_response t began s

  unfoldable pub run_events : List Event → States → States
  unfolding on_event
  run_events [] s = s
  run_events (e ∷ es) s = run_events es (on_event e s)

  -- The responses come at this time or later.
  abbrev pub AreAfter : ℕ → List Event → Type 0
  AreAfter t [] = Unit
  AreAfter t (request now ∷ es) = AreAfter t es
  AreAfter t (response u began ∷ es) = (t ≤ u) × AreAfter t es

  -- How many errors there are when a response is counted.
  abbrev pub errors_with : (t began : ℕ) → States → ℕ
  errors_with t began s = if elapsed t began c.latency then s.error + 1 else s.error

  on_response-broken :
      (t u began : ℕ) (s : States)
      → t ≤ u
      → t + c.break_interval ≤ s.broken_before
      → t + c.break_interval ≤ (on_response u began s).broken_before
  unfolding on_response
  on_response-broken t u began s h k = ground arith

  on_request-broken : (now : ℕ) (s : States) → (on_request now s).1.broken_before ≡ s.broken_before
  unfolding on_request
  on_request-broken now s = ground arith

  run_events-broken :
      (t : ℕ) (es : List Event) (s : States)
      → AreAfter t es
      → t + c.break_interval ≤ s.broken_before
      → t + c.break_interval ≤ (run_events es s).broken_before
  unfolding run_events
  run_events-broken t [] s h k = k
  run_events-broken t (request now ∷ es) s h k =
      run_events-broken t es (on_request now s).1 h (rw (on_request-broken now s) k)
  run_events-broken t (response u began ∷ es) s h k =
      run_events-broken t es (on_response u began s) h.1 (on_response-broken t u began s h.0 k)

  denied :
      (until now : ℕ) (s : States)
      → until ≤ s.broken_before
      → now < until
      → on_request now s ≡ (false, s)
  unfolding on_request is_broken
  denied until now s h k = ground arith

  settles :
      (t began n m : ℕ) (s : States)
      → c.concurrency ≡ some n
      → c.error_count ≡ some m
      → n ≤ s.concurrency - 1
      → m ≤ errors_with t began s
      → reaches (errors_with t began s) (s.total + 1) ≡ true
      → ((on_response t began s).total ≡ 0)
        × ((on_response t began s).error ≡ 0)
        × ((on_response t began s).broken_before ≡ t + c.break_interval)
  unfolding on_response must_break count_response settle
  settles t began n m s cn em hn hm hr = elim (Bool-cases (elapsed t began c.latency)) [
    | inl e ↦ let hm' = rw e at hm in let hr' = rw e at hr in ground arith
    | inr e ↦ let hm' = rw e at hm in let hr' = rw e at hr in ground arith
  ]

  -- When a response leaves at least as many requests running as the threshold, and with it counted the
  -- errors and their ratio are at their thresholds, the counters are zero and the circuit breaks: until
  -- the break interval has passed every request is denied and changes nothing, whatever requests and
  -- later responses come in between.
  pub on_response-breaks :
      (t began n m : ℕ) (es : List Event) (now : ℕ) (s : States)
      → c.concurrency ≡ some n
      → c.error_count ≡ some m
      → n ≤ s.concurrency - 1
      → m ≤ errors_with t began s
      → reaches (errors_with t began s) (s.total + 1) ≡ true
      → AreAfter t es
      → now < t + c.break_interval
      → let s' = on_response t began s in
        (s'.total ≡ 0)
        × (s'.error ≡ 0)
        × (on_request now (run_events es s') ≡ (false, run_events es s'))
  on_response-breaks t began n m es now s cn em hn hm hr later early =
      let (total, error, till) = settles t began n m s cn em hn hm hr in
      (
        total,
        error,
        denied (t + c.break_interval) now (run_events es (on_response t began s))
            (run_events-broken t es (on_response t began s) later (omega (arith, till))) early,
      )

  -- The responses of a sequence of times, of requests that each began at the given time.
  unfoldable pub run_responses : List (ℕ × ℕ) → States → States
  unfolding on_response
  run_responses [] s = s
  run_responses ((t, began) ∷ rs) s = run_responses rs (on_response t began s)

  -- Each response comes less than the interval after the one before.
  abbrev pub AreClose : ℕ → ℕ → List (ℕ × ℕ) → Type 0
  AreClose i last [] = Unit
  AreClose i last ((t, began) ∷ rs) = (t - last < i) × AreClose i t rs

  -- A response to a request that took at least the latency.
  abbrev pub is_slow : ℕ × ℕ → Bool
  is_slow r = elapsed r.0 r.1 c.latency
