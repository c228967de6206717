-- ===== src/Pjs/CircuitBreaker/Windows.antt =====
-- pjs/http/circuit-breaker.js: the counters, the time a breaker stays degraded, and its log.
use fgw.Base.{
  ℕ, ◌+◌, ◌≤◌, ◌≡◌, refl, Bool, true, false, ◌&&◌, ◌||◌, List, [], ◌∷◌, Option, arith, ltb,
  Bool-cases, if_cases, inl, inr,
}
use fgw.Pjs.CircuitBreaker.{
  Settings, Breaker, Event, request, response, second, increase, check_slow, check_error,
  count_delay, count_tick, refresh_timer, on_request, on_response, on_event, run_events,
  stat_window, degraded_window, slow_enabled, error_enabled, is_slow,
}

module _ (cfg : Settings) where
  -- No more slow or failed responses than requests are counted, and the two clocks stay in their
  -- windows; the one for a degraded breaker stands still at 0 while it is not degraded.
  pub record IsCounted (b : Breaker) : Type 0 where
    pub slow : b.slow_amount ≤ b.total
    pub error : b.error_amount ≤ b.total
    pub delay : b.delay ≤ degraded_window cfg
    pub tick : b.tick ≤ stat_window cfg
    pub rest : b.degraded ≡ false → b.delay ≡ 0

  increase-IsCounted : (b : Breaker) → IsCounted b → IsCounted (increase cfg b)
  unfolding increase
  increase-IsCounted b c = record {
    slow = let h = c.slow in omega arith;
    error = let h = c.error in omega arith;
    delay = c.delay;
    tick = c.tick;
    rest = c.rest;
  }

  rest_of :
      (b : Breaker) (k : Bool)
      → (b.degraded ≡ false → b.delay ≡ 0)
      → (b.degraded || k) ≡ false
      → b.delay ≡ 0
  rest_of b k h e = h (ground arith)

  check_slow-IsCounted : (g m : ℕ) (b : Breaker) → IsCounted b → IsCounted (check_slow cfg g m b).0
  unfolding check_slow
  check_slow-IsCounted g m b c = elim (Bool-cases (slow_enabled cfg && is_slow cfg m)) [
    | inl h ↦ rw h (record {
      slow = let k = c.slow in ground arith;
      error = c.error;
      delay = c.delay;
      tick = c.tick;
      rest = rest_of b _ c.rest;
    })
    | inr h ↦ rw h c
  ]

  check_error-IsCounted :
      (g m : ℕ) (b : Breaker) → IsCounted b → IsCounted (check_error cfg g m b).0
  unfolding check_error
  check_error-IsCounted g m b c = elim (Bool-cases (error_enabled cfg && ltb 499 m)) [
    | inl h ↦ rw h (record {
      slow = c.slow;
      error = let k = c.error in ground arith;
      delay = c.delay;
      tick = c.tick;
      rest = rest_of b _ c.rest;
    })
    | inr h ↦ rw h c
  ]

  count_tick-IsCounted : (b : Breaker) → IsCounted b → IsCounted (count_tick cfg b)
  unfolding count_tick
  count_tick-IsCounted b c = elim (Bool-cases (ltb (stat_window cfg) (b.tick + 1))) [
    | inl h ↦ rw h (record {
      slow = omega arith;
      error = omega arith;
      delay = c.delay;
      tick = omega arith;
      rest = c.rest;
    })
    | inr h ↦ rw h (record {
      slow = c.slow;
      error = c.error;
      delay = c.delay;
      tick = ground arith;
      rest = c.rest;
    })
  ]

  count_delay-IsCounted :
      (b : Breaker) → b.degraded ≡ true → IsCounted b → IsCounted (count_delay cfg b).0
  unfolding count_delay
  count_delay-IsCounted b d c = elim (Bool-cases (ltb (degraded_window cfg) (b.delay + 1))) [
    | inl h ↦ rw h (record {
      slow = omega arith;
      error = omega arith;
      delay = omega arith;
      tick = omega arith;
      rest = λ e. refl;
    })
    | inr h ↦ rw h (record {
      slow = c.slow;
      error = c.error;
      delay = ground arith;
      tick = c.tick;
      rest = λ e. absurd (ground arith);
    })
  ]

  refresh_timer-IsCounted : (b : Breaker) → IsCounted b → IsCounted (refresh_timer cfg b).0
  unfolding refresh_timer
  refresh_timer-IsCounted b c =
      let delayed =
        if_cases (λ p. IsCounted p.0) b.degraded {x = count_delay cfg b} {y = (b, [])}
          (λ d. count_delay-IsCounted b d c) (λ d. c) in
      if_cases IsCounted _ (λ d. delayed) (λ d. count_tick-IsCounted _ delayed)

  on_event-IsCounted : (e : Event) (b : Breaker) → IsCounted b → IsCounted (on_event cfg e b).0
  unfolding on_event on_request on_response
  on_event-IsCounted request b c =
      if_cases (λ (p : Breaker × Option ℕ). IsCounted p.0) b.degraded (λ d. c)
        (λ d. increase-IsCounted b c)
  on_event-IsCounted (response e s status millis) b c =
      check_slow-IsCounted s millis _ (check_error-IsCounted e status b c)
  on_event-IsCounted second b c = refresh_timer-IsCounted b c

  -- After any series of requests, responses and seconds no more slow or failed responses than
  -- requests are counted, both clocks are in their windows, and the clock of the degraded time stands
  -- at 0 unless the breaker is degraded.
  pub run_events-IsCounted :
      (es : List Event) (b : Breaker) → IsCounted b → IsCounted (run_events cfg es b).0
  unfolding run_events
  run_events-IsCounted [] b c = c
  run_events-IsCounted (e ∷ es) b c =
      run_events-IsCounted es (on_event cfg e b).0 (on_event-IsCounted e b c)
