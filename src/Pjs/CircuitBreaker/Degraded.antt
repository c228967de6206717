-- ===== src/Pjs/CircuitBreaker/Degraded.antt =====
-- pjs/http/circuit-breaker.js: how long a breaker stays degraded, and the entries of its log.
use fgw.Base.{
  ℕ, ◌+◌, ◌≤◌, ◌<◌, ◌≡◌, refl, sym, ◌∙◌, ap, Bool, true, false, not, ◌&&◌, ◌||◌, List, [], ◌∷◌,
  ◌++◌, Option, none, some, arith, ltb, if◌then◌else◌, if_cases, subst,
}
use fgw.Pjs.{or_number, or_number_pos}
use fgw.Pjs.CircuitBreaker.{
  Settings, Breaker, Log, opened, closed, Event, request, response, second, increase, check_slow,
  check_error, count_delay, count_tick, refresh_timer, on_request, on_response, on_event,
  run_events, stat_window, degraded_window, slow_enabled, error_enabled, is_slow, new_breaker,
}

-- The seconds of a series.
abbrev pub seconds : List Event → ℕ
seconds [] = 0
seconds (request ∷ es) = seconds es
seconds (response e s status millis ∷ es) = seconds es
seconds (second ∷ es) = seconds es + 1

seconds_cons : (e : Event) (es : List Event) → seconds (e ∷ es) ≡ seconds (e ∷ []) + seconds es
seconds_cons request es = omega arith
seconds_cons (response e s status millis) es = omega arith
seconds_cons second es = omega arith

-- What a log says of a breaker that was degraded, or not, before it: `none` when an entry opens
-- what is open or closes what is closed.
abbrev pub after_log : Bool → List Log → Option Bool
after_log d [] = some d
after_log false (opened t s e ∷ logs) = after_log true logs
after_log true (opened t s e ∷ logs) = none
after_log true (closed t s e ∷ logs) = after_log false logs
after_log false (closed t s e ∷ logs) = none

abbrev and_log : Option Bool → List Log → Option Bool
and_log none logs = none
and_log (some d) logs = after_log d logs

after_log-append :
    (d : Bool) (xs ys : List Log) → after_log d (xs ++ ys) ≡ and_log (after_log d xs) ys
after_log-append d [] ys = refl
after_log-append false (opened t s e ∷ xs) ys = after_log-append true xs ys
after_log-append true (opened t s e ∷ xs) ys = refl
after_log-append true (closed t s e ∷ xs) ys = after_log-append false xs ys
after_log-append false (closed t s e ∷ xs) ys = refl

-- The log entry of a check agrees with what the check did to the breaker.
after_log-open :
    (d k : Bool) (t s e : ℕ)
    → after_log d (if not d && (d || k) then opened t s e ∷ [] else []) ≡ some (d || k)
after_log-open true k t s e = refl
after_log-open false true t s e = refl
after_log-open false false t s e = refl

module _ (cfg : Settings) where
  abbrev IsLogged : Breaker → Breaker × List Log → Type 0
  IsLogged b r = after_log b.degraded r.1 ≡ some r.0.degraded

  check_slow-IsLogged : (g m : ℕ) (b : Breaker) → IsLogged b (check_slow cfg g m b)
  unfolding check_slow
  check_slow-IsLogged g m b =
      if_cases (IsLogged b) (slow_enabled cfg && is_slow cfg m)
        (λ h. after_log-open b.degraded _ _ _ _) (λ h. refl)

  check_error-IsLogged : (g m : ℕ) (b : Breaker) → IsLogged b (check_error cfg g m b)
  unfolding check_error
  check_error-IsLogged g m b =
      if_cases (IsLogged b) (error_enabled cfg && ltb 499 m)
        (λ h. after_log-open b.degraded _ _ _ _) (λ h. refl)

  count_delay-IsLogged : (b : Breaker) → b.degraded ≡ true → IsLogged b (count_delay cfg b)
  unfolding count_delay
  count_delay-IsLogged b d =
      if_cases (IsLogged b) (ltb (degraded_window cfg) (b.delay + 1)) (λ h. simp d refl) (λ h. refl)

  count_tick-degraded : (b : Breaker) → (count_tick cfg b).degraded ≡ b.degraded
  unfolding count_tick
  count_tick-degraded b =
      if_cases (λ (x : Breaker). x.degraded ≡ b.degraded) (ltb (stat_window cfg) (b.tick + 1))
        (λ h. refl) (λ h. refl)

  refresh_timer-IsLogged : (b : Breaker) → IsLogged b (refresh_timer cfg b)
  unfolding refresh_timer
  refresh_timer-IsLogged b =
      let r : Breaker × List Log = if b.degraded then count_delay cfg b else (b, []) in
      let logged : IsLogged b r =
        if_cases (IsLogged b) b.degraded (λ d. count_delay-IsLogged b d) (λ d. refl) in
      logged
      ∙ ap some (
          if_cases (λ (x : Breaker). r.0.degraded ≡ x.degraded) r.0.degraded (λ d. refl)
            (λ d. sym (count_tick-degraded r.0)))

  on_event-IsLogged : (e : Event) (b : Breaker) → IsLogged b (on_event cfg e b)
  unfolding on_event on_request on_response increase
  on_event-IsLogged request b = ap some (
      if_cases (λ (x : Breaker × Option ℕ). b.degraded ≡ x.0.degraded) b.degraded (λ d. refl)
        (λ d. refl))
  on_event-IsLogged (response e s status millis) b =
      let (b1, logs1) = check_error cfg e status b in
      let (b2, logs2) = check_slow cfg s millis b1 in
      after_log-append b.degraded logs1 logs2
      ∙ rw (check_error-IsLogged e status b) (check_slow-IsLogged s millis b1)
  on_event-IsLogged second b = refresh_timer-IsLogged b

  -- The log of any series of requests, responses and seconds opens and closes in turn: it opens
  -- nothing that is open and closes nothing that is closed, and what it leaves open is degraded.
  pub run_events-log :
      (es : List Event) (b : Breaker)
      → let (b', logs) = run_events cfg es b in after_log b.degraded logs ≡ some b'.degraded
  unfolding run_events
  run_events-log [] b = refl
  run_events-log (e ∷ es) b =
      let (b', logs) = on_event cfg e b in
      after_log-append b.degraded logs (run_events cfg es b').1
      ∙ rw (on_event-IsLogged e b) (run_events-log es b')

  -- What time makes of a degraded breaker: it counts the seconds and nothing else changes the state.
  record IsHeld (b b' : Breaker) (n : ℕ) : Type 0 where
    degraded : b'.degraded ≡ true
    delay : b'.delay ≡ b.delay + n
    total : b'.total ≡ b.total

  check_slow-IsHeld :
      (g m : ℕ) (b : Breaker) → b.degraded ≡ true → IsHeld b (check_slow cfg g m b).0 0
  unfolding check_slow
  check_slow-IsHeld g m b d =
      if_cases (λ (r : Breaker × List Log). IsHeld b r.0 0) (slow_enabled cfg && is_slow cfg m)
        (λ h. record { degraded = simp d refl; delay = omega arith; total = refl })
        (λ h. record { degraded = d; delay = omega arith; total = refl })

  check_error-IsHeld :
      (g m : ℕ) (b : Breaker) → b.degraded ≡ true → IsHeld b (check_error cfg g m b).0 0
  unfolding check_error
  check_error-IsHeld g m b d =
      if_cases (λ (r : Breaker × List Log). IsHeld b r.0 0) (error_enabled cfg && ltb 499 m)
        (λ h. record { degraded = simp d refl; delay = omega arith; total = refl })
        (λ h. record { degraded = d; delay = omega arith; total = refl })

  IsHeld-trans :
      (b b1 b2 : Breaker) (m n : ℕ) → IsHeld b b1 m → IsHeld b1 b2 n → IsHeld b b2 (m + n)
  IsHeld-trans b b1 b2 m n h k = record {
    degraded = k.degraded;
    delay = let x = h.delay in let y = k.delay in omega arith;
    total = k.total ∙ h.total;
  }

  refresh_timer-held :
      (b : Breaker)
      → b.degraded ≡ true
      → b.delay + 1 ≤ degraded_window cfg
      → (refresh_timer cfg b).0 ≡ record b { delay = b.delay + 1 }
  unfolding refresh_timer count_delay
  refresh_timer-held b d h =
      let late : ltb (degraded_window cfg) (b.delay + 1) ≡ false = ground arith in
      simp (d, late) refl

  refresh_timer-closes :
      (b : Breaker)
      → b.degraded ≡ true
      → b.delay ≡ degraded_window cfg
      → (refresh_timer cfg b).0 ≡ record new_breaker { tick = 1 }
  unfolding refresh_timer count_delay count_tick
  refresh_timer-closes b d h =
      let late : ltb (degraded_window cfg) (b.delay + 1) ≡ true = ground arith in
      let window : 0 < stat_window cfg = or_number_pos cfg.stat_time_window 30 (omega arith) in
      let early : ltb (stat_window cfg) 1 ≡ false = ground arith in simp (d, late, early) refl

  on_event-IsHeld :
      (e : Event) (b : Breaker)
      → b.degraded ≡ true
      → b.delay + seconds (e ∷ []) ≤ degraded_window cfg
      → IsHeld b (on_event cfg e b).0 (seconds (e ∷ []))
  unfolding on_event on_request on_response
  on_event-IsHeld request b d h =
      simp d (record { degraded = d; delay = omega arith; total = refl })
  on_event-IsHeld (response e s status millis) b d h =
      let held = check_error-IsHeld e status b d in
      IsHeld-trans b (check_error cfg e status b).0 _ 0 0 held
        (check_slow-IsHeld s millis (check_error cfg e status b).0 held.degraded)
  on_event-IsHeld second b d h =
      rw (refresh_timer-held b d h) (record { degraded = d; delay = refl; total = refl })

  run_events-IsHeld :
      (es : List Event) (b : Breaker)
      → b.degraded ≡ true
      → b.delay + seconds es ≤ degraded_window cfg
      → IsHeld b (run_events cfg es b).0 (seconds es)
  unfolding run_events
  run_events-IsHeld [] b d h = record { degraded = d; delay = omega arith; total = refl }
  run_events-IsHeld (e ∷ es) b d h =
      let parts = seconds_cons e es in
      let held = on_event-IsHeld e b d (omega (arith, parts)) in
      let b1 = (on_event cfg e b).0 in
      let moved = held.delay in
      subst (IsHeld b (run_events cfg es b1).0) (sym parts) (
        IsHeld-trans b b1 _ (seconds (e ∷ [])) (seconds es) held
          (run_events-IsHeld es b1 held.degraded (omega (arith, parts))))

  -- A breaker that is degraded since some seconds stays so through any requests and responses until
  -- the degraded time is over, answers every request with the degraded status and counts none, and
  -- the next second resets all its counters.
  pub run_events-degraded :
      (es : List Event) (b : Breaker)
      → b.degraded ≡ true
      → b.delay + seconds es ≡ degraded_window cfg
      → let b' = (run_events cfg es b).0 in
        (on_request cfg b' ≡ (b', some (or_number cfg.degraded_status_code 409)))
        × (b'.total ≡ b.total)
        × ((refresh_timer cfg b').0 ≡ record new_breaker { tick = 1 })
  unfolding on_request
  run_events-degraded es b d h =
      let held = run_events-IsHeld es b d (omega arith) in
      let d' = held.degraded in
      let moved = held.delay in
      let b' = (run_events cfg es b).0 in
      (
        if_cases
            (λ (x : Breaker × Option ℕ). x ≡ (b', some (or_number cfg.degraded_status_code 409)))
            b'.degraded (λ e. refl) (λ e. absurd (ground arith)),
        held.total,
        refresh_timer-closes b' d' (omega arith),
      )
