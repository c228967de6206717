-- ===== src/Backends/HealthCheck/Transitions.antt =====
-- What a series of checks and probes makes of a target of src/modules/health-check.js.
use fgw.Base.{
  ℕ, ◌+◌, ◌≡◌, refl, Bool, true, false, not, ◌&&◌, List, [], ◌∷◌, map, Option, none, some, arith,
  Text, text_equality, insert, erase, lookup-insert, lookup-erase, beq_refl, any, Bool-cases, inl,
  inr, length, ◌∙◌,
}
use fgw.Backends.HealthCheck.{
  Settings, Health, reached, passed, is_set, is_healthy, reset, fail, check, on_probe_response,
  on_probe_end, Event, on_event, response_matches, run_events, IsConsistent,
}

module _ (address : Text) (c : Settings) where
  erase-healthy : (m : List (Text × Bool)) → is_healthy address (erase address m) ≡ true
  unfolding is_healthy
  erase-healthy m = rw (lookup-erase address address m, beq_refl address) refl

  insert-unhealthy : (m : List (Text × Bool)) → is_healthy address (insert address true m) ≡ false
  unfolding is_healthy
  insert-unhealthy m = rw (lookup-insert address address true m, beq_refl address) refl

  reset-IsConsistent :
      (h : Health) → reached c.max_fails 0 ≡ false → IsConsistent address c (reset address c h)
  unfolding reset
  reset-IsConsistent (g, m) z = (erase-healthy m, rw z refl)

  reached_before : (l : Option ℕ) (n : ℕ) → reached l (n + 1) ≡ false → reached l n ≡ false
  reached_before none n h = refl
  reached_before (some m) n h = ground arith

  fail-IsConsistent :
      (now : ℕ) (h : Health)
      → IsConsistent address c h
      → IsConsistent address c (fail address c now h)
  unfolding fail
  fail-IsConsistent now (g, m) (p, q) = elim (Bool-cases (reached c.max_fails (g.fail_count + 1))) [
    | inl e ↦ rw e (insert-unhealthy m, rw e refl)
    | inr e ↦
        let before = reached_before c.max_fails g.fail_count e in
        let up : g.is_healthy ≡ true = rw before at q in rw e (p, rw e up)
  ]

  check-IsConsistent :
      (t : ℕ) (h : Health)
      → reached c.max_fails 0 ≡ false
      → IsConsistent address c h
      → IsConsistent address c (check address c t h).1
  unfolding check
  check-IsConsistent t (g, m) z (p, q) = elim (Bool-cases (is_set c.interval)) [
    | inl e ↦ elim (Bool-cases (passed c.interval g.last_check_time t)) [
      | inl i ↦ rw (e, i) (p, q)
      | inr i ↦ rw (e, i) (p, q)
    ]
    | inr e ↦ elim (Bool-cases (not g.is_healthy && passed c.fail_timeout g.fail_time t)) [
      | inl i ↦ rw (e, i) (reset-IsConsistent (g, m) z)
      | inr i ↦ rw (e, i) (p, q)
    ]
  ]

  on_event-IsConsistent :
      (e : Event address c) (h : Health)
      → reached c.max_fails 0 ≡ false
      → IsConsistent address c h
      → IsConsistent address c (on_event address c e h)
  unfolding on_event on_probe_response on_probe_end
  on_event-IsConsistent (Event.checked t) h z k = check-IsConsistent t h z k
  on_event-IsConsistent (Event.answered now res) h z k =
      elim (Bool-cases (any (λ m. not (response_matches m res)) c.matches)) [
        | inl e ↦ rw e (fail-IsConsistent now h k)
        | inr e ↦ rw e (reset-IsConsistent h z)
      ]
  on_event-IsConsistent (Event.ended now true) h z k = fail-IsConsistent now h k
  on_event-IsConsistent (Event.ended now false) h z k = reset-IsConsistent h z

  -- Where a threshold of failures is not zero, every series of checks and probes keeps the shared
  -- map, the flag of the target and its count of failures in agreement: the map says that the target
  -- is unhealthy exactly when the flag does, and exactly when the count has reached the threshold.
  pub run_events-IsConsistent :
      (es : List (Event address c)) (h : Health)
      → reached c.max_fails 0 ≡ false
      → IsConsistent address c h
      → IsConsistent address c (run_events address c es h)
  unfolding run_events
  run_events-IsConsistent [] h z k = k
  run_events-IsConsistent (e ∷ es) h z k =
      run_events-IsConsistent es (on_event address c e h) z (on_event-IsConsistent e h z k)

  fail_count-fail :
      (now : ℕ) (h : Health) → (fail address c now h).0.fail_count ≡ h.0.fail_count + 1
  unfolding fail
  fail_count-fail now (g, m) = ground arith

  failed_times :
      (ts : List ℕ) (h : Health)
      → (run_events address c (map (λ t. Event.ended t true) ts) h).0.fail_count
        ≡ h.0.fail_count + length ts
  unfolding run_events
  failed_times [] h = omega arith
  failed_times (t ∷ ts) h = omega (arith, failed_times ts (fail address c t h), fail_count-fail t h)

  -- A target that was up, with no failure counted, is taken out after a series of failed probes
  -- exactly when the series is as long as the threshold.
  pub run_events-failures :
      (ts : List ℕ) (h : Health)
      → reached c.max_fails 0 ≡ false
      → IsConsistent address c h
      → h.0.fail_count ≡ 0
      → is_healthy address (run_events address c (map (λ t. Event.ended t true) ts) h).1
        ≡ not (reached c.max_fails (length ts))
  run_events-failures ts h z k n =
      let (p, q) = run_events-IsConsistent (map (λ t. Event.ended t true) ts) h z k in
      let counted : (run_events address c (map (λ t. Event.ended t true) ts) h).0.fail_count
          ≡ length ts =
        omega (arith, failed_times ts h) in
      p ∙ (rw counted at q)

  -- Without probes on an interval, a target that is out stays out until the fail timeout has
  -- passed since its last failure, and the first check from then on puts it back.
  pub check-recovers :
      (t : ℕ) (h : Health)
      → is_set c.interval ≡ false
      → IsConsistent address c h
      → h.0.is_healthy ≡ false
      → ((check address c t h).0 ≡ false)
        × (is_healthy address (check address c t h).1.1 ≡ passed c.fail_timeout h.0.fail_time t)
  unfolding check reset
  check-recovers t (g, m) e (p, q) d = elim (Bool-cases (passed c.fail_timeout g.fail_time t)) [
    | inl i ↦ rw (e, d, i) (refl, erase-healthy m)
    | inr i ↦ rw (e, d, i) (refl, p ∙ d)
  ]
