-- ===== src/Pjs/HealthCheck/Runs.antt =====
-- pjs/common/health-check.js: the cache of a service through the tasks and the ends of probes.
use fgw.Base.{
  ℕ, ◌+◌, ◌<◌, ◌≡◌, refl, sym, ◌∙◌, subst, Bool, true, false, not, ◌&&◌, List, [], ◌∷◌, Option,
  none, some, arith, Text, txt, text_eq, text_equality, last_index_of, lookup, lookup-insert, ltb,
  leb, if◌then◌else◌, Bool-cases, if_cases, inl, inr,
}
use fgw.Pjs.HealthCheck.{
  Settings, Target, Cache, get, Service, Changed, ok, fail, Outcome, answered, closed, settle_code,
  reason_of, is_reached, on_outcome, on_refused, tick_active, tick_passive, Step, Event,
  active_second, passive_second, outcome, refused, on_event, run_events, active_step, addresses,
  new_target, add_endpoints, add_endpoint, new_service,
}
use fgw.Pjs.HealthCheck.Cached.{
  IsRecorded, IsCurrent, IsSound, ok-IsSound, fail-IsSound, IsSound-after, on_target-IsCurrent,
  on_each-IsCurrent,
}
use fgw.Pjs.Matches.{
  Match, Response, Code, matched, bad_status, bad_body, bad_header, bad_matches, match_response,
}

module _ (cfg : Settings) (matches : List Match) (h : 0 < cfg.max_fails) where
  failed-IsSound :
      (r : Response) (code : Code)
      → IsSound cfg (λ a t c.
        fail cfg a (record t { http_status = r.status; reason = some (reason_of code) }) c)
  failed-IsSound r code =
      IsSound-after cfg (fail cfg)
        (λ t. record t { http_status = r.status; reason = some (reason_of code) })
        (λ t. (refl, refl)) (fail-IsSound cfg)

  on_outcome-IsSound : (o : Outcome) → IsSound cfg (on_outcome cfg matches o)
  unfolding on_outcome
  on_outcome-IsSound (answered r) = of_code (match_response matches r)
    where
      of_code :
          (code : Code)
          → IsSound cfg
              (λ a t c. settle_code cfg matches code a (record t { http_status = r.status }) c)
      of_code matched =
          IsSound-after cfg (ok cfg) (λ t. record t { http_status = r.status }) (λ t. (refl, refl))
            (ok-IsSound cfg h)
      of_code bad_status = failed-IsSound r bad_status
      of_code bad_body = failed-IsSound r bad_body
      of_code bad_header = failed-IsSound r bad_header
      of_code bad_matches = failed-IsSound r bad_matches
  on_outcome-IsSound (closed error) = of_reached (is_reached error)
    where
      refused_fail : Step
      refused_fail a t c = fail cfg a (record t { reason = some (txt "ConnectionRefused") }) c

      of_reached :
          (b : Bool) → IsSound cfg (λ a t c. if b then ok cfg a t c else refused_fail a t c)
      of_reached true = ok-IsSound cfg h
      of_reached false =
          IsSound-after cfg (fail cfg) (λ t. record t { reason = some (txt "ConnectionRefused") })
            (λ t. (refl, refl)) (fail-IsSound cfg)

  on_refused-IsSound : IsSound cfg (on_refused cfg matches)
  unfolding on_refused
  on_refused-IsSound = record {
    keeps = λ a t c r.
        let k = (fail-IsSound cfg).keeps a t c r in record { out = k.out; fails = k.fails };
    leaves = λ a b t c ne. (fail-IsSound cfg).leaves a b t c ne;
  }

  active_step-IsSound : IsSound cfg (active_step cfg matches)
  unfolding tick_active
  active_step-IsSound = record {
    keeps = λ a t c r.
        if_cases (λ (x : Target × Bool). IsRecorded cfg a x.0 c) (ltb 0 cfg.interval)
          (λ e.
            if_cases (λ (x : Target × Bool). IsRecorded cfg a x.0 c) (leb cfg.interval (t.tick + 1))
              (λ d. record { out = r.out; fails = r.fails })
              (λ d. record { out = r.out; fails = r.fails }))
          (λ e. r);
    leaves = λ a b t c ne. refl;
  }

  tick_passive-IsSound : IsSound cfg (tick_passive cfg matches)
  unfolding tick_passive
  tick_passive-IsSound =
      let back : IsSound cfg (λ a t c. ok cfg a (record t { fail_tick = t.fail_tick + 1 }) c) =
        IsSound-after cfg (ok cfg) (λ t. record t { fail_tick = t.fail_tick + 1 })
          (λ t. (refl, refl)) (ok-IsSound cfg h) in
      record {
        keeps = λ a t c r.
            if_cases (λ (x : Target × (Cache × Changed)). IsRecorded cfg a x.0 x.1.0)
              (not t.alive && (ltb 0 cfg.fail_timeout && not (ltb 0 cfg.interval)))
              (λ e.
                if_cases (λ (x : Target × (Cache × Changed)). IsRecorded cfg a x.0 x.1.0)
                  (leb cfg.fail_timeout (t.fail_tick + 1)) (λ d. back.keeps a t c r)
                  (λ d. record { out = r.out; fails = r.fails }))
              (λ e. r);
        leaves = λ a b t c ne.
            if_cases (λ (x : Target × (Cache × Changed)). get b x.1.0 ≡ get b c)
              (not t.alive && (ltb 0 cfg.fail_timeout && not (ltb 0 cfg.interval)))
              (λ e.
                if_cases (λ (x : Target × (Cache × Changed)). get b x.1.0 ≡ get b c)
                  (leb cfg.fail_timeout (t.fail_tick + 1)) (λ d. back.leaves a b t c ne)
                  (λ d. refl))
              (λ e. refl);
      }

  on_event-IsCurrent :
      (e : Event) (s : Service) → IsCurrent cfg s → IsCurrent cfg (on_event cfg matches e s)
  unfolding on_event
  on_event-IsCurrent active_second s k =
      on_each-IsCurrent cfg (active_step cfg matches) (addresses s) s active_step-IsSound k
  on_event-IsCurrent passive_second s k =
      on_each-IsCurrent cfg (tick_passive cfg matches) (addresses s) s tick_passive-IsSound k
  on_event-IsCurrent (outcome a o) s k =
      on_target-IsCurrent cfg (on_outcome cfg matches o) a s (on_outcome-IsSound o) k
  on_event-IsCurrent (refused a) s k =
      on_target-IsCurrent cfg (on_refused cfg matches) a s on_refused-IsSound k

  -- Through any seconds, ends of probes and refused connections, the cache of a service holds exactly
  -- the targets that are out, and no target that is in has failed as often as allowed.
  pub run_events-IsCurrent :
      (es : List Event) (s : Service)
      → IsCurrent cfg s
      → IsCurrent cfg (run_events cfg matches es s)
  unfolding run_events
  run_events-IsCurrent [] s k = k
  run_events-IsCurrent (e ∷ es) s k =
      run_events-IsCurrent es (on_event cfg matches e s) (on_event-IsCurrent e s k)

-- A target that was never checked.
abbrev IsNew : Target → Type 0
IsNew t = (t.alive ≡ true) × (t.error_count ≡ 0)

new_target-IsNew : (a : Text) → IsNew (new_target a)
unfolding new_target
new_target-IsNew a = of_index (last_index_of b':' a) refl
  where
    of_index : (o : Option ℕ) → last_index_of b':' a ≡ o → IsNew (new_target a)
    of_index none e = rw (e, new_target) (refl, refl)
    of_index (some i) e = rw (e, new_target) (refl, refl)

add_endpoints-IsNew :
    (as' : List Text) (ts : List (Text × Target))
    → ((b : Text) (t : Target) → lookup b ts ≡ some t → IsNew t)
    → (b : Text) (t : Target) → lookup b (add_endpoints as' ts) ≡ some t
    → IsNew t
unfolding add_endpoints
add_endpoints-IsNew [] ts h b t e = h b t e
add_endpoints-IsNew (a ∷ more) ts h b t e = add_endpoints-IsNew more (add_endpoint a ts) added b t e
  where
    added : (d : Text) (u : Target) → lookup d (add_endpoint a ts) ≡ some u → IsNew u
    added d u k = elim (Bool-cases (text_eq a d)) [
      | inl hit ↦
          let k' = sym (lookup-insert a d (new_target a) ts) ∙ k in
          let new : new_target a ≡ u = ground arith in subst IsNew new (new_target-IsNew a)
      | inr miss ↦ h d u (rw miss at (sym (lookup-insert a d (new_target a) ts) ∙ k))
    ]

-- The endpoints of a service with a threshold above 0 are all in when they are made, and none is
-- cached.
pub new_service-IsCurrent :
    (cfg : Settings) (endpoints : List Text)
    → 0 < cfg.max_fails
    → IsCurrent cfg (new_service endpoints)
unfolding new_service lookup
new_service-IsCurrent cfg endpoints h = record {
  recorded = λ a t e.
      let (alive, errors) = add_endpoints-IsNew endpoints [] (λ b u k. cc) a t e in
      record { out = rw alive refl; fails = λ u. omega (arith, errors) };
}
