-- ===== src/Pjs/HealthCheck/Failures.antt =====
-- pjs/common/health-check.js: the failures that take a target out, and its return.
use fgw.Base.{
  ℕ, ◌+◌, ◌≤◌, ◌<◌, ◌≡◌, refl, ◌∙◌, ap, Bool, true, false, ◌&&◌, List, [], ◌∷◌, arith, Text, leb,
  if_cases,
}
use fgw.Pjs.HealthCheck.{Settings, Target, Cache, Changed, ok, fail}

module _ (cfg : Settings) (a : Text) where
  -- The ends of probes, each a success or a failure.
  unfoldable pub settle : List Bool → Target × Cache → Target × Cache
  unfolding ok fail
  settle [] s = s
  settle (true ∷ ends) (t, c) = let r = ok cfg a t c in settle ends (r.0, r.1.0)
  settle (false ∷ ends) (t, c) = let r = fail cfg a t c in settle ends (r.0, r.1.0)

  abbrev pub failures : List Bool → ℕ
  failures [] = 0
  failures (true ∷ ends) = failures ends
  failures (false ∷ ends) = failures ends + 1

  ok-alive :
      (t : Target) (c : Cache)
      → t.alive ≡ true
      → ((ok cfg a t c).0.alive ≡ true) × ((ok cfg a t c).0.error_count ≡ t.error_count)
  unfolding ok
  ok-alive t c h =
      if_cases
        (λ (x : Target × (Cache × Changed)). (x.0.alive ≡ true) × (x.0.error_count ≡ t.error_count))
        t.alive (λ e. (h, refl)) (λ e. absurd (ground arith))

  fail-early :
      (t : Target) (c : Cache)
      → t.alive ≡ true
      → t.error_count + 1 < cfg.max_fails
      → ((fail cfg a t c).0.alive ≡ true) × ((fail cfg a t c).0.error_count ≡ t.error_count + 1)
  unfolding fail
  fail-early t c h k =
      let few : (leb cfg.max_fails (t.error_count + 1)) ≡ false = ground arith in
      if_cases
        (λ (x : Target × (Cache × Changed)).
          (x.0.alive ≡ true) × (x.0.error_count ≡ t.error_count + 1))
        (leb cfg.max_fails (t.error_count + 1) && t.alive) (λ e. absurd (ground arith))
        (λ e. (h, refl))

  fail-last :
      (t : Target) (c : Cache)
      → cfg.max_fails ≤ t.error_count + 1
      → (fail cfg a t c).0.alive ≡ false
  unfolding fail
  fail-last t c k =
      let many : (leb cfg.max_fails (t.error_count + 1)) ≡ true = ground arith in
      if_cases (λ (x : Target × (Cache × Changed)). x.0.alive ≡ false)
        (leb cfg.max_fails (t.error_count + 1) && t.alive) (λ e. refl) (λ e. ground arith)

  settle-few :
      (ends : List Bool) (t : Target) (c : Cache)
      → t.alive ≡ true
      → t.error_count + failures ends < cfg.max_fails
      → ((settle ends (t, c)).0.alive ≡ true)
        × ((settle ends (t, c)).0.error_count ≡ t.error_count + failures ends)
  unfolding settle
  settle-few [] t c h k = (h, omega arith)
  settle-few (true ∷ ends) t c h k =
      let (alive, errors) = ok-alive t c h in
      let r = ok cfg a t c in
      let (alive', errors') = settle-few ends r.0 r.1.0 alive (omega (arith, errors)) in
      (alive', errors' ∙ ap (λ n. n + failures ends) errors)
  settle-few (false ∷ ends) t c h k =
      let (alive, errors) = fail-early t c h (omega arith) in
      let r = fail cfg a t c in
      let (alive', errors') = settle-few ends r.0 r.1.0 alive (omega (arith, errors)) in
      (alive', omega (arith, errors, errors'))

  -- The failures of a target need not follow one another: it is in until the failures since it came in
  -- are one fewer than allowed, however many probes succeed in between, and the next failure takes it
  -- out.
  pub settle-failures :
      (ends : List Bool) (t : Target) (c : Cache)
      → t.alive ≡ true
      → t.error_count + (failures ends + 1) ≡ cfg.max_fails
      → let (t', c') = settle ends (t, c) in
        (t'.alive ≡ true) × ((fail cfg a t' c').0.alive ≡ false)
  settle-failures ends t c h k =
      let (alive, errors) = settle-few ends t c h (omega (arith, k)) in
      let (t', c') = settle ends (t, c) in (alive, fail-last t' c' (omega (arith, k, errors)))
