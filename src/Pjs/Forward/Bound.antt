-- ===== src/Pjs/Forward/Bound.antt =====
-- pjs/http/forward.js: how often a request is sent.
use fgw.Base.{
  ℕ, ◌+◌, ◌-◌, ◌*◌, ◌≤◌, ◌<◌, ◌≡◌, refl, sym, ◌∙◌, ap, Bool, true, false, ◌&&◌, List, [], ◌∷◌,
  Option, some, arith, ltb, if◌then◌else◌, Bool-cases, if_cases, inl, inr, length, Memᴰ, &&_iff,
}
use fgw.Pjs.Forward.{
  Settings, Tries, is_retried, is_down, again, fail_over, should_retry, pass_or, answer, first_try,
}

module _ (cfg : Settings) where
  -- How many answers a request may still wait for.
  abbrev pub budget : Bool → ℕ → ℕ
  budget true count = (cfg.num_retries - count) + (cfg.num_retries + 2)
  budget false count = (cfg.num_retries - count) + 1

  -- A step that retries has a smaller budget after it.
  abbrev IsSpent : Tries → Bool × Tries → Type 0
  IsSpent s r = r.0 ≡ true → budget r.1.failover_left r.1.count + 1 ≤ budget s.failover_left s.count

  record IsKept (s : Tries) (r : Bool × Tries) : Type 0 where
    spent : r.0 ≡ true → r.1.count ≡ s.count + 1
    below : r.0 ≡ true → s.count < cfg.num_retries
    kept : r.0 ≡ false → r.1.count ≡ s.count
    left : r.1.failover_left ≡ s.failover_left

  again-IsKept : (status : Option ℕ) (s : Tries) → IsKept s (again cfg status s)
  unfolding again
  again-IsKept status s =
      if_cases (IsKept s) (is_retried cfg status)
        (λ h.
          if_cases (IsKept s) (ltb s.count cfg.num_retries)
            (λ k. record {
              spent = λ e. refl;
              below = λ e. ground arith;
              kept = λ e. absurd (ground arith);
              left = refl;
            })
            (λ k. record {
              spent = λ e. absurd (ground arith);
              below = λ e. absurd (ground arith);
              kept = λ e. refl;
              left = refl;
            }))
        (λ h.
          if_cases (λ (x : Tries). IsKept s (false, x)) (ltb 0 s.count)
            (λ k. record {
              spent = λ e. absurd (ground arith);
              below = λ e. absurd (ground arith);
              kept = λ e. refl;
              left = refl;
            })
            (λ k. record {
              spent = λ e. absurd (ground arith);
              below = λ e. absurd (ground arith);
              kept = λ e. refl;
              left = refl;
            }))

  budget_step : (b : Bool) (n : ℕ) → n < cfg.num_retries → budget b (n + 1) + 1 ≤ budget b n
  budget_step true n h = omega arith
  budget_step false n h = omega arith

  fail_over-IsSpent :
      (status : Option ℕ) (s : Tries) (r : Bool × Tries)
      → IsKept s r
      → IsSpent s (fail_over cfg status r)
  fail_over-IsSpent status s (true, s') k e =
      rw (k.spent refl, k.left) (budget_step s.failover_left s.count (k.below refl))
  fail_over-IsSpent status s (false, s') k e =
      if_cases (IsSpent s) (s'.failover_left && is_down status)
        (λ h e.
          let had : s.failover_left ≡ true = sym k.left ∙ ((&&_iff _ _).0 h).0 in
          rw had (omega arith))
        (λ h e. absurd (ground arith)) e

  should_retry-IsSpent : (status : Option ℕ) (s : Tries) → IsSpent s (should_retry cfg status s)
  unfolding should_retry
  should_retry-IsSpent status s =
      fail_over-IsSpent status s (again cfg status s) (again-IsKept status s)

  answer_within :
      (heads : List (Option ℕ)) (s : Tries)
      → budget s.failover_left s.count ≤ length heads
      → (head : Option ℕ) × (answer cfg heads s ≡ some head) × Memᴰ head heads
  unfolding answer
  answer_within [] s h = absurd (budget_pos s.failover_left s.count h)
    where
      budget_pos : (b : Bool) (n : ℕ) → ¬ (budget b n ≤ 0)
      budget_pos true n k = omega (arith, k)
      budget_pos false n k = omega (arith, k)
  answer_within (status ∷ more) s h = elim (Bool-cases (should_retry cfg status s).0) [
    | inl again' ↦
        let spent = should_retry-IsSpent status s again' in
        let (head, found, m) =
          answer_within more (should_retry cfg status s).1 (omega (arith, spent, h)) in
        (
          head,
          ap (λ b. pass_or cfg b status (answer cfg more (should_retry cfg status s).1)) again'
              ∙ found,
          Memᴰ.tail m,
        )
    | inr done ↦ (
      status,
      ap (λ b. pass_or cfg b status (answer cfg more (should_retry cfg status s).1)) done,
      Memᴰ.head refl,
    )
  ]

  -- A request is always answered: after at most one try and the retries on the balancer of the
  -- service, and as many again on the failover balancer where there is one, the client gets one of
  -- the heads with which the upstream answered.
  pub answer_lem :
      (has_failover : Bool) (heads : List (Option ℕ))
      → (if has_failover then 2 * (cfg.num_retries + 1) else cfg.num_retries + 1) ≤ length heads
      → (head : Option ℕ) × (answer cfg heads (first_try has_failover) ≡ some head)
        × Memᴰ head heads
  answer_lem true heads h = answer_within heads (first_try true) (omega (arith, h))
  answer_lem false heads h = answer_within heads (first_try false) (omega (arith, h))
