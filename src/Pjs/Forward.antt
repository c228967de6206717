-- ===== src/Pjs/Forward.antt =====
-- pjs/http/forward.js: the retries of a request, with the switch to the failover balancer, and the
-- sticky cookie. `hash` is algo.hash, as the text that it is printed as. The wait before a retry, the
-- connection and the metrics but for the counters of retries are left out.
pub mod Bound
pub mod Sticky
use fgw.Base.{
  ℕ, ◌+◌, ◌-◌, ◌*◌, Bool, true, false, not, ◌&&◌, ◌||◌, List, [], ◌∷◌, ◌++◌, map, Option, none,
  some, Text, txt, truthy, text_eq, text_equality, ends_with, split, trim, take, lookup, insert,
  any, all, ltb, leb, ◌==◌, if◌then◌else◌,
}

abbrev is_digit : ℕ → Bool
is_digit c = leb b'0' c && leb c b'9'

abbrev add_digit : ℕ → ℕ → ℕ
add_digit n c = 10 * n + (c - b'0')

abbrev digits_from : ℕ → Text → ℕ
digits_from n [] = n
digits_from n (c ∷ s) = digits_from (add_digit n c) s

-- `text | 0`, for decimal digits, and 0 for anything else.
unfoldable pub to_int : Text → ℕ
to_int s = if all is_digit (trim s) then digits_from 0 (trim s) else 0

-- Whether a code of RetryOn enters a status into retryStatusCodes.
unfoldable pub code_covers : Text → ℕ → Bool
unfolding to_int
code_covers code status =
    if ends_with code (txt "xx")
    then leb (100 * to_int (take 1 code)) status && ltb status (100 * to_int (take 1 code) + 100)
    else status == to_int code

abbrev codes_of : Option Text → List Text
codes_of none = txt "5xx" ∷ []
codes_of (some s) = if truthy s then split b',' s else txt "5xx" ∷ []

-- serviceConfig.Retry, with 0 for a NumRetries that is not set.
pub record Settings : Type 0 where
  pub num_retries : ℕ
  pub retry_on : Option Text

-- `_serviceConfig.retryStatusCodes[statusCode]`.
unfoldable pub is_retried : Settings → Option ℕ → Bool
unfolding code_covers
is_retried cfg none = false
is_retried cfg (some status) = any (λ code. code_covers code status) (codes_of cfg.retry_on)

-- The balancers of a service, as far as the retries tell them apart.
pub data Balancer : Type 0 where
  target failover : Balancer

pub record Counters : Type 0 where
  pub retry : ℕ
  pub success : ℕ
  pub limit : ℕ
  pub backoff : ℕ

pub record Tries : Type 0 where
  pub count : ℕ
  pub balancer : Balancer
  pub failover_left : Bool
  pub counters : Counters

-- `!statusCode || statusCode > '499'`.
abbrev pub is_down : Option ℕ → Bool
is_down none = true
is_down (some status) = status == 0 || ltb 499 status

module _ (cfg : Settings) where
  -- The initializer of `again`.
  unfoldable pub again : Option ℕ → Tries → Bool × Tries
  unfolding is_retried
  again status s =
      let c = s.counters in
      if is_retried cfg status
      then (if ltb s.count cfg.num_retries
          then (
            true,
            record s {
              count = s.count + 1;
              counters = record c { retry = c.retry + 1; backoff = c.backoff + 1 };
            },
          )
          else (false, record s { counters = record c { limit = c.limit + 1 } }))
      else (
        false,
        if ltb 0 s.count then record s { counters = record c { success = c.success + 1 } } else s,
      )

  abbrev pub fail_over : Option ℕ → Bool × Tries → Bool × Tries
  fail_over status (true, s) = (true, s)
  fail_over status (false, s) =
      if s.failover_left && is_down status
      then (true, record s { count = 0; balancer = failover; failover_left = false })
      else (false, s)

  unfoldable pub should_retry : Option ℕ → Tries → Bool × Tries
  unfolding again
  should_retry status s = fail_over status (again status s)

  abbrev pub pass_or : Bool → Option ℕ → Option (Option ℕ) → Option (Option ℕ)
  pass_or true status later = later
  pass_or false status later = some status

  -- The head that reaches the client when the upstream answers with these in turn, and `none` when the
  -- request is still retried after the last.
  unfoldable pub answer : List (Option ℕ) → Tries → Option (Option ℕ)
  unfolding should_retry
  answer [] s = none
  answer (status ∷ more) s = let r = should_retry status s in pass_or r.0 status (answer more r.1)

abbrev pub no_counters : Counters
no_counters = record { retry = 0; success = 0; limit = 0; backoff = 0 }

-- The start of a request, with whether the service has a failover balancer.
abbrev pub first_try : Bool → Tries
first_try has_failover = record {
  count = 0;
  balancer = target;
  failover_left = has_failover;
  counters = no_counters;
}
