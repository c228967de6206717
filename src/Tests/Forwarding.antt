-- ===== src/Tests/Forwarding.antt =====
-- A service of two endpoints of the former proxy: its health, its retries and its sticky cookie.
use fgw.Base.{
  ℕ, inr, ◌≡◌, refl, true, false, List, [], ◌∷◌, Option, none, some, arith, Text, txt, text_eq,
  text_equality, index_of, trim, all, if◌then◌else◌, Memᴰ,
}
use fgw.Pjs.FaultInjection
use fgw.Pjs.FaultInjection.{Fault, count_below, is_answered, on_request-share}
use fgw.Pjs.HealthCheck
use fgw.Pjs.HealthCheck.{
  Target, Cache, Outcome, answered, closed, Event, active_second, passive_second, outcome, refused,
  new_service, run_events, new_target, fail,
}
use fgw.Pjs.HealthCheck.Cached.{IsCurrent}
use fgw.Pjs.HealthCheck.Runs.{new_service-IsCurrent, run_events-IsCurrent}
use fgw.Pjs.Matches.{Match, Response, match_response}
use fgw.Pjs.Matches.Conditions.{is_matched, accepts, match_response_lem}
use fgw.Pjs.Forward
use fgw.Pjs.Forward.{answer, first_try}
use fgw.Pjs.Forward.Bound.{answer_lem}
use fgw.Pjs.Forward.Sticky.{
  sticky_target, cookie_pair, header_of, SetsTo, SetsOther, sticky_target-header,
}

abbrev checks : HealthCheck.Settings
checks = record { interval = 5; max_fails = 2; fail_timeout = 30; path = some (txt "/") }

abbrev endpoints : List Text
endpoints = txt "10.0.0.1:80" ∷ txt "10.0.0.2:80" ∷ []

abbrev wants_ok : List Match
wants_ok =
    record {
      status_codes = some (200 ∷ []);
      body = none;
      headers = some ((txt "X-Up", txt "yes") ∷ []);
    }
    ∷ []

abbrev response : Response
response = record { status = some 200; body = none; headers = (txt "x-up", txt "no") ∷ [] }

abbrev events : List Event
events =
    active_second
    ∷ outcome (txt "10.0.0.1:80") (answered response)
    ∷ refused (txt "10.0.0.1:80")
    ∷ passive_second
    ∷ []

run_events-IsCurrent_example :
    IsCurrent checks (run_events checks wants_ok events (new_service endpoints))
run_events-IsCurrent_example =
    run_events-IsCurrent checks wants_ok (omega arith) events (new_service endpoints)
      (new_service-IsCurrent checks endpoints (omega arith))

match_response_lem_example :
    is_matched (match_response wants_ok response) ≡ all (accepts response) wants_ok
match_response_lem_example = match_response_lem wants_ok response

abbrev retries : Forward.Settings
retries = record { num_retries = 1; retry_on = none }

abbrev heads : List (Option ℕ)
heads = some 503 ∷ none ∷ some 502 ∷ some 500 ∷ []

answer_lem_example :
    (head : Option ℕ) × (answer retries heads (first_try true) ≡ some head) × Memᴰ head heads
answer_lem_example = answer_lem retries true heads (omega arith)

-- The last two units of an endpoint before its port, as its hash.
abbrev hash : Text → Text
hash a = if text_eq a (txt "10.0.0.1:80") then txt "11" else txt "22"

hash_injective :
    (b : Text) → Memᴰ b endpoints → hash b ≡ hash (txt "10.0.0.2:80") → b ≡ txt "10.0.0.2:80"
unfolding text_eq
hash_injective b (Memᴰ.head e) h = absurd (differ (rw e at h))
  where
    differ : ¬ (txt "11" ≡ txt "22")
    differ k = cc
hash_injective b (Memᴰ.tail (Memᴰ.head e)) h = e
hash_injective b (Memᴰ.tail (Memᴰ.tail m)) h = elim m [ ]

abbrev sid_part : Text
sid_part = 32 ∷ cookie_pair hash (txt "sid") (txt "10.0.0.2:80")

sid_part-SetsTo : SetsTo hash (txt "sid") (txt "22") sid_part
unfolding text_eq index_of trim
sid_part-SetsTo = record {
  key = txt " sid";
  val = txt "22";
  written = refl;
  whole = refl;
  key_plain = refl;
  val_plain = refl;
  key_is = refl;
  val_is = refl;
}

other-SetsOther : SetsOther hash (txt "sid") (txt " b=2")
unfolding text_eq index_of trim
other-SetsOther = (refl, inr (txt " b", txt "2", refl, refl, refl))

sticky_target-header_example :
    sticky_target hash endpoints
      (txt "sid")
      (text_eq (txt "10.0.0.1:80"))
      false
      (some (header_of hash (txt "a=1" ∷ sid_part ∷ txt " b=2" ∷ [])))
    ≡ some (txt "10.0.0.2:80")
unfolding text_eq index_of trim
sticky_target-header_example =
    sticky_target-header hash endpoints (txt "sid") (txt "10.0.0.2:80")
      (text_eq (txt "10.0.0.1:80")) (txt "a=1" ∷ []) sid_part (txt " b=2" ∷ [])
      (Memᴰ.tail (Memᴰ.head refl)) hash_injective refl (refl, tt) sid_part-SetsTo
      (other-SetsOther, tt) refl

abbrev some_fault : Fault
some_fault = record {
  delay = none;
  abort = some (record { percent = some 30; status = some 503; message = none });
}

abbrev faulty : FaultInjection.Settings
faulty = record { route = none; domain = some some_fault; config = none; route_type = none }

on_request-share_example :
    count_below
      (λ r.
        is_answered
          (FaultInjection.on_request faulty (record { delays = 7; amount = λ n. 0; aborts = r })).1)
      100
    ≡ 31
on_request-share_example =
    on_request-share faulty (record { percent = some 30; status = some 503; message = none })
      (record { delays = 7; amount = λ n. 0; aborts = 0 }) refl
