-- ===== src/Tests/Filtering.antt =====
-- Headers, a circuit that breaks, refused addresses and answers to names.
use fgw.Base.{
  ℕ, ◌+◌, ◌≡◌, refl, Bool, ◌||◌, List, [], ◌∷◌, ◌++◌, false, some, arith, Text, txt, text_eq,
  text_equality, lookup, leb, or_empty,
}
use fgw.Filters.Headers.{HeaderModifier, modify, set_value, add_value, remove_value, lookup-modify}
use fgw.Filters.CircuitBreak.{
  Config, States, Event, request, response, on_request, on_response, run_events, on_response-breaks,
}
use fgw.Filters.Dns.{
  add_domains, no_answers, find_answer, or_else, last_exact, first_suffix, find_answer-add_domains,
}

abbrev modifier : HeaderModifier
modifier = record {
  set = some ((txt "X-A", txt "1") ∷ []);
  add = some ((txt "x-a", txt "2") ∷ (txt "X-B", txt "3") ∷ []);
  remove = some (txt "X-C" ∷ []);
}

abbrev headers : List (Text × Text)
headers = (txt "x-a", txt "0") ∷ (txt "x-c", txt "9") ∷ []

lookup-modify_example :
    lookup (txt "x-a") (modify modifier headers)
    ≡ remove_value (txt "x-a") (or_empty modifier.remove) (
        add_value
          (txt "x-a")
          (or_empty modifier.add)
          (set_value (txt "x-a") (or_empty modifier.set) (lookup (txt "x-a") headers)))
lookup-modify_example = lookup-modify modifier (txt "x-a") headers

abbrev half : ℕ → ℕ → Bool
half e t = leb t (e + e)

abbrev config : Config
config = record {
  latency = some 100;
  error_count = some 1;
  concurrency = some 0;
  check_interval = some 1000;
  break_interval = 500;
}

abbrev loose : Config
loose = record {
  latency = some 100;
  error_count = some 1;
  concurrency = some 4;
  check_interval = some 1000;
  break_interval = 500;
}

abbrev running : States
running = record { start = 5; concurrency = 1; total = 1; error = 1; broken_before = 0 }

abbrev in_flight : List (Event half config)
in_flight = request 250 ∷ response 300 50 ∷ []

on_response-breaks_example :
    ((on_response half config 200 10 running).total ≡ 0)
    × ((on_response half config 200 10 running).error ≡ 0)
    × (on_request half config 600
          (run_events half config in_flight (on_response half config 200 10 running))
        ≡ (false, run_events half config in_flight (on_response half config 200 10 running)))
on_response-breaks_example =
    on_response-breaks half config 200 10 0 1 in_flight 600 running refl refl (omega arith)
      (omega arith) refl (omega arith, tt) (omega arith)

abbrev contains : Text → Text → Bool
contains mask ip = text_eq mask (ip ++ txt "/32") || text_eq mask (txt "10.0.0.0/8")

abbrev domains : List (Text × ℕ)
domains = (txt "*.a.com", 1) ∷ (txt "b.a.com", 2) ∷ (txt "*.com", 3) ∷ []

find_answer-add_domains_example :
    find_answer (add_domains no_answers domains) (txt "c.a.com")
    ≡ or_else (last_exact (txt "c.a.com") domains) (first_suffix (txt "c.a.com") domains)
find_answer-add_domains_example = find_answer-add_domains (txt "c.a.com") domains
