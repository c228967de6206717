-- ===== src/Tests/Proxying.antt =====
-- A circuit breaker, a port with two domains and a redirect of the former proxy.
use fgw.Base.{
  lookup, ap, ◌∙◌, text_eq_iff, starts_with-append, All, Memᴰ, index_of, all, starts_with, ◌↔◌, ◌≡◌,
  refl, true, List, [], ◌∷◌, ◌++◌, none, some, Text, txt, text_eq, text_equality, ends_with, ◌⊎◌,
  if◌then◌else◌, ltb, ◌&&◌,
}
use mathlib.Core.Bool.{false≢true}
use fgw.Pjs.CircuitBreaker.{
  Ratio, Settings, Breaker, Event, request, response, second, new_breaker, run_events, on_request,
  refresh_timer,
}
use fgw.Pjs.CircuitBreaker.Degraded.{run_events-degraded}
use fgw.Pjs.Route.{path_prefix, Head, Domain, find_route}
use fgw.Pjs.Route.Paths.{path_prefix_iff}
use fgw.Pjs.Route.Domains.{Rules, domain_of, handle_start}
use fgw.Pjs.Route.Hosts.{first_domain, candidates, handle_start-domain}
use fgw.Pjs.Route.Body.{receive, total, receive_lem}
use fgw.Pjs.Headers.{Modifier, Filter, of_request, run_filters}
use fgw.Pjs.Headers.Plain.{run_filters-plain}
use fgw.Pjs.Access
use fgw.Pjs.Access.{Acls, lets_in, addresses, on_request_lem}
use fgw.Pjs.Cors.{
  Config, exact, prefix, Accepts, allow_origin, answer_headers, answer_headers-allowed,
  answer_headers-refused,
}
use fgw.Pjs.WebServer.{get_ext, get_ext-dot, get_ext-dotless}
use fgw.Pjs.Variables.{Objects}

abbrev no_ratio : Ratio
no_ratio = record { num = 0; den = 1 }

abbrev breaker_settings : Settings
breaker_settings = record {
  min_request_amount = none;
  stat_time_window = none;
  slow_time_threshold = none;
  slow_amount_threshold = 0;
  slow_ratio_threshold = no_ratio;
  error_amount_threshold = 5;
  error_ratio_threshold = no_ratio;
  degraded_time_window = some 2;
  degraded_status_code = none;
}

abbrev broken : Breaker
broken = record new_breaker { total = 9; error_amount = 5; degraded = true }

abbrev traffic : List Event
traffic = second ∷ request ∷ response 0 1 503 20 ∷ second ∷ []

run_events-degraded_example :
    let b = (run_events breaker_settings traffic broken).0 in
    (on_request breaker_settings b ≡ (b, some 409))
    × (b.total ≡ 9)
    × ((refresh_timer breaker_settings b).0 ≡ record new_breaker { tick = 1 })
run_events-degraded_example = run_events-degraded breaker_settings traffic broken refl refl

abbrev any_path : Domain
any_path = record {
  route_type = none;
  http_rules = record { path = none; headers = []; methods = none; query_params = [] } ∷ [];
  grpc_rules = [];
}

abbrev rules : Rules
rules = (txt "*.com", any_path) ∷ (txt "*.a.com", any_path) ∷ (txt "b.com", any_path) ∷ []

abbrev head : Head
head = record { method = txt "GET"; path = txt "/a/b?c=d"; headers = [] }

handle_start-domain_example :
    let s =
      handle_start text_eq
        (some rules)
        (some (txt "c.org:80"))
        (some (txt "b.com"))
        true
        head
        (record { host = none; domain = none; route = none }) in
    (s.domain
      ≡ first_domain (some rules) (candidates (some (txt "c.org:80")) (some (txt "b.com")) true))
    × (s.route ≡ find_route text_eq (domain_of s.domain) head)
handle_start-domain_example =
    handle_start-domain text_eq (some rules) head (some (txt "c.org:80")) (some (txt "b.com")) true

receive_lem_example :
    receive 10 (4 ∷ 7 ∷ [])
    ≡ (if ltb 0 10 && ltb 10 (total (4 ∷ 7 ∷ [])) then none else some (4 ∷ 7 ∷ []))
receive_lem_example = receive_lem 10 (4 ∷ 7 ∷ [])

abbrev untyped : Modifier
untyped = record {
  type = none;
  set = some ((txt "x-id", txt "$http_host") ∷ []);
  add = none;
  remove = none;
}

abbrev request_head : Objects
request_head = (txt "http", λ name. txt "a.com") ∷ []

abbrev plain : Filter
plain = record {
  type = some (txt "RequestHeaderModifier");
  request_modifier = some untyped;
  response_modifier = none;
}

run_filters-plain_example :
    run_filters of_request request_head [] [] (plain ∷ []) []
    ≡ run_filters of_request [] [] [] (plain ∷ []) []
run_filters-plain_example = run_filters-plain request_head [] [] (plain ∷ []) [] tt (refl, tt)

path_prefix_iff_example : (path_prefix (txt "/a/b") (txt "/a") ≡ true) ↔ (
    (rest : Text) × (txt "/a/b" ≡ txt "/a" ++ rest)
    × ((ends_with (txt "/a") (txt "/") ≡ true)
        ⊎ ((rest ≡ []) ⊎ ((more : Text) × (rest ≡ b'/' ∷ more)))))
path_prefix_iff_example = path_prefix_iff (txt "/a/b") (txt "/a")

abbrev lists : Acls
lists = record {
  blacklist = txt "10.1.0.0/16" ∷ txt "1.2.3.4" ∷ [];
  whitelist = [];
  enable_xff = true;
  status = none;
}

on_request_lem_example :
    Access.on_request
      (λ mask ip. starts_with ip (txt "10.1."))
      lists
      (txt "1.2.3.4")
      (some (txt "10.0.0.1, 10.1.0.1"))
    ≡ (if all (lets_in (λ mask ip. starts_with ip (txt "10.1.")) lists) (
          addresses
            (λ mask ip. starts_with ip (txt "10.1."))
            lists
            (txt "1.2.3.4")
            (some (txt "10.0.0.1, 10.1.0.1")))
        then none
        else some 403)
on_request_lem_example =
    on_request_lem (λ mask ip. starts_with ip (txt "10.1.")) lists (txt "1.2.3.4")
      (some (txt "10.0.0.1, 10.1.0.1"))

abbrev cors : Config
cors = record {
  allow_credentials = true;
  expose_headers = none;
  allow_methods = some (txt "GET" ∷ txt "PUT" ∷ []);
  allow_headers = none;
  max_age = some (txt "5m");
  allow_origins = exact (txt "http://a.com") ∷ prefix (txt "https://") ∷ [];
}

answer_headers-allowed_example :
    lookup allow_origin
      (answer_headers text_eq cors (txt "OPTIONS") (some (txt "https://b.com")) [])
    ≡ some (txt "https://b.com")
answer_headers-allowed_example =
    answer_headers-allowed text_eq cors (txt "OPTIONS") (txt "https://b.com") []
      (prefix (txt "https://")) (Memᴰ.tail (Memᴰ.head refl)) (txt "b.com", refl) refl

other_origin : All (λ a. ¬ Accepts text_eq (txt "ftp://b.com") a) cors.allow_origins
unfolding text_eq starts_with
other_origin = (
  λ h. false≢true ((text_eq_iff (txt "ftp://b.com") (txt "http://a.com")).1 h),
  (
    λ h.
        false≢true
          (ap (λ s. starts_with s (txt "https://")) h.1 ∙ starts_with-append (txt "https://") h.0),
    tt,
  ),
)

answer_headers-refused_example :
    (answer_headers text_eq cors (txt "GET") (some (txt "ftp://b.com")) [] ≡ [])
    × (answer_headers text_eq cors (txt "GET") (some []) [] ≡ [])
    × (answer_headers text_eq cors (txt "GET") none [] ≡ [])
answer_headers-refused_example =
    answer_headers-refused text_eq cors (txt "GET") (txt "ftp://b.com") [] other_origin

get_ext-dot_example : get_ext (txt "/a.b/c.tar.gz") ≡ txt "gz"
unfolding index_of
get_ext-dot_example = get_ext-dot (txt "/a.b/c.tar") (txt "gz") refl refl

get_ext-dotless_example : (get_ext (txt "/a.b/readme") ≡ []) × (get_ext (txt "readme") ≡ [])
unfolding index_of
get_ext-dotless_example = get_ext-dotless (txt "/a.b") (txt "readme") refl refl
